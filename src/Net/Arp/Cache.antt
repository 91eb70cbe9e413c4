-- ===== src/Net/Arp/Cache.antt =====
-- The cache as a map from addresses to hardware addresses.
use gooos.Common.{
  ℕ, zero, suc, ◌+◌, ◌<◌, ◌≤◌, ◌≡◌, ◌⊎◌, refl, sym, ap, ◌∙◌, false, ◌&&◌, ◌||◌, none, some, List,
  [], ◌∷◌, ltb, ◌==◌, Bool-cases, inl, inr, if◌then◌else◌, length, get_elem?, set, arith,
}
use gooos.Net.Bytes.{Mac}
use gooos.Net.Arp.{
  ArpEntry, entry, arp_lookup, refresh, take_unused, oldest_from, oldest, arp_learn,
}

lookup-refresh :
    (now ip other : ℕ) (mac : Mac) (es : List ArpEntry)
    → let (es', known) = refresh now ip mac es in
      arp_lookup other es' ≡ (if known && ip == other then some mac else arp_lookup other es)
unfolding refresh arp_lookup
lookup-refresh now ip other mac [] = refl
lookup-refresh now ip other mac (e ∷ es) = ground (arith, lookup-refresh now ip other mac es)

-- an address that is not known has no entry
unknown-lookup :
    (now ip : ℕ) (mac : Mac) (es : List ArpEntry)
    → (refresh now ip mac es).1 ≡ false
    → arp_lookup ip es ≡ none
unfolding refresh arp_lookup
unknown-lookup now ip mac [] h = refl
unknown-lookup now ip mac (e ∷ es) h = ground (arith, h, unknown-lookup now ip mac es)

lookup-take_unused :
    (now ip other : ℕ) (mac : Mac) (es : List ArpEntry)
    → arp_lookup ip es ≡ none
    → let (es', ok) = take_unused (entry now ip mac) es in
      arp_lookup other es' ≡ (if ok && ip == other then some mac else arp_lookup other es)
unfolding take_unused arp_lookup
lookup-take_unused now ip other mac [] h = refl
lookup-take_unused now ip other mac (e ∷ es) h =
    ground (arith, h, lookup-take_unused now ip other mac es)

-- the cache without the entry at an index
unfoldable pub forget : ℕ → List ArpEntry → List ArpEntry
forget i [] = []
forget zero (e ∷ es) = (record e { used = false }) ∷ es
forget (suc i) (e ∷ es) = e ∷ forget i es

lookup-set :
    (now ip other : ℕ) (mac : Mac) (es : List ArpEntry) (i : ℕ)
    → i < length es
    → arp_lookup ip es ≡ none
    → arp_lookup other (set es i (entry now ip mac))
      ≡ (if ip == other then some mac else arp_lookup other (forget i es))
unfolding arp_lookup forget
lookup-set now ip other mac [] i low h = absurd (omega arith)
lookup-set now ip other mac (e ∷ es) zero low h = ground (arith, h)
lookup-set now ip other mac (e ∷ es) (suc i) low h =
    ground (arith, h, lookup-set now ip other mac es i (omega arith))

-- `k` is where the search of `es`, counted from `i`, ends when it starts with `o` of age `a`; `best` is
-- the age there.
record Chosen (i o a : ℕ) (es : List ArpEntry) (k : ℕ) : Type 0 where
  best : ℕ
  place :
      ((k ≡ o) × (best ≡ a))
      ⊎ ((n : ℕ) × (e : ArpEntry) × (k ≡ i + n) × (get_elem? es n ≡ some e) × (e.age ≡ best))
  low : best ≤ a
  least : (n : ℕ) (e : ArpEntry) → get_elem? es n ≡ some e → best ≤ e.age

-- one entry further, with the same oldest so far or with that entry
Chosen-keep :
    (i o a k : ℕ) (x : ArpEntry) (es : List ArpEntry)
    → a ≤ x.age
    → Chosen (suc i) o a es k
    → Chosen i o a (x ∷ es) k
Chosen-keep i o a k x es young c = record {
  best = c.best;
  place = elim c.place [
    | inl start ↦ inl start
    | inr (n, e, at, found, aged) ↦ inr (suc n, e, omega (arith, at), found, aged)
  ];
  low = c.low;
  least = least_keep;
}
  where
    least_keep : (n : ℕ) (e : ArpEntry) → get_elem? (x ∷ es) n ≡ some e → c.best ≤ e.age
    least_keep zero e at = ground (arith, at, c.low)
    least_keep (suc n) e at = c.least n e at

Chosen-take :
    (i o a k : ℕ) (x : ArpEntry) (es : List ArpEntry)
    → x.age < a
    → Chosen (suc i) i x.age es k
    → Chosen i o a (x ∷ es) k
Chosen-take i o a k x es old c = record {
  best = c.best;
  place = elim c.place [
    | inl (at, aged) ↦ inr (0, x, omega (arith, at), refl, sym aged)
    | inr (n, e, at, found, aged) ↦ inr (suc n, e, omega (arith, at), found, aged)
  ];
  low = omega (arith, c.low);
  least = least_take;
}
  where
    least_take : (n : ℕ) (e : ArpEntry) → get_elem? (x ∷ es) n ≡ some e → c.best ≤ e.age
    least_take zero e at = ground (arith, at, c.low)
    least_take (suc n) e at = c.least n e at

oldest_from-Chosen : (i o a : ℕ) (es : List ArpEntry) → Chosen i o a es (oldest_from i o a es)
unfolding oldest_from
oldest_from-Chosen i o a [] = record {
  best = a;
  place = inl (refl, refl);
  low = omega arith;
  least = λ n e at. cc;
}
oldest_from-Chosen i o a (x ∷ es) = elim (Bool-cases (ltb x.age a)) [
  | inl old ↦
      rw old
        (Chosen-take i o a _ x es (ground (arith, old)) (oldest_from-Chosen (suc i) i x.age es))
  | inr young ↦
      rw young
        (Chosen-keep i o a _ x es (ground (arith, young)) (oldest_from-Chosen (suc i) o a es))
]

-- the entry at `k`, which no entry is older than
pub record Oldest (es : List ArpEntry) (k : ℕ) : Type 0 where
  pub found : ArpEntry
  pub at : get_elem? es k ≡ some found
  pub least : (n : ℕ) (e : ArpEntry) → get_elem? es n ≡ some e → found.age ≤ e.age

-- the end of a search that started at index 0
Chosen-Oldest :
    (x : ArpEntry) (es : List ArpEntry) (k : ℕ) → Chosen 1 0 x.age es k → Oldest (x ∷ es) k
Chosen-Oldest x es k c = elim c.place [
  | inl (at, aged) ↦ record {
    found = x;
    at = ap (get_elem? (x ∷ es)) at;
    least = λ n e there. omega (arith, aged, least_all n e there);
  }
  | inr (n, e', at, found, aged) ↦ record {
    found = e';
    at = ap (get_elem? (x ∷ es)) {x = k} {y = suc n} (omega (arith, at)) ∙ found;
    least = λ m e there. omega (arith, aged, least_all m e there);
  }
]
  where
    least_all : (n : ℕ) (e : ArpEntry) → get_elem? (x ∷ es) n ≡ some e → c.best ≤ e.age
    least_all zero e at = ground (arith, at, c.low)
    least_all (suc n) e at = c.least n e at

pub oldest-Oldest : (x : ArpEntry) (es : List ArpEntry) → Oldest (x ∷ es) (oldest (x ∷ es))
unfolding oldest
oldest-Oldest x es = Chosen-Oldest x es _ (oldest_from-Chosen 1 0 x.age es)

pub get-lt : (es : List ArpEntry) (k : ℕ) (e : ArpEntry) → get_elem? es k ≡ some e → k < length es
get-lt [] k e h = cc
get-lt (x ∷ es) zero e h = omega arith
get-lt (x ∷ es) (suc k) e h = omega (arith, get-lt es k e h)

-- `arpLearn` on a cache that has entries: the address then leads to the hardware address learnt, and
-- every other leads where it did, unless the address was not known and all entries were in use: then an
-- entry that no other is older than is given up.
pub arp_learn-lookup :
    (now ip other : ℕ) (mac : Mac) (x : ArpEntry) (es : List ArpEntry)
    → let cache : List ArpEntry = x ∷ es in
      let stays = (refresh now ip mac cache).1 || (take_unused (entry now ip mac) cache).1 in
      Oldest cache (oldest cache)
      × (arp_lookup other (arp_learn now ip mac cache) ≡ (
          if ip == other
          then some mac
          else if stays
          then arp_lookup other cache
          else arp_lookup other (forget (oldest cache) cache)))
unfolding arp_learn
arp_learn-lookup now ip other mac x es =
    let cache : List ArpEntry = x ∷ es in
    let old = oldest-Oldest x es in
    elim (Bool-cases (refresh now ip mac cache).1) [
      | inl known ↦ (old, ground (arith, known, lookup-refresh now ip other mac cache))
      | inr unknown ↦
          let fresh_ip = unknown-lookup now ip mac cache unknown in
          elim (Bool-cases (take_unused (entry now ip mac) cache).1) [
            | inl taken ↦ (
              old,
              ground (arith, unknown, taken, lookup-take_unused now ip other mac cache fresh_ip),
            )
            | inr full ↦ (
              old,
              ground (
                arith,
                unknown,
                full,
                lookup-set now ip other mac cache (oldest cache)
                    (get-lt cache (oldest cache) old.found old.at) fresh_ip,
              ),
            )
          ]
    ]
