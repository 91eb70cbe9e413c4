-- ===== src/Net/Arp/Learning.antt =====
-- What `arpLearn` (src/arp.go) makes of the entries of the cache, their ages included.
use gooos.Common.{
  ℕ, zero, suc, ◌<◌, ◌≡◌, refl, ◌∙◌, Bool, true, false, ◌&&◌, ◌||◌, none, some, List, [], ◌∷◌, ◌==◌,
  Option, Bool-cases, inl, inr, if◌then◌else◌, length, set, arith,
}
use mathlib.Core.Option
use gooos.Net.Bytes.{Mac}
use gooos.Net.Arp.{ArpEntry, holds, entry, arp_lookup, refresh, take_unused, oldest, arp_learn}
use gooos.Net.Arp.Cache.{forget, Oldest, oldest-Oldest, get-lt}

-- the entry that the cache has for an address
unfoldable pub find : ℕ → List ArpEntry → Option ArpEntry
find ip [] = none
find ip (e ∷ es) = let later = find ip es in if holds ip e then some e else later

abbrev pub is_found : Option ArpEntry → Bool
is_found none = false
is_found (some e) = true

-- some entry is unused
abbrev pub has_unused : List ArpEntry → Bool
has_unused [] = false
has_unused (e ∷ es) = if e.used then has_unused es else true

lookup-find :
    (ip : ℕ) (es : List ArpEntry) → arp_lookup ip es ≡ Option.map (λ e. e.mac) (find ip es)
unfolding find arp_lookup
lookup-find ip [] = refl
lookup-find ip (e ∷ es) = elim (Bool-cases (holds ip e)) [
  | inl here ↦ rw here refl
  | inr elsewhere ↦ rw elsewhere (lookup-find ip es)
]

refresh_known :
    (now ip : ℕ) (mac : Mac) (es : List ArpEntry)
    → (refresh now ip mac es).1 ≡ is_found (find ip es)
unfolding find refresh
refresh_known now ip mac [] = refl
refresh_known now ip mac (e ∷ es) = ground (arith, refresh_known now ip mac es)

take_unused_room : (new : ArpEntry) (es : List ArpEntry) → (take_unused new es).1 ≡ has_unused es
unfolding take_unused
take_unused_room new [] = refl
take_unused_room new (e ∷ es) = ground (arith, take_unused_room new es)

refreshed :
    (now ip : ℕ) (mac : Mac) (e : ArpEntry)
    → holds ip e ≡ true
    → record e { mac = mac; age = now } ≡ entry now ip mac
refreshed now ip mac e h =
    let at : e.ip ≡ ip = ground (arith, h) in
    let used : e.used ≡ true = ground (arith, h) in
    λ i. record { ip = at i; mac = mac; age = now; used = used i }

find-refresh :
    (now ip other : ℕ) (mac : Mac) (es : List ArpEntry)
    → let (es', known) = refresh now ip mac es in
      find other es' ≡ (if known && ip == other then some (entry now ip mac) else find other es)
unfolding refresh find
find-refresh now ip other mac [] = refl
find-refresh now ip other mac (e ∷ es) = elim (Bool-cases (holds ip e)) [
  | inl here ↦
      let new = refreshed now ip mac e here in
      let at : e.ip ≡ ip = ground (arith, here) in ground (arith, here, new, at)
  | inr elsewhere ↦ ground (arith, elsewhere, find-refresh now ip other mac es)
]

find-take_unused :
    (now ip other : ℕ) (mac : Mac) (es : List ArpEntry)
    → find ip es ≡ none
    → let (es', ok) = take_unused (entry now ip mac) es in
      find other es' ≡ (if ok && ip == other then some (entry now ip mac) else find other es)
unfolding take_unused find
find-take_unused now ip other mac [] h = refl
find-take_unused now ip other mac (e ∷ es) h =
    ground (arith, h, find-take_unused now ip other mac es)

find-set :
    (now ip other : ℕ) (mac : Mac) (es : List ArpEntry) (i : ℕ)
    → i < length es
    → find ip es ≡ none
    → find other (set es i (entry now ip mac))
      ≡ (if ip == other then some (entry now ip mac) else find other (forget i es))
unfolding find forget
find-set now ip other mac [] i low h = absurd (omega arith)
find-set now ip other mac (e ∷ es) zero low h = ground (arith, h)
find-set now ip other mac (e ∷ es) (suc i) low h =
    ground (arith, h, find-set now ip other mac es i (omega arith))

absent : (o : Option ArpEntry) → is_found o ≡ false → o ≡ none
absent none h = refl
absent (some e) h = absurd (ground (arith, h))

-- `arpLearn` on a cache that has entries: the address then has an entry with the hardware address learnt
-- and the present time; every other address has the entry it had when the address was known or some
-- entry was unused. When all entries were in use for other addresses, one is given up, and no entry is
-- older than it. What `arpLookup` answers is the hardware address of the entry.
pub arp_learn_refines :
    (now ip other : ℕ) (mac : Mac) (x : ArpEntry) (es : List ArpEntry)
    → let cache : List ArpEntry = x ∷ es in
      let stays = is_found (find ip cache) || has_unused cache in
      let cache' = arp_learn now ip mac cache in
      Oldest cache (oldest cache)
      × (find other cache' ≡ (
          if ip == other
          then some (entry now ip mac)
          else if stays
          then find other cache
          else find other (forget (oldest cache) cache)))
      × (arp_lookup other cache' ≡ Option.map (λ e. e.mac) (find other cache'))
unfolding arp_learn
arp_learn_refines now ip other mac x es =
    let cache : List ArpEntry = x ∷ es in
    let old = oldest-Oldest x es in
    let known_eq = refresh_known now ip mac cache in
    let room_eq = take_unused_room (entry now ip mac) cache in
    let learnt = lookup-find other (arp_learn now ip mac cache) in
    elim (Bool-cases (is_found (find ip cache))) [
      | inl known ↦
          let flag = known_eq ∙ known in
          (old, ground (arith, flag, known, find-refresh now ip other mac cache), learnt)
      | inr unknown ↦
          let flag = known_eq ∙ unknown in
          let none_yet = absent (find ip cache) unknown in
          elim (Bool-cases (has_unused cache)) [
            | inl room ↦
                let flag2 = room_eq ∙ room in
                (
                  old,
                  ground (
                    arith,
                    flag,
                    unknown,
                    flag2,
                    room,
                    find-take_unused now ip other mac cache none_yet,
                  ),
                  learnt,
                )
            | inr full ↦
                let flag2 = room_eq ∙ full in
                let placed =
                  find-set now ip other mac cache (oldest cache)
                    (get-lt cache (oldest cache) old.found old.at) none_yet in
                (old, ground (arith, flag, unknown, flag2, full, placed), learnt)
          ]
    ]
