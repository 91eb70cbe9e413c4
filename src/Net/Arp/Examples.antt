-- ===== src/Net/Arp/Examples.antt =====
-- A cache of two entries that are both in use, and the theorems at it.
use gooos.Common.{ℕ, ◌≡◌, refl, ◌||◌, none, some, List, [], ◌∷◌, ◌==◌, if◌then◌else◌, arith}
use mathlib.Core.Option
use gooos.Net.Bytes.{Mac}
use gooos.Net.Arp.{
  ArpPacket, ArpEntry, entry, arp_parse, arp_build, arp_lookup, arp_learn, arp_handle, refresh,
  take_unused, oldest,
}
use gooos.Net.Arp.Cache.{Oldest, forget}
use gooos.Net.Arp.Learning.{find, is_found, has_unused, arp_learn_refines}
use gooos.Net.Arp.RoundTrip.{arp_parse-build, arp_exchange}

abbrev pub mac : ℕ → Mac
mac n = record { b0 = 82; b1 = 84; b2 = 0; b3 = 18; b4 = 52; b5 = n }

abbrev pub cache : List ArpEntry
cache = entry 30 167772674 (mac 2) ∷ entry 20 167772675 (mac 3) ∷ []

-- the second entry is the older one
gives_up : arp_lookup 167772675 (arp_learn 40 167772676 (mac 4) cache) ≡ none
unfolding arp_lookup arp_learn refresh take_unused oldest gooos.Net.Arp.oldest_from
gives_up = refl

arp_learn_refines_example :
    let stays = is_found (find 167772676 cache) || has_unused cache in
    let cache' = arp_learn 40 167772676 (mac 4) cache in
    Oldest cache (oldest cache)
    × (find 167772674 cache' ≡ (
        if 167772676 == 167772674
        then some (entry 40 167772676 (mac 4))
        else if stays
        then find 167772674 cache
        else find 167772674 (forget (oldest cache) cache)))
    × (arp_lookup 167772674 cache' ≡ Option.map (λ e. e.mac) (find 167772674 cache'))
arp_learn_refines_example =
    arp_learn_refines 40 167772676 167772674 (mac 4) (entry 30 167772674 (mac 2))
      (entry 20 167772675 (mac 3) ∷ [])

arp_parse-build_example :
    arp_parse (arp_build 1 (mac 1) 167772687 (mac 0) 167772674)
    ≡ some (record { op = 1; sha = mac 1; spa = 167772687; tha = mac 0; tpa = 167772674 })
arp_parse-build_example =
    arp_parse-build 1 (mac 1) 167772687 (mac 0) 167772674 (omega arith) (omega arith) (omega arith)

arp_exchange_example :
    let request = arp_build 1 (mac 2) 167772674 (mac 0) 167772687 in
    let answer = arp_build 2 (mac 1) 167772687 (mac 2) 167772674 in
    (arp_handle 40 167772687 (mac 1) request cache
      ≡ (arp_learn 40 167772674 (mac 2) cache, some (mac 2, answer)))
    × (arp_lookup 167772687 (arp_handle 41 167772674 (mac 2) answer cache).0 ≡ some (mac 1))
arp_exchange_example =
    arp_exchange 40 41 167772687 167772674 (mac 1) (mac 2) (mac 0) cache
      (entry 30 167772674 (mac 2)) (entry 20 167772675 (mac 3) ∷ []) (omega arith) (omega arith)
      (omega arith) (omega arith)
