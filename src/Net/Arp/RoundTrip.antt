-- ===== src/Net/Arp/RoundTrip.antt =====
-- What is built is parsed back, and a request for this host is answered.
use gooos.Common.{
  not, ◌&&◌, ◌==◌, if◌then◌else◌, ℕ, ◌<◌, ◌≡◌, refl, ap, ◌∙◌, none, some, List, ◌∷◌, arith,
}
use gooos.Net.Bytes.{Mac, word, double_word}
use gooos.Net.Arp.{ArpPacket, ArpEntry, arp_parse, arp_build, arp_lookup, arp_learn, arp_handle}
use gooos.Net.Arp.Cache.{arp_learn-lookup}

-- An ARP packet that `arpBuild` makes, with addresses of four bytes, is parsed back by `arpParse` into
-- the same fields.
pub arp_parse-build :
    (op : ℕ) (sha : Mac) (spa : ℕ) (tha : Mac) (tpa : ℕ)
    → op < 65536
    → spa < 4294967296
    → tpa < 4294967296
    → arp_parse (arp_build op sha spa tha tpa)
      ≡ some (record { op = op; sha = sha; spa = spa; tha = tha; tpa = tpa })
unfolding arp_parse arp_build
arp_parse-build op sha spa tha tpa op_in spa_in tpa_in =
    let x = word op_in in
    let y = double_word spa_in in
    let z = double_word tpa_in in
    λ i. some (record { op = x i; sha = sha; spa = y i; tha = tha; tpa = z i })

-- the packet was parsed
arp_handle_at :
    (now our_ip : ℕ) (our_mac : Mac) (payload : List ℕ) (es : List ArpEntry) (p : ArpPacket)
    → arp_parse payload ≡ some p
    → arp_handle now our_ip our_mac payload es ≡ (
      if p.spa == 0 then es else arp_learn now p.spa p.sha es,
      if p.op == 1 && p.tpa == our_ip && not (our_ip == 0)
          then some (p.sha, arp_build 2 our_mac our_ip p.sha p.spa)
          else none,
    )
unfolding arp_handle
arp_handle_at now our_ip our_mac payload es p parsed = rw (parsed, arp_handle) refl

-- Two hosts with addresses other than 0 resolve each other: a request that one builds makes the other
-- learn its address and answer to it, and when the first handles the answer, its cache leads from the
-- address it asked for to the other's hardware address.
pub arp_exchange :
    (now now' our_ip their_ip : ℕ) (our_mac their_mac blank : Mac) (cache : List ArpEntry)
    (x : ArpEntry) (es : List ArpEntry)
    → 0 < our_ip
    → our_ip < 4294967296
    → 0 < their_ip
    → their_ip < 4294967296
    → let request = arp_build 1 their_mac their_ip blank our_ip in
      let answer = arp_build 2 our_mac our_ip their_mac their_ip in
      (arp_handle now our_ip our_mac request cache
        ≡ (arp_learn now their_ip their_mac cache, some (their_mac, answer)))
      × (arp_lookup our_ip (arp_handle now' their_ip their_mac answer (x ∷ es)).0 ≡ some our_mac)
arp_exchange now now' our_ip their_ip our_mac their_mac blank cache x es ours our_in theirs
      their_in =
    let request = arp_build 1 their_mac their_ip blank our_ip in
    let answer = arp_build 2 our_mac our_ip their_mac their_ip in
    let asked =
      arp_handle_at now our_ip our_mac request cache _
        (arp_parse-build 1 their_mac their_ip blank our_ip (omega arith) their_in our_in) in
    let answered =
      arp_handle_at now' their_ip their_mac answer (x ∷ es) _
        (arp_parse-build 2 our_mac our_ip their_mac their_ip (omega arith) our_in their_in) in
    (
      asked ∙ ground arith,
      ap (λ r. arp_lookup our_ip r.0) answered
          ∙ ground (arith, (arp_learn-lookup now' our_ip our_ip our_mac x es).1),
    )
