-- ===== src/Net/Arp.antt =====
-- ARP (src/arp.go): packets, and the cache of addresses. The counters of `netStats` are left out.
pub mod RoundTrip
pub mod Cache
pub mod Learning
pub mod Examples
use gooos.Common.{
  ℕ, zero, suc, ◌+◌, ◌/◌, Bool, true, false, not, ◌&&◌, ◌||◌, Option, none, some, List, [], ◌∷◌,
  ◌++◌, ltb, leb, ◌==◌, if◌then◌else◌, length, get_or, set, take, drop, u8,
}
use gooos.Net.Bytes.{read_u16, read_u32, u32_bytes, Mac, read_mac, mac_bytes}

pub record ArpPacket : Type 0 where
  pub op : ℕ
  pub sha : Mac
  pub spa : ℕ
  pub tha : Mac
  pub tpa : ℕ

-- `arpParse`; the fields that it checks are constants in what it returns, and `none` is `ok=false`
unfoldable pub arp_parse : List ℕ → Option ArpPacket
arp_parse p =
    if ltb (length p) 28
    then none
    else if not (read_u16 p 0 == 1)
        || not (read_u16 p 2 == 2048)
        || not (get_or p 4 0 == 6)
        || not (get_or p 5 0 == 4)
    then none
    else some (record {
      op = read_u16 p 6;
      sha = read_mac p 8;
      spa = read_u32 p 14;
      tha = read_mac p 18;
      tpa = read_u32 p 24;
    })

-- `arpBuild`
unfoldable pub arp_build : ℕ → Mac → ℕ → Mac → ℕ → List ℕ
arp_build op sha spa tha tpa =
    0
    ∷ 1
    ∷ 8
    ∷ 0
    ∷ 6
    ∷ 4
    ∷ u8 (op / 256)
    ∷ u8 op
    ∷ (mac_bytes sha ++ u32_bytes spa ++ mac_bytes tha ++ u32_bytes tpa)

pub record ArpEntry : Type 0 where
  pub ip : ℕ
  pub mac : Mac
  pub age : ℕ
  pub used : Bool

abbrev pub holds : ℕ → ArpEntry → Bool
holds ip e = e.used && e.ip == ip

-- `arpLookup`
unfoldable pub arp_lookup : ℕ → List ArpEntry → Option Mac
arp_lookup ip [] = none
arp_lookup ip (e ∷ es) = let later = arp_lookup ip es in if holds ip e then some e.mac else later

-- the first loop of `arpLearn`: the entry of the address, if there is one, is brought up to date
unfoldable pub refresh : ℕ → ℕ → Mac → List ArpEntry → List ArpEntry × Bool
refresh now ip mac [] = ([], false)
refresh now ip mac (e ∷ es) =
    let (rest, found) = refresh now ip mac es in
    if holds ip e then (record e { mac = mac; age = now } ∷ es, true) else (e ∷ rest, found)

abbrev pub entry : ℕ → ℕ → Mac → ArpEntry
entry now ip mac = record { ip = ip; mac = mac; age = now; used = true }

-- the second loop: the first unused entry is taken
unfoldable pub take_unused : ArpEntry → List ArpEntry → List ArpEntry × Bool
take_unused new [] = ([], false)
take_unused new (e ∷ es) =
    let (rest, found) = take_unused new es in if e.used then (e ∷ rest, found) else (new ∷ es, true)

-- the third loop, at index `i` with the oldest so far and its age
unfoldable pub oldest_from : ℕ → ℕ → ℕ → List ArpEntry → ℕ
oldest_from i oldest age [] = oldest
oldest_from i oldest age (e ∷ es) =
    let younger = oldest_from (suc i) oldest age es in
    let older = oldest_from (suc i) i e.age es in if ltb e.age age then older else younger

unfoldable pub oldest : List ArpEntry → ℕ
oldest [] = 0
oldest (e ∷ es) = oldest_from 1 0 e.age es

-- `arpLearn`
unfoldable pub arp_learn : ℕ → ℕ → Mac → List ArpEntry → List ArpEntry
arp_learn now ip mac es =
    let (updated, known) = refresh now ip mac es in
    let (filled, ok) = take_unused (entry now ip mac) es in
    if known then updated else if ok then filled else set es (oldest es) (entry now ip mac)

-- `arpHandle`: the cache afterwards, and the packet of the reply with the hardware address it goes to.
-- Address 0 is none.
unfoldable pub arp_handle :
    ℕ → ℕ → Mac → List ℕ → List ArpEntry → List ArpEntry × Option (Mac × List ℕ)
arp_handle now our_ip our_mac payload es = elim (arp_parse payload) [
  | none ↦ (es, none)
  | some p ↦ (
    if p.spa == 0 then es else arp_learn now p.spa p.sha es,
    if p.op == 1 && p.tpa == our_ip && not (our_ip == 0)
        then some (p.sha, arp_build 2 our_mac our_ip p.sha p.spa)
        else none,
  )
]
