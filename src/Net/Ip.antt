-- ===== src/Net/Ip.antt =====
-- Ethernet frames and IPv4 packets (src/ethernet.go, src/ipv4.go, `ethernetDispatch` of src/net.go). The
-- counters of `netStats` are left out; what `arpResolve` answers is an argument of `ipv4Send`.
pub mod Sums
pub mod RoundTrip
pub mod Examples
use Prim.Native.Nat.{bit_and, bit_or}
use gooos.Common.{
  ℕ, zero, suc, ◌+◌, ◌-◌, ◌*◌, ◌/◌, ◌%◌, Bool, true, false, not, ◌&&◌, ◌||◌, Option, none, some,
  List, [], ◌∷◌, ◌++◌, ltb, leb, ◌==◌, if◌then◌else◌, length, get_or, take, drop, u8, u16,
}
use gooos.Net.Bytes.{read_u16, read_u32, u32_bytes, Mac, read_mac, mac_bytes}
use gooos.Net.Checksum.{add_words, fold, fold_fuel}

pub record EthernetHeader : Type 0 where
  pub dst : Mac
  pub src : Mac
  pub ether_type : ℕ

-- `ethernetParse`
unfoldable pub ethernet_parse : List ℕ → Option (EthernetHeader × List ℕ)
ethernet_parse frame =
    if ltb (length frame) 14
    then none
    else some (
      record { dst = read_mac frame 0; src = read_mac frame 6; ether_type = read_u16 frame 12 },
      drop 14 frame,
    )

-- the first 14 bytes, as `ipv4Send` and `ethernetBuild` write them
abbrev pub ethernet_bytes : Mac → Mac → ℕ → List ℕ → List ℕ
ethernet_bytes dst src ether_type payload =
    mac_bytes dst ++ mac_bytes src ++ (u8 (ether_type / 256) ∷ u8 ether_type ∷ payload)

unfoldable pub same_mac : Mac → Mac → Bool
same_mac a b =
    a.b0 == b.b0 && a.b1 == b.b1 && a.b2 == b.b2 && a.b3 == b.b3 && a.b4 == b.b4 && a.b5 == b.b5

abbrev pub broadcast_mac : Mac
broadcast_mac = record { b0 = 255; b1 = 255; b2 = 255; b3 = 255; b4 = 255; b5 = 255 }

-- `isForUs`
unfoldable pub is_for_us : Mac → Mac → Bool
is_for_us our_mac dst = same_mac dst broadcast_mac || same_mac dst our_mac

-- where `ethernetDispatch` hands the payload of a frame
pub data Incoming : Type 0 where
  discarded : Incoming
  arp : Mac → List ℕ → Incoming
  ipv4 : List ℕ → Incoming

unfoldable pub ethernet_dispatch : Mac → List ℕ → Incoming
ethernet_dispatch our_mac frame =
    if ltb (length frame) 60 || ltb 1518 (length frame)
    then discarded
    else elim (ethernet_parse frame) [
      | none ↦ discarded
      | some (h, payload) ↦
          if not (is_for_us our_mac h.dst)
          then discarded
          else if h.ether_type == 2054
          then arp h.src payload
          else if h.ether_type == 2048
          then ipv4 payload
          else discarded
    ]

pub record Ipv4Header : Type 0 where
  pub version_ihl : ℕ
  pub tos : ℕ
  pub total_length : ℕ
  pub id : ℕ
  pub flags_offset : ℕ
  pub ttl : ℕ
  pub protocol : ℕ
  pub chksum : ℕ
  pub src_ip : ℕ
  pub dst_ip : ℕ
  pub header_len : ℕ

-- `ipv4Checksum`
unfoldable pub ipv4_checksum : List ℕ → ℕ
ipv4_checksum p = 65535 - u16 (fold fold_fuel (add_words 0 p))

unfoldable pub read_header : List ℕ → Ipv4Header
read_header p = record {
  version_ihl = get_or p 0 0;
  tos = get_or p 1 0;
  total_length = read_u16 p 2;
  id = read_u16 p 4;
  flags_offset = read_u16 p 6;
  ttl = get_or p 8 0;
  protocol = get_or p 9 0;
  chksum = read_u16 p 10;
  src_ip = read_u32 p 12;
  dst_ip = read_u32 p 16;
  header_len = get_or p 0 0 % 16 * 4;
}

-- `ipv4Parse`; `none` is `ok=false`. The bits under the mask of `MF` and the offset are those below 2^14.
unfoldable pub ipv4_parse : List ℕ → Option (Ipv4Header × List ℕ)
ipv4_parse p =
    let h = read_header p in
    if ltb (length p) 20
    then none
    else if not (h.version_ihl / 16 == 4) || ltb h.header_len 20 || ltb (length p) h.header_len
    then none
    else if not (h.flags_offset % 16384 == 0) || h.ttl == 0
    then none
    else if ltb (length p) h.total_length || ltb h.total_length h.header_len
    then none
    else if not (ipv4_checksum (take h.header_len p) == 0)
    then none
    else some (h, drop h.header_len (take h.total_length p))

-- the header with two bytes for its checksum
abbrev pub ipv4_bytes : ℕ → ℕ → ℕ → ℕ → ℕ → ℕ → ℕ → List ℕ
ipv4_bytes id proto src_ip dst_ip total c d =
    69
    ∷ 0
    ∷ u8 (total / 256)
    ∷ u8 total
    ∷ u8 (id / 256)
    ∷ u8 id
    ∷ 64
    ∷ 0
    ∷ 64
    ∷ proto
    ∷ c
    ∷ d
    ∷ (u32_bytes src_ip ++ u32_bytes dst_ip)

-- `ipv4BuildHeader`, which has raised `ipv4ID` to `id`
unfoldable pub ipv4_build_header : ℕ → ℕ → ℕ → ℕ → ℕ → List ℕ
ipv4_build_header id proto src_ip dst_ip payload_len =
    let total = u16 (20 + payload_len) in
    let c = ipv4_checksum (ipv4_bytes id proto src_ip dst_ip total 0 0) in
    ipv4_bytes id proto src_ip dst_ip total (u8 (c / 256)) (u8 c)

-- `ipv4Send` up to its call of `e1000Transmit`: the counter `ipv4ID` and the frame. `mac` is what
-- `arpResolve` answers.
unfoldable pub ipv4_send : Bool → ℕ → Mac → Option Mac → ℕ → ℕ → ℕ → List ℕ → ℕ × Option (List ℕ)
ipv4_send e1000_found our_ip our_mac none proto dst_ip counter payload = (counter, none)
ipv4_send e1000_found our_ip our_mac (some mac) proto dst_ip counter payload =
    let id = u16 (counter + 1) in
    if not e1000_found || our_ip == 0
    then (counter, none)
    else if ltb 1480 (length payload)
    then (counter, none)
    else (
      id,
      some (
          ethernet_bytes mac our_mac 2048
            (ipv4_build_header id proto our_ip dst_ip (length payload) ++ payload)),
    )

-- where `ipv4Handle` hands a packet
pub data Upper : Type 0 where
  dropped : Upper
  icmp : Ipv4Header → List ℕ → Upper
  tcp : Ipv4Header → List ℕ → Upper
  udp : Ipv4Header → List ℕ → Upper

-- `(ourIP & ourNetmask) | ^ourNetmask`
abbrev pub subnet_broadcast : ℕ → ℕ → ℕ
subnet_broadcast our_ip our_netmask = bit_or (bit_and our_ip our_netmask) (4294967295 - our_netmask)

-- the test at the start of `ipv4Handle`
unfoldable pub is_our_ip : ℕ → ℕ → ℕ → Bool
is_our_ip our_ip our_netmask dst_ip =
    dst_ip == our_ip
    || dst_ip == 4294967295
    || not (our_netmask == 0) && not (our_ip == 0) && dst_ip == subnet_broadcast our_ip our_netmask

-- the `switch` of `ipv4Handle`
unfoldable pub hand_up : Ipv4Header → List ℕ → Upper
hand_up h inner =
    if h.protocol == 1
    then icmp h inner
    else if h.protocol == 6
    then tcp h inner
    else if h.protocol == 17
    then udp h inner
    else dropped

unfoldable pub ipv4_handle : ℕ → ℕ → List ℕ → Upper
ipv4_handle our_ip our_netmask p = elim (ipv4_parse p) [
  | none ↦ dropped
  | some (h, inner) ↦ if is_our_ip our_ip our_netmask h.dst_ip then hand_up h inner else dropped
]
