-- ===== src/Net/Udp.antt =====
-- UDP (src/udp.go): parsing and checking of a datagram, what `udpSend` builds, and the table of bound
-- ports with the queues that datagrams are delivered to.
pub mod RoundTrip
pub mod Bindings
pub mod Examples
use gooos.Common.{
  ℕ, zero, suc, ◌+◌, ◌-◌, ◌/◌, Bool, true, false, not, ◌&&◌, ◌||◌, Option, none, some, List, [],
  ◌∷◌, ltb, leb, ◌==◌, if◌then◌else◌, Array, update, length, take, drop, set, u8, u64,
}
use gooos.Net.Bytes.{read_u16}
use gooos.Net.Checksum.{checksum}
use gooos.Sync.Queue.{Queue, fresh, try_push}

pub record UdpHeader : Type 0 where
  pub src_port : ℕ
  pub dst_port : ℕ
  pub len : ℕ
  pub chksum : ℕ

pub record UdpDatagram : Type 0 where
  pub src_ip : ℕ
  pub src_port : ℕ
  pub dst_port : ℕ
  pub bytes : List ℕ

unfoldable pub parse_header : List ℕ → UdpHeader
parse_header p = record {
  src_port = read_u16 p 0;
  dst_port = read_u16 p 2;
  len = read_u16 p 4;
  chksum = read_u16 p 6;
}

-- `udpParse`; `none` is `ok=false`, whose other results its caller does not read
unfoldable pub udp_parse : List ℕ → Option (UdpHeader × List ℕ)
udp_parse p =
    let h = parse_header p in
    if ltb (length p) 8
    then none
    else if ltb (length p) h.len || ltb h.len 8
    then none
    else some (h, take (h.len - 8) (drop 8 p))

-- `udpChecksum`; 17 is `ipProtoUDP`
unfoldable pub udp_checksum : ℕ → ℕ → List ℕ → ℕ
udp_checksum src_ip dst_ip p = let c = checksum 17 src_ip dst_ip p in if c == 0 then 65535 else c

unfoldable pub udp_checksum_verify : ℕ → ℕ → List ℕ → Bool
udp_checksum_verify src_ip dst_ip p =
    let wire = read_u16 p 6 in
    if ltb (length p) 8
    then false
    else if wire == 0
    then true
    else udp_checksum src_ip dst_ip (set (set p 6 0) 7 0) == wire

-- the packet of `udpSend` before its checksum is set
unfoldable pub unsealed : ℕ → ℕ → List ℕ → List ℕ
unsealed src_port dst_port payload =
    u8 (src_port / 256)
    ∷ u8 src_port
    ∷ u8 (dst_port / 256)
    ∷ u8 dst_port
    ∷ u8 ((8 + length payload) / 256)
    ∷ u8 (8 + length payload)
    ∷ 0
    ∷ 0
    ∷ payload

abbrev pub sealed : ℕ → List ℕ → List ℕ
sealed c p = set (set p 6 (u8 (c / 256))) 7 (u8 c)

-- `udpSend` up to its call of `ipv4Send`; 1480 is `ipv4MaxPayload`
unfoldable pub udp_send : ℕ → ℕ → ℕ → ℕ → List ℕ → Option (List ℕ)
udp_send our_ip dst_ip dst_port src_port payload =
    let p = unsealed src_port dst_port payload in
    if ltb 1480 (length payload + 8) then none else some (sealed (udp_checksum our_ip dst_ip p) p)

-- `Q` is the number of a queue, and `nil` is `none`.
pub record UdpBinding : Type 0 where
  pub port : ℕ
  pub q : Option ℕ
  pub active : Bool

-- the counters of `netStats` that UDP writes
pub record UdpStats : Type 0 where
  pub checksum_err : ℕ
  pub udp_port_unreach : ℕ
  pub udp_recv : ℕ
  pub rx_dropped : ℕ

-- `udpBindings`, and the queues that were made, the first `made` of them
pub record Udp : Type 0 where
  pub bindings : List UdpBinding
  pub queues : Array (Queue UdpDatagram)
  pub made : ℕ
  pub stats : UdpStats

-- whether an active binding has the port
unfoldable pub is_bound : ℕ → List UdpBinding → Bool
is_bound port [] = false
is_bound port (b ∷ bs) = (b.active && b.port == port) || is_bound port bs

-- the first binding that is not active takes the port
unfoldable pub fill : ℕ → Option ℕ → List UdpBinding → List UdpBinding × Bool
fill port q [] = ([], false)
fill port q (b ∷ bs) =
    let (rest, ok) = fill port q bs in
    if b.active then (b ∷ rest, ok) else (record { port = port; q = q; active = true } ∷ bs, true)

-- `udpBindWithQueue`
unfoldable pub udp_bind_with_queue : ℕ → Option ℕ → List UdpBinding → List UdpBinding × Bool
udp_bind_with_queue port none bs = (bs, false)
udp_bind_with_queue port (some q) bs =
    if is_bound port bs then (bs, false) else fill port (some q) bs

abbrev pub blank : UdpDatagram
blank = record { src_ip = 0; src_port = 0; dst_port = 0; bytes = [] }

-- `udpBind`, with the queue that it makes
unfoldable pub udp_bind : ℕ → Udp → Udp × Option ℕ
udp_bind port s =
    let (bs, ok) = fill port (some s.made) s.bindings in
    if is_bound port s.bindings
    then (s, none)
    else if ok
    then (
      record s {
        bindings = bs;
        queues = update s.queues s.made (fresh 16 blank);
        made = s.made + 1;
      },
      some s.made,
    )
    else (s, none)

-- `udpUnbind`
unfoldable pub udp_unbind : ℕ → List UdpBinding → List UdpBinding
udp_unbind port [] = []
udp_unbind port (b ∷ bs) =
    (if b.active && b.port == port then record b { active = false; q = none } else b)
    ∷ udp_unbind port bs

-- `udpLookupQueue`
unfoldable pub udp_lookup_queue : ℕ → List UdpBinding → Option ℕ
udp_lookup_queue port [] = none
udp_lookup_queue port (b ∷ bs) =
    let later = udp_lookup_queue port bs in if b.active && b.port == port then b.q else later

-- `statsInc` on a counter
abbrev pub stats_inc : ℕ → ℕ
stats_inc n = u64 (n + 1)

-- the end of `udpHandle`, with the thread that the push wakes
unfoldable pub deliver : UdpDatagram → Udp → Udp × Option ℕ
deliver d s =
    let st = s.stats in
    elim (udp_lookup_queue d.dst_port s.bindings) [
      | none ↦ (
        record s { stats = record st { udp_port_unreach = stats_inc st.udp_port_unreach } },
        none,
      )
      | some i ↦
          let (q, ok, woken) = try_push 16 blank d (s.queues i) in
          (
            record s {
              queues = update s.queues i q;
              stats =
                  if ok
                  then record st { udp_recv = stats_inc st.udp_recv }
                  else record st { rx_dropped = stats_inc st.rx_dropped };
            },
            woken,
          )
    ]

-- `udpHandle`, with the addresses of the IP header
unfoldable pub udp_handle : ℕ → ℕ → List ℕ → Udp → Udp × Option ℕ
udp_handle src_ip dst_ip inner s =
    let st = s.stats in
    elim (udp_parse inner) [
      | none ↦ (s, none)
      | some (h, payload) ↦
          if udp_checksum_verify src_ip dst_ip (take h.len inner)
          then deliver
              (record {
                src_ip = src_ip;
                src_port = h.src_port;
                dst_port = h.dst_port;
                bytes = payload;
              })
              s
          else (record s { stats = record st { checksum_err = stats_inc st.checksum_err } }, none)
    ]
