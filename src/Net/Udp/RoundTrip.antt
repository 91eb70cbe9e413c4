-- ===== src/Net/Udp/RoundTrip.antt =====
-- What is sent is taken in as the same datagram.
use gooos.Common.{
  ℕ, ◌+◌, ◌-◌, ◌<◌, ◌≤◌, ◌≡◌, refl, sym, ap, ◌∙◌, true, some, List, length, take, drop, set,
  take_all, arith,
}
use gooos.Net.Bytes.{read_u16, word}
use gooos.Net.Checksum.{checksum_balances}
use gooos.Net.Udp.{
  UdpHeader, Udp, parse_header, udp_parse, udp_checksum, udp_checksum_verify, unsealed, sealed,
  udp_send, deliver, udp_handle,
}

-- a checksum of 0 is never sent
udp_checksum-bounds :
    (src_ip dst_ip : ℕ) (p : List ℕ)
    → (0 < udp_checksum src_ip dst_ip p) × (udp_checksum src_ip dst_ip p < 65536)
unfolding udp_checksum
udp_checksum-bounds src_ip dst_ip p = ground (arith, (checksum_balances 17 src_ip dst_ip p).1)

abbrev header : ℕ → ℕ → ℕ → ℕ → UdpHeader
header src_port dst_port len chksum = record {
  src_port = src_port;
  dst_port = dst_port;
  len = len;
  chksum = chksum;
}

-- a packet whose header was read and whose length is in order
udp_parse_at :
    (p payload : List ℕ) (h : UdpHeader)
    → parse_header p ≡ h
    → 8 ≤ h.len
    → h.len ≤ length p
    → take (h.len - 8) (drop 8 p) ≡ payload
    → udp_parse p ≡ some (h, payload)
unfolding udp_parse
udp_parse_at p payload h e low fits rest = rw (e, rest) (ground arith)

-- a packet whose checksum field holds the sum of the packet without it
verify_at :
    (src_ip dst_ip c : ℕ) (p p0 : List ℕ)
    → 8 ≤ length p
    → read_u16 p 6 ≡ c
    → set (set p 6 0) 7 0 ≡ p0
    → udp_checksum src_ip dst_ip p0 ≡ c
    → udp_checksum_verify src_ip dst_ip p ≡ true
unfolding udp_checksum_verify
verify_at src_ip dst_ip c p p0 long wire zeroed sum =
    ground (arith, ap (udp_checksum src_ip dst_ip) zeroed)

module _ (src_port dst_port c : ℕ) (payload : List ℕ) where
  abbrev packet : List ℕ
  packet = sealed c (unsealed src_port dst_port payload)

  length-packet : length packet ≡ 8 + length payload
  unfolding unsealed
  length-packet = omega arith

  parse_header-packet :
      src_port < 65536
      → dst_port < 65536
      → c < 65536
      → length payload ≤ 1472
      → parse_header packet ≡ header src_port dst_port (8 + length payload) c
  unfolding unsealed parse_header
  parse_header-packet src_in dst_in c_in fits =
      let a = word src_in in
      let b = word dst_in in
      let n : 8 + length payload < 65536 = omega arith in
      let l = word n in let k = word c_in in λ i. header (a i) (b i) (l i) (k i)

  udp_parse-packet :
      src_port < 65536
      → dst_port < 65536
      → c < 65536
      → length payload ≤ 1472
      → udp_parse packet ≡ some (header src_port dst_port (8 + length payload) c, payload)
  udp_parse-packet src_in dst_in c_in fits =
      let fields = parse_header-packet src_in dst_in c_in fits in
      let all : take (8 + length payload - 8) (drop 8 packet) ≡ payload =
        unfold unsealed in take_all (8 + length payload - 8) payload (omega arith) in
      udp_parse_at packet payload (header src_port dst_port (8 + length payload) c) fields
        (omega arith) (omega (arith, length-packet)) all

  verify-packet :
      (src_ip dst_ip : ℕ)
      → c < 65536
      → c ≡ udp_checksum src_ip dst_ip (unsealed src_port dst_port payload)
      → udp_checksum_verify src_ip dst_ip packet ≡ true
  verify-packet src_ip dst_ip c_in e =
      let p0 = unsealed src_port dst_port payload in
      let wire : read_u16 packet 6 ≡ c = unfold unsealed in word c_in in
      let zeroed : set (set packet 6 0) 7 0 ≡ p0 = unfold unsealed in refl in
      verify_at src_ip dst_ip c packet p0 (omega (arith, length-packet)) wire zeroed (sym e)

udp_handle_at :
    (src_ip dst_ip : ℕ) (inner payload : List ℕ) (h : UdpHeader) (s : Udp)
    → udp_parse inner ≡ some (h, payload)
    → udp_checksum_verify src_ip dst_ip (take h.len inner) ≡ true
    → udp_handle src_ip dst_ip inner s
      ≡ deliver
          (record {
            src_ip = src_ip;
            src_port = h.src_port;
            dst_port = h.dst_port;
            bytes = payload;
          })
          s
unfolding udp_handle
udp_handle_at src_ip dst_ip inner payload h s parsed passes = rw (parsed, passes, udp_handle) refl

pub length-udp_send :
    (src_ip dst_ip dst_port src_port : ℕ) (payload p : List ℕ)
    → udp_send src_ip dst_ip dst_port src_port payload ≡ some p
    → length p ≡ 8 + length payload
unfolding udp_send
length-udp_send src_ip dst_ip dst_port src_port payload p h =
    let c = udp_checksum src_ip dst_ip (unsealed src_port dst_port payload) in
    ground (arith, h, length-packet src_port dst_port c payload)

-- What `udpSend` hands to `ipv4Send` for ports of 16 bits, `udpHandle` at the address it was sent to
-- takes in: the checksum passes and the datagram with that sender, those ports and that payload is
-- delivered. It refuses only a payload of more than 1472 bytes.
pub udp_send-handle :
    (src_ip dst_ip src_port dst_port : ℕ) (payload : List ℕ) (s : Udp)
    → src_port < 65536
    → dst_port < 65536
    → length payload ≤ 1472
    → (p : List ℕ) × (udp_send src_ip dst_ip dst_port src_port payload ≡ some p)
      × (udp_handle src_ip dst_ip p s
          ≡ deliver
              (record {
                src_ip = src_ip;
                src_port = src_port;
                dst_port = dst_port;
                bytes = payload;
              })
              s)
unfolding udp_send
udp_send-handle src_ip dst_ip src_port dst_port payload s src_in dst_in fits =
    let c = udp_checksum src_ip dst_ip (unsealed src_port dst_port payload) in
    let c_in = (udp_checksum-bounds src_ip dst_ip (unsealed src_port dst_port payload)).1 in
    let p = packet src_port dst_port c payload in
    let parsed = udp_parse-packet src_port dst_port c payload src_in dst_in c_in fits in
    let whole : take (8 + length payload) p ≡ p =
      take_all (8 + length payload) p (omega (arith, length-packet src_port dst_port c payload)) in
    let passes = verify-packet src_port dst_port c payload src_ip dst_ip c_in refl in
    let checked = ap (udp_checksum_verify src_ip dst_ip) whole ∙ passes in
    (p, ground arith, udp_handle_at src_ip dst_ip p payload _ s parsed checked)
