-- ===== src/Net/Ip/RoundTrip.antt =====
-- A packet that is sent arrives: frame, header and checksum are read back, also behind padding.
use gooos.Common.{
  ℕ, suc, ◌+◌, ◌*◌, ◌/◌, ◌<◌, ◌≤◌, ◌≡◌, refl, ap, ◌∙◌, true, some, List, [], ◌∷◌, ◌++◌, length,
  length-append, take, drop, take-length-append, u8, u16, arith,
}
use gooos.Net.Bytes.{Mac, read_mac, read_u16, word, double_word}
use gooos.Net.Ip.Sums.{ipv4_checksum-sealed}
use gooos.Net.Ip.{
  EthernetHeader, ethernet_parse, ethernet_bytes, same_mac, is_for_us, ethernet_dispatch, ipv4,
  Ipv4Header, ipv4_checksum, read_header, ipv4_parse, ipv4_bytes, ipv4_build_header, ipv4_send,
  is_our_ip, hand_up, ipv4_handle,
}

take-append_front : (xs ys : List ℕ) (n : ℕ) → take (length xs + n) (xs ++ ys) ≡ xs ++ take n ys
take-append_front [] ys n = ap (λ k. take k ys) {x = 0 + n} {y = n} (omega arith)
take-append_front (x ∷ xs) ys n =
    ap (λ k. take k (x ∷ xs ++ ys)) {x = suc (length xs) + n} {y = suc (length xs + n)}
      (omega arith)
    ∙ ap (λ zs. x ∷ zs) (take-append_front xs ys n)

-- the header that is read back
abbrev pub header : ℕ → ℕ → ℕ → ℕ → ℕ → ℕ → Ipv4Header
header id proto src_ip dst_ip len chksum = record {
  version_ihl = 69;
  tos = 0;
  total_length = 20 + len;
  id = id;
  flags_offset = 16384;
  ttl = 64;
  protocol = proto;
  chksum = chksum;
  src_ip = src_ip;
  dst_ip = dst_ip;
  header_len = 20;
}

ipv4_parse_at :
    (id proto src_ip dst_ip len chksum : ℕ) (p inner : List ℕ)
    → let h = header id proto src_ip dst_ip len chksum in
      read_header p ≡ h
      → 20 + len ≤ length p
      → ipv4_checksum (take 20 p) ≡ 0
      → drop 20 (take (20 + len) p) ≡ inner
      → ipv4_parse p ≡ some (h, inner)
unfolding ipv4_parse
ipv4_parse_at id proto src_ip dst_ip len chksum p inner fields fits sum rest =
    rw (fields, sum, rest) (ground arith)

module _ (id proto src_ip dst_ip : ℕ) (payload pad : List ℕ) where
  abbrev total : ℕ
  total = u16 (20 + length payload)

  abbrev chksum : ℕ
  chksum = ipv4_checksum (ipv4_bytes id proto src_ip dst_ip total 0 0)

  abbrev head_bytes : List ℕ
  head_bytes = ipv4_bytes id proto src_ip dst_ip total (u8 (chksum / 256)) (u8 chksum)

  abbrev arrived : List ℕ
  arrived = head_bytes ++ (payload ++ pad)

  read_header-arrived :
      id < 65536
      → proto < 256
      → src_ip < 4294967296
      → dst_ip < 4294967296
      → length payload ≤ 1480
      → read_header arrived ≡ header id proto src_ip dst_ip (length payload) chksum
  unfolding read_header
  read_header-arrived id_in proto_in src_in dst_in fits =
      let small : total < 65536 = omega arith in
      let t : u8 (total / 256) * 256 + u8 total ≡ 20 + length payload = omega arith in
      let n = word id_in in
      let c = word (ipv4_checksum-sealed id proto src_ip dst_ip total proto_in).0 in
      let s = double_word src_in in
      let d = double_word dst_in in
      λ i. record {
        version_ihl = 69;
        tos = 0;
        total_length = t i;
        id = n i;
        flags_offset = 16384;
        ttl = 64;
        protocol = proto;
        chksum = c i;
        src_ip = s i;
        dst_ip = d i;
        header_len = 20;
      }

  take_front :
      take (20 + length payload) arrived ≡ head_bytes ++ take (length payload) (payload ++ pad)
  take_front = take-append_front head_bytes (payload ++ pad) (length payload)

  ipv4_parse-arrived :
      id < 65536
      → proto < 256
      → src_ip < 4294967296
      → dst_ip < 4294967296
      → length payload ≤ 1480
      → ipv4_parse arrived ≡ some (header id proto src_ip dst_ip (length payload) chksum, payload)
  ipv4_parse-arrived id_in proto_in src_in dst_in fits =
      ipv4_parse_at id proto src_ip dst_ip (length payload) chksum arrived payload
        (read_header-arrived id_in proto_in src_in dst_in fits)
        (omega (arith, length-append payload pad))
        (ipv4_checksum-sealed id proto src_ip dst_ip total proto_in).1
        (ap (drop 20) take_front ∙ take-length-append payload pad)

same_mac_self : (m : Mac) → same_mac m m ≡ true
unfolding same_mac
same_mac_self m = ground arith

ipv4_handle_at :
    (our_ip our_netmask : ℕ) (p inner : List ℕ) (h : Ipv4Header)
    → ipv4_parse p ≡ some (h, inner)
    → h.dst_ip ≡ our_ip
    → ipv4_handle our_ip our_netmask p ≡ hand_up h inner
unfolding ipv4_handle is_our_ip
ipv4_handle_at our_ip our_netmask p inner h parsed ours =
    rw (parsed, ipv4_handle) (ground (arith, ours))

ethernet_parse_at :
    (frame : List ℕ)
    → 14 ≤ length frame
    → ethernet_parse frame
      ≡ some (
        record { dst = read_mac frame 0; src = read_mac frame 6; ether_type = read_u16 frame 12 },
        drop 14 frame,
      )
unfolding ethernet_parse
ethernet_parse_at frame long = ground arith

ethernet_dispatch_at :
    (our_mac : Mac) (frame payload : List ℕ) (h : EthernetHeader)
    → ethernet_parse frame ≡ some (h, payload)
    → 60 ≤ length frame
    → length frame ≤ 1518
    → h.dst ≡ our_mac
    → h.ether_type ≡ 2048
    → ethernet_dispatch our_mac frame ≡ ipv4 payload
unfolding ethernet_dispatch is_for_us
ethernet_dispatch_at our_mac frame payload h parsed low high ours type_ip =
    let us : same_mac h.dst our_mac ≡ true = rw ours (same_mac_self our_mac) in
    rw (parsed, ethernet_dispatch) (ground (arith, us))

-- A frame that `ipv4Send` makes for a host whose hardware address was resolved, also when the network
-- pads it behind its end: `ethernetDispatch` of that host hands its packet to `ipv4Handle`, which passes
-- the header and the checksum and hands the payload without the padding to the protocol it was sent for.
-- The lengths are those of frames that the host accepts.
pub ipv4_send-handle :
    (our_ip their_ip their_netmask proto counter : ℕ) (our_mac their_mac : Mac)
    (payload pad : List ℕ)
    → 0 < our_ip
    → our_ip < 4294967296
    → their_ip < 4294967296
    → proto < 256
    → length payload ≤ 1480
    → 26 ≤ length payload + length pad
    → length payload + length pad ≤ 1484
    → let id = u16 (counter + 1) in
      (frame : List ℕ) × (packet : List ℕ) × (chksum : ℕ) × (ipv4_send true our_ip our_mac
          (some their_mac)
          proto
          their_ip
          counter
          payload
        ≡ (id, some frame))
      × (ethernet_dispatch their_mac (frame ++ pad) ≡ ipv4 packet)
      × (ipv4_handle their_ip their_netmask packet
          ≡ hand_up (header id proto our_ip their_ip (length payload) chksum) payload)
unfolding ipv4_send ipv4_build_header
ipv4_send-handle our_ip their_ip their_netmask proto counter our_mac their_mac payload pad pos
      our_in their_in proto_in fits low high =
    let id = u16 (counter + 1) in
    let parsed =
      ipv4_parse-arrived id proto our_ip their_ip payload pad (omega arith) proto_in our_in their_in
        fits in
    let size = length-append payload pad in
    (
      ethernet_bytes their_mac our_mac 2048
          (head_bytes id proto our_ip their_ip payload pad ++ payload),
      arrived id proto our_ip their_ip payload pad,
      chksum id proto our_ip their_ip payload pad,
      ground arith,
      ethernet_dispatch_at their_mac _ _
          (record { dst = their_mac; src = our_mac; ether_type = 2048 })
          (ethernet_parse_at _ (omega (arith, size))) (omega (arith, size)) (omega (arith, size))
          refl refl,
      ipv4_handle_at their_ip their_netmask _ payload _ parsed refl,
    )
