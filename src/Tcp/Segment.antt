-- ===== src/Tcp/Segment.antt =====
-- The wire format of src/tcp_segment.go. A packet is the list of its bytes.
pub mod RoundTrip
pub mod Options
pub mod Examples
use gooos.Common.{
  ℕ, zero, suc, ◌+◌, ◌-◌, ◌*◌, ◌/◌, ◌%◌, Bool, true, false, not, ◌&&◌, ◌||◌, Option, none, some,
  List, [], ◌∷◌, ◌++◌, ltb, leb, ◌==◌, if◌then◌else◌, length, get_or, set, take, drop, u8, u16, u32,
}
use gooos.Net.Bytes.{read_u16, read_u32}
use gooos.Net.Checksum.{checksum}
use gooos.Tcp.Congestion.{tcp_default_mss}

abbrev pub tcp_header_min_size : ℕ
tcp_header_min_size = 20

abbrev pub tcp_header_max_size : ℕ
tcp_header_max_size = 60

-- `Options[:OptLen]` is the list `options`.
pub record TcpHeader : Type 0 where
  pub src_port : ℕ
  pub dst_port : ℕ
  pub seq : ℕ
  pub ack : ℕ
  pub data_off : ℕ
  pub flags : ℕ
  pub window : ℕ
  pub chksum : ℕ
  pub urgent : ℕ
  pub options : List ℕ

pub parse_header : List ℕ → TcpHeader
parse_header p = record {
  src_port = read_u16 p 0;
  dst_port = read_u16 p 2;
  seq = read_u32 p 4;
  ack = read_u32 p 8;
  data_off = get_or p 12 0 / 16;
  flags = get_or p 13 0 % 64;
  window = read_u16 p 14;
  chksum = read_u16 p 16;
  urgent = read_u16 p 18;
  options = [];
}

-- The header and the payload, or `none` for `ok=false`, whose other results no caller reads.
pub parse : List ℕ → Option (TcpHeader × List ℕ)
parse p =
    let h = parse_header p in
    let hdr_len = h.data_off * 4 in
    if ltb (length p) tcp_header_min_size
    then none
    else if ltb h.data_off 5
    then none
    else if ltb tcp_header_max_size hdr_len || ltb (length p) hdr_len
    then none
    else some (
      record h { options = take (hdr_len - tcp_header_min_size) (drop tcp_header_min_size p) },
      drop hdr_len p,
    )

-- the assignments to `out[0]` to `out[19]`, and the two calls of `copy`
pub written : ℕ → ℕ → ℕ → ℕ → ℕ → ℕ → List ℕ → List ℕ → List ℕ
written src_port dst_port seq ack flags window options payload =
    u8 (src_port / 256)
    ∷ u8 src_port
    ∷ u8 (dst_port / 256)
    ∷ u8 dst_port
    ∷ u8 (seq / 16777216)
    ∷ u8 (seq / 65536)
    ∷ u8 (seq / 256)
    ∷ u8 seq
    ∷ u8 (ack / 16777216)
    ∷ u8 (ack / 65536)
    ∷ u8 (ack / 256)
    ∷ u8 ack
    ∷ u8 ((tcp_header_min_size + length options) / 4 * 16)
    ∷ (flags % 64)
    ∷ u8 (window / 256)
    ∷ u8 window
    ∷ 0
    ∷ 0
    ∷ 0
    ∷ 0
    ∷ (options ++ payload)

-- The bytes written at the front of `out`, which has room for `room`; 0 is `none`.
unfoldable pub build : ℕ → ℕ → ℕ → ℕ → ℕ → ℕ → ℕ → List ℕ → List ℕ → Option (List ℕ)
build room src_port dst_port seq ack flags window options payload =
    let hdr_len = tcp_header_min_size + length options in
    if not (length options % 4 == 0) || ltb 40 (length options)
    then none
    else if ltb room (hdr_len + length payload)
    then none
    else some (written src_port dst_port seq ack flags window options payload)

-- One turn of the loop of `tcpParseOptions` for each unit of fuel; the list is `opts[i:]`.
pub walk_options : ℕ → ℕ → List ℕ → ℕ × Bool
walk_options zero mss opts = (mss, true)
walk_options (suc fuel) mss [] = (mss, true)
walk_options (suc fuel) mss (kind ∷ []) =
    let next = walk_options fuel mss [] in
    if kind == 0 then (mss, true) else if kind == 1 then next else (tcp_default_mss, false)
walk_options (suc fuel) mss (kind ∷ len ∷ rest) =
    let next = walk_options fuel mss (len ∷ rest) in
    let found = if kind == 2 && len == 4 then get_or rest 0 0 * 256 + get_or rest 1 0 else mss in
    let skip = walk_options fuel found (drop len (kind ∷ len ∷ rest)) in
    if kind == 0
    then (mss, true)
    else if kind == 1
    then next
    else if ltb len 2 || ltb (length (kind ∷ len ∷ rest)) len
    then (tcp_default_mss, false)
    else skip

pub parse_options : List ℕ → ℕ × Bool
parse_options opts = walk_options 40 tcp_default_mss opts

unfoldable pub build_mss_option : ℕ → List ℕ
build_mss_option mss = 2 ∷ 4 ∷ u8 (mss / 256) ∷ u8 mss ∷ []

-- `ipProtoTCP`
abbrev pub ip_proto_tcp : ℕ
ip_proto_tcp = 6

pub tcp_checksum : ℕ → ℕ → List ℕ → ℕ
tcp_checksum src_ip dst_ip packet = checksum ip_proto_tcp src_ip dst_ip packet

pub checksum_verify : ℕ → ℕ → List ℕ → Bool
checksum_verify src_ip dst_ip packet =
    if ltb (length packet) tcp_header_min_size
    then false
    else tcp_checksum src_ip dst_ip (set (set packet 16 0) 17 0) == read_u16 packet 16

pub compute_and_set_checksum : ℕ → ℕ → List ℕ → List ℕ
compute_and_set_checksum src_ip dst_ip packet =
    let c = tcp_checksum src_ip dst_ip packet in set (set packet 16 (u8 (c / 256))) 17 (u8 c)
