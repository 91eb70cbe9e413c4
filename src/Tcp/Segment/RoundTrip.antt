-- ===== src/Tcp/Segment/RoundTrip.antt =====
-- Building a segment and reading it back.
use gooos.Common.{
  ℕ, zero, suc, ◌+◌, ◌-◌, ◌*◌, ◌/◌, ◌%◌, ◌≤◌, ◌<◌, ◌≡◌, refl, ap, ap₂, ◌∙◌, true, false, some, List,
  [], ◌∷◌, ◌++◌, ltb, length, get_or, set, take, drop, u8, arith, take-length-append,
  drop-length-append, length-append, length-set, sym, ==_iff,
}
use native.Mathlib.Nat.{zero-add, add-zero, suc-add}
use gooos.Net.Checksum.{checksum_balances}
use gooos.Net.Bytes.{read_u16, restore, read_back, word}
use gooos.Tcp.Segment.{
  TcpHeader, parse, parse_header, written, build, checksum_verify, compute_and_set_checksum,
  tcp_checksum,
}

-- the header of the fields that `tcpBuildSegment` is given
abbrev pub header : ℕ → ℕ → ℕ → ℕ → ℕ → ℕ → ℕ → List ℕ → TcpHeader
header src_port dst_port seq ack flags window chksum options = record {
  src_port = src_port;
  dst_port = dst_port;
  seq = seq;
  ack = ack;
  data_off = 5 + length options / 4;
  flags = flags;
  window = window;
  chksum = chksum;
  urgent = 0;
  options = options;
}

-- Fields in the range of their words; options padded to words of four bytes, at most 40 bytes.
pub record InRange (src_port dst_port seq ack flags window : ℕ) (options : List ℕ) : Type 0 where
  pub src_in : src_port < 65536
  pub dst_in : dst_port < 65536
  pub seq_in : seq < 4294967296
  pub ack_in : ack < 4294967296
  pub flags_in : flags < 64
  pub window_in : window < 65536
  pub options_padded : length options % 4 ≡ 0
  pub options_fit : length options ≤ 40

drop-add : (m n : ℕ) (xs : List ℕ) → drop (m + n) xs ≡ drop n (drop m xs)
drop-add zero n xs = rw zero-add
drop-add (suc m) zero [] = rw add-zero
drop-add (suc m) (suc n) [] = rw suc-add
drop-add (suc m) n (x ∷ xs) = rw suc-add (drop-add m n xs)

-- A packet that passes the three tests, whose header has `n` bytes of options.
parse_at :
    (p : List ℕ) (n : ℕ)
    → (parse_header p).data_off * 4 ≡ 20 + n
    → n ≤ 40
    → 20 + n ≤ length p
    → parse p ≡ some (record (parse_header p) { options = take n (drop 20 p) }, drop n (drop 20 p))
unfolding parse
parse_at p n e h k =
    rw (e, ← drop-add 20 n p)
      (ground (arith, ap (λ m. take m (drop 20 p)) (let z : 20 + n - 20 ≡ n = omega arith in z)))

tcp_checksum-lt : (src_ip dst_ip : ℕ) (p : List ℕ) → tcp_checksum src_ip dst_ip p < 65536
unfolding tcp_checksum
tcp_checksum-lt src_ip dst_ip p = (checksum_balances 6 src_ip dst_ip p).1

-- The check passes on a segment whose checksum was set, if its field was zero before.
pub verify-set_checksum :
    (src_ip dst_ip : ℕ) (p : List ℕ)
    → 20 ≤ length p
    → get_or p 16 0 ≡ 0
    → get_or p 17 0 ≡ 0
    → checksum_verify src_ip dst_ip (compute_and_set_checksum src_ip dst_ip p) ≡ true
unfolding checksum_verify compute_and_set_checksum
verify-set_checksum src_ip dst_ip p h e f =
    let c = tcp_checksum src_ip dst_ip p in
    let long : ltb (length (set (set p 16 (u8 (c / 256))) 17 (u8 c))) 20 ≡ false =
      ground
        (arith, length-set (set p 16 (u8 (c / 256))) 17 (u8 c), length-set p 16 (u8 (c / 256))) in
    let zeroed : set (set (set (set p 16 (u8 (c / 256))) 17 (u8 c)) 16 0) 17 0 ≡ p =
      ap₂ (λ (x y : ℕ). set (set (set (set p 16 (u8 (c / 256))) 17 (u8 c)) 16 x) 17 y) (sym e)
        (sym f)
      ∙ restore 16 p (u8 (c / 256)) (u8 c) (omega arith) in
    let wire : read_u16 (set (set p 16 (u8 (c / 256))) 17 (u8 c)) 16 ≡ c =
      read_back 16 p (u8 (c / 256)) (u8 c) (omega arith) ∙ word (tcp_checksum-lt src_ip dst_ip p) in
    rw long ((==_iff _ _).1 (ap (tcp_checksum src_ip dst_ip) zeroed ∙ sym wire))

-- The bytes of a segment with its checksum: those of the header, the options and the payload.
pub length-sealed :
    (room src_port dst_port seq ack flags window : ℕ) (options payload : List ℕ) (src_ip dst_ip : ℕ)
    (p : List ℕ)
    → build room src_port dst_port seq ack flags window options payload ≡ some p
    → length (compute_and_set_checksum src_ip dst_ip p) ≡ 20 + length options + length payload
unfolding build written compute_and_set_checksum
length-sealed room src_port dst_port seq ack flags window options payload src_ip dst_ip p built =
    let c = tcp_checksum src_ip dst_ip p in
    let same = length-set (set p 16 (u8 (c / 256))) 17 (u8 c) ∙ length-set p 16 (u8 (c / 256)) in
    let size : length p ≡ 20 + length options + length payload =
      ground (arith, built, length-append options payload) in
    same ∙ size

module _ (src_port dst_port seq ack flags window : ℕ) (options payload : List ℕ)
    (r : InRange src_port dst_port seq ack flags window options) where
  -- the segment with two bytes for the checksum
  abbrev bytes : ℕ → ℕ → List ℕ
  bytes c d = set (set (written src_port dst_port seq ack flags window options payload) 16 c) 17 d

  length-bytes : (c d : ℕ) → length (bytes c d) ≡ 20 + length options + length payload
  unfolding written
  length-bytes c d = omega (arith, length-append options payload)

  header_bytes :
      (c d : ℕ)
      → record (parse_header (bytes c d)) { options = options }
        ≡ header src_port dst_port seq ack flags window (c * 256 + d) options
  unfolding parse_header written
  header_bytes c d =
      let e1 : u8 (src_port / 256) * 256 + u8 src_port ≡ src_port = omega (arith, r.src_in) in
      let e2 : u8 (dst_port / 256) * 256 + u8 dst_port ≡ dst_port = omega (arith, r.dst_in) in
      let e3 : (parse_header (bytes c d)).seq ≡ seq = omega (arith, r.seq_in) in
      let e4 : (parse_header (bytes c d)).ack ≡ ack = omega (arith, r.ack_in) in
      let e5 : (parse_header (bytes c d)).data_off ≡ 5 + length options / 4 =
        omega (arith, r.options_fit, r.options_padded) in
      let e6 : flags % 64 % 64 ≡ flags = omega (arith, r.flags_in) in
      let e7 : u8 (window / 256) * 256 + u8 window ≡ window = omega (arith, r.window_in) in
      λ i. record {
        src_port = e1 i;
        dst_port = e2 i;
        seq = e3 i;
        ack = e4 i;
        data_off = e5 i;
        flags = e6 i;
        window = e7 i;
        chksum = c * 256 + d;
        urgent = 0;
        options = options;
      }

  hdr_len : (c d : ℕ) → (parse_header (bytes c d)).data_off * 4 ≡ 20 + length options
  unfolding parse_header written
  hdr_len c d = omega (arith, r.options_fit, r.options_padded)

  drop_bytes : (c d : ℕ) → drop 20 (bytes c d) ≡ options ++ payload
  unfolding written
  drop_bytes c d = refl

  parse-bytes :
      (c d : ℕ)
      → parse (bytes c d)
        ≡ some (header src_port dst_port seq ack flags window (c * 256 + d) options, payload)
  parse-bytes c d =
      parse_at (bytes c d) (length options) (hdr_len c d) r.options_fit
        (omega (arith, length-bytes c d))
      ∙ ap
          (λ (xs : List ℕ). some (
            record (parse_header (bytes c d)) { options = take (length options) xs },
            drop (length options) xs,
          ))
          (drop_bytes c d)
      ∙ λ i. some (
        ((ap (λ os. record (parse_header (bytes c d)) { options = os })
                (take-length-append options payload))
              ∙ header_bytes c d)
            i,
        drop-length-append options payload i,
      )

  abbrev unsealed : List ℕ
  unsealed = written src_port dst_port seq ack flags window options payload

  length-unsealed : length unsealed ≡ 20 + length options + length payload
  unfolding written
  length-unsealed = omega (arith, length-append options payload)

  zero_chksum : (get_or unsealed 16 0 ≡ 0) × (get_or unsealed 17 0 ≡ 0)
  unfolding written
  zero_chksum = (refl, refl)

  parse-sealed :
      (src_ip dst_ip : ℕ)
      → parse (compute_and_set_checksum src_ip dst_ip unsealed)
        ≡ some (
          header src_port dst_port seq ack flags window
              (tcp_checksum src_ip dst_ip unsealed)
              options,
          payload,
        )
  unfolding compute_and_set_checksum
  parse-sealed src_ip dst_ip =
      let c = tcp_checksum src_ip dst_ip unsealed in
      parse-bytes (u8 (c / 256)) (u8 c)
      ∙ ap (λ (w : ℕ). some (header src_port dst_port seq ack flags window w options, payload))
          (word (tcp_checksum-lt src_ip dst_ip unsealed))

  -- Whatever is sent is accepted: in a buffer with room for it the segment is built, its checksum is
  -- set, the receiver's check of the checksum passes, and parsing gives back every field, the
  -- options and the payload.
  pub send-receive :
      (src_ip dst_ip room : ℕ)
      → 20 + length options + length payload ≤ room
      → (p : List ℕ) × (build room src_port dst_port seq ack flags window options payload ≡ some p)
        × (checksum_verify src_ip dst_ip (compute_and_set_checksum src_ip dst_ip p) ≡ true)
        × (parse (compute_and_set_checksum src_ip dst_ip p)
            ≡ some (
              header src_port dst_port seq ack flags window (tcp_checksum src_ip dst_ip p) options,
              payload,
            ))
  unfolding build
  send-receive src_ip dst_ip room fits = (
    unsealed,
    ground arith,
    verify-set_checksum src_ip dst_ip _ (omega (arith, length-unsealed)) zero_chksum.0
        zero_chksum.1,
    parse-sealed src_ip dst_ip,
  )
