-- ===== src/Net/ByteOrder.antt =====
-- The byte order helpers and the address parser of src/netutil.go.
pub mod Laws
pub mod Examples
use gooos.Common.{
  ℕ, zero, suc, ◌+◌, ◌-◌, ◌*◌, ◌/◌, ◌%◌, Bool, true, false, not, ◌||◌, List, [], ◌∷◌, ltb, leb,
  ◌==◌, if◌then◌else◌, u8, u16, u32, length, ◌++◌,
}

-- the bytes of the word change places; a mask of the source is a `% 256` here
pub htons : ℕ → ℕ
htons v = u8 v * 256 + v / 256 % 256

pub htonl : ℕ → ℕ
htonl v = u8 v * 16777216 + v / 256 % 256 * 65536 + v / 65536 % 256 * 256 + v / 16777216 % 256

-- The loop of `parseIPv4`: the octets so far, latest first, the number that is being read, and
-- whether it has a digit. The string is the list of its bytes.
pub parse_loop : List ℕ → List ℕ → ℕ → Bool → ℕ
parse_loop [] (p2 ∷ p1 ∷ p0 ∷ []) cur true = p0 * 16777216 + p1 * 65536 + p2 * 256 + cur
parse_loop [] parts cur seen_digit = 0
parse_loop (c ∷ s) parts cur seen_digit =
    let next_octet = parse_loop s (cur ∷ parts) 0 false in
    let cur' = u32 (cur * 10 + (c - 48)) in
    let next_digit = parse_loop s parts cur' true in
    if c == 46
    then (if not seen_digit || leb 3 (length parts) then 0 else next_octet)
    else if ltb c 48 || ltb 57 c
    then 0
    else if ltb 255 cur'
    then 0
    else next_digit

pub parse_ipv4 : List ℕ → ℕ
parse_ipv4 s = parse_loop s [] 0 false

-- the loop of `utoa` of src/main.go; its buffer of 20 bytes is the fuel
pub utoa_loop : ℕ → ℕ → List ℕ → List ℕ
utoa_loop zero n buf = buf
utoa_loop (suc fuel) n buf =
    let rest = utoa_loop fuel (n / 10) ((48 + n % 10) ∷ buf) in if n == 0 then buf else rest

pub utoa : ℕ → List ℕ
utoa n = if n == 0 then 48 ∷ [] else utoa_loop 20 n []

pub ip_to_string : ℕ → List ℕ
ip_to_string ip =
    utoa (ip / 16777216 % 256)
    ++ (46 ∷ (utoa (ip / 65536 % 256) ++ (46 ∷ (utoa (ip / 256 % 256) ++ (46 ∷ utoa (ip % 256))))))
