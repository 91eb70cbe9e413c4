-- ===== src/Net/Checksum.antt =====
-- The checksum of src/tcp_segment.go and src/udp.go: the complement of the folded sum of the 16-bit
-- words of the pseudo-header and the packet.
use gooos.Common.{
  ℕ, zero, suc, ◌+◌, ◌-◌, ◌*◌, ◌/◌, ◌%◌, ◌<◌, ◌≡◌, refl, List, [], ◌∷◌, ◌==◌, if◌then◌else◌, length,
  u8, u16, u32, arith,
}

-- `sum += uint32(b[i])<<8 | uint32(b[i+1])` over the pairs; a last odd byte is padded with zero. The
-- two bytes of a word do not overlap, so `|` is `+`.
unfoldable pub add_words : ℕ → List ℕ → ℕ
add_words sum [] = sum
add_words sum (a ∷ []) = u32 (sum + a * 256)
add_words sum (a ∷ b ∷ rest) = add_words (u32 (sum + (a * 256 + b))) rest

-- the twelve bytes of the pseudo-header
pub pseudo_header : ℕ → ℕ → ℕ → ℕ → List ℕ
pseudo_header proto src_ip dst_ip len =
    u8 (src_ip / 16777216)
    ∷ u8 (src_ip / 65536)
    ∷ u8 (src_ip / 256)
    ∷ u8 src_ip
    ∷ u8 (dst_ip / 16777216)
    ∷ u8 (dst_ip / 65536)
    ∷ u8 (dst_ip / 256)
    ∷ u8 dst_ip
    ∷ 0
    ∷ proto
    ∷ u8 (u16 len / 256)
    ∷ u8 (u16 len)
    ∷ []

-- `for sum>>16 != 0 { sum = (sum & 0xFFFF) + (sum >> 16) }`, on fuel
pub fold : ℕ → ℕ → ℕ
fold zero sum = sum
fold (suc fuel) sum =
    let next = fold fuel (u32 (sum % 65536 + sum / 65536)) in if sum / 65536 == 0 then sum else next

-- The fuel that a 32-bit sum needs.
abbrev pub fold_fuel : ℕ
fold_fuel = 3

pub word_sum : ℕ → ℕ → ℕ → List ℕ → ℕ
word_sum proto src_ip dst_ip packet =
    add_words (add_words 0 (pseudo_header proto src_ip dst_ip (length packet))) packet

-- `^uint16(sum)`
pub checksum : ℕ → ℕ → ℕ → List ℕ → ℕ
checksum proto src_ip dst_ip packet =
    65535 - u16 (fold fold_fuel (word_sum proto src_ip dst_ip packet))

-- On a 32-bit sum three rounds are enough: the loop ends by its test, and keeps the sum modulo
-- 65535.
fold_once : (fuel s : ℕ) → s < 65536 → fold fuel s ≡ s
unfolding fold
fold_once zero s h = refl
fold_once (suc fuel) s h = ground arith

fold_twice :
    (fuel s : ℕ)
    → s < 131071
    → (fold (suc fuel) s < 65536) × (fold (suc fuel) s % 65535 ≡ s % 65535)
unfolding fold
fold_twice fuel s h = ground (arith, fold_once fuel s, fold_once fuel (u32 (s % 65536 + s / 65536)))

fold_step :
    (fuel s : ℕ)
    → fold (suc fuel) s ≡ (if s / 65536 == 0 then s else fold fuel (u32 (s % 65536 + s / 65536)))
unfolding fold
fold_step fuel s = refl

pub fold_pos : (fuel s : ℕ) → 0 < s → s < 4294967296 → 0 < fold fuel s
unfolding fold
fold_pos zero s pos h = pos
fold_pos (suc fuel) s pos h =
    ground (arith, fold_pos fuel (u32 (s % 65536 + s / 65536)) (omega arith) (omega arith))

pub fold_lem :
    (s : ℕ) → s < 4294967296 → (fold fold_fuel s < 65536) × (fold fold_fuel s % 65535 ≡ s % 65535)
fold_lem s h = ground (arith, fold_step 2 s, fold_twice 1 (u32 (s % 65536 + s / 65536)))

add_words-lt : (s : ℕ) (xs : List ℕ) → s < 4294967296 → add_words s xs < 4294967296
unfolding add_words
add_words-lt s [] h = h
add_words-lt s (a ∷ []) h = omega arith
add_words-lt s (a ∷ b ∷ rest) h = add_words-lt (u32 (s + (a * 256 + b))) rest (omega arith)

word_sum-lt :
    (proto src_ip dst_ip : ℕ) (packet : List ℕ) → word_sum proto src_ip dst_ip packet < 4294967296
unfolding word_sum
word_sum-lt proto src_ip dst_ip packet =
    add_words-lt (add_words 0 (pseudo_header proto src_ip dst_ip (length packet))) packet
      (add_words-lt 0 (pseudo_header proto src_ip dst_ip (length packet)) (omega arith))

-- The checksum makes the sum of all words a multiple of 65535 (in ones' complement: zero), whatever
-- the packet; and it is a 16-bit word.
pub checksum_balances :
    (proto src_ip dst_ip : ℕ) (packet : List ℕ)
    → ((word_sum proto src_ip dst_ip packet + checksum proto src_ip dst_ip packet) % 65535 ≡ 0)
      × (checksum proto src_ip dst_ip packet < 65536)
unfolding checksum
checksum_balances proto src_ip dst_ip packet =
    omega (arith, fold_lem _ (word_sum-lt proto src_ip dst_ip packet))
