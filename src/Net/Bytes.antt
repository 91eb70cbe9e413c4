-- ===== src/Net/Bytes.antt =====
-- Words in packets, most significant byte first.
use gooos.Common.{
  ℕ, zero, suc, ◌+◌, ◌*◌, ◌/◌, ◌<◌, ◌≡◌, refl, ap, List, [], ◌∷◌, get_or, set, length, u8, arith,
}

-- `uint16(p[i])<<8 | uint16(p[i+1])`, and the same over four bytes. The parts do not overlap.
abbrev pub read_u16 : List ℕ → ℕ → ℕ
read_u16 p i = get_or p i 0 * 256 + get_or p (suc i) 0

abbrev pub read_u32 : List ℕ → ℕ → ℕ
read_u32 p i =
    get_or p i 0 * 16777216
    + get_or p (suc i) 0 * 65536
    + get_or p (suc (suc i)) 0 * 256
    + get_or p (suc (suc (suc i))) 0

-- Two bytes written and then written back.
pub restore :
    (i : ℕ) (p : List ℕ) (a b : ℕ)
    → suc i < length p
    → set (set (set (set p i a) (suc i) b) i (get_or p i 0)) (suc i) (get_or p (suc i) 0) ≡ p
restore i [] a b h = refl
restore zero (x ∷ []) a b h = absurd (omega arith)
restore zero (x ∷ y ∷ p) a b h = refl
restore (suc i) (x ∷ p) a b h = ap (λ q. x ∷ q) (restore i p a b (omega arith))

pub read_back :
    (i : ℕ) (p : List ℕ) (a b : ℕ)
    → suc i < length p
    → read_u16 (set (set p i a) (suc i) b) i ≡ a * 256 + b
read_back i [] a b h = absurd (omega arith)
read_back zero (x ∷ []) a b h = absurd (omega arith)
read_back zero (x ∷ y ∷ p) a b h = refl
read_back (suc i) (x ∷ p) a b h = read_back i p a b (omega arith)

pub word : {c : ℕ} → c < 65536 → u8 (c / 256) * 256 + u8 c ≡ c
word h = omega arith

pub double_word :
    {n : ℕ}
    → n < 4294967296
    → u8 (n / 16777216) * 16777216 + u8 (n / 65536) * 65536 + u8 (n / 256) * 256 + u8 n ≡ n
double_word small = omega arith

-- the four bytes of a word
abbrev pub u32_bytes : ℕ → List ℕ
u32_bytes n = u8 (n / 16777216) ∷ u8 (n / 65536) ∷ u8 (n / 256) ∷ u8 n ∷ []

-- A hardware address, `[6]byte`.
pub record Mac : Type 0 where
  pub b0 : ℕ
  pub b1 : ℕ
  pub b2 : ℕ
  pub b3 : ℕ
  pub b4 : ℕ
  pub b5 : ℕ

-- `copy(mac[:], p[i:i+6])`
abbrev pub read_mac : List ℕ → ℕ → Mac
read_mac p i = record {
  b0 = get_or p i 0;
  b1 = get_or p (1 + i) 0;
  b2 = get_or p (2 + i) 0;
  b3 = get_or p (3 + i) 0;
  b4 = get_or p (4 + i) 0;
  b5 = get_or p (5 + i) 0;
}

abbrev pub mac_bytes : Mac → List ℕ
mac_bytes m = m.b0 ∷ m.b1 ∷ m.b2 ∷ m.b3 ∷ m.b4 ∷ m.b5 ∷ []
