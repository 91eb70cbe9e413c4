-- ===== src/Tcp/Seq.antt =====
-- Sequence numbers of src/tcp.go: `uint32` values compared by the sign of their difference.
pub mod Examples
use gooos.Common.{ℕ, ◌+◌, ◌<◌, ◌≡◌, Bool, ◌||◌, ltb, leb, ◌==◌, u32, sub32, arith}

-- `int32(d) < 0`: the top bit of the word is set
abbrev negative : ℕ → Bool
negative d = leb 2147483648 d

unfoldable pub seq_lt : ℕ → ℕ → Bool
seq_lt a b = negative (sub32 a b)

unfoldable pub seq_le : ℕ → ℕ → Bool
seq_le a b = negative (sub32 a b) || sub32 a b == 0

-- On a stretch of less than half the space, wherever it starts and also across the wrap, `seqLE` and
-- `seqLT` compare sequence numbers by their distance from its start.
pub seq_order :
    (base i j : ℕ)
    → base < 4294967296
    → i < 2147483648
    → j < 2147483648
    → (seq_le (u32 (base + i)) (u32 (base + j)) ≡ leb i j)
      × (seq_lt (u32 (base + i)) (u32 (base + j)) ≡ ltb i j)
unfolding seq_le seq_lt
seq_order base i j hb hi hj = ground arith
