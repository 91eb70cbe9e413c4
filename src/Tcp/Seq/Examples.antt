-- ===== src/Tcp/Seq/Examples.antt =====
-- The comparison of sequence numbers at a stretch that wraps.
use gooos.Common.{◌+◌, ◌≡◌, u32, leb, ltb, arith}
use gooos.Tcp.Seq.{seq_le, seq_lt, seq_order}

seq_order_example :
    (seq_le (u32 (4294967290 + 3)) (u32 (4294967290 + 10)) ≡ leb 3 10)
    × (seq_lt (u32 (4294967290 + 3)) (u32 (4294967290 + 10)) ≡ ltb 3 10)
seq_order_example = seq_order 4294967290 3 10 (omega arith) (omega arith) (omega arith)
