-- ===== src/Tcp/RingBuf/Examples.antt =====
-- The byte ring at a state whose reader stands just before the wrap of the counters.
use gooos.Common.{◌-◌, ◌%◌, ◌≡◌, refl, [], ◌∷◌, ◌++◌, length, take, drop, min, arith}
use gooos.Tcp.RingBuf.{RingBuf, rb_write, rb_read, rb_peek}
use gooos.Tcp.RingBuf.Fifo.{IsValid, contents, rb_write_refines, rb_read_refines, rb_peek_refines}

abbrev pub wrapped : RingBuf
wrapped = record { bytes = λ i. i % 256; head = 4294967295; tail = 1; count = 2 }

pub wrapped-IsValid : IsValid wrapped
wrapped-IsValid = omega arith

contents-wrapped : contents wrapped ≡ 255 ∷ 0 ∷ []
contents-wrapped = refl

rb_write_refines_example :
    let (r', n) = rb_write (7 ∷ 8 ∷ []) wrapped in
    IsValid r'
    × (n ≡ min 2 (8192 - length (contents wrapped)))
    × (contents r' ≡ contents wrapped ++ take n (7 ∷ 8 ∷ []))
rb_write_refines_example = rb_write_refines (7 ∷ 8 ∷ []) wrapped wrapped-IsValid

rb_read_refines_example :
    let (r', out) = rb_read 1 wrapped in
    IsValid r' × (out ≡ take 1 (contents wrapped)) × (contents r' ≡ drop 1 (contents wrapped))
rb_read_refines_example = rb_read_refines 1 wrapped wrapped-IsValid

rb_peek_refines_example : rb_peek 1 5 9 wrapped ≡ take (min 5 9) (drop 1 (contents wrapped))
rb_peek_refines_example = rb_peek_refines 1 5 9 wrapped wrapped-IsValid (omega arith) (omega arith)
