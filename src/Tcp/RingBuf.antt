-- ===== src/Tcp/RingBuf.antt =====
-- The byte ring `tcpRingBuf` of src/tcp.go. Its counters run over all of `uint32` and wrap; an index
-- is a counter modulo the size.
pub mod Fifo
pub mod Examples
use gooos.Common.{
  ℕ, zero, suc, ◌+◌, ◌-◌, ◌%◌, List, [], ◌∷◌, ltb, leb, if◌then◌else◌, Array, update, u32, length,
  take,
}

-- `tcpRxBufSize`
abbrev pub rx_buf_size : ℕ
rx_buf_size = 8192

pub record RingBuf : Type 0 where
  pub bytes : Array ℕ
  pub head : ℕ
  pub tail : ℕ
  pub count : ℕ

pub rb_free : RingBuf → ℕ
rb_free r = rx_buf_size - r.count

pub rb_len : RingBuf → ℕ
rb_len r = r.count

pub rb_reset : RingBuf → RingBuf
rb_reset r = record r { head = 0; tail = 0; count = 0 }

-- `r.data[(r.tail+uint32(i))&tcpBufMask] = src[i]`, from the counter `t` on
pub store : Array ℕ → ℕ → List ℕ → Array ℕ
store f t [] = f
store f t (x ∷ xs) = store (update f (t % rx_buf_size) x) (u32 (t + 1)) xs

-- `dst[i] = r.data[(r.head+uint32(i))&tcpBufMask]`, from the counter `h` on
pub load : Array ℕ → ℕ → ℕ → List ℕ
load f h zero = []
load f h (suc n) = f (h % rx_buf_size) ∷ load f (u32 (h + 1)) n

pub rb_write : List ℕ → RingBuf → RingBuf × ℕ
rb_write src r =
    let n = if ltb (rb_free r) (length src) then rb_free r else length src in
    (
      record r {
        bytes = store r.bytes r.tail (take n src);
        tail = u32 (r.tail + n);
        count = u32 (r.count + n);
      },
      n,
    )

-- `room` is `len(dst)`; the list is what is copied to `dst`.
pub rb_read : ℕ → RingBuf → RingBuf × List ℕ
rb_read room r =
    let n = if ltb (rb_len r) room then rb_len r else room in
    (record r { head = u32 (r.head + n); count = r.count - n }, load r.bytes r.head n)

-- the bytes that are copied to `dst`, of `room` bytes
pub rb_peek : ℕ → ℕ → ℕ → RingBuf → List ℕ
rb_peek off n room r =
    let n1 = if ltb room n then room else n in
    let n2 = if ltb (rb_len r) (u32 (off + n1)) then rb_len r - off else n1 in
    if leb (rb_len r) off then [] else load r.bytes (u32 (r.head + off)) n2
