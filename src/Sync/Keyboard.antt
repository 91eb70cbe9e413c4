-- ===== src/Sync/Keyboard.antt =====
-- The keyboard ring of src/keyboard_irq.go. The counters run over all of `uint32` and wrap; an index
-- is a counter modulo the ring's size, a power of two.
pub mod Fifo
pub mod Examples
use gooos.Common.{
  ℕ, ◌+◌, ◌%◌, Bool, true, false, Option, none, some, leb, ◌==◌, if◌then◌else◌, Array, update, u32,
  sub32,
}

-- `kbdRingSize`
abbrev pub kbd_ring_size : ℕ
kbd_ring_size = 64

pub record KbdRing : Type 0 where
  pub ring : Array ℕ
  pub head : ℕ
  pub tail : ℕ
  pub drops : ℕ

-- `keyboardIRQSend`
pub send : ℕ → KbdRing → KbdRing
send event k =
    if leb kbd_ring_size (sub32 k.head k.tail)
    then record k { drops = u32 (k.drops + 1) }
    else record k { ring = update k.ring (k.head % kbd_ring_size) event; head = u32 (k.head + 1) }

-- `keyboardIRQRecv`; the result `(0, false)` is `none`
pub recv : KbdRing → KbdRing × Option ℕ
recv k =
    if k.tail == k.head
    then (k, none)
    else (record k { tail = u32 (k.tail + 1) }, some (k.ring (k.tail % kbd_ring_size)))
