-- ===== src/Sync/Keyboard/Fifo.antt =====
-- The keyboard ring is first in, first out across the wrap of its counters, and drops when full.
use gooos.Common.{
  ℕ, suc, ◌+◌, ◌%◌, ◌≤◌, ◌<◌, ◌≡◌, ap, ◌∙◌, ◌≢◌, Option, none, some, List, [], ◌∷◌, ◌++◌, ltb,
  if◌then◌else◌, u32, sub32, length, arith,
}
use gooos.Common.Rings.{view, view_mod, view-update_end, length-view}
use gooos.Sync.Keyboard.{KbdRing, send, recv}

-- the number of events held: the distance of the counters, across their wrap
abbrev pub held : KbdRing → ℕ
held k = sub32 k.head k.tail

abbrev pub events : KbdRing → List ℕ
events k = view k.ring 64 k.tail (held k)

pub record IsValid (k : KbdRing) : Type 0 where
  pub head_in : k.head < 4294967296
  pub tail_in : k.tail < 4294967296
  pub held_in : held k ≤ 64

abbrev pub uncons : List ℕ → List ℕ × Option ℕ
uncons [] = ([], none)
uncons (x ∷ xs) = (xs, some x)

-- `keyboardIRQSend` on a valid ring leaves a valid ring; it appends the event while fewer than 64
-- are held, and else keeps those held and counts one drop.
pub send_refines :
    (e : ℕ) (k : KbdRing)
    → IsValid k
    → IsValid (send e k)
      × (events (send e k)
          ≡ (if ltb (length (events k)) 64 then events k ++ (e ∷ []) else events k))
      × ((send e k).drops ≡ (if ltb (length (events k)) 64 then k.drops else u32 (k.drops + 1)))
unfolding send
send_refines e k v = ground (
  arith,
  length-view k.ring 64 k.tail (held k),
  view-update_end k.ring 64 k.tail (held k) (k.head % 64) e,
)

-- one event less, across the wrap of the reader's counter
recv_held :
    (k : KbdRing) → IsValid k → k.tail ≢ k.head → sub32 k.head (u32 (k.tail + 1)) + 1 ≡ held k
recv_held k v ne = omega arith

events-recv :
    (k : KbdRing)
    → IsValid k
    → k.tail ≢ k.head
    → events k
      ≡ k.ring (k.tail % 64) ∷ view k.ring 64 (u32 (k.tail + 1)) (sub32 k.head (u32 (k.tail + 1)))
events-recv k v ne =
    ap (λ n. view k.ring 64 k.tail n) {y = suc (sub32 k.head (u32 (k.tail + 1)))}
      (omega (arith, recv_held k v ne))
    ∙ ap (λ es. k.ring (k.tail % 64) ∷ es)
        (view_mod k.ring 64 (k.tail + 1) (u32 (k.tail + 1)) (sub32 k.head (u32 (k.tail + 1)))
          (omega arith))

none_held : (k : KbdRing) → IsValid k → k.tail ≡ k.head → held k ≡ 0
none_held k v e = omega arith

-- `keyboardIRQRecv` on a valid ring leaves a valid ring, takes the oldest event if there is one, and
-- touches neither the drop counter nor the writer's counter.
pub recv_refines :
    (k : KbdRing)
    → IsValid k
    → let (k', r) = recv k in
      IsValid k' × ((events k', r) ≡ uncons (events k)) × (k'.drops ≡ k.drops) × (k'.head ≡ k.head)
unfolding recv
recv_refines k v = ground (arith, events-recv k v, recv_held k v, none_held k v)
