-- ===== src/Sync/Keyboard/Examples.antt =====
-- The keyboard ring at a state whose counters have wrapped.
use gooos.Common.{◌+◌, ◌≡◌, refl, [], ◌∷◌, ◌++◌, ltb, if◌then◌else◌, length, u32, arith}
use gooos.Sync.Keyboard.{KbdRing, send, recv}
use gooos.Sync.Keyboard.Fifo.{IsValid, events, uncons, send_refines, recv_refines}

-- the writer has wrapped round to 1, the reader has not: two events are held
abbrev wrapped : KbdRing
wrapped = record { ring = λ i. i + 100; head = 1; tail = 4294967295; drops = 0 }

wrapped-IsValid : IsValid wrapped
wrapped-IsValid = omega arith

events-wrapped : events wrapped ≡ 163 ∷ 100 ∷ []
events-wrapped = refl

send_refines_example :
    IsValid (send 7 wrapped)
    × (events (send 7 wrapped)
        ≡ (if ltb (length (events wrapped)) 64 then events wrapped ++ (7 ∷ []) else events wrapped))
    × ((send 7 wrapped).drops
        ≡ (if ltb (length (events wrapped)) 64 then wrapped.drops else u32 (wrapped.drops + 1)))
send_refines_example = send_refines 7 wrapped wrapped-IsValid

recv_refines_example :
    let (k', r) = recv wrapped in
    IsValid k'
    × ((events k', r) ≡ uncons (events wrapped))
    × (k'.drops ≡ wrapped.drops)
    × (k'.head ≡ wrapped.head)
recv_refines_example = recv_refines wrapped wrapped-IsValid
