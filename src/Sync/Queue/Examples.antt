-- ===== src/Sync/Queue/Examples.antt =====
-- The queues at concrete calls, with the sizes `fsReqQueueCap` and `udpDgramQueueCap`.
use gooos.Common.{ℕ, ◌+◌, ◌≤◌, ◌≡◌, ◌≢◌, refl, none, some, [], length, ◌==◌, if◌then◌else◌, arith}
use gooos.Sync.Queue.{Queue, first, fresh, push, pop, try_push, try_pop}
use gooos.Sync.Queue.Fifo.{
  contents, IsValid, offer, uncons, is_done, value, woken, push_refines, pop_refines,
  try_push_refines, try_pop_refines, fresh-IsValid,
}
use gooos.Sync.Queue.Wakeup.{
  System, call, pushes, pops, Reach, here, next, start, push_step, pop_step, no_lost_wakeup,
}

abbrev fs_req_queue_cap : ℕ
fs_req_queue_cap = 8

abbrev udp_dgram_queue_cap : ℕ
udp_dgram_queue_cap = 16

-- the consumer 1 is parked
abbrev idle : Queue ℕ
idle = (pop fs_req_queue_cap 0 (some 1) (fresh fs_req_queue_cap 0)).0

idle-IsValid : IsValid fs_req_queue_cap idle
idle-IsValid =
    (pop_refines fs_req_queue_cap 0 (omega arith) (omega arith) (some 1) (fresh 8 0)
      (fresh-IsValid 8 0 (omega arith) (omega arith)).0).0

push_wakes : woken (push fs_req_queue_cap 0 (some 2) 9 idle).1 ≡ some 1
unfolding push pop fresh
push_wakes = refl

push_refines_example :
    let (q', o) = push 8 0 (some 2) 9 idle in
    IsValid 8 q'
    × ((contents 8 q', is_done o) ≡ offer 8 9 (contents 8 idle))
    × (woken o ≡ (if is_done o then idle.consumer else none))
push_refines_example = push_refines 8 0 (omega arith) (omega arith) (some 2) 9 idle idle-IsValid

pop_refines_example :
    let (q', o) = pop 8 0 (some 1) idle in
    IsValid 8 q'
    × ((contents 8 q', value o) ≡ uncons (contents 8 idle))
    × (woken o ≡ (if is_done o then first idle.producers else none))
pop_refines_example = pop_refines 8 0 (omega arith) (omega arith) (some 1) idle idle-IsValid

abbrev nil : ℕ
nil = 0

abbrev one : Queue ℕ
one = (try_push udp_dgram_queue_cap nil 5 (fresh udp_dgram_queue_cap nil)).0

one-IsValid : IsValid udp_dgram_queue_cap one
one-IsValid =
    (try_push_refines udp_dgram_queue_cap nil (omega arith) (omega arith) 5 (fresh 16 nil)
      (fresh-IsValid 16 nil (omega arith) (omega arith)).0).0

try_push_refines_example :
    let (q', ok, w) = try_push 16 nil 9 one in
    IsValid 16 q'
    × ((contents 16 q', ok) ≡ offer 16 9 (contents 16 one))
    × (w ≡ (if ok then one.consumer else none))
try_push_refines_example = try_push_refines 16 nil (omega arith) (omega arith) 9 one one-IsValid

try_pop_refines_example :
    let (q', r, w) = try_pop 16 nil one in
    IsValid 16 q'
    × ((contents 16 q', r) ≡ uncons (contents 16 one))
    × (w ≡ (if one.count == 0 then none else first one.producers))
try_pop_refines_example = try_pop_refines 16 nil (omega arith) (omega arith) one one-IsValid

-- the consumer 1 parks on the fresh queue, then a producer arrives and calls `Push`
abbrev parked : System ℕ
parked = pop_step 8 0 1 (start 8 0)

abbrev arrived : System ℕ
arrived = record parked { trying = parked.trying + 1 }

abbrev pushed : System ℕ
pushed = push_step 8 0 (some 2) 9 arrived

pushed-Reach : Reach 8 0 1 (start 8 0) pushed
unfolding start fresh pop_step pop
pushed-Reach = next (next (next here (pops _ refl)) (call _)) (pushes _ (some 2) 9 (omega arith))

no_lost_wakeup_example :
    (length (contents 8 pushed.queue) ≤ 8)
    × (pushed.queue.consumer ≢ none → length (contents 8 pushed.queue) ≡ 0)
    × (pushed.queue.producers ≢ [] → pushed.trying ≡ 0 → length (contents 8 pushed.queue) ≡ 8)
no_lost_wakeup_example = no_lost_wakeup 8 0 (omega arith) (omega arith) pushed pushed-Reach
