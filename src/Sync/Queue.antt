-- ===== src/Sync/Queue.antt =====
-- The bounded queues of src/kthread_queue.go. `fsReqQueue` and `udpDgramQueue` have one code over two
-- element types and two sizes, so the section takes the element type, its zero value and the size.
-- Each definition is what runs between `q.lock.Acquire()` and `q.lock.Release(flags)`.
pub mod Fifo
pub mod Wakeup
pub mod Examples
use gooos.Common.{
  ℕ, zero, suc, ◌+◌, ◌-◌, ◌%◌, Bool, true, false, Option, none, some, List, [], ◌∷◌, ltb, leb, ◌==◌,
  if◌then◌else◌, Array, update, u32,
}

-- A `*KernelThread` is a number. `producers` is the list that the `WakeLink`s form.
pub record Queue {ℓ} (A : Type ℓ) : Type ℓ where
  pub ring : Array A
  pub head : ℕ
  pub tail : ℕ
  pub count : ℕ
  pub producers : List ℕ
  pub consumer : Option ℕ

-- How one round of a blocking loop ends: it returns, and wakes a thread if there is one; the caller
-- parks; or, on no kernel thread, it spins and tries again.
pub data Outcome {ℓ} (R : Type ℓ) : Type ℓ where
  done : R → Option ℕ → Outcome R
  parks : Outcome R
  spins : Outcome R

abbrev pub first : List ℕ → Option ℕ
first [] = none
first (t ∷ ts) = some t

abbrev pub rest : List ℕ → List ℕ
rest [] = []
rest (t ∷ ts) = ts

module _ {ℓ} {A : Type ℓ} (cap : ℕ) (blank : A) where
  -- `newUdpDgramQueue`, and the zero value of `fsReqQ`
  unfoldable pub fresh : Queue A
  fresh = record {
    ring = λ _. blank;
    head = 0;
    tail = 0;
    count = 0;
    producers = [];
    consumer = none;
  }

  -- `q.ring[q.tail] = v; q.tail = ...; q.count++; q.consumer = nil`
  abbrev pub enqueue : A → Queue A → Queue A
  enqueue v q = record q {
    ring = update q.ring q.tail v;
    tail = u32 (q.tail + 1) % cap;
    count = u32 (q.count + 1);
    consumer = none;
  }

  -- the slot is cleared, and one producer leaves the list
  abbrev pub dequeue : Queue A → Queue A
  dequeue q = record q {
    ring = update q.ring q.head blank;
    head = u32 (q.head + 1) % cap;
    count = q.count - 1;
    producers = rest q.producers;
  }

  park_producer : Option ℕ → Queue A → Queue A × Outcome (Unit {0})
  park_producer none q = (q, spins)
  park_producer (some me) q = (record q { producers = me ∷ q.producers }, parks)

  -- one round of `Push`; `me` is `kschedRunning[cpu]`
  pub push : Option ℕ → A → Queue A → Queue A × Outcome (Unit {0})
  unfolding park_producer
  push me v q = if ltb q.count cap then (enqueue v q, done tt q.consumer) else park_producer me q

  -- a consumer that finds another one parked goes to the list of the producers
  abbrev park_behind : Option ℕ → ℕ → Queue A → Queue A
  park_behind none me q = record q { consumer = some me }
  park_behind (some other) me q = record q { producers = me ∷ q.producers }

  park_consumer : Option ℕ → Queue A → Queue A × Outcome A
  park_consumer none q = (q, spins)
  park_consumer (some me) q = (park_behind q.consumer me q, parks)

  -- one round of `Pop`
  pub pop : Option ℕ → Queue A → Queue A × Outcome A
  unfolding park_consumer
  pop me q =
      if ltb 0 q.count
      then (dequeue q, done (q.ring q.head) (first q.producers))
      else park_consumer me q

  -- the Boolean is the result, and the option is the consumer that is woken
  pub try_push : A → Queue A → Queue A × Bool × Option ℕ
  try_push v q = if leb cap q.count then (q, false, none) else (enqueue v q, true, q.consumer)

  pub try_pop : Queue A → Queue A × Option A × Option ℕ
  try_pop q =
      if q.count == 0 then (q, none, none) else (dequeue q, some (q.ring q.head), first q.producers)

-- `Len`
pub len {ℓ} : {A : Type ℓ} → Queue A → ℕ
len q = q.count
