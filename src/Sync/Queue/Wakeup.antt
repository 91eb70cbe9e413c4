-- ===== src/Sync/Queue/Wakeup.antt =====
-- No lost wakeup in src/kthread_queue.go: the interleavings of any number of producers with the one
-- consumer of a queue, each round of a loop being one step under the lock.
use gooos.Common.{
  ℕ, ◌+◌, ◌-◌, ◌≤◌, ◌<◌, ◌≡◌, refl, ◌≢◌, ◌⊎◌, inl, Option, none, some, [], length, arith,
}
use gooos.Common.Rings.{length-view}
use gooos.Sync.Queue.{Queue, Outcome, done, parks, spins, fresh, push, pop, try_push, try_pop}
use gooos.Sync.Queue.Fifo.{
  contents, IsValid, woken, fresh-IsValid, push_refines, pop_refines, try_push_refines,
  try_pop_refines,
}

-- `trying` counts the producers on their way to a round of `Push`: new callers, and those that were
-- woken and have not yet run again.
pub record System (A : Type 0) : Type 0 where
  pub queue : Queue A
  pub trying : ℕ

abbrev pub woken_count : Option ℕ → ℕ
woken_count none = 0
woken_count (some t) = 1

-- A producer that returns or parks is no longer on its way; one that spins still is.
abbrev pub still_trying {ℓ} : {R : Type ℓ} → Outcome R → ℕ
still_trying (done r w) = 0
still_trying parks = 0
still_trying spins = 1

module _ {A : Type 0} (cap : ℕ) (blank : A) where
  unfoldable pub push_step : Option ℕ → A → System A → System A
  push_step me v s =
      let (q, o) = push cap blank me v s.queue in
      record s { queue = q; trying = s.trying - 1 + still_trying o }

  unfoldable pub pop_step : ℕ → System A → System A
  pop_step me s =
      let (q, o) = pop cap blank (some me) s.queue in
      record s { queue = q; trying = s.trying + woken_count (woken o) }

  unfoldable pub try_push_step : A → System A → System A
  try_push_step v s = record s { queue = (try_push cap blank v s.queue).0 }

  unfoldable pub try_pop_step : System A → System A
  try_pop_step s =
      let (q, r, w) = try_pop cap blank s.queue in
      record s { queue = q; trying = s.trying + woken_count w }

  -- `c` is the one consumer; it runs only while it is not parked.
  pub data Step (c : ℕ) : System A → System A → Type 0 where
    call : (s : System A) → Step c s (record s { trying = s.trying + 1 })
    pushes : (s : System A) (me : Option ℕ) (v : A) → 0 < s.trying → Step c s (push_step me v s)
    pops : (s : System A) → s.queue.consumer ≡ none → Step c s (pop_step c s)
    try_pushes : (s : System A) (v : A) → Step c s (try_push_step v s)
    try_pops : (s : System A) → s.queue.consumer ≡ none → Step c s (try_pop_step s)

  pub data Reach (c : ℕ) (s : System A) : System A → Type 0 where
    here : Reach c s s
    next : {t u : System A} → Reach c s t → Step c t u → Reach c s u

  unfoldable pub start : System A
  start = record { queue = fresh cap blank; trying = 0 }

-- A parked consumer has nothing to take, and behind parked producers every free slot is promised to
-- a producer that is on its way.
pub record Inv {A : Type 0} (cap : ℕ) (s : System A) : Type 0 where
  pub valid : IsValid cap s.queue
  pub consumer_idle : (s.queue.consumer ≡ none) ⊎ (s.queue.count ≡ 0)
  pub producers_full : (s.queue.producers ≡ []) ⊎ (cap ≤ s.queue.count + s.trying)

module _ {A : Type 0} (cap : ℕ) (blank : A) (pos : 0 < cap) (small : cap ≤ 65536) where
  start-Inv : Inv cap (start {A = A} cap blank)
  unfolding start fresh
  start-Inv = record {
    valid = (fresh-IsValid cap blank pos small).0;
    consumer_idle = inl refl;
    producers_full = inl refl;
  }

  push_step-Inv :
      (me : Option ℕ) (v : A) (s : System A)
      → 0 < s.trying
      → Inv cap s
      → Inv cap (push_step cap blank me v s)
  unfolding push_step push
  push_step-Inv me v s h inv =
      ground (arith, (push_refines cap blank pos small me v s.queue inv.valid).0)

  pop_step-Inv :
      (c : ℕ) (s : System A)
      → s.queue.consumer ≡ none
      → Inv cap s
      → Inv cap (pop_step cap blank c s)
  unfolding pop_step pop
  pop_step-Inv c s h inv =
      ground (arith, (pop_refines cap blank pos small (some c) s.queue inv.valid).0)

  try_push_step-Inv : (v : A) (s : System A) → Inv cap s → Inv cap (try_push_step cap blank v s)
  unfolding try_push_step try_push
  try_push_step-Inv v s inv =
      ground (arith, (try_push_refines cap blank pos small v s.queue inv.valid).0)

  try_pop_step-Inv : (s : System A) → Inv cap s → Inv cap (try_pop_step cap blank s)
  unfolding try_pop_step try_pop
  try_pop_step-Inv s inv = ground (arith, (try_pop_refines cap blank pos small s.queue inv.valid).0)

  Step-Inv : {c : ℕ} {s t : System A} → Step cap blank c s t → Inv cap s → Inv cap t
  Step-Inv (call s) inv = ground arith
  Step-Inv (pushes s me v h) inv = push_step-Inv me v s h inv
  Step-Inv {c} (pops s h) inv = pop_step-Inv c s h inv
  Step-Inv (try_pushes s v) inv = try_push_step-Inv v s inv
  Step-Inv (try_pops s h) inv = try_pop_step-Inv s inv

  Reach-Inv : {c : ℕ} {s t : System A} → Inv cap s → Reach cap blank c s t → Inv cap t
  Reach-Inv inv here = inv
  Reach-Inv inv (next r st) = Step-Inv st (Reach-Inv inv r)

  -- In every state that any interleaving of the producers and the one consumer reaches from a fresh
  -- queue: the queue holds at most its size; if the consumer is parked then the queue is empty; and
  -- if a producer is parked while none is on its way then the queue is full.
  pub no_lost_wakeup :
      {c : ℕ} (s : System A)
      → Reach cap blank c (start cap blank) s
      → (length (contents cap s.queue) ≤ cap)
        × (s.queue.consumer ≢ none → length (contents cap s.queue) ≡ 0)
        × (s.queue.producers ≢ [] → s.trying ≡ 0 → length (contents cap s.queue) ≡ cap)
  no_lost_wakeup s r =
      let inv = Reach-Inv (start-Inv) r in
      ground (
        arith,
        inv.valid.count_in,
        inv.consumer_idle,
        inv.producers_full,
        length-view s.queue.ring cap s.queue.head s.queue.count,
      )
