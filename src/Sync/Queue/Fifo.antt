-- ===== src/Sync/Queue/Fifo.antt =====
-- The queues of src/kthread_queue.go are first in, first out, and never hold more than their size.
use gooos.Common.{
  ℕ, suc, ◌+◌, ◌-◌, ◌%◌, ◌≤◌, ◌<◌, ◌≡◌, refl, sym, ap, ap₂, ◌∙◌, Bool, true, false, Option, none,
  some, List, [], ◌∷◌, ◌++◌, ltb, ◌==◌, if◌then◌else◌, update, u32, length, arith,
}
use native.Mathlib.Nat.{mod-eq_of_lt, mod-add-mod, mod-lt}
use gooos.Common.Rings.{view, view_mod, view-update_end, view-update_head, length-view}
use gooos.Sync.Queue.{
  Queue, Outcome, done, parks, spins, first, fresh, enqueue, dequeue, push, pop, try_push, try_pop,
}

-- the entries, oldest first
abbrev pub contents {ℓ} : {A : Type ℓ} → ℕ → Queue A → List A
contents cap q = view q.ring cap q.head q.count

-- The indices stand in the ring, and the tail is `count` slots past the head.
pub record IsValid {ℓ} {A : Type ℓ} (cap : ℕ) (q : Queue A) : Type 0 where
  pub head_in : q.head < cap
  pub tail_at : q.tail ≡ (q.head + q.count) % cap
  pub count_in : q.count ≤ cap

abbrev pub value {ℓ} : {R : Type ℓ} → Outcome R → Option R
value (done r w) = some r
value parks = none
value spins = none

abbrev pub woken {ℓ} : {R : Type ℓ} → Outcome R → Option ℕ
woken (done r w) = w
woken parks = none
woken spins = none

-- what a FIFO of at most `cap` entries does
abbrev pub offer {ℓ} : {A : Type ℓ} → ℕ → A → List A → List A × Bool
offer cap v xs = if ltb (length xs) cap then (xs ++ (v ∷ []), true) else (xs, false)

abbrev pub uncons {ℓ} : {A : Type ℓ} → List A → List A × Option A
uncons [] = ([], none)
uncons (x ∷ xs) = (xs, some x)

abbrev pub is_done {ℓ} : {R : Type ℓ} → Outcome R → Bool
is_done (done r w) = true
is_done parks = false
is_done spins = false

module _ {A : Type 0} (cap : ℕ) (blank : A) (pos : 0 < cap) (small : cap ≤ 65536) where
  pub fresh-IsValid : IsValid cap (fresh {A = A} cap blank) × (contents cap (fresh cap blank) ≡ [])
  unfolding fresh
  fresh-IsValid =
      (record { head_in = pos; tail_at = sym (mod-eq_of_lt pos); count_in = omega arith }, refl)

  tail-lt : (q : Queue A) → IsValid cap q → q.tail < cap
  tail-lt q h = rw h.tail_at (mod-lt (q.head + q.count) pos)

  enqueue-IsValid :
      (v : A) (q : Queue A) → IsValid cap q → q.count < cap → IsValid cap (enqueue cap blank v q)
  enqueue-IsValid v q h room = record {
    head_in = h.head_in;
    tail_at =
        ap (λ t. t % cap) (omega (arith, tail-lt q h))
        ∙ ap (λ t. (t + 1) % cap) h.tail_at
        ∙ mod-add-mod (q.head + q.count) cap 1
        ∙ ap (λ t. t % cap) (omega arith);
    count_in = omega arith;
  }

  contents-enqueue :
      (v : A) (q : Queue A)
      → IsValid cap q
      → q.count < cap
      → contents cap (enqueue cap blank v q) ≡ contents cap q ++ (v ∷ [])
  contents-enqueue v q h room =
      ap (λ n. view (update q.ring q.tail v) cap q.head n) {y = suc q.count} (omega arith)
      ∙ view-update_end q.ring cap q.head q.count q.tail v room h.tail_at

  next_head : (q : Queue A) → IsValid cap q → u32 (q.head + 1) % cap ≡ (q.head + 1) % cap
  next_head q h = ap (λ t. t % cap) (omega arith)

  dequeue-IsValid : (q : Queue A) → IsValid cap q → 0 < q.count → IsValid cap (dequeue cap blank q)
  dequeue-IsValid q h held = record {
    head_in = mod-lt (u32 (q.head + 1)) pos;
    tail_at =
        h.tail_at
        ∙ ap (λ t. t % cap) (omega arith)
        ∙ sym (mod-add-mod (q.head + 1) cap (q.count - 1))
        ∙ ap (λ t. (t + (q.count - 1)) % cap) (sym (next_head q h));
    count_in = omega arith;
  }

  contents-dequeue :
      (q : Queue A)
      → IsValid cap q
      → 0 < q.count
      → contents cap q ≡ q.ring q.head ∷ contents cap (dequeue cap blank q)
  contents-dequeue q h held =
      ap (λ n. view q.ring cap q.head n) {y = suc (q.count - 1)} (omega arith)
      ∙ ap₂ ◌∷◌ (ap q.ring (mod-eq_of_lt h.head_in)) (sym left)
    where
      left : contents cap (dequeue cap blank q) ≡ view q.ring cap (q.head + 1) (q.count - 1)
      left =
          view_mod (update q.ring q.head blank) cap (u32 (q.head + 1) % cap) (q.head + 1)
            (q.count - 1) (mod-eq_of_lt (mod-lt (u32 (q.head + 1)) pos) ∙ next_head q h)
          ∙ ap (λ i. view (update q.ring i blank) cap (q.head + 1) (q.count - 1))
              (sym (mod-eq_of_lt h.head_in))
          ∙ view-update_head q.ring cap q.head (q.count - 1) blank (omega arith)

  -- One round of `Push` on a valid queue leaves a valid queue; it appends the value and returns,
  -- waking the parked consumer, exactly when there is room, and else leaves the entries alone.
  pub push_refines :
      (me : Option ℕ) (v : A) (q : Queue A)
      → IsValid cap q
      → let (q', o) = push cap blank me v q in
        IsValid cap q'
        × ((contents cap q', is_done o) ≡ offer cap v (contents cap q))
        × (woken o ≡ (if is_done o then q.consumer else none))
  unfolding push
  push_refines me v q h =
      ground (
        arith,
        enqueue-IsValid v q h,
        contents-enqueue v q h,
        length-view q.ring cap q.head q.count,
      )

  -- One round of `Pop` on a valid queue leaves a valid queue; it takes the oldest value and returns
  -- it, waking the first parked producer, exactly when there is one, and else leaves the entries.
  pub pop_refines :
      (me : Option ℕ) (q : Queue A)
      → IsValid cap q
      → let (q', o) = pop cap blank me q in
        IsValid cap q'
        × ((contents cap q', value o) ≡ uncons (contents cap q))
        × (woken o ≡ (if is_done o then first q.producers else none))
  unfolding pop
  pop_refines me q h =
      ground
        (arith, dequeue-IsValid q h, contents-dequeue q h, length-view q.ring cap q.head q.count)

  -- `TryPush` on a valid queue leaves a valid queue; it appends the value and says so, waking the
  -- parked consumer, exactly when there is room, and else drops it.
  pub try_push_refines :
      (v : A) (q : Queue A)
      → IsValid cap q
      → let (q', ok, w) = try_push cap blank v q in
        IsValid cap q'
        × ((contents cap q', ok) ≡ offer cap v (contents cap q))
        × (w ≡ (if ok then q.consumer else none))
  unfolding try_push
  try_push_refines v q h =
      ground (
        arith,
        enqueue-IsValid v q h,
        contents-enqueue v q h,
        length-view q.ring cap q.head q.count,
      )

  -- `TryPop` on a valid queue leaves a valid queue; it takes the oldest value, waking the first
  -- parked producer, exactly when there is one, and else answers with none and wakes nobody.
  pub try_pop_refines :
      (q : Queue A)
      → IsValid cap q
      → let (q', r, w) = try_pop cap blank q in
        IsValid cap q'
        × ((contents cap q', r) ≡ uncons (contents cap q))
        × (w ≡ (if q.count == 0 then none else first q.producers))
  unfolding try_pop
  try_pop_refines q h =
      ground
        (arith, dequeue-IsValid q h, contents-dequeue q h, length-view q.ring cap q.head q.count)
