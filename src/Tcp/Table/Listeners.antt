-- ===== src/Tcp/Table/Listeners.antt =====
-- The queues of a listener.
use gooos.Common.{
  ℕ, ◌+◌, ◌-◌, ◌<◌, ◌≤◌, ◌≡◌, refl, true, false, ◌&&◌, inl, inr, List, [], ◌∷◌, ◌++◌, ltb, leb,
  ◌==◌, if◌then◌else◌, length, length-append, arith, Bool-cases,
}
use gooos.Tcp.Table.{Listener, push_pending, holds_tcb, without, promote, listener_remove}

-- how often a connection stands in a queue
unfoldable pub times : ℕ → List ℕ → ℕ
times t [] = 0
times t (u ∷ us) = (if u == t then 1 else 0) + times t us

-- Both queues together hold at most eight connections, and each connection at most once.
pub record IsValid (l : Listener) : Type 0 where
  pub room : length l.pending + length l.accept ≤ 8
  pub once : (t : ℕ) → times t l.pending + times t l.accept ≤ 1

times-append : (t : ℕ) (us vs : List ℕ) → times t (us ++ vs) ≡ times t us + times t vs
unfolding times
times-append t [] vs = omega arith
times-append t (u ∷ us) vs = omega (arith, times-append t us vs)

times-one : (t u : ℕ) → times t (u ∷ []) ≡ (if u == t then 1 else 0)
unfolding times
times-one t u = omega arith

holds-times : (t : ℕ) (us : List ℕ) → holds_tcb t us ≡ ltb 0 (times t us)
unfolding holds_tcb times
holds-times t [] = refl
holds-times t (u ∷ us) = ground (arith, holds-times t us)

times-without :
    (t v : ℕ) (us : List ℕ)
    → times v (without t us) ≡ times v us - (if holds_tcb t us && t == v then 1 else 0)
unfolding times without holds_tcb
times-without t v [] = omega arith
times-without t v (u ∷ us) = ground (arith, times-without t v us, holds-times t us)

holds-length : (t : ℕ) (us : List ℕ) → holds_tcb t us ≡ true → 0 < length us
unfolding holds_tcb
holds-length t [] h = cc
holds-length t (u ∷ us) h = omega arith

length-without :
    (t : ℕ) (us : List ℕ) → length (without t us) ≡ length us - (if holds_tcb t us then 1 else 0)
unfolding without holds_tcb times
length-without t [] = omega arith
length-without t (u ∷ us) = ground (arith, length-without t us, holds-length t us)

-- `tcpListenerPushPending` of a connection in neither queue keeps them valid; it appends the connection
-- exactly when the queues hold fewer than eight.
pub push_pending-IsValid :
    (t : ℕ) (l : Listener)
    → IsValid l
    → times t l.pending + times t l.accept ≡ 0
    → let (l', ok) = push_pending t l in
      IsValid l'
      × (ok ≡ ltb (length l.pending + length l.accept) 8)
      × (l'.pending ≡ (if ok then l.pending ++ (t ∷ []) else l.pending))
      × (l'.accept ≡ l.accept)
unfolding push_pending
push_pending-IsValid t l v new =
    let size = length-append l.pending (t ∷ []) in
    elim (Bool-cases (leb 8 (length l.pending + length l.accept))) [
      | inl full ↦ rw full (v, ground (arith, full), refl, refl)
      | inr room ↦ rw room (
        record {
          room = ground (arith, room, size);
          once =
              λ u. ground (arith, v.once u, new, times-append u l.pending (t ∷ []), times-one u t);
        },
        ground (arith, room),
        refl,
        refl,
      )
    ]

moves_one :
    (t u : ℕ) (us vs : List ℕ)
    → holds_tcb t us ≡ true
    → times u (without t us) + times u (vs ++ (t ∷ [])) ≡ times u us + times u vs
moves_one t u us vs h =
    ground
      (arith, h, times-without t u us, times-append u vs (t ∷ []), times-one u t, holds-times t us)

-- `tcpListenerPromote` keeps the queues valid. A connection that waits for the handshake moves to the
-- end of the accept queue, so none is lost or doubled; for any other it does nothing.
pub promote-IsValid :
    (t : ℕ) (l : Listener)
    → IsValid l
    → let (l', ok) = promote t l in
      IsValid l'
      × (ok ≡ holds_tcb t l.pending)
      × (l'.accept ≡ (if ok then l.accept ++ (t ∷ []) else l.accept))
      × ((u : ℕ) → times u l'.pending + times u l'.accept ≡ times u l.pending + times u l.accept)
unfolding promote
promote-IsValid t l v =
    let size = length-append l.accept (t ∷ []) in
    let shorter = length-without t l.pending in
    let some_there = holds-length t l.pending in
    elim (Bool-cases (holds_tcb t l.pending)) [
      | inl waits ↦
          let room : leb 8 (length l.accept) ≡ false = ground (arith, v.room, waits, some_there) in
          let moved = λ (u : ℕ). moves_one t u l.pending l.accept waits in
          rw (waits, room)
            (
              record {
                room = ground (arith, v.room, waits, some_there, size, shorter);
                once = λ u. ground (arith, v.once u, moved u);
              },
              refl,
              refl,
              moved,
            )
      | inr absent ↦ rw absent (v, refl, refl, λ u. refl)
    ]

-- `tcpListenerRemove` keeps the queues valid; the connection is in neither afterwards, and every other
-- stays where it was.
pub listener_remove-IsValid :
    (t : ℕ) (l : Listener)
    → IsValid l
    → let l' = listener_remove t l in
      IsValid l'
      × ((u : ℕ) → times u l'.pending ≡ (if t == u then 0 else times u l.pending))
      × ((u : ℕ) → times u l'.accept ≡ (if t == u then 0 else times u l.accept))
unfolding listener_remove
listener_remove-IsValid t l v =
    let gone = λ (u : ℕ). times-without t u l.pending in
    let gone' = λ (u : ℕ). times-without t u l.accept in
    let held = holds-times t l.pending in
    let held' = holds-times t l.accept in
    elim (Bool-cases (holds_tcb t l.pending)) [
      | inl waits ↦ rw waits (
        record {
          room = ground (arith, v.room, length-without t l.pending);
          once = λ u. ground (arith, v.once u, gone u);
        },
        λ u. ground (arith, waits, v.once t, v.once u, gone u, held),
        λ u. ground (arith, waits, v.once t, held),
      )
      | inr absent ↦ rw absent (
        record {
          room = ground (arith, v.room, length-without t l.accept);
          once = λ u. ground (arith, v.once u, gone' u);
        },
        λ u. ground (arith, absent, held),
        λ u. ground (arith, v.once t, v.once u, gone' u, held'),
      )
    ]
