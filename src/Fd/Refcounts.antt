-- ===== src/Fd/Refcounts.antt =====
-- The reference counts of pipes: every system call on descriptors keeps each count equal to the
-- number of slots, of all processes, that hold the end, so an end closes with its last slot.
use gooos.Common.{
  ℕ, zero, suc, ◌+◌, ◌≤◌, ◌<◌, ◌≡◌, ◌≢◌, get_or-set_ne, refl, sym, ap, ◌∙◌, subst, ltb→lt, Bool,
  true, false, ◌||◌, none, some, [], ◌∷◌, ltb, leb, ◌==◌, if◌then◌else◌, Array, length, length-set,
  set, Option-cases, arith, Bool-cases, inl, inr,
}
use gooos.Fd.Pipes.{Pipe}
use gooos.Fd.{
  FileDesc, FdErr, Slot, Slots, FdState, slot, close_slot, fd_add_ref, proc_close, proc_dup2,
}
use gooos.Fd.Counts.{
  PipeEnd, end_id, one, one-none, held, slot-held, held-set, Counted, close_slot-Counted,
  add_slot_ref-Counted,
}

-- The counts are right, given how many references each end has outside the slots at hand (`rest`).
pub record Sound (rest : PipeEnd → ℕ) (s : FdState) : Type 0 where
  pub full_table : length s.fds ≡ 16
  pub counted : (e : PipeEnd) → Counted s.pipes (held e s.fds + rest e) e
  pub unmade : (e : PipeEnd) → s.next ≤ end_id e → held e s.fds + rest e ≡ 0

set_same : (xs : Slots) (i : ℕ) → set xs i (slot xs i) ≡ xs
set_same [] i = refl
set_same (x ∷ xs) zero = refl
set_same (x ∷ xs) (suc i) = ap (λ ys. x ∷ ys) (set_same xs i)

pub is_empty : Slot → Bool
is_empty none = true
is_empty (some d) = false

-- putting `o` in a slot and dropping what was there
replace-Sound :
    (rest : PipeEnd → ℕ) (s : FdState) (i : ℕ) (o : Slot) (ps : Array Pipe)
    → Sound rest s
    → i < 16
    → ((e : PipeEnd) → Counted ps (held e (set s.fds i o) + rest e) e)
    → ((e : PipeEnd) → s.next ≤ end_id e → one e o ≡ 0)
    → Sound rest (record s { fds = set s.fds i o; pipes = ps })
replace-Sound rest s i o ps v h c u = record {
  full_table = length-set s.fds i o ∙ v.full_table;
  counted = c;
  unmade = λ e. λ m.
      let old = v.unmade e m in
      let new = u e m in
      let sum = held-set e s.fds i o (ground (arith, v.full_table)) in omega arith;
}

-- `procClose` with the slot's content named
close_slot-Sound :
    (rest : PipeEnd → ℕ) (fd : ℕ) (o : Slot) (s : FdState)
    → Sound rest s
    → fd < 16
    → slot s.fds fd ≡ o
    → Sound rest (record s { fds = set s.fds fd none; pipes = close_slot o s.pipes })
close_slot-Sound rest fd o s v h at =
    replace-Sound rest s fd none (close_slot o s.pipes) v h
      (λ e.
        let sum = held-set e s.fds fd none (ground (arith, v.full_table)) in
        let n = held e (set s.fds fd none) + rest e in
        close_slot-Counted o s.pipes n e
          (subst (λ k. Counted s.pipes k e) (ground (arith, sum, at, one-none e)) (v.counted e)))
      (λ e m. one-none e)

-- `procClose` keeps the counts right, empties the slot and leaves the others. It refuses exactly a
-- descriptor that is out of range; closing an empty slot succeeds.
pub proc_close-Sound :
    (rest : PipeEnd → ℕ) (fd : ℕ) (s : FdState)
    → Sound rest s
    → let (s', err) = proc_close fd s in
      Sound rest s'
      × (err ≡ (if ltb fd 16 then FdErr.err_ok else FdErr.err_bad))
      × (s'.fds ≡ (if ltb fd 16 then set s.fds fd none else s.fds))
unfolding proc_close
proc_close-Sound rest fd s v = elim (Bool-cases (ltb fd 16)) [
  | inl low ↦ elim (Option-cases (slot s.fds fd)) [
    | inl empty ↦ let same = set_same s.fds fd in ground (arith, empty, low, same)
    | inr (d, at) ↦
        let closed = close_slot-Sound rest fd (some d) s v (ltb→lt fd 16 low) at in
        ground (arith, at, low, closed)
  ]
  | inr high ↦ ground (arith, high)
]

-- `procDup2` with the contents of both slots named
dup_slot-Sound :
    (rest : PipeEnd → ℕ) (oldfd newfd : ℕ) (d : FileDesc) (s : FdState)
    → Sound rest s
    → newfd < 16
    → oldfd ≢ newfd
    → slot s.fds oldfd ≡ some d
    → Sound rest (record s {
      fds = set s.fds newfd (some d);
      pipes = fd_add_ref d (close_slot (slot s.fds newfd) s.pipes);
    })
dup_slot-Sound rest oldfd newfd d s v h ne at =
    let new : Slot = some d in
    replace-Sound rest s newfd new (fd_add_ref d (close_slot (slot s.fds newfd) s.pipes)) v h
      (λ e.
        let emptied = (close_slot-Sound rest newfd (slot s.fds newfd) s v h refl).counted e in
        let n = held e (set s.fds newfd none) + rest e in
        let sum = held-set e s.fds newfd none (ground (arith, v.full_table)) in
        let sum' = held-set e s.fds newfd new (ground (arith, v.full_table)) in
        let still = slot-held e (set s.fds newfd none) oldfd in
        let at' = get_or-set_ne s.fds {i = newfd} {j = oldfd} none none (λ eq. ne (sym eq)) ∙ at in
        subst (λ k. Counted (fd_add_ref d (close_slot (slot s.fds newfd) s.pipes)) k e)
          (omega (arith, one-none e))
          (add_slot_ref-Counted new (close_slot (slot s.fds newfd) s.pipes) n e
            (λ one_more. ground (arith, still, at')) emptied))
      (λ e m.
        let before = v.unmade e m in
        let in_old = slot-held e s.fds oldfd in ground (arith, before, in_old, at))

-- `procDup2` keeps the counts right. It refuses, and then changes nothing, exactly when a descriptor
-- is out of range or the old one is empty; otherwise the new slot holds what the old one holds.
pub proc_dup2-Sound :
    (rest : PipeEnd → ℕ) (oldfd newfd : ℕ) (s : FdState)
    → Sound rest s
    → let (s', result) = proc_dup2 oldfd newfd s in
      let refused = leb 16 oldfd || leb 16 newfd || is_empty (slot s.fds oldfd) in
      Sound rest s'
      × (result ≡ (if refused then none else some newfd))
      × (s'.fds ≡ (if refused then s.fds else set s.fds newfd (slot s.fds oldfd)))
unfolding proc_dup2 is_empty
proc_dup2-Sound rest oldfd newfd s v = elim (Bool-cases (leb 16 oldfd || leb 16 newfd)) [
  | inl out ↦ ground (arith, out)
  | inr both_in ↦ elim (Option-cases (slot s.fds oldfd)) [
    | inl empty ↦ ground (arith, both_in, empty)
    | inr (d, at) ↦ elim (Bool-cases (oldfd == newfd)) [
      | inl same ↦ let kept = set_same s.fds oldfd in ground (arith, both_in, at, same, kept)
      | inr differ ↦
          let moved =
            dup_slot-Sound rest oldfd newfd d s v (ground (arith, both_in))
              (λ eq. ground (arith, differ, eq)) at in
          ground (arith, both_in, at, differ, moved)
    ]
  ]
]
