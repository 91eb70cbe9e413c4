-- ===== src/Fd/SysPipe.antt =====
-- The system call that makes a pipe and puts its ends in two slots.
use gooos.Common.{
  ℕ, zero, suc, ◌+◌, ◌*◌, ◌≤◌, ◌<◌, ◌≡◌, refl, sym, ap, ◌∙◌, subst, lt→ltb, fun_ext, Option, none,
  some, true, [], ◌∷◌, leb, if◌then◌else◌, set, arith, Bool-cases, inl, inr,
}
use gooos.Fd.{
  FileDesc, Slot, Slots, FdState, slot, proc_alloc_fd, proc_close, new_pipe, with_writer,
  with_reader, sys_pipe,
}
use gooos.Fd.Counts.{PipeEnd, end_id, refs, closed, one, held, Counted}
use gooos.Fd.Refcounts.{Sound, proc_close-Sound}
use gooos.Fd.Alloc.{all_taken, FirstFree, Allocated, proc_alloc_fd-Allocated}

-- the two references of a pipe that is just made
abbrev pub of_new_pipe : (PipeEnd → ℕ) → FdState → PipeEnd → ℕ
of_new_pipe rest s e =
    one e (some (FileDesc.pipe_reader s.next))
    + (one e (some (FileDesc.pipe_writer s.next)) + rest e)

new-Counted :
    (rest : PipeEnd → ℕ) (s : FdState)
    → Sound rest s
    → (e : PipeEnd) → Counted (new_pipe s).pipes (held e s.fds + of_new_pipe rest s e) e
unfolding one refs closed end_id
new-Counted rest s v (PipeEnd.reader x) =
    let old = v.counted (PipeEnd.reader x) in
    elim (Bool-cases (leb s.next x)) [
      | inl above ↦
          let before = v.unmade (PipeEnd.reader x) (ground (arith, above)) in
          ground (arith, old, before)
      | inr made ↦ ground (arith, old, made)
    ]
new-Counted rest s v (PipeEnd.writer x) =
    let old = v.counted (PipeEnd.writer x) in
    elim (Bool-cases (leb s.next x)) [
      | inl above ↦
          let before = v.unmade (PipeEnd.writer x) (ground (arith, above)) in
          ground (arith, old, before)
      | inr made ↦ ground (arith, old, made)
    ]

new_pipe-unmade :
    (rest : PipeEnd → ℕ) (s : FdState)
    → Sound rest s
    → (e : PipeEnd) → s.next + 1 ≤ end_id e
    → held e s.fds + of_new_pipe rest s e ≡ 0
unfolding end_id one
new_pipe-unmade rest s v (PipeEnd.reader x) h =
    let before = v.unmade (PipeEnd.reader x) (omega arith) in ground (arith, before)
new_pipe-unmade rest s v (PipeEnd.writer x) h =
    let before = v.unmade (PipeEnd.writer x) (omega arith) in ground (arith, before)

new_pipe-Sound :
    (rest : PipeEnd → ℕ) (s : FdState) → Sound rest s → Sound (of_new_pipe rest s) (new_pipe s)
new_pipe-Sound rest s v = record {
  full_table = v.full_table;
  counted = new-Counted rest s v;
  unmade = new_pipe-unmade rest s v;
}

-- how many slots are free
pub free_slots : Slots → ℕ
free_slots [] = 0
free_slots (none ∷ fds) = free_slots fds + 1
free_slots (some d ∷ fds) = free_slots fds

free_slots-all_taken : (fds : Slots) → all_taken fds ≡ true → free_slots fds ≡ 0
unfolding free_slots all_taken
free_slots-all_taken [] h = refl
free_slots-all_taken (none ∷ fds) h = absurd (ground (arith, h))
free_slots-all_taken (some d ∷ fds) h = free_slots-all_taken fds h

-- one slot that was filled is the only one that can have been free
free_slots-set :
    (fds : Slots) (i : ℕ) (d : FileDesc)
    → all_taken (set fds i (some d)) ≡ true
    → free_slots fds ≤ 1
unfolding free_slots all_taken
free_slots-set [] i d h = omega arith
free_slots-set (none ∷ fds) zero d h = omega (arith, free_slots-all_taken fds h)
free_slots-set (some x ∷ fds) zero d h = omega (arith, free_slots-all_taken fds h)
free_slots-set (none ∷ fds) (suc i) d h = absurd (ground (arith, h))
free_slots-set (some x ∷ fds) (suc i) d h = free_slots-set fds i d h

-- What `sysPipeHandler` may leave: the two ends in the first two free slots, or, with fewer than two
-- free, the refusal with the slots as they were and nothing left over but ends of the new pipe, which no slot holds.
pub PipeMade : (PipeEnd → ℕ) → FdState → FdState → Option (ℕ × ℕ) → Type 0
PipeMade rest s s' none =
    (s'.fds ≡ s.fds)
    × (free_slots s.fds ≤ 1)
    × ((k : ℕ) × Sound
          (λ e.
            k * one e (some (FileDesc.pipe_reader s.next))
            + (one e (some (FileDesc.pipe_writer s.next)) + rest e))
          s')
PipeMade rest s s' (some (rd, wr)) =
    FirstFree s.fds rd
    × FirstFree (set s.fds rd (some (FileDesc.pipe_reader s.next))) wr
    × (s'.fds
        ≡ set (set s.fds rd (some (FileDesc.pipe_reader s.next))) wr
            (some (FileDesc.pipe_writer s.next)))
    × Sound rest s'

set_back : (xs : Slots) (i : ℕ) (v : Slot) → slot xs i ≡ none → set (set xs i v) i none ≡ xs
set_back [] i v h = refl
set_back (x ∷ xs) zero v h = ap (λ o. o ∷ xs) (sym h)
set_back (x ∷ xs) (suc i) v h = ap (λ ys. x ∷ ys) (set_back xs i v h)

Sound-cong :
    (rest rest' : PipeEnd → ℕ) (s : FdState)
    → ((e : PipeEnd) → rest e ≡ rest' e)
    → Sound rest s
    → Sound rest' s
Sound-cong rest rest' s h v = subst (λ r. Sound r s) (fun_ext h) v

with_writer-PipeMade :
    (rest : PipeEnd → ℕ) (s s1 s2 : FdState) (rd : ℕ) (o : Option ℕ)
    → FirstFree s.fds rd
    → s1.fds ≡ set s.fds rd (some (FileDesc.pipe_reader s.next))
    → rd < 16
    → Sound (λ e. one e (some (FileDesc.pipe_writer s.next)) + rest e) s1
    → Allocated rest (FileDesc.pipe_writer s.next) s1 s2 o
    → PipeMade rest s (with_writer rd (s2, o)).0 (with_writer rd (s2, o)).1
unfolding with_writer Allocated PipeMade
with_writer-PipeMade rest s s1 s2 rd none f same low v (unchanged, taken) =
    let w : PipeEnd → ℕ = λ e. one e (some (FileDesc.pipe_writer s.next)) + rest e in
    let (v', err, fds') = proc_close-Sound w rd s2 (subst (Sound w) (sym unchanged) v) in
    (
      fds'
          ∙ ap (λ b. if b then set s2.fds rd none else s2.fds) (lt→ltb rd 16 low)
          ∙ ap (λ fds. set fds rd none) (ap (λ t. t.fds) unchanged ∙ same)
          ∙ set_back s.fds rd (some (FileDesc.pipe_reader s.next)) f.empty,
      free_slots-set s.fds rd (FileDesc.pipe_reader s.next)
          (subst (λ fds. all_taken fds ≡ true) same taken),
      (
        0,
        Sound-cong w (λ e. 0 * one e (some (FileDesc.pipe_reader s.next)) + w e)
            (proc_close rd s2).0 (λ e. omega arith) v',
      ),
    )
with_writer-PipeMade rest s s1 s2 rd (some wr) f same low v (g, fds', next', v') = (
  f,
  subst (λ fds. FirstFree fds wr) same g,
  fds' ∙ ap (λ fds. set fds wr (some (FileDesc.pipe_writer s.next))) same,
  v',
)

with_reader-PipeMade :
    (rest : PipeEnd → ℕ) (s s1 : FdState) (o : Option ℕ)
    → Sound rest s
    → Allocated
        (λ e. one e (some (FileDesc.pipe_writer s.next)) + rest e)
        (FileDesc.pipe_reader s.next)
        (new_pipe s)
        s1
        o
    → PipeMade rest s (with_reader s.next (s1, o)).0 (with_reader s.next (s1, o)).1
unfolding with_reader Allocated PipeMade
with_reader-PipeMade rest s s1 none v (unchanged, taken) = (
  ap (λ s'. s'.fds) unchanged,
  omega (arith, free_slots-all_taken s.fds taken),
  (
    1,
    Sound-cong (of_new_pipe rest s) _ s1 (λ e. omega arith)
        (subst (Sound (of_new_pipe rest s)) (sym unchanged) (new_pipe-Sound rest s v)),
  ),
)
with_reader-PipeMade rest s s1 (some rd) v (f, fds', next', v') =
    with_writer-PipeMade rest s s1 (proc_alloc_fd (FileDesc.pipe_writer s.next) s1).0 rd
      (proc_alloc_fd (FileDesc.pipe_writer s.next) s1).1 f fds'
      (ground (arith, f.in_table, v.full_table)) v'
      (proc_alloc_fd-Allocated rest (FileDesc.pipe_writer s.next) s1 v')

-- `sysPipeHandler` keeps the counts of all pipes right. It fills the first two free slots with the
-- reading and the writing end of a new pipe; with fewer than two free it refuses and leaves the slots
-- as they were, and nothing but ends of the new pipe, which no slot holds, is left over.
pub sys_pipe-PipeMade :
    (rest : PipeEnd → ℕ) (s : FdState)
    → Sound rest s
    → PipeMade rest s (sys_pipe s).0 (sys_pipe s).1
unfolding sys_pipe
sys_pipe-PipeMade rest s v =
    with_reader-PipeMade rest s (proc_alloc_fd (FileDesc.pipe_reader s.next) (new_pipe s)).0
      (proc_alloc_fd (FileDesc.pipe_reader s.next) (new_pipe s)).1 v
      (proc_alloc_fd-Allocated (λ e. one e (some (FileDesc.pipe_writer s.next)) + rest e)
        (FileDesc.pipe_reader s.next) (new_pipe s) (new_pipe-Sound rest s v))
