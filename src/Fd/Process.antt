-- ===== src/Fd/Process.antt =====
-- The descriptors of a process at its start and at its end.
use gooos.Common.{
  ℕ, zero, suc, ◌+◌, ◌≤◌, ◌≡◌, refl, sym, ap, ◌∙◌, subst, none, some, [], ◌∷◌, Array, length,
  replicate, map, arith,
}
use gooos.Fd.Pipes.{Pipe}
use gooos.Fd.{
  FileDesc, Slot, Slots, FdState, close_slot, add_slot_ref, close_slots, proc_close_all, inherited,
  inherit_slots,
}
use gooos.Fd.Counts.{
  PipeEnd, one, one-none, held, held-cons, held-nil, Counted, close_slot-Counted,
  add_slot_ref-Counted,
}
use gooos.Fd.Refcounts.{Sound}

close_slots-replicate :
    (fds : Slots) (ps : Array Pipe) → (close_slots fds ps).0 ≡ replicate (length fds) none
unfolding close_slots
close_slots-replicate [] ps = refl
close_slots-replicate (o ∷ fds) ps =
    ap (λ t. none ∷ t) (close_slots-replicate fds (close_slot o ps))

close_slots-Counted :
    (fds : Slots) (ps : Array Pipe) (n : ℕ) (e : PipeEnd)
    → Counted ps (held e fds + n) e
    → Counted (close_slots fds ps).1 n e
unfolding close_slots
close_slots-Counted [] ps n e c = subst (λ k. Counted ps k e) (omega (arith, held-nil e)) c
close_slots-Counted (o ∷ fds) ps n e c = close_slots-Counted fds (close_slot o ps) n e (
    close_slot-Counted o ps (held e fds + n) e
      (subst (λ k. Counted ps k e) (omega (arith, held-cons e o fds)) c))

held-replicate : (e : PipeEnd) (n : ℕ) → held e (replicate n none) ≡ 0
held-replicate e zero = held-nil e
held-replicate e (suc n) =
    omega (arith, held-cons e none (replicate n none), one-none e, held-replicate e n)

-- `procCloseAll` empties every slot and keeps the counts right: afterwards each count is the number
-- of slots of the other processes that hold the end, and an end that none of them holds is closed.
pub proc_close_all-Sound :
    (rest : PipeEnd → ℕ) (s : FdState)
    → Sound rest s
    → ((proc_close_all s).fds ≡ replicate 16 none)
      × ((e : PipeEnd) → Counted (proc_close_all s).pipes (rest e) e)
      × Sound rest (proc_close_all s)
unfolding proc_close_all
proc_close_all-Sound rest s v =
    let emptied =
      close_slots-replicate s.fds s.pipes ∙ ap (λ k. replicate {A = Slot} k none) v.full_table in
    let counts = λ (e : PipeEnd). close_slots-Counted s.fds s.pipes (rest e) e (v.counted e) in
    (
      emptied,
      counts,
      record {
        full_table = ap length emptied;
        counted = λ e.
            subst (λ k. Counted (close_slots s.fds s.pipes).1 k e)
              (sym (ap (λ fds. held e fds + rest e) emptied ∙ omega (arith, held-replicate e 16)))
              (counts e);
        unmade = λ e. λ m.
            ap (λ fds. held e fds + rest e) emptied
            ∙ (let before = v.unmade e m in omega (arith, held-replicate e 16));
      },
    )

one-inherited : (e : PipeEnd) (o : Slot) → one e (inherited o) ≡ one e o
unfolding inherited one
one-inherited (PipeEnd.reader x) none = refl
one-inherited (PipeEnd.reader x) (some (FileDesc.socket_fd k)) = refl
one-inherited (PipeEnd.reader x) (some d) = refl
one-inherited (PipeEnd.writer x) none = refl
one-inherited (PipeEnd.writer x) (some (FileDesc.socket_fd k)) = refl
one-inherited (PipeEnd.writer x) (some d) = refl

inherit_slots-Counted :
    (fds : Slots) (ps : Array Pipe) (n : ℕ) (e : PipeEnd)
    → held e fds ≤ n
    → Counted ps n e
    → Counted (inherit_slots fds ps).1 (held e (inherit_slots fds ps).0 + n) e
unfolding inherit_slots
inherit_slots-Counted [] ps n e h c = subst (λ k. Counted ps k e) (omega (arith, held-nil e)) c
inherit_slots-Counted (o ∷ fds) ps n e h c =
    let at = held-cons e o fds in
    let same = one-inherited e o in
    let ps' = add_slot_ref (inherited o) ps in
    let n' = n + one e (inherited o) in
    let first = add_slot_ref-Counted (inherited o) ps n e (λ held_here. omega arith) c in
    let rec = inherit_slots-Counted fds ps' n' e (omega arith) first in
    let at' = held-cons e (inherited o) (inherit_slots fds ps').0 in
    subst (λ k. Counted (inherit_slots fds ps').1 k e) (omega arith) rec

-- the slots of a spawned process are those of its parent, without the sockets
inherit_slots-map : (fds : Slots) (ps : Array Pipe) → (inherit_slots fds ps).0 ≡ map inherited fds
unfolding inherit_slots
inherit_slots-map [] ps = refl
inherit_slots-map (o ∷ fds) ps =
    ap (λ t. inherited o ∷ t) (inherit_slots-map fds (add_slot_ref (inherited o) ps))

length-map : (f : Slot → Slot) (fds : Slots) → length (map f fds) ≡ length fds
length-map f [] = refl
length-map f (o ∷ fds) = ap suc (length-map f fds)

held-map : (e : PipeEnd) (fds : Slots) → held e (map inherited fds) ≡ held e fds
held-map e [] = refl
held-map e (o ∷ fds) = omega (
  arith,
  held-cons e o fds,
  held-cons e (inherited o) (map inherited fds),
  one-inherited e o,
  held-map e fds,
)

-- The slots that a spawned process takes over are those of its parent without the sockets, and the
-- counts stay right: seen from the child, with the parent's slots among the others, and seen from the
-- parent, with the child's.
pub inherit_slots-Sound :
    (rest : PipeEnd → ℕ) (s : FdState)
    → Sound rest s
    → let (fds', ps') = inherit_slots s.fds s.pipes in
      (fds' ≡ map inherited s.fds)
      × Sound (λ e. held e s.fds + rest e) (record s { fds = fds'; pipes = ps' })
      × Sound (λ e. held e fds' + rest e) (record s { pipes = ps' })
inherit_slots-Sound rest s v =
    let kids = inherit_slots-map s.fds s.pipes in
    let size = ap length kids ∙ length-map inherited s.fds in
    let same = λ (e : PipeEnd). ap (held e) kids ∙ held-map e s.fds in
    let counts = λ (e : PipeEnd).
      inherit_slots-Counted s.fds s.pipes (held e s.fds + rest e) e (omega arith) (v.counted e) in
    (
      kids,
      record {
        full_table = size ∙ v.full_table;
        counted = counts;
        unmade = λ e. λ m. let before = v.unmade e m in omega (arith, same e);
      },
      record {
        full_table = v.full_table;
        counted =
            λ e. subst (λ k. Counted (inherit_slots s.fds s.pipes).1 k e) (omega arith) (counts e);
        unmade = λ e. λ m. let before = v.unmade e m in omega (arith, same e);
      },
    )
