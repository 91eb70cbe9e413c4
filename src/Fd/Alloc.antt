-- ===== src/Fd/Alloc.antt =====
-- Taking a free slot.
use gooos.Common.{
  ℕ, suc, ◌+◌, ◌<◌, ◌≡◌, refl, sym, ap, ◌∙◌, subst, Bool, true, false, Option, none, some, [], ◌∷◌,
  length, length-set, set, take, arith,
}
use gooos.Fd.{FileDesc, Slots, FdState, slot, free_slot, install, proc_alloc_fd}
use gooos.Fd.Counts.{PipeEnd, one, one-none, held, held-set, Counted}
use gooos.Fd.Refcounts.{Sound}

unfoldable pub all_taken : Slots → Bool
all_taken [] = true
all_taken (none ∷ fds) = false
all_taken (some d ∷ fds) = all_taken fds

-- What taking the slot `i` of `fds` means: it is the first that is empty.
pub record FirstFree (fds : Slots) (i : ℕ) : Type 0 where
  pub in_table : i < length fds
  pub empty : slot fds i ≡ none
  pub below : all_taken (take i fds) ≡ true

-- the two outcomes of a search from `base` on
Searched : ℕ → Slots → Option ℕ → Type 0
Searched base fds none = all_taken fds ≡ true
Searched base fds (some k) = (i : ℕ) × (k ≡ base + i) × FirstFree fds i

Searched-later :
    (base : ℕ) (d : FileDesc) (fds : Slots) (o : Option ℕ)
    → Searched (suc base) fds o
    → Searched base (some d ∷ fds) o
unfolding Searched all_taken
Searched-later base d fds none h = h
Searched-later base d fds (some k) (i, e, f) =
    (suc i, omega arith, record { in_table = omega arith; empty = f.empty; below = f.below })

free_slot-Searched : (base : ℕ) (fds : Slots) → Searched base fds (free_slot base fds)
unfolding free_slot Searched all_taken
free_slot-Searched base [] = refl
free_slot-Searched base (none ∷ fds) =
    (0, omega arith, record { in_table = omega arith; empty = refl; below = refl })
free_slot-Searched base (some d ∷ fds) =
    Searched-later base d fds (free_slot (suc base) fds) (free_slot-Searched (suc base) fds)

-- What an allocation may leave: a full table unchanged, or the first free slot filled.
unfoldable pub Allocated : (PipeEnd → ℕ) → FileDesc → FdState → FdState → Option ℕ → Type 0
Allocated rest d s s' none = (s' ≡ s) × (all_taken s.fds ≡ true)
Allocated rest d s s' (some i) =
    FirstFree s.fds i × (s'.fds ≡ set s.fds i (some d)) × (s'.next ≡ s.next) × Sound rest s'

held-fill :
    (rest : PipeEnd → ℕ) (d : FileDesc) (s : FdState) (i : ℕ)
    → FirstFree s.fds i
    → (e : PipeEnd)
    → held e (set s.fds i (some d)) + rest e ≡ held e s.fds + (one e (some d) + rest e)
held-fill rest d s i f e =
    omega (arith, held-set e s.fds i (some d) f.in_table, one-none e, ap (one e) f.empty)

fill-Allocated :
    (rest : PipeEnd → ℕ) (d : FileDesc) (s : FdState) (i : ℕ)
    → Sound (λ e. one e (some d) + rest e) s
    → FirstFree s.fds i
    → Allocated rest d s (record s { fds = set s.fds i (some d) }) (some i)
unfolding Allocated
fill-Allocated rest d s i v f =
    let moved = held-fill rest d s i f in
    (
      f,
      refl,
      refl,
      record {
        full_table = length-set s.fds i (some d) ∙ v.full_table;
        counted = λ e. subst (λ k. Counted s.pipes k e) (sym (moved e)) (v.counted e);
        unmade = λ e. λ m. moved e ∙ v.unmade e m;
      },
    )

install-Allocated :
    (rest : PipeEnd → ℕ) (d : FileDesc) (s : FdState) (o : Option ℕ)
    → Sound (λ e. one e (some d) + rest e) s
    → Searched 0 s.fds o
    → Allocated rest d s (install d s o).0 (install d s o).1
unfolding install Searched Allocated
install-Allocated rest d s none v h = (refl, h)
install-Allocated rest d s (some k) v (i, e, f) =
    fill-Allocated rest d s k v (subst (FirstFree s.fds) {x = i} {y = k} (omega arith) f)

-- `procAllocFD` with one reference to the descriptor in the caller's hands: it puts the descriptor in
-- the first free slot, which takes that reference over, or it refuses because all 16 slots are taken
-- and changes nothing.
pub proc_alloc_fd-Allocated :
    (rest : PipeEnd → ℕ) (d : FileDesc) (s : FdState)
    → Sound (λ e. one e (some d) + rest e) s
    → Allocated rest d s (proc_alloc_fd d s).0 (proc_alloc_fd d s).1
unfolding proc_alloc_fd
proc_alloc_fd-Allocated rest d s v =
    install-Allocated rest d s (free_slot 0 s.fds) v (free_slot-Searched 0 s.fds)
