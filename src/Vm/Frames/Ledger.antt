-- ===== src/Vm/Frames/Ledger.antt =====
-- No frame is given out twice: who holds which frame, as a count for each address.
use gooos.Common.{
  ℕ, zero, suc, ◌+◌, ◌-◌, ◌*◌, ◌%◌, ◌≤◌, ◌<◌, ◌≡◌, refl, ap, ◌∙◌, Bool-cases, inl, inr, ltb→lt, not,
  ◌&&◌, ltb, leb, ◌==◌, if◌then◌else◌, Array, update, arith,
}
use gooos.Vm.Frames.{Frames, zeroed, vm_init, alloc_page, alloc_pages_contig, free_page}

-- how often `p` stands in the first `n` cells
unfoldable pub count_to : ℕ → Array ℕ → ℕ → ℕ
count_to p stack zero = 0
count_to p stack (suc n) = (if stack n == p then 1 else 0) + count_to p stack n

-- 1 for the address of a frame that the bump pointer has passed
abbrev pub passed : ℕ → Frames → ℕ
passed p f = if p % 4096 == 0 && ltb p f.next_free_page then 1 else 0

-- `held p` counts the callers that hold the frame at `p`: a frame is in the stack, or held, or
-- neither, at most once.
pub record IsSound (held : ℕ → ℕ) (f : Frames) : Type 0 where
  pub aligned : f.next_free_page % 4096 ≡ 0
  pub stack_in : f.free_stack_len ≤ 4096
  pub once : (p : ℕ) → count_to p f.free_stack f.free_stack_len + held p ≤ passed p f

abbrev pub gain : ℕ → (ℕ → ℕ) → ℕ → ℕ
gain p held q = (if p == q then 1 else 0) + held q

count_to-update :
    (p v : ℕ) (stack : Array ℕ) (n m : ℕ)
    → n ≤ m
    → count_to p (update stack m v) n ≡ count_to p stack n
unfolding count_to
count_to-update p v stack zero m h = refl
count_to-update p v stack (suc n) m h =
    let rec = count_to-update p v stack n m (omega arith) in ground (arith, rec)

count_to-zero : (p : ℕ) (stack : Array ℕ) → count_to p stack 0 ≡ 0
unfolding count_to
count_to-zero p stack = refl

count_to-suc :
    (p : ℕ) (stack : Array ℕ) (n : ℕ)
    → count_to p stack (suc n) ≡ (if stack n == p then 1 else 0) + count_to p stack n
unfolding count_to
count_to-suc p stack n = refl

count_to-pred :
    (p : ℕ) (stack : Array ℕ) (n : ℕ)
    → 0 < n
    → count_to p stack n ≡ (if stack (n - 1) == p then 1 else 0) + count_to p stack (n - 1)
count_to-pred p stack n h =
    ap (count_to p stack) {y = suc (n - 1)} (omega arith) ∙ count_to-suc p stack (n - 1)

pop-IsSound :
    (held : ℕ → ℕ) (f : Frames) (mem : Array ℕ)
    → IsSound held f
    → 0 < f.free_stack_len
    → IsSound
        (gain (f.free_stack (f.free_stack_len - 1)) held)
        (record f { free_stack_len = f.free_stack_len - 1; memory = mem })
pop-IsSound held f mem v h = record {
  aligned = v.aligned;
  stack_in = omega (arith, v.stack_in);
  once = λ p.
      let before = v.once p in
      let split = count_to-pred p f.free_stack f.free_stack_len h in ground (arith, before, split);
}

bump-IsSound :
    (held : ℕ → ℕ) (f : Frames) (mem : Array ℕ)
    → IsSound held f
    → IsSound
        (gain f.next_free_page held)
        (record f { next_free_page = f.next_free_page + 4096; memory = mem })
bump-IsSound held f mem v = record {
  aligned = omega (arith, v.aligned);
  stack_in = v.stack_in;
  once = λ p. let before = v.once p in ground (arith, before, v.aligned);
}

-- `allocPage` gives out a frame that nobody holds and that lies at a multiple of the page size; its
-- words are 0, every other word is as before, and the books stay right with that frame held once more.
pub alloc_page-IsSound :
    (held : ℕ → ℕ) (f : Frames)
    → IsSound held f
    → let (f', page) = alloc_page f in
      IsSound (gain page held) f'
      × (held page ≡ 0)
      × (page % 4096 ≡ 0)
      × ((a : ℕ) → f'.memory a ≡ (if leb page a && ltb a (page + 4096) then 0 else f.memory a))
unfolding alloc_page
alloc_page-IsSound held f v =
    let top = f.free_stack (f.free_stack_len - 1) in
    elim (Bool-cases (ltb 0 f.free_stack_len)) [
      | inl stacked ↦
          let low = ltb→lt 0 f.free_stack_len stacked in
          let split = count_to-pred top f.free_stack f.free_stack_len low in
          let before = v.once top in
          let sound = pop-IsSound held f (zeroed top 4096 f.memory) v low in
          rw stacked
            (sound, ground (arith, split, before), ground (arith, split, before), λ a. refl)
      | inr empty ↦
          let before = v.once f.next_free_page in
          let sound = bump-IsSound held f (zeroed f.next_free_page 4096 f.memory) v in
          rw empty (sound, ground (arith, before), v.aligned, λ a. refl)
    ]

push-IsSound :
    (paddr : ℕ) (held : ℕ → ℕ) (f : Frames) (mem : Array ℕ)
    → IsSound (gain paddr held) f
    → f.free_stack_len < 4096
    → IsSound held (record f {
      free_stack = update f.free_stack f.free_stack_len paddr;
      free_stack_len = f.free_stack_len + 1;
      memory = mem;
    })
push-IsSound paddr held f mem v h = record {
  aligned = v.aligned;
  stack_in = omega arith;
  once = λ p.
      let stack' = update f.free_stack f.free_stack_len paddr in
      let before = v.once p in
      let grown =
        ap (count_to p stack') {x = f.free_stack_len + 1} {y = suc f.free_stack_len} (omega arith)
        ∙ count_to-suc p stack' f.free_stack_len in
      let below =
        count_to-update p paddr f.free_stack f.free_stack_len f.free_stack_len (omega arith) in
      ground (arith, before, grown, below);
}

forget-IsSound :
    (paddr : ℕ) (held : ℕ → ℕ) (f : Frames) (mem : Array ℕ)
    → IsSound (gain paddr held) f
    → IsSound held (record f { memory = mem })
forget-IsSound paddr held f mem v = record {
  aligned = v.aligned;
  stack_in = v.stack_in;
  once = λ p. let before = v.once p in ground (arith, before);
}

-- `freePage` of a frame that the caller holds takes it back: the books stay right with that frame held
-- once less, also when the stack is full and the frame is lost. Its words are 0 and every other word
-- is as before; address 0 is left alone.
pub free_page-IsSound :
    (paddr : ℕ) (held : ℕ → ℕ) (f : Frames)
    → IsSound (gain paddr held) f
    → let f' = free_page paddr f in
      IsSound held f'
      × ((a : ℕ)
          → f'.memory a
            ≡ (if not (paddr == 0) && (leb paddr a && ltb a (paddr + 4096)) then 0 else f.memory a))
      × (f'.free_stack_len ≡ (
          if not (paddr == 0) && ltb f.free_stack_len 4096
          then f.free_stack_len + 1
          else f.free_stack_len))
unfolding free_page
free_page-IsSound paddr held f v =
    let mem = zeroed paddr 4096 f.memory in
    elim (Bool-cases (paddr == 0)) [
      | inl null ↦ rw null (forget-IsSound paddr held f f.memory v, λ a. refl, refl)
      | inr real ↦ elim (Bool-cases (ltb f.free_stack_len 4096)) [
        | inl room ↦
            rw (real, room)
              (push-IsSound paddr held f mem v (ltb→lt f.free_stack_len 4096 room), λ a. refl, refl)
        | inr full ↦ rw (real, full) (forget-IsSound paddr held f mem v, λ a. refl, refl)
      ]
    ]

-- the frames of a run of `n` from `base`
abbrev pub gain_run : ℕ → ℕ → (ℕ → ℕ) → ℕ → ℕ
gain_run base n held q =
    (if q % 4096 == 0 && (leb base q && ltb q (base + n * 4096)) then 1 else 0) + held q

-- `allocPagesContig` gives out `n` frames in a row that nobody holds and none of which is in the
-- stack; the books stay right with each of them held once more.
pub alloc_pages_contig-IsSound :
    (n : ℕ) (held : ℕ → ℕ) (f : Frames)
    → IsSound held f
    → let (f', base) = alloc_pages_contig n f in
      IsSound (gain_run base n held) f'
      × ((q : ℕ)
          → (if leb base q then count_to q f.free_stack f.free_stack_len + held q else 0) ≡ 0)
unfolding alloc_pages_contig
alloc_pages_contig-IsSound n held f v = (
  record {
    aligned = omega (arith, v.aligned);
    stack_in = v.stack_in;
    once = λ q. let before = v.once q in ground (arith, before, v.aligned);
  },
  λ q. let before = v.once q in ground (arith, before),
)

-- After `vmInit`, with nothing freed yet, the books are right with no frame held, and no frame that
-- will be given out begins below the end of the kernel.
pub vm_init-IsSound :
    (end : ℕ) (f : Frames)
    → f.free_stack_len ≡ 0
    → IsSound (λ p. 0) (vm_init end f)
      × (end ≤ (vm_init end f).next_free_page)
      × ((vm_init end f).next_free_page < end + 4096)
unfolding vm_init
vm_init-IsSound end f h = (
  record {
    aligned = omega arith;
    stack_in = omega arith;
    once = λ p.
        let none_freed = ap (count_to p f.free_stack) h in
        let start = count_to-zero p f.free_stack in ground (arith, none_freed, start);
  },
  omega arith,
  omega arith,
)
