-- ===== src/Vm/Frames/Examples.antt =====
-- The allocator just after its start and with one frame in the stack.
use gooos.Common.{ℕ, ◌+◌, ◌%◌, ◌≤◌, ◌<◌, ◌≡◌, refl, not, ◌&&◌, ltb, leb, ◌==◌, if◌then◌else◌}
use gooos.Vm.Frames.{Frames, vm_init, alloc_page, alloc_pages_contig, free_page}
use gooos.Vm.Frames.Ledger.{
  IsSound, gain, gain_run, count_to, vm_init-IsSound, alloc_page-IsSound, free_page-IsSound,
  alloc_pages_contig-IsSound,
}

-- before `vmInit`, with other words than 0 in memory
abbrev raw : Frames
raw = record { next_free_page = 0; free_stack = λ i. 0; free_stack_len = 0; memory = λ a. 7 }

abbrev none_held : ℕ → ℕ
none_held p = 0

abbrev started : Frames
started = vm_init 1050000 raw

vm_init-IsSound_example :
    IsSound none_held (vm_init 1050000 raw)
    × (1050000 ≤ (vm_init 1050000 raw).next_free_page)
    × ((vm_init 1050000 raw).next_free_page < 1050000 + 4096)
vm_init-IsSound_example = vm_init-IsSound 1050000 raw refl

started-IsSound : IsSound none_held started
started-IsSound = (vm_init-IsSound 1050000 raw refl).0

alloc_page-IsSound_example :
    let (f', page) = alloc_page started in
    IsSound (gain page none_held) f'
    × (none_held page ≡ 0)
    × (page % 4096 ≡ 0)
    × ((a : ℕ) → f'.memory a ≡ (if leb page a && ltb a (page + 4096) then 0 else started.memory a))
alloc_page-IsSound_example = alloc_page-IsSound none_held started started-IsSound

-- a frame is given out, taken back, and given out again
taken_again : let (f, page) = alloc_page started in (alloc_page (free_page page f)).1 ≡ page
unfolding alloc_page free_page vm_init
taken_again = refl

free_page-IsSound_example :
    let (f, page) = alloc_page started in
    let f' = free_page page f in
    IsSound none_held f'
    × ((a : ℕ)
        → f'.memory a
          ≡ (if not (page == 0) && (leb page a && ltb a (page + 4096)) then 0 else f.memory a))
    × (f'.free_stack_len ≡ (
        if not (page == 0) && ltb f.free_stack_len 4096
        then f.free_stack_len + 1
        else f.free_stack_len))
free_page-IsSound_example =
    free_page-IsSound (alloc_page started).1 none_held (alloc_page started).0
      (alloc_page-IsSound none_held started started-IsSound).0

alloc_pages_contig-IsSound_example :
    let (f', base) = alloc_pages_contig 4 started in
    IsSound (gain_run base 4 none_held) f'
    × ((q : ℕ)
        → (if leb base q
            then count_to q started.free_stack started.free_stack_len + none_held q
            else 0)
          ≡ 0)
alloc_pages_contig-IsSound_example = alloc_pages_contig-IsSound 4 none_held started started-IsSound
