-- ===== src/Vm/Tables/Examples.antt =====
-- The tables of a process (src/proc_pml4.go, src/vm.go) at concrete addresses.
use gooos.Common.{ℕ, ◌≡◌, ◌≢◌, refl, ◌==◌, if◌then◌else◌, arith}
use gooos.Vm.Frames.{Frames}
use gooos.Vm.Frames.Ledger.{IsSound, count_to}
use gooos.Vm.Tables.{page_of, walk_and_get_paddr_in, map_page_into, unmap_page_from, new_proc_pml4}
use gooos.Vm.Tables.Tree.{IsPrivate, prefix}
use gooos.Vm.Tables.Way.{HasTree}
use gooos.Vm.Tables.Mapping.{map_page_into_lem, unmap_page_from_lem}
use gooos.Vm.Tables.Process.{kernel_gigabyte, new_proc_pml4_lem}

-- an allocator at 1 MB, with the frame at 0 held by the kernel
abbrev at_start : Frames
at_start = record {
  next_free_page = 1048576;
  free_stack = λ i. 0;
  free_stack_len = 0;
  memory = λ a. 0;
}

abbrev kernel_held : ℕ → ℕ
kernel_held p = if p == 0 then 1 else 0

at_start-IsSound : IsSound kernel_held at_start
unfolding count_to
at_start-IsSound = record { aligned = refl; stack_in = omega arith; once = λ p. ground arith }

new_proc_pml4_example :
    let (f', pml4) = new_proc_pml4 12291 8192 at_start in
    HasTree kernel_gigabyte pml4 f'
    × (kernel_held pml4 ≡ 0)
    × (f'.memory (page_of (f'.memory pml4)) ≡ 12291)
    × ((v : ℕ) → IsPrivate kernel_gigabyte v → walk_and_get_paddr_in pml4 v f'.memory ≡ 0)
new_proc_pml4_example =
    new_proc_pml4_lem 12291 8192 kernel_held at_start at_start-IsSound (omega arith)

-- the same, for use below
abbrev started : Frames
started = (new_proc_pml4 12291 8192 at_start).0

abbrev pml4 : ℕ
pml4 = (new_proc_pml4 12291 8192 at_start).1

started-HasTree : HasTree kernel_gigabyte pml4 started
started-HasTree =
    (new_proc_pml4_lem 12291 8192 kernel_held at_start at_start-IsSound (omega arith)).0

-- a user program's first page, at 0x40100000
abbrev text_page : ℕ
text_page = 1074790400

text_page-IsPrivate : IsPrivate kernel_gigabyte text_page
unfolding prefix
text_page-IsPrivate = refl

map_page_into_example :
    let f' = map_page_into pml4 text_page 2097152 7 started in
    (walk_and_get_paddr_in pml4 text_page f'.memory ≡ 2097152)
    × ((w : ℕ)
        → IsPrivate kernel_gigabyte w
        → prefix 0 w ≢ prefix 0 text_page
        → walk_and_get_paddr_in pml4 w f'.memory ≡ walk_and_get_paddr_in pml4 w started.memory)
    × HasTree kernel_gigabyte pml4 f'
map_page_into_example =
    map_page_into_lem pml4 started started-HasTree.tree text_page 2097152 7 text_page-IsPrivate
      (omega arith) refl

abbrev mapped : Frames
mapped = map_page_into pml4 text_page 2097152 7 started

mapped-HasTree : HasTree kernel_gigabyte pml4 mapped
mapped-HasTree =
    (map_page_into_lem pml4 started started-HasTree.tree text_page 2097152 7 text_page-IsPrivate
      (omega arith) refl).2

unmap_page_from_example :
    let f' : Frames = record mapped { memory = unmap_page_from pml4 text_page mapped.memory } in
    (walk_and_get_paddr_in pml4 text_page f'.memory ≡ 0)
    × ((w : ℕ)
        → IsPrivate kernel_gigabyte w
        → prefix 0 w ≢ prefix 0 text_page
        → walk_and_get_paddr_in pml4 w f'.memory ≡ walk_and_get_paddr_in pml4 w mapped.memory)
    × HasTree kernel_gigabyte pml4 f'
unmap_page_from_example =
    unmap_page_from_lem pml4 mapped mapped-HasTree.tree text_page text_page-IsPrivate
