-- ===== src/Vm/Tables.antt =====
-- Page tables (src/vm.go): the walk over four levels, mapping, unmapping and translation, on the memory
-- of the frame allocator; and the life of a process's tables (src/proc_pml4.go). `invlpg` is left out.
pub mod Tree
pub mod Creation
pub mod Growth
pub mod Leaf
pub mod Path
pub mod Way
pub mod Mapping
pub mod Process
pub mod Examples
use gooos.Common.{
  ℕ, zero, suc, ◌+◌, ◌-◌, ◌*◌, ◌/◌, ◌%◌, Bool, true, false, ◌==◌, if◌then◌else◌, Array, update,
  test_bit,
}
use gooos.Vm.Frames.{Frames, alloc_page, free_page}

-- `pagePresent` and `pageUser`
abbrev pub present : ℕ → Bool
present e = test_bit e 0

abbrev pub user : ℕ → Bool
user e = test_bit e 2

-- `e &^ 0xFFF`
abbrev pub page_of : ℕ → ℕ
page_of e = e / 4096 * 4096

-- The index of an address at a level: 0 for the page table, 3 for the PML4.
unfoldable pub index : ℕ → ℕ → ℕ
index zero v = v / 4096 % 512
index (suc zero) v = v / 2097152 % 512
index (suc (suc zero)) v = v / 1073741824 % 512
index (suc (suc (suc k))) v = v / 549755813888 % 512

-- where an entry of a table stands
abbrev pub entry_at : ℕ → ℕ → ℕ
entry_at table i = table + i * 8

-- `*entry |= uint64(pageUser)`
abbrev pub with_user : ℕ → ℕ
with_user e = if user e then e else e + 4

-- the entry of a new table: `newTable` is a multiple of the page size, so `|` is `+`
abbrev pub table_entry : ℕ → ℕ → ℕ
table_entry new flags = new + (if user flags then 7 else 3)

-- `walkOrCreate` at the address of an entry
unfoldable pub create_at : ℕ → ℕ → Frames → Frames × ℕ
create_at a flags f =
    let e = f.memory a in
    let raised = if user flags then with_user e else e in
    let (g, new) = alloc_page f in
    if present e
    then (record f { memory = update f.memory a raised }, page_of raised)
    else (record g { memory = update g.memory a (table_entry new flags) }, new)

unfoldable pub walk_or_create : ℕ → ℕ → ℕ → Frames → Frames × ℕ
walk_or_create table i flags f = create_at (entry_at table i) flags f

-- `walkExisting`; 0 is for an entry that is not present
unfoldable pub walk_existing : Array ℕ → ℕ → ℕ → ℕ
walk_existing mem table i = let e = mem (entry_at table i) in if present e then page_of e else 0

-- `mapPageInto`. Every caller's flags lie below the page size, so `|` is `+`.
unfoldable pub map_page_into : ℕ → ℕ → ℕ → ℕ → Frames → Frames
map_page_into pml4 vaddr paddr flags f =
    let (f1, pdp) = walk_or_create pml4 (index 3 vaddr) flags f in
    let (f2, pd) = walk_or_create pdp (index 2 vaddr) flags f1 in
    let (f3, pt) = walk_or_create pd (index 1 vaddr) flags f2 in
    record f3 { memory = update f3.memory (entry_at pt (index 0 vaddr)) (page_of paddr + flags) }

-- `unmapPageFrom`, on the memory
unfoldable pub unmap_page_from : ℕ → ℕ → Array ℕ → Array ℕ
unmap_page_from pml4 vaddr mem =
    let pdp = walk_existing mem pml4 (index 3 vaddr) in
    let pd = walk_existing mem pdp (index 2 vaddr) in
    let pt = walk_existing mem pd (index 1 vaddr) in
    if pdp == 0
    then mem
    else if pd == 0
    then mem
    else if pt == 0
    then mem
    else update mem (entry_at pt (index 0 vaddr)) 0

-- `walkAndGetPaddrIn`
unfoldable pub walk_and_get_paddr_in : ℕ → ℕ → Array ℕ → ℕ
walk_and_get_paddr_in pml4 vaddr mem =
    let pdp = walk_existing mem pml4 (index 3 vaddr) in
    let pd = walk_existing mem pdp (index 2 vaddr) in
    let pt = walk_existing mem pd (index 1 vaddr) in
    let e = mem (entry_at pt (index 0 vaddr)) in
    if pdp == 0
    then 0
    else if pd == 0
    then 0
    else if pt == 0
    then 0
    else if present e
    then page_of e
    else 0

-- `mapPage`, `unmapPage` and `walkAndGetPaddr` take the tables from the register
unfoldable pub map_page : ℕ → ℕ → ℕ → ℕ → Frames → Frames
map_page cr3 vaddr paddr flags f = map_page_into (page_of cr3) vaddr paddr flags f

unfoldable pub unmap_page : ℕ → ℕ → Array ℕ → Array ℕ
unmap_page cr3 vaddr mem = unmap_page_from (page_of cr3) vaddr mem

unfoldable pub walk_and_get_paddr : ℕ → ℕ → Array ℕ → ℕ
walk_and_get_paddr cr3 vaddr mem = walk_and_get_paddr_in (page_of cr3) vaddr mem

-- `newProcPML4`, with what `captureKernelPDP0` captured: the entry that every process shares, and the
-- boot PDP; 7 is present, writable and user
unfoldable pub new_proc_pml4 : ℕ → ℕ → Frames → Frames × ℕ
new_proc_pml4 shared_pdp0 boot_pdp f =
    let (f1, pml4) = alloc_page f in
    let (f2, pdp) = alloc_page f1 in
    let linked = update (update f2.memory pml4 (pdp + 7)) pdp shared_pdp0 in
    let pdp3 = linked (boot_pdp + 24) in
    (record f2 { memory = if present pdp3 then update linked (pdp + 24) pdp3 else linked }, pml4)

-- `n` rounds of the loops below, from entry `i` on: a present entry is freed by `free_one`
unfoldable pub free_entries : (ℕ → Frames → Frames) → ℕ → ℕ → ℕ → Frames → Frames
free_entries free_one table zero i f = f
free_entries free_one table (suc n) i f =
    let e = f.memory (entry_at table i) in
    free_entries free_one table n (suc i) (if present e then free_one (page_of e) f else f)

-- `freePD`
unfoldable pub free_pd : ℕ → Frames → Frames
free_pd pd f = free_page pd (free_entries free_page pd 512 0 f)

-- `freePDP`
unfoldable pub free_pdp : ℕ → Frames → Frames
free_pdp pdp f = free_page pdp (free_entries free_pd pdp 512 0 f)

-- `freeProcPML4`
unfoldable pub free_proc_pml4 : ℕ → Frames → Frames
free_proc_pml4 pml4 f =
    let freed = free_entries free_pdp pml4 511 1 f in if pml4 == 0 then f else free_page pml4 freed
