-- ===== src/Vm/Frames.antt =====
-- The allocator of page frames: a stack of freed frames over a bump pointer.
pub mod Ledger
pub mod Examples
use gooos.Common.{
  ℕ, zero, suc, ◌+◌, ◌-◌, ◌*◌, ◌/◌, Bool, ltb, leb, ◌==◌, ◌&&◌, if◌then◌else◌, Array, update, List,
  [], ◌∷◌,
}

-- `pageSize` and `freeStackCap`
abbrev pub page_size : ℕ
page_size = 4096

abbrev pub free_stack_cap : ℕ
free_stack_cap = 4096

-- The stack, its length, and the words of physical memory by the address of their first byte. `uintptr` does not wrap here: a
-- model with more memory than addresses would say nothing of a machine.
pub record Frames : Type 0 where
  pub next_free_page : ℕ
  pub free_stack : Array ℕ
  pub free_stack_len : ℕ
  pub memory : Array ℕ

-- `vmInit`, with the address that `allocStartAddr` returns
pub vm_init : ℕ → Frames → Frames
vm_init end f = record f { next_free_page = (end + page_size - 1) / page_size * page_size }

-- zeroing `len` bytes from `page`
abbrev pub zeroed : ℕ → ℕ → Array ℕ → Array ℕ
zeroed page len mem a = if leb page a && ltb a (page + len) then 0 else mem a

pub alloc_page : Frames → Frames × ℕ
alloc_page f =
    let top = f.free_stack (f.free_stack_len - 1) in
    if ltb 0 f.free_stack_len
    then (
      record f { free_stack_len = f.free_stack_len - 1; memory = zeroed top page_size f.memory },
      top,
    )
    else (
      record f {
        next_free_page = f.next_free_page + page_size;
        memory = zeroed f.next_free_page page_size f.memory;
      },
      f.next_free_page,
    )

pub alloc_pages_contig : ℕ → Frames → Frames × ℕ
alloc_pages_contig n f = (
  record f {
    next_free_page = f.next_free_page + n * page_size;
    memory = zeroed f.next_free_page (n * page_size) f.memory;
  },
  f.next_free_page,
)

pub free_page : ℕ → Frames → Frames
free_page paddr f =
    let cleared = record f { memory = zeroed paddr page_size f.memory } in
    if paddr == 0
    then f
    else if ltb f.free_stack_len free_stack_cap
    then record cleared {
      free_stack = update f.free_stack f.free_stack_len paddr;
      free_stack_len = f.free_stack_len + 1;
    }
    else cleared
