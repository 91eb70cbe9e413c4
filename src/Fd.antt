-- ===== src/Fd.antt =====
-- File descriptors of src/fd.go and the pipes of src/pipe.go that they stand for: the slot table of a
-- process, and the reference counts by which the last slot of a pipe's end closes that end.
pub mod Pipes
pub mod Counts
pub mod Refcounts
pub mod Alloc
pub mod SysPipe
pub mod Process
pub mod Transfer
pub mod Examples
use gooos.Common.{
  ℕ, zero, suc, ◌+◌, Bool, true, false, ◌||◌, Option, none, some, List, [], ◌∷◌, ltb, leb, ◌==◌,
  if◌then◌else◌, Array, update, length, get_or, set, replicate,
}
use gooos.Fd.Pipes.{
  Pipe, blank_pipe, writer_close, reader_close, writer_add_ref, reader_add_ref, opened_pipe,
}

-- `procMaxFDs`
abbrev pub proc_max_fds : ℕ
proc_max_fds = 16

pub data FdErr : Type 0 where
  err_ok : FdErr
  err_eof : FdErr
  err_pipe : FdErr
  err_bad : FdErr

-- The implementations of the interface `FileDesc`. An end of a pipe names its pipe; an open file and
-- a socket name what they stand for.
pub data FileDesc : Type 0 where
  console_stdin : FileDesc
  console_stdout : Bool → FileDesc
  file_fd : ℕ → FileDesc
  socket_fd : ℕ → FileDesc
  pipe_reader : ℕ → FileDesc
  pipe_writer : ℕ → FileDesc

abbrev pub Slot : Type 0
Slot = Option FileDesc

-- The array `fds` of a process; it always has 16 slots.
abbrev pub Slots : Type 0
Slots = List Slot

-- The pipes by their number, with the number of the next to make, and the slots of the process that
-- makes the call. A pipe not yet made has both ends closed.
pub record FdState : Type 0 where
  pub pipes : Array Pipe
  pub next : ℕ
  pub fds : Slots

-- `Close` of a descriptor, as far as it concerns pipes; every one returns `fdErrOK`
unfoldable pub close_desc : FileDesc → Array Pipe → Array Pipe
close_desc (pipe_reader x) ps = update ps x (reader_close (ps x))
close_desc (pipe_writer x) ps = update ps x (writer_close (ps x))
close_desc d ps = ps

unfoldable pub fd_add_ref : FileDesc → Array Pipe → Array Pipe
fd_add_ref (pipe_reader x) ps = update ps x (reader_add_ref (ps x))
fd_add_ref (pipe_writer x) ps = update ps x (writer_add_ref (ps x))
fd_add_ref d ps = ps

-- closing what a slot holds, if anything
abbrev pub close_slot : Slot → Array Pipe → Array Pipe
close_slot none ps = ps
close_slot (some d) ps = close_desc d ps

abbrev pub slot : Slots → ℕ → Slot
slot fds fd = get_or fds fd none

unfoldable pub proc_get_fd : ℕ → FdState → Slot
proc_get_fd fd s = if leb proc_max_fds fd then none else slot s.fds fd

-- the lowest free slot from `i` on
unfoldable pub free_slot : ℕ → Slots → Option ℕ
free_slot i [] = none
free_slot i (none ∷ fds) = some i
free_slot i (some d ∷ fds) = free_slot (suc i) fds

-- what `procAllocFD` does with the outcome of its search
unfoldable pub install : FileDesc → FdState → Option ℕ → FdState × Option ℕ
install d s none = (s, none)
install d s (some i) = (record s { fds = set s.fds i (some d) }, some i)

unfoldable pub proc_alloc_fd : FileDesc → FdState → FdState × Option ℕ
proc_alloc_fd d s = install d s (free_slot 0 s.fds)

unfoldable pub proc_close : ℕ → FdState → FdState × FdErr
proc_close fd s = if leb proc_max_fds fd then (s, err_bad) else elim (slot s.fds fd) [
  | none ↦ (s, err_ok)
  | some d ↦ (record s { fds = set s.fds fd none; pipes = close_desc d s.pipes }, err_ok)
]

unfoldable pub proc_dup2 : ℕ → ℕ → FdState → FdState × Option ℕ
proc_dup2 oldfd newfd s =
    if leb proc_max_fds oldfd || leb proc_max_fds newfd
    then (s, none)
    else elim (slot s.fds oldfd) [
      | none ↦ (s, none)
      | some d ↦ if oldfd == newfd then (s, some newfd) else (
        record s {
          fds = set s.fds newfd (some d);
          pipes = fd_add_ref d (close_slot (slot s.fds newfd) s.pipes);
        },
        some newfd,
      )
    ]

-- the loop of `procCloseAll` over the slots that are left
unfoldable pub close_slots : Slots → Array Pipe → Slots × Array Pipe
close_slots [] ps = ([], ps)
close_slots (o ∷ fds) ps = let (fds', ps') = close_slots fds (close_slot o ps) in (none ∷ fds', ps')

unfoldable pub proc_close_all : FdState → FdState
proc_close_all s =
    let (fds', ps') = close_slots s.fds s.pipes in record s { fds = fds'; pipes = ps' }

-- what a spawned process takes over of a slot of its parent: all but a socket
unfoldable pub inherited : Slot → Slot
inherited (some (socket_fd k)) = none
inherited o = o

abbrev pub add_slot_ref : Slot → Array Pipe → Array Pipe
add_slot_ref none ps = ps
add_slot_ref (some d) ps = fd_add_ref d ps

-- the loop over the slots of the parent
unfoldable pub inherit_slots : Slots → Array Pipe → Slots × Array Pipe
inherit_slots [] ps = ([], ps)
inherit_slots (o ∷ fds) ps =
    let (fds', ps') = inherit_slots fds (add_slot_ref (inherited o) ps) in (inherited o ∷ fds', ps')

abbrev pub new_pipe : FdState → FdState
new_pipe s = record s { pipes = update s.pipes s.next opened_pipe; next = s.next + 1 }

-- `sysPipeHandler` from the outcome of its second `procAllocFD` on, and from that of its first
unfoldable pub with_writer : ℕ → FdState × Option ℕ → FdState × Option (ℕ × ℕ)
with_writer rd_fd (s, none) = ((proc_close rd_fd s).0, none)
with_writer rd_fd (s, some wr_fd) = (s, some (rd_fd, wr_fd))

unfoldable pub with_reader : ℕ → FdState × Option ℕ → FdState × Option (ℕ × ℕ)
with_reader x (s, none) = (s, none)
with_reader x (s, some rd_fd) = with_writer rd_fd (proc_alloc_fd (pipe_writer x) s)

-- `sysPipeHandler`: the descriptors of the reading and the writing end, or the refusal
unfoldable pub sys_pipe : FdState → FdState × Option (ℕ × ℕ)
sys_pipe s = with_reader s.next (proc_alloc_fd (pipe_reader s.next) (new_pipe s))
