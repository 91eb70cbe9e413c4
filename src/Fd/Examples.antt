-- ===== src/Fd/Examples.antt =====
-- Descriptors at a concrete table: a pipe whose writing end stands in slots 4 and 5 and whose reading
-- end stands in slot 3, with one more slot of another process for the reading end.
use gooos.Common.{
  List, ◌==◌, length, take, drop, min, not, ◌++◌, ℕ, ◌+◌, ◌≡◌, ◌≤◌, refl, true, false, none, some,
  [], ◌∷◌, update, if◌then◌else◌, set, map, replicate, ltb, leb, ◌||◌, arith,
}
use gooos.Fd.Pipes.{Pipe, blank_pipe}
use gooos.Fd.{
  FileDesc, FdErr, FdState, slot, proc_close, proc_dup2, proc_alloc_fd, proc_close_all, inherited,
  inherit_slots, sys_pipe,
}
use gooos.Fd.Counts.{PipeEnd, one, held, Counted, refs, closed, end_id}
use gooos.Fd.Refcounts.{Sound, is_empty, proc_close-Sound, proc_dup2-Sound}
use gooos.Fd.Alloc.{Allocated, proc_alloc_fd-Allocated}
use gooos.Fd.SysPipe.{PipeMade, sys_pipe-PipeMade}
use gooos.Fd.Transfer.{
  Written, ReadResult, pipe_write, pipe_read, room_in, pipe_write_refines, pipe_read_refines,
}
use gooos.Fd.Process.{proc_close_all-Sound, inherit_slots-Sound}

abbrev piped : FdState
piped = record {
  pipes =
      update (λ x. blank_pipe) 0
        (record { ch = []; rd_closed = false; wr_closed = false; rd_refs = 2; wr_refs = 2 });
  next = 1;
  fds =
      some FileDesc.console_stdin
      ∷ none
      ∷ some (FileDesc.socket_fd 9)
      ∷ some (FileDesc.pipe_reader 0)
      ∷ some (FileDesc.pipe_writer 0)
      ∷ some (FileDesc.pipe_writer 0)
      ∷ replicate 10 none;
}

-- the reading end once more, in a slot of another process or in the hands of a caller
abbrev other_process : PipeEnd → ℕ
other_process e = one e (some (FileDesc.pipe_reader 0)) + 0

piped-Counted : (e : PipeEnd) → Counted piped.pipes (held e piped.fds + other_process e) e
unfolding held one refs closed
piped-Counted (PipeEnd.reader x) = ground arith
piped-Counted (PipeEnd.writer x) = ground arith

piped-unmade : (e : PipeEnd) → 1 ≤ end_id e → held e piped.fds + other_process e ≡ 0
unfolding held one end_id
piped-unmade (PipeEnd.reader x) h = ground arith
piped-unmade (PipeEnd.writer x) h = ground arith

piped-Sound : Sound other_process piped
piped-Sound = record { full_table = refl; counted = piped-Counted; unmade = piped-unmade }

-- closing slots 4 and 5 closes the writing end, with the second
last_writer :
    ((proc_close 4 piped).0.pipes 0).wr_closed ≡ false
    × ((proc_close 5 (proc_close 4 piped).0).0.pipes 0).wr_closed ≡ true
unfolding proc_close gooos.Fd.close_desc gooos.Fd.Pipes.writer_close
last_writer = (refl, refl)

proc_close-Sound_example :
    let (s', err) = proc_close 4 piped in
    Sound other_process s'
    × (err ≡ (if ltb 4 16 then FdErr.err_ok else FdErr.err_bad))
    × (s'.fds ≡ (if ltb 4 16 then set piped.fds 4 none else piped.fds))
proc_close-Sound_example = proc_close-Sound other_process 4 piped piped-Sound

proc_dup2-Sound_example :
    let (s', result) = proc_dup2 3 4 piped in
    let refused = leb 16 3 || leb 16 4 || is_empty (slot piped.fds 3) in
    Sound other_process s'
    × (result ≡ (if refused then none else some 4))
    × (s'.fds ≡ (if refused then piped.fds else set piped.fds 4 (slot piped.fds 3)))
proc_dup2-Sound_example = proc_dup2-Sound other_process 3 4 piped piped-Sound

proc_alloc_fd-Allocated_example :
    Allocated
      (λ e. 0)
      (FileDesc.pipe_reader 0)
      piped
      (proc_alloc_fd (FileDesc.pipe_reader 0) piped).0
      (proc_alloc_fd (FileDesc.pipe_reader 0) piped).1
proc_alloc_fd-Allocated_example =
    proc_alloc_fd-Allocated (λ e. 0) (FileDesc.pipe_reader 0) piped piped-Sound

sys_pipe-PipeMade_example : PipeMade other_process piped (sys_pipe piped).0 (sys_pipe piped).1
sys_pipe-PipeMade_example = sys_pipe-PipeMade other_process piped piped-Sound

proc_close_all-Sound_example :
    ((proc_close_all piped).fds ≡ replicate 16 none)
    × ((e : PipeEnd) → Counted (proc_close_all piped).pipes (other_process e) e)
    × Sound other_process (proc_close_all piped)
proc_close_all-Sound_example = proc_close_all-Sound other_process piped piped-Sound

inherit_slots-Sound_example :
    let (fds', ps') = inherit_slots piped.fds piped.pipes in
    (fds' ≡ map inherited piped.fds)
    × Sound (λ e. held e piped.fds + other_process e) (record piped { fds = fds'; pipes = ps' })
    × Sound (λ e. held e fds' + other_process e) (record piped { pipes = ps' })
inherit_slots-Sound_example = inherit_slots-Sound other_process piped piped-Sound

abbrev two_bytes : List ℕ
two_bytes = 8 ∷ 9 ∷ []

-- a pipe with three bytes in it
abbrev filled : Pipe
filled = record {
  ch = 5 ∷ 6 ∷ 7 ∷ [];
  rd_closed = false;
  wr_closed = false;
  rd_refs = 1;
  wr_refs = 1;
}

pipe_write_refines_example :
    let (p', r) = pipe_write two_bytes filled in
    let live = not (filled.wr_closed || filled.rd_closed) in
    let n = if live then min (room_in filled) (length two_bytes) else 0 in
    (p'.ch ≡ filled.ch ++ take n two_bytes)
    × (length p'.ch ≤ 4096)
    × (r ≡ (
        if filled.wr_closed
        then Written.returned 0 FdErr.err_bad
        else if leb (length two_bytes) n
        then Written.returned (length two_bytes) FdErr.err_ok
        else if live
        then Written.waits n
        else Written.returned 0 FdErr.err_pipe))
pipe_write_refines_example = pipe_write_refines two_bytes filled (omega arith)

pipe_read_refines_example :
    let (p', r) = pipe_read 2 filled in
    (p'.ch ≡ drop 2 filled.ch)
    × (r ≡ (
        if leb 2 (length filled.ch)
        then ReadResult.got (take 2 filled.ch) FdErr.err_ok
        else if filled.wr_closed
        then ReadResult.got filled.ch
            (if length filled.ch == 0 then FdErr.err_eof else FdErr.err_ok)
        else ReadResult.pending filled.ch))
pipe_read_refines_example = pipe_read_refines 2 filled
