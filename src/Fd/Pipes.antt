-- ===== src/Fd/Pipes.antt =====
-- A pipe of src/pipe.go: a buffered channel of bytes and the counts of its two ends.
use gooos.Common.{ℕ, ◌+◌, ◌-◌, Bool, true, false, List, [], ◌==◌, if◌then◌else◌}

-- `pipeBufBytes`, the capacity of the channel
abbrev pub pipe_buf_bytes : ℕ
pipe_buf_bytes = 4096

pub record Pipe : Type 0 where
  pub ch : List ℕ
  pub rd_closed : Bool
  pub wr_closed : Bool
  pub rd_refs : ℕ
  pub wr_refs : ℕ

-- what a number stands for before its pipe is made
abbrev pub blank_pipe : Pipe
blank_pipe = record { ch = []; rd_closed = true; wr_closed = true; rd_refs = 0; wr_refs = 0 }

-- `newPipe`
abbrev pub opened_pipe : Pipe
opened_pipe = record { ch = []; rd_closed = false; wr_closed = false; rd_refs = 1; wr_refs = 1 }

-- `Close` of the writing end. The channel is closed with it, so `wr_closed` stands for both.
unfoldable pub writer_close : Pipe → Pipe
writer_close p =
    if p.wr_closed
    then p
    else let refs = p.wr_refs - 1 in record p { wr_refs = refs; wr_closed = refs == 0 }

unfoldable pub reader_close : Pipe → Pipe
reader_close p =
    if p.rd_closed
    then p
    else let refs = p.rd_refs - 1 in record p { rd_refs = refs; rd_closed = refs == 0 }

unfoldable pub writer_add_ref : Pipe → Pipe
writer_add_ref p = record p { wr_refs = p.wr_refs + 1 }

unfoldable pub reader_add_ref : Pipe → Pipe
reader_add_ref p = record p { rd_refs = p.rd_refs + 1 }
