-- ===== src/Fd/Counts.antt =====
-- How often an end of a pipe stands in the slots of a process, and what the operations on a pipe do
-- to the count that it keeps.
use gooos.Common.{
  ℕ, zero, suc, ◌+◌, ◌≤◌, ◌<◌, ◌≡◌, refl, Bool, none, some, [], ◌∷◌, ◌==◌, if◌then◌else◌, Array,
  length, set, arith,
}
use gooos.Fd.Pipes.{Pipe, writer_close, reader_close, writer_add_ref, reader_add_ref}
use gooos.Fd.{FileDesc, Slot, Slots, slot, close_desc, close_slot, fd_add_ref, add_slot_ref}

pub data PipeEnd : Type 0 where
  reader : ℕ → PipeEnd
  writer : ℕ → PipeEnd

unfoldable pub end_id : PipeEnd → ℕ
end_id (reader x) = x
end_id (writer x) = x

-- the count that the pipe keeps, and its mark that the end is closed
unfoldable pub refs : PipeEnd → Array Pipe → ℕ
refs (reader x) ps = (ps x).rd_refs
refs (writer x) ps = (ps x).wr_refs

unfoldable pub closed : PipeEnd → Array Pipe → Bool
closed (reader x) ps = (ps x).rd_closed
closed (writer x) ps = (ps x).wr_closed

-- 1 for a slot that holds the end
unfoldable pub one : PipeEnd → Slot → ℕ
one (reader x) (some (FileDesc.pipe_reader y)) = if x == y then 1 else 0
one (writer x) (some (FileDesc.pipe_writer y)) = if x == y then 1 else 0
one e o = 0

unfoldable pub held : PipeEnd → Slots → ℕ
held e [] = 0
held e (o ∷ fds) = one e o + held e fds

pub one-none : (e : PipeEnd) → one e none ≡ 0
unfolding one
one-none (reader x) = refl
one-none (writer x) = refl

pub held-cons : (e : PipeEnd) (o : Slot) (fds : Slots) → held e (o ∷ fds) ≡ one e o + held e fds
unfolding held
held-cons e o fds = refl

pub held-nil : (e : PipeEnd) → held e [] ≡ 0
unfolding held
held-nil e = refl

pub held-set :
    (e : PipeEnd) (fds : Slots) (i : ℕ) (o : Slot)
    → i < length fds
    → held e (set fds i o) + one e (slot fds i) ≡ held e fds + one e o
unfolding held
held-set e [] i o h = ground arith
held-set e (p ∷ fds) zero o h = omega arith
held-set e (p ∷ fds) (suc i) o h = let rec = held-set e fds i o (omega arith) in omega arith

pub slot-held : (e : PipeEnd) (fds : Slots) (i : ℕ) → one e (slot fds i) ≤ held e fds
unfolding held
slot-held e [] i = ground (arith, one-none e)
slot-held e (o ∷ fds) zero = omega arith
slot-held e (o ∷ fds) (suc i) = let rec = slot-held e fds i in omega arith

-- What is true of every end: the count is the number of slots that hold the end, in these slots and
-- elsewhere, and the end is closed exactly when that number is 0.
pub record Counted (ps : Array Pipe) (n : ℕ) (e : PipeEnd) : Type 0 where
  pub count : refs e ps ≡ n
  pub closed_at : closed e ps ≡ (n == 0)

pub close_slot-Counted :
    (o : Slot) (ps : Array Pipe) (n : ℕ) (e : PipeEnd)
    → Counted ps (n + one e o) e
    → Counted (close_slot o ps) n e
unfolding refs closed one close_desc writer_close reader_close
close_slot-Counted none ps n e c = ground (arith, one-none e)
close_slot-Counted (some (FileDesc.pipe_reader y)) ps n (reader x) c = ground arith
close_slot-Counted (some (FileDesc.pipe_reader y)) ps n (writer x) c = ground arith
close_slot-Counted (some (FileDesc.pipe_writer y)) ps n (reader x) c = ground arith
close_slot-Counted (some (FileDesc.pipe_writer y)) ps n (writer x) c = ground arith
close_slot-Counted (some d) ps n (reader x) c = ground arith
close_slot-Counted (some d) ps n (writer x) c = ground arith

-- an end that is open, as every end held by a slot is, takes one more
pub add_slot_ref-Counted :
    (o : Slot) (ps : Array Pipe) (n : ℕ) (e : PipeEnd)
    → (0 < one e o → 0 < n)
    → Counted ps n e
    → Counted (add_slot_ref o ps) (n + one e o) e
unfolding refs closed one fd_add_ref writer_add_ref reader_add_ref
add_slot_ref-Counted none ps n e h c = ground (arith, one-none e)
add_slot_ref-Counted (some (FileDesc.pipe_reader y)) ps n (reader x) h c = ground arith
add_slot_ref-Counted (some (FileDesc.pipe_reader y)) ps n (writer x) h c = ground arith
add_slot_ref-Counted (some (FileDesc.pipe_writer y)) ps n (reader x) h c = ground arith
add_slot_ref-Counted (some (FileDesc.pipe_writer y)) ps n (writer x) h c = ground arith
add_slot_ref-Counted (some d) ps n (reader x) h c = ground arith
add_slot_ref-Counted (some d) ps n (writer x) h c = ground arith
