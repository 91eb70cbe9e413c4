-- ===== src/Fd/Transfer.antt =====
-- The bytes of a pipe of src/pipe.go: `Write` and `Read` over the buffered channel.
use gooos.Common.{
  ℕ, zero, suc, ◌+◌, ◌-◌, ◌≤◌, ◌<◌, ◌≡◌, refl, ap, ◌∙◌, Bool, true, false, not, ◌||◌, List, [], ◌∷◌,
  ◌++◌, append-nil, append_assoc, length, length-append, length-take, take, take_all, drop, leb,
  ◌==◌, min, if◌then◌else◌, Bool-cases, inl, inr, arith,
}
use gooos.Fd.Pipes.{Pipe, pipe_buf_bytes}
use gooos.Fd.{FdErr}

-- A call returns, or its goroutine waits on the channel for the byte at an index.
pub data Written : Type 0 where
  returned : ℕ → FdErr → Written
  waits : ℕ → Written

-- the loop of `Write` from the byte at `i` on
pub write_loop : List ℕ → ℕ → Pipe → Pipe × Written
write_loop [] i p = (p, returned i FdErr.err_ok)
write_loop (b ∷ buf) i p =
    let rest = write_loop buf (i + 1) (record p { ch = p.ch ++ (b ∷ []) }) in
    if p.rd_closed
    then (p, returned i FdErr.err_pipe)
    else if leb pipe_buf_bytes (length p.ch)
    then (p, waits i)
    else rest

pub pipe_write : List ℕ → Pipe → Pipe × Written
pipe_write buf p = if p.wr_closed then (p, returned 0 FdErr.err_bad) else write_loop buf 0 p

-- `Read` returns the bytes it copied, or it waits with those it has copied so far.
pub data ReadResult : Type 0 where
  got : List ℕ → FdErr → ReadResult
  pending : List ℕ → ReadResult

abbrev and_before : ℕ → ReadResult → ReadResult
and_before b (got bs FdErr.err_eof) = got (b ∷ bs) FdErr.err_ok
and_before b (got bs e) = got (b ∷ bs) e
and_before b (pending bs) = pending (b ∷ bs)

-- the loop of `Read` for `room` bytes, on what the channel holds and whether it is closed: a closed
-- channel ends the copy, with `fdErrEOF` only when it is the first byte that is missing
pub read_loop : ℕ → List ℕ → Bool → List ℕ × ReadResult
read_loop zero ch ended = (ch, got [] FdErr.err_ok)
read_loop (suc room) [] ended = ([], (if ended then got [] FdErr.err_eof else pending []))
read_loop (suc room) (b ∷ ch) ended =
    let (ch', r) = read_loop room ch ended in (ch', and_before b r)

pub pipe_read : ℕ → Pipe → Pipe × ReadResult
pipe_read room p = let (ch', r) = read_loop room p.ch p.wr_closed in (record p { ch = ch' }, r)

-- what is left of the capacity
abbrev pub room_in : Pipe → ℕ
room_in p = 4096 - length p.ch

take_none : (n : ℕ) (xs : List ℕ) → n ≡ 0 → take n xs ≡ []
take_none n xs h = ap (λ k. take k xs) h

take_step : (n b : ℕ) (bs : List ℕ) → 0 < n → take n (b ∷ bs) ≡ b ∷ take (n - 1) bs
take_step n b bs h = ap (λ k. take k (b ∷ bs)) {y = suc (n - 1)} (omega arith)

write_loop_refines :
    (buf : List ℕ) (i : ℕ) (p : Pipe)
    → p.rd_closed ≡ false
    → length p.ch ≤ 4096
    → let (p', r) = write_loop buf i p in
      (p'.ch ≡ p.ch ++ take (room_in p) buf)
      × (r ≡ (
          if leb (length buf) (room_in p)
          then returned (i + length buf) FdErr.err_ok
          else waits (i + room_in p)))
      × (p'.rd_closed ≡ p.rd_closed)
      × (p'.wr_closed ≡ p.wr_closed)
unfolding write_loop
write_loop_refines [] i p h hl =
    let unchanged = append-nil p.ch in
    let nil : List ℕ = [] in
    let nothing = take_all (room_in p) nil (omega arith) in ground (arith, unchanged, nothing)
write_loop_refines (b ∷ buf) i p h hl = elim (Bool-cases (leb 4096 (length p.ch))) [
  | inl full ↦
      let none_left : room_in p ≡ 0 = ground (arith, full) in
      let nothing = take_none (room_in p) (b ∷ buf) none_left in
      let unchanged = append-nil p.ch in ground (arith, h, full, none_left, nothing, unchanged)
  | inr room ↦
      let p1 = record p { ch = p.ch ++ (b ∷ []) } in
      let longer = length-append p.ch (b ∷ []) in
      let rec = write_loop_refines buf (i + 1) p1 h (ground (arith, longer, room)) in
      let step = take_step (room_in p) b buf (ground (arith, room)) in
      let less =
        ap (λ k. take k buf) {x = room_in p1} {y = room_in p - 1} (ground (arith, longer)) in
      let assoc = append_assoc p.ch (b ∷ []) (take (room_in p - 1) buf) in
      ground (arith, h, room, rec, step, less, longer, assoc)
]

one_more :
    (b room n : ℕ) (front whole : List ℕ) (ended : Bool)
    → and_before b (
        if leb room n
        then got front FdErr.err_ok
        else if ended
        then got whole (if n == 0 then FdErr.err_eof else FdErr.err_ok)
        else pending whole)
      ≡ (if leb (suc room) (suc n)
          then got (b ∷ front) FdErr.err_ok
          else if ended
          then got (b ∷ whole) (if suc n == 0 then FdErr.err_eof else FdErr.err_ok)
          else pending (b ∷ whole))
one_more b room n front whole ended = elim (Bool-cases (leb room n)) [
  | inl enough ↦ ground (arith, enough)
  | inr short ↦ elim (Bool-cases ended) [
    | inl over ↦ elim (Bool-cases (n == 0)) [
      | inl e ↦ ground (arith, short, over, e)
      | inr e ↦ ground (arith, short, over, e)
    ]
    | inr live ↦ ground (arith, short, live)
  ]
]

read_loop_refines :
    (room : ℕ) (ch : List ℕ) (ended : Bool)
    → let (ch', r) = read_loop room ch ended in
      (ch' ≡ drop room ch)
      × (r ≡ (
          if leb room (length ch)
          then got (take room ch) FdErr.err_ok
          else if ended
          then got ch (if length ch == 0 then FdErr.err_eof else FdErr.err_ok)
          else pending ch))
unfolding read_loop
read_loop_refines zero ch ended = ground arith
read_loop_refines (suc room) [] ended = ground arith
read_loop_refines (suc room) (b ∷ ch) ended =
    let rec = read_loop_refines room ch ended in
    (rec.0, ap (and_before b) rec.1 ∙ one_more b room (length ch) (take room ch) ch ended)

take_up_to : (n : ℕ) (xs : List ℕ) → take (min n (length xs)) xs ≡ take n xs
take_up_to zero xs = ap (λ k. take k xs) {x = min 0 (length xs)} {y = 0} (omega arith)
take_up_to (suc n) [] = take_none (min (suc n) 0) _ (omega arith)
take_up_to (suc n) (x ∷ xs) =
    ap (λ k. take k (x ∷ xs)) {y = suc (min n (length xs))} (omega arith)
    ∙ ap (λ r. x ∷ r) (take_up_to n xs)

-- the loop of `Write` when nobody will read
write_loop-rd_closed :
    (buf : List ℕ) (i : ℕ) (p : Pipe)
    → p.rd_closed ≡ true
    → write_loop buf i p
      ≡ (p, returned i (if length buf == 0 then FdErr.err_ok else FdErr.err_pipe))
unfolding write_loop
write_loop-rd_closed [] i p h = refl
write_loop-rd_closed (b ∷ buf) i p h = ground (arith, h)

-- `Write` of a pipe with both ends open appends to the channel as many bytes as it has room for, in
-- their order. It returns the number of all bytes when they fit, and otherwise its goroutine waits to
-- send the first one that does not; the channel never holds more than 4096. With the writing end
-- closed nothing is written and the call is refused; with only the reading end closed the bytes are
-- refused with `fdErrPipe`.
pub pipe_write_refines :
    (buf : List ℕ) (p : Pipe)
    → length p.ch ≤ 4096
    → let (p', r) = pipe_write buf p in
      let live = not (p.wr_closed || p.rd_closed) in
      let n = if live then min (room_in p) (length buf) else 0 in
      (p'.ch ≡ p.ch ++ take n buf)
      × (length p'.ch ≤ 4096)
      × (r ≡ (
          if p.wr_closed
          then returned 0 FdErr.err_bad
          else if leb (length buf) n
          then returned (length buf) FdErr.err_ok
          else if live
          then waits n
          else returned 0 FdErr.err_pipe))
unfolding pipe_write
pipe_write_refines buf p hl =
    let unchanged = append-nil p.ch in
    elim (Bool-cases p.wr_closed) [
      | inl refused ↦ ground (arith, hl, refused, unchanged, take_none 0 buf refl)
      | inr accepted ↦ elim (Bool-cases p.rd_closed) [
        | inl unread ↦
            let loop = write_loop-rd_closed buf 0 p unread in
            ground (arith, hl, accepted, unread, unchanged, loop, take_none 0 buf refl)
        | inr read_too ↦
            let loop = write_loop_refines buf 0 p read_too hl in
            let part = take_up_to (room_in p) buf in
            let size = length-append p.ch (take (room_in p) buf) in
            let taken = length-take (room_in p) buf in
            ground (arith, hl, accepted, read_too, loop, part, size, taken)
      ]
    ]

-- `Read` takes the oldest bytes from the channel in the order in which they were written. It returns
-- with a full buffer when there are enough of them; when there are fewer it returns what there was if
-- the writing end is closed, as the end of the file only if there was nothing, and otherwise waits
-- with what it has.
pub pipe_read_refines :
    (room : ℕ) (p : Pipe)
    → let (p', r) = pipe_read room p in
      (p'.ch ≡ drop room p.ch)
      × (r ≡ (
          if leb room (length p.ch)
          then got (take room p.ch) FdErr.err_ok
          else if p.wr_closed
          then got p.ch (if length p.ch == 0 then FdErr.err_eof else FdErr.err_ok)
          else pending p.ch))
unfolding pipe_read
pipe_read_refines room p = read_loop_refines room p.ch p.wr_closed
