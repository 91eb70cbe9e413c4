-- ===== src/Editor/Buffer/Moves.antt =====
-- The cursor of src/user/cmd/edit/buffer.go stays on a line and within it, whatever is done.
use gooos.Common.{
  ℕ, zero, suc, ◌+◌, ◌-◌, ◌≤◌, ◌<◌, ◌≡◌, Bool, true, not, ◌&&◌, ◌==◌, ltb, leb, if◌then◌else◌,
  arith, List, [], ◌∷◌, ◌++◌, length, take, drop, length-append, length-take, length-drop,
  length-set, Bool-cases, inl, inr,
}
use gooos.Editor.Buffer.{
  Buffer, line, cursor_left, cursor_right, cursor_up, cursor_down, cursor_home, cursor_end,
  cursor_top, cursor_bottom, clamp_cx, word_forward, word_backward, run, back_spaces, back_word,
  is_space, delete_line, open_line_below, open_line_above,
}
use gooos.Editor.Buffer.Place.{IsValid}

pub clamp_cx-IsValid : (b : Buffer) → b.cy < length b.lines → IsValid (clamp_cx b)
unfolding clamp_cx
clamp_cx-IsValid b h = elim (Bool-cases (ltb (length (line b)) b.cx)) [
  | inl over ↦ rw over (record { row = h; column = omega arith })
  | inr within ↦ rw within (record { row = h; column = ground (arith, within) })
]

pub cursor_left-IsValid : (b : Buffer) → IsValid b → IsValid (cursor_left b)
unfolding cursor_left
cursor_left-IsValid b v = elim (Bool-cases (ltb 0 b.cx)) [
  | inl some_left ↦ rw some_left (record { row = v.row; column = omega (arith, v.column) })
  | inr none_left ↦ rw none_left v
]

pub cursor_right-IsValid : (b : Buffer) → IsValid b → IsValid (cursor_right b)
unfolding cursor_right
cursor_right-IsValid b v = elim (Bool-cases (ltb b.cx (length (line b)))) [
  | inl some_right ↦ rw some_right (record { row = v.row; column = ground (arith, some_right) })
  | inr none_right ↦ rw none_right v
]

pub cursor_up-IsValid : (b : Buffer) → IsValid b → IsValid (cursor_up b)
unfolding cursor_up
cursor_up-IsValid b v = elim (Bool-cases (ltb 0 b.cy)) [
  | inl some_up ↦ rw some_up (clamp_cx-IsValid (record b { cy = b.cy - 1 }) (omega (arith, v.row)))
  | inr none_up ↦ rw none_up v
]

pub cursor_down-IsValid : (b : Buffer) → IsValid b → IsValid (cursor_down b)
unfolding cursor_down
cursor_down-IsValid b v = elim (Bool-cases (ltb b.cy (length b.lines - 1))) [
  | inl below ↦
      rw below (clamp_cx-IsValid (record b { cy = b.cy + 1 }) (ground (arith, below, v.row)))
  | inr last ↦ rw last v
]

pub cursor_home-IsValid : (b : Buffer) → IsValid b → IsValid (cursor_home b)
unfolding cursor_home
cursor_home-IsValid b v = record { row = v.row; column = omega arith }

pub cursor_end-IsValid : (b : Buffer) → IsValid b → IsValid (cursor_end b)
unfolding cursor_end
cursor_end-IsValid b v = record { row = v.row; column = omega arith }

pub cursor_top-IsValid : (b : Buffer) → IsValid b → IsValid (cursor_top b)
unfolding cursor_top
cursor_top-IsValid b v = clamp_cx-IsValid (record b { cy = 0 }) (omega (arith, v.row))

pub cursor_bottom-IsValid : (b : Buffer) → IsValid b → IsValid (cursor_bottom b)
unfolding cursor_bottom
cursor_bottom-IsValid b v =
    clamp_cx-IsValid (record b { cy = length b.lines - 1 }) (omega (arith, v.row))

run_le : (test : ℕ → Bool) (cs : List ℕ) → run test cs ≤ length cs
unfolding run
run_le test [] = omega arith
run_le test (c ∷ cs) = ground (arith, run_le test cs)

pub word_forward-IsValid : (b : Buffer) → IsValid b → IsValid (word_forward b)
unfolding word_forward
word_forward-IsValid b v =
    let l = line b in
    let x1 = b.cx + run (λ c. not (is_space c)) (drop b.cx l) in
    let x2 = x1 + run is_space (drop x1 l) in
    let first : x1 ≤ length l =
      omega (arith, run_le (λ c. not (is_space c)) (drop b.cx l), length-drop b.cx l, v.column) in
    let second : x2 ≤ length l =
      omega (arith, run_le is_space (drop x1 l), length-drop x1 l, first) in
    elim (Bool-cases (leb (length l) x2 && ltb b.cy (length b.lines - 1))) [
      | inl next ↦ rw next (record { row = ground (arith, next, v.row); column = omega arith })
      | inr here ↦ rw here (record { row = v.row; column = second })
    ]

back_spaces_le : (cs : List ℕ) (x : ℕ) → back_spaces cs x ≤ x
unfolding back_spaces
back_spaces_le cs zero = omega arith
back_spaces_le cs (suc x) = ground (arith, back_spaces_le cs x)

back_word_le : (cs : List ℕ) (x : ℕ) → back_word cs x ≤ x
unfolding back_word
back_word_le cs zero = omega arith
back_word_le cs (suc x) = ground (arith, back_word_le cs x)

pub word_backward-IsValid : (b : Buffer) → IsValid b → IsValid (word_backward b)
unfolding word_backward
word_backward-IsValid b v =
    let l = line b in
    let spaces = back_spaces_le l (b.cx - 1) in
    let word = back_word_le l (back_spaces l (b.cx - 1)) in
    elim (Bool-cases (b.cx == 0 && ltb 0 b.cy)) [
      | inl above ↦ rw above (record { row = omega (arith, v.row); column = omega arith })
      | inr here ↦ rw here (record { row = v.row; column = omega (arith, spaces, word, v.column) })
    ]

pub delete_line-IsValid : (b : Buffer) → IsValid b → IsValid (delete_line b)
unfolding delete_line
delete_line-IsValid b v =
    let lines = take b.cy b.lines ++ drop (b.cy + 1) b.lines in
    let cy = if leb (length lines) b.cy then length lines - 1 else b.cy in
    let shorter : length lines ≡ length b.lines - 1 = omega (
      arith,
      v.row,
      length-append (take b.cy b.lines) (drop (b.cy + 1) b.lines),
      length-take b.cy b.lines,
      length-drop (b.cy + 1) b.lines,
    ) in
    elim (Bool-cases (length b.lines == 1)) [
      | inl one ↦
          rw one
            (record { row = omega (arith, v.row, length-set b.lines 0 []); column = omega arith })
      | inr more ↦ rw more (
          clamp_cx-IsValid (record b { lines = lines; cy = cy; modified = true })
            (ground (arith, more, shorter, v.row)))
    ]

pub open_line_below-IsValid : (b : Buffer) → IsValid b → IsValid (open_line_below b)
unfolding open_line_below
open_line_below-IsValid b v = record {
  row = omega (
    arith,
    v.row,
    length-append (take (b.cy + 1) b.lines) ([] ∷ drop (b.cy + 1) b.lines),
    length-take (b.cy + 1) b.lines,
    length-drop (b.cy + 1) b.lines,
  );
  column = omega arith;
}

pub open_line_above-IsValid : (b : Buffer) → IsValid b → IsValid (open_line_above b)
unfolding open_line_above
open_line_above-IsValid b v = record {
  row = omega (
    arith,
    v.row,
    length-append (take b.cy b.lines) ([] ∷ drop b.cy b.lines),
    length-take b.cy b.lines,
    length-drop b.cy b.lines,
  );
  column = omega arith;
}
