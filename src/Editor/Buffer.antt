-- ===== src/Editor/Buffer.antt =====
-- The lines of the editor with the cursor in them: src/user/cmd/edit/buffer.go. A line is a list of
-- bytes; `b.lines[y]` is the empty line where the source would stop.
pub mod Place
pub mod Edits
pub mod Backward
pub mod Forward
pub mod Moves
pub mod Files
pub mod Text
pub mod Examples
use gooos.Common.{
  ℕ, zero, suc, ◌+◌, ◌-◌, ◌≤◌, Bool, true, false, not, ◌&&◌, ◌||◌, ◌==◌, ltb, leb, if◌then◌else◌,
  min, List, [], ◌∷◌, ◌++◌, Option, none, some, length, get_or, set, take, drop,
}

-- `'\n'`
abbrev pub newline : ℕ
newline = 10

pub record Buffer : Type 0 where
  pub lines : List (List ℕ)
  pub cx : ℕ
  pub cy : ℕ
  pub modified : Bool

unfoldable pub new_buffer : Buffer
new_buffer = record { lines = [] ∷ []; cx = 0; cy = 0; modified = false }

-- the loop of `loadFile`, with the bytes since the last newline
unfoldable pub load_loop : List ℕ → List ℕ → List (List ℕ)
load_loop line [] = line ∷ []
load_loop line (x ∷ xs) =
    if x == newline then line ∷ load_loop [] xs else load_loop (line ++ (x ∷ [])) xs

-- `loadFile`, with what `gooos.ReadFile` returns
unfoldable pub load_file : Option (List ℕ) → Buffer
load_file none = new_buffer
load_file (some data_) = record new_buffer { lines = load_loop [] data_ }

-- the loop of `saveFile`: what it hands to `gooos.Write`, in order
unfoldable pub save_loop : List (List ℕ) → List (List ℕ)
save_loop [] = []
save_loop (line ∷ []) = line ∷ []
save_loop (line ∷ next ∷ lines) = line ∷ (newline ∷ []) ∷ save_loop (next ∷ lines)

-- `total`, with what `gooos.Write` answers for a line: the bytes it took; its negative error numbers are left out
unfoldable pub save_total : (List ℕ → ℕ) → List (List ℕ) → ℕ
save_total written [] = 0
save_total written (line ∷ []) = written line
save_total written (line ∷ next ∷ lines) = written line + 1 + save_total written (next ∷ lines)

-- `saveFile`, with whether `gooos.Open` succeeds
unfoldable pub save_file : Bool → (List ℕ → ℕ) → Buffer → Buffer × List (List ℕ) × ℕ × Bool
save_file opened written b =
    if opened
    then (
      record b { modified = false },
      save_loop b.lines ++ ((newline ∷ []) ∷ []),
      save_total written b.lines + 1,
      true,
    )
    else (b, [], 0, false)

-- `b.lines[b.cy]`
abbrev pub line : Buffer → List ℕ
line b = get_or b.lines b.cy []

unfoldable pub cursor_left : Buffer → Buffer
cursor_left b = if ltb 0 b.cx then record b { cx = b.cx - 1 } else b

unfoldable pub cursor_right : Buffer → Buffer
cursor_right b = if ltb b.cx (length (line b)) then record b { cx = b.cx + 1 } else b

unfoldable pub clamp_cx : Buffer → Buffer
clamp_cx b = if ltb (length (line b)) b.cx then record b { cx = length (line b) } else b

unfoldable pub cursor_up : Buffer → Buffer
cursor_up b = if ltb 0 b.cy then clamp_cx (record b { cy = b.cy - 1 }) else b

unfoldable pub cursor_down : Buffer → Buffer
cursor_down b = if ltb b.cy (length b.lines - 1) then clamp_cx (record b { cy = b.cy + 1 }) else b

unfoldable pub cursor_home : Buffer → Buffer
cursor_home b = record b { cx = 0 }

unfoldable pub cursor_end : Buffer → Buffer
cursor_end b = record b { cx = length (line b) }

unfoldable pub cursor_top : Buffer → Buffer
cursor_top b = clamp_cx (record b { cy = 0 })

unfoldable pub cursor_bottom : Buffer → Buffer
cursor_bottom b = clamp_cx (record b { cy = length b.lines - 1 })

abbrev pub is_space : ℕ → Bool
is_space c = c == 32 || c == 9

-- how far a loop `for x < len(line) && test(line[x])` goes in what is left of the line
unfoldable pub run : (ℕ → Bool) → List ℕ → ℕ
run test [] = 0
run test (c ∷ cs) = let rest = run test cs in if test c then suc rest else 0

unfoldable pub word_forward : Buffer → Buffer
word_forward b =
    let x1 = b.cx + run (λ c. not (is_space c)) (drop b.cx (line b)) in
    let x2 = x1 + run is_space (drop x1 (line b)) in
    if leb (length (line b)) x2 && ltb b.cy (length b.lines - 1)
    then record b { cy = b.cy + 1; cx = 0 }
    else record b { cx = x2 }

-- `for x > 0 && isSpace(line[x])`
unfoldable pub back_spaces : List ℕ → ℕ → ℕ
back_spaces cs zero = 0
back_spaces cs (suc x) =
    let rest = back_spaces cs x in if is_space (get_or cs (suc x) 0) then rest else suc x

-- `for x > 0 && !isSpace(line[x-1])`
unfoldable pub back_word : List ℕ → ℕ → ℕ
back_word cs zero = 0
back_word cs (suc x) = let rest = back_word cs x in if is_space (get_or cs x 0) then suc x else rest

unfoldable pub word_backward : Buffer → Buffer
word_backward b =
    if b.cx == 0 && ltb 0 b.cy
    then record b { cy = b.cy - 1; cx = length (get_or b.lines (b.cy - 1) []) }
    else record b { cx = back_word (line b) (back_spaces (line b) (b.cx - 1)) }

unfoldable pub insert_char : ℕ → Buffer → Buffer
insert_char c b = record b {
  lines = set b.lines b.cy (take b.cx (line b) ++ (c ∷ drop b.cx (line b)));
  cx = b.cx + 1;
  modified = true;
}

unfoldable pub insert_newline : Buffer → Buffer
insert_newline b =
    let lines = set b.lines b.cy (take b.cx (line b)) in
    record b {
      lines = take (b.cy + 1) lines ++ (drop b.cx (line b) ∷ drop (b.cy + 1) lines);
      cy = b.cy + 1;
      cx = 0;
      modified = true;
    }

unfoldable pub delete_backward : Buffer → Buffer
delete_backward b =
    let prev = get_or b.lines (b.cy - 1) [] in
    let lines = set b.lines (b.cy - 1) (prev ++ line b) in
    if ltb 0 b.cx
    then record b {
      lines = set b.lines b.cy (take (b.cx - 1) (line b) ++ drop b.cx (line b));
      cx = b.cx - 1;
      modified = true;
    }
    else if ltb 0 b.cy
    then record b {
      lines = take b.cy lines ++ drop (b.cy + 1) lines;
      cx = length prev;
      cy = b.cy - 1;
      modified = true;
    }
    else b

unfoldable pub delete_forward : Buffer → Buffer
delete_forward b =
    let next = get_or b.lines (b.cy + 1) [] in
    let lines = set b.lines b.cy (line b ++ next) in
    if ltb b.cx (length (line b))
    then record b {
      lines = set b.lines b.cy (take b.cx (line b) ++ drop (b.cx + 1) (line b));
      modified = true;
    }
    else if ltb b.cy (length b.lines - 1)
    then record b { lines = take (b.cy + 1) lines ++ drop (b.cy + 2) lines; modified = true }
    else b

unfoldable pub delete_line : Buffer → Buffer
delete_line b =
    let lines = take b.cy b.lines ++ drop (b.cy + 1) b.lines in
    let cy = if leb (length lines) b.cy then length lines - 1 else b.cy in
    if length b.lines == 1
    then record b { lines = set b.lines 0 []; cx = 0; modified = true }
    else clamp_cx (record b { lines = lines; cy = cy; modified = true })

unfoldable pub open_line_below : Buffer → Buffer
open_line_below b = record b {
  lines = take (b.cy + 1) b.lines ++ ([] ∷ drop (b.cy + 1) b.lines);
  cy = b.cy + 1;
  cx = 0;
  modified = true;
}

unfoldable pub open_line_above : Buffer → Buffer
open_line_above b = record b {
  lines = take b.cy b.lines ++ ([] ∷ drop b.cy b.lines);
  cx = 0;
  modified = true;
}
