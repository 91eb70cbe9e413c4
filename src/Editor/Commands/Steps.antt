-- ===== src/Editor/Commands/Steps.antt =====
-- What each command of the editor (src/user/cmd/edit/main.go) keeps: a buffer that can be used, and a
-- mark that tells whether there is something to save.
use gooos.Common.{
  ◌+◌, ◌-◌, ◌≡◌, ◌⊎◌, subst, ℕ, List, Option, some, refl, sym, ◌∙◌, Bool, true, false, ◌&&◌, ◌==◌,
  ltb, if◌then◌else◌, arith, length,
}
use gooos.Editor.Buffer.{
  Buffer, line, cursor_left, cursor_right, cursor_up, cursor_down, cursor_home, cursor_end,
  cursor_top, cursor_bottom, clamp_cx, word_forward, word_backward, delete_backward, delete_forward,
  delete_line, load_file,
}
use gooos.Editor.Buffer.Place.{IsValid, closed}
use gooos.Editor.Commands.{Editor}

-- A buffer that is not marked as modified after an operation was not marked before, and its lines are
-- the same.
pub record IsMarked (b b' : Buffer) : Type 0 where
  pub unmarked : b'.modified ≡ false → b.modified ≡ false
  pub same : b'.modified ≡ false → b'.lines ≡ b.lines

pub keeps : {b b' : Buffer} → b'.lines ≡ b.lines → b'.modified ≡ b.modified → IsMarked b b'
keeps l m = record { unmarked = λ h. sym m ∙ h; same = λ h. l }

pub marks : {b b' : Buffer} → b'.modified ≡ true → IsMarked b b'
marks m = record {
  unmarked = λ h. absurd (ground (arith, m, h));
  same = λ h. absurd (ground (arith, m, h));
}

IsMarked-if :
    {b b1 b2 : Buffer} (c : Bool)
    → IsMarked b b1
    → IsMarked b b2
    → IsMarked b (if c then b1 else b2)
IsMarked-if true m1 m2 = m1
IsMarked-if false m1 m2 = m2

-- The file has the text: it is as at the start, `start`, and the lines are those that were loaded from
-- it, or it holds each line with a newline behind it.
unfoldable pub IsSaved : Option (List ℕ) → List (List ℕ) → Option (List ℕ) → Type 0
IsSaved start lines file =
    ((file ≡ start) × (lines ≡ (load_file start).lines)) ⊎ (file ≡ some (closed lines))

-- the buffer can be used, and without a mark the file has its text
pub record IsGood (start : Option (List ℕ)) (e : Editor) : Type 0 where
  pub valid : IsValid e.buf
  pub synced : e.buf.modified ≡ false → IsSaved start e.buf.lines e.file

-- a command that does something to the buffer alone
pub good :
    {start : Option (List ℕ)} (e e' : Editor)
    → IsGood start e
    → IsMarked e.buf e'.buf
    → e'.file ≡ e.file
    → IsValid e'.buf
    → IsGood start e'
good {start} e e' g m kept v = record {
  valid = v;
  synced = λ h.
      subst (λ l. IsSaved start l e'.file) (sym (m.same h))
        (subst (IsSaved start e.buf.lines) (sym kept) (g.synced (m.unmarked h)));
}

clamp_cx-IsMarked : (b b0 : Buffer) → IsMarked b0 b → IsMarked b0 (clamp_cx b)
unfolding clamp_cx
clamp_cx-IsMarked b b0 m =
    IsMarked-if (ltb (length (line b)) b.cx) (record { unmarked = m.unmarked; same = m.same }) m

module _ (b : Buffer) where
  pub left-IsMarked : IsMarked b (cursor_left b)
  unfolding cursor_left
  left-IsMarked = IsMarked-if (ltb 0 b.cx) (keeps refl refl) (keeps refl refl)

  pub right-IsMarked : IsMarked b (cursor_right b)
  unfolding cursor_right
  right-IsMarked = IsMarked-if (ltb b.cx (length (line b))) (keeps refl refl) (keeps refl refl)

  pub up-IsMarked : IsMarked b (cursor_up b)
  unfolding cursor_up
  up-IsMarked =
      IsMarked-if (ltb 0 b.cy) (clamp_cx-IsMarked (record b { cy = b.cy - 1 }) b (keeps refl refl))
        (keeps refl refl)

  pub down-IsMarked : IsMarked b (cursor_down b)
  unfolding cursor_down
  down-IsMarked =
      IsMarked-if (ltb b.cy (length b.lines - 1))
        (clamp_cx-IsMarked (record b { cy = b.cy + 1 }) b (keeps refl refl)) (keeps refl refl)

  pub home-IsMarked : IsMarked b (cursor_home b)
  unfolding cursor_home
  home-IsMarked = keeps refl refl

  pub end-IsMarked : IsMarked b (cursor_end b)
  unfolding cursor_end
  end-IsMarked = keeps refl refl

  pub top-IsMarked : IsMarked b (cursor_top b)
  unfolding cursor_top
  top-IsMarked = clamp_cx-IsMarked (record b { cy = 0 }) b (keeps refl refl)

  pub bottom-IsMarked : IsMarked b (cursor_bottom b)
  unfolding cursor_bottom
  bottom-IsMarked = clamp_cx-IsMarked (record b { cy = length b.lines - 1 }) b (keeps refl refl)

  pub word_fwd-IsMarked : IsMarked b (word_forward b)
  unfolding word_forward
  word_fwd-IsMarked = IsMarked-if _ (keeps refl refl) (keeps refl refl)

  pub word_back-IsMarked : IsMarked b (word_backward b)
  unfolding word_backward
  word_back-IsMarked = IsMarked-if (b.cx == 0 && ltb 0 b.cy) (keeps refl refl) (keeps refl refl)

  pub delete_back-IsMarked : IsMarked b (delete_backward b)
  unfolding delete_backward
  delete_back-IsMarked =
      IsMarked-if (ltb 0 b.cx) (marks refl)
        (IsMarked-if (ltb 0 b.cy) (marks refl) (keeps refl refl))

  pub delete_fwd-IsMarked : IsMarked b (delete_forward b)
  unfolding delete_forward
  delete_fwd-IsMarked =
      IsMarked-if (ltb b.cx (length (line b))) (marks refl)
        (IsMarked-if (ltb b.cy (length b.lines - 1)) (marks refl) (keeps refl refl))

  pub delete_row-IsMarked : IsMarked b (delete_line b)
  unfolding delete_line
  delete_row-IsMarked =
      IsMarked-if (length b.lines == 1) (marks refl) (clamp_cx-IsMarked _ b (marks refl))
