-- ===== src/Editor/Commands/Safety.antt =====
-- No command of the editor (src/user/cmd/edit/main.go) leaves the lines, or quits with unsaved lines.
use gooos.Common.{
  ℕ, ◌≡◌, ◌≢◌, refl, ap, ap₂, ◌∙◌, ◌∷◌, [], ◌++◌, length, take, take_all, Option, some, Bool, true,
  false, if◌then◌else◌, arith, List, Bool-cases, inl, inr,
}
use gooos.Editor.Buffer.{
  save_file, cursor_left, cursor_right, insert_char, insert_newline, open_line_below,
  open_line_above,
}
use gooos.Editor.Buffer.Edits.{insert_char_refines, insert_newline_refines}
use gooos.Editor.Buffer.Backward.{delete_backward_refines}
use gooos.Editor.Buffer.Forward.{delete_forward_refines}
use gooos.Editor.Buffer.Moves.{
  cursor_left-IsValid, cursor_right-IsValid, cursor_up-IsValid, cursor_down-IsValid,
  cursor_home-IsValid, cursor_end-IsValid, cursor_top-IsValid, cursor_bottom-IsValid,
  word_forward-IsValid, word_backward-IsValid, delete_line-IsValid, open_line_below-IsValid,
  open_line_above-IsValid,
}
use gooos.Editor.Commands.{
  EditorCmd, none_, up, down, left, right, home, end_, top, bottom, word_fwd, word_back, insert,
  new_line, delete_back, delete_fwd, delete_row, enter_insert, enter_insert_after, open_below,
  open_above, exit_insert, enter_command, save, quit_, force_quit, save_quit, Editor, execute,
  save_now,
}
use gooos.Editor.Buffer.{newline, save_loop}
use gooos.Editor.Buffer.Files.{joined}
use gooos.Editor.Buffer.Text.{save_loop-closed}
use gooos.Editor.Commands.{stored}
use gooos.Editor.Commands.Steps.{
  IsSaved, IsGood, good, marks, left-IsMarked, right-IsMarked, up-IsMarked, down-IsMarked,
  home-IsMarked, end-IsMarked, top-IsMarked, bottom-IsMarked, word_fwd-IsMarked, word_back-IsMarked,
  delete_back-IsMarked, delete_fwd-IsMarked, delete_row-IsMarked,
}

stored-joined :
    (written : List ℕ → ℕ) (ws : List (List ℕ))
    → ((w : List ℕ) → written w ≡ length w)
    → stored written ws ≡ joined ws
unfolding stored joined
stored-joined written [] whole = refl
stored-joined written (w ∷ ws) whole =
    ap₂ ◌++◌ (ap (λ n. take n w) (whole w) ∙ take_all (length w) w (omega arith))
      (stored-joined written ws whole)

save_now-IsGood :
    {start : Option (List ℕ)} (opened : Bool) (written : List ℕ → ℕ) (e : Editor)
    → ((w : List ℕ) → written w ≡ length w)
    → IsGood start e
    → let (e', ok) = save_now opened written e in
      IsGood start e' × (e'.quit ≡ e.quit) × (ok ≡ true → IsSaved start e'.buf.lines e'.file)
unfolding save_now save_file IsSaved
save_now-IsGood true written e whole g =
    let writes = save_loop e.buf.lines ++ ((newline ∷ []) ∷ []) in
    let text =
      stored-joined written writes whole
      ∙ save_loop-closed e.buf.lines (omega (arith, g.valid.row)) in
    (
      record {
        valid = record { row = g.valid.row; column = g.valid.column };
        synced = λ h. inr (ap some text);
      },
      refl,
      λ h. inr (ap some text),
    )
save_now-IsGood false written e whole g = (g, refl, λ h. absurd (ground (arith, h)))

IsGood-if :
    {start : Option (List ℕ)} {e1 e2 : Editor} (c : Bool)
    → IsGood start e1
    → IsGood start e2
    → IsGood start (if c then e1 else e2)
IsGood-if true g1 g2 = g1
IsGood-if false g1 g2 = g2

-- Every command keeps what is good.
pub execute-IsGood :
    {start : Option (List ℕ)} (opened : Bool) (written : List ℕ → ℕ) (c : EditorCmd) (e : Editor)
    → ((w : List ℕ) → written w ≡ length w)
    → IsGood start e
    → IsGood start (execute opened written c e)
unfolding execute insert_char insert_newline open_line_below open_line_above cursor_left
    cursor_right
execute-IsGood opened written none_ e whole g = g
execute-IsGood opened written up e whole g =
    good e _ g (up-IsMarked e.buf) refl (cursor_up-IsValid e.buf g.valid)
execute-IsGood opened written down e whole g =
    good e _ g (down-IsMarked e.buf) refl (cursor_down-IsValid e.buf g.valid)
execute-IsGood opened written left e whole g =
    good e _ g (left-IsMarked e.buf) refl (cursor_left-IsValid e.buf g.valid)
execute-IsGood opened written right e whole g =
    good e _ g (right-IsMarked e.buf) refl (cursor_right-IsValid e.buf g.valid)
execute-IsGood opened written home e whole g =
    good e _ g (home-IsMarked e.buf) refl (cursor_home-IsValid e.buf g.valid)
execute-IsGood opened written end_ e whole g =
    good e _ g (end-IsMarked e.buf) refl (cursor_end-IsValid e.buf g.valid)
execute-IsGood opened written top e whole g =
    good e _ g (top-IsMarked e.buf) refl (cursor_top-IsValid e.buf g.valid)
execute-IsGood opened written bottom e whole g =
    good e _ g (bottom-IsMarked e.buf) refl (cursor_bottom-IsValid e.buf g.valid)
execute-IsGood opened written word_fwd e whole g =
    good e _ g (word_fwd-IsMarked e.buf) refl (word_forward-IsValid e.buf g.valid)
execute-IsGood opened written word_back e whole g =
    good e _ g (word_back-IsMarked e.buf) refl (word_backward-IsValid e.buf g.valid)
execute-IsGood opened written insert e whole g =
    good e _ g (marks refl) refl (insert_char_refines e.insert_ch e.buf g.valid).valid
execute-IsGood opened written new_line e whole g =
    good e _ g (marks refl) refl (insert_newline_refines e.buf g.valid).valid
execute-IsGood opened written delete_back e whole g =
    good e _ g (delete_back-IsMarked e.buf) refl (delete_backward_refines e.buf g.valid).valid
execute-IsGood opened written delete_fwd e whole g =
    good e _ g (delete_fwd-IsMarked e.buf) refl (delete_forward_refines e.buf g.valid).valid
execute-IsGood opened written delete_row e whole g =
    good e _ g (delete_row-IsMarked e.buf) refl (delete_line-IsValid e.buf g.valid)
execute-IsGood opened written enter_insert e whole g = record { valid = g.valid; synced = g.synced }
execute-IsGood opened written enter_insert_after e whole g =
    good e _ g (right-IsMarked e.buf) refl (cursor_right-IsValid e.buf g.valid)
execute-IsGood opened written open_below e whole g =
    good e _ g (marks refl) refl (open_line_below-IsValid e.buf g.valid)
execute-IsGood opened written open_above e whole g =
    good e _ g (marks refl) refl (open_line_above-IsValid e.buf g.valid)
execute-IsGood opened written exit_insert e whole g =
    good e _ g (left-IsMarked e.buf) refl (cursor_left-IsValid e.buf g.valid)
execute-IsGood opened written enter_command e whole g = record {
  valid = g.valid;
  synced = g.synced;
}
execute-IsGood opened written save e whole g = (save_now-IsGood opened written e whole g).0
execute-IsGood opened written quit_ e whole g =
    IsGood-if e.buf.modified g (record { valid = g.valid; synced = g.synced })
execute-IsGood opened written force_quit e whole g = record { valid = g.valid; synced = g.synced }
execute-IsGood opened written save_quit e whole g =
    let kept = (save_now-IsGood opened written e whole g).0 in
    IsGood-if (save_now opened written e).1 (record { valid = kept.valid; synced = kept.synced })
      kept

-- A command other than `:q!` that makes the editor quit leaves nothing that is not saved.
pub execute_quits :
    {start : Option (List ℕ)} (opened : Bool) (written : List ℕ → ℕ) (c : EditorCmd) (e : Editor)
    → ((w : List ℕ) → written w ≡ length w)
    → IsGood start e
    → e.quit ≡ false
    → c ≢ force_quit
    → let e' = execute opened written c e in e'.quit ≡ true → IsSaved start e'.buf.lines e'.file
unfolding execute
execute_quits opened written none_ e whole g running other quits =
    absurd (ground (arith, running, quits))
execute_quits opened written up e whole g running other quits =
    absurd (ground (arith, running, quits))
execute_quits opened written down e whole g running other quits =
    absurd (ground (arith, running, quits))
execute_quits opened written left e whole g running other quits =
    absurd (ground (arith, running, quits))
execute_quits opened written right e whole g running other quits =
    absurd (ground (arith, running, quits))
execute_quits opened written home e whole g running other quits =
    absurd (ground (arith, running, quits))
execute_quits opened written end_ e whole g running other quits =
    absurd (ground (arith, running, quits))
execute_quits opened written top e whole g running other quits =
    absurd (ground (arith, running, quits))
execute_quits opened written bottom e whole g running other quits =
    absurd (ground (arith, running, quits))
execute_quits opened written word_fwd e whole g running other quits =
    absurd (ground (arith, running, quits))
execute_quits opened written word_back e whole g running other quits =
    absurd (ground (arith, running, quits))
execute_quits opened written insert e whole g running other quits =
    absurd (ground (arith, running, quits))
execute_quits opened written new_line e whole g running other quits =
    absurd (ground (arith, running, quits))
execute_quits opened written delete_back e whole g running other quits =
    absurd (ground (arith, running, quits))
execute_quits opened written delete_fwd e whole g running other quits =
    absurd (ground (arith, running, quits))
execute_quits opened written delete_row e whole g running other quits =
    absurd (ground (arith, running, quits))
execute_quits opened written enter_insert e whole g running other quits =
    absurd (ground (arith, running, quits))
execute_quits opened written enter_insert_after e whole g running other quits =
    absurd (ground (arith, running, quits))
execute_quits opened written open_below e whole g running other quits =
    absurd (ground (arith, running, quits))
execute_quits opened written open_above e whole g running other quits =
    absurd (ground (arith, running, quits))
execute_quits opened written exit_insert e whole g running other quits =
    absurd (ground (arith, running, quits))
execute_quits opened written enter_command e whole g running other quits =
    absurd (ground (arith, running, quits))
execute_quits opened written save e whole g running other quits =
    let (kept, same, done) = save_now-IsGood opened written e whole g in
    absurd (ground (arith, running, quits, same))
execute_quits opened written quit_ e whole g running other quits =
    elim (Bool-cases e.buf.modified) [
      | inl dirty ↦ absurd (ground (arith, running, quits, dirty))
      | inr clean ↦ rw clean (g.synced clean)
    ]
execute_quits opened written force_quit e whole g running other quits = absurd (other refl)
execute_quits opened written save_quit e whole g running other quits =
    let (kept, same, done) = save_now-IsGood opened written e whole g in
    elim (Bool-cases (save_now opened written e).1) [
      | inl ok ↦ rw ok (done ok)
      | inr failed ↦ absurd (ground (arith, running, quits, same, failed))
    ]
