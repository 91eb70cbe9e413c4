-- ===== src/Editor/Buffer/Examples.antt =====
-- The buffer of the editor (src/user/cmd/edit/buffer.go) on small texts.
use gooos.Common.{ℕ, ◌≡◌, true, false, arith, [], ◌∷◌, ◌++◌, length, drop, some}
use gooos.Editor.Buffer.{
  Buffer, newline, insert_char, insert_newline, delete_backward, delete_forward, save_file,
  load_file,
}
use gooos.Editor.Buffer.Place.{IsValid, before, after}
use gooos.Editor.Buffer.Edits.{Shows}
use gooos.Editor.Buffer.Backward.{but_last}
use gooos.Editor.Buffer.Files.{joined, save-load}
use gooos.Editor.Buffer.Text.{edits_refine, save_file-text}

-- "ab" and "c", with the cursor behind the "a"
abbrev two_lines : Buffer
two_lines = record { lines = (97 ∷ 98 ∷ []) ∷ (99 ∷ []) ∷ []; cx = 1; cy = 0; modified = false }

two_lines-IsValid : IsValid two_lines
two_lines-IsValid = record { row = omega arith; column = omega arith }

edits_refine_example :
    ((c : ℕ) → Shows (insert_char c two_lines) (before two_lines ++ (c ∷ [])) (after two_lines))
    × Shows (insert_newline two_lines) (before two_lines ++ (newline ∷ [])) (after two_lines)
    × Shows (delete_backward two_lines) (but_last (before two_lines)) (after two_lines)
    × Shows (delete_forward two_lines) (before two_lines) (drop 1 (after two_lines))
edits_refine_example = edits_refine two_lines two_lines-IsValid

save_file-text_example :
    let (b', writes, total, ok) = save_file true length two_lines in
    let (b'', none_written, n, failed) = save_file false length two_lines in
    (joined writes ≡ (before two_lines ++ after two_lines) ++ (newline ∷ []))
    × (b'.modified ≡ false)
    × (b'.lines ≡ two_lines.lines)
    × (b'' ≡ two_lines)
    × (joined none_written ≡ [])
    × (failed ≡ false)
save_file-text_example = save_file-text length two_lines two_lines-IsValid

-- a file of one line, "a", with the newline that ends it
save-load_example :
    let (b', writes, total, ok) = save_file true length (load_file (some (97 ∷ 10 ∷ []))) in
    (joined writes ≡ 97 ∷ 10 ∷ 10 ∷ [])
    × (total ≡ 3)
    × (ok ≡ true)
    × (b'.lines ≡ (load_file (some (97 ∷ 10 ∷ []))).lines)
save-load_example = save-load (97 ∷ 10 ∷ [])
