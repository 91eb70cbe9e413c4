-- ===== src/Editor/Buffer/Text.antt =====
-- The buffer of src/user/cmd/edit/buffer.go as a text with a place in it: what edits do to the text, and
-- what is saved of it.
use gooos.Common.{
  ℕ, ◌<◌, ◌≡◌, refl, sym, ap, ap₂, ◌∙◌, Bool, true, false, arith, List, [], ◌∷◌, ◌++◌, length, drop,
  append-nil, append_assoc,
}
use gooos.Editor.Buffer.{
  Buffer, newline, insert_char, insert_newline, delete_backward, delete_forward, save_file,
  save_loop,
}
use gooos.Editor.Buffer.Place.{
  IsValid, at, closed, opened, before, after, before-at, after-at, by_place,
}
use gooos.Editor.Buffer.Edits.{Shows, insert_char_refines, insert_newline_refines}
use gooos.Editor.Buffer.Backward.{but_last, delete_backward_refines}
use gooos.Editor.Buffer.Forward.{delete_forward_refines}
use gooos.Editor.Buffer.Files.{joined, joined-save_loop}

-- In a valid buffer, a typed byte and a newline come before the cursor, deleting backward takes the last
-- byte before the cursor off and deleting forward the first byte after it, newlines included; nothing
-- is taken where there is nothing; the rest of the text stays, and the buffer is valid again.
pub edits_refine :
    (b : Buffer)
    → IsValid b
    → ((c : ℕ) → Shows (insert_char c b) (before b ++ (c ∷ [])) (after b))
      × Shows (insert_newline b) (before b ++ (newline ∷ [])) (after b)
      × Shows (delete_backward b) (but_last (before b)) (after b)
      × Shows (delete_forward b) (before b) (drop 1 (after b))
edits_refine b v = (
  λ c. insert_char_refines c b v,
  insert_newline_refines b v,
  delete_backward_refines b v,
  delete_forward_refines b v,
)

opened-closed :
    (l : List ℕ) (ls : List (List ℕ)) → closed (l ∷ ls) ≡ (l ++ opened ls) ++ (newline ∷ [])
unfolding closed opened
opened-closed l [] = ap (λ r. r ++ (newline ∷ [])) (sym (append-nil l))
opened-closed l (m ∷ ls) =
    ap (λ r. l ++ (newline ∷ r)) (opened-closed m ls)
    ∙ sym (append_assoc l (newline ∷ (m ++ opened ls)) (newline ∷ []))

closed-append : (xs ys : List (List ℕ)) → closed (xs ++ ys) ≡ closed xs ++ closed ys
unfolding closed
closed-append [] ys = refl
closed-append (x ∷ xs) ys =
    ap (λ r. x ++ (newline ∷ r)) (closed-append xs ys)
    ∙ sym (append_assoc x (newline ∷ closed xs) (closed ys))

pub save_loop-closed :
    (ls : List (List ℕ))
    → 0 < length ls
    → joined (save_loop ls ++ ((newline ∷ []) ∷ [])) ≡ closed ls
save_loop-closed [] h = absurd (omega arith)
save_loop-closed (l ∷ ls) h = joined-save_loop l ls

text-at :
    (pre : List (List ℕ)) (left right : List ℕ) (post : List (List ℕ)) (m : Bool)
    → closed (at pre left right post m).lines
      ≡ (before (at pre left right post m) ++ after (at pre left right post m)) ++ (newline ∷ [])
text-at pre left right post m =
    closed-append pre ((left ++ right) ∷ post)
    ∙ ap (λ r. closed pre ++ r) (opened-closed (left ++ right) post)
    ∙ sym (append_assoc (closed pre) ((left ++ right) ++ opened post) (newline ∷ []))
    ∙ ap (λ r. r ++ (newline ∷ []))
        (ap (λ r. closed pre ++ r) (append_assoc left right (opened post))
          ∙ sym (append_assoc (closed pre) left (right ++ opened post))
          ∙ ap₂ ◌++◌ (sym (before-at pre left right post m)) (sym (after-at pre left right post m)))

-- What a valid buffer writes when the file opens is its text with one newline more; the buffer is then
-- not marked as modified. When the file does not open nothing is written and the buffer stays as it was.
pub save_file-text :
    (written : List ℕ → ℕ) (b : Buffer)
    → IsValid b
    → let (b', writes, total, ok) = save_file true written b in
      let (b'', none_written, n, failed) = save_file false written b in
      (joined writes ≡ (before b ++ after b) ++ (newline ∷ []))
      × (b'.modified ≡ false)
      × (b'.lines ≡ b.lines)
      × (b'' ≡ b)
      × (joined none_written ≡ [])
      × (failed ≡ false)
unfolding save_file joined
save_file-text written b v =
    let text =
      by_place (λ x. closed x.lines ≡ (before x ++ after x) ++ (newline ∷ [])) text-at b v in
    (save_loop-closed b.lines (omega (arith, v.row)) ∙ text, refl, refl, refl, refl, refl)
