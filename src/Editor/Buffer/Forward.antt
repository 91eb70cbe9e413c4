-- ===== src/Editor/Buffer/Forward.antt =====
-- Deleting forward (src/user/cmd/edit/buffer.go), against a text with a place in it.
use gooos.Common.{
  ℕ, ◌+◌, ◌-◌, ◌≡◌, refl, sym, ap, ap₂, ◌∙◌, Bool, true, false, arith, List, [], ◌∷◌, ◌++◌, length,
  get_or, set, take, drop, length-append, take-length-append, append-nil, append_assoc, ltb,
}
use gooos.Editor.Buffer.{Buffer, line, delete_forward}
use gooos.Editor.Buffer.Place.{
  IsValid, at, closed, opened, before, after, before-at, after-at, by_place, line-at, set_at,
  get_or_at, take_at, drop_at,
}
use gooos.Editor.Buffer.Edits.{Shows-as, Shows, at-Shows, buffer_eq}

forward_char-at :
    (c : ℕ) (pre : List (List ℕ)) (left right : List ℕ) (post : List (List ℕ)) (m : Bool)
    → delete_forward (at pre left (c ∷ right) post m) ≡ at pre left right post true
unfolding delete_forward
forward_char-at c pre left right post m =
    let old = line-at pre left (c ∷ right) post m in
    let inside : ltb (length left) (length (line (at pre left (c ∷ right) post m))) ≡ true =
      ground (arith, ap length old, length-append left (c ∷ right)) in
    let new_line =
      ap₂ ◌++◌ (ap (take (length left)) old ∙ take-length-append left (c ∷ right))
        (ap (drop (length left + 1)) old ∙ drop_at left c right) in
    rw inside (
      buffer_eq _ (length left) (length pre) true pre left right post
        (ap (set (pre ++ ((left ++ (c ∷ right)) ∷ post)) (length pre)) new_line
          ∙ set_at pre (left ++ (c ∷ right)) post (left ++ right))
        refl refl)

forward_line-at :
    (pre : List (List ℕ)) (left next : List ℕ) (post : List (List ℕ)) (m : Bool)
    → delete_forward (at pre left [] (next ∷ post) m) ≡ at pre left next post true
unfolding delete_forward
forward_line-at pre left next post m =
    let b = at pre left [] (next ∷ post) m in
    let old : line b ≡ left = line-at pre left [] (next ∷ post) m ∙ append-nil left in
    let at_end : ltb (length left) (length (line b)) ≡ false = ground (arith, ap length old) in
    let more : ltb (length pre) (length b.lines - 1) ≡ true =
      ground (arith, length-append pre ((left ++ []) ∷ next ∷ post)) in
    let regroup : b.lines ≡ (pre ++ ((left ++ []) ∷ [])) ++ (next ∷ post) =
      sym (append_assoc pre ((left ++ []) ∷ []) (next ∷ post)) in
    let row : length pre + 1 ≡ length (pre ++ ((left ++ []) ∷ [])) =
      omega (arith, length-append pre ((left ++ []) ∷ [])) in
    let found : get_or b.lines (length pre + 1) [] ≡ next =
      ap₂ (λ l n. get_or l n []) regroup row
      ∙ get_or_at (pre ++ ((left ++ []) ∷ [])) next post [] in
    let joined : set b.lines (length pre) (line b ++ get_or b.lines (length pre + 1) [])
        ≡ pre ++ ((left ++ next) ∷ next ∷ post) =
      ap₂ (λ x y. set b.lines (length pre) (x ++ y)) old found
      ∙ set_at pre (left ++ []) (next ∷ post) (left ++ next) in
    let again : pre ++ ((left ++ next) ∷ next ∷ post)
        ≡ (pre ++ ((left ++ next) ∷ [])) ++ (next ∷ post) =
      sym (append_assoc pre ((left ++ next) ∷ []) (next ∷ post)) in
    let row2 : length pre + 2 ≡ length (pre ++ ((left ++ next) ∷ [])) + 1 =
      omega (arith, length-append pre ((left ++ next) ∷ [])) in
    let head = ap (take (length pre + 1)) joined ∙ take_at pre (left ++ next) (next ∷ post) in
    let tail = ap₂ drop row2 (joined ∙ again) ∙ drop_at (pre ++ ((left ++ next) ∷ [])) next post in
    rw (at_end, more)
      (buffer_eq _ (length left) (length pre) true pre left next post
        (ap₂ ◌++◌ head tail ∙ append_assoc pre ((left ++ next) ∷ []) post) refl refl)

forward_none-at :
    (pre : List (List ℕ)) (left : List ℕ) (m : Bool)
    → delete_forward (at pre left [] [] m) ≡ at pre left [] [] m
unfolding delete_forward
forward_none-at pre left m =
    let b = at pre left [] [] m in
    let old : line b ≡ left = line-at pre left [] [] m ∙ append-nil left in
    let at_end : ltb (length left) (length (line b)) ≡ false = ground (arith, ap length old) in
    let last : ltb (length pre) (length b.lines - 1) ≡ false =
      ground (arith, length-append pre ((left ++ []) ∷ [])) in
    rw (at_end, last) refl

forward-at :
    (pre : List (List ℕ)) (left right : List ℕ) (post : List (List ℕ)) (m : Bool)
    → Shows
        (delete_forward (at pre left right post m))
        (closed pre ++ left)
        (drop 1 (right ++ opened post))
unfolding opened
forward-at pre left (c ∷ right) post m =
    at-Shows (delete_forward (at pre left (c ∷ right) post m)) pre left right post true
      (forward_char-at c pre left right post m)
forward-at pre left [] (next ∷ post) m =
    at-Shows (delete_forward (at pre left [] (next ∷ post) m)) pre left next post true
      (forward_line-at pre left next post m)
forward-at pre left [] [] m =
    at-Shows (delete_forward (at pre left [] [] m)) pre left [] [] m (forward_none-at pre left m)

-- Deleting forward in a valid buffer takes the first byte after the cursor off, a newline included, and
-- nothing at the end of the text: the text before the cursor stays.
pub delete_forward_refines :
    (b : Buffer) → IsValid b → Shows (delete_forward b) (before b) (drop 1 (after b))
delete_forward_refines =
    by_place (λ b. Shows (delete_forward b) (before b) (drop 1 (after b)))
      (λ pre left right post m.
        Shows-as (delete_forward (at pre left right post m)) (forward-at pre left right post m)
          (sym (before-at pre left right post m))
          (ap (drop 1) (sym (after-at pre left right post m))))
