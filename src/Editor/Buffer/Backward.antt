-- ===== src/Editor/Buffer/Backward.antt =====
-- Deleting backward (src/user/cmd/edit/buffer.go), against a text with a place in it.
use gooos.Common.{
  ℕ, ◌+◌, ◌-◌, ◌≡◌, refl, sym, ap, ap₂, ◌∙◌, Bool, true, arith, subst, List, [], ◌∷◌, ◌++◌, length,
  get_or, set, take, drop, length-append, take-length-append, drop-length-append, append-nil,
  append_assoc, ◌⊎◌, inl, inr, ltb,
}
use gooos.Editor.Buffer.{Buffer, newline, line, delete_backward}
use gooos.Editor.Buffer.Place.{
  IsValid, at, closed, opened, before, after, before-at, after-at, by_place, line-at, set_at,
  get_or_at, take_at, drop_at,
}
use gooos.Editor.Buffer.Edits.{Shows-as, Shows, edit-Shows, at-Shows, buffer_eq, closed-snoc}

-- a list without its last element
unfoldable pub but_last : List ℕ → List ℕ
but_last [] = []
but_last (x ∷ []) = []
but_last (x ∷ y ∷ xs) = x ∷ but_last (y ∷ xs)

but_last-snoc : (xs : List ℕ) (c : ℕ) → but_last (xs ++ (c ∷ [])) ≡ xs
unfolding but_last
but_last-snoc [] c = refl
but_last-snoc (x ∷ []) c = refl
but_last-snoc (x ∷ y ∷ xs) c = ap (λ r. x ∷ r) (but_last-snoc (y ∷ xs) c)

-- a list is empty, or has a last element
snoc_cases {ℓ} :
    {A : Type ℓ} → (xs : List A) → (xs ≡ []) ⊎ ((ys : List A) × (y : A) × (xs ≡ ys ++ (y ∷ [])))
snoc_cases [] = inl refl
snoc_cases (x ∷ xs) = elim (snoc_cases xs) [
  | inl e ↦ inr ([], x, ap (λ r. x ∷ r) e)
  | inr (ys, y, e) ↦ inr (x ∷ ys, y, ap (λ r. x ∷ r) e)
]

module _ {ℓ} {A : Type ℓ} where
  take_pred :
      (l : List A) (c : A) (r : List A)
      → take (length (l ++ (c ∷ [])) - 1) ((l ++ (c ∷ [])) ++ r) ≡ l
  take_pred l c r =
      let n : length (l ++ (c ∷ [])) - 1 ≡ length l = omega (arith, length-append l (c ∷ [])) in
      ap₂ take n (append_assoc l (c ∷ []) r) ∙ take-length-append l (c ∷ r)

  take_double :
      (pre : List A) (x y : A) (post : List A)
      → take (length pre + 1) ((pre ++ (x ∷ [])) ++ (y ∷ post)) ≡ pre ++ (x ∷ [])
  take_double pre x y post =
      ap (take (length pre + 1)) (append_assoc pre (x ∷ []) (y ∷ post)) ∙ take_at pre x (y ∷ post)

back_char-at :
    (c : ℕ) (pre : List (List ℕ)) (left right : List ℕ) (post : List (List ℕ)) (m : Bool)
    → delete_backward (at pre (left ++ (c ∷ [])) right post m) ≡ at pre left right post true
unfolding delete_backward
back_char-at c pre left right post m =
    let full = left ++ (c ∷ []) in
    let len : length full ≡ length left + 1 = omega (arith, length-append left (c ∷ [])) in
    let some_left : ltb 0 (length full) ≡ true = ground (arith, len) in
    let old = line-at pre full right post m in
    let new_line =
      ap₂ ◌++◌ (ap (take (length full - 1)) old ∙ take_pred left c right)
        (ap (drop (length full)) old ∙ drop-length-append full right) in
    rw some_left (
      buffer_eq _ (length full - 1) (length pre) true pre left right post
        (ap (set (pre ++ ((full ++ right) ∷ post)) (length pre)) new_line
          ∙ set_at pre (full ++ right) post (left ++ right))
        (omega (arith, len)) refl)

back_line-at :
    (pre : List (List ℕ)) (prev right : List ℕ) (post : List (List ℕ)) (m : Bool)
    → delete_backward (at (pre ++ (prev ∷ [])) [] right post m) ≡ at pre prev right post true
unfolding delete_backward
back_line-at pre prev right post m =
    let above = pre ++ (prev ∷ []) in
    let len : length above ≡ length pre + 1 = omega (arith, length-append pre (prev ∷ [])) in
    let some_row : ltb 0 (length above) ≡ true = ground (arith, len) in
    let pred : length above - 1 ≡ length pre = omega (arith, len) in
    let lines = above ++ (right ∷ post) in
    let flat : lines ≡ pre ++ (prev ∷ right ∷ post) = append_assoc pre (prev ∷ []) (right ∷ post) in
    let old = line-at above [] right post m in
    let found : get_or lines (length above - 1) [] ≡ prev =
      ap₂ (λ l n. get_or l n []) flat pred ∙ get_or_at pre prev (right ∷ post) [] in
    let joined : set lines (length above - 1)
          (get_or lines (length above - 1) [] ++ line (at above [] right post m))
        ≡ pre ++ ((prev ++ right) ∷ right ∷ post) =
      ap₂ (λ l n. set l n (get_or lines (length above - 1) [] ++ line (at above [] right post m)))
        flat pred
      ∙ set_at pre prev (right ∷ post)
          (get_or lines (length above - 1) [] ++ line (at above [] right post m))
      ∙ ap₂ (λ p r. pre ++ ((p ++ r) ∷ right ∷ post)) found old in
    let head = ap₂ take len joined ∙ take_at pre (prev ++ right) (right ∷ post) in
    let again : pre ++ ((prev ++ right) ∷ right ∷ post)
        ≡ (pre ++ ((prev ++ right) ∷ [])) ++ (right ∷ post) =
      sym (append_assoc pre ((prev ++ right) ∷ []) (right ∷ post)) in
    let two : length above ≡ length (pre ++ ((prev ++ right) ∷ [])) =
      omega (arith, len, length-append pre ((prev ++ right) ∷ [])) in
    let tail =
      ap₂ (λ n l. drop (n + 1) l) two (joined ∙ again)
      ∙ drop_at (pre ++ ((prev ++ right) ∷ [])) right post in
    rw some_row (
      buffer_eq _ (length (get_or lines (length above - 1) [])) (length above - 1) true pre prev
        right post (ap₂ ◌++◌ head tail ∙ append_assoc pre ((prev ++ right) ∷ []) post)
        (ap length found) pred)

back_none-at :
    (right : List ℕ) (post : List (List ℕ)) (m : Bool)
    → delete_backward (at [] [] right post m) ≡ at [] [] right post m
unfolding delete_backward
back_none-at right post m = refl

but_last-append : (xs ys : List ℕ) (c : ℕ) → xs ++ ys ≡ but_last (xs ++ (ys ++ (c ∷ [])))
but_last-append xs ys c =
    sym (but_last-snoc (xs ++ ys) c) ∙ ap but_last (append_assoc xs ys (c ∷ []))

back-at :
    (pre : List (List ℕ)) (left right : List ℕ) (post : List (List ℕ)) (m : Bool)
    → Shows
        (delete_backward (at pre left right post m))
        (but_last (closed pre ++ left))
        (right ++ opened post)
unfolding closed but_last
back-at pre left right post m = elim (snoc_cases left) [
  | inr (l, c, e) ↦
      subst
        (λ x.
          Shows (delete_backward (at pre x right post m)) (but_last (closed pre ++ x))
            (right ++ opened post))
        (sym e)
        (edit-Shows (delete_backward (at pre (l ++ (c ∷ [])) right post m)) _ _ pre l right post
          true (back_char-at c pre l right post m) (but_last-append (closed pre) l c) refl)
  | inl e ↦
      subst
        (λ x.
          Shows (delete_backward (at pre x right post m)) (but_last (closed pre ++ x))
            (right ++ opened post))
        (sym e)
        (elim (snoc_cases pre) [
          | inr (above, prev, e2) ↦
              subst
                (λ x.
                  Shows (delete_backward (at x [] right post m)) (but_last (closed x ++ []))
                    (right ++ opened post))
                (sym e2)
                (edit-Shows (delete_backward (at (above ++ (prev ∷ [])) [] right post m)) _ _ above
                  prev right post true (back_line-at above prev right post m)
                  (but_last-append (closed above) prev newline
                    ∙ ap but_last (
                        sym (closed-snoc above prev)
                        ∙ sym (append-nil (closed (above ++ (prev ∷ []))))))
                  refl)
          | inl e2 ↦
              subst
                (λ x.
                  Shows (delete_backward (at x [] right post m)) (but_last (closed x ++ []))
                    (right ++ opened post))
                (sym e2)
                (at-Shows (delete_backward (at [] [] right post m)) [] [] right post m
                  (back_none-at right post m))
        ])
]

-- Deleting backward in a valid buffer takes the last byte before the cursor off, a newline included, and
-- nothing at the start of the text: the text from the cursor on stays.
pub delete_backward_refines :
    (b : Buffer) → IsValid b → Shows (delete_backward b) (but_last (before b)) (after b)
delete_backward_refines =
    by_place (λ b. Shows (delete_backward b) (but_last (before b)) (after b))
      (λ pre left right post m.
        Shows-as (delete_backward (at pre left right post m)) (back-at pre left right post m)
          (ap but_last (sym (before-at pre left right post m)))
          (sym (after-at pre left right post m)))
