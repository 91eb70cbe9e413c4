-- ===== src/Editor/Buffer/Edits.antt =====
-- The edits of src/user/cmd/edit/buffer.go at the cursor, against a text with a place in it.
use gooos.Common.{
  ℕ, ◌+◌, ◌≡◌, refl, sym, ap, ap₂, ◌∙◌, Bool, true, arith, subst, List, [], ◌∷◌, ◌++◌, length, set,
  take, drop, length-append, take-length-append, drop-length-append, append-nil, append_assoc,
}
use gooos.Editor.Buffer.{Buffer, newline, insert_char, insert_newline}
use gooos.Editor.Buffer.Place.{
  IsValid, at, closed, opened, before, after, before-at, after-at, at-IsValid, by_place, line-at,
  set_at, take_at, drop_at,
}

-- `b` is well formed, with the text `x` before the cursor and `y` after it
pub record Shows (b : Buffer) (x y : List ℕ) : Type 0 where
  pub valid : IsValid b
  pub to_cursor : before b ≡ x
  pub from_cursor : after b ≡ y

pub at-Shows :
    (b : Buffer) (pre : List (List ℕ)) (left right : List ℕ) (post : List (List ℕ)) (m : Bool)
    → b ≡ at pre left right post m
    → Shows b (closed pre ++ left) (right ++ opened post)
at-Shows b pre left right post m e =
    subst (λ x. Shows x (closed pre ++ left) (right ++ opened post)) (sym e)
      (record {
        valid = at-IsValid pre left right post m;
        to_cursor = before-at pre left right post m;
        from_cursor = after-at pre left right post m;
      })

-- what an edit makes of a buffer taken apart, against what it makes of the text
pub edit-Shows :
    (b : Buffer) (x y : List ℕ)
    → (pre : List (List ℕ)) (left right : List ℕ) (post : List (List ℕ)) (m : Bool)
    → b ≡ at pre left right post m
    → closed pre ++ left ≡ x
    → right ++ opened post ≡ y
    → Shows b x y
edit-Shows b x y pre left right post m e p q =
    let s = at-Shows b pre left right post m e in
    record { valid = s.valid; to_cursor = s.to_cursor ∙ p; from_cursor = s.from_cursor ∙ q }

pub Shows-as : (b : Buffer) {x y x' y' : List ℕ} → Shows b x y → x ≡ x' → y ≡ y' → Shows b x' y'
Shows-as b s p q = record {
  valid = s.valid;
  to_cursor = s.to_cursor ∙ p;
  from_cursor = s.from_cursor ∙ q;
}

pub buffer_eq :
    (lines : List (List ℕ)) (cx cy : ℕ) (m : Bool)
    → (pre : List (List ℕ)) (left right : List ℕ) (post : List (List ℕ))
    → lines ≡ pre ++ ((left ++ right) ∷ post)
    → cx ≡ length left
    → cy ≡ length pre
    → let b : Buffer = record { lines = lines; cx = cx; cy = cy; modified = m } in
      b ≡ at pre left right post m
buffer_eq lines cx cy m pre left right post l x y =
    λ i. record { lines = l i; cx = x i; cy = y i; modified = m }

pub closed-snoc :
    (pre : List (List ℕ)) (l : List ℕ)
    → closed (pre ++ (l ∷ [])) ≡ closed pre ++ (l ++ (newline ∷ []))
unfolding closed
closed-snoc [] l = refl
closed-snoc (p ∷ pre) l =
    ap (λ r. p ++ (newline ∷ r)) (closed-snoc pre l)
    ∙ sym (append_assoc p (newline ∷ closed pre) (l ++ (newline ∷ [])))

insert_char-at :
    (c : ℕ) (pre : List (List ℕ)) (left right : List ℕ) (post : List (List ℕ)) (m : Bool)
    → insert_char c (at pre left right post m) ≡ at pre (left ++ (c ∷ [])) right post true
unfolding insert_char
insert_char-at c pre left right post m =
    let old = line-at pre left right post m in
    let new_line =
      ap₂ (λ a z. a ++ (c ∷ z)) (ap (take (length left)) old ∙ take-length-append left right)
        (ap (drop (length left)) old ∙ drop-length-append left right)
      ∙ sym (append_assoc left (c ∷ []) right) in
    buffer_eq _ (length left + 1) (length pre) true pre (left ++ (c ∷ [])) right post
      (ap (set (pre ++ ((left ++ right) ∷ post)) (length pre)) new_line
        ∙ set_at pre (left ++ right) post ((left ++ (c ∷ [])) ++ right))
      (omega (arith, length-append left (c ∷ []))) refl

insert_newline-at :
    (pre : List (List ℕ)) (left right : List ℕ) (post : List (List ℕ)) (m : Bool)
    → insert_newline (at pre left right post m) ≡ at (pre ++ (left ∷ [])) [] right post true
unfolding insert_newline
insert_newline-at pre left right post m =
    let old = line-at pre left right post m in
    let head = ap (take (length left)) old ∙ take-length-append left right in
    let tail = ap (drop (length left)) old ∙ drop-length-append left right in
    let cut =
      ap (set (pre ++ ((left ++ right) ∷ post)) (length pre)) head
      ∙ set_at pre (left ++ right) post left in
    buffer_eq _ 0 (length pre + 1) true (pre ++ (left ∷ [])) [] right post
      (ap₂ ◌++◌ (ap (take (length pre + 1)) cut ∙ take_at pre left post)
        (ap₂ ◌∷◌ tail (ap (drop (length pre + 1)) cut ∙ drop_at pre left post)))
      refl (omega (arith, length-append pre (left ∷ [])))

-- Typing a byte into a valid buffer puts it before the cursor: the text from the cursor on stays.
pub insert_char_refines :
    (c : ℕ) (b : Buffer) → IsValid b → Shows (insert_char c b) (before b ++ (c ∷ [])) (after b)
insert_char_refines c =
    by_place (λ b. Shows (insert_char c b) (before b ++ (c ∷ [])) (after b))
      (λ pre left right post m.
        edit-Shows (insert_char c (at pre left right post m)) _ _ pre (left ++ (c ∷ [])) right post
          true (insert_char-at c pre left right post m)
          (sym (append_assoc (closed pre) left (c ∷ []))
            ∙ ap (λ r. r ++ (c ∷ [])) (sym (before-at pre left right post m)))
          (sym (after-at pre left right post m)))

-- The return key puts a newline before the cursor of a valid buffer: the text from the cursor on stays.
pub insert_newline_refines :
    (b : Buffer) → IsValid b → Shows (insert_newline b) (before b ++ (newline ∷ [])) (after b)
insert_newline_refines =
    by_place (λ b. Shows (insert_newline b) (before b ++ (newline ∷ [])) (after b))
      (λ pre left right post m.
        edit-Shows (insert_newline (at pre left right post m)) _ _ (pre ++ (left ∷ [])) [] right
          post true (insert_newline-at pre left right post m)
          (append-nil (closed (pre ++ (left ∷ [])))
            ∙ closed-snoc pre left
            ∙ sym (append_assoc (closed pre) left (newline ∷ []))
            ∙ ap (λ r. r ++ (newline ∷ [])) (sym (before-at pre left right post m)))
          (sym (after-at pre left right post m)))
