-- ===== src/Editor/Buffer/Place.antt =====
-- A buffer of src/user/cmd/edit/buffer.go taken apart at its cursor.
use gooos.Common.{
  ℕ, zero, suc, ◌+◌, ◌≤◌, ◌<◌, ◌≡◌, refl, sym, ap, ap₂, ◌∙◌, Bool, arith, subst, List, [], ◌∷◌,
  ◌++◌, length, get_or, set, take, drop, length-append, take-length-append, drop-length-append,
  length-take, take-append-drop,
}
use native.Mathlib.Nat.{suc-add}
use gooos.Editor.Buffer.{Buffer, newline, line}

-- the cursor is on a line, and not behind the end of it
pub record IsValid (b : Buffer) : Type 0 where
  pub row : b.cy < length b.lines
  pub column : b.cx ≤ length (line b)

-- the lines `pre`, the line with the cursor between `left` and `right`, the lines `post`
abbrev pub at : List (List ℕ) → List ℕ → List ℕ → List (List ℕ) → Bool → Buffer
at pre left right post m = record {
  lines = pre ++ ((left ++ right) ∷ post);
  cx = length left;
  cy = length pre;
  modified = m;
}

-- lines, each with a newline behind it
unfoldable pub closed : List (List ℕ) → List ℕ
closed [] = []
closed (l ∷ ls) = l ++ (newline ∷ closed ls)

-- lines, each with a newline before it
unfoldable pub opened : List (List ℕ) → List ℕ
opened [] = []
opened (l ∷ ls) = newline ∷ (l ++ opened ls)

-- the text before the cursor, and the text from the cursor on
unfoldable pub before : Buffer → List ℕ
before b = closed (take b.cy b.lines) ++ take b.cx (line b)

unfoldable pub after : Buffer → List ℕ
after b = drop b.cx (line b) ++ opened (drop (b.cy + 1) b.lines)

module _ {ℓ} {A : Type ℓ} where
  pub get_or_at :
      (pre : List A) (x : A) (post : List A) (d : A) → get_or (pre ++ (x ∷ post)) (length pre) d ≡ x
  get_or_at [] x post d = refl
  get_or_at (y ∷ pre) x post d = get_or_at pre x post d

  pub set_at :
      (pre : List A) (x : A) (post : List A) (v : A)
      → set (pre ++ (x ∷ post)) (length pre) v ≡ pre ++ (v ∷ post)
  set_at [] x post v = refl
  set_at (y ∷ pre) x post v = ap (λ r. y ∷ r) (set_at pre x post v)

  pub drop_at :
      (pre : List A) (x : A) (post : List A) → drop (length pre + 1) (pre ++ (x ∷ post)) ≡ post
  drop_at [] x post = refl
  drop_at (y ∷ pre) x post = rw suc-add (drop_at pre x post)

  pub take_at :
      (pre : List A) (x : A) (post : List A)
      → take (length pre + 1) (pre ++ (x ∷ post)) ≡ pre ++ (x ∷ [])
  take_at [] x post = refl
  take_at (y ∷ pre) x post = rw suc-add (ap (λ r. y ∷ r) (take_at pre x post))

  pub split_at :
      (n : ℕ) (xs : List A) (d : A)
      → n < length xs
      → xs ≡ take n xs ++ (get_or xs n d ∷ drop (n + 1) xs)
  split_at zero [] d h = absurd (omega arith)
  split_at zero (x ∷ xs) d h = refl
  split_at (suc n) [] d h = absurd (omega arith)
  split_at (suc n) (x ∷ xs) d h = rw suc-add (ap (λ r. x ∷ r) (split_at n xs d (omega arith)))

-- the line of the cursor
pub line-at :
    (pre : List (List ℕ)) (left right : List ℕ) (post : List (List ℕ)) (m : Bool)
    → line (at pre left right post m) ≡ left ++ right
line-at pre left right post m = get_or_at pre (left ++ right) post []

pub before-at :
    (pre : List (List ℕ)) (left right : List ℕ) (post : List (List ℕ)) (m : Bool)
    → before (at pre left right post m) ≡ closed pre ++ left
unfolding before
before-at pre left right post m =
    ap₂ (λ p q. closed p ++ q) (take-length-append pre ((left ++ right) ∷ post))
      (ap (take (length left)) (line-at pre left right post m) ∙ take-length-append left right)

pub after-at :
    (pre : List (List ℕ)) (left right : List ℕ) (post : List (List ℕ)) (m : Bool)
    → after (at pre left right post m) ≡ right ++ opened post
unfolding after
after-at pre left right post m =
    ap₂ (λ p q. p ++ opened q)
      (ap (drop (length left)) (line-at pre left right post m) ∙ drop-length-append left right)
      (drop_at pre (left ++ right) post)

pub at-IsValid :
    (pre : List (List ℕ)) (left right : List ℕ) (post : List (List ℕ)) (m : Bool)
    → IsValid (at pre left right post m)
at-IsValid pre left right post m = record {
  row = omega (arith, length-append pre ((left ++ right) ∷ post));
  column = omega (arith, length-append left right, ap length (line-at pre left right post m));
}

-- every valid buffer is of that form
pub valid_at :
    (b : Buffer)
    → IsValid b
    → b
      ≡ at
          (take b.cy b.lines)
          (take b.cx (line b))
          (drop b.cx (line b))
          (drop (b.cy + 1) b.lines)
          b.modified
valid_at b v =
    let whole = split_at b.cy b.lines [] v.row in
    let here = take-append-drop b.cx (line b) in
    let lines = whole ∙ ap (λ l. take b.cy b.lines ++ (l ∷ drop (b.cy + 1) b.lines)) (sym here) in
    let cx : b.cx ≡ length (take b.cx (line b)) =
      omega (arith, length-take b.cx (line b), v.column) in
    let cy : b.cy ≡ length (take b.cy b.lines) = omega (arith, length-take b.cy b.lines, v.row) in
    λ i. record { lines = lines i; cx = cx i; cy = cy i; modified = b.modified }

-- what holds of every buffer taken apart holds of every valid one
pub by_place {ℓ} :
    (P : Buffer → Type ℓ)
    → ((pre : List (List ℕ)) (left right : List ℕ) (post : List (List ℕ)) (m : Bool)
        → P (at pre left right post m))
    → (b : Buffer) → IsValid b
    → P b
by_place P all b v = subst P (sym (valid_at b v)) (
    all (take b.cy b.lines) (take b.cx (line b)) (drop b.cx (line b)) (drop (b.cy + 1) b.lines)
      b.modified)
