-- ===== src/Editor/Buffer/Files.antt =====
-- Loading and saving (src/user/cmd/edit/buffer.go) against each other.
use gooos.Common.{
  ℕ, ◌+◌, ◌<◌, ◌≡◌, refl, sym, ap, ap₂, ◌∙◌, Bool, true, not, ◌&&◌, ◌==◌, arith, List, [], ◌∷◌,
  ◌++◌, some, length, length-append, append_assoc, append-nil, Bool-cases, inl, inr, ==_iff,
}
use gooos.Editor.Buffer.{Buffer, newline, load_loop, load_file, save_loop, save_total, save_file}
use gooos.Editor.Buffer.Place.{IsValid, closed}

-- the bytes of several writes, one after the other
unfoldable pub joined : List (List ℕ) → List ℕ
joined [] = []
joined (x ∷ xs) = x ++ joined xs

-- no byte of a line is a newline
unfoldable pub one_line : List ℕ → Bool
one_line [] = true
one_line (x ∷ xs) = not (x == newline) && one_line xs

unfoldable pub all_one_line : List (List ℕ) → Bool
all_one_line [] = true
all_one_line (l ∷ ls) = one_line l && all_one_line ls

-- what is written is each line with a newline behind it
pub joined-save_loop :
    (l : List ℕ) (ls : List (List ℕ))
    → joined (save_loop (l ∷ ls) ++ ((newline ∷ []) ∷ [])) ≡ closed (l ∷ ls)
unfolding joined save_loop closed
joined-save_loop l [] = refl
joined-save_loop l (m ∷ ls) = ap (λ r. l ++ (newline ∷ r)) (joined-save_loop m ls)

pub save_total-length :
    (l : List ℕ) (ls : List (List ℕ)) → save_total length (l ∷ ls) + 1 ≡ length (closed (l ∷ ls))
unfolding save_total closed
save_total-length l [] = omega (arith, length-append l (newline ∷ []))
save_total-length l (m ∷ ls) =
    omega (arith, save_total-length m ls, length-append l (newline ∷ closed (m ∷ ls)))

-- loading never gives no lines
pub load_loop_cons :
    (line xs : List ℕ) → (l : List ℕ) × (ls : List (List ℕ)) × (load_loop line xs ≡ l ∷ ls)
unfolding load_loop
load_loop_cons line [] = (line, [], refl)
load_loop_cons line (x ∷ xs) = elim (Bool-cases (x == newline)) [
  | inl at_end ↦ (line, load_loop [] xs, rw at_end refl)
  | inr inside ↦ let (l, ls, e) = load_loop_cons (line ++ (x ∷ [])) xs in (l, ls, rw inside e)
]

closed-load_loop : (line xs : List ℕ) → closed (load_loop line xs) ≡ line ++ (xs ++ (newline ∷ []))
unfolding closed load_loop
closed-load_loop line [] = refl
closed-load_loop line (x ∷ xs) = elim (Bool-cases (x == newline)) [
  | inl at_end ↦
      let e : newline ≡ x = sym ((==_iff x newline).0 at_end) in
      rw at_end (ap₂ (λ c r. line ++ (c ∷ r)) e (closed-load_loop [] xs))
  | inr inside ↦
      rw inside
        (closed-load_loop (line ++ (x ∷ [])) xs ∙ append_assoc line (x ∷ []) (xs ++ (newline ∷ [])))
]

load_loop-append :
    (line l rest : List ℕ)
    → one_line l ≡ true
    → load_loop line (l ++ (newline ∷ rest)) ≡ (line ++ l) ∷ load_loop [] rest
unfolding load_loop one_line
load_loop-append line [] rest h = ap (λ r. r ∷ load_loop [] rest) (sym (append-nil line))
load_loop-append line (x ∷ l) rest h = elim (Bool-cases (x == newline)) [
  | inl at_end ↦ absurd (ground (arith, h, at_end))
  | inr inside ↦
      let rest_one : one_line l ≡ true = ground (arith, h, inside) in
      rw inside (
        load_loop-append (line ++ (x ∷ [])) l rest rest_one
        ∙ ap (λ r. r ∷ load_loop [] rest) (append_assoc line (x ∷ []) l))
]

load_loop-closed :
    (ls : List (List ℕ)) → all_one_line ls ≡ true → load_loop [] (closed ls) ≡ ls ++ ([] ∷ [])
unfolding closed load_loop all_one_line
load_loop-closed [] h = refl
load_loop-closed (l ∷ ls) h = elim (Bool-cases (one_line l)) [
  | inl one ↦
      load_loop-append [] l (closed ls) one
      ∙ ap (λ r. l ∷ r) (load_loop-closed ls (ground (arith, h, one)))
  | inr many ↦ absurd (ground (arith, h, many))
]

-- Saving what was loaded from a file, when the file opens and every write is complete, writes the bytes
-- of the file with one newline more, and reports their number.
pub save-load :
    (xs : List ℕ)
    → let (b', writes, total, ok) = save_file true length (load_file (some xs)) in
      (joined writes ≡ xs ++ (newline ∷ []))
      × (total ≡ length xs + 1)
      × (ok ≡ true)
      × (b'.lines ≡ (load_file (some xs)).lines)
unfolding save_file load_file
save-load xs =
    let (l, ls, e) = load_loop_cons [] xs in
    let bytes : closed (l ∷ ls) ≡ xs ++ (newline ∷ []) =
      ap closed (sym e) ∙ closed-load_loop [] xs in
    let total = save_total-length l ls in
    (
      ap (λ x. joined (save_loop x ++ ((newline ∷ []) ∷ []))) e ∙ joined-save_loop l ls ∙ bytes,
      ap (λ x. save_total length x + 1) e
          ∙ total
          ∙ ap length bytes
          ∙ length-append xs (newline ∷ []),
      refl,
      refl,
    )

-- Loading what a valid buffer wrote, none of whose lines holds a newline, gives its lines with an empty
-- one more at the end.
pub load-save :
    (b : Buffer)
    → IsValid b
    → all_one_line b.lines ≡ true
    → let (b', writes, total, ok) = save_file true length b in
      (load_file (some (joined writes))).lines ≡ b.lines ++ ([] ∷ [])
unfolding save_file load_file
load-save b v h =
    let written = cons_case b.lines (omega (arith, v.row)) in
    ap (load_loop []) written ∙ load_loop-closed b.lines h
  where
    cons_case :
        (ls : List (List ℕ))
        → 0 < length ls
        → joined (save_loop ls ++ ((newline ∷ []) ∷ [])) ≡ closed ls
    cons_case [] p = absurd (omega arith)
    cons_case (l ∷ ls) p = joined-save_loop l ls
