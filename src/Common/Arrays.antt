-- ===== src/Common/Arrays.antt =====
-- Go's zero-initialised arrays of a fixed size, as functions of the index. A module that uses one
-- says which indices the code reaches.
use Prim.Native.Nat.{ℕ, zero, suc, ◌+◌, ◌≤◌, ◌<◌}
use mathlib.Core.Path.{◌≡◌, refl, ◌∙◌, ap, ap₂}
use mathlib.Core.Logic.{◌≢◌}
use mathlib.Core.List.{List, [], ◌∷◌, ◌++◌}
use native.Mathlib.Omega.{arith}
use native.Mathlib.Nat.{add-zero, zero-add, suc-add}
use gooos.Common.Tests.{◌==◌, if◌then◌else◌}
use gooos.Common.Lists.{length}

abbrev pub Array {ℓ} : Type ℓ → Type ℓ
Array A = ℕ → A

module _ {ℓ} {A : Type ℓ} where
  abbrev pub update : Array A → ℕ → A → Array A
  update f i v j = if i == j then v else f j

  -- `for j := 0; j < len(src); j++ { a[off+j] = src[j] }`
  abbrev pub copy_in : Array A → ℕ → List A → Array A
  copy_in f off [] = f
  copy_in f off (x ∷ xs) = copy_in (update f off x) (off + 1) xs

  -- `for j := 0; j < n; j++ { dst[j] = a[off+j] }`
  abbrev pub slice : Array A → ℕ → ℕ → List A
  slice f off zero = []
  slice f off (suc n) = f off ∷ slice f (off + 1) n

module _ {ℓ} {A : Type ℓ} where
  pub update_self : (f : Array A) (i : ℕ) (v : A) → update f i v i ≡ v
  update_self f i v = ground arith

  pub update_ne : (f : Array A) (i j : ℕ) (v : A) → i ≢ j → update f i v j ≡ f j
  update_ne f i j v h = ground arith

  pub length-slice : (f : Array A) (off n : ℕ) → length (slice f off n) ≡ n
  length-slice f off zero = refl
  length-slice f off (suc n) = ap suc (length-slice f (off + 1) n)

  -- Copying leaves what lies below the offset.
  pub copy_in_below : (f : Array A) (off j : ℕ) (xs : List A) → j < off → copy_in f off xs j ≡ f j
  copy_in_below f off j [] h = refl
  copy_in_below f off j (x ∷ xs) h =
      ground (arith, copy_in_below (update f off x) (off + 1) j xs, update_ne f off j x)

  pub slice-copy_in_below :
      (f : Array A) (off n a : ℕ) (xs : List A)
      → a + n ≤ off
      → slice (copy_in f off xs) a n ≡ slice f a n
  slice-copy_in_below f off zero a xs h = refl
  slice-copy_in_below f off (suc n) a xs h =
      ap₂ ◌∷◌ (copy_in_below f off a xs (omega arith))
        (slice-copy_in_below f off n (a + 1) xs (omega arith))

  -- What was copied in is read back.
  pub slice-copy_in :
      (f : Array A) (off : ℕ) (xs : List A) → slice (copy_in f off xs) off (length xs) ≡ xs
  slice-copy_in f off [] = refl
  slice-copy_in f off (x ∷ xs) =
      ap₂ ◌∷◌ (ground (arith, copy_in_below (update f off x) (off + 1) off xs, update_self f off x))
        (slice-copy_in (update f off x) (off + 1) xs)

  pub slice-add : (f : Array A) (a m n : ℕ) → slice f a (m + n) ≡ slice f a m ++ slice f (a + m) n
  slice-add f a zero n = rw (add-zero, zero-add)
  slice-add f a (suc m) n = rw suc-add (ap (λ r. f a ∷ r) (slice-add f (a + 1) m n ∙ shift))
    where
      shift :
          slice f (a + 1) m ++ slice f (a + 1 + m) n ≡ slice f (a + 1) m ++ slice f (a + suc m) n
      shift = ap (λ k. slice f (a + 1) m ++ slice f k n) (omega arith)
