-- ===== src/Common/Rings.antt =====
-- A bounded ring over an array: the entries that it holds, read from the index of the oldest.
-- Counters may run past the size: only their remainder is an index.
use Prim.Native.Nat.{ℕ, zero, suc, ◌+◌, ◌-◌, ◌%◌, ◌≤◌, ◌<◌}
use mathlib.Core.Path.{◌≡◌, refl, sym, ◌∙◌, ap, ap₂}
use mathlib.Core.Logic.{◌≢◌}
use mathlib.Core.List.{List, [], ◌∷◌, ◌++◌}
use native.Mathlib.Nat.{
  mod-add-mod, mod-eq_of_lt, mod-eq-sub-mod, mod-lt, add-zero, add_assoc, add_comm,
}
use native.Mathlib.Numerals.{add-one}
use native.Mathlib.Decide.{dec_lt}
use native.Mathlib.Omega.{arith}
use gooos.Common.Lists.{length, take, drop}
use gooos.Common.Arrays.{Array, update, update_self, update_ne}

module _ {ℓ} {A : Type ℓ} where
  -- the `n` entries from the counter `h` on, in a ring of `m` slots
  abbrev pub view : Array A → ℕ → ℕ → ℕ → List A
  view f m h zero = []
  view f m h (suc n) = f (h % m) ∷ view f m (h + 1) n

module _ {ℓ} {A : Type ℓ} where
  pub length-view : (f : Array A) (m h n : ℕ) → length (view f m h n) ≡ n
  length-view f m h zero = refl
  length-view f m h (suc n) = ap suc (length-view f m (h + 1) n)

  -- Counters with the same remainder see the same entries.
  pub view_mod : (f : Array A) (m h k n : ℕ) → h % m ≡ k % m → view f m h n ≡ view f m k n
  view_mod f m h k zero e = refl
  view_mod f m h k (suc n) e = ap₂ ◌∷◌ (ap f e) (
      view_mod f m (h + 1) (k + 1) n
        (sym (mod-add-mod h m 1) ∙ ap (λ r. (r + 1) % m) e ∙ mod-add-mod k m 1))

-- Fewer than `m` steps round the ring do not come back to the start.
below-mod-ne : (m r k : ℕ) → r < m → suc k < m → (r + suc k) % m ≢ r
below-mod-ne m r k hr hk = elim (dec_lt (r + suc k) m) [
  | yes p ↦ omega (arith, mod-eq_of_lt p)
  | no p ↦ omega (
    arith,
    mod-eq-sub-mod {n = r + suc k} {m = m} (omega arith),
    mod-eq_of_lt {n = r + suc k - m} {m = m} (omega arith),
  )
]

pub add-mod-ne : (m h k : ℕ) → suc k < m → (h + suc k) % m ≢ h % m
add-mod-ne m h k hk e =
    below-mod-ne m (h % m) k (mod-lt h (omega arith)) hk (mod-add-mod h m (suc k) ∙ e)

module _ {ℓ} {A : Type ℓ} where
  -- A write that no slot of the view stands at is not seen.
  pub view-update_out :
      (f : Array A) (m h n i : ℕ) (x : A)
      → ((k : ℕ) → k < n → i ≢ (h + k) % m)
      → view (update f i x) m h n ≡ view f m h n
  view-update_out f m h zero i x out = refl
  view-update_out f m h (suc n) i x out =
      ap₂ ◌∷◌ (update_ne f i (h % m) x (rw add-zero at (out 0 (omega arith)))) (
        view-update_out f m (h + 1) n i x
          (λ k hk. rw (add_assoc h 1 k, add_comm 1 k, add-one) (out (suc k) (omega arith))))

  -- Writing just past the view extends it by what was written.
  pub view-update_end :
      (f : Array A) (m h n i : ℕ) (x : A)
      → n < m
      → i ≡ (h + n) % m
      → view (update f i x) m h (suc n) ≡ view f m h n ++ (x ∷ [])
  view-update_end f m h zero i x hn e =
      ap (λ a. a ∷ []) (ground (arith, add-zero h, update_self f i x))
  view-update_end f m h (suc n) i x hn e =
      ap₂ ◌∷◌ (update_ne f i (h % m) x (rw e (add-mod-ne m h n hn)))
        (view-update_end f m (h + 1) n i x (omega arith) (e ∙ ap (λ k. k % m) (omega arith)))

  -- Clearing the slot of the oldest entry leaves the rest.
  pub view-update_head :
      (f : Array A) (m h n : ℕ) (x : A)
      → n < m
      → view (update f (h % m) x) m (h + 1) n ≡ view f m (h + 1) n
  view-update_head f m h n x hn =
      view-update_out f m (h + 1) n (h % m) x
        (λ k hk e. add-mod-ne m h k (omega arith) (ap (λ j. j % m) (omega arith) ∙ sym e))

module _ {ℓ} {A : Type ℓ} where
  pub take-view : (f : Array A) (m h c n : ℕ) → n ≤ c → take n (view f m h c) ≡ view f m h n
  take-view f m h c zero e = refl
  take-view f m h zero (suc n) e = absurd (omega arith)
  take-view f m h (suc c) (suc n) e =
      ap (λ xs. f (h % m) ∷ xs) (take-view f m (h + 1) c n (omega arith))

  pub drop-view :
      (f : Array A) (m h c n : ℕ) → n ≤ c → drop n (view f m h c) ≡ view f m (h + n) (c - n)
  drop-view f m h c zero e = ap₂ (λ k d. view f m k d) {y = h + zero} (omega arith) (omega arith)
  drop-view f m h zero (suc n) e = absurd (omega arith)
  drop-view f m h (suc c) (suc n) e =
      drop-view f m (h + 1) c n (omega arith)
      ∙ ap₂ (λ k d. view f m k d) {y = h + suc n} (omega arith) (omega arith)
