-- ===== src/Fs/Lookup.antt =====
-- The table of entries read as a lookup, and what the two scanning loops do to it.
use gooos.Common.{
  ℕ, suc, ◌+◌, ◌≤◌, ◌≡◌, refl, Bool, true, false, Option, none, some, List, [], ◌∷◌, ◌==◌,
  if◌then◌else◌, length, slice, arith,
}
use Prim.Native.String.{String}
use text.Mathlib.TextEquality.{eq_iff}
use gooos.Fs.{FileEntry, max_file_data, holds, on_file, claim, exists}
use gooos.Fs.Store.{is_some, put}

unfoldable pub content : FileEntry → List ℕ
content f = slice f.bytes 0 f.size

unfoldable pub lookup : String → List FileEntry → Option (List ℕ)
lookup name [] = none
lookup name (f ∷ fs) = if holds name f then some (content f) else lookup name fs

unfoldable pub count_free : List FileEntry → ℕ
count_free [] = 0
count_free (f ∷ fs) = if f.used then count_free fs else suc (count_free fs)

-- Two used entries never share a name, and no size passes the data array.

abbrev pub Unique : List FileEntry → Type 0
Unique [] = Unit {0}
Unique (f ∷ fs) = (f.used ≡ true → lookup f.name fs ≡ none) × Unique fs

abbrev pub Sized : List FileEntry → Type 0
Sized [] = Unit {0}
Sized (f ∷ fs) = (f.size ≤ max_file_data) × Sized fs

abbrev pub over {ℓ} : {A : Type ℓ} → A → (List ℕ → A) → Option (List ℕ) → A
over d g none = d
over d g (some c) = g c

pub exists-eq-lookup : (n : String) (fs : List FileEntry) → exists n fs ≡ is_some (lookup n fs)
unfolding exists lookup
exists-eq-lookup n [] = refl
exists-eq-lookup n (f ∷ fs) = ground (arith, exists-eq-lookup n fs)

-- A body that leaves name and use alone, and whose effect on the content is `c` and `res`.
pub record Edits {ℓ} {R : Type ℓ} (c : List ℕ → List ℕ) (res : List ℕ → R) (f g : FileEntry) (r : R)
    : Type ℓ where
  pub name_kept : g.name ≡ f.name
  pub used_kept : g.used ≡ f.used
  pub edited : content g ≡ c (content f)
  pub result : r ≡ res (content f)
  pub bounded : g.size ≤ max_file_data

module _ {ℓ} {R : Type ℓ} (n : String) (r : R) (body : FileEntry → FileEntry × R)
    (c : List ℕ → List ℕ) (res : List ℕ → R)
    (edits : (f : FileEntry) → f.size ≤ max_file_data → Edits c res f (body f).0 (body f).1) where
  pub on_file_result :
      (fs : List FileEntry) → Sized fs → (on_file n r body fs).1 ≡ over r res (lookup n fs)
  unfolding on_file lookup
  on_file_result [] s = refl
  on_file_result (f ∷ fs) s = ground (arith, on_file_result fs s.1, edits f s.0)

  pub lookup-on_file :
      (m : String) (fs : List FileEntry)
      → Sized fs
      → lookup m (on_file n r body fs).0
        ≡ put n (over none (λ old. some (c old)) (lookup n fs)) (λ k. lookup k fs) m
  unfolding on_file lookup
  lookup-on_file m [] s = ground arith
  lookup-on_file m (f ∷ fs) s =
      ground
        (arith, lookup-on_file m fs s.1, edits f s.0, eq_iff n m, eq_iff f.name n, eq_iff f.name m)

  pub on_file-Sized : (fs : List FileEntry) → Sized fs → Sized (on_file n r body fs).0
  unfolding on_file
  on_file-Sized [] s = tt
  on_file-Sized (f ∷ fs) s = ground (arith, on_file-Sized fs s.1, edits f s.0)

  pub count_free-on_file :
      (fs : List FileEntry) → Sized fs → count_free (on_file n r body fs).0 ≡ count_free fs
  unfolding on_file count_free
  count_free-on_file [] s = refl
  count_free-on_file (f ∷ fs) s = ground (arith, count_free-on_file fs s.1, edits f s.0)

  pub on_file-Unique : (fs : List FileEntry) → Sized fs → Unique fs → Unique (on_file n r body fs).0
  unfolding on_file
  on_file-Unique [] s u = tt
  on_file-Unique (f ∷ fs) s u =
      ground (
        arith,
        on_file-Unique fs s.1 u.1,
        edits f s.0,
        lookup-on_file f.name fs s.1,
        eq_iff n f.name,
      )

-- The first slot that is free takes the name, with no content; the others stay.
module _ (n : String) where
  pub claim_result :
      (fs : List FileEntry) → (claim n fs).1 ≡ (if count_free fs == 0 then false else true)
  unfolding claim count_free
  claim_result [] = refl
  claim_result (f ∷ fs) = ground (arith, claim_result fs)

  pub claim_full : (fs : List FileEntry) → (claim n fs).1 ≡ false → (claim n fs).0 ≡ fs
  unfolding claim
  claim_full [] e = refl
  claim_full (f ∷ fs) e = ground (arith, claim_full fs)

  pub lookup-claim :
      (m : String) (fs : List FileEntry)
      → lookup n fs ≡ none
      → (claim n fs).1 ≡ true
      → lookup m (claim n fs).0 ≡ put n (some []) (λ k. lookup k fs) m
  unfolding claim lookup content
  lookup-claim m [] e ok = cc
  lookup-claim m (f ∷ fs) e ok =
      ground (arith, lookup-claim m fs, eq_iff n m, eq_iff f.name n, eq_iff f.name m)

  pub claim-Sized : (fs : List FileEntry) → Sized fs → Sized (claim n fs).0
  unfolding claim
  claim-Sized [] s = tt
  claim-Sized (f ∷ fs) s = ground (arith, claim-Sized fs s.1)

  pub count_free-claim :
      (fs : List FileEntry) → (claim n fs).1 ≡ true → count_free (claim n fs).0 + 1 ≡ count_free fs
  unfolding claim count_free
  count_free-claim [] ok = cc
  count_free-claim (f ∷ fs) ok = ground (arith, count_free-claim fs)

  pub claim-Unique :
      (fs : List FileEntry)
      → lookup n fs ≡ none
      → (claim n fs).1 ≡ true
      → Unique fs
      → Unique (claim n fs).0
  unfolding claim lookup
  claim-Unique [] e ok u = tt
  claim-Unique (f ∷ fs) e ok u =
      ground (arith, claim-Unique fs, lookup-claim f.name fs, eq_iff n f.name, eq_iff f.name n)

  -- Deletion: the entry that held the name holds none, and no other does.
  pub lookup-clear :
      (r : Bool) (body : FileEntry → FileEntry × Bool)
      → ((f : FileEntry) → (body f).0.used ≡ false)
      → (m : String) (fs : List FileEntry) → Unique fs
      → lookup m (on_file n r body fs).0 ≡ put n none (λ k. lookup k fs) m
  unfolding on_file lookup
  lookup-clear r body off m [] u = ground arith
  lookup-clear r body off m (f ∷ fs) u =
      ground (
        arith,
        lookup-clear r body off m fs u.1,
        off f,
        eq_iff n m,
        eq_iff f.name n,
        eq_iff f.name m,
      )

  pub count_free-clear :
      (r : Bool) (body : FileEntry → FileEntry × Bool)
      → ((f : FileEntry) → (body f).0.used ≡ false)
      → (fs : List FileEntry)
      → count_free (on_file n r body fs).0
        ≡ (if is_some (lookup n fs) then count_free fs + 1 else count_free fs)
  unfolding on_file lookup count_free
  count_free-clear r body off [] = refl
  count_free-clear r body off (f ∷ fs) = ground (arith, count_free-clear r body off fs, off f)

  pub clear_result :
      (body : FileEntry → FileEntry × Bool)
      → ((f : FileEntry) → (body f).1 ≡ true)
      → (fs : List FileEntry) → (on_file n false body fs).1 ≡ is_some (lookup n fs)
  unfolding on_file lookup
  clear_result body ok [] = refl
  clear_result body ok (f ∷ fs) = ground (arith, clear_result body ok fs, ok f)

  pub clear-Sized :
      (r : Bool) (body : FileEntry → FileEntry × Bool)
      → ((f : FileEntry) → (body f).0.size ≡ 0)
      → (fs : List FileEntry) → Sized fs
      → Sized (on_file n r body fs).0
  unfolding on_file
  clear-Sized r body z [] s = tt
  clear-Sized r body z (f ∷ fs) s = ground (arith, clear-Sized r body z fs s.1, z f)

  pub clear-Unique :
      (r : Bool) (body : FileEntry → FileEntry × Bool)
      → ((f : FileEntry) → (body f).0.used ≡ false)
      → (fs : List FileEntry) → Unique fs
      → Unique (on_file n r body fs).0
  unfolding on_file
  clear-Unique r body off [] u = tt
  clear-Unique r body off (f ∷ fs) u =
      ground (arith, clear-Unique r body off fs u.1, off f, lookup-clear r body off f.name fs u.1)

-- No loop changes the number of slots.
pub length-on_file {ℓ} :
    {R : Type ℓ} (n : String) (r : R) (body : FileEntry → FileEntry × R) (fs : List FileEntry)
    → length (on_file n r body fs).0 ≡ length fs
unfolding on_file
length-on_file n r body [] = refl
length-on_file n r body (f ∷ fs) = ground (arith, length-on_file n r body fs)

pub length-claim : (n : String) (fs : List FileEntry) → length (claim n fs).0 ≡ length fs
unfolding claim
length-claim n [] = refl
length-claim n (f ∷ fs) = ground (arith, length-claim n fs)
