-- ===== src/Fs/Edits.antt =====
-- What the body of each scanning loop does to the content of the entry that it finds.
use gooos.Common.{
  ℕ, ◌+◌, ◌-◌, ◌≤◌, ◌<◌, ◌≡◌, refl, ap, ◌∙◌, true, false, List, [], ◌∷◌, ◌++◌, some, length, ap₂,
  Array, slice, take, copy_in, min, arith, length-slice, length-take, slice-add, slice-copy_in,
  slice-copy_in_below,
}
use native.Mathlib.Nat.{zero-add}
use Prim.Native.String.{String}
use gooos.Fs.{
  FileEntry, on_file, max_file_data, write_body, append_body, truncate_body, read_body, size_body,
}
use gooos.Fs.Lookup.{content, Edits}

slice-copy_in-take :
    (b : Array ℕ) (size n : ℕ) (d : List ℕ)
    → n ≤ length d
    → slice (copy_in b size (take n d)) 0 (size + n) ≡ slice b 0 size ++ take n d
slice-copy_in-take b size n d h =
    rw (slice-add, zero-add)
      (ap₂ ◌++◌ (slice-copy_in_below b size size 0 (take n d) (omega arith)) (
        ap (λ k. slice (copy_in b size (take n d)) size k) (omega (arith, length-take n d))
        ∙ slice-copy_in b size (take n d)))

pub write-Edits :
    (d : List ℕ)
    → length d ≤ max_file_data
    → (f : FileEntry) → f.size ≤ max_file_data
    → Edits (λ _. d) (λ _. true) f (write_body d f).0 (write_body d f).1
unfolding write_body content
write-Edits d h f s = ground (arith, slice-copy_in f.bytes 0 d)

-- A body that changes nothing leaves the table as it is.
pub on_file_same {ℓ} :
    {R : Type ℓ} (n : String) (r : R) (body : FileEntry → FileEntry × R)
    → ((f : FileEntry) → body f ≡ (f, r))
    → (fs : List FileEntry) → on_file n r body fs ≡ (fs, r)
unfolding on_file
on_file_same n r body h [] = refl
on_file_same n r body h (f ∷ fs) = ground (arith, on_file_same n r body h fs, h f)

pub write_body_long :
    (d : List ℕ) → max_file_data < length d → (f : FileEntry) → write_body d f ≡ (f, false)
unfolding write_body
write_body_long d h f = ground arith

pub append-Edits :
    (d : List ℕ) (f : FileEntry)
    → f.size ≤ max_file_data
    → Edits
        (λ old. old ++ take (min (length d) (max_file_data - length old)) d)
        (λ old. min (length d) (max_file_data - length old))
        f
        (append_body d f).0
        (append_body d f).1
unfolding append_body content
append-Edits d f s = ground (
  arith,
  slice-copy_in-take f.bytes f.size (min (length d) (max_file_data - f.size)) d,
  length-slice f.bytes 0 f.size,
)

pub truncate-Edits :
    (f : FileEntry)
    → f.size ≤ max_file_data
    → Edits (λ _. []) (λ _. true) f (truncate_body f).0 (truncate_body f).1
unfolding truncate_body content
truncate-Edits f s = ground arith

pub read-Edits :
    (f : FileEntry) → f.size ≤ max_file_data → Edits (λ c. c) some f (read_body f).0 (read_body f).1
unfolding read_body content
read-Edits f s = ground arith

pub size-Edits :
    (f : FileEntry)
    → f.size ≤ max_file_data
    → Edits (λ c. c) (λ c. some (length c)) f (size_body f).0 (size_body f).1
unfolding size_body content
size-Edits f s = ground (arith, length-slice f.bytes 0 f.size)
