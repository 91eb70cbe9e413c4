-- ===== src/Fs/Refine.antt =====
-- The table behind src/fs.go implements the store of `Fs.Store`, operation by operation.
use gooos.Common.{
  ℕ, ◌+◌, ◌-◌, ◌≤◌, ◌≡◌, refl, ap, ◌∙◌, inl, inr, Bool, true, false, Option, none, some, List, [],
  ◌==◌, length, Bool-cases, Option-cases, fun_ext, ltb→lt, zero, suc, replicate, arith, ltb, ap₂,
}
use mathlib.Core.Option
use Prim.Native.String.{String}
use text.Mathlib.TextEquality.{eq_iff}
use gooos.Fs.{
  FileEntry, FileSystem, max_files, max_file_data, boot, blank, on_file, create, write, read,
  append, truncate, file_size, delete, write_body, append_body, truncate_body, delete_body,
  read_body, size_body, claim,
}
use gooos.Fs.Store.{Store, put, is_some}
use gooos.Fs.Store
use gooos.Fs.Edits.{
  write-Edits, on_file_same, write_body_long, append-Edits, truncate-Edits, read-Edits, size-Edits,
}
use gooos.Fs.Lookup.{
  lookup, count_free, Unique, Sized, Edits, exists-eq-lookup, on_file_result, lookup-on_file, over,
  on_file-Sized, count_free-on_file, on_file-Unique, claim_result, claim_full, lookup-claim,
  claim-Sized, count_free-claim, claim-Unique, lookup-clear, count_free-clear, clear_result,
  clear-Sized, clear-Unique, length-on_file, length-claim,
}

-- All slots are there, no name stands in two used entries, and no size passes the data array.
pub record IsValid (fs : FileSystem) : Type 0 where
  pub unique : Unique fs.files
  pub sized : Sized fs.files
  pub slots : length fs.files ≡ max_files

-- the store that a table stands for
unfoldable pub abs : FileSystem → Store
abs fs = record { file = λ name. lookup name fs.files; free = count_free fs.files }

abs_eq :
    (fs : FileSystem) (s : Store)
    → ((m : String) → lookup m fs.files ≡ s.file m)
    → count_free fs.files ≡ s.free
    → abs fs ≡ s
unfolding abs
abs_eq fs s h e = λ i. record { file = λ m. h m i; free = e i }

abbrev edit_case {ℓ} :
    {R : Type ℓ}
    → String
    → R
    → (List ℕ → List ℕ)
    → (List ℕ → R)
    → Store
    → Option (List ℕ)
    → Store × R
edit_case n r c res s none = (s, r)
edit_case n r c res s (some old) = (record s { file = put n (some (c old)) s.file }, res old)

-- an edit of one file of the store
abbrev edit_store {ℓ} :
    {R : Type ℓ} → String → R → (List ℕ → List ℕ) → (List ℕ → R) → Store → Store × R
edit_store n r c res s = edit_case n r c res s (s.file n)

put_same :
    (n : String) (file : String → Option (List ℕ)) {v : Option (List ℕ)}
    → file n ≡ v
    → put n v file ≡ file
put_same n file e = fun_ext (λ m. ground (arith, eq_iff n m))

-- An edit of one entry, read off the table.
module _ {ℓ} {R : Type ℓ} (n : String) (r : R) (body : FileEntry → FileEntry × R)
    (c : List ℕ → List ℕ) (res : List ℕ → R)
    (edits : (f : FileEntry) → f.size ≤ max_file_data → Edits c res f (body f).0 (body f).1)
    (fs : FileSystem) (v : IsValid fs) where
  abbrev edited : FileSystem
  edited = record { files = (on_file n r body fs.files).0 }

  edited-IsValid : IsValid edited
  edited-IsValid = record {
    unique = on_file-Unique n r body c res edits fs.files v.sized v.unique;
    sized = on_file-Sized n r body c res edits fs.files v.sized;
    slots = length-on_file n r body fs.files ∙ v.slots;
  }

  abs-edited : abs edited ≡ record {
    file = put n (over none (λ old. some (c old)) (lookup n fs.files)) (λ k. lookup k fs.files);
    free = count_free fs.files;
  }
  abs-edited =
      abs_eq edited _ (λ m. lookup-on_file n r body c res edits m fs.files v.sized)
        (count_free-on_file n r body c res edits fs.files v.sized)

  -- the store and the result after the loop, by what the name held
  edit_refines :
      IsValid edited × ((abs edited, (on_file n r body fs.files).1) ≡ edit_store n r c res (abs fs))
  unfolding abs
  edit_refines = (edited-IsValid, go (lookup n fs.files) refl)
    where
      go :
          (o : Option (List ℕ))
          → lookup n fs.files ≡ o
          → ◌≡◌ {A = Store × R}
              (abs edited, (on_file n r body fs.files).1)
              (edit_case n r c res (abs fs) o)
      go none e = λ i. (
        (abs-edited
              ∙ ap (λ g. record { file = g; free = count_free fs.files })
                  (put_same n (λ k. lookup k fs.files) (rw e refl)))
            i,
        ((on_file_result n r body c res edits fs.files v.sized) ∙ ap (over r res) e) i,
      )
      go (some old) e = λ i. (
        (abs-edited
              ∙ ap
                  (λ g. record {
                    file = put n (over none (λ old. some (c old)) g) (λ k. lookup k fs.files);
                    free = count_free fs.files;
                  })
                  e)
            i,
        ((on_file_result n r body c res edits fs.files v.sized) ∙ ap (over r res) e) i,
      )

claimed :
    (name : String) (fs : FileSystem)
    → lookup name fs.files ≡ none
    → (claim name fs.files).1 ≡ true
    → abs (record { files = (claim name fs.files).0 }) ≡ record {
      file = put name (some []) (λ k. lookup k fs.files);
      free = count_free fs.files - 1;
    }
claimed name fs e ok =
    abs_eq _ _ (λ m. lookup-claim name m fs.files e ok)
      (omega (arith, count_free-claim name fs.files ok))

-- `fsCreate` keeps the table valid; it claims a slot, for an empty file, exactly when the name is
-- new and a slot is free, and fails otherwise with every file as it was.
pub create_refines :
    (name : String) (fs : FileSystem)
    → IsValid fs
    → let (fs', ok) = create name fs in IsValid fs' × ((abs fs', ok) ≡ Store.create name (abs fs))
unfolding create Store.create abs
create_refines name fs v = elim (Option-cases (lookup name fs.files)) [
  | inr (c, e) ↦ rw (exists-eq-lookup, e) (v, refl)
  | inl e ↦ elim (Bool-cases (claim name fs.files).1) [
    | inl ok ↦
        let room : (count_free fs.files == 0) ≡ false =
          ground (arith, claim_result name fs.files) in
        rw (exists-eq-lookup, e, ok, room)
          (
            record {
              unique = claim-Unique name fs.files e ok v.unique;
              sized = claim-Sized name fs.files v.sized;
              slots = length-claim name fs.files ∙ v.slots;
            },
            ap (λ s. (s, true)) (claimed name fs e ok),
          )
    | inr full ↦
        let none_left : (count_free fs.files == 0) ≡ true =
          ground (arith, claim_result name fs.files) in
        rw (exists-eq-lookup, e, full, none_left, claim_full name fs.files full) (v, refl)
  ]
]

-- `fsWrite` keeps the table valid; it replaces the content of a file that exists by data of at most
-- `maxFileData` bytes, and fails otherwise with every file as it was.
pub write_refines :
    (name : String) (d : List ℕ) (fs : FileSystem)
    → IsValid fs
    → let (fs', ok) = write name d fs in IsValid fs' × ((abs fs', ok) ≡ Store.write name d (abs fs))
unfolding write Store.write abs
write_refines name d fs v = elim (Bool-cases (ltb max_file_data (length d))) [
  | inl long ↦
      rw
        (
          long,
          on_file_same name false (write_body d) (write_body_long d (ltb→lt _ _ long)) fs.files,
        )
        (v, refl)
  | inr fits ↦ rw fits (
      edit_refines name false (write_body d) (λ _. d) (λ _. true) (write-Edits d (ground arith)) fs
        v)
]

-- `fsAppend` keeps the table valid; it adds to a file that exists as many bytes as still fit under
-- `maxFileData`, in order, and returns their number.
pub append_refines :
    (name : String) (d : List ℕ) (fs : FileSystem)
    → IsValid fs
    → let (fs', n) = append name d fs in IsValid fs' × ((abs fs', n) ≡ Store.append name d (abs fs))
unfolding append Store.append abs
append_refines name d fs v = edit_refines name 0 (append_body d) _ _ (append-Edits d) fs v

-- `fsTruncate` keeps the table valid and empties a file exactly when it exists.
pub truncate_refines :
    (name : String) (fs : FileSystem)
    → IsValid fs
    → let (fs', ok) = truncate name fs in
      IsValid fs' × ((abs fs', ok) ≡ Store.truncate name (abs fs))
unfolding truncate Store.truncate abs
truncate_refines name fs v = edit_refines name false truncate_body _ _ truncate-Edits fs v

-- `fsDelete` keeps the table valid; it removes a file exactly when it exists, leaves all others, and
-- gives its slot back.
pub delete_refines :
    (name : String) (fs : FileSystem)
    → IsValid fs
    → let (fs', ok) = delete name fs in IsValid fs' × ((abs fs', ok) ≡ Store.delete name (abs fs))
unfolding delete Store.delete abs delete_body
delete_refines name fs v = (
  record {
    unique = clear-Unique name false delete_body (λ f. refl) fs.files v.unique;
    sized = clear-Sized name false delete_body (λ f. refl) fs.files v.sized;
    slots = length-on_file name false delete_body fs.files ∙ v.slots;
  },
  go (lookup name fs.files) refl,
)
  where
    go :
        (o : Option (List ℕ))
        → lookup name fs.files ≡ o
        → ◌≡◌ {A = Store × Bool}
            (abs (delete name fs).0, (delete name fs).1)
            (over
              (abs fs, false)
              (λ _. (
                record {
                  file = put name none (λ k. lookup k fs.files);
                  free = count_free fs.files + 1;
                },
                true,
              ))
              o)
    go none e =
        ap₂ (λ (t : Store) (ok : Bool). (t, ok))
          (abs_eq _ (abs fs)
            (λ m.
              lookup-clear name false delete_body (λ f. refl) m fs.files v.unique
              ∙ ap (λ g. g m) (put_same name (λ k. lookup k fs.files) e))
            (count_free-clear name false delete_body (λ f. refl) fs.files ∙ rw e refl))
          (clear_result name delete_body (λ f. refl) fs.files ∙ rw e refl)
    go (some old) e =
        ap₂ (λ (t : Store) (ok : Bool). (t, ok))
          (abs_eq _ _ (λ m. lookup-clear name false delete_body (λ f. refl) m fs.files v.unique)
            (count_free-clear name false delete_body (λ f. refl) fs.files ∙ rw e refl))
          (clear_result name delete_body (λ f. refl) fs.files ∙ rw e refl)

over-some : (o : Option (List ℕ)) → over none (λ c. some c) o ≡ o
over-some none = refl
over-some (some c) = refl

over-map : (o : Option (List ℕ)) → over none (λ c. some (length c)) o ≡ Option.map length o
over-map none = refl
over-map (some c) = refl

-- `fsRead` returns exactly the content that the store holds, and `fsSize` its length.
pub read_refines :
    (name : String) (fs : FileSystem)
    → IsValid fs
    → (read name fs ≡ (abs fs).file name)
      × (file_size name fs ≡ Option.map length ((abs fs).file name))
unfolding read file_size abs
read_refines name fs v = (
  on_file_result name none read_body _ _ read-Edits fs.files v.sized
      ∙ over-some (lookup name fs.files),
  on_file_result name none size_body _ _ size-Edits fs.files v.sized
      ∙ over-map (lookup name fs.files),
)

blank-Unique : (n : ℕ) (f : FileEntry) → f.used ≡ false → Unique (replicate n f)
blank-Unique zero f h = tt
blank-Unique (suc n) f h = (λ e. cc, blank-Unique n f h)

blank-Sized : (n : ℕ) (f : FileEntry) → f.size ≡ 0 → Sized (replicate n f)
blank-Sized zero f h = tt
blank-Sized (suc n) f h = (omega arith, blank-Sized n f h)

-- The table that the kernel boots with is valid: it holds no file, and 32 free slots.
pub boot-IsValid :
    IsValid boot × ((name : String) → (abs boot).file name ≡ none) × ((abs boot).free ≡ 32)
unfolding boot abs lookup count_free
boot-IsValid = (
  record { unique = blank-Unique 32 blank refl; sized = blank-Sized 32 blank refl; slots = refl },
  λ name. refl,
  refl,
)
