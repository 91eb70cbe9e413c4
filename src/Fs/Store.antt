-- ===== src/Fs/Store.antt =====
-- What the file system promises a caller: named byte strings, and a number of slots still free.
-- Slots, sizes and stale bytes are forgotten.
use gooos.Common.{
  ℕ, ◌+◌, ◌-◌, Bool, true, false, Option, none, some, List, [], ◌++◌, ltb, ◌==◌, if◌then◌else◌,
  length, take, min,
}
use Prim.Native.String.{String}
use text.Mathlib.Text.{◌==◌ as str_eq}
use gooos.Fs.{max_file_data}

pub record Store : Type 0 where
  pub file : String → Option (List ℕ)
  pub free : ℕ

abbrev pub put : String → Option (List ℕ) → (String → Option (List ℕ)) → String → Option (List ℕ)
put name v file m = if str_eq name m then v else file m

abbrev pub is_some {ℓ} : {A : Type ℓ} → Option A → Bool
is_some none = false
is_some (some a) = true

unfoldable pub create : String → Store → Store × Bool
create name s =
    if is_some (s.file name)
    then (s, false)
    else if s.free == 0
    then (s, false)
    else (record { file = put name (some []) s.file; free = s.free - 1 }, true)

unfoldable pub write : String → List ℕ → Store → Store × Bool
write name content s =
    let fits : Store × Bool = elim (s.file name) [
      | none ↦ (s, false)
      | some old ↦ (record s { file = put name (some content) s.file }, true)
    ] in
    if ltb max_file_data (length content) then (s, false) else fits

-- An append takes as many bytes as fit.
unfoldable pub append : String → List ℕ → Store → Store × ℕ
append name content s = elim (s.file name) [
  | none ↦ (s, 0)
  | some old ↦
      let n = min (length content) (max_file_data - length old) in
      (record s { file = put name (some (old ++ take n content)) s.file }, n)
]

unfoldable pub truncate : String → Store → Store × Bool
truncate name s = elim (s.file name) [
  | none ↦ (s, false)
  | some old ↦ (record s { file = put name (some []) s.file }, true)
]

unfoldable pub delete : String → Store → Store × Bool
delete name s = elim (s.file name) [
  | none ↦ (s, false)
  | some old ↦ (record { file = put name none s.file; free = s.free + 1 }, true)
]
