-- ===== src/Fs.antt =====
-- The in-memory file system of src/fs.go: the table of entries, and the loops that scan it.
pub mod Store
pub mod Lookup
mod Edits
pub mod Refine
pub mod Task
pub mod Examples
use gooos.Common.{
  ℕ, ◌+◌, ◌-◌, ◌≡◌, Bool, true, false, not, ◌&&◌, Option, none, some, List, [], ◌∷◌, ltb, replicate,
  if◌then◌else◌, Array, length, slice, copy_in, take, replicate,
}
use Prim.Native.String.{String}
use text.Mathlib.Text.{◌==◌ as str_eq}

-- `maxFiles` and `maxFileData`
abbrev pub max_files : ℕ
max_files = 32

abbrev pub max_file_data : ℕ
max_file_data = 262144

-- `bytes` is the field `data`, of which the first `size` bytes are the file's content.
pub record FileEntry : Type 0 where
  pub name : String
  pub bytes : Array ℕ
  pub size : ℕ
  pub used : Bool

pub record FileSystem : Type 0 where
  pub files : List FileEntry

-- the zero values
abbrev pub blank : FileEntry
blank = record { name = ""; bytes = λ _. 0; size = 0; used = false }

pub boot : FileSystem
boot = record { files = replicate max_files blank }

-- the test of every loop: `fs.files[i].used && fs.files[i].name == name`
abbrev pub holds : String → FileEntry → Bool
holds name f = f.used && str_eq f.name name

-- `for i := 0; i < maxFiles; i++ { if holds { <body>; return <result> } } return <default>`: the
-- body gets the first entry that holds the name, and gives the entry that it leaves and the result.
pub on_file {ℓ} :
    {R : Type ℓ} → String → R → (FileEntry → FileEntry × R) → List FileEntry → List FileEntry × R
on_file name r body [] = ([], r)
on_file name r body (f ∷ fs) =
    let (fs', r') = on_file name r body fs in
    if holds name f then ((body f).0 ∷ fs, (body f).1) else (f ∷ fs', r')

-- the second loop of `fsCreate`: the first slot that is not used is claimed
pub claim : String → List FileEntry → List FileEntry × Bool
claim name [] = ([], false)
claim name (f ∷ fs) =
    let (fs', ok) = claim name fs in
    if f.used then (f ∷ fs', ok) else (record f { used = true; name = name; size = 0 } ∷ fs, true)

-- the first loop of `fsCreate`
pub exists : String → List FileEntry → Bool
exists name [] = false
exists name (f ∷ fs) = if holds name f then true else exists name fs

pub create : String → FileSystem → FileSystem × Bool
create name fs =
    let (files', ok) = claim name fs.files in
    if exists name fs.files then (fs, false) else (record fs { files = files' }, ok)

pub write_body : List ℕ → FileEntry → FileEntry × Bool
write_body content f =
    if ltb max_file_data (length content)
    then (f, false)
    else (record f { bytes = copy_in f.bytes 0 content; size = length content }, true)

pub write : String → List ℕ → FileSystem → FileSystem × Bool
unfolding write_body
write name content fs =
    let (files', ok) = on_file name false (write_body content) fs.files in
    (record fs { files = files' }, ok)

-- `nil` is `none`; an empty file is read as an empty slice, which is not `nil`
pub read_body : FileEntry → FileEntry × Option (List ℕ)
read_body f = (f, some (slice f.bytes 0 f.size))

pub read : String → FileSystem → Option (List ℕ)
unfolding read_body
read name fs = (on_file name none read_body fs.files).1

pub append_body : List ℕ → FileEntry → FileEntry × ℕ
append_body content f =
    let room = max_file_data - f.size in
    let n = if ltb room (length content) then room else length content in
    (record f { bytes = copy_in f.bytes f.size (take n content); size = f.size + n }, n)

pub append : String → List ℕ → FileSystem → FileSystem × ℕ
unfolding append_body
append name content fs =
    let (files', n) = on_file name 0 (append_body content) fs.files in
    (record fs { files = files' }, n)

pub truncate_body : FileEntry → FileEntry × Bool
truncate_body f = (record f { size = 0 }, true)

pub truncate : String → FileSystem → FileSystem × Bool
unfolding truncate_body
truncate name fs =
    let (files', ok) = on_file name false truncate_body fs.files in
    (record fs { files = files' }, ok)

-- -1 is `none`
pub size_body : FileEntry → FileEntry × Option ℕ
size_body f = (f, some f.size)

pub file_size : String → FileSystem → Option ℕ
unfolding size_body
file_size name fs = (on_file name none size_body fs.files).1

pub used_names : List FileEntry → List String
used_names [] = []
used_names (f ∷ fs) = let rest = used_names fs in if f.used then f.name ∷ rest else rest

pub list : FileSystem → List String
list fs = used_names fs.files

pub delete_body : FileEntry → FileEntry × Bool
delete_body f = (record f { used = false; name = ""; size = 0 }, true)

pub delete : String → FileSystem → FileSystem × Bool
unfolding delete_body
delete name fs =
    let (files', ok) = on_file name false delete_body fs.files in (record fs { files = files' }, ok)
