-- ===== src/Fs/Examples.antt =====
-- Runs of the file system at concrete requests.
use mathlib.Core.Option
use gooos.Common.{length, ◌≡◌, refl, true, false, none, some, List, [], ◌∷◌, if◌then◌else◌}
use gooos.Fs.{
  FileSystem, boot, create, write, read, append, truncate, delete, list, claim, exists, on_file,
  file_size,
}
use gooos.Fs.Store
use gooos.Fs.Store.{Store, is_some}
use gooos.Fs.Refine.{
  IsValid, abs, boot-IsValid, create_refines, write_refines, append_refines, truncate_refines,
  delete_refines, read_refines,
}
use gooos.Fs.Task.{
  FsOp, FsRequest, Answer, answers, serve_all, store_serve_all, serve_all_refines, count,
  count-list,
}

abbrev script : List FsRequest
script =
    record { op = FsOp.op_create; name = "a"; content = [] }
    ∷ record { op = FsOp.op_write; name = "a"; content = 7 ∷ 8 ∷ [] }
    ∷ record { op = FsOp.op_create; name = "a"; content = [] }
    ∷ record { op = FsOp.op_create; name = "b"; content = [] }
    ∷ record { op = FsOp.op_read; name = "a"; content = [] }
    ∷ record { op = FsOp.op_delete; name = "a"; content = [] }
    ∷ record { op = FsOp.op_read; name = "a"; content = [] }
    ∷ record { op = FsOp.op_list; name = ""; content = [] }
    ∷ []

script-answers :
    answers (serve_all script boot).1
    ≡ (true, none, λ n. 0)
      ∷ (true, none, λ n. 0)
      ∷ (false, none, λ n. 0)
      ∷ (true, none, λ n. 0)
      ∷ (true, some (7 ∷ 8 ∷ []), λ n. 0)
      ∷ (true, none, λ n. 0)
      ∷ (false, none, λ n. 0)
      ∷ (true, none, λ n. count n ("b" ∷ []))
      ∷ []
unfolding serve_all boot create claim exists write on_file read delete list gooos.Fs.used_names
script-answers = refl

serve_all_refines_example :
    let (fs', out) = serve_all script boot in
    IsValid fs'
    × (◌≡◌ {A = Store × List Answer} (abs fs', answers out) (store_serve_all script (abs boot)))
serve_all_refines_example = serve_all_refines script boot boot-IsValid.0

abbrev loaded : FileSystem
loaded = (serve_all script boot).0

loaded-IsValid : IsValid loaded
loaded-IsValid = serve_all_refines_example.0

create_refines_example :
    let (fs', ok) = create "b" loaded in
    IsValid fs' × ((abs fs', ok) ≡ Store.create "b" (abs loaded))
create_refines_example = create_refines "b" loaded loaded-IsValid

write_refines_example :
    let (fs', ok) = write "b" (1 ∷ 2 ∷ []) loaded in
    IsValid fs' × ((abs fs', ok) ≡ Store.write "b" (1 ∷ 2 ∷ []) (abs loaded))
write_refines_example = write_refines "b" (1 ∷ 2 ∷ []) loaded loaded-IsValid

append_refines_example :
    let (fs', n) = append "b" (1 ∷ 2 ∷ []) loaded in
    IsValid fs' × ((abs fs', n) ≡ Store.append "b" (1 ∷ 2 ∷ []) (abs loaded))
append_refines_example = append_refines "b" (1 ∷ 2 ∷ []) loaded loaded-IsValid

truncate_refines_example :
    let (fs', ok) = truncate "b" loaded in
    IsValid fs' × ((abs fs', ok) ≡ Store.truncate "b" (abs loaded))
truncate_refines_example = truncate_refines "b" loaded loaded-IsValid

delete_refines_example :
    let (fs', ok) = delete "b" loaded in
    IsValid fs' × ((abs fs', ok) ≡ Store.delete "b" (abs loaded))
delete_refines_example = delete_refines "b" loaded loaded-IsValid

count-list_example : count "b" (list loaded) ≡ (if is_some ((abs loaded).file "b") then 1 else 0)
count-list_example = count-list "b" loaded loaded-IsValid

read_refines_example :
    (read "b" loaded ≡ (abs loaded).file "b")
    × (file_size "b" loaded ≡ Option.map length ((abs loaded).file "b"))
read_refines_example = read_refines "b" loaded loaded-IsValid
