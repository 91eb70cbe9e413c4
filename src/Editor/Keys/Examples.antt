-- ===== src/Editor/Keys/Examples.antt =====
-- Short sessions with the editor (src/user/cmd/edit).
use gooos.Common.{ℕ, ◌≡◌, refl, true, arith, List, [], ◌∷◌, length, none, some}
use gooos.Editor.Buffer.{load_file, new_buffer, insert_char, save_file}
use gooos.Editor.Commands.{save_quit, new_editor, execute, stored, save_now}
use gooos.Editor.Keys.{
  Key, main_loop, read_command, mode_key, normal_key, insert_key, command_key, finish_key,
  extended_key, execute_command,
}
use gooos.Editor.Keys.Session.{Runs, main_loop-Runs}

abbrev key : ℕ → Key
key c = record { sc = 0; ascii = c; flags = 0 }

abbrev escape : Key
escape = record { sc = 1; ascii = 0; flags = 0 }

abbrev enter : Key
enter = record { sc = 28; ascii = 0; flags = 0 }

-- i x Escape : w q Enter
abbrev typed : List Key
typed = key 105 ∷ key 120 ∷ escape ∷ key 58 ∷ key 119 ∷ key 113 ∷ enter ∷ []

-- the session types the byte, saves and quits
typed_ends :
    let (e', by) = main_loop 7 (λ n. true) length typed (new_editor none) in
    (by ≡ some save_quit) × (e'.file ≡ some (120 ∷ 10 ∷ []))
unfolding main_loop read_command mode_key normal_key insert_key command_key finish_key extended_key
    execute_command execute stored save_now save_file gooos.Editor.Buffer.save_loop new_editor
    load_file new_buffer insert_char
typed_ends = (refl, refl)

main_loop-Runs_example :
    let (e', by) = main_loop 20 (λ n. true) length typed (new_editor none) in
    Runs (λ n. true) length typed (new_editor none) e' by
main_loop-Runs_example = main_loop-Runs 20 (λ n. true) length typed (new_editor none) (omega arith)
