-- ===== src/Editor/Keys.antt =====
-- The keys of the editor: src/user/cmd/edit/input.go and the loop of main.go.
pub mod Reading
pub mod Session
pub mod Examples
use gooos.Common.{
  is_bytes, ℕ, zero, suc, ◌+◌, ◌-◌, ◌≤◌, Bool, true, false, not, ◌&&◌, ◌||◌, ◌==◌, ltb, leb,
  if◌then◌else◌, test_bit, List, [], ◌∷◌, ◌++◌, Option, none, some, length, take,
}
use mathlib.Core.Option
use gooos.Editor.Commands.{
  EditorCmd, none_, up, down, left, right, home, end_, top, bottom, word_fwd, word_back, insert,
  new_line, delete_back, delete_fwd, delete_row, enter_insert, enter_insert_after, open_below,
  open_above, exit_insert, enter_command, save, quit_, force_quit, save_quit, Mode, normal,
  inserting, command, Editor, execute,
}

-- what `gooos.ReadKey` gives: the scancode, the byte and the flags of a key
pub record Key : Type 0 where
  pub sc : ℕ
  pub ascii : ℕ
  pub flags : ℕ

-- the first switch of `readCommand`; `none` is for the keys that it does not list
unfoldable pub extended_key : ℕ → Option EditorCmd
extended_key sc =
    if sc == 72
    then some up
    else if sc == 80
    then some down
    else if sc == 75
    then some left
    else if sc == 77
    then some right
    else if sc == 71
    then some home
    else if sc == 79
    then some end_
    else if sc == 83
    then some delete_fwd
    else none

-- what a key starts in normal mode: a command, or a wait for a second key with what each byte then gives
pub data Started : Type 0 where
  done : EditorCmd → Started
  wait_for : ℕ → EditorCmd → Started

-- `normalKey`, with `readGPrefix` and `readDPrefix` up to their `ReadKey`
unfoldable pub normal_key : ℕ → Started
normal_key ascii =
    if ascii == 104
    then done left
    else if ascii == 108
    then done right
    else if ascii == 106
    then done down
    else if ascii == 107
    then done up
    else if ascii == 48
    then done home
    else if ascii == 36
    then done end_
    else if ascii == 71
    then done bottom
    else if ascii == 103
    then wait_for 103 top
    else if ascii == 119
    then done word_fwd
    else if ascii == 98
    then done word_back
    else if ascii == 120
    then done delete_fwd
    else if ascii == 100
    then wait_for 100 delete_row
    else if ascii == 105
    then done enter_insert
    else if ascii == 97
    then done enter_insert_after
    else if ascii == 111
    then done open_below
    else if ascii == 79
    then done open_above
    else if ascii == 58
    then done enter_command
    else done none_

unfoldable pub insert_key : Key → Editor → EditorCmd × Editor
insert_key k e =
    if k.sc == 1
    then (exit_insert, e)
    else if k.sc == 14
    then (delete_back, e)
    else if k.sc == 28
    then (new_line, e)
    else if leb 32 k.ascii && ltb k.ascii 127
    then (insert, record e { insert_ch = k.ascii })
    else (none_, e)

-- `executeCommand`: "w", "q", "wq" and "q!"
unfoldable pub execute_command : List ℕ → EditorCmd
execute_command cmd =
    if is_bytes cmd (119 ∷ [])
    then save
    else if is_bytes cmd (113 ∷ [])
    then quit_
    else if is_bytes cmd (119 ∷ 113 ∷ [])
    then save_quit
    else if is_bytes cmd (113 ∷ 33 ∷ [])
    then force_quit
    else none_

unfoldable pub command_key : Key → Editor → EditorCmd × Editor
command_key k e =
    if k.sc == 1
    then (none_, record e { mode = normal; cmd_buf = [] })
    else if k.sc == 28
    then (execute_command e.cmd_buf, record e { cmd_buf = []; mode = normal })
    else if k.sc == 14
    then (none_, record e { cmd_buf = take (length e.cmd_buf - 1) e.cmd_buf })
    else if leb 32 k.ascii && ltb k.ascii 127
    then (none_, record e { cmd_buf = e.cmd_buf ++ (k.ascii ∷ []) })
    else (none_, e)

-- the second `ReadKey` of `readGPrefix` and `readDPrefix`
unfoldable pub finish_key : Started → List Key → Option (EditorCmd × List Key)
finish_key (done c) ks = some (c, ks)
finish_key (wait_for byte c) [] = none
finish_key (wait_for byte c) (k ∷ ks) = some (if k.ascii == byte then c else none_, ks)

-- the second switch of `readCommand`
unfoldable pub mode_key : Mode → Key → List Key → Editor → Option (EditorCmd × Editor × List Key)
mode_key normal k ks e = Option.map (λ p. (p.0, e, p.1)) (finish_key (normal_key k.ascii) ks)
mode_key inserting k ks e = let (c, e') = insert_key k e in some (c, e', ks)
mode_key command k ks e = let (c, e') = command_key k e in some (c, e', ks)

-- `readCommand`; `none` is for an editor that waits for a key
unfoldable pub read_command : List Key → Editor → Option (EditorCmd × Editor × List Key)
read_command [] e = none
read_command (k ∷ ks) e =
    let special = if test_bit k.flags 0 then extended_key k.sc else none in
    elim special [ some c ↦ some (c, e, ks) | none ↦ mode_key e.mode k ks e ]

-- The loop of `main`, in at most `fuel` turns, with whether the file opens when so many keys are left.
-- The command is the one that ends it; `none` is for an editor that waits for a key, or has no turn left.
unfoldable pub main_loop :
    ℕ → (ℕ → Bool) → (List ℕ → ℕ) → List Key → Editor → Editor × Option EditorCmd
main_loop zero opened written ks e = (e, none)
main_loop (suc fuel) opened written ks e = elim (read_command ks e) [
  | none ↦ (e, none)
  | some (c, e', rest) ↦
      let after = execute (opened (length rest)) written c e' in
      if after.quit then (after, some c) else main_loop fuel opened written rest after
]
