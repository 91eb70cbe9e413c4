-- ===== src/Editor/Commands.antt =====
-- The commands of the editor: src/user/cmd/edit/keybinds.go and `execute` of main.go. The messages in the
-- status line and the screen are left out.
pub mod Steps
pub mod Safety
use gooos.Common.{
  ℕ, zero, suc, ◌+◌, ◌-◌, ◌≤◌, Bool, true, false, not, ◌&&◌, ◌||◌, ◌==◌, ltb, leb, if◌then◌else◌,
  test_bit, List, [], ◌∷◌, ◌++◌, Option, none, some, length, take,
}
use gooos.Editor.Buffer.{
  Buffer, line, load_file, save_file, cursor_left, cursor_right, cursor_up, cursor_down,
  cursor_home, cursor_end, cursor_top, cursor_bottom, word_forward, word_backward, insert_char,
  insert_newline, delete_backward, delete_forward, delete_line, open_line_below, open_line_above,
}

pub data EditorCmd : Type 0 where
  none_ : EditorCmd
  up : EditorCmd
  down : EditorCmd
  left : EditorCmd
  right : EditorCmd
  home : EditorCmd
  end_ : EditorCmd
  top : EditorCmd
  bottom : EditorCmd
  word_fwd : EditorCmd
  word_back : EditorCmd
  insert : EditorCmd
  new_line : EditorCmd
  delete_back : EditorCmd
  delete_fwd : EditorCmd
  delete_row : EditorCmd
  enter_insert : EditorCmd
  enter_insert_after : EditorCmd
  open_below : EditorCmd
  open_above : EditorCmd
  exit_insert : EditorCmd
  enter_command : EditorCmd
  save : EditorCmd
  quit_ : EditorCmd
  force_quit : EditorCmd
  save_quit : EditorCmd

pub data Mode : Type 0 where
  normal : Mode
  inserting : Mode
  command : Mode

-- The editor, with the bytes of the file that it was started with, if there are any.
pub record Editor : Type 0 where
  pub buf : Buffer
  pub mode : Mode
  pub cmd_buf : List ℕ
  pub insert_ch : ℕ
  pub quit : Bool
  pub file : Option (List ℕ)

unfoldable pub new_editor : Option (List ℕ) → Editor
new_editor file = record {
  buf = load_file file;
  mode = normal;
  cmd_buf = [];
  insert_ch = 0;
  quit = false;
  file = file;
}

-- what `gooos.Write` has put into a file that was opened empty: of each piece as many bytes as it answered
unfoldable pub stored : (List ℕ → ℕ) → List (List ℕ) → List ℕ
stored written [] = []
stored written (w ∷ ws) = take (written w) w ++ stored written ws

-- the two cases of `execute` that save; `opened` is whether the file opens, `written` what each write
-- answers
unfoldable pub save_now : Bool → (List ℕ → ℕ) → Editor → Editor × Bool
save_now opened written e =
    let (buf, writes, total, ok) = save_file opened written e.buf in
    (record e { buf = buf; file = if ok then some (stored written writes) else e.file }, ok)

-- `execute`
unfoldable pub execute : Bool → (List ℕ → ℕ) → EditorCmd → Editor → Editor
execute opened written none_ e = e
execute opened written up e = record e { buf = cursor_up e.buf }
execute opened written down e = record e { buf = cursor_down e.buf }
execute opened written left e = record e { buf = cursor_left e.buf }
execute opened written right e = record e { buf = cursor_right e.buf }
execute opened written home e = record e { buf = cursor_home e.buf }
execute opened written end_ e = record e { buf = cursor_end e.buf }
execute opened written top e = record e { buf = cursor_top e.buf }
execute opened written bottom e = record e { buf = cursor_bottom e.buf }
execute opened written word_fwd e = record e { buf = word_forward e.buf }
execute opened written word_back e = record e { buf = word_backward e.buf }
execute opened written insert e = record e { buf = insert_char e.insert_ch e.buf }
execute opened written new_line e = record e { buf = insert_newline e.buf }
execute opened written delete_back e = record e { buf = delete_backward e.buf }
execute opened written delete_fwd e = record e { buf = delete_forward e.buf }
execute opened written delete_row e = record e { buf = delete_line e.buf }
execute opened written enter_insert e = record e { mode = inserting }
execute opened written enter_insert_after e = record e {
  buf = if ltb e.buf.cx (length (line e.buf)) then record e.buf { cx = e.buf.cx + 1 } else e.buf;
  mode = inserting;
}
execute opened written open_below e = record e { buf = open_line_below e.buf; mode = inserting }
execute opened written open_above e = record e { buf = open_line_above e.buf; mode = inserting }
execute opened written exit_insert e = record e {
  mode = normal;
  buf = if ltb 0 e.buf.cx then record e.buf { cx = e.buf.cx - 1 } else e.buf;
}
execute opened written enter_command e = record e { mode = command; cmd_buf = [] }
execute opened written save e = (save_now opened written e).0
execute opened written quit_ e = if e.buf.modified then e else record e { quit = true }
execute opened written force_quit e = record e { quit = true }
execute opened written save_quit e =
    let (e', ok) = save_now opened written e in if ok then record e' { quit = true } else e'
