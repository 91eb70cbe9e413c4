-- ===== src/Editor/Keys/Session.antt =====
-- A session with the editor (the loop of src/user/cmd/edit/main.go), from a file to the end.
use gooos.Common.{
  ℕ, zero, suc, ◌≤◌, true, ◌≡◌, refl, Bool, false, arith, inl, inr, List, [], ◌∷◌, length, Option,
  none, some, either_of, Option-cases,
}
use gooos.Editor.Commands.{EditorCmd, Editor, execute}
use gooos.Editor.Keys.{Key, read_command, main_loop}
use gooos.Editor.Keys.Reading.{IsRead, read_command-IsRead}

-- The loop of `main` without a bound on its turns, from keys and an editor to the editor that is left and
-- the command that ended it, if it does not wait for a key.
pub data Runs (opened : ℕ → Bool) (written : List ℕ → ℕ)
    : List Key → Editor → Editor → Option EditorCmd → Type 0 where
  waits : {ks : List Key} {e : Editor} → read_command ks e ≡ none → Runs opened written ks e e none
  quits :
      {ks rest : List Key} {e e1 e2 : Editor} {c : EditorCmd}
      → read_command ks e ≡ some (c, e1, rest)
      → execute (opened (length rest)) written c e1 ≡ e2
      → e2.quit ≡ true
      → Runs opened written ks e e2 (some c)
  goes_on :
      {ks rest : List Key} {e e1 e2 e' : Editor} {c : EditorCmd} {by : Option EditorCmd}
      → read_command ks e ≡ some (c, e1, rest)
      → execute (opened (length rest)) written c e1 ≡ e2
      → e2.quit ≡ false
      → Runs opened written rest e2 e' by
      → Runs opened written ks e e' by

-- The loop of the editor comes to an end on any keys, from any editor: with as many turns as keys, or
-- more, what is computed is what the loop without a bound does until a command quits or no key is left.
pub main_loop-Runs :
    (n : ℕ) (opened : ℕ → Bool) (written : List ℕ → ℕ) (ks : List Key) (e : Editor)
    → length ks ≤ n
    → let (e', by) = main_loop n opened written ks e in Runs opened written ks e e' by
unfolding main_loop read_command IsRead
main_loop-Runs zero opened written [] e h = waits refl
main_loop-Runs zero opened written (k ∷ ks) e h = absurd (omega arith)
main_loop-Runs (suc n) opened written ks e h = elim (Option-cases (read_command ks e)) [
  | inl none_left ↦ rw (none_left, main_loop) (waits none_left)
  | inr ((c, e1, rest), found) ↦
      let (same, taken) = read_command-IsRead ks e (c, e1, rest) found in
      let e2 = execute (opened (length rest)) written c e1 in
      let P : Editor × Option EditorCmd → Type 0 = λ r. Runs opened written ks e r.0 r.1 in
      rw (found, main_loop)
        (either_of P e2.quit (λ stops. quits found refl stops)
          (λ more.
            goes_on found refl more
              (main_loop-Runs n opened written rest e2 (omega (arith, h, taken)))))
]
