-- ===== src/Editor/Keys/Reading.antt =====
-- What reading a command (src/user/cmd/edit/input.go) does: it takes keys and leaves the buffer alone.
use gooos.Common.{
  ℕ, ◌-◌, ◌≤◌, ◌<◌, ◌≡◌, refl, sym, ap, ◌∙◌, Bool, true, false, arith, inl, inr, List, [], ◌∷◌,
  ◌++◌, take, subst, length, Option, none, some, Option-cases, if◌then◌else◌, leb, ltb, ◌==◌, ◌&&◌,
  test_bit,
}
use mathlib.Core.Option
use mathlib.Core.Option.{some-injective}
use gooos.Editor.Commands.{EditorCmd, Editor}
use gooos.Editor.Keys.{
  Key, Started, done, wait_for, normal_key, insert_key, command_key, finish_key, mode_key,
  extended_key, read_command,
}
use gooos.Editor.Commands.{Mode, normal, inserting, command, none_}

-- what reading keys leaves alone
pub record IsSame (e e' : Editor) : Type 0 where
  pub buf : e'.buf ≡ e.buf
  pub quit : e'.quit ≡ e.quit
  pub file : e'.file ≡ e.file

same :
    {e : Editor} (mode : Mode) (cmd : List ℕ) (ch : ℕ)
    → IsSame e (record e { mode = mode; cmd_buf = cmd; insert_ch = ch })
same mode cmd ch = record { buf = refl; quit = refl; file = refl }

either {ℓ ℓ'} :
    {A : Type ℓ} (P : A → Type ℓ') (c : Bool) {a b : A} → P a → P b → P (if c then a else b)
either P true p q = p
either P false p q = q

insert_key-IsSame : (k : Key) (e : Editor) → IsSame e (insert_key k e).1
unfolding insert_key
insert_key-IsSame k e =
    let P : EditorCmd × Editor → Type 0 = λ r. IsSame e r.1 in
    let own = same e.mode e.cmd_buf e.insert_ch in
    either P (k.sc == 1) own (
      either P (k.sc == 14) own (
        either P (k.sc == 28) own
          (either P (leb 32 k.ascii && ltb k.ascii 127) (same e.mode e.cmd_buf k.ascii) own)))

command_key-IsSame : (k : Key) (e : Editor) → IsSame e (command_key k e).1
unfolding command_key
command_key-IsSame k e =
    let P : EditorCmd × Editor → Type 0 = λ r. IsSame e r.1 in
    let own = same e.mode e.cmd_buf e.insert_ch in
    either P (k.sc == 1) (same normal [] e.insert_ch) (
      either P (k.sc == 28) (same normal [] e.insert_ch) (
        either P (k.sc == 14) (same e.mode (take (length e.cmd_buf - 1) e.cmd_buf) e.insert_ch) (
          either P (leb 32 k.ascii && ltb k.ascii 127)
            (same e.mode (e.cmd_buf ++ (k.ascii ∷ [])) e.insert_ch) own)))

-- what a command that was read is: the editor has changed in its mode and input alone, and a key is taken
unfoldable pub IsRead : List Key → Editor → EditorCmd × Editor × List Key → Type 0
IsRead ks e (c, e', rest) = IsSame e e' × (length rest < length ks)

finish_key_le :
    (s : Started) (ks : List Key) (c : EditorCmd) (rest : List Key)
    → finish_key s ks ≡ some (c, rest)
    → length rest ≤ length ks
unfolding finish_key
finish_key_le (done d) ks c rest h =
    omega (arith, ap (λ p. length p.1) (some-injective (d, ks) (c, rest) h))
finish_key_le (wait_for byte d) [] c rest h = absurd (ground (arith, h))
finish_key_le (wait_for byte d) (k ∷ ks) c rest h = omega (
  arith,
  ap (λ p. length p.1) (some-injective (if k.ascii == byte then d else none_, ks) (c, rest) h),
)

mode_key-IsRead :
    (m : Mode) (k : Key) (ks : List Key) (e : Editor) (r : EditorCmd × Editor × List Key)
    → mode_key m k ks e ≡ some r
    → IsRead (k ∷ ks) e r
unfolding mode_key IsRead
mode_key-IsRead normal k ks e r h = elim (Option-cases (finish_key (normal_key k.ascii) ks)) [
  | inl waits ↦ absurd (ground (arith, h, waits))
  | inr (p, found) ↦
      let le = finish_key_le (normal_key k.ascii) ks p.0 p.1 found in
      let own : IsRead (k ∷ ks) e (p.0, e, p.1) =
        (same e.mode e.cmd_buf e.insert_ch, omega (arith, le)) in
      let q : some (p.0, e, p.1) ≡ some r = ap (Option.map (λ x. (x.0, e, x.1))) (sym found) ∙ h in
      subst (IsRead (k ∷ ks) e) (some-injective (p.0, e, p.1) r q) own
]
mode_key-IsRead inserting k ks e r h =
    let (c, e') = insert_key k e in
    subst (IsRead (k ∷ ks) e) (some-injective (c, e', ks) r h) (insert_key-IsSame k e, omega arith)
mode_key-IsRead command k ks e r h =
    let (c, e') = command_key k e in
    subst (IsRead (k ∷ ks) e) (some-injective (c, e', ks) r h) (command_key-IsSame k e, omega arith)

pub read_command-IsRead :
    (ks : List Key) (e : Editor) (r : EditorCmd × Editor × List Key)
    → read_command ks e ≡ some r
    → IsRead ks e r
unfolding read_command IsRead
read_command-IsRead [] e r h = absurd (ground (arith, h))
read_command-IsRead (k ∷ ks) e r h =
    let special = if test_bit k.flags 0 then extended_key k.sc else none in
    let choose : Option EditorCmd → Option (EditorCmd × Editor × List Key) =
      λ s. elim s [ some c ↦ some (c, e, ks) | none ↦ mode_key e.mode k ks e ] in
    elim (Option-cases special) [
      | inl ordinary ↦ mode_key-IsRead e.mode k ks e r (ap choose (sym ordinary) ∙ h)
      | inr (c, found) ↦
          subst (IsRead (k ∷ ks) e) (some-injective (c, e, ks) r (ap choose (sym found) ∙ h))
            (same e.mode e.cmd_buf e.insert_ch, omega arith)
    ]
