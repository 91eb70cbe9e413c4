-- ===== src/Vm/Tables/Creation.antt =====
-- `walkOrCreate` keeps the tree and every translation: it links a table without entries, or raises the
-- user bit.
use gooos.Common.{
  ℕ, zero, suc, ◌%◌, ◌<◌, ◌≡◌, ◌≢◌, refl, sym, ap, ◌∙◌, Bool, true, false, ◌==◌, Array, arith,
  Bool-cases, inl, inr, ==_iff, subst,
}
use gooos.Vm.Frames.{Frames}
use gooos.Vm.Tables.{present, page_of, index, entry_at, with_user, table_entry}
use gooos.Vm.Tables.Tree.{IsTree, IsPrivate, prefix, index-lt, translate, child-entry}

pub with_user_lem :
    (e : ℕ) → (present (with_user e) ≡ present e) × (page_of (with_user e) ≡ page_of e)
with_user_lem e = ground arith

pub table_entry_lem :
    (page flags : ℕ)
    → page % 4096 ≡ 0
    → (present (table_entry page flags) ≡ true) × (page_of (table_entry page flags) ≡ page)
table_entry_lem page flags aligned = ground arith

pub translate-absent :
    (k : ℕ) (mem : Array ℕ) (b v : ℕ) → present (mem b) ≡ false → translate k mem b v ≡ 0
unfolding translate
translate-absent zero mem b v h = rw h
translate-absent (suc k) mem b v h = rw h

pub translate-present :
    (k : ℕ) (mem : Array ℕ) (b page v : ℕ)
    → present (mem b) ≡ true
    → page_of (mem b) ≡ page
    → translate (suc k) mem b v ≡ translate k mem (entry_at page (index k v)) v
unfolding translate
translate-present k mem b page v h e = rw (h, sym e) refl

module _ {shared : ℕ → Bool} {level base held : ℕ → ℕ} {root : ℕ} {f : Frames}
    (t : IsTree shared level base held root f) where
  -- Memory that differs from the tree's at the entry `a` alone, where a table without entries may have
  -- been linked, translates every address as before.
  pub translate_same :
      (mem : Array ℕ) (a ka : ℕ)
      → level a ≡ suc (suc ka)
      → ((b : ℕ) → 0 < level b → b ≢ a → mem b ≡ f.memory b)
      → (present (f.memory a) ≡ true
          → (present (mem a) ≡ true) × (page_of (mem a) ≡ page_of (f.memory a)))
      → (present (f.memory a) ≡ false
          → (i : ℕ) → i < 512
          → present (mem (entry_at (page_of (mem a)) i)) ≡ false)
      → (k b v : ℕ) → level b ≡ suc k
      → base b ≡ prefix k v
      → IsPrivate shared v
      → translate k mem b v ≡ translate k f.memory b v
  unfolding translate
  translate_same mem a ka at others kept fresh zero b v lb bb p =
      let other : b ≢ a = λ e. absurd (ground (arith, ap level e)) in
      let same = others b (omega arith) other in rw same refl
  translate_same mem a ka at others kept fresh (suc k) b v lb bb p =
      let rec = translate_same mem a ka at others kept fresh k in
      elim (Bool-cases (b == a)) [
        | inl here ↦
            let e : b ≡ a = (==_iff b a).0 here in
            let move : mem b ≡ mem a = ap mem e in
            let move_old : f.memory b ≡ f.memory a = ap f.memory e in
            elim (Bool-cases (present (f.memory a))) [
              | inl there ↦
                  let there_b : present (f.memory b) ≡ true = ap present move_old ∙ there in
                  let (lc, bc) = child-entry t b k v lb bb there_b p in
                  let (still, page) = kept there in
                  let still_b = ap present move ∙ still in
                  let page_b = ap page_of move ∙ page ∙ sym (ap page_of move_old) in
                  translate-present k mem b (page_of (f.memory b)) v still_b page_b
                  ∙ rec (entry_at (page_of (f.memory b)) (index k v)) v lc bc p
                  ∙ sym (translate-present k f.memory b (page_of (f.memory b)) v there_b refl)
              | inr absent ↦
                  let absent_b : present (f.memory b) ≡ false = ap present move_old ∙ absent in
                  let none_at : (page : ℕ)
                      → page_of (mem a) ≡ page
                      → present (mem (entry_at page (index k v))) ≡ false =
                    λ page q.
                      subst (λ x. present (mem (entry_at x (index k v))) ≡ false) q
                        (fresh absent (index k v) (index-lt k v)) in
                  let below =
                    translate-absent k mem (entry_at (page_of (mem b)) (index k v)) v
                      (none_at (page_of (mem b)) (sym (ap page_of move))) in
                  elim (Bool-cases (present (mem b))) [
                    | inl there_b ↦
                        translate-present k mem b (page_of (mem b)) v there_b refl
                        ∙ below
                        ∙ sym (translate-absent (suc k) f.memory b v absent_b)
                    | inr none_b ↦
                        translate-absent (suc k) mem b v none_b
                        ∙ sym (translate-absent (suc k) f.memory b v absent_b)
                  ]
            ]
        | inr elsewhere ↦
            let other : b ≢ a = λ e. ground (arith, e, elsewhere) in
            let same = others b (omega arith) other in
            elim (Bool-cases (present (f.memory b))) [
              | inl there ↦
                  let there_b : present (mem b) ≡ true = ap present same ∙ there in
                  let (lc, bc) = child-entry t b k v lb bb there p in
                  translate-present k mem b (page_of (f.memory b)) v there_b (ap page_of same)
                  ∙ rec (entry_at (page_of (f.memory b)) (index k v)) v lc bc p
                  ∙ sym (translate-present k f.memory b (page_of (f.memory b)) v there refl)
              | inr absent ↦
                  translate-absent (suc k) mem b v (ap present same ∙ absent)
                  ∙ sym (translate-absent (suc k) f.memory b v absent)
            ]
      ]
