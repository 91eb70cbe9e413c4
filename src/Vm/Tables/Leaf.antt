-- ===== src/Vm/Tables/Leaf.antt =====
-- A write to an entry of a page table of src/vm.go: it changes the translation of one page.
use gooos.Common.{
  ℕ, zero, suc, ◌≡◌, ◌≢◌, refl, sym, ap, ◌∙◌, Bool, update, update_ne, arith, Bool-cases, inl, inr,
}
use gooos.Vm.Frames.{Frames}
use gooos.Vm.Tables.{present, page_of, index, entry_at, walk_and_get_paddr_in}
use gooos.Vm.Tables.Tree.{
  IsTree, IsPrivate, prefix, translate, child-entry, root-entry, walk-translate,
}
use gooos.Vm.Tables.Creation.{translate-present, translate-absent}
use gooos.Vm.Tables.Growth.{IsSound-memory}

module _ {shared : ℕ → Bool} {level base held : ℕ → ℕ} {root : ℕ} {f : Frames}
    (t : IsTree shared level base held root f) where
  pub leaf-IsTree :
      (a e : ℕ)
      → level a ≡ 1
      → IsTree shared level base held root (record f { memory = update f.memory a e })
  leaf-IsTree a e at =
      let mem = update f.memory a e in
      let same : (b k : ℕ) → level b ≡ suc (suc k) → mem b ≡ f.memory b =
        λ b k l. update_ne f.memory a b e (λ q. omega (arith, ap level q)) in
      record {
        sound = IsSound-memory held f mem t.sound;
        zero_held = t.zero_held;
        root_level = t.root_level;
        child = λ b k i l p h op.
            let m = same b k l in rw m (t.child b k i l (ap present (sym m) ∙ p) h op);
        child_pos =
            λ b k l p. let m = same b k l in rw m (t.child_pos b k l (ap present (sym m) ∙ p));
        kept = t.kept;
        low = t.low;
      }

  translate_other :
      (a e : ℕ)
      → level a ≡ 1
      → (k b v : ℕ) → level b ≡ suc k
      → base b ≡ prefix k v
      → IsPrivate shared v
      → prefix 0 v ≢ base a
      → translate k (update f.memory a e) b v ≡ translate k f.memory b v
  unfolding translate
  translate_other a e at zero b v lb bb p h =
      let m = update_ne f.memory a b e (λ q. h (sym bb ∙ ap base (sym q))) in rw m refl
  translate_other a e at (suc k) b v lb bb p h =
      let mem = update f.memory a e in
      let m = update_ne f.memory a b e (λ q. omega (arith, ap level q)) in
      let page = page_of (f.memory b) in
      elim (Bool-cases (present (f.memory b))) [
        | inl there ↦
            let (lc, bc) = child-entry t b k v lb bb there p in
            translate-present k mem b page v (ap present m ∙ there) (ap page_of m)
            ∙ translate_other a e at k (entry_at page (index k v)) v lc bc p h
            ∙ sym (translate-present k f.memory b page v there refl)
        | inr absent ↦
            translate-absent (suc k) mem b v (ap present m ∙ absent)
            ∙ sym (translate-absent (suc k) f.memory b v absent)
      ]

  -- a page that is not the leaf's is walked as before
  pub leaf_other :
      (a e : ℕ)
      → level a ≡ 1
      → (v : ℕ) → IsPrivate shared v
      → prefix 0 v ≢ base a
      → walk_and_get_paddr_in root v (update f.memory a e) ≡ walk_and_get_paddr_in root v f.memory
  leaf_other a e at v p h =
      let (l, b) = root-entry t v in
      walk-translate (leaf-IsTree a e at) v p
      ∙ translate_other a e at 3 (entry_at root (index 3 v)) v l b p h
      ∙ sym (walk-translate t v p)
