-- ===== src/Vm/Tables/Path.antt =====
-- The tables of src/vm.go on the way to the entry of a page.
use gooos.Common.{
  ℕ, suc, ◌≡◌, sym, ap, ◌∙◌, Bool, true, if◌then◌else◌, Array, update, update_self, update_ne,
  arith,
}
use gooos.Vm.Frames.{Frames}
use gooos.Vm.Tables.{present, page_of, index, entry_at, walk_and_get_paddr_in}
use gooos.Vm.Tables.Tree.{
  IsTree, IsPrivate, prefix, translate, child-entry, root-entry, walk-translate,
}
use gooos.Vm.Tables.Creation.{translate-present}
use gooos.Vm.Tables.Leaf.{leaf-IsTree}

-- `table` is `mem`'s table below the entry at `a`
pub record IsBelow (mem : Array ℕ) (a table : ℕ) : Type 0 where
  pub there : present (mem a) ≡ true
  pub leads : page_of (mem a) ≡ table

-- the way from the root to the page table of `v`
pub record Reaches (root v : ℕ) (mem : Array ℕ) (pdp pd pt : ℕ) : Type 0 where
  pub to_pdp : IsBelow mem (entry_at root (index 3 v)) pdp
  pub to_pd : IsBelow mem (entry_at pdp (index 2 v)) pd
  pub to_pt : IsBelow mem (entry_at pd (index 1 v)) pt

module _ {shared : ℕ → Bool} {level base held : ℕ → ℕ} {root : ℕ} {f : Frames}
    (t : IsTree shared level base held root f) where
  pub below-entry :
      (a k v table : ℕ)
      → level a ≡ suc (suc k)
      → base a ≡ prefix (suc k) v
      → IsBelow f.memory a table
      → IsPrivate shared v
      → let c = entry_at table (index k v) in (level c ≡ suc k) × (base c ≡ prefix k v)
  below-entry a k v table at under to p =
      let both = child-entry t a k v at under to.there p in
      (
        ap (λ x. level (entry_at x (index k v))) (sym to.leads) ∙ both.0,
        ap (λ x. base (entry_at x (index k v))) (sym to.leads) ∙ both.1,
      )

  pub leaf-entry :
      (v pdp pd pt : ℕ)
      → IsPrivate shared v
      → Reaches root v f.memory pdp pd pt
      → let c = entry_at pt (index 0 v) in (level c ≡ 1) × (base c ≡ prefix 0 v)
  leaf-entry v pdp pd pt p r =
      let (l3, b3) = root-entry t v in
      let (l2, b2) = below-entry (entry_at root (index 3 v)) 2 v pdp l3 b3 r.to_pdp p in
      let (l1, b1) = below-entry (entry_at pdp (index 2 v)) 1 v pd l2 b2 r.to_pd p in
      below-entry (entry_at pd (index 1 v)) 0 v pt l1 b1 r.to_pt p

  -- what the walk finds is the entry at the end of the way
  pub walk-Reaches :
      (v pdp pd pt : ℕ)
      → IsPrivate shared v
      → Reaches root v f.memory pdp pd pt
      → let e = f.memory (entry_at pt (index 0 v)) in
        walk_and_get_paddr_in root v f.memory ≡ (if present e then page_of e else 0)
  unfolding translate
  walk-Reaches v pdp pd pt p r =
      walk-translate t v p
      ∙ translate-present 2 f.memory (entry_at root (index 3 v)) pdp v r.to_pdp.there r.to_pdp.leads
      ∙ translate-present 1 f.memory (entry_at pdp (index 2 v)) pd v r.to_pd.there r.to_pd.leads
      ∙ translate-present 0 f.memory (entry_at pd (index 1 v)) pt v r.to_pt.there r.to_pt.leads

module _ {shared : ℕ → Bool} {level base held : ℕ → ℕ} {root : ℕ} {f : Frames}
    (t : IsTree shared level base held root f) where
  -- A write of `e` to the entry of `v`, whose tables are there.
  pub leaf_same :
      (v pdp pd pt e : ℕ)
      → IsPrivate shared v
      → Reaches root v f.memory pdp pd pt
      → walk_and_get_paddr_in root v (update f.memory (entry_at pt (index 0 v)) e)
        ≡ (if present e then page_of e else 0)
  leaf_same v pdp pd pt e p r =
      let a = entry_at pt (index 0 v) in
      let mem = update f.memory a e in
      let (l, b) = leaf-entry t v pdp pd pt p r in
      let (l3, b3) = root-entry t v in
      let (l2, b2) = below-entry t (entry_at root (index 3 v)) 2 v pdp l3 b3 r.to_pdp p in
      let (l1, b1) = below-entry t (entry_at pdp (index 2 v)) 1 v pd l2 b2 r.to_pd p in
      let still : (b k table : ℕ)
          → level b ≡ suc (suc k)
          → IsBelow f.memory b table
          → IsBelow mem b table =
        λ b k table lb to.
          let m = update_ne f.memory a b e (λ q. omega (arith, ap level q)) in
          record { there = ap present m ∙ to.there; leads = ap page_of m ∙ to.leads } in
      let r' : Reaches root v mem pdp pd pt = record {
        to_pdp = still (entry_at root (index 3 v)) 2 pdp l3 r.to_pdp;
        to_pd = still (entry_at pdp (index 2 v)) 1 pd l2 r.to_pd;
        to_pt = still (entry_at pd (index 1 v)) 0 pt l1 r.to_pt;
      } in
      let self = update_self f.memory a e in
      walk-Reaches (leaf-IsTree t a e l) v pdp pd pt p r'
      ∙ ap (λ x. if present x then page_of x else 0) self
