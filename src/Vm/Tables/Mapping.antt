-- ===== src/Vm/Tables/Mapping.antt =====
-- `mapPageInto` and `unmapPageFrom` of src/vm.go on a tree of page tables.
use gooos.Common.{
  ℕ, ◌+◌, ◌<◌, ◌≡◌, ◌≢◌, refl, ◌∙◌, Bool, true, ◌==◌, Array, update, arith, Bool-cases, inl, inr,
  ◌⊎◌,
}
use gooos.Vm.Frames.{Frames}
use gooos.Vm.Tables.{
  present, page_of, index, entry_at, walk_and_get_paddr_in, walk_existing, walk_or_create,
  create_at, map_page_into, unmap_page_from,
}
use gooos.Vm.Tables.Tree.{IsTree, IsPrivate, prefix}
use gooos.Vm.Tables.Leaf.{leaf-IsTree, leaf_other}
use gooos.Vm.Tables.Path.{IsBelow, Reaches, leaf-entry, leaf_same}
use gooos.Vm.Tables.Way.{HasTree, three-Way}

-- On page tables that are a tree, a private address is one that no shared table maps. After `mapPageInto`
-- of a private address, with flags below the page size that hold the present bit, the walk of that address
-- finds the frame that it was given, every private address of another page is walked to what it was, and
-- the tables are a tree.
pub map_page_into_lem :
    {shared : ℕ → Bool} {level base held : ℕ → ℕ}
    → (root : ℕ) (f : Frames) → IsTree shared level base held root f
    → (v paddr flags : ℕ) → IsPrivate shared v
    → flags < 4096
    → present flags ≡ true
    → let f' = map_page_into root v paddr flags f in
      (walk_and_get_paddr_in root v f'.memory ≡ page_of paddr)
      × ((w : ℕ)
          → IsPrivate shared w
          → prefix 0 w ≢ prefix 0 v
          → walk_and_get_paddr_in root w f'.memory ≡ walk_and_get_paddr_in root w f.memory)
      × HasTree shared root f'
unfolding map_page_into walk_or_create
map_page_into_lem root f t v paddr flags p small there =
    let r1 = create_at (entry_at root (index 3 v)) flags f in
    let r2 = create_at (entry_at r1.1 (index 2 v)) flags r1.0 in
    let r3 = create_at (entry_at r2.1 (index 1 v)) flags r2.0 in
    let way = three-Way t v flags p in
    let found = way.found in
    let e = page_of paddr + flags in
    let a = entry_at r3.1 (index 0 v) in
    let (l, b) = leaf-entry found.tree v r1.1 r2.1 r3.1 p way.reaches in
    let here = leaf_same found.tree v r1.1 r2.1 r3.1 e p way.reaches in
    let is_there : present e ≡ true = ground (arith, there) in
    let page : page_of e ≡ page_of paddr = omega arith in
    (
      here ∙ ground (arith, is_there, page),
      λ w pw other. leaf_other found.tree a e l w pw (λ q. other (q ∙ b)) ∙ way.same w pw,
      record {
        level = found.level;
        base = found.base;
        held = found.held;
        tree = leaf-IsTree found.tree a e l;
      },
    )

walk_existing-IsBelow :
    (mem : Array ℕ) (table i page : ℕ)
    → walk_existing mem table i ≡ page
    → page ≢ 0
    → IsBelow mem (entry_at table i) page
unfolding walk_existing
walk_existing-IsBelow mem table i page h pos =
    elim (Bool-cases (present (mem (entry_at table i)))) [
      | inl there ↦ record { there = there; leads = ground (arith, h, there) }
      | inr absent ↦ absurd (pos (ground (arith, h, absent)))
    ]

-- Either a table is missing, or the entry of the page is there to be cleared.
unmap-cases :
    (root v : ℕ) (mem : Array ℕ)
    → let mem' = unmap_page_from root v mem in
      let pdp = walk_existing mem root (index 3 v) in
      let pd = walk_existing mem pdp (index 2 v) in
      let pt = walk_existing mem pd (index 1 v) in
      ((walk_and_get_paddr_in root v mem ≡ 0) × (mem' ≡ mem))
      ⊎ (Reaches root v mem pdp pd pt × (mem' ≡ update mem (entry_at pt (index 0 v)) 0))
unfolding unmap_page_from walk_and_get_paddr_in
unmap-cases root v mem =
    let pdp = walk_existing mem root (index 3 v) in
    let pd = walk_existing mem pdp (index 2 v) in
    let pt = walk_existing mem pd (index 1 v) in
    elim (Bool-cases (pdp == 0)) [
      | inl none ↦ rw none (inl (refl, refl))
      | inr some3 ↦ elim (Bool-cases (pd == 0)) [
        | inl none ↦ rw (some3, none) (inl (refl, refl))
        | inr some2 ↦ elim (Bool-cases (pt == 0)) [
          | inl none ↦ rw (some3, some2, none) (inl (refl, refl))
          | inr some1 ↦
              rw (some3, some2, some1)
                (inr (
                  record {
                    to_pdp =
                        walk_existing-IsBelow mem root (index 3 v) pdp refl
                          (λ q. ground (arith, q, some3));
                    to_pd =
                        walk_existing-IsBelow mem pdp (index 2 v) pd refl
                          (λ q. ground (arith, q, some2));
                    to_pt =
                        walk_existing-IsBelow mem pd (index 1 v) pt refl
                          (λ q. ground (arith, q, some1));
                  },
                  refl,
                ))
        ]
      ]
    ]

-- On page tables that are a tree, after `unmapPageFrom` of a private address the walk of that address
-- finds no frame, every private address of another page is walked to what it was, and the tables are a
-- tree.
pub unmap_page_from_lem :
    {shared : ℕ → Bool} {level base held : ℕ → ℕ}
    → (root : ℕ) (f : Frames) → IsTree shared level base held root f
    → (v : ℕ) → IsPrivate shared v
    → let f' : Frames = record f { memory = unmap_page_from root v f.memory } in
      (walk_and_get_paddr_in root v f'.memory ≡ 0)
      × ((w : ℕ)
          → IsPrivate shared w
          → prefix 0 w ≢ prefix 0 v
          → walk_and_get_paddr_in root w f'.memory ≡ walk_and_get_paddr_in root w f.memory)
      × HasTree shared root f'
unmap_page_from_lem {shared = shared} {level = level} {base = base} {held = held} root f t v p =
    elim (unmap-cases root v f.memory) [
      | inl (none, same) ↦
          let kept : IsTree shared level base held root (record f { memory = f.memory }) = t in
          rw same (
            none,
            λ w pw other. refl,
            record { level = level; base = base; held = held; tree = kept },
          )
      | inr (way, cleared) ↦
          let pdp = walk_existing f.memory root (index 3 v) in
          let pd = walk_existing f.memory pdp (index 2 v) in
          let pt = walk_existing f.memory pd (index 1 v) in
          let (l, b) = leaf-entry t v pdp pd pt p way in
          rw cleared (
            leaf_same t v pdp pd pt 0 p way,
            λ w pw other. leaf_other t (entry_at pt (index 0 v)) 0 l w pw (λ q. other (q ∙ b)),
            record {
              level = level;
              base = base;
              held = held;
              tree = leaf-IsTree t (entry_at pt (index 0 v)) 0 l;
            },
          )
    ]
