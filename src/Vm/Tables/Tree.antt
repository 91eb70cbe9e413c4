-- ===== src/Vm/Tables/Tree.antt =====
-- What makes page tables a tree, and the translation of an address from any level on.
use gooos.Common.{
  ℕ, zero, suc, ◌+◌, ◌*◌, ◌/◌, ◌%◌, ◌<◌, ◌≤◌, ◌≡◌, ◌≢◌, refl, ap, ◌∙◌, Bool, true, false, ◌&&◌,
  ◌==◌, if◌then◌else◌, Array, arith, Bool-cases, inl, inr,
}
use gooos.Vm.Frames.{Frames}
use gooos.Vm.Frames.Ledger.{IsSound}
use gooos.Vm.Tables.{present, page_of, index, entry_at, walk_existing, walk_and_get_paddr_in}

-- The part of a virtual address that is walked before the entry of a level is read.
unfoldable pub prefix : ℕ → ℕ → ℕ
prefix zero v = v / 4096 % 68719476736
prefix (suc zero) v = v / 2097152 % 134217728
prefix (suc (suc zero)) v = v / 1073741824 % 262144
prefix (suc (suc (suc k))) v = v / 549755813888 % 512

pub prefix_step : (k : ℕ) (v : ℕ) → k < 3 → prefix k v ≡ prefix (suc k) v * 512 + index k v
unfolding prefix index
prefix_step zero v h = omega arith
prefix_step (suc zero) v h = omega arith
prefix_step (suc (suc zero)) v h = omega arith
prefix_step (suc (suc (suc k))) v h = absurd (omega arith)

pub index-lt : (k v : ℕ) → index k v < 512
unfolding index
index-lt zero v = omega arith
index-lt (suc zero) v = omega arith
index-lt (suc (suc zero)) v = omega arith
index-lt (suc (suc (suc k))) v = omega arith

-- Whether a gigabyte, by its number, is one that is mapped by tables shared with others.
abbrev pub is_shared : (ℕ → Bool) → ℕ → ℕ → Bool
is_shared shared k x = k == 2 && shared x

-- The tables below `root` that are not shared. `level a` is one more than the level of the entry at `a`,
-- 0 for what is no entry; `base a` is the prefix of the addresses that the walk comes to `a` with.
-- Every present entry above the lowest level leads to a table of entries one level below; the tables
-- are frames that are held.
pub record IsTree (shared : ℕ → Bool) (level base held : ℕ → ℕ) (root : ℕ) (f : Frames)
    : Type 0 where
  pub sound : IsSound held f
  pub zero_held : 0 < held 0
  pub root_level : (i : ℕ) → i < 512 → (level (entry_at root i) ≡ 4) × (base (entry_at root i) ≡ i)
  pub child :
      (a k i : ℕ)
      → level a ≡ suc (suc k)
      → present (f.memory a) ≡ true
      → i < 512
      → is_shared shared k (base a * 512 + i) ≡ false
      → (level (entry_at (page_of (f.memory a)) i) ≡ suc k)
        × (base (entry_at (page_of (f.memory a)) i) ≡ base a * 512 + i)
  pub child_pos :
      (a k : ℕ) → level a ≡ suc (suc k) → present (f.memory a) ≡ true → page_of (f.memory a) ≢ 0
  pub kept : (a : ℕ) → 0 < level a → 0 < held (page_of a)
  pub low : (a : ℕ) → level a ≤ 4

-- the translation from the entry at `a`, of level `k`, on
unfoldable pub translate : ℕ → Array ℕ → ℕ → ℕ → ℕ
translate zero mem a v = if present (mem a) then page_of (mem a) else 0
translate (suc k) mem a v =
    let rest = translate k mem (entry_at (page_of (mem a)) (index k v)) v in
    if present (mem a) then rest else 0

-- An address that no shared table maps.
abbrev pub IsPrivate : (ℕ → Bool) → ℕ → Type 0
IsPrivate shared v = shared (prefix 2 v) ≡ false

pub private_at :
    (shared : ℕ → Bool) (k v : ℕ) → IsPrivate shared v → is_shared shared k (prefix k v) ≡ false
private_at shared zero v p = refl
private_at shared (suc zero) v p = refl
private_at shared (suc (suc zero)) v p = p
private_at shared (suc (suc (suc k))) v p = ground arith

module _ {shared : ℕ → Bool} {level base held : ℕ → ℕ} {root : ℕ} {f : Frames}
    (t : IsTree shared level base held root f) where
  -- the entry that a present one leads an address to
  pub child-entry :
      (a k v : ℕ)
      → level a ≡ suc (suc k)
      → base a ≡ prefix (suc k) v
      → present (f.memory a) ≡ true
      → IsPrivate shared v
      → let c = entry_at (page_of (f.memory a)) (index k v) in
        (level c ≡ suc k) × (base c ≡ prefix k v)
  child-entry a k v at under there p =
      let step = prefix_step k v (omega (arith, t.low a)) in
      let own : base a * 512 + index k v ≡ prefix k v = omega arith in
      let open_here = ap (is_shared shared k) own ∙ private_at shared k v p in
      let (l, b) = t.child a k (index k v) at there (index-lt k v) open_here in (l, b ∙ own)

  -- the first entry of a walk
  pub root-entry :
      (v : ℕ) → let a = entry_at root (index 3 v) in (level a ≡ 4) × (base a ≡ prefix 3 v)
  unfolding prefix index
  root-entry v = t.root_level (v / 549755813888 % 512) (omega arith)

  -- The walk of the source, which tests the address of each table for 0, is the translation.
  pub walk-translate :
      (v : ℕ)
      → IsPrivate shared v
      → walk_and_get_paddr_in root v f.memory ≡ translate 3 f.memory (entry_at root (index 3 v)) v
  unfolding walk_and_get_paddr_in walk_existing translate
  walk-translate v p =
      let a3 = entry_at root (index 3 v) in
      let (l3, b3) = root-entry v in
      let a2 = entry_at (page_of (f.memory a3)) (index 2 v) in
      let a1 = entry_at (page_of (f.memory a2)) (index 1 v) in
      elim (Bool-cases (present (f.memory a3))) [
        | inr none3 ↦ ground (arith, none3)
        | inl some3 ↦
            let (l2, b2) = child-entry a3 2 v l3 b3 some3 p in
            let pos3 = t.child_pos a3 2 l3 some3 in
            elim (Bool-cases (present (f.memory a2))) [
              | inr none2 ↦ ground (arith, some3, none2, pos3)
              | inl some2 ↦
                  let (l1, b1) = child-entry a2 1 v l2 b2 some2 p in
                  let pos2 = t.child_pos a2 1 l2 some2 in
                  elim (Bool-cases (present (f.memory a1))) [
                    | inr none1 ↦ ground (arith, some3, some2, none1, pos3, pos2)
                    | inl some1 ↦
                        let pos1 = t.child_pos a1 0 l1 some1 in
                        ground (arith, some3, some2, some1, pos3, pos2, pos1)
                  ]
            ]
      ]
