-- ===== src/Vm/Tables/Way.antt =====
-- Three calls of `walkOrCreate` (src/vm.go) make the way to a page table.
use gooos.Common.{ℕ, suc, ◌≡◌, ◌≢◌, sym, ap, ◌∙◌, Bool, arith}
use gooos.Vm.Frames.{Frames}
use gooos.Vm.Tables.{present, page_of, index, entry_at, walk_and_get_paddr_in, create_at}
use gooos.Vm.Tables.Tree.{IsTree, IsPrivate, root-entry, walk-translate}
use gooos.Vm.Tables.Growth.{Created, create_at-Created}
use gooos.Vm.Tables.Path.{IsBelow, Reaches, below-entry}

-- Some tree that the frames hold.
pub record HasTree (shared : ℕ → Bool) (root : ℕ) (f : Frames) : Type 1 where
  pub level : ℕ → ℕ
  pub base : ℕ → ℕ
  pub held : ℕ → ℕ
  pub tree : IsTree shared level base held root f

-- what three calls of `walkOrCreate` have made of the tables
pub record Way (shared : ℕ → Bool) (root v : ℕ) (f f' : Frames) (pdp pd pt : ℕ) : Type 1 where
  pub found : HasTree shared root f'
  pub reaches : Reaches root v f'.memory pdp pd pt
  pub same :
      (w : ℕ)
      → IsPrivate shared w
      → walk_and_get_paddr_in root w f'.memory ≡ walk_and_get_paddr_in root w f.memory

create-same :
    {shared : ℕ → Bool} {level base held : ℕ → ℕ} {root : ℕ} {f : Frames}
    → (t : IsTree shared level base held root f) → (a : ℕ) (f' : Frames) (table : ℕ)
    → Created shared level base root f a f' table
    → (w : ℕ) → IsPrivate shared w
    → walk_and_get_paddr_in root w f'.memory ≡ walk_and_get_paddr_in root w f.memory
create-same {root = root} t a f' table c w p =
    let (l, b) = root-entry t w in
    walk-translate c.tree w p
    ∙ c.same 3 (entry_at root (index 3 w)) w l b p
    ∙ sym (walk-translate t w p)

-- the table below an entry stays below it under an operation on another entry
still-IsBelow :
    {shared : ℕ → Bool} {level base : ℕ → ℕ} {root a table : ℕ} {f f' : Frames}
    → Created shared level base root f a f' table
    → (b below k ka : ℕ) → level b ≡ suc k
    → level a ≡ suc ka
    → k ≢ ka
    → IsBelow f.memory b below
    → IsBelow f'.memory b below
still-IsBelow {level = level} c b below k ka lb la differ to =
    let m = c.others b (omega (arith, lb)) (λ q. differ (omega (arith, lb, la, ap level q))) in
    record { there = ap present m ∙ to.there; leads = ap page_of m ∙ to.leads }

pub three-Way :
    {shared : ℕ → Bool} {level base held : ℕ → ℕ} {root : ℕ} {f : Frames}
    → IsTree shared level base held root f
    → (v flags : ℕ) → IsPrivate shared v
    → let r1 = create_at (entry_at root (index 3 v)) flags f in
      let r2 = create_at (entry_at r1.1 (index 2 v)) flags r1.0 in
      let r3 = create_at (entry_at r2.1 (index 1 v)) flags r2.0 in
      Way shared root v f r3.0 r1.1 r2.1 r3.1
three-Way {root = root} {f = f} t v flags p =
    let a3 = entry_at root (index 3 v) in
    let (l3, b3) = root-entry t v in
    let r1 = create_at a3 flags f in
    let c1 = create_at-Created t a3 2 flags l3 in
    let to3 : IsBelow r1.0.memory a3 r1.1 = record { there = c1.there; leads = c1.leads } in
    let (l3', b3') = root-entry c1.tree v in
    let a2 = entry_at r1.1 (index 2 v) in
    let (l2, b2) = below-entry c1.tree a3 2 v r1.1 l3' b3' to3 p in
    let r2 = create_at a2 flags r1.0 in
    let c2 = create_at-Created c1.tree a2 1 flags l2 in
    let to3' = still-IsBelow c2 a3 r1.1 3 2 l3' l2 (omega arith) to3 in
    let to2 : IsBelow r2.0.memory a2 r2.1 = record { there = c2.there; leads = c2.leads } in
    let (gl2, gb2) = c2.grows a2 (omega (arith, l2)) in
    let a1 = entry_at r2.1 (index 1 v) in
    let (l1, b1) = below-entry c2.tree a2 1 v r2.1 (gl2 ∙ l2) (gb2 ∙ b2) to2 p in
    let r3 = create_at a1 flags r2.0 in
    let c3 = create_at-Created c2.tree a1 0 flags l1 in
    let (l3'', b3'') = root-entry c2.tree v in
    let found : HasTree _ root r3.0 = record {
      level = c3.level';
      base = c3.base';
      held = c3.held';
      tree = c3.tree;
    } in
    record {
      found = found;
      reaches = record {
        to_pdp = still-IsBelow c3 a3 r1.1 3 1 l3'' l1 (omega arith) to3';
        to_pd = still-IsBelow c3 a2 r2.1 2 1 (gl2 ∙ l2) l1 (omega arith) to2;
        to_pt = record { there = c3.there; leads = c3.leads };
      };
      same = λ w pw.
          create-same c2.tree a1 r3.0 r3.1 c3 w pw
          ∙ create-same c1.tree a2 r2.0 r2.1 c2 w pw
          ∙ create-same t a3 r1.0 r1.1 c1 w pw;
    }
