-- ===== src/Vm/Tables/Growth.antt =====
-- `walkOrCreate` grows the tree of src/vm.go by one table at most, and the address of the table that it
-- returns is where its entry leads.
use gooos.Common.{
  ℕ, suc, ◌+◌, ◌-◌, ◌*◌, ◌/◌, ◌%◌, ◌<◌, ◌≡◌, ◌≢◌, refl, sym, ap, ◌∙◌, Bool, true, false, ◌&&◌, ◌==◌,
  ltb, leb, if◌then◌else◌, Array, update, update_self, update_ne, arith, Bool-cases, inl, inr, ◌⊎◌,
  ==_iff,
}
use gooos.Vm.Frames.{Frames, alloc_page}
use gooos.Vm.Frames.Ledger.{IsSound, gain, alloc_page-IsSound}
use gooos.Vm.Tables.{present, user, page_of, entry_at, with_user, table_entry, create_at}
use gooos.Vm.Tables.Tree.{IsTree, IsPrivate, prefix, is_shared, translate}
use gooos.Vm.Tables.Creation.{translate_same, with_user_lem, table_entry_lem}

pub IsSound-memory :
    (held : ℕ → ℕ) (f : Frames) (mem : Array ℕ)
    → IsSound held f
    → IsSound held (record f { memory = mem })
IsSound-memory held f mem v = record { aligned = v.aligned; stack_in = v.stack_in; once = v.once }

-- the level and the base of an entry once the page at `new` holds a table below the entry at `a`
abbrev pub new_level : ℕ → ℕ → (ℕ → ℕ) → ℕ → ℕ
new_level new n level b = if page_of b == new then n else level b

abbrev pub new_base : ℕ → ℕ → (ℕ → ℕ) → ℕ → ℕ
new_base new n base b = if page_of b == new then n * 512 + (b - new) / 8 else base b

-- What becomes of the tree under an operation on the entry at `a`: `frames` have a tree, with the old
-- entries where they were, `a` leads to `table`, and every translation is the old one.
pub record Created (shared : ℕ → Bool) (level base : ℕ → ℕ) (root : ℕ) (f : Frames) (a : ℕ)
    (frames : Frames) (table : ℕ) : Type 1 where
  pub level' : ℕ → ℕ
  pub base' : ℕ → ℕ
  pub held' : ℕ → ℕ
  pub tree : IsTree shared level' base' held' root frames
  pub grows : (b : ℕ) → 0 < level b → (level' b ≡ level b) × (base' b ≡ base b)
  pub others : (b : ℕ) → 0 < level b → b ≢ a → frames.memory b ≡ f.memory b
  pub there : present (frames.memory a) ≡ true
  pub leads : page_of (frames.memory a) ≡ table
  pub same :
      (k b v : ℕ)
      → level b ≡ suc k
      → base b ≡ prefix k v
      → IsPrivate shared v
      → translate k frames.memory b v ≡ translate k f.memory b v

module _ {shared : ℕ → Bool} {level base held : ℕ → ℕ} {root : ℕ} {f : Frames}
    (t : IsTree shared level base held root f) where
  -- the entry is there, and its permissions alone change
  raise-Created :
      (a k e : ℕ)
      → level a ≡ suc (suc k)
      → present (f.memory a) ≡ true
      → present e ≡ true
      → page_of e ≡ page_of (f.memory a)
      → Created shared level base root f a (record f { memory = update f.memory a e }) (page_of e)
  raise-Created a k e at there pe page =
      let mem = update f.memory a e in
      let others : (b : ℕ) → b ≢ a → mem b ≡ f.memory b =
        λ b h. update_ne f.memory a b e (λ q. h (sym q)) in
      let self = update_self f.memory a e in
      let is_there : (b : ℕ) → present (mem b) ≡ true → present (f.memory b) ≡ true =
        λ b h. ground (arith) in
      let page_at : (b : ℕ) → page_of (mem b) ≡ page_of (f.memory b) = λ b. ground (arith) in
      record {
        level' = level;
        base' = base;
        held' = held;
        tree = record {
          sound = IsSound-memory held f mem t.sound;
          zero_held = t.zero_held;
          root_level = t.root_level;
          child = λ b k' i lb pb h op. rw (page_at b) (t.child b k' i lb (is_there b pb) h op);
          child_pos = λ b k' lb pb. rw (page_at b) (t.child_pos b k' lb (is_there b pb));
          kept = t.kept;
          low = t.low;
        };
        grows = λ b h. (refl, refl);
        others = λ b l h. others b h;
        there = ap present self ∙ pe;
        leads = ap page_of self;
        same =
            translate_same t mem a k at (λ b l h. others b h)
              (λ h. (ap present self ∙ pe, ap page_of self ∙ page))
              (λ h. absurd (ground (arith, h, there)));
      }

  -- An entry above the lowest level that is there, once the page at `new` holds no word, is an old one:
  -- it is `a`, or as it was.
  old_entry :
      (mem : Array ℕ) (a new n : ℕ)
      → ((b : ℕ) → 0 < level b → b ≢ a → mem b ≡ f.memory b)
      → ((b : ℕ) → page_of b ≡ new → mem b ≡ 0)
      → (b k : ℕ) → new_level new n level b ≡ suc (suc k)
      → present (mem b) ≡ true
      → (page_of b ≢ new) × (level b ≡ suc (suc k)) × ((b ≡ a) ⊎ (mem b ≡ f.memory b))
  old_entry mem a new n others blank b k l p =
      let out : page_of b ≢ new = λ q. ground (arith, ap present (blank b q), p) in
      let old : level b ≡ suc (suc k) = ground (arith, l, out) in
      (
        out,
        old,
        elim (Bool-cases (b == a)) [
          | inl here ↦ inl ((==_iff b a).0 here)
          | inr elsewhere ↦ inr (others b (omega (arith, old)) (λ q. ground (arith, q, elsewhere)))
        ],
      )

  -- the entry is absent, and a page without words becomes the table below it
  link-Created :
      (a k new e : ℕ)
      → (g : Frames) → level a ≡ suc (suc k)
      → present (f.memory a) ≡ false
      → present e ≡ true
      → page_of e ≡ new
      → IsSound (gain new held) g
      → held new ≡ 0
      → ((b : ℕ) → g.memory b ≡ (if leb new b && ltb b (new + 4096) then 0 else f.memory b))
      → Created shared level base root f a (record g { memory = update g.memory a e }) new
  link-Created a k new e g at absent pe page sound free words =
      let mem = update g.memory a e in
      let l' = new_level new (suc k) level in
      let b' = new_base new (base a) base in
      let aligned : new % 4096 ≡ 0 = ground (arith, page) in
      let old : (b : ℕ) → 0 < level b → page_of b ≢ new =
        λ b h q. ground (arith, t.kept b h, ap held q, free) in
      let old_a = old a (omega arith) in
      let others : (b : ℕ) → 0 < level b → b ≢ a → mem b ≡ f.memory b =
        λ b l h. ground (arith, update_ne g.memory a b e, words b, old b l) in
      let self = update_self g.memory a e in
      let blank : (b : ℕ) → page_of b ≡ new → mem b ≡ 0 =
        λ b q. ground (arith, update_ne g.memory a b e, words b, old_a) in
      let grown : (b : ℕ) → 0 < level b → (l' b ≡ level b) × (b' b ≡ base b) =
        λ b h. ground (arith, old b h) in
      let inside : (i : ℕ) → i < 512 → page_of (entry_at new i) ≡ new =
        λ i h. omega (arith, aligned) in
      let below : (i : ℕ)
          → i < 512
          → (l' (entry_at new i) ≡ suc k) × (b' (entry_at new i) ≡ base a * 512 + i) =
        λ i h. let q = inside i h in ground (arith, q, aligned) in
      let leads : page_of (mem a) ≡ new = ap page_of self ∙ page in
      let pos : new ≢ 0 = λ q. ground (arith, t.zero_held, ap held q, free) in
      record {
        level' = l';
        base' = b';
        held' = gain new held;
        tree = record {
          sound = IsSound-memory (gain new held) g mem sound;
          zero_held = ground (arith, t.zero_held);
          root_level = λ i h.
              let (l, b) = t.root_level i h in
              let (l2, b2) = grown (entry_at root i) (omega (arith, l)) in (l2 ∙ l, b2 ∙ b);
          child = λ b k' i lb pb h op.
              let (out, lb', which) = old_entry mem a new (suc k) others blank b k' lb pb in
              let bb : b' b ≡ base b = ground (arith, out) in
              elim which [
                | inl q ↦
                    let page_b : page_of (mem b) ≡ new = ap page_of (ap mem q) ∙ leads in
                    let (l, c) = below i h in
                    let kk : suc k ≡ suc k' = omega (arith, lb', ap level q) in
                    rw page_b (
                      l ∙ kk,
                      c ∙ ap (λ x. base x * 512 + i) (sym q) ∙ ap (λ x. x * 512 + i) (sym bb),
                    )
                | inr m ↦
                    let op' = ap (λ x. is_shared shared k' (x * 512 + i)) (sym bb) ∙ op in
                    let (l, c) = t.child b k' i lb' (ap present (sym m) ∙ pb) h op' in
                    let (l2, c2) = grown (entry_at (page_of (f.memory b)) i) (omega (arith, l)) in
                    rw m (l2 ∙ l, c2 ∙ c ∙ ap (λ x. x * 512 + i) (sym bb))
              ];
          child_pos = λ b k' lb pb.
              let (out, lb', which) = old_entry mem a new (suc k) others blank b k' lb pb in
              elim which [
                | inl q ↦
                    let page_b : page_of (mem b) ≡ new = ap page_of (ap mem q) ∙ leads in
                    rw page_b pos
                | inr m ↦ rw m (t.child_pos b k' lb' (ap present (sym m) ∙ pb))
              ];
          kept = λ b h. ground (arith, t.kept b);
          low = λ b. ground (arith, t.low a, t.low b);
        };
        grows = grown;
        others = others;
        there = ap present self ∙ pe;
        leads = ap page_of self ∙ page;
        same =
            translate_same t mem a k at others (λ h. absurd (ground (arith, h, absent)))
              (λ h i lt. let q = inside i lt in rw leads (ap present (blank (entry_at new i) q)));
      }

  -- the whole operation, on an entry above the lowest level
  pub create_at-Created :
      (a k flags : ℕ)
      → level a ≡ suc (suc k)
      → let (f', table) = create_at a flags f in Created shared level base root f a f' table
  unfolding create_at
  create_at-Created a k flags at =
      let e = f.memory a in
      let raised = if user flags then with_user e else e in
      let new = alloc_page f in
      let (sound, free, aligned, words) = alloc_page-IsSound held f t.sound in
      elim (Bool-cases (present e)) [
        | inl there ↦
            let (p, q) = with_user_lem e in
            rw there
              (raise-Created a k raised at there (ground (arith, p, there)) (ground (arith, q)))
        | inr absent ↦
            let (p, q) = table_entry_lem new.1 flags aligned in
            rw absent (
              link-Created a k new.1 (table_entry new.1 flags) new.0 at absent p q sound free words)
      ]
