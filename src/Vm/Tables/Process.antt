-- ===== src/Vm/Tables/Process.antt =====
-- The tables of a new process (src/proc_pml4.go) are a tree in which nothing of its own is mapped.
use gooos.Common.{
  ℕ, suc, ◌+◌, ◌-◌, ◌*◌, ◌/◌, ◌%◌, ◌<◌, ◌≡◌, ◌≢◌, refl, sym, ap, ◌∙◌, Bool, true, false, ◌||◌, ◌==◌,
  if◌then◌else◌, Array, update, update_self, update_ne, arith, Bool-cases, inl, inr, ==_iff,
}
use gooos.Vm.Frames.{Frames, alloc_page}
use gooos.Vm.Frames.Ledger.{IsSound, gain, alloc_page-IsSound}
use gooos.Vm.Tables.{present, page_of, index, entry_at, walk_and_get_paddr_in, new_proc_pml4}
use gooos.Vm.Tables.Tree.{IsTree, IsPrivate, is_shared, root-entry, walk-translate, child-entry}
use gooos.Vm.Tables.Creation.{translate-present, translate-absent}
use gooos.Vm.Tables.Growth.{IsSound-memory}
use gooos.Vm.Tables.Way.{HasTree}

-- The gigabytes that every process shares with the kernel: the identity map and the interrupt controller.
abbrev pub kernel_gigabyte : ℕ → Bool
kernel_gigabyte x = x == 0 || x == 3

-- the levels and bases of the PML4 at `pml4` and the PDP at `pdp`
abbrev proc_level : ℕ → ℕ → ℕ → ℕ
proc_level pml4 pdp b =
    if page_of b == pml4
    then 4
    else if page_of b == pdp
    then (if b == pdp then 0 else if b == pdp + 24 then 0 else 3)
    else 0

abbrev proc_base : ℕ → ℕ → ℕ → ℕ
proc_base pml4 pdp b = if page_of b == pml4 then (b - pml4) / 8 else (b - pdp) / 8

-- the words of the two pages
record IsBlank (pml4 pdp : ℕ) (mem : Array ℕ) : Type 0 where
  first : mem pml4 ≡ pdp + 7
  no_pdp : (b : ℕ) → page_of b ≡ pml4 → b ≢ pml4 → mem b ≡ 0
  no_pd : (b : ℕ) → page_of b ≡ pdp → b ≢ pdp → b ≢ pdp + 24 → mem b ≡ 0

module _ (held : ℕ → ℕ) (f : Frames) (pml4 pdp : ℕ) (sound : IsSound held f) (low_page : 0 < held 0)
    (at : pml4 % 4096 ≡ 0) (at2 : pdp % 4096 ≡ 0) (apart : pml4 ≢ pdp) (own : 0 < held pml4)
    (own2 : 0 < held pdp) (pos : pdp ≢ 0) (blank : IsBlank pml4 pdp f.memory) where
  -- the one entry above the lowest level that is there
  only_first :
      (a k : ℕ)
      → proc_level pml4 pdp a ≡ suc (suc k)
      → present (f.memory a) ≡ true
      → (a ≡ pml4) × (k ≡ 2)
  only_first a k l p = elim (Bool-cases (a == pml4)) [
    | inl here ↦ (ground (arith, here), ground (arith, here, l, at))
    | inr elsewhere ↦
        let none : f.memory a ≡ 0 = ground (arith, elsewhere, l, blank.no_pdp a, blank.no_pd a) in
        absurd (ground (arith, ap present none, p))
  ]

  first_leads : page_of (f.memory pml4) ≡ pdp
  first_leads = ground (arith, blank.first, at2)

  proc-IsTree : IsTree kernel_gigabyte (proc_level pml4 pdp) (proc_base pml4 pdp) held pml4 f
  proc-IsTree = record {
    sound = sound;
    zero_held = low_page;
    root_level = λ i h.
        let q : page_of (entry_at pml4 i) ≡ pml4 = omega (arith, at) in
        (ground (arith, q), ground (arith, q));
    child = λ a k i l p h op.
        let (here, two) = only_first a k l p in
        let first : page_of (f.memory a) ≡ pdp =
          ap (λ x. page_of (f.memory x)) here ∙ first_leads in
        let q : page_of (entry_at pdp i) ≡ pdp = omega (arith, at2) in
        let zero_base : proc_base pml4 pdp a ≡ 0 = ground (arith, here, at) in
        let own_i : proc_base pml4 pdp a * 512 + i ≡ i = omega (arith, zero_base) in
        let op' : is_shared kernel_gigabyte k i ≡ false =
          ap (is_shared kernel_gigabyte k) (sym own_i) ∙ op in
        rw (first, zero_base) (ground (arith, q, op', two, apart), ground (arith, q, apart));
    child_pos = λ a k l p.
        let (here, two) = only_first a k l p in
        let first : page_of (f.memory a) ≡ pdp =
          ap (λ x. page_of (f.memory x)) here ∙ first_leads in
        rw first pos;
    kept = λ a h. elim (Bool-cases (page_of a == pml4)) [
      | inl here ↦ ground (arith, ap held ((==_iff (page_of a) pml4).0 here), own)
      | inr out ↦
          let there : page_of a ≡ pdp = ground (arith, h, out) in
          ground (arith, ap held there, own2)
    ];
    low = λ a. ground arith;
  }

  proc-walk : (v : ℕ) → IsPrivate kernel_gigabyte v → walk_and_get_paddr_in pml4 v f.memory ≡ 0
  proc-walk v p =
      let t = proc-IsTree in
      let (l3, b3) = root-entry t v in
      let a3 = entry_at pml4 (index 3 v) in
      walk-translate t v p ∙ elim (Bool-cases (present (f.memory a3))) [
        | inl there ↦
            let (l2, b2) = child-entry t a3 2 v l3 b3 there p in
            let a2 = entry_at (page_of (f.memory a3)) (index 2 v) in
            let none : present (f.memory a2) ≡ false = elim (Bool-cases (present (f.memory a2))) [
              | inl some2 ↦ absurd (omega (arith, (only_first a2 1 l2 some2).1))
              | inr none2 ↦ none2
            ] in
            translate-present 2 f.memory a3 (page_of (f.memory a3)) v there refl
            ∙ translate-absent 2 f.memory a2 v none
        | inr absent ↦ translate-absent 3 f.memory a3 v absent
      ]

if-update :
    (c : Bool) (mem : Array ℕ) (i v b : ℕ) → i ≢ b → (if c then update mem i v else mem) b ≡ mem b
if-update false mem i v b h = refl
if-update true mem i v b h = update_ne mem i b v h

-- When the books of the allocator are right and the frame at 0 is held, `newProcPML4` makes tables that
-- are a tree outside the gigabytes 0 and 3, at a frame that nobody held; no address of another gigabyte
-- is mapped, and the entry of gigabyte 0 is the shared one.
pub new_proc_pml4_lem :
    (shared_pdp0 boot_pdp : ℕ) (held : ℕ → ℕ) (f : Frames)
    → IsSound held f
    → 0 < held 0
    → let (f', pml4) = new_proc_pml4 shared_pdp0 boot_pdp f in
      HasTree kernel_gigabyte pml4 f'
      × (held pml4 ≡ 0)
      × (f'.memory (page_of (f'.memory pml4)) ≡ shared_pdp0)
      × ((v : ℕ) → IsPrivate kernel_gigabyte v → walk_and_get_paddr_in pml4 v f'.memory ≡ 0)
unfolding new_proc_pml4
new_proc_pml4_lem shared_pdp0 boot_pdp held f sound low =
    let r1 = alloc_page f in
    let (sound1, free1, at1, words1) = alloc_page-IsSound held f sound in
    let r2 = alloc_page r1.0 in
    let (sound2, free2, at2, words2) = alloc_page-IsSound (gain r1.1 held) r1.0 sound1 in
    let pml4 = r1.1 in
    let pdp = r2.1 in
    let apart : pml4 ≢ pdp = λ q. ground (arith, q, free2) in
    let linked = update (update r2.0.memory pml4 (pdp + 7)) pdp shared_pdp0 in
    let pdp3 = linked (boot_pdp + 24) in
    let mem = if present pdp3 then update linked (pdp + 24) pdp3 else linked in
    let held' = gain pdp (gain pml4 held) in
    let same : (b : ℕ) → b ≢ pdp + 24 → mem b ≡ linked b =
      λ b n. if-update (present pdp3) linked (pdp + 24) pdp3 b (λ q. n (sym q)) in
    let plain : (b : ℕ) → b ≢ pml4 → b ≢ pdp → linked b ≡ r2.0.memory b = λ b n n2.
      update_ne (update r2.0.memory pml4 (pdp + 7)) pdp b shared_pdp0 (λ q. n2 (sym q))
      ∙ update_ne r2.0.memory pml4 b (pdp + 7) (λ q. n (sym q)) in
    let first : mem pml4 ≡ pdp + 7 =
      same pml4 (λ q. apart (omega (arith, q)))
      ∙ update_ne (update r2.0.memory pml4 (pdp + 7)) pdp pml4 shared_pdp0 (λ q. apart (sym q))
      ∙ update_self r2.0.memory pml4 (pdp + 7) in
    let second : mem pdp ≡ shared_pdp0 =
      same pdp (λ q. omega (arith, q))
      ∙ update_self (update r2.0.memory pml4 (pdp + 7)) pdp shared_pdp0 in
    let blank : IsBlank pml4 pdp mem = record {
      first = first;
      no_pdp = λ b q n.
          let n3 : b ≢ pdp + 24 = λ e. apart (omega (arith, e, q)) in
          let n2 : b ≢ pdp = λ e. apart (omega (arith, e, q)) in
          same b n3 ∙ plain b n n2 ∙ ground (arith, words2 b, words1 b, q);
      no_pd = λ b q n n3.
          let n1 : b ≢ pml4 = λ e. apart (omega (arith, e, q)) in
          same b n3 ∙ plain b n1 n ∙ ground (arith, words2 b, q);
    } in
    let f' : Frames = record r2.0 { memory = mem } in
    let pos : pdp ≢ 0 = λ q. ground (arith, ap held q, free2, low) in
    let sound' = IsSound-memory held' r2.0 mem sound2 in
    let tree =
      proc-IsTree held' f' pml4 pdp sound' (ground (arith, low)) at1 at2 apart (ground arith)
        (ground arith) pos blank in
    let walk =
      proc-walk held' f' pml4 pdp sound' (ground (arith, low)) at1 at2 apart (ground arith)
        (ground arith) pos blank in
    (
      record { level = proc_level pml4 pdp; base = proc_base pml4 pdp; held = held'; tree = tree },
      free1,
      ap (λ x. mem (page_of x)) first
          ∙ ap mem {x = page_of (pdp + 7)} {y = pdp} (omega (arith, at2))
          ∙ second,
      walk,
    )
