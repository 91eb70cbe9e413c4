-- ===== src/Tcp/Table/Lookup.antt =====
-- The searches of the connection table and of the listener table.
use gooos.Common.{
  ℕ, zero, suc, ◌+◌, ◌<◌, ◌≤◌, ◌≡◌, refl, ap, ◌∙◌, subst, true, false, not, ◌&&◌, inl, inr, Option,
  none, some, List, [], ◌∷◌, ltb, if◌then◌else◌, get_elem?, set, arith, Bool-cases,
}
use gooos.Tcp.Connection.{Tcb}
use gooos.Tcp.Table.{
  has_tuple, tcb_lookup, free_tcb, port_in_use, ephemeral_from, alloc_ephemeral_port,
}

-- 1 for an active connection between two ends
abbrev pub owns : ℕ → ℕ → ℕ → ℕ → Tcb → ℕ
owns a b c d t = if t.active && has_tuple a b c d t then 1 else 0

pub owns_le_one : (a b c d : ℕ) (t : Tcb) → owns a b c d t ≤ 1
owns_le_one a b c d t = ground arith

-- how many connections of the table are
unfoldable pub owners : ℕ → ℕ → ℕ → ℕ → List Tcb → ℕ
owners a b c d [] = 0
owners a b c d (t ∷ ts) = owns a b c d t + owners a b c d ts

pub owners-set :
    (a b c d : ℕ) (ts : List Tcb) (i : ℕ) (u v : Tcb)
    → get_elem? ts i ≡ some u
    → owners a b c d (set ts i v) + owns a b c d u ≡ owners a b c d ts + owns a b c d v
unfolding owners
owners-set a b c d [] i u v at = cc
owners-set a b c d (t ∷ ts) zero u v at = ground (arith, at)
owners-set a b c d (t ∷ ts) (suc i) u v at = omega (arith, owners-set a b c d ts i u v at)

-- What a search that starts to count at `base` finds.
pub record Found (P : Tcb → Type 0) (base : ℕ) (ts : List Tcb) (k : ℕ) (t : Tcb) : Type 0 where
  pub index : ℕ
  pub counted : k ≡ base + index
  pub at : get_elem? ts index ≡ some t
  pub holds : P t

abbrev pub IsFree : Tcb → Type 0
IsFree t = t.active ≡ false

abbrev pub IsBetween : ℕ → ℕ → ℕ → ℕ → Tcb → Type 0
IsBetween a b c d t = (t.active ≡ true) × (has_tuple a b c d t ≡ true)

pub free_tcb-Found :
    (base : ℕ) (ts : List Tcb) (k : ℕ) (t : Tcb)
    → free_tcb base ts ≡ some (k, t)
    → Found IsFree base ts k t
unfolding free_tcb
free_tcb-Found base [] k t h = cc
free_tcb-Found base (u ∷ ts) k t h = elim (Bool-cases u.active) [
  | inl busy ↦
      let later = free_tcb-Found (suc base) ts k t (ground (arith, h, busy)) in
      record {
        index = suc later.index;
        counted = omega (arith, later.counted);
        at = later.at;
        holds = later.holds;
      }
  | inr idle ↦
      let here : (base ≡ k) × (u ≡ t) = ground (arith, h, idle) in
      record {
        index = 0;
        counted = ground (arith, here);
        at = ground (arith, here);
        holds = ground (arith, here, idle);
      }
]

pub tcb_lookup-Found :
    (base a b c d : ℕ) (ts : List Tcb) (k : ℕ) (t : Tcb)
    → tcb_lookup base a b c d ts ≡ some (k, t)
    → Found (IsBetween a b c d) base ts k t
unfolding tcb_lookup
tcb_lookup-Found base a b c d [] k t h = cc
tcb_lookup-Found base a b c d (u ∷ ts) k t h = elim (Bool-cases (u.active && has_tuple a b c d u)) [
  | inl match_here ↦
      let here : (base ≡ k) × (u ≡ t) = ground (arith, h, match_here) in
      record {
        index = 0;
        counted = ground (arith, here);
        at = ground (arith, here);
        holds = ground (arith, here, match_here);
      }
  | inr other ↦
      let later = tcb_lookup-Found (suc base) a b c d ts k t (ground (arith, h, other)) in
      record {
        index = suc later.index;
        counted = omega (arith, later.counted);
        at = later.at;
        holds = later.holds;
      }
]

-- A search that fails finds nothing to find.
pub tcb_lookup-none :
    (base a b c d : ℕ) (ts : List Tcb) → tcb_lookup base a b c d ts ≡ none → owners a b c d ts ≡ 0
unfolding tcb_lookup owners
tcb_lookup-none base a b c d [] h = refl
tcb_lookup-none base a b c d (u ∷ ts) h = ground (arith, h, tcb_lookup-none (suc base) a b c d ts)

pub port_in_use-owners :
    (p a c d : ℕ) (ts : List Tcb) → port_in_use p ts ≡ false → owners a p c d ts ≡ 0
unfolding port_in_use owners
port_in_use-owners p a c d [] h = refl
port_in_use-owners p a c d (u ∷ ts) h = ground (arith, h, port_in_use-owners p a c d ts)

-- What a search of `n` ports from `p` on may return.
pub PortFound : ℕ → ℕ → List Tcb → Option ℕ → Type 0
PortFound n p ts none = (i : ℕ) → (ltb i n && not (port_in_use (p + i) ts)) ≡ false
PortFound n p ts (some q) = (p ≤ q) × (q < p + n) × (port_in_use q ts ≡ false)

all_used_later :
    (n p : ℕ) (ts : List Tcb) (i : ℕ)
    → port_in_use p ts ≡ true
    → PortFound n (p + 1) ts none
    → (ltb i (suc n) && not (port_in_use (p + i) ts)) ≡ false
unfolding PortFound
all_used_later n p ts zero used f =
    let here : port_in_use (p + 0) ts ≡ true =
      ap (λ k. port_in_use k ts) {x = p + 0} {y = p} (omega arith) ∙ used in
    ground (arith, here)
all_used_later n p ts (suc i) used f =
    let there = f i in
    let same : port_in_use (p + suc i) ts ≡ port_in_use (p + 1 + i) ts =
      ap (λ k. port_in_use k ts) {x = p + suc i} {y = p + 1 + i} (omega arith) in
    ground (arith, there, same)

PortFound-later :
    (n p : ℕ) (ts : List Tcb) (o : Option ℕ)
    → port_in_use p ts ≡ true
    → PortFound n (p + 1) ts o
    → PortFound (suc n) p ts o
unfolding PortFound
PortFound-later n p ts none used f = λ i. all_used_later n p ts i used f
PortFound-later n p ts (some q) used f = (omega (arith, f.0), omega (arith, f.1), f.2)

ephemeral_from-PortFound : (n p : ℕ) (ts : List Tcb) → PortFound n p ts (ephemeral_from n p ts)
unfolding ephemeral_from PortFound
ephemeral_from-PortFound zero p ts = λ i. ground arith
ephemeral_from-PortFound (suc n) p ts = elim (Bool-cases (port_in_use p ts)) [
  | inl used ↦ rw used (
      PortFound-later n p ts (ephemeral_from n (p + 1) ts) used
        (ephemeral_from-PortFound n (p + 1) ts))
  | inr unused ↦ rw unused (omega arith, omega arith, unused)
]

-- `tcpAllocEphemeralPort` returns a port from 49152 to 49167 that no active connection uses, and refuses
-- only when all of these are in use.
pub alloc_ephemeral_port-PortFound :
    (ts : List Tcb) → PortFound 16 49152 ts (alloc_ephemeral_port ts)
unfolding alloc_ephemeral_port
alloc_ephemeral_port-PortFound ts = ephemeral_from-PortFound 16 49152 ts

-- a port that is returned starts a connection to any end that no other has
pub ephemeral-owners :
    (ts : List Tcb) (q a c d : ℕ) → alloc_ephemeral_port ts ≡ some q → owners a q c d ts ≡ 0
unfolding PortFound
ephemeral-owners ts q a c d h =
    port_in_use-owners q a c d ts
      ((subst (PortFound 16 49152 ts) h (alloc_ephemeral_port-PortFound ts)).2)
