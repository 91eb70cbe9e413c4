-- ===== src/Tcp/Entry/Slots.antt =====
-- Filling a slot of the connection table keeps the ends of its connections distinct.
use gooos.Common.{
  ℕ, ◌≤◌, ◌≡◌, refl, subst, Bool, ◌&&◌, some, List, [], ◌==◌, if◌then◌else◌, get_elem?, set, arith,
  Bool-cases, inl, inr,
}
use gooos.Tcp.Segment.{TcpHeader, build_mss_option}
use gooos.Tcp.Connection.{Tcb, Env, tcb_free, arm_rto}
use gooos.Tcp.Connection.Timers.{queue_sent}
use gooos.Tcp.Connection.Frame.{send_segment-SameReceiver}
use gooos.Tcp.Table.{claimed, free_tcb}
use gooos.Tcp.Table.Lookup.{owns, owners, owners-set, free_tcb-Found}
use gooos.Tcp.Entry.{passive_tcb, send_syn, active_tcb}
use gooos.Tcp.Entry.Ends.{tcb_free-owns}

-- At most one active connection is between any two ends.
abbrev pub Distinct : List Tcb → Type 0
Distinct ts = (a b c d : ℕ) → owners a b c d ts ≤ 1

-- a slot that is between the ends given, or is free
abbrev pub BetweenOnly : ℕ → ℕ → ℕ → ℕ → Tcb → Type 0
BetweenOnly l p r q t =
    (a b c d : ℕ) → owns a b c d t ≤ (if l == a && p == b && r == c && q == d then 1 else 0)

pub set-Distinct :
    (l p r q : ℕ) (ts : List Tcb) (i : ℕ) (u t : Tcb)
    → get_elem? ts i ≡ some u
    → owners l p r q ts ≡ 0
    → BetweenOnly l p r q t
    → Distinct ts
    → Distinct (set ts i t)
set-Distinct l p r q ts i u t at new only v a b c d =
    let sum = owners-set a b c d ts i u t at in
    elim (Bool-cases (l == a && p == b && r == c && q == d)) [
      | inl same ↦
          let unowned : owners a b c d ts ≡ 0 = ground (arith, same, new) in
          ground (arith, sum, only a b c d, unowned, same)
      | inr other ↦ ground (arith, sum, only a b c d, v a b c d, other)
    ]

pub send_syn-owns :
    (a b c d : ℕ) (e : Env) (accepted : Bool) (flags : ℕ) (t : Tcb)
    → owns a b c d (send_syn e accepted flags t).0 ≡ owns a b c d t
unfolding send_syn queue_sent arm_rto
send_syn-owns a b c d e accepted flags t =
    let rolled = record t { snd_nxt = t.iss } in
    let same = send_segment-SameReceiver e.our_ip flags (build_mss_option t.mss_local) [] rolled in
    ground (arith, same)

-- filling a slot that a search found free
pub fill-Distinct :
    (l p r q i : ℕ) (u t : Tcb) (ts : List Tcb)
    → free_tcb 0 ts ≡ some (i, u)
    → owners l p r q ts ≡ 0
    → BetweenOnly l p r q t
    → Distinct ts
    → Distinct (set ts i t)
fill-Distinct l p r q i u t ts free new only v =
    let found = free_tcb-Found 0 ts i u free in
    subst (λ k. Distinct (set ts k t)) {x = found.index} {y = i} (omega (arith, found.counted))
      (set-Distinct l p r q ts found.index u t found.at new only v)

pub free-BetweenOnly : (l p r q : ℕ) (t : Tcb) → BetweenOnly l p r q (tcb_free t)
free-BetweenOnly l p r q t a b c d = omega (arith, tcb_free-owns a b c d t)

pub passive_tcb-owns :
    (l p r q : ℕ) (e : Env) (h : TcpHeader) (li : ℕ) (u : Tcb) (a b c d : ℕ)
    → owns a b c d (passive_tcb e h li (claimed l p r q u))
      ≡ (if l == a && p == b && r == c && q == d then 1 else 0)
unfolding passive_tcb
passive_tcb-owns l p r q e h li u a b c d = refl

pub active_tcb-owns :
    (l p r q : ℕ) (e : Env) (u : Tcb) (a b c d : ℕ)
    → owns a b c d (active_tcb e (claimed l p r q u))
      ≡ (if l == a && p == b && r == c && q == d then 1 else 0)
unfolding active_tcb
active_tcb-owns l p r q e u a b c d = refl

pub passive-BetweenOnly :
    (l p r q : ℕ) (e : Env) (accepted : Bool) (h : TcpHeader) (li : ℕ) (u : Tcb)
    → BetweenOnly l p r q (send_syn e accepted 18 (passive_tcb e h li (claimed l p r q u))).0
passive-BetweenOnly l p r q e accepted h li u a b c d = omega (
  arith,
  send_syn-owns a b c d e accepted 18 (passive_tcb e h li (claimed l p r q u)),
  passive_tcb-owns l p r q e h li u a b c d,
)

pub active-BetweenOnly :
    (l p r q : ℕ) (e : Env) (accepted : Bool) (u : Tcb)
    → BetweenOnly l p r q (send_syn e accepted 2 (active_tcb e (claimed l p r q u))).0
active-BetweenOnly l p r q e accepted u a b c d = omega (
  arith,
  send_syn-owns a b c d e accepted 2 (active_tcb e (claimed l p r q u)),
  active_tcb-owns l p r q e u a b c d,
)
