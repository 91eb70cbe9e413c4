-- ===== src/Tcp/Rtt/Bounds.antt =====
-- What the round-trip estimator keeps: a timeout in its range, sums that do not wrap, and a steady
-- estimate under steady samples.
use gooos.Common.{
  ℕ, zero, suc, ◌+◌, ◌-◌, ◌*◌, ◌/◌, ◌≤◌, ◌<◌, ◌≡◌, refl, Bool, true, false, if◌then◌else◌, ◌==◌,
  ltb, u32, arith, max, min, ◌⊎◌, inl, inr, ap, Bool-cases,
}
use gooos.Tcp.Rtt.{
  Rtt, rto_min_ticks, rto_max_ticks, clamp_rto, rttvar_based_rto, rtt_init, rtt_update, rtt_sample,
  set_rto,
}

clamp_rto-eq : (v : ℕ) → clamp_rto v ≡ min rto_max_ticks (max rto_min_ticks v)
unfolding clamp_rto
clamp_rto-eq v = ground arith

set_rto_bounds :
    (t : Rtt) → (rto_min_ticks ≤ (set_rto t).rto_ticks) × ((set_rto t).rto_ticks ≤ rto_max_ticks)
unfolding set_rto
set_rto_bounds t = omega (arith, clamp_rto-eq (rttvar_based_rto t))

init_bounds :
    (r : ℕ) (t : Rtt)
    → (rto_min_ticks ≤ (rtt_init r t).rto_ticks) × ((rtt_init r t).rto_ticks ≤ rto_max_ticks)
unfolding rtt_init
init_bounds r t = set_rto_bounds _

-- the state that `tcpRTTUpdate` hands to its last line
abbrev next_state : ℕ → Rtt → Rtt
next_state r t = record t {
  rttvar_ticks = u32 (
      3 * (t.rttvar_ticks / 4)
      + (if ltb r (t.srtt_ticks / 8) then t.srtt_ticks / 8 - r else r - t.srtt_ticks / 8));
  srtt_ticks = u32 (7 * (t.srtt_ticks / 8) + r);
}

update_at :
    (r : ℕ) (t : Rtt) → t.rtt_initialized ≡ true → 0 < r → rtt_update r t ≡ set_rto (next_state r t)
unfolding rtt_update
update_at r t i p = let nonzero : (r == 0) ≡ false = ground arith in rw (i, nonzero)

update_first : (r : ℕ) (t : Rtt) → t.rtt_initialized ≡ false → rtt_update r t ≡ rtt_init r t
unfolding rtt_update
update_first r t i = rw i

update_bounds :
    (r : ℕ) (t : Rtt)
    → (rto_min_ticks ≤ (rtt_update r t).rto_ticks) × ((rtt_update r t).rto_ticks ≤ rto_max_ticks)
unfolding rtt_update
update_bounds r t = elim (Bool-cases t.rtt_initialized) [
  | inl i ↦ rw i (set_rto_bounds _)
  | inr i ↦ simp i (init_bounds r t)
]

-- A sample that Karn's rule admits leaves a timeout between one second and sixty, whatever the state
-- was; any other sample leaves the whole state.
pub sample_bounds :
    (now sent : ℕ) (pristine : Bool) (t : Rtt)
    → ((pristine ≡ true)
        × (sent < now)
        × (rto_min_ticks ≤ (rtt_sample now sent pristine t).rto_ticks)
        × ((rtt_sample now sent pristine t).rto_ticks ≤ rto_max_ticks))
      ⊎ (((pristine ≡ false) ⊎ (now ≤ sent)) × (rtt_sample now sent pristine t ≡ t))
unfolding rtt_sample
sample_bounds now sent pristine t = ground (arith, update_bounds (u32 (now - sent)) t)

-- 2^26 ticks, more than seven days
abbrev pub longest : ℕ
longest = 67108864

-- The scaled sums stay far below 2^32.
pub record IsSmall (t : Rtt) : Type 0 where
  pub srtt_small : t.srtt_ticks ≤ 8 * longest
  pub rttvar_small : t.rttvar_ticks ≤ 4 * longest

delta_eq : (a r : ℕ) → (if ltb r a then a - r else r - a) ≡ max a r - min a r
delta_eq a r = ground arith

sums :
    (r : ℕ) (t : Rtt)
    → IsSmall t
    → r ≤ longest
    → ((next_state r t).srtt_ticks ≡ 7 * (t.srtt_ticks / 8) + r)
      × ((next_state r t).rttvar_ticks
          ≡ 3 * (t.rttvar_ticks / 4) + (max (t.srtt_ticks / 8) r - min (t.srtt_ticks / 8) r))
sums r t s h = (omega arith, rw delta_eq (omega arith))

rto_set :
    (t : Rtt)
    → IsSmall t
    → (set_rto t).rto_ticks
      ≡ min rto_max_ticks (max rto_min_ticks (t.srtt_ticks / 8 + max 1 t.rttvar_ticks))
unfolding set_rto rttvar_based_rto
rto_set t s = rw clamp_rto-eq (ap (λ v. min rto_max_ticks (max rto_min_ticks v)) (ground arith))

next_state-IsSmall : (r : ℕ) (t : Rtt) → IsSmall t → r ≤ longest → IsSmall (next_state r t)
next_state-IsSmall r t s h = omega (arith, sums r t s h)

-- For a sample of at most 2^26 ticks, an update of a small state is small again, and is the update
-- of RFC 6298 in scaled form with no sum wrapped: 7/8 and 1/8 for the mean, 3/4 and 1/4 for the
-- variance, and then the sum of the mean and four variances as the timeout, in its range.
pub update_exact :
    (r : ℕ) (t : Rtt)
    → IsSmall t
    → t.rtt_initialized ≡ true
    → 0 < r
    → r ≤ longest
    → let t' = rtt_update r t in
      IsSmall t'
      × (t'.srtt_ticks ≡ 7 * (t.srtt_ticks / 8) + r)
      × (t'.rttvar_ticks
          ≡ 3 * (t.rttvar_ticks / 4) + (max (t.srtt_ticks / 8) r - min (t.srtt_ticks / 8) r))
      × (t'.rto_ticks
          ≡ min rto_max_ticks (max rto_min_ticks (t'.srtt_ticks / 8 + max 1 t'.rttvar_ticks)))
unfolding set_rto
update_exact r t s i p h =
    let n = next_state-IsSmall r t s h in
    rw (update_at r t i p) (
      record { srtt_small = n.srtt_small; rttvar_small = n.rttvar_small },
      (sums r t s h).0,
      (sums r t s h).1,
      rto_set (next_state r t) n,
    )

-- `n` more samples of `r` ticks
pub repeated : ℕ → ℕ → Rtt → Rtt
repeated zero r t = t
repeated (suc n) r t = repeated n r (rtt_update r t)

abbrev Steady : ℕ → Rtt → Type 0
Steady r t = (t.rtt_initialized ≡ true) × (t.srtt_ticks ≡ 8 * r) × (t.rttvar_ticks ≤ max 4 (2 * r))

init-Steady : (r : ℕ) (t : Rtt) → 0 < r → r ≤ longest → Steady r (rtt_init r t)
unfolding rtt_init set_rto
init-Steady r t p h = (refl, ground arith, ground arith)

initialized_kept :
    (r : ℕ) (t : Rtt) → t.rtt_initialized ≡ true → (rtt_update r t).rtt_initialized ≡ true
unfolding rtt_update set_rto
initialized_kept r t i = rw i refl

update-Steady : (r : ℕ) (t : Rtt) → 0 < r → r ≤ longest → Steady r t → Steady r (rtt_update r t)
update-Steady r t p h s =
    let exact = update_exact r t (omega arith) s.0 p h in
    (initialized_kept r t s.0, omega (arith, exact.1), omega (arith, exact.2))

repeated-Steady : (n r : ℕ) (t : Rtt) → 0 < r → r ≤ longest → Steady r t → Steady r (repeated n r t)
unfolding repeated
repeated-Steady zero r t p h s = s
repeated-Steady (suc n) r t p h s =
    repeated-Steady n r (rtt_update r t) p h (update-Steady r t p h s)

-- Under steady samples of `r` ticks, up to 2^26, the smoothed time is exactly `r` (in eighths) from
-- the first sample on, however many follow, and four times the variance never passes the greater of
-- 4 and `2 * r`.
pub steady :
    (n r : ℕ) (t : Rtt)
    → 0 < r
    → r ≤ longest
    → t.rtt_initialized ≡ false
    → let t' = repeated n r (rtt_update r t) in
      (t'.srtt_ticks ≡ 8 * r) × (t'.rttvar_ticks ≤ max 4 (2 * r))
steady n r t p h i =
    let first : Steady r (rtt_update r t) = rw (update_first r t i) (init-Steady r t p h) in
    let all = repeated-Steady n r (rtt_update r t) p h first in (all.1, all.2)
