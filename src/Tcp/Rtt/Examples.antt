-- ===== src/Tcp/Rtt/Examples.antt =====
-- The estimator at concrete samples.
use gooos.Common.{◌+◌, ◌-◌, ◌*◌, ◌/◌, ◌≤◌, ◌<◌, ◌≡◌, refl, true, false, max, min, ◌⊎◌, arith}
use gooos.Tcp.Rtt.{
  Rtt, rto_min_ticks, rto_max_ticks, rtt_update, rtt_init, set_rto, clamp_rto, rttvar_based_rto,
  rtt_sample,
}
use gooos.Tcp.Rtt.Bounds.{IsSmall, sample_bounds, update_exact, repeated, steady}

abbrev unsampled : Rtt
unsampled = record { srtt_ticks = 0; rttvar_ticks = 0; rto_ticks = 100; rtt_initialized = false }

-- after one sample of 40 ticks
abbrev sampled : Rtt
sampled = record { srtt_ticks = 320; rttvar_ticks = 80; rto_ticks = 120; rtt_initialized = true }

rtt_update-unsampled : rtt_update 40 unsampled ≡ sampled
unfolding rtt_update rtt_init set_rto clamp_rto rttvar_based_rto
rtt_update-unsampled = refl

sample_bounds_example :
    ((true ≡ true)
      × (60 < 100)
      × (rto_min_ticks ≤ (rtt_sample 100 60 true unsampled).rto_ticks)
      × ((rtt_sample 100 60 true unsampled).rto_ticks ≤ rto_max_ticks))
    ⊎ (((true ≡ false) ⊎ (100 ≤ 60)) × (rtt_sample 100 60 true unsampled ≡ unsampled))
sample_bounds_example = sample_bounds 100 60 true unsampled

update_exact_example :
    let t' = rtt_update 16 sampled in
    IsSmall t'
    × (t'.srtt_ticks ≡ 7 * (320 / 8) + 16)
    × (t'.rttvar_ticks ≡ 3 * (80 / 4) + (max (320 / 8) 16 - min (320 / 8) 16))
    × (t'.rto_ticks
        ≡ min rto_max_ticks (max rto_min_ticks (t'.srtt_ticks / 8 + max 1 t'.rttvar_ticks)))
update_exact_example = update_exact 16 sampled (omega arith) refl (omega arith) (omega arith)

steady_example :
    let t' = repeated 5 40 (rtt_update 40 unsampled) in
    (t'.srtt_ticks ≡ 8 * 40) × (t'.rttvar_ticks ≤ max 4 (2 * 40))
steady_example = steady 5 40 unsampled (omega arith) (omega arith) refl
