-- ===== src/Tcp/Rtt.antt =====
-- The round-trip estimator of src/tcp_rtt.go, over the four fields of the TCB that it keeps.
pub mod Bounds
pub mod Examples
use gooos.Common.{ℕ, ◌+◌, ◌-◌, ◌*◌, ◌/◌, ◌%◌, Bool, true, false, ltb, leb, ◌==◌, if◌then◌else◌, u32}

-- `tcpRTOMinTicks` and `tcpRTOMaxTicks`
abbrev pub rto_min_ticks : ℕ
rto_min_ticks = 100

abbrev pub rto_max_ticks : ℕ
rto_max_ticks = 6000

pub record Rtt : Type 0 where
  pub srtt_ticks : ℕ
  pub rttvar_ticks : ℕ
  pub rto_ticks : ℕ
  pub rtt_initialized : Bool

pub clamp_rto : ℕ → ℕ
clamp_rto v =
    if ltb v rto_min_ticks then rto_min_ticks else if ltb rto_max_ticks v then rto_max_ticks else v

pub rttvar_based_rto : Rtt → ℕ
rttvar_based_rto t =
    let srtt = t.srtt_ticks / 8 in
    let k_rttvar = if ltb t.rttvar_ticks 1 then 1 else t.rttvar_ticks in u32 (srtt + k_rttvar)

-- the last two lines of `tcpRTTInit` and of `tcpRTTUpdate`
pub set_rto : Rtt → Rtt
set_rto t = record t { rto_ticks = clamp_rto (rttvar_based_rto t) }

pub rtt_init : ℕ → Rtt → Rtt
rtt_init r_ticks t =
    let r = if r_ticks == 0 then 1 else r_ticks in
    let var = u32 (r / 2 * 4) in
    record (set_rto
      (record t { srtt_ticks = u32 (r * 8); rttvar_ticks = if var == 0 then 1 * 4 else var })) {
        rtt_initialized = true;
      }

pub rtt_update : ℕ → Rtt → Rtt
rtt_update r_ticks t =
    let r = if r_ticks == 0 then 1 else r_ticks in
    let srtt = t.srtt_ticks / 8 in
    let delta = if ltb r srtt then srtt - r else r - srtt in
    let updated = set_rto (record t {
      rttvar_ticks = u32 (3 * (t.rttvar_ticks / 4) + delta);
      srtt_ticks = u32 (7 * (t.srtt_ticks / 8) + r);
    }) in
    if t.rtt_initialized then updated else rtt_init r_ticks t

-- `now` is `pitTicks`
pub rtt_sample : ℕ → ℕ → Bool → Rtt → Rtt
rtt_sample now oldest_sent any_pristine t =
    if any_pristine
    then (if leb now oldest_sent then t else rtt_update (u32 (now - oldest_sent)) t)
    else t
