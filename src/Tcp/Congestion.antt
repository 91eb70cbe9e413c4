-- ===== src/Tcp/Congestion.antt =====
-- Congestion control of src/tcp_cc.go, over the fields of the TCB that it keeps.
pub mod Laws
pub mod Examples
use gooos.Common.{
  ℕ, ◌+◌, ◌-◌, ◌*◌, ◌/◌, ◌%◌, ◌^◌, Bool, true, false, not, ◌&&◌, ◌||◌, ltb, leb, ◌==◌,
  if◌then◌else◌, u8, u32, sub32, test_bit,
}

-- `tcpDefaultMSS`
abbrev pub tcp_default_mss : ℕ
tcp_default_mss = 536

pub record Congestion : Type 0 where
  pub cwnd : ℕ
  pub ssthresh : ℕ
  pub cwnd_accum : ℕ
  pub dup_acks : ℕ
  pub mss_eff : ℕ

-- the fields of the send window that the duplicate test reads
pub record Flight : Type 0 where
  pub snd_una : ℕ
  pub snd_nxt : ℕ
  pub snd_wnd : ℕ

pub initial_window : ℕ → ℕ
initial_window m =
    if ltb 2190 m then u32 (2 * m) else if ltb 1095 m then u32 (3 * m) else u32 (4 * m)

pub cc_init : Congestion → Congestion
cc_init t =
    let mss = if t.mss_eff == 0 then tcp_default_mss else t.mss_eff in
    record t {
      mss_eff = mss;
      cwnd = initial_window mss;
      ssthresh = 0xFFFFFFFF;
      cwnd_accum = 0;
      dup_acks = 0;
    }

-- `mss := uint32(t.mssEff); if mss == 0 { mss = uint32(tcpDefaultMSS) }`
abbrev pub mss_of : Congestion → ℕ
mss_of t = if t.mss_eff == 0 then tcp_default_mss else t.mss_eff

pub slow_start : ℕ → Congestion → Congestion
slow_start newly_acked t =
    let inc = if ltb (mss_of t) newly_acked then mss_of t else newly_acked in
    record t { cwnd = u32 (t.cwnd + inc) }

pub avoidance : Congestion → Congestion
avoidance t =
    let mss = mss_of t in
    let accum = u32 (t.cwnd_accum + u32 (mss * mss) / t.cwnd) in
    if leb mss accum
    then record t { cwnd = u32 (t.cwnd + mss); cwnd_accum = accum - mss }
    else record t { cwnd_accum = accum }

pub cc_on_ack : ℕ → Congestion → Congestion
cc_on_ack newly_acked t =
    let u = if t.cwnd == 0 then cc_init t else t in
    let grown = if ltb u.cwnd u.ssthresh then slow_start newly_acked u else avoidance u in
    if newly_acked == 0 then t else grown

-- `half := flight / 2; ...`: half of what is in flight, at least two segments
abbrev pub halved : ℕ → Flight → ℕ
halved mss f =
    let half = sub32 f.snd_nxt f.snd_una / 2 in
    if ltb half (u32 (2 * mss)) then u32 (2 * mss) else half

pub cc_on_dup_ack : Flight → Congestion → Congestion × Bool
cc_on_dup_ack f t =
    let counted = record t { dup_acks = u8 (t.dup_acks + 1) } in
    let mss = mss_of t in
    let ssthresh' = halved mss f in
    if counted.dup_acks == 3
    then (
      record counted {
        ssthresh = ssthresh';
        cwnd = u32 (ssthresh' + u32 (3 * mss));
        cwnd_accum = 0;
      },
      true,
    )
    else (counted, false)

pub cc_on_rto : Flight → Congestion → Congestion
cc_on_rto f t =
    let mss = mss_of t in
    record t { ssthresh = halved mss f; cwnd = mss; cwnd_accum = 0; dup_acks = 0 }

-- The bits of the flag byte, by their position: FIN, SYN, RST, PSH, ACK, URG.
abbrev pub fin_bit : ℕ
fin_bit = 0

abbrev pub syn_bit : ℕ
syn_bit = 1

abbrev pub rst_bit : ℕ
rst_bit = 2

abbrev pub ack_bit : ℕ
ack_bit = 4

-- the fields `Flags`, `Ack` and `Window` of the header
pub is_duplicate_ack : Flight → ℕ → ℕ → ℕ → ℕ → Bool
is_duplicate_ack f flags ack window payload_len =
    if not (test_bit flags ack_bit)
    then false
    else if test_bit flags syn_bit || test_bit flags fin_bit || test_bit flags rst_bit
    then false
    else if not (payload_len == 0)
    then false
    else if not (ack == f.snd_una)
    then false
    else if not (window == f.snd_wnd)
    then false
    else if f.snd_una == f.snd_nxt
    then false
    else true
