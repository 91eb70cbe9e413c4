-- ===== src/Tcp/Congestion/Examples.antt =====
-- Congestion control at concrete windows.
use gooos.Common.{
  true, false, ◌↔◌, ◌≢◌, ℕ, test_bit, ◌+◌, ◌*◌, ◌/◌, ◌≤◌, ◌<◌, ◌≡◌, refl, if◌then◌else◌, ◌==◌, ltb,
  u32, sub32, max, min, arith,
}
use gooos.Tcp.Congestion.{
  Congestion, Flight, mss_of, cc_init, cc_on_ack, cc_on_dup_ack, cc_on_rto, is_duplicate_ack,
  ack_bit, syn_bit, fin_bit, rst_bit,
}
use gooos.Tcp.Congestion.Laws.{
  IsOpen, init-IsOpen, on_ack_growth, on_rto_collapse, dup_run, dup_run_once, on_dup_ack_recovery,
  is_duplicate_ack_iff,
}

abbrev closed : Congestion
closed = record { cwnd = 0; ssthresh = 0; cwnd_accum = 0; dup_acks = 0; mss_eff = 536 }

abbrev opened : Congestion
opened = record { cwnd = 2144; ssthresh = 4294967295; cwnd_accum = 0; dup_acks = 0; mss_eff = 536 }

abbrev flight : Flight
flight = record { snd_una = 4294967000; snd_nxt = 3000; snd_wnd = 8192 }

opened-IsOpen : IsOpen opened
opened-IsOpen = omega arith

init-IsOpen_example :
    IsOpen (cc_init closed)
    × (2 * 536 ≤ (cc_init closed).cwnd)
    × ((cc_init closed).cwnd ≤ 4 * 536)
    × ((cc_init closed).ssthresh ≡ 0xFFFFFFFF)
init-IsOpen_example = init-IsOpen closed (omega arith)

on_ack_growth_example :
    let t' = cc_on_ack 100 opened in
    (2144 ≤ t'.cwnd)
    × (t'.cwnd ≤ 2144 + 536)
    × (t'.cwnd_accum < mss_of t')
    × (t'.cwnd ≡ (if ltb 2144 4294967295 then 2144 + min 100 536 else t'.cwnd))
on_ack_growth_example = on_ack_growth 100 opened opened-IsOpen

on_rto_collapse_example :
    let t' = cc_on_rto flight opened in
    (t'.cwnd ≡ 536) × (t'.ssthresh ≡ max (sub32 3000 4294967000 / 2) (2 * 536)) × (t'.dup_acks ≡ 0)
on_rto_collapse_example = on_rto_collapse flight opened (omega arith)

dup_run_once_example : (dup_run 4 flight opened).1 ≡ (if ltb 4 3 then 0 else 1)
dup_run_once_example = dup_run_once 4 flight opened refl (omega arith)

on_dup_ack_recovery_example :
    let (t', fires) = cc_on_dup_ack flight opened in
    (fires ≡ (0 == 2))
    × (t'.ssthresh ≡ (if fires then max (sub32 3000 4294967000 / 2) (2 * 536) else 4294967295))
    × (t'.cwnd ≡ (if fires then u32 (t'.ssthresh + 3 * 536) else 2144))
on_dup_ack_recovery_example = on_dup_ack_recovery flight opened (omega arith) (omega arith)

abbrev no_payload : ℕ
no_payload = 0

is_duplicate_ack_iff_example :
    (is_duplicate_ack flight 16 4294967000 flight.snd_wnd no_payload ≡ true) ↔ (
      (test_bit 16 ack_bit ≡ true)
      × (test_bit 16 syn_bit ≡ false)
      × (test_bit 16 fin_bit ≡ false)
      × (test_bit 16 rst_bit ≡ false)
      × (no_payload ≡ 0)
      × (4294967000 ≡ flight.snd_una)
      × (flight.snd_wnd ≡ flight.snd_wnd)
      × (flight.snd_una ≢ flight.snd_nxt))
is_duplicate_ack_iff_example = is_duplicate_ack_iff flight 16 4294967000 flight.snd_wnd no_payload
