-- ===== src/Tcp/Connection/Examples.antt =====
-- A connection with two descriptors queued and two bytes received, its reader just before the wrap of
-- the counters, and the theorems at it.
use gooos.Common.{
  ℕ, ◌+◌, ◌-◌, ◌*◌, ◌≤◌, ◌≡◌, refl, true, false, ◌&&◌, ◌||◌, none, List, [], ◌∷◌, ltb, leb, ◌==◌,
  if◌then◌else◌, min, max, sub32, u64, arith,
}
use gooos.Tcp.Segment.{TcpHeader}
use gooos.Tcp.Segment.RoundTrip.{header}
use gooos.Tcp.RingBuf.Examples.{wrapped, wrapped-IsValid}
use gooos.Tcp.Retx.Examples.{two_sent}
use gooos.Tcp.Congestion.{ack_bit}
use gooos.Tcp.Connection.{TcbState, Tcb, Env, has_flag, ack_update, advertise_win}
use gooos.Tcp.Connection.Handlers.{dispatch}
use gooos.Tcp.Connection.Timers.{rto_fire}
use gooos.Tcp.Connection.Transitions.{closes, dispatch-Moves}
use gooos.Tcp.Connection.Arrows.{is_closed, allowed}
use gooos.Tcp.Connection.Stream.{takes_data, fin_number, dispatch-Took}
use gooos.Tcp.Connection.Taken.{IsOpen, Took, fitting, if_in_order}
use gooos.Tcp.Connection.Flow.{
  SendInRange, in_flight, sws_threshold, ack_update-snd, advertise_win_lem,
}
use gooos.Tcp.Connection.Expiry.{rto_fire_due}
use gooos.Tcp.Connection.Timers.{descriptor}
use gooos.Tcp.Retx.{RetxQueue}

abbrev pub at_tick : ℕ → Env
at_tick now = record { now = now; our_ip = 167772687 }

-- 10.0.2.15:8080 to 10.0.2.2:49152, with 32-bit counters that wrap between what is in flight
abbrev pub talking : Tcb
talking = record {
  local_ip = 167772687;
  local_port = 8080;
  remote_ip = 167772674;
  remote_port = 49152;
  state = TcbState.established;
  listener = none;
  snd_una = 4294966800;
  snd_nxt = 200;
  snd_wnd = 8192;
  snd_wl1 = 4294967295;
  snd_wl2 = 4294966800;
  iss = 4294966700;
  rcv_nxt = 4294967295;
  rcv_wnd = 8190;
  irs = 4294967292;
  mss_local = 536;
  mss_peer = 536;
  tx_buf = wrapped;
  rx_buf = wrapped;
  retx_q = two_sent;
  rto_deadline = 150;
  xmit_count_head = 7;
  rto_fast_retx = false;
  rtt = record { srtt_ticks = 0; rttvar_ticks = 0; rto_ticks = 100; rtt_initialized = false };
  time_wait_deadline = 0;
  last_adv_win = 8192;
  persist_deadline = 0;
  persist_ticks = 0;
  cc = record { cwnd = 1072; ssthresh = 65535; cwnd_accum = 0; dup_acks = 0; mss_eff = 536 };
  delack_deadline = 0;
  user_owner = none;
  active = true;
}

-- a FIN with two bytes that acknowledges the first of the descriptors
abbrev closing_segment : TcpHeader
closing_segment = header 49152 8080 4294967295 4294967000 17 8192 0 []

talking-IsOpen : IsOpen talking
talking-IsOpen = record { ring = wrapped-IsValid; window = refl }

talking-SendInRange : SendInRange talking
talking-SendInRange = record { una_in = omega arith; nxt_in = omega arith; flight_in = omega arith }

dispatch-Moves_example :
    let s' = (dispatch (at_tick 160) closing_segment (7 ∷ 8 ∷ []) talking).tcb.state in
    (is_closed s' ≡ (closes closing_segment talking || is_closed talking.state))
    × ((closes closing_segment talking || allowed talking.state s') ≡ true)
dispatch-Moves_example =
    dispatch-Moves (at_tick 160) closing_segment (7 ∷ 8 ∷ []) talking (omega arith)

dispatch-Took_example :
    let payload : List ℕ = 7 ∷ 8 ∷ [] in
    let k = if_in_order closing_segment talking (fitting payload talking) in
    Took payload k
      (fin_number talking.state closing_segment payload talking k)
      talking
      (dispatch (at_tick 160) closing_segment payload talking).tcb
unfolding takes_data
dispatch-Took_example =
    dispatch-Took (at_tick 160) closing_segment (7 ∷ 8 ∷ []) talking refl refl talking-IsOpen
      (omega arith)

ack_update-snd_example :
    let (t', all) = ack_update 160 closing_segment talking in
    let counts =
      has_flag ack_bit closing_segment
      && leb (sub32 4294967000 talking.snd_una) (in_flight talking) in
    SendInRange t'
    × (t'.snd_una ≡ (if counts then 4294967000 else talking.snd_una))
    × (in_flight t' ≡ in_flight talking - (if counts then sub32 4294967000 talking.snd_una else 0))
    × (all ≡ (counts && in_flight t' == 0))
ack_update-snd_example =
    ack_update-snd 160 closing_segment talking talking-SendInRange (omega arith) (omega arith)

advertise_win_lem_example :
    let (t', window) = advertise_win talking in
    let holds_back =
      ltb talking.last_adv_win talking.rcv_wnd
      && ltb (talking.rcv_wnd - talking.last_adv_win) (sws_threshold talking) in
    (window ≡ min 65535 (if holds_back then talking.last_adv_win else talking.rcv_wnd))
    × (t'.last_adv_win ≡ (if holds_back then talking.last_adv_win else window))
    × (window ≤ max talking.rcv_wnd talking.last_adv_win)
advertise_win_lem_example = advertise_win_lem talking

rto_fire_due_example :
    let t' = (rto_fire (at_tick 160) talking).tcb in
    let more = ltb 7 8 in
    let ticks = min 6000 (2 * 100) in
    (t'.active ≡ more)
    × (t'.xmit_count_head ≡ (if more then 7 + 1 else 7))
    × (t'.rto_deadline ≡ (if more then u64 (160 + ticks) else 0))
    × (t'.rtt.rto_ticks ≡ (if more then ticks else 100))
    × (t'.retx_q.n ≡ (if more then 2 else 0))
rto_fire_due_example =
    rto_fire_due (at_tick 160) talking refl (omega arith) (omega arith) (omega arith) (omega arith)
      (omega arith)

-- a connection that waits for the answer to its FIN, after seven tries
abbrev fin_queue : RetxQueue
fin_queue = record { ring = λ i. descriptor 100 199 17; head = 0; tail = 1; n = 1 }

abbrev fin_sent : Tcb
fin_sent = record talking { state = TcbState.fin_wait_1; retx_q = fin_queue }
