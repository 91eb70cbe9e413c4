-- ===== src/Tcp/Connection/Timers.antt =====
-- Closing, the timers that the scanner fires (src/tcp_retx.go, src/tcp_flow.go), and the echo service on
-- one connection (src/tcp.go). `accepted` is what `ipv4Send` answers.
use gooos.Common.{
  ℕ, ◌+◌, ◌*◌, ◌%◌, Bool, true, false, not, ◌&&◌, ◌||◌, Option, none, some, [], ◌++◌, ltb, leb,
  ◌==◌, if◌then◌else◌, update, length, u8, u32, u64, test_bit,
}
use gooos.Tcp.Congestion.{cc_on_rto, fin_bit, syn_bit}
use gooos.Tcp.Segment.{build_mss_option}
use gooos.Tcp.RingBuf.{rb_len, rb_read, rb_peek}
use gooos.Tcp.Retx.{Entry, RetxQueue, blank, retx_push, retx_head, retx_flush}
use gooos.Tcp.Connection.{
  TcbState, Tcb, Env, Packet, flight, tcb_free, arm_rto, send_segment, send_pure_ack,
}
use gooos.Tcp.Connection.Handlers.{Outcome, sends, quiet}

abbrev pub is_some_packet : Option Packet → Bool
is_some_packet none = false
is_some_packet (some p) = true

-- the descriptor of a segment that takes one sequence number
abbrev pub descriptor : ℕ → ℕ → ℕ → Entry
descriptor now seq flags = record blank {
  seq = seq;
  end_seq = u32 (seq + 1);
  flags = flags;
  sent_ticks = now;
}

-- `retxPush` and `tcpArmRTO` after such a segment went out
unfoldable pub queue_sent : ℕ → ℕ → ℕ → Tcb → Tcb
queue_sent now seq flags t =
    arm_rto now (record t { retx_q = (retx_push (descriptor now seq flags) t.retx_q).0 })

-- where `tcpClose` goes from a state
unfoldable pub closing_state : TcbState → Option TcbState
closing_state TcbState.established = some TcbState.fin_wait_1
closing_state TcbState.close_wait = some TcbState.last_ack
closing_state s = none

-- `tcpClose` once the state is set; 17 is FIN and ACK
unfoldable pub send_fin : Env → Bool → Tcb → Outcome × Bool
send_fin e accepted t =
    let (t', p) = send_segment e.our_ip 17 [] [] t in
    if is_some_packet p && accepted
    then (
      record {
        tcb = queue_sent e.now t'.snd_nxt 17 (record t' { snd_nxt = u32 (t'.snd_nxt + 1) });
        sent = sends p;
        promoted = false;
      },
      true,
    )
    else (record { tcb = t'; sent = sends p; promoted = false }, false)

unfoldable pub tcp_close : Env → Bool → Tcb → Outcome × Bool
tcp_close e accepted t = elim (closing_state t.state) [
  | none ↦ (quiet t, false)
  | some s ↦ send_fin e accepted (record t { state = s })
]

-- `head.xmitCount++; head.sentTicks = pitTicks` on the descriptor at the head
unfoldable pub mark_resent : ℕ → RetxQueue → RetxQueue
mark_resent now q =
    let i = q.head % 64 in
    let e = q.ring i in
    record q {
      ring = update q.ring i (record e { xmit_count = u8 (e.xmit_count + 1); sent_ticks = now });
    }

-- the interval after a firing
abbrev pub backed_off : ℕ → ℕ
backed_off ticks = if ltb 6000 (u32 (ticks * 2)) then 6000 else u32 (ticks * 2)

-- what `tcpRTOFire` records before it sends
unfoldable pub note_rto : ℕ → Tcb → Tcb
note_rto now t =
    let r = t.rtt in
    record t {
      retx_q = mark_resent now t.retx_q;
      xmit_count_head = u8 (t.xmit_count_head + 1);
      rto_fast_retx = false;
      cc = if t.rto_fast_retx then t.cc else cc_on_rto (flight t) t.cc;
      rtt = record r { rto_ticks = backed_off r.rto_ticks };
      rto_deadline = u64 (now + backed_off r.rto_ticks);
    }

abbrev pub is_syn_received : TcbState → Bool
is_syn_received TcbState.syn_received = true
is_syn_received s = false

-- the segment of a descriptor, sent again: a SYN under its own number, a FIN under the next one, data
-- not at all
unfoldable pub resend : ℕ → Entry → Tcb → Tcb × Option Packet
resend our_ip head t =
    let syn_flags = if is_syn_received t.state then 18 else 2 in
    let (after_syn, syn) =
      send_segment our_ip syn_flags (build_mss_option t.mss_local) []
        (record t { snd_nxt = head.seq }) in
    if test_bit head.flags syn_bit
    then (record after_syn { snd_nxt = t.snd_nxt }, syn)
    else if test_bit head.flags fin_bit
    then send_segment our_ip 17 [] [] t
    else (t, none)

-- `tcpRTOFire` past its checks
unfoldable pub retransmit : Env → Tcb → Outcome
retransmit e t = elim (retx_head t.retx_q) [
  | none ↦ quiet (record t { rto_deadline = 0 })
  | some head ↦
      let (t', p) = resend e.our_ip head (note_rto e.now t) in
      record { tcb = t'; sent = sends p; promoted = false }
]

-- `tcpRTOFire`; 8 is `tcpMaxRetransmits`
unfoldable pub rto_fire : Env → Tcb → Outcome
rto_fire e t =
    if not t.active || t.rto_deadline == 0 || ltb e.now t.rto_deadline
    then quiet t
    else if leb 8 t.xmit_count_head
    then quiet (tcb_free (record t { rto_deadline = 0; retx_q = retx_flush }))
    else retransmit e t

-- the persist interval after a probe
abbrev pub persist_backed_off : ℕ → ℕ
persist_backed_off ticks =
    if ltb ticks 6000 then (if ltb 6000 (u32 (ticks * 2)) then 6000 else u32 (ticks * 2)) else ticks

-- `tcpPersistFire`; 24 is ACK and PSH
unfoldable pub persist_fire : Env → Tcb → Outcome
persist_fire e t =
    let ticks = persist_backed_off t.persist_ticks in
    let armed = record t { persist_ticks = ticks; persist_deadline = u64 (e.now + ticks) } in
    let (t', p) = send_segment e.our_ip 24 [] (rb_peek 0 1 1 t.tx_buf) armed in
    if not t.active || t.persist_deadline == 0 || ltb e.now t.persist_deadline
    then quiet t
    else if rb_len t.tx_buf == 0 || not (t.snd_wnd == 0)
    then quiet (record t { persist_deadline = 0; persist_ticks = 0 })
    else record { tcb = t'; sent = sends p; promoted = false }

-- `tcpDelackFire`
unfoldable pub delack_fire : Env → Tcb → Outcome
delack_fire e t =
    let (t', p) = send_pure_ack e.our_ip (record t { delack_deadline = 0 }) in
    if not t.active || t.delack_deadline == 0 || ltb e.now t.delack_deadline
    then quiet t
    else record { tcb = t'; sent = sends p; promoted = false }

-- one firing after another on the same connection
abbrev pub and_then : Bool → (Tcb → Outcome) → Outcome → Outcome
and_then fires act o =
    let next = act o.tcb in
    if fires then record { tcb = next.tcb; sent = o.sent ++ next.sent; promoted = false } else o

abbrev pub is_time_wait : TcbState → Bool
is_time_wait TcbState.time_wait = true
is_time_wait s = false

-- `now >= deadline` for a timer that runs
abbrev pub expired : ℕ → ℕ → Bool
expired now deadline = not (deadline == 0) && leb deadline now

-- `tcpRTOScanPass` on one slot: what fires is decided for all timers first
unfoldable pub scan_slot : Env → Tcb → Outcome
scan_slot e t =
    let time_over = is_time_wait t.state && expired e.now t.time_wait_deadline in
    let rto = and_then (expired e.now t.rto_deadline) (rto_fire e) (quiet t) in
    let persist = and_then (expired e.now t.persist_deadline) (persist_fire e) rto in
    let delack = and_then (expired e.now t.delack_deadline) (delack_fire e) persist in
    if t.active then and_then time_over (λ u. quiet (tcb_free u)) delack else quiet t

-- `tcpEchoPass` on one slot that serves port 8080; `scratch` is the length of its buffer. The result
-- says whether it did any work.
unfoldable pub echo_data : Env → Bool → ℕ → Tcb → Outcome × Bool
echo_data e accepted scratch t =
    let mss = t.cc.mss_eff in
    let limit = if mss == 0 || ltb scratch mss then scratch else mss in
    let (rx, out) = rb_read limit t.rx_buf in
    let wnd = u32 (t.rcv_wnd + length out) in
    let drained = record t { rx_buf = rx; rcv_wnd = if ltb 8192 wnd then 8192 else wnd } in
    let (t', p) = send_segment e.our_ip 24 [] out drained in
    if length out == 0
    then (quiet drained, false)
    else if is_some_packet p && accepted
    then (
      record {
        tcb = record t' { snd_nxt = u32 (t'.snd_nxt + length out) };
        sent = sends p;
        promoted = false;
      },
      true,
    )
    else (record { tcb = t'; sent = sends p; promoted = false }, false)

unfoldable pub echo_fin : Env → Bool → Tcb → Outcome × Bool
echo_fin e accepted t =
    let (t', p) = send_segment e.our_ip 17 [] [] t in
    if is_some_packet p && accepted
    then (
      record {
        tcb = record t' { snd_nxt = u32 (t'.snd_nxt + 1); state = TcbState.last_ack };
        sent = sends p;
        promoted = false;
      },
      true,
    )
    else (record { tcb = t'; sent = sends p; promoted = false }, false)

unfoldable pub echo_state : TcbState → Env → Bool → ℕ → Tcb → Outcome × Bool
echo_state TcbState.established e accepted scratch t =
    if rb_len t.rx_buf == 0 then (quiet t, false) else echo_data e accepted scratch t
echo_state TcbState.close_wait e accepted scratch t =
    if rb_len t.rx_buf == 0 then echo_fin e accepted t else (quiet t, false)
echo_state s e accepted scratch t = (quiet t, false)

unfoldable pub echo_slot : Env → Bool → ℕ → Tcb → Outcome × Bool
echo_slot e accepted scratch t =
    if t.active && t.local_port == 8080
    then echo_state t.state e accepted scratch t
    else (quiet t, false)
