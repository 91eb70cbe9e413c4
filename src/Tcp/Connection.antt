-- ===== src/Tcp/Connection.antt =====
-- One connection: the struct `TCB` of src/tcp.go, with the helpers of src/tcp.go, src/tcp_flow.go and
-- src/tcp_retx.go that its handlers share. The functions of a group of fields (the rings, the
-- retransmission queue, the estimator, the congestion window) are those of the modules beside this one.
pub mod Handlers
pub mod Timers
pub mod Frame
pub mod Arrows
pub mod Taken
pub mod Transitions
pub mod Stream
pub mod Flow
pub mod Expiry
pub mod Retry
pub mod Examples
use mathlib.Core.Option
use gooos.Common.{
  ℕ, ◌+◌, ◌-◌, ◌*◌, ◌/◌, ◌%◌, Bool, true, false, not, ◌&&◌, ◌||◌, Option, none, some, List, [], ◌∷◌,
  ltb, leb, ◌==◌, if◌then◌else◌, length, u32, u64, sub32, test_bit,
}
use gooos.Tcp.Seq.{seq_lt, seq_le}
use gooos.Tcp.Rtt.{Rtt, rtt_sample}
use gooos.Tcp.Congestion.{
  Congestion, Flight, cc_on_ack, tcp_default_mss, fin_bit, syn_bit, rst_bit, ack_bit,
}
use gooos.Tcp.Segment.{TcpHeader, build, compute_and_set_checksum}
use gooos.Tcp.RingBuf.{RingBuf, rb_write, rb_len}
use gooos.Tcp.Retx.{RetxQueue, retx_ack_to}

pub data TcbState : Type 0 where
  closed listen syn_sent syn_received established fin_wait_1 fin_wait_2 : TcbState
  close_wait closing last_ack time_wait : TcbState

-- The fields of `TCB`. Those of the estimator and of congestion control stand together in `rtt` and
-- `cc`, with `rtoTicks` and `mssEff` among them; `listener` is the index in the listener table. Fields
-- that nothing reads are left out.
pub record Tcb : Type 0 where
  pub local_ip : ℕ
  pub local_port : ℕ
  pub remote_ip : ℕ
  pub remote_port : ℕ
  pub state : TcbState
  pub listener : Option ℕ
  pub snd_una : ℕ
  pub snd_nxt : ℕ
  pub snd_wnd : ℕ
  pub snd_wl1 : ℕ
  pub snd_wl2 : ℕ
  pub iss : ℕ
  pub rcv_nxt : ℕ
  pub rcv_wnd : ℕ
  pub irs : ℕ
  pub mss_local : ℕ
  pub mss_peer : ℕ
  pub tx_buf : RingBuf
  pub rx_buf : RingBuf
  pub retx_q : RetxQueue
  pub rto_deadline : ℕ
  pub xmit_count_head : ℕ
  pub rto_fast_retx : Bool
  pub rtt : Rtt
  pub time_wait_deadline : ℕ
  pub last_adv_win : ℕ
  pub persist_deadline : ℕ
  pub persist_ticks : ℕ
  pub cc : Congestion
  pub delack_deadline : ℕ
  pub user_owner : Option ℕ
  pub active : Bool

-- What a handler reads that is not of the connection: `pitTicks` and `ourIP`.
pub record Env : Type 0 where
  pub now : ℕ
  pub our_ip : ℕ

-- What is handed to `ipv4Send`: the destination and the bytes of the segment.
pub record Packet : Type 0 where
  pub dst_ip : ℕ
  pub bytes : List ℕ

abbrev pub has_flag : ℕ → TcpHeader → Bool
has_flag bit h = test_bit h.flags bit

-- the fields that the tests on what is in flight read
abbrev pub flight : Tcb → Flight
flight t = record { snd_una = t.snd_una; snd_nxt = t.snd_nxt; snd_wnd = t.snd_wnd }

-- `tcbFree`: the buffers and the queue of the slot stay as they are
unfoldable pub tcb_free : Tcb → Tcb
tcb_free t = record t {
  active = false;
  state = TcbState.closed;
  local_ip = 0;
  local_port = 0;
  remote_ip = 0;
  remote_port = 0;
  user_owner = none;
}

-- `tcpArmRTO`, less the start of the scanner
unfoldable pub arm_rto : ℕ → Tcb → Tcb
arm_rto now t =
    let r = t.rtt in
    let ticks = if r.rto_ticks == 0 then 100 else r.rto_ticks in
    record t {
      rtt = record r { rto_ticks = ticks };
      rto_deadline = u64 (now + ticks);
      xmit_count_head = 0;
    }

-- `if t.retxQ.n == 0 { t.rtoDeadline = 0 } else { tcpArmRTO(t) }`
unfoldable pub settle_rto : ℕ → Tcb → Tcb
settle_rto now t = if t.retx_q.n == 0 then record t { rto_deadline = 0 } else arm_rto now t

-- `retxAckTo` and the sample that its results give
unfoldable pub acked_to : ℕ → ℕ → Tcb → Tcb
acked_to now ack t =
    let (q, a) = retx_ack_to ack t.retx_q in
    record t { retx_q = q; rtt = rtt_sample now a.oldest_sent a.any_pristine t.rtt }

unfoldable pub maybe_arm_persist : ℕ → Tcb → Tcb
maybe_arm_persist now t =
    if not (t.snd_wnd == 0)
    then record t { persist_deadline = 0; persist_ticks = 0 }
    else if rb_len t.tx_buf == 0
    then t
    else if t.persist_deadline == 0
    then record t { persist_ticks = 100; persist_deadline = u64 (now + 100) }
    else t

-- the part of `tcpAckUpdate` for an acknowledgement of something new
unfoldable pub advance_una : ℕ → ℕ → Tcb → Tcb
advance_una now ack t =
    let acked = acked_to now ack (record t { snd_una = ack }) in
    let grown = cc_on_ack (sub32 ack t.snd_una) acked.cc in
    settle_rto now (record acked { cc = record grown { dup_acks = 0 } })

-- the send-window update of `tcpAckUpdate`
unfoldable pub update_window : ℕ → TcpHeader → Tcb → Tcb
update_window now h t =
    if seq_lt t.snd_wl1 h.seq || (t.snd_wl1 == h.seq && seq_le t.snd_wl2 h.ack)
    then maybe_arm_persist now (record t { snd_wnd = h.window; snd_wl1 = h.seq; snd_wl2 = h.ack })
    else t

-- the test of `tcpAckUpdate` that lets an acknowledgement count
abbrev pub ack_acceptable : TcpHeader → Tcb → Bool
ack_acceptable h t = has_flag ack_bit h && (seq_le t.snd_una h.ack && seq_le h.ack t.snd_nxt)

unfoldable pub ack_update : ℕ → TcpHeader → Tcb → Tcb × Bool
ack_update now h t =
    let advanced = if t.snd_una == h.ack then t else advance_una now h.ack t in
    if ack_acceptable h t then (update_window now h advanced, h.ack == t.snd_nxt) else (t, false)

-- `if len(payload) > 0 { ... }` of the handlers that take data
unfoldable pub receive_payload : List ℕ → Tcb → Tcb
receive_payload payload t =
    let (rx, n) = rb_write payload t.rx_buf in
    if length payload == 0 then t else record t {
      rx_buf = rx;
      rcv_nxt = u32 (t.rcv_nxt + n);
      rcv_wnd = if ltb n t.rcv_wnd then t.rcv_wnd - n else 0;
    }

-- `tcpAdvertiseWin`
unfoldable pub advertise_win : Tcb → Tcb × ℕ
advertise_win t =
    let mss = t.cc.mss_eff in
    let threshold = if not (mss == 0) && ltb mss 4096 then mss else 4096 in
    if ltb t.last_adv_win t.rcv_wnd && ltb (t.rcv_wnd - t.last_adv_win) threshold
    then (t, if ltb 65535 t.last_adv_win then 65535 else t.last_adv_win)
    else if ltb 65535 t.rcv_wnd
    then (record t { last_adv_win = 65535 }, 65535)
    else (record t { last_adv_win = t.rcv_wnd }, t.rcv_wnd)

-- `tcpSendSegment` up to its call of `ipv4Send`; `none` is a refusal before that call. 1540 is
-- `tcpScratchSize`.
unfoldable pub send_segment : ℕ → ℕ → List ℕ → List ℕ → Tcb → Tcb × Option Packet
send_segment our_ip flags options payload t =
    let total = 20 + length options + length payload in
    let (t', window) = advertise_win t in
    if not (length options % 4 == 0) || ltb 40 (length options)
    then (t, none)
    else if ltb 1540 total
    then (t, none)
    else (
      t',
      Option.map
          (λ p. record {
            dst_ip = t.remote_ip;
            bytes = compute_and_set_checksum our_ip t.remote_ip p;
          })
          (build total t.local_port t.remote_port t.snd_nxt t.rcv_nxt flags window options payload),
    )

-- `tcpSendPureACK`
unfoldable pub send_pure_ack : ℕ → Tcb → Tcb × Option Packet
send_pure_ack our_ip t = send_segment our_ip 16 [] [] t

unfoldable pub seg_len : ℕ → ℕ → ℕ
seg_len flags payload_len =
    let n = if test_bit flags syn_bit then u32 (payload_len + 1) else payload_len in
    if test_bit flags fin_bit then u32 (n + 1) else n

-- `tcpSendReset` up to its call of `ipv4Send`. The source is the local end.
unfoldable pub send_reset : ℕ → ℕ → ℕ → ℕ → TcpHeader → ℕ → Option Packet
send_reset src_ip src_port dst_ip dst_port h payload_len =
    let acked = has_flag ack_bit h in
    let seq = if acked then h.ack else 0 in
    let ack = if acked then 0 else u32 (h.seq + seg_len h.flags payload_len) in
    let flags = if acked then 4 else 20 in
    Option.map (λ p. record { dst_ip = dst_ip; bytes = compute_and_set_checksum src_ip dst_ip p })
      (build 20 src_port dst_port seq ack flags 0 [] [])
