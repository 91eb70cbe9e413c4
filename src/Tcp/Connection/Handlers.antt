-- ===== src/Tcp/Connection/Handlers.antt =====
-- The handlers of an incoming segment, one for each state, and their dispatch (src/tcp.go). A handler
-- that releases the lock to send is still one step: the source runs them on one thread.
use gooos.Common.{
  ℕ, ◌+◌, Bool, true, false, not, ◌&&◌, ◌||◌, Option, none, some, List, [], ◌∷◌, ◌++◌, ltb, ◌==◌,
  if◌then◌else◌, length, u32, u64,
}
use gooos.Tcp.Seq.{seq_lt, seq_le}
use gooos.Tcp.Congestion.{
  cc_init, cc_on_dup_ack, is_duplicate_ack, tcp_default_mss, fin_bit, syn_bit, rst_bit, ack_bit,
}
use gooos.Tcp.Segment.{TcpHeader, parse_options}
use gooos.Tcp.Connection.{
  TcbState, Tcb, Env, Packet, has_flag, flight, tcb_free, settle_rto, acked_to, ack_update,
  receive_payload, send_pure_ack, send_reset,
}

-- What a handler does: the connection afterwards, the segments it sends in their order, and whether
-- it moves the connection to the accept queue of its listener.
pub record Outcome : Type 0 where
  pub tcb : Tcb
  pub sent : List Packet
  pub promoted : Bool

abbrev pub sends : Option Packet → List Packet
sends none = []
sends (some p) = p ∷ []

-- a handler that sends nothing
abbrev pub quiet : Tcb → Outcome
quiet t = record { tcb = t; sent = []; promoted = false }

-- a handler that ends with `tcpSendPureACK`
unfoldable pub acknowledge : Env → Tcb → Outcome
acknowledge e t =
    let (t', p) = send_pure_ack e.our_ip t in record { tcb = t'; sent = sends p; promoted = false }

-- the duplicate or other acknowledgement of a segment in `ESTABLISHED`
unfoldable pub established_ack : ℕ → TcpHeader → ℕ → Tcb → Tcb
established_ack now h payload_len t =
    let (cc', fires) = cc_on_dup_ack (flight t) t.cc in
    let counted = record t { cc = cc' } in
    if is_duplicate_ack (flight t) h.flags h.ack h.window payload_len
    then (if fires
        then record counted { rto_deadline = 1; xmit_count_head = 0; rto_fast_retx = true }
        else counted)
    else (ack_update now h t).0

-- FIN in `ESTABLISHED`
unfoldable pub established_fin : TcpHeader → Tcb → Tcb
established_fin h t =
    if has_flag fin_bit h
    then record t { rcv_nxt = u32 (t.rcv_nxt + 1); state = TcbState.close_wait }
    else t

unfoldable pub handle_established : Env → TcpHeader → List ℕ → Tcb → Outcome
handle_established e h payload t =
    if h.seq == t.rcv_nxt
    then acknowledge e
        (established_fin h (receive_payload payload (established_ack e.now h (length payload) t)))
    else acknowledge e t

-- the acknowledgement of the SYN, in the handlers of both states that wait for it
unfoldable pub enter_established : ℕ → TcpHeader → Tcb → Tcb
enter_established now h t = settle_rto now (
    acked_to now h.ack (record t {
      state = TcbState.established;
      snd_una = h.ack;
      snd_wnd = h.window;
      snd_wl1 = h.seq;
      snd_wl2 = h.ack;
      cc = cc_init t.cc;
    }))

abbrev pub carries_data : TcpHeader → List ℕ → Bool
carries_data h payload = not (length payload == 0) || has_flag fin_bit h

unfoldable pub handle_syn_received : Env → TcpHeader → List ℕ → Tcb → Outcome
handle_syn_received e h payload t =
    let t' = enter_established e.now h t in
    let next = if carries_data h payload then handle_established e h payload t' else quiet t' in
    if has_flag ack_bit h && h.ack == t.snd_nxt then record next { promoted = true } else quiet t

unfoldable pub handle_close_wait : Env → TcpHeader → Tcb → Outcome
handle_close_wait e h t = if has_flag fin_bit h then acknowledge e t else quiet t

unfoldable pub handle_last_ack : TcpHeader → Tcb → Outcome
handle_last_ack h t = quiet (if has_flag ack_bit h && h.ack == t.snd_nxt then tcb_free t else t)

-- in-order data in the two states that wait for the peer's FIN
unfoldable pub receive_in_order : TcpHeader → List ℕ → Tcb → Tcb
receive_in_order h payload t = if h.seq == t.rcv_nxt then receive_payload payload t else t

-- the test for the peer's FIN in those states, after the data
abbrev pub fin_in_order : TcpHeader → List ℕ → Tcb → Bool
fin_in_order h payload t = has_flag fin_bit h && u32 (h.seq + length payload) == t.rcv_nxt

abbrev pub take_fin : TcpHeader → List ℕ → Tcb → Tcb
take_fin h payload t =
    if fin_in_order h payload t then record t { rcv_nxt = u32 (t.rcv_nxt + 1) } else t

-- `TIME_WAIT` with its deadline; 6000 is `tcpTimeWaitTicks`
abbrev pub to_time_wait : ℕ → Tcb → Tcb
to_time_wait now t = record t { state = TcbState.time_wait; time_wait_deadline = u64 (now + 6000) }

-- the `switch` of `tcpHandleFinWait1`
unfoldable pub leave_fin_wait_1 : ℕ → Bool → Bool → Tcb → Tcb
leave_fin_wait_1 now ack_of_fin peer_fin t =
    if ack_of_fin && peer_fin
    then to_time_wait now t
    else if ack_of_fin
    then record t { state = TcbState.fin_wait_2 }
    else if peer_fin
    then record t { state = TcbState.closing }
    else t

unfoldable pub handle_fin_wait_1 : Env → TcpHeader → List ℕ → Tcb → Outcome
handle_fin_wait_1 e h payload t =
    let (t', ack_of_fin) = ack_update e.now h (receive_in_order h payload t) in
    acknowledge e
      (leave_fin_wait_1 e.now ack_of_fin (fin_in_order h payload t') (take_fin h payload t'))

unfoldable pub handle_fin_wait_2 : Env → TcpHeader → List ℕ → Tcb → Outcome
handle_fin_wait_2 e h payload t =
    let t' = receive_in_order h payload (ack_update e.now h t).0 in
    let closed = take_fin h payload t' in
    acknowledge e (if fin_in_order h payload t' then to_time_wait e.now closed else closed)

unfoldable pub handle_closing : Env → TcpHeader → Tcb → Outcome
handle_closing e h t =
    let (t', ack_of_fin) = ack_update e.now h t in
    quiet (if ack_of_fin then to_time_wait e.now t' else t')

unfoldable pub handle_time_wait : Env → TcpHeader → Tcb → Outcome
handle_time_wait e h t =
    if has_flag fin_bit h
    then acknowledge e (record t { time_wait_deadline = u64 (e.now + 6000) })
    else quiet t

-- the MSS option of the peer, or the default
abbrev pub peer_mss : TcpHeader → ℕ
peer_mss h = if length h.options == 0 then tcp_default_mss else (parse_options h.options).0

-- `mssEff`, the smaller of the two sides'
abbrev pub effective_mss : ℕ → ℕ → ℕ
effective_mss peer local = if ltb peer local then peer else local

-- the fields that a SYN|ACK sets before those of `enter_established`
unfoldable pub synchronise : TcpHeader → Tcb → Tcb
synchronise h t =
    let c = t.cc in
    record t {
      irs = h.seq;
      rcv_nxt = u32 (h.seq + 1);
      mss_peer = peer_mss h;
      cc = record c { mss_eff = effective_mss (peer_mss h) t.mss_local };
    }

-- a reset for the other end of the connection
abbrev pub reset_peer : TcpHeader → List ℕ → Tcb → Option Packet
reset_peer h payload t =
    send_reset t.local_ip t.local_port t.remote_ip t.remote_port h (length payload)

-- the end of `tcpHandleSynSent`: the last acknowledgement of the handshake, and the data if there is any
unfoldable pub finish_handshake : Env → TcpHeader → List ℕ → Tcb → Outcome
finish_handshake e h payload t =
    let opened = acknowledge e (enter_established e.now h (synchronise h t)) in
    let next = handle_established e h payload opened.tcb in
    if carries_data h payload then record next { sent = opened.sent ++ next.sent } else opened

-- `tcpHandleSynSent`, first the check of an acknowledgement
abbrev pub acks_our_syn : TcpHeader → Tcb → Bool
acks_our_syn h t = seq_le (u32 (t.snd_una + 1)) h.ack && seq_le h.ack t.snd_nxt

unfoldable pub handle_syn_sent : Env → TcpHeader → List ℕ → Tcb → Outcome
handle_syn_sent e h payload t =
    let reset : Outcome = record {
      tcb = t;
      sent = sends (reset_peer h payload t);
      promoted = false;
    } in
    if has_flag ack_bit h && not (acks_our_syn h t)
    then (if has_flag rst_bit h then quiet t else reset)
    else if has_flag rst_bit h
    then quiet (tcb_free t)
    else if has_flag syn_bit h && not (has_flag ack_bit h)
    then record reset { tcb = tcb_free t }
    else if has_flag syn_bit h
    then finish_handshake e h payload t
    else quiet t

-- `tcpDispatchToTCB` after its check for a reset
unfoldable pub dispatch_state : TcbState → Env → TcpHeader → List ℕ → Tcb → Outcome
dispatch_state TcbState.syn_sent e h payload t = handle_syn_sent e h payload t
dispatch_state TcbState.syn_received e h payload t = handle_syn_received e h payload t
dispatch_state TcbState.established e h payload t = handle_established e h payload t
dispatch_state TcbState.close_wait e h payload t = handle_close_wait e h t
dispatch_state TcbState.last_ack e h payload t = handle_last_ack h t
dispatch_state TcbState.fin_wait_1 e h payload t = handle_fin_wait_1 e h payload t
dispatch_state TcbState.fin_wait_2 e h payload t = handle_fin_wait_2 e h payload t
dispatch_state TcbState.closing e h payload t = handle_closing e h t
dispatch_state TcbState.time_wait e h payload t = handle_time_wait e h t
dispatch_state TcbState.closed e h payload t = quiet t
dispatch_state TcbState.listen e h payload t = quiet t

abbrev pub is_syn_sent : TcbState → Bool
is_syn_sent TcbState.syn_sent = true
is_syn_sent s = false

-- the window in which a reset counts
abbrev pub in_window : TcpHeader → Tcb → Bool
in_window h t = seq_le t.rcv_nxt h.seq && seq_lt h.seq (u32 (t.rcv_nxt + t.rcv_wnd + 1))

unfoldable pub dispatch : Env → TcpHeader → List ℕ → Tcb → Outcome
dispatch e h payload t =
    if has_flag rst_bit h && not (is_syn_sent t.state)
    then quiet (if in_window h t then tcb_free t else t)
    else dispatch_state t.state e h payload t
