-- ===== src/Tcp/Connection/Transitions.antt =====
-- The states that a segment may lead to, against the diagram of RFC 793.
use gooos.Common.{
  ℕ, ◌+◌, ◌<◌, u32, u64, ◌≡◌, refl, ◌∙◌, Bool, true, false, not, ◌&&◌, ◌||◌, List, length, ◌==◌,
  if◌then◌else◌, arith,
}
use gooos.Tcp.Congestion.{fin_bit, syn_bit, rst_bit, ack_bit}
use gooos.Tcp.Segment.{TcpHeader}
use gooos.Tcp.Connection.{TcbState, Tcb, Env, has_flag, tcb_free, ack_update, receive_payload}
use gooos.Tcp.Connection.Handlers.{
  acknowledge, established_ack, established_fin, handle_established, enter_established,
  handle_syn_received, handle_close_wait, handle_last_ack, receive_in_order, leave_fin_wait_1,
  handle_fin_wait_1, handle_fin_wait_2, handle_closing, handle_time_wait, synchronise,
  finish_handshake, handle_syn_sent, dispatch_state, dispatch, is_syn_sent, in_window, fin_in_order,
  take_fin, to_time_wait, acks_our_syn,
}
use gooos.Tcp.Connection.Arrows.{
  arrow, same_state, two_arrows, is_closed, allowed, allowed_self, allowed-is_closed,
}
use gooos.Tcp.Connection.Frame.{
  ack_update-SameReceiver, established_ack-SameReceiver, send_pure_ack-SameReceiver,
  receive_payload-state, settle_rto-SameReceiver, acked_to-SameReceiver,
}

acknowledge-state : (e : Env) (t : Tcb) → (acknowledge e t).tcb.state ≡ t.state
unfolding acknowledge
acknowledge-state e t = (send_pure_ack-SameReceiver e.our_ip t).state_eq

-- In `ESTABLISHED` a segment in order with a FIN leads to `CLOSE_WAIT`; no other changes the state.
pub handle_established-state :
    (e : Env) (h : TcpHeader) (payload : List ℕ) (t : Tcb)
    → (handle_established e h payload t).tcb.state
      ≡ (if h.seq == t.rcv_nxt && has_flag fin_bit h then TcbState.close_wait else t.state)
unfolding handle_established established_fin
handle_established-state e h payload t =
    let acked = established_ack e.now h (length payload) t in
    let received = receive_payload payload acked in
    ground (
      arith,
      acknowledge-state e t,
      acknowledge-state e (established_fin h received),
      receive_payload-state payload acked,
      established_ack-SameReceiver e.now h (length payload) t,
    )

enter_established-state :
    (now : ℕ) (h : TcpHeader) (t : Tcb) → (enter_established now h t).state ≡ TcbState.established
unfolding enter_established
enter_established-state now h t =
    (settle_rto-SameReceiver now _).state_eq ∙ (acked_to-SameReceiver now h.ack _).state_eq

-- after the handshake the next byte expected is the one after the SYN
opened-rcv_nxt :
    (e : Env) (h : TcpHeader) (t : Tcb)
    → (acknowledge e (enter_established e.now h (synchronise h t))).tcb.rcv_nxt ≡ u32 (h.seq + 1)
unfolding acknowledge enter_established synchronise
opened-rcv_nxt e h t =
    (send_pure_ack-SameReceiver e.our_ip _).rcv_nxt_eq
    ∙ (settle_rto-SameReceiver e.now _).rcv_nxt_eq
    ∙ (acked_to-SameReceiver e.now h.ack _).rcv_nxt_eq

handle_syn_received-allowed :
    (e : Env) (h : TcpHeader) (payload : List ℕ) (t : Tcb)
    → t.state ≡ TcbState.syn_received
    → allowed TcbState.syn_received (handle_syn_received e h payload t).tcb.state ≡ true
unfolding handle_syn_received arrow same_state two_arrows
handle_syn_received-allowed e h payload t at =
    let t' = enter_established e.now h t in
    ground (arith, at, enter_established-state e.now h t, handle_established-state e h payload t')

handle_fin_wait_1-allowed :
    (e : Env) (h : TcpHeader) (payload : List ℕ) (t : Tcb)
    → t.state ≡ TcbState.fin_wait_1
    → allowed TcbState.fin_wait_1 (handle_fin_wait_1 e h payload t).tcb.state ≡ true
unfolding handle_fin_wait_1 receive_in_order leave_fin_wait_1 arrow same_state two_arrows
handle_fin_wait_1-allowed e h payload t at =
    let received = receive_in_order h payload t in
    let acked = (ack_update e.now h received).0 in
    let fin = (ack_update e.now h received).1 in
    let left =
      leave_fin_wait_1 e.now fin (fin_in_order h payload acked) (take_fin h payload acked) in
    ground (
      arith,
      at,
      receive_payload-state payload t,
      ack_update-SameReceiver e.now h received,
      acknowledge-state e left,
    )

handle_fin_wait_2-allowed :
    (e : Env) (h : TcpHeader) (payload : List ℕ) (t : Tcb)
    → t.state ≡ TcbState.fin_wait_2
    → allowed TcbState.fin_wait_2 (handle_fin_wait_2 e h payload t).tcb.state ≡ true
unfolding handle_fin_wait_2 receive_in_order arrow same_state two_arrows
handle_fin_wait_2-allowed e h payload t at =
    let acked = (ack_update e.now h t).0 in
    let received = receive_in_order h payload acked in
    let closing = take_fin h payload received in
    let left = if fin_in_order h payload received then to_time_wait e.now closing else closing in
    ground (
      arith,
      at,
      ack_update-SameReceiver e.now h t,
      receive_payload-state payload acked,
      acknowledge-state e left,
    )

handle_closing-allowed :
    (e : Env) (h : TcpHeader) (t : Tcb)
    → t.state ≡ TcbState.closing
    → allowed TcbState.closing (handle_closing e h t).tcb.state ≡ true
unfolding handle_closing arrow same_state two_arrows
handle_closing-allowed e h t at = ground (arith, at, ack_update-SameReceiver e.now h t)

handle_time_wait-state :
    (e : Env) (h : TcpHeader) (t : Tcb) → (handle_time_wait e h t).tcb.state ≡ t.state
unfolding handle_time_wait
handle_time_wait-state e h t =
    ground (arith, acknowledge-state e (record t { time_wait_deadline = u64 (e.now + 6000) }))

handle_close_wait-state :
    (e : Env) (h : TcpHeader) (t : Tcb) → (handle_close_wait e h t).tcb.state ≡ t.state
unfolding handle_close_wait
handle_close_wait-state e h t = ground (arith, acknowledge-state e t)

handle_last_ack-state :
    (h : TcpHeader) (t : Tcb)
    → (handle_last_ack h t).tcb.state
      ≡ (if has_flag ack_bit h && h.ack == t.snd_nxt then TcbState.closed else t.state)
unfolding handle_last_ack tcb_free
handle_last_ack-state h t = ground arith

-- what ends a connection that waits for a SYN|ACK
abbrev pub refused : TcpHeader → Tcb → Bool
refused h t =
    (not (has_flag ack_bit h) || acks_our_syn h t)
    && (has_flag rst_bit h || (has_flag syn_bit h && not (has_flag ack_bit h)))

-- A SYN|ACK for our SYN, without RST, and nothing else leads from `SYN_SENT` to `ESTABLISHED`: the
-- FIN that it may carry is out of order for the handler that it is then passed to.
handle_syn_sent-state :
    (e : Env) (h : TcpHeader) (payload : List ℕ) (t : Tcb)
    → h.seq < 4294967296
    → (handle_syn_sent e h payload t).tcb.state ≡ (
        if refused h t
        then TcbState.closed
        else if has_flag ack_bit h && acks_our_syn h t && has_flag syn_bit h
        then TcbState.established
        else t.state)
unfolding handle_syn_sent finish_handshake tcb_free
handle_syn_sent-state e h payload t small =
    let synced = synchronise h t in
    let entered = enter_established e.now h synced in
    let opened = (acknowledge e entered).tcb in
    ground (
      arith,
      acknowledge-state e entered,
      enter_established-state e.now h synced,
      handle_established-state e h payload opened,
      opened-rcv_nxt e h t,
    )

tcb_free-state : (t : Tcb) → is_closed (tcb_free t).state ≡ true
unfolding tcb_free is_closed
tcb_free-state t = refl

-- what closes a connection that is past the check for a reset
pub closes_in : TcbState → TcpHeader → Tcb → Bool
closes_in TcbState.syn_sent h t = refused h t
closes_in TcbState.last_ack h t = has_flag ack_bit h && h.ack == t.snd_nxt
closes_in s h t = false

-- the segments that close a connection
abbrev pub closes : TcpHeader → Tcb → Bool
closes h t =
    if has_flag rst_bit h && not (is_syn_sent t.state) then in_window h t else closes_in t.state h t

abbrev Moves : TcbState → Bool → TcbState → Type 0
Moves s ends s' = (is_closed s' ≡ (ends || is_closed s)) × ((ends || allowed s s') ≡ true)

dispatch_state-Moves :
    (s : TcbState) (e : Env) (h : TcpHeader) (payload : List ℕ) (t : Tcb)
    → h.seq < 4294967296
    → t.state ≡ s
    → Moves s (closes_in s h t) (dispatch_state s e h payload t).tcb.state
unfolding dispatch_state closes_in is_closed arrow same_state two_arrows
dispatch_state-Moves TcbState.syn_sent e h payload t small at =
    ground (arith, at, handle_syn_sent-state e h payload t small)
dispatch_state-Moves TcbState.syn_received e h payload t small at =
    let ok = handle_syn_received-allowed e h payload t at in
    (allowed-is_closed TcbState.syn_received _ ok refl, ok)
dispatch_state-Moves TcbState.established e h payload t small at =
    ground (arith, at, handle_established-state e h payload t)
dispatch_state-Moves TcbState.close_wait e h payload t small at =
    ground (arith, at, handle_close_wait-state e h t)
dispatch_state-Moves TcbState.last_ack e h payload t small at =
    ground (arith, at, handle_last_ack-state h t)
dispatch_state-Moves TcbState.fin_wait_1 e h payload t small at =
    let ok = handle_fin_wait_1-allowed e h payload t at in
    (allowed-is_closed TcbState.fin_wait_1 _ ok refl, ok)
dispatch_state-Moves TcbState.fin_wait_2 e h payload t small at =
    let ok = handle_fin_wait_2-allowed e h payload t at in
    (allowed-is_closed TcbState.fin_wait_2 _ ok refl, ok)
dispatch_state-Moves TcbState.closing e h payload t small at =
    let ok = handle_closing-allowed e h t at in (allowed-is_closed TcbState.closing _ ok refl, ok)
dispatch_state-Moves TcbState.time_wait e h payload t small at =
    ground (arith, at, handle_time_wait-state e h t)
dispatch_state-Moves TcbState.closed e h payload t small at = ground (arith, at)
dispatch_state-Moves TcbState.listen e h payload t small at = ground (arith, at)

-- A segment, its sequence number of 32 bits, moves a connection only along the arrows of RFC 793,
-- or leaves it where it is; one that ends the handshake and carries a FIN takes two arrows at once.
-- It closes an open connection exactly when it is a reset in the receive window (in `SYN_SENT`: a
-- reset, or a SYN without ACK, that does not acknowledge something else than our SYN) or
-- acknowledges our FIN in `LAST_ACK`.
pub dispatch-Moves :
    (e : Env) (h : TcpHeader) (payload : List ℕ) (t : Tcb)
    → h.seq < 4294967296
    → let s' = (dispatch e h payload t).tcb.state in
      (is_closed s' ≡ (closes h t || is_closed t.state))
      × ((closes h t || allowed t.state s') ≡ true)
unfolding dispatch
dispatch-Moves e h payload t small = ground (
  arith,
  dispatch_state-Moves t.state e h payload t small refl,
  tcb_free-state t,
  allowed_self t.state,
)
