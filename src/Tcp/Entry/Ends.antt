-- ===== src/Tcp/Entry/Ends.antt =====
-- A handler never changes which two ends a connection is between: it keeps them, or frees the slot.
use gooos.Common.{
  ℕ, ◌+◌, ◌≤◌, ◌≡◌, refl, ◌∙◌, Bool, true, false, List, length, u64, ◌==◌, if◌then◌else◌, arith,
  Bool-cases, inl, inr,
}
use gooos.Tcp.Segment.{TcpHeader}
use gooos.Tcp.Connection.{TcbState, Tcb, Env, tcb_free, ack_update, receive_payload}
use gooos.Tcp.Connection.Handlers.{
  acknowledge, established_ack, established_fin, handle_established, enter_established,
  handle_syn_received, handle_close_wait, handle_last_ack, receive_in_order, leave_fin_wait_1,
  handle_fin_wait_1, handle_fin_wait_2, handle_closing, handle_time_wait, synchronise,
  finish_handshake, handle_syn_sent, dispatch_state, dispatch, fin_in_order, take_fin, to_time_wait,
}
use gooos.Tcp.Connection.Frame.{
  SameReceiver, ack_update-SameReceiver, established_ack-SameReceiver, send_pure_ack-SameReceiver,
  settle_rto-SameReceiver, acked_to-SameReceiver,
}
use gooos.Tcp.Table.Lookup.{owns}

module _ (a b c d : ℕ) where
  pub SameReceiver-owns : {t t' : Tcb} → SameReceiver t t' → owns a b c d t' ≡ owns a b c d t
  SameReceiver-owns same = ground (arith, same)

  pub tcb_free-owns : (t : Tcb) → owns a b c d (tcb_free t) ≡ 0
  unfolding tcb_free
  tcb_free-owns t = refl

  receive_payload-owns :
      (payload : List ℕ) (t : Tcb) → owns a b c d (receive_payload payload t) ≡ owns a b c d t
  unfolding receive_payload
  receive_payload-owns payload t = elim (Bool-cases (length payload == 0)) [
    | inl e ↦ rw e refl
    | inr e ↦ rw e refl
  ]

  acknowledge-owns : (e : Env) (t : Tcb) → owns a b c d (acknowledge e t).tcb ≡ owns a b c d t
  unfolding acknowledge
  acknowledge-owns e t = SameReceiver-owns (send_pure_ack-SameReceiver e.our_ip t)

  established_fin-owns :
      (h : TcpHeader) (t : Tcb) → owns a b c d (established_fin h t) ≡ owns a b c d t
  unfolding established_fin
  established_fin-owns h t = ground arith

  handle_established-owns :
      (e : Env) (h : TcpHeader) (payload : List ℕ) (t : Tcb)
      → owns a b c d (handle_established e h payload t).tcb ≡ owns a b c d t
  unfolding handle_established
  handle_established-owns e h payload t =
      let acked = established_ack e.now h (length payload) t in
      let received = receive_payload payload acked in
      elim (Bool-cases (h.seq == t.rcv_nxt)) [
        | inl in_order ↦ rw in_order (
            acknowledge-owns e (established_fin h received)
            ∙ established_fin-owns h received
            ∙ receive_payload-owns payload acked
            ∙ SameReceiver-owns (established_ack-SameReceiver e.now h (length payload) t))
        | inr out ↦ rw out (acknowledge-owns e t)
      ]

  enter_established-owns :
      (now : ℕ) (h : TcpHeader) (t : Tcb)
      → owns a b c d (enter_established now h t) ≡ owns a b c d t
  unfolding enter_established
  enter_established-owns now h t =
      SameReceiver-owns (settle_rto-SameReceiver now _)
      ∙ SameReceiver-owns (acked_to-SameReceiver now h.ack _)

  handle_syn_received-owns :
      (e : Env) (h : TcpHeader) (payload : List ℕ) (t : Tcb)
      → owns a b c d (handle_syn_received e h payload t).tcb ≡ owns a b c d t
  unfolding handle_syn_received
  handle_syn_received-owns e h payload t =
      let t' = enter_established e.now h t in
      ground (arith, enter_established-owns e.now h t, handle_established-owns e h payload t')

  handle_close_wait-owns :
      (e : Env) (h : TcpHeader) (t : Tcb)
      → owns a b c d (handle_close_wait e h t).tcb ≡ owns a b c d t
  unfolding handle_close_wait
  handle_close_wait-owns e h t = ground (arith, acknowledge-owns e t)

  handle_last_ack-owns :
      (h : TcpHeader) (t : Tcb) → owns a b c d (handle_last_ack h t).tcb ≤ owns a b c d t
  unfolding handle_last_ack
  handle_last_ack-owns h t = ground (arith, tcb_free-owns t)

  receive_in_order-owns :
      (h : TcpHeader) (payload : List ℕ) (t : Tcb)
      → owns a b c d (receive_in_order h payload t) ≡ owns a b c d t
  unfolding receive_in_order
  receive_in_order-owns h payload t = ground (arith, receive_payload-owns payload t)

  take_fin-owns :
      (h : TcpHeader) (payload : List ℕ) (t : Tcb)
      → owns a b c d (take_fin h payload t) ≡ owns a b c d t
  take_fin-owns h payload t = elim (Bool-cases (fin_in_order h payload t)) [
    | inl e ↦ rw e refl
    | inr e ↦ rw e refl
  ]

  leave_fin_wait_1-owns :
      (now : ℕ) (acked fin : Bool) (t : Tcb)
      → owns a b c d (leave_fin_wait_1 now acked fin t) ≡ owns a b c d t
  unfolding leave_fin_wait_1
  leave_fin_wait_1-owns now true true t = refl
  leave_fin_wait_1-owns now true false t = refl
  leave_fin_wait_1-owns now false true t = refl
  leave_fin_wait_1-owns now false false t = refl

  handle_fin_wait_1-owns :
      (e : Env) (h : TcpHeader) (payload : List ℕ) (t : Tcb)
      → owns a b c d (handle_fin_wait_1 e h payload t).tcb ≡ owns a b c d t
  unfolding handle_fin_wait_1
  handle_fin_wait_1-owns e h payload t =
      let received = receive_in_order h payload t in
      let acked = (ack_update e.now h received).0 in
      acknowledge-owns e _
      ∙ leave_fin_wait_1-owns e.now _ _ (take_fin h payload acked)
      ∙ take_fin-owns h payload acked
      ∙ SameReceiver-owns (ack_update-SameReceiver e.now h received)
      ∙ receive_in_order-owns h payload t

  to_time_wait-owns :
      (now : ℕ) (fin : Bool) (t : Tcb)
      → owns a b c d (if fin then to_time_wait now t else t) ≡ owns a b c d t
  to_time_wait-owns now true t = refl
  to_time_wait-owns now false t = refl

  handle_fin_wait_2-owns :
      (e : Env) (h : TcpHeader) (payload : List ℕ) (t : Tcb)
      → owns a b c d (handle_fin_wait_2 e h payload t).tcb ≡ owns a b c d t
  unfolding handle_fin_wait_2
  handle_fin_wait_2-owns e h payload t =
      let acked = (ack_update e.now h t).0 in
      let received = receive_in_order h payload acked in
      acknowledge-owns e _
      ∙ to_time_wait-owns e.now (fin_in_order h payload received) (take_fin h payload received)
      ∙ take_fin-owns h payload received
      ∙ receive_in_order-owns h payload acked
      ∙ SameReceiver-owns (ack_update-SameReceiver e.now h t)

  handle_closing-owns :
      (e : Env) (h : TcpHeader) (t : Tcb) → owns a b c d (handle_closing e h t).tcb ≡ owns a b c d t
  unfolding handle_closing
  handle_closing-owns e h t =
      to_time_wait-owns e.now (ack_update e.now h t).1 (ack_update e.now h t).0
      ∙ SameReceiver-owns (ack_update-SameReceiver e.now h t)

  handle_time_wait-owns :
      (e : Env) (h : TcpHeader) (t : Tcb)
      → owns a b c d (handle_time_wait e h t).tcb ≡ owns a b c d t
  unfolding handle_time_wait
  handle_time_wait-owns e h t =
      ground (arith, acknowledge-owns e (record t { time_wait_deadline = u64 (e.now + 6000) }))

  handle_syn_sent-owns :
      (e : Env) (h : TcpHeader) (payload : List ℕ) (t : Tcb)
      → owns a b c d (handle_syn_sent e h payload t).tcb ≤ owns a b c d t
  unfolding handle_syn_sent finish_handshake
  handle_syn_sent-owns e h payload t =
      let synced = synchronise h t in
      let entered = enter_established e.now h synced in
      let opened = (acknowledge e entered).tcb in
      let same : owns a b c d synced ≡ owns a b c d t = unfold synchronise in refl in
      ground (
        arith,
        same,
        tcb_free-owns t,
        acknowledge-owns e entered,
        enter_established-owns e.now h synced,
        handle_established-owns e h payload opened,
      )

  dispatch_state-owns :
      (s : TcbState) (e : Env) (h : TcpHeader) (payload : List ℕ) (t : Tcb)
      → owns a b c d (dispatch_state s e h payload t).tcb ≤ owns a b c d t
  unfolding dispatch_state
  dispatch_state-owns TcbState.syn_sent e h payload t = handle_syn_sent-owns e h payload t
  dispatch_state-owns TcbState.syn_received e h payload t =
      omega (arith, handle_syn_received-owns e h payload t)
  dispatch_state-owns TcbState.established e h payload t =
      omega (arith, handle_established-owns e h payload t)
  dispatch_state-owns TcbState.close_wait e h payload t =
      omega (arith, handle_close_wait-owns e h t)
  dispatch_state-owns TcbState.last_ack e h payload t = handle_last_ack-owns h t
  dispatch_state-owns TcbState.fin_wait_1 e h payload t =
      omega (arith, handle_fin_wait_1-owns e h payload t)
  dispatch_state-owns TcbState.fin_wait_2 e h payload t =
      omega (arith, handle_fin_wait_2-owns e h payload t)
  dispatch_state-owns TcbState.closing e h payload t = omega (arith, handle_closing-owns e h t)
  dispatch_state-owns TcbState.time_wait e h payload t = omega (arith, handle_time_wait-owns e h t)
  dispatch_state-owns TcbState.closed e h payload t = omega arith
  dispatch_state-owns TcbState.listen e h payload t = omega arith

  pub dispatch-owns :
      (e : Env) (h : TcpHeader) (payload : List ℕ) (t : Tcb)
      → owns a b c d (dispatch e h payload t).tcb ≤ owns a b c d t
  unfolding dispatch
  dispatch-owns e h payload t =
      ground (arith, tcb_free-owns t, dispatch_state-owns t.state e h payload t)
