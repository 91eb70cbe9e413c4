-- ===== src/Tcp/Connection/Stream.antt =====
-- The bytes that a connection takes in, and the sequence number that it acknowledges.
use gooos.Common.{
  ℕ, ◌+◌, ◌<◌, ◌≡◌, ap, ◌∙◌, subst, Bool, true, false, ◌&&◌, inl, inr, List, ◌==◌, if◌then◌else◌,
  length, u32, arith, Bool-cases,
}
use gooos.Tcp.Congestion.{fin_bit, rst_bit}
use gooos.Tcp.Segment.{TcpHeader}
use gooos.Tcp.Connection.{TcbState, Tcb, Env, has_flag, ack_update, receive_payload}
use gooos.Tcp.Connection.Handlers.{
  established_ack, established_fin, handle_established, receive_in_order, leave_fin_wait_1,
  handle_fin_wait_1, handle_fin_wait_2, dispatch_state, dispatch, fin_in_order, take_fin,
  to_time_wait,
}
use gooos.Tcp.Connection.Taken.{
  receive_payload-Took, SameReceiver-IsOpen, SameReceiver-fitting, Took-before, Took-after,
  Took-none, Took-fin, acknowledge-SameReceiver, fitting, if_in_order, IsOpen, Took,
}
use gooos.Tcp.Connection.Frame.{SameReceiver, ack_update-SameReceiver, established_ack-SameReceiver}

-- In `ESTABLISHED` a segment in order has the bytes that fit appended to the receive ring; the number
-- acknowledged grows by as many, and by one more for a FIN. A segment out of order changes neither.
pub handle_established-Took :
    (e : Env) (h : TcpHeader) (payload : List ℕ) (t : Tcb)
    → IsOpen t
    → t.rcv_nxt < 4294967296
    → Took payload
        (if_in_order h t (fitting payload t))
        (if_in_order h t (if has_flag fin_bit h then 1 else 0))
        t
        (handle_established e h payload t).tcb
unfolding handle_established established_fin
handle_established-Took e h payload t o small =
    let acked = established_ack e.now h (length payload) t in
    let same = established_ack-SameReceiver e.now h (length payload) t in
    let fits = SameReceiver-fitting payload same in
    let received = Took-before same (
      subst (λ k. Took payload k 0 acked (receive_payload payload acked)) fits
        (receive_payload-Took payload acked (SameReceiver-IsOpen same o)
          (omega (arith, same.rcv_nxt_eq)))) in
    let u = receive_payload payload acked in
    elim (Bool-cases (h.seq == t.rcv_nxt)) [
      | inl in_order ↦ elim (Bool-cases (has_flag fin_bit h)) [
        | inl fin ↦
            rw (in_order, fin)
              (Took-after (Took-fin TcbState.close_wait u.time_wait_deadline received)
                (acknowledge-SameReceiver e _))
        | inr more ↦ rw (in_order, more) (Took-after received (acknowledge-SameReceiver e u))
      ]
      | inr out ↦ rw out (Took-after (Took-none payload t o small) (acknowledge-SameReceiver e t))
    ]

-- the FIN of a segment counts, in the states that wait for it, when its sequence number is the next
abbrev pub fin_counts : TcpHeader → List ℕ → Tcb → ℕ → ℕ
fin_counts h payload t k =
    if has_flag fin_bit h && u32 (h.seq + length payload) == u32 (t.rcv_nxt + k) then 1 else 0

receive_in_order-Took :
    (h : TcpHeader) (payload : List ℕ) (t : Tcb)
    → IsOpen t
    → t.rcv_nxt < 4294967296
    → Took payload (if_in_order h t (fitting payload t)) 0 t (receive_in_order h payload t)
unfolding receive_in_order
receive_in_order-Took h payload t o small = elim (Bool-cases (h.seq == t.rcv_nxt)) [
  | inl in_order ↦ rw in_order (receive_payload-Took payload t o small)
  | inr out ↦ rw out (Took-none payload t o small)
]

take_fin-Took :
    (h : TcpHeader) (payload : List ℕ) (k : ℕ) (t u : Tcb)
    → Took payload k 0 t u
    → Took payload k (fin_counts h payload t k) t (take_fin h payload u)
take_fin-Took h payload k t u took =
    let next : u.rcv_nxt ≡ u32 (t.rcv_nxt + k) = ground (arith, took.counted) in
    let same : fin_in_order h payload u
        ≡ (has_flag fin_bit h && u32 (h.seq + length payload) == u32 (t.rcv_nxt + k)) =
      ap (λ n. has_flag fin_bit h && u32 (h.seq + length payload) == n) next in
    elim (Bool-cases (fin_in_order h payload u)) [
      | inl fin ↦
          let counts : 1 ≡ fin_counts h payload t k = ground (arith, fin, same) in
          subst (λ f. Took payload k f t (take_fin h payload u)) counts
            (rw fin (Took-fin u.state u.time_wait_deadline took))
      | inr other ↦
          let counts : 0 ≡ fin_counts h payload t k = ground (arith, other, same) in
          subst (λ f. Took payload k f t (take_fin h payload u)) counts (rw other took)
    ]

-- the state and its deadline are not part of the stream
Took-state :
    {payload : List ℕ} {k f : ℕ} {t u : Tcb} (s : TcbState) (deadline : ℕ)
    → Took payload k f t u
    → Took payload k f t (record u { state = s; time_wait_deadline = deadline })
Took-state s deadline took = record {
  stays_open = record { ring = took.stays_open.ring; window = took.stays_open.window };
  appended = took.appended;
  counted = took.counted;
}

leave_fin_wait_1-Took :
    {payload : List ℕ} {k f : ℕ} {t : Tcb} (now : ℕ) (acked fin : Bool) (u : Tcb)
    → Took payload k f t u
    → Took payload k f t (leave_fin_wait_1 now acked fin u)
unfolding leave_fin_wait_1
leave_fin_wait_1-Took now true true u took = Took-state _ _ took
leave_fin_wait_1-Took now true false u took = Took-state _ u.time_wait_deadline took
leave_fin_wait_1-Took now false true u took = Took-state _ u.time_wait_deadline took
leave_fin_wait_1-Took now false false u took = took

-- In `FIN_WAIT_1` the data is taken in as in `ESTABLISHED`; the FIN counts when it stands right after
-- what has been taken in.
pub handle_fin_wait_1-Took :
    (e : Env) (h : TcpHeader) (payload : List ℕ) (t : Tcb)
    → IsOpen t
    → t.rcv_nxt < 4294967296
    → let k = if_in_order h t (fitting payload t) in
      Took payload k (fin_counts h payload t k) t (handle_fin_wait_1 e h payload t).tcb
unfolding handle_fin_wait_1
handle_fin_wait_1-Took e h payload t o small =
    let u0 = receive_in_order h payload t in
    let u = (ack_update e.now h u0).0 in
    let k = if_in_order h t (fitting payload t) in
    let took =
      Took-after (receive_in_order-Took h payload t o small) (ack_update-SameReceiver e.now h u0) in
    Took-after
      (leave_fin_wait_1-Took e.now (ack_update e.now h u0).1 (fin_in_order h payload u)
        (take_fin h payload u) (take_fin-Took h payload k t u took))
      (acknowledge-SameReceiver e _)

to_time_wait-Took :
    {payload : List ℕ} {k f : ℕ} {t u : Tcb} (now : ℕ) (fin : Bool)
    → Took payload k f t u
    → Took payload k f t (if fin then to_time_wait now u else u)
to_time_wait-Took now true took = Took-state _ _ took
to_time_wait-Took now false took = took

in_order_after :
    (h : TcpHeader) (payload : List ℕ) (t u : Tcb)
    → SameReceiver t u
    → if_in_order h u (fitting payload u) ≡ if_in_order h t (fitting payload t)
in_order_after h payload t u same =
    ap (λ n. if h.seq == n then fitting payload u else 0) same.rcv_nxt_eq
    ∙ ap (λ n. if_in_order h t n) (SameReceiver-fitting payload same)

-- The same in `FIN_WAIT_2`.
pub handle_fin_wait_2-Took :
    (e : Env) (h : TcpHeader) (payload : List ℕ) (t : Tcb)
    → IsOpen t
    → t.rcv_nxt < 4294967296
    → let k = if_in_order h t (fitting payload t) in
      Took payload k (fin_counts h payload t k) t (handle_fin_wait_2 e h payload t).tcb
unfolding handle_fin_wait_2
handle_fin_wait_2-Took e h payload t o small =
    let acked = (ack_update e.now h t).0 in
    let same = ack_update-SameReceiver e.now h t in
    let u = receive_in_order h payload acked in
    let k = if_in_order h t (fitting payload t) in
    let took : Took payload k 0 t u =
      subst (λ n. Took payload n 0 t u) (in_order_after h payload t acked same)
        (Took-before same (
          receive_in_order-Took h payload acked (SameReceiver-IsOpen same o)
            (omega (arith, same.rcv_nxt_eq)))) in
    Took-after
      (to_time_wait-Took e.now (fin_in_order h payload u) (take_fin-Took h payload k t u took))
      (acknowledge-SameReceiver e _)

-- the states that take data
unfoldable pub takes_data : TcbState → Bool
takes_data TcbState.established = true
takes_data TcbState.fin_wait_1 = true
takes_data TcbState.fin_wait_2 = true
takes_data s = false

-- the sequence number of a FIN: in `ESTABLISHED` any segment in order, elsewhere one that ends right
-- after what is taken in
pub fin_number : TcbState → TcpHeader → List ℕ → Tcb → ℕ → ℕ
fin_number TcbState.established h payload t k =
    if_in_order h t (if has_flag fin_bit h then 1 else 0)
fin_number s h payload t k = fin_counts h payload t k

dispatch_state-Took :
    (s : TcbState) (e : Env) (h : TcpHeader) (payload : List ℕ) (t : Tcb)
    → takes_data s ≡ true
    → IsOpen t
    → t.rcv_nxt < 4294967296
    → let k = if_in_order h t (fitting payload t) in
      Took payload k (fin_number s h payload t k) t (dispatch_state s e h payload t).tcb
unfolding takes_data fin_number dispatch_state
dispatch_state-Took TcbState.established e h payload t d o small =
    handle_established-Took e h payload t o small
dispatch_state-Took TcbState.fin_wait_1 e h payload t d o small =
    handle_fin_wait_1-Took e h payload t o small
dispatch_state-Took TcbState.fin_wait_2 e h payload t d o small =
    handle_fin_wait_2-Took e h payload t o small
dispatch_state-Took s e h payload t d o small = cc

-- In the states that take data, when the receive ring is in order, the window is what it has room
-- for and the next number expected has 32 bits: a segment without RST has of its payload, if it is
-- in order, the bytes that fit appended to the receive ring, and otherwise nothing. The number
-- acknowledged from then on grows by just as many, and by one for a FIN that counts; ring and
-- window stay in order.
pub dispatch-Took :
    (e : Env) (h : TcpHeader) (payload : List ℕ) (t : Tcb)
    → takes_data t.state ≡ true
    → has_flag rst_bit h ≡ false
    → IsOpen t
    → t.rcv_nxt < 4294967296
    → let k = if_in_order h t (fitting payload t) in
      Took payload k (fin_number t.state h payload t k) t (dispatch e h payload t).tcb
unfolding dispatch
dispatch-Took e h payload t d r o small = rw r (dispatch_state-Took t.state e h payload t d o small)
