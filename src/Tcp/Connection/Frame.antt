-- ===== src/Tcp/Connection/Frame.antt =====
-- What the helpers of the handlers leave alone.
use gooos.Common.{ℕ, ◌≡◌, List, [], arith}
use gooos.Tcp.Segment.{TcpHeader}
use gooos.Tcp.Connection.{
  Tcb, arm_rto, settle_rto, acked_to, maybe_arm_persist, advance_una, update_window, ack_update,
  receive_payload, advertise_win, send_segment, send_pure_ack,
}
use gooos.Tcp.Connection.Handlers.{established_ack}

-- The receiving side, the identity and the state are as before: what processing an acknowledgement and
-- sending leave alone.
pub record SameReceiver (t t' : Tcb) : Type 0 where
  pub state_eq : t'.state ≡ t.state
  pub active_eq : t'.active ≡ t.active
  pub local_port_eq : t'.local_port ≡ t.local_port
  pub remote_port_eq : t'.remote_port ≡ t.remote_port
  pub local_ip_eq : t'.local_ip ≡ t.local_ip
  pub remote_ip_eq : t'.remote_ip ≡ t.remote_ip
  pub snd_nxt_eq : t'.snd_nxt ≡ t.snd_nxt
  pub rcv_nxt_eq : t'.rcv_nxt ≡ t.rcv_nxt
  pub rcv_wnd_eq : t'.rcv_wnd ≡ t.rcv_wnd
  pub rx_buf_eq : t'.rx_buf ≡ t.rx_buf

pub SameReceiver-refl : (t : Tcb) → SameReceiver t t
SameReceiver-refl t = ground arith

pub SameReceiver-trans : {t u v : Tcb} → SameReceiver t u → SameReceiver u v → SameReceiver t v
SameReceiver-trans a b = ground arith

pub settle_rto-SameReceiver : (now : ℕ) (t : Tcb) → SameReceiver t (settle_rto now t)
unfolding settle_rto arm_rto
settle_rto-SameReceiver now t = ground arith

pub acked_to-SameReceiver : (now ack : ℕ) (t : Tcb) → SameReceiver t (acked_to now ack t)
unfolding acked_to
acked_to-SameReceiver now ack t = ground arith

pub advance_una-SameReceiver : (now ack : ℕ) (t : Tcb) → SameReceiver t (advance_una now ack t)
unfolding advance_una acked_to settle_rto arm_rto
advance_una-SameReceiver now ack t = ground arith

pub update_window-SameReceiver :
    (now : ℕ) (h : TcpHeader) (t : Tcb) → SameReceiver t (update_window now h t)
unfolding update_window maybe_arm_persist
update_window-SameReceiver now h t = ground arith

pub ack_update-SameReceiver :
    (now : ℕ) (h : TcpHeader) (t : Tcb) → SameReceiver t (ack_update now h t).0
unfolding ack_update
ack_update-SameReceiver now h t =
    let direct = update_window-SameReceiver now h t in
    let advanced = advance_una-SameReceiver now h.ack t in
    let after = update_window-SameReceiver now h (advance_una now h.ack t) in
    ground (arith, direct, advanced, after)

pub established_ack-SameReceiver :
    (now : ℕ) (h : TcpHeader) (payload_len : ℕ) (t : Tcb)
    → SameReceiver t (established_ack now h payload_len t)
unfolding established_ack
established_ack-SameReceiver now h payload_len t = ground (arith, ack_update-SameReceiver now h t)

pub send_segment-SameReceiver :
    (our_ip flags : ℕ) (options payload : List ℕ) (t : Tcb)
    → SameReceiver t (send_segment our_ip flags options payload t).0
unfolding send_segment advertise_win
send_segment-SameReceiver our_ip flags options payload t = ground arith

pub send_pure_ack-SameReceiver : (our_ip : ℕ) (t : Tcb) → SameReceiver t (send_pure_ack our_ip t).0
unfolding send_pure_ack
send_pure_ack-SameReceiver our_ip t = send_segment-SameReceiver our_ip 16 [] [] t

pub receive_payload-state :
    (payload : List ℕ) (t : Tcb) → (receive_payload payload t).state ≡ t.state
unfolding receive_payload
receive_payload-state payload t = ground arith
