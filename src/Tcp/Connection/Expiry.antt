-- ===== src/Tcp/Connection/Expiry.antt =====
-- The retransmission timer: what one firing does to its fields.
use gooos.Common.{
  ℕ, ◌+◌, ◌*◌, ◌%◌, ◌<◌, ◌≤◌, ◌≡◌, true, inl, inr, List, ltb, min, if◌then◌else◌, u64, arith,
  Bool-cases,
}
use gooos.Tcp.Retx.{Entry, RetxQueue, retx_head}
use gooos.Tcp.Connection.{Tcb, Env, Packet, tcb_free, send_segment}
use gooos.Tcp.Connection.Timers.{mark_resent, note_rto, resend, retransmit, rto_fire, backed_off}

-- the timer's own fields, and the number of descriptors
pub record SameTimer (t t' : Tcb) : Type 0 where
  pub active_eq : t'.active ≡ t.active
  pub deadline_eq : t'.rto_deadline ≡ t.rto_deadline
  pub tries_eq : t'.xmit_count_head ≡ t.xmit_count_head
  pub ticks_eq : t'.rtt.rto_ticks ≡ t.rtt.rto_ticks
  pub queued_eq : t'.retx_q.n ≡ t.retx_q.n

send_segment-SameTimer :
    (our_ip flags : ℕ) (options payload : List ℕ) (t : Tcb)
    → SameTimer t (send_segment our_ip flags options payload t).0
unfolding send_segment gooos.Tcp.Connection.advertise_win
send_segment-SameTimer our_ip flags options payload t = ground arith

resend-SameTimer : (our_ip : ℕ) (head : Entry) (t : Tcb) → SameTimer t (resend our_ip head t).0
unfolding resend send_segment gooos.Tcp.Connection.advertise_win
resend-SameTimer our_ip head t = ground arith

retransmit_lem :
    (e : Env) (t : Tcb)
    → 0 < t.retx_q.n
    → t.rtt.rto_ticks ≤ 6000
    → t.xmit_count_head < 8
    → let t' = (retransmit e t).tcb in
      let ticks = min 6000 (2 * t.rtt.rto_ticks) in
      (t'.active ≡ t.active)
      × (t'.xmit_count_head ≡ t.xmit_count_head + 1)
      × (t'.rto_deadline ≡ u64 (e.now + ticks))
      × (t'.rtt.rto_ticks ≡ ticks)
      × (t'.retx_q.n ≡ t.retx_q.n)
unfolding retransmit note_rto mark_resent retx_head
retransmit_lem e t queued ticks_in tries =
    let head = t.retx_q.ring (t.retx_q.head % 64) in
    let same = resend-SameTimer e.our_ip head (note_rto e.now t) in
    let doubled : backed_off t.rtt.rto_ticks ≡ min 6000 (2 * t.rtt.rto_ticks) = ground arith in
    ground (arith, same, doubled)

-- A firing of `tcpRTOFire` that is due on an active connection, with a descriptor queued, an
-- interval of at most 6000 ticks and at most eight tries counted: below eight it counts one more
-- try, doubles the interval up to 6000 ticks and is due again after it; at eight the connection is
-- freed, its queue flushed and the timer stopped.
pub rto_fire_due :
    (e : Env) (t : Tcb)
    → t.active ≡ true
    → 0 < t.rto_deadline
    → t.rto_deadline ≤ e.now
    → 0 < t.retx_q.n
    → t.rtt.rto_ticks ≤ 6000
    → t.xmit_count_head ≤ 8
    → let t' = (rto_fire e t).tcb in
      let more = ltb t.xmit_count_head 8 in
      let ticks = min 6000 (2 * t.rtt.rto_ticks) in
      (t'.active ≡ more)
      × (t'.xmit_count_head ≡ (if more then t.xmit_count_head + 1 else t.xmit_count_head))
      × (t'.rto_deadline ≡ (if more then u64 (e.now + ticks) else 0))
      × (t'.rtt.rto_ticks ≡ (if more then ticks else t.rtt.rto_ticks))
      × (t'.retx_q.n ≡ (if more then t.retx_q.n else 0))
unfolding rto_fire tcb_free gooos.Tcp.Retx.retx_flush
rto_fire_due e t act armed due queued ticks_in tries = elim (Bool-cases (ltb t.xmit_count_head 8)) [
  | inl more ↦
      let again = retransmit_lem e t queued ticks_in (ground (arith, more)) in
      ground (arith, more, again)
  | inr over ↦ ground (arith, over)
]
