-- ===== src/Tcp/Connection/Flow.antt =====
-- The send window, the window that is advertised, and the timers of a connection.
use gooos.Common.{
  ℕ, ◌+◌, ◌-◌, ◌<◌, ◌≤◌, ◌≡◌, ◌≢◌, refl, ap, ◌∙◌, true, ◌&&◌, inl, inr, ltb, leb, ◌==◌, min, max,
  if◌then◌else◌, u32, sub32, arith, Bool-cases,
}
use gooos.Tcp.Seq.{seq_le}
use gooos.Tcp.Congestion.{ack_bit}
use gooos.Tcp.Segment.{TcpHeader}
use gooos.Tcp.Connection.{
  Tcb, has_flag, arm_rto, settle_rto, acked_to, maybe_arm_persist, advance_una, update_window,
  ack_acceptable, ack_update, advertise_win,
}

-- the smallest growth of the window that is worth announcing
abbrev pub sws_threshold : Tcb → ℕ
sws_threshold t = if t.cc.mss_eff == 0 then 4096 else min t.cc.mss_eff 4096

-- The window that is advertised fits its 16 bits and never exceeds what the ring has room for, unless
-- that is what was announced before. It is the room itself, cut to 16 bits, and is kept as the new
-- announcement, unless the room has grown by less than a segment and half the ring: then the former
-- announcement stands.
pub advertise_win_lem :
    (t : Tcb)
    → let (t', window) = advertise_win t in
      let holds_back =
        ltb t.last_adv_win t.rcv_wnd && ltb (t.rcv_wnd - t.last_adv_win) (sws_threshold t) in
      (window ≡ min 65535 (if holds_back then t.last_adv_win else t.rcv_wnd))
      × (t'.last_adv_win ≡ (if holds_back then t.last_adv_win else window))
      × (window ≤ max t.rcv_wnd t.last_adv_win)
unfolding advertise_win
advertise_win_lem t = ground arith

-- what is in flight, as a number
abbrev pub in_flight : Tcb → ℕ
in_flight t = sub32 t.snd_nxt t.snd_una

update_window-snd :
    (now : ℕ) (h : TcpHeader) (t : Tcb)
    → ((update_window now h t).snd_una ≡ t.snd_una)
      × ((update_window now h t).snd_nxt ≡ t.snd_nxt)
      × ((update_window now h t).retx_q ≡ t.retx_q)
unfolding update_window maybe_arm_persist
update_window-snd now h t = ground arith

advance_una-snd :
    (now ack : ℕ) (t : Tcb)
    → ((advance_una now ack t).snd_una ≡ ack)
      × ((advance_una now ack t).snd_nxt ≡ t.snd_nxt)
      × ((advance_una now ack t).cc.dup_acks ≡ 0)
unfolding advance_una acked_to settle_rto arm_rto
advance_una-snd now ack t = ground arith

-- Sequence numbers of 32 bits, and less than half of their space in flight.
pub record SendInRange (t : Tcb) : Type 0 where
  pub una_in : t.snd_una < 4294967296
  pub nxt_in : t.snd_nxt < 4294967296
  pub flight_in : in_flight t < 2147483648

-- the two comparisons of `tcpAckUpdate`, as distances from `sndUna`
ack_window :
    (una nxt ack : ℕ)
    → una < 4294967296
    → nxt < 4294967296
    → ack < 4294967296
    → sub32 nxt una < 2147483648
    → sub32 ack una ≢ 2147483648
    → (seq_le una ack && seq_le ack nxt) ≡ leb (sub32 ack una) (sub32 nxt una)
unfolding seq_le
ack_window una nxt ack a b c d e = ground arith

-- The comparisons are off at one point: with nothing in flight an acknowledgement of just half the
-- sequence space counts.
pub ack_half_space :
    (una : ℕ)
    → una < 4294967296
    → let ack = u32 (una + 2147483648) in (seq_le una ack && seq_le ack una) ≡ true
unfolding seq_le
ack_half_space una a = ground arith

distance_left :
    (una nxt ack : ℕ)
    → una < 4294967296
    → nxt < 4294967296
    → ack < 4294967296
    → sub32 ack una ≤ sub32 nxt una
    → (sub32 nxt ack ≡ sub32 nxt una - sub32 ack una) × ((ack == nxt) ≡ (sub32 nxt ack == 0))
distance_left una nxt ack a b c d = (omega arith, ground arith)

ack_update_fields :
    (now : ℕ) (h : TcpHeader) (t : Tcb)
    → let (t', all) = ack_update now h t in
      (t'.snd_una ≡ (if ack_acceptable h t then h.ack else t.snd_una))
      × (t'.snd_nxt ≡ t.snd_nxt)
      × (all ≡ (ack_acceptable h t && h.ack == t.snd_nxt))
unfolding ack_update
ack_update_fields now h t =
    let advanced = if t.snd_una == h.ack then t else advance_una now h.ack t in
    let sent = update_window-snd now h advanced in
    let una : advanced.snd_una ≡ h.ack = ground (arith, advance_una-snd now h.ack t) in
    let nxt : advanced.snd_nxt ≡ t.snd_nxt = ground (arith, advance_una-snd now h.ack t) in
    elim (Bool-cases (ack_acceptable h t)) [
      | inl yes_it_is ↦ rw yes_it_is (sent.0 ∙ una, sent.1 ∙ nxt, refl)
      | inr it_is_not ↦ rw it_is_not (refl, refl, refl)
    ]

-- `tcpAckUpdate`, on 32-bit numbers with less than half of their space in flight and for any
-- acknowledgement but that of the number half the space away, moves `sndUna` to it exactly when it
-- lies between `sndUna` and `sndNxt`: what is in flight then shrinks by what is newly acknowledged,
-- and otherwise stays. It reports that everything is acknowledged exactly when such an
-- acknowledgement leaves nothing in flight.
pub ack_update-snd :
    (now : ℕ) (h : TcpHeader) (t : Tcb)
    → SendInRange t
    → h.ack < 4294967296
    → sub32 h.ack t.snd_una ≢ 2147483648
    → let (t', all) = ack_update now h t in
      let counts = has_flag ack_bit h && leb (sub32 h.ack t.snd_una) (in_flight t) in
      SendInRange t'
      × (t'.snd_una ≡ (if counts then h.ack else t.snd_una))
      × (in_flight t' ≡ in_flight t - (if counts then sub32 h.ack t.snd_una else 0))
      × (all ≡ (counts && in_flight t' == 0))
ack_update-snd now h t v small far =
    let window = ack_window t.snd_una t.snd_nxt h.ack v.una_in v.nxt_in small v.flight_in far in
    let counts : ack_acceptable h t
        ≡ (has_flag ack_bit h && leb (sub32 h.ack t.snd_una) (in_flight t)) =
      ap (λ b. has_flag ack_bit h && b) window in
    let (una, nxt, all) = ack_update_fields now h t in
    elim (Bool-cases (has_flag ack_bit h && leb (sub32 h.ack t.snd_una) (in_flight t))) [
      | inl taken ↦
          let una' : (ack_update now h t).0.snd_una ≡ h.ack =
            una ∙ ap (λ b. if b then h.ack else t.snd_una) (counts ∙ taken) in
          let all' : (ack_update now h t).1 ≡ (h.ack == t.snd_nxt) =
            all ∙ ap (λ b. b && h.ack == t.snd_nxt) (counts ∙ taken) in
          let within : sub32 h.ack t.snd_una ≤ in_flight t = ground (arith, taken) in
          let left = distance_left t.snd_una t.snd_nxt h.ack v.una_in v.nxt_in small within in
          rw taken (
            record {
              una_in = omega arith;
              nxt_in = omega arith;
              flight_in = ground (arith, left.0, una', nxt);
            },
            una',
            ground (arith, left.0, una', nxt),
            all' ∙ ground (arith, left, una', nxt),
          )
      | inr ignored ↦
          let una' : (ack_update now h t).0.snd_una ≡ t.snd_una =
            una ∙ ap (λ b. if b then h.ack else t.snd_una) (counts ∙ ignored) in
          rw ignored (
            record {
              una_in = omega arith;
              nxt_in = omega arith;
              flight_in = ground (arith, una', nxt);
            },
            una',
            ground (arith, una', nxt),
            all ∙ ap (λ b. b && h.ack == t.snd_nxt) (counts ∙ ignored),
          )
    ]
