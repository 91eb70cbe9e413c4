-- ===== src/Tcp/Congestion/Laws.antt =====
-- How the congestion window grows and collapses.
use gooos.Common.{
  true, ◌↔◌, ◌≢◌, test_bit, ℕ, zero, suc, ◌+◌, ◌*◌, ◌/◌, ◌≤◌, ◌<◌, ◌≡◌, false, if◌then◌else◌, ◌==◌,
  ltb, u8, u32, sub32, arith, max, min,
}
use gooos.Tcp.Congestion.{
  Congestion, Flight, initial_window, cc_init, mss_of, slow_start, avoidance, cc_on_ack,
  cc_on_dup_ack, cc_on_rto, is_duplicate_ack, ack_bit, syn_bit, fin_bit, rst_bit,
}

-- What the window of an open connection satisfies: at least one segment, with segments of 16 bits
-- and the window far from the end of its word.
pub record IsOpen (t : Congestion) : Type 0 where
  pub mss_in : t.mss_eff < 65536
  pub segment : mss_of t ≤ t.cwnd
  pub cwnd_in : t.cwnd < 4294836224
  pub accum_in : t.cwnd_accum < mss_of t

-- After `tcpCCInit` a connection with a 16-bit segment size is open, with a window of two to four
-- segments and no threshold below the greatest.
pub init-IsOpen :
    (t : Congestion)
    → t.mss_eff < 65536
    → IsOpen (cc_init t)
      × (2 * mss_of t ≤ (cc_init t).cwnd)
      × ((cc_init t).cwnd ≤ 4 * mss_of t)
      × ((cc_init t).ssthresh ≡ 0xFFFFFFFF)
unfolding cc_init initial_window
init-IsOpen t h = ground arith

square_div : (m c : ℕ) → 0 < m → m ≤ c → m * m / c ≤ m
square_div m c p h = grind arith

square_in : (m : ℕ) → m < 65536 → m * m < 4294967296
square_in m h = grind arith

u32_small : (x : ℕ) → x < 4294967296 → u32 x ≡ x
u32_small x h = omega arith

slow_start_growth :
    (n : ℕ) (t : Congestion)
    → IsOpen t
    → ((slow_start n t).cwnd ≡ t.cwnd + min n (mss_of t))
      × ((slow_start n t).cwnd_accum ≡ t.cwnd_accum)
      × ((slow_start n t).mss_eff ≡ t.mss_eff)
unfolding slow_start
slow_start_growth n t o = ground arith

avoidance_growth :
    (t : Congestion)
    → IsOpen t
    → (t.cwnd ≤ (avoidance t).cwnd)
      × ((avoidance t).cwnd ≤ t.cwnd + mss_of t)
      × ((avoidance t).cwnd_accum < mss_of t)
      × ((avoidance t).mss_eff ≡ t.mss_eff)
unfolding avoidance
avoidance_growth t o =
    let m_in : mss_of t < 65536 = ground arith in
    ground (
      arith,
      square_in (mss_of t) m_in,
      square_div (mss_of t) t.cwnd (omega arith) o.segment,
      u32_small (mss_of t * mss_of t),
    )

-- An acknowledgement never shrinks the window of an open connection, and grows it by at most one
-- segment: in slow start by exactly the bytes acknowledged, up to a segment.
pub on_ack_growth :
    (n : ℕ) (t : Congestion)
    → IsOpen t
    → let t' = cc_on_ack n t in
      (t.cwnd ≤ t'.cwnd)
      × (t'.cwnd ≤ t.cwnd + mss_of t)
      × (t'.cwnd_accum < mss_of t')
      × (t'.cwnd ≡ (if ltb t.cwnd t.ssthresh then t.cwnd + min n (mss_of t) else t'.cwnd))
unfolding cc_on_ack
on_ack_growth n t o =
    let nonzero : (t.cwnd == 0) ≡ false = ground arith in
    rw nonzero (ground (arith, slow_start_growth n t o, avoidance_growth t o))

-- A timeout leaves a window of one segment, and a threshold of half the flight but at least two
-- segments.
pub on_rto_collapse :
    (f : Flight) (t : Congestion)
    → t.mss_eff < 65536
    → let t' = cc_on_rto f t in
      (t'.cwnd ≡ mss_of t)
      × (t'.ssthresh ≡ max (sub32 f.snd_nxt f.snd_una / 2) (2 * mss_of t))
      × (t'.dup_acks ≡ 0)
unfolding cc_on_rto
on_rto_collapse f t h = ground arith

-- `n` duplicate acknowledgements in a row, and how many of them made the caller retransmit
pub dup_run : ℕ → Flight → Congestion → Congestion × ℕ
dup_run zero f t = (t, 0)
dup_run (suc n) f t =
    let (t', fires) = cc_on_dup_ack f t in
    let (t'', k) = dup_run n f t' in (t'', if fires then suc k else k)

counted :
    (f : Flight) (t : Congestion)
    → ((cc_on_dup_ack f t).0.dup_acks ≡ u8 (t.dup_acks + 1))
      × ((cc_on_dup_ack f t).1 ≡ (u8 (t.dup_acks + 1) == 3))
unfolding cc_on_dup_ack
counted f t = ground arith

dup_run_from :
    (n : ℕ) (f : Flight) (t : Congestion)
    → t.dup_acks < 256
    → n + t.dup_acks < 259
    → (dup_run n f t).1
      ≡ (if ltb t.dup_acks 3 then (if ltb (n + t.dup_acks) 3 then 0 else 1) else 0)
unfolding dup_run
dup_run_from zero f t d h = ground arith
dup_run_from (suc n) f t d h = ground (arith, dup_run_from n f (cc_on_dup_ack f t).0, counted f t)

-- Of up to 258 duplicate acknowledgements in a row after a fresh one, exactly the third makes the
-- caller retransmit: there is one retransmission if there are three or more, and none otherwise.
pub dup_run_once :
    (n : ℕ) (f : Flight) (t : Congestion)
    → t.dup_acks ≡ 0
    → n < 259
    → (dup_run n f t).1 ≡ (if ltb n 3 then 0 else 1)
dup_run_once n f t d h = ground (arith, dup_run_from n f t)

-- The third one halves the flight, but to no less than two segments, and opens the window by three
-- segments over that threshold; any other leaves threshold and window.
pub on_dup_ack_recovery :
    (f : Flight) (t : Congestion)
    → t.mss_eff < 65536
    → t.dup_acks < 255
    → let (t', fires) = cc_on_dup_ack f t in
      (fires ≡ (t.dup_acks == 2))
      × (t'.ssthresh
          ≡ (if fires then max (sub32 f.snd_nxt f.snd_una / 2) (2 * mss_of t) else t.ssthresh))
      × (t'.cwnd ≡ (if fires then u32 (t'.ssthresh + 3 * mss_of t) else t.cwnd))
unfolding cc_on_dup_ack
on_dup_ack_recovery f t h d = ground arith

-- `tcpIsDuplicateACK` holds exactly of a bare acknowledgement (the ACK bit set, SYN, FIN and RST clear,
-- no payload) that repeats both the oldest unacknowledged number and the window while data is in
-- flight.
pub is_duplicate_ack_iff :
    (f : Flight) (flags ack window payload_len : ℕ)
    → (is_duplicate_ack f flags ack window payload_len ≡ true) ↔ (
        (test_bit flags ack_bit ≡ true)
        × (test_bit flags syn_bit ≡ false)
        × (test_bit flags fin_bit ≡ false)
        × (test_bit flags rst_bit ≡ false)
        × (payload_len ≡ 0)
        × (ack ≡ f.snd_una)
        × (window ≡ f.snd_wnd)
        × (f.snd_una ≢ f.snd_nxt))
unfolding is_duplicate_ack
is_duplicate_ack_iff f flags ack window payload_len = ground arith
