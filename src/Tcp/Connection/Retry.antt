-- ===== src/Tcp/Connection/Retry.antt =====
-- A connection whose peer is silent (`tcpRTOFire` of src/tcp_retx.go): what is sent again, when, and the
-- end of it.
use gooos.Common.{
  ℕ, zero, suc, ◌+◌, ◌*◌, ◌%◌, Bool, List, [], ◌∷◌, ◌++◌, min, if◌then◌else◌, test_bit,
}
use gooos.Tcp.Congestion.{syn_bit}
use gooos.Tcp.Segment.{written, build_mss_option, compute_and_set_checksum}
use gooos.Tcp.Retx.{Entry}
use gooos.Tcp.Connection.{Tcb, Packet}
use gooos.Tcp.Connection.Handlers.{Outcome}
use gooos.Tcp.Connection.Timers.{is_syn_received, rto_fire}

-- what a segment that is sent again is made of: the ends, the numbers, and the descriptor at the head
pub record Pending : Type 0 where
  pub local_port : ℕ
  pub remote_ip : ℕ
  pub remote_port : ℕ
  pub rcv_nxt : ℕ
  pub snd_nxt : ℕ
  pub mss_local : ℕ
  pub accepting : Bool
  pub seq : ℕ
  pub flags : ℕ

abbrev pub head_of : Tcb → Entry
head_of t = t.retx_q.ring (t.retx_q.head % 64)

abbrev pub pending : Tcb → Pending
pending t = record {
  local_port = t.local_port;
  remote_ip = t.remote_ip;
  remote_port = t.remote_port;
  rcv_nxt = t.rcv_nxt;
  snd_nxt = t.snd_nxt;
  mss_local = t.mss_local;
  accepting = is_syn_received t.state;
  seq = (head_of t).seq;
  flags = (head_of t).flags;
}

-- The segment with some window: a SYN, with ACK in SYN_RECEIVED, under the number of the descriptor and
-- with the MSS option; or FIN with ACK at the end of what was sent.
abbrev pub copy_of : ℕ → Pending → ℕ → Bool → Packet
copy_of our_ip p window syn = record {
  dst_ip = p.remote_ip;
  bytes = compute_and_set_checksum our_ip p.remote_ip (
      if syn
      then written p.local_port p.remote_port p.seq p.rcv_nxt (if p.accepting then 18 else 2) window
          (build_mss_option p.mss_local) []
      else written p.local_port p.remote_port p.snd_nxt p.rcv_nxt 17 window [] []);
}

abbrev pub copy : ℕ → Pending → ℕ → Packet
copy our_ip p window = copy_of our_ip p window (test_bit p.flags syn_bit)

-- `n` segments that differ in their windows at most
pub data Copies (our_ip : ℕ) (p : Pending) : ℕ → List Packet → Type 0 where
  no_more : Copies our_ip p 0 []
  one_more :
      {n : ℕ} {ps : List Packet} (window : ℕ)
      → Copies our_ip p n ps
      → Copies our_ip p (suc n) (copy our_ip p window ∷ ps)

-- the interval after `n` firings, and the ticks that they take
abbrev pub interval : ℕ → ℕ → ℕ
interval zero ticks = ticks
interval (suc n) ticks = interval n (min 6000 (2 * ticks))

abbrev pub waited : ℕ → ℕ → ℕ
waited zero ticks = 0
waited (suc n) ticks = min 6000 (2 * ticks) + waited n (min 6000 (2 * ticks))

-- the timer fires when it is due, and nothing else happens to the connection
abbrev pub fire_due : ℕ → Tcb → Outcome
fire_due our_ip t = rto_fire (record { now = t.rto_deadline; our_ip = our_ip }) t

-- what is left of the connection, and what was sent
pub fires : ℕ → ℕ → Tcb → Tcb × List Packet
fires zero our_ip t = (t, [])
fires (suc n) our_ip t =
    let o = fire_due our_ip t in let (t', ps) = fires n our_ip o.tcb in (t', o.sent ++ ps)

with_number : ℕ → Tcb → Tcb
with_number n t = record t { snd_nxt = n }
