-- ===== src/Tcp/Retx.antt =====
-- The retransmission queue of src/tcp_retx.go: a ring of 64 descriptors under `uint8` counters that
-- wrap.
pub mod Fifo
pub mod Examples
use gooos.Common.{
  ℕ, zero, suc, ◌+◌, ◌-◌, ◌%◌, Bool, true, false, not, ◌||◌, Option, none, some, ltb, leb, ◌==◌,
  if◌then◌else◌, Array, update, u8,
}
use gooos.Tcp.Seq.{seq_le}

-- `tcpRetxMax`
abbrev pub tcp_retx_max : ℕ
tcp_retx_max = 64

-- `flags` and the position of the payload stand for themselves: the queue only carries them.
pub record Entry : Type 0 where
  pub seq : ℕ
  pub end_seq : ℕ
  pub flags : ℕ
  pub buf_off : ℕ
  pub buf_len : ℕ
  pub sent_ticks : ℕ
  pub xmit_count : ℕ

abbrev pub blank : Entry
blank = record {
  seq = 0;
  end_seq = 0;
  flags = 0;
  buf_off = 0;
  buf_len = 0;
  sent_ticks = 0;
  xmit_count = 0;
}

pub record RetxQueue : Type 0 where
  pub ring : Array Entry
  pub head : ℕ
  pub tail : ℕ
  pub n : ℕ

unfoldable pub retx_push : Entry → RetxQueue → RetxQueue × Bool
retx_push e q = if leb tcp_retx_max q.n then (q, false) else (
  record q {
    ring = update q.ring (q.tail % tcp_retx_max) e;
    tail = u8 (q.tail + 1);
    n = u8 (q.n + 1);
  },
  true,
)

unfoldable pub retx_head : RetxQueue → Option Entry
retx_head q = if q.n == 0 then none else some (q.ring (q.head % tcp_retx_max))

-- The results of `retxAckTo`.
pub record Acked : Type 0 where
  pub popped : ℕ
  pub oldest_sent : ℕ
  pub any_pristine : Bool

-- what one turn does to the results
pub note : Entry → Acked → Acked
note e a = record {
  popped = a.popped + 1;
  oldest_sent =
      if a.popped == 0 || ltb e.sent_ticks a.oldest_sent then e.sent_ticks else a.oldest_sent;
  any_pristine = e.xmit_count == 0 || a.any_pristine;
}

-- the loop; each turn takes one from `q.n`, which is the fuel
pub ack_loop : ℕ → ℕ → RetxQueue → Acked → RetxQueue × Acked
ack_loop zero ack q a = (q, a)
ack_loop (suc fuel) ack q a =
    let e = q.ring (q.head % tcp_retx_max) in
    let popped = record q {
      ring = update q.ring (q.head % tcp_retx_max) blank;
      head = u8 (q.head + 1);
      n = q.n - 1;
    } in
    let rest = ack_loop fuel ack popped (note e a) in
    if q.n == 0 || not (seq_le e.end_seq ack) then (q, a) else rest

unfoldable pub retx_ack_to : ℕ → RetxQueue → RetxQueue × Acked
retx_ack_to ack q =
    ack_loop q.n ack q (record { popped = 0; oldest_sent = 0; any_pristine = false })

unfoldable pub retx_flush : RetxQueue
retx_flush = record { ring = λ _. blank; head = 0; tail = 0; n = 0 }
