-- ===== src/Tcp/Retx/Examples.antt =====
-- Runs of the retransmission queue across the wrap of its counters, and its theorems at them.
use gooos.Common.{ℕ, ◌≡◌, refl, [], ◌∷◌, ◌++◌, length, update, ltb, if◌then◌else◌, arith}
use gooos.Tcp.Retx.{Entry, RetxQueue, blank, retx_push, retx_flush, retx_ack_to}
use gooos.Tcp.Retx.Fifo.{
  IsValid, contents, covered, pending, oldest, any_sent_once, retx_push_refines,
  retx_ack_to_refines,
}

abbrev sent : ℕ → ℕ → ℕ → Entry
sent until ticks count = record blank { end_seq = until; sent_ticks = ticks; xmit_count = count }

-- two descriptors, the first at index 255 of the counters and the second after their wrap; the
-- sequence numbers wrap between them
abbrev pub two_sent : RetxQueue
two_sent = record {
  ring = update (update retx_flush.ring 63 (sent 4294967000 50 1)) 0 (sent 200 40 0);
  head = 255;
  tail = 1;
  n = 2;
}

two_sent-IsValid : IsValid two_sent
two_sent-IsValid = record { head_in = omega arith; tail_at = refl; n_in = omega arith }

ack_both : (retx_ack_to 300 two_sent).1.oldest_sent ≡ 40
unfolding retx_ack_to gooos.Tcp.Retx.ack_loop gooos.Tcp.Seq.seq_le gooos.Tcp.Retx.note
ack_both = refl

retx_push_refines_example :
    let (q, ok) = retx_push (sent 500 60 0) two_sent in
    IsValid q
    × (ok ≡ ltb (length (contents two_sent)) 64)
    × (contents q ≡ (if ok then contents two_sent ++ (sent 500 60 0 ∷ []) else contents two_sent))
retx_push_refines_example = retx_push_refines (sent 500 60 0) two_sent two_sent-IsValid

retx_ack_to_refines_example :
    let (q, a) = retx_ack_to 300 two_sent in
    let old = covered 300 (contents two_sent) in
    IsValid q
    × (contents q ≡ pending 300 (contents two_sent))
    × (old ++ contents q ≡ contents two_sent)
    × (a.popped ≡ length old)
    × (a.oldest_sent ≡ oldest old)
    × (a.any_pristine ≡ any_sent_once old)
retx_ack_to_refines_example = retx_ack_to_refines 300 two_sent two_sent-IsValid
