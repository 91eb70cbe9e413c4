-- ===== src/Net/Udp/Examples.antt =====
-- A datagram from 10.0.2.2:5353 to port 7, and the theorems at it.
use gooos.Common.{
  ℕ, ◌≡◌, refl, true, false, not, ◌&&◌, none, some, List, [], ◌∷◌, ◌++◌, ltb, ◌==◌, if◌then◌else◌,
  length, arith,
}
use gooos.Sync.Queue.{fresh}
use gooos.Sync.Queue.Fifo.{IsValid}
use gooos.Net.Udp.{
  UdpDatagram, UdpBinding, Udp, is_bound, blank, udp_bind_with_queue, udp_unbind, udp_lookup_queue,
  udp_send, stats_inc, deliver, udp_handle,
}
use gooos.Net.Udp.RoundTrip.{udp_send-handle}
use gooos.Net.Udp.Bindings.{
  unused, queued, udp_bind_with_queue-lookup, udp_unbind-lookup, deliver_refines,
}

-- port 7 leads to queue 0; one binding is left over
abbrev echo_only : List UdpBinding
echo_only =
    record { port = 7; q = some 0; active = true }
    ∷ record { port = 9; q = none; active = false }
    ∷ []

abbrev pub echo : Udp
echo = record {
  bindings = echo_only;
  queues = λ _. fresh 16 blank;
  made = 1;
  stats = record { checksum_err = 0; udp_port_unreach = 0; udp_recv = 4; rx_dropped = 0 };
}

abbrev hello : UdpDatagram
hello = record { src_ip = 167772674; src_port = 5353; dst_port = 7; bytes = 104 ∷ 105 ∷ [] }

fresh-IsValid : IsValid {A = UdpDatagram} 16 (fresh 16 blank)
unfolding fresh
fresh-IsValid = record { head_in = omega arith; tail_at = refl; count_in = omega arith }

udp_send-handle_example :
    (p : List ℕ) × (udp_send 167772674 167772687 7 5353 (104 ∷ 105 ∷ []) ≡ some p)
    × (udp_handle 167772674 167772687 p echo ≡ deliver hello echo)
udp_send-handle_example =
    udp_send-handle 167772674 167772687 5353 7 (104 ∷ 105 ∷ []) echo (omega arith) (omega arith)
      (omega arith)

udp_bind_with_queue-lookup_example :
    let (bs', ok) = udp_bind_with_queue 53 (some 1) echo_only in
    (ok ≡ (not (is_bound 53 echo_only) && ltb 0 (unused echo_only)))
    × (udp_lookup_queue 7 bs' ≡ (if ok && 53 == 7 then some 1 else udp_lookup_queue 7 echo_only))
udp_bind_with_queue-lookup_example = udp_bind_with_queue-lookup 53 7 1 echo_only

udp_unbind-lookup_example :
    udp_lookup_queue 7 (udp_unbind 7 echo_only)
    ≡ (if 7 == 7 then none else udp_lookup_queue 7 echo_only)
udp_unbind-lookup_example = udp_unbind-lookup 7 7 echo_only

deliver_refines_example :
    let (s', woken) = deliver hello echo in
    let ok = ltb (length (queued 0 echo)) 16 in
    IsValid 16 (s'.queues 0)
    × (queued 0 s' ≡ (if ok then queued 0 echo ++ (hello ∷ []) else queued 0 echo))
    × (s'.queues 1 ≡ (if 0 == 1 then s'.queues 0 else echo.queues 1))
    × (s'.bindings ≡ echo.bindings)
    × (s'.stats.udp_recv ≡ (if ok then stats_inc 4 else 4))
    × (s'.stats.rx_dropped ≡ (if ok then 0 else stats_inc 0))
    × (woken ≡ (if ok then (echo.queues 0).consumer else none))
unfolding udp_lookup_queue
deliver_refines_example = deliver_refines hello echo 0 1 refl fresh-IsValid
