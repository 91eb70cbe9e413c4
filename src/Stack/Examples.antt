-- ===== src/Stack/Examples.antt =====
-- A host with an open connection that is sent a datagram, and the theorems at it.
use gooos.Common.{ℕ, ◌≡◌, true, some, List, [], ◌∷◌, ◌++◌, replicate, arith}
use gooos.Net.Ip.{ipv4_send}
use gooos.Net.Udp.{udp_send, deliver}
use gooos.Net.Udp.Examples.{echo}
use gooos.Net.Arp.Examples.{mac, cache}
use gooos.Tcp.Segment.{build, tcp_checksum, compute_and_set_checksum}
use gooos.Tcp.Segment.RoundTrip.{header as tcp_header}
use gooos.Tcp.Entry.{handle_segment}
use gooos.Tcp.Connection.Examples.{at_tick}
use gooos.Tcp.Entry.Examples.{tables}
use gooos.Stack.{Host, Net, nothing, receive_frame}
use gooos.Stack.Delivery.{receive_frame-udp, receive_frame-tcp}

abbrev host : Host
host = record { mac = mac 2; netmask = 4294967040; env = at_tick 160; accepted = true }

abbrev running : Net
running = record { arp_cache = cache; udp_state = echo; tcp_tables = tables }

receive_frame-udp_example :
    let (u, woken) =
      deliver
        (record { src_ip = 167772674; src_port = 5353; dst_port = 7; bytes = 104 ∷ 105 ∷ [] })
        echo in
    (p : List ℕ) × (frame : List ℕ) × (udp_send 167772674 167772687 7 5353 (104 ∷ 105 ∷ [])
      ≡ some p)
    × (ipv4_send true 167772674 (mac 1) (some (mac 2)) 17 167772687 65535 p ≡ (0, some frame))
    × (receive_frame host (frame ++ replicate 16 0) running
        ≡ (record running { udp_state = u }, record nothing { woken = woken }))
receive_frame-udp_example =
    receive_frame-udp host 167772674 5353 7 65535 (mac 1) (104 ∷ 105 ∷ []) (replicate 16 0) running
      (omega arith) (omega arith) (omega arith) (omega arith) (omega arith) (omega arith)
      (omega arith) (omega arith)

receive_frame-tcp_example :
    (p : List ℕ) × (frame : List ℕ) × (build 1540 50000 8080 77 0 2 8192
        (2 ∷ 4 ∷ 2 ∷ 24 ∷ [])
        (104 ∷ [])
      ≡ some p)
    × (ipv4_send true 167772674
          (mac 1)
          (some (mac 2))
          6
          167772687
          65535
          (compute_and_set_checksum 167772674 167772687 p)
        ≡ (0, some frame))
    × (let c = tcp_checksum 167772674 167772687 p in
        let (ts, sent) =
          handle_segment
            (at_tick 160)
            true
            167772674
            167772687
            (tcp_header 50000 8080 77 0 2 8192 c (2 ∷ 4 ∷ 2 ∷ 24 ∷ []))
            (104 ∷ [])
            tables in
        receive_frame host (frame ++ (0 ∷ [])) running
        ≡ (record running { tcp_tables = ts }, record nothing { segments = sent }))
receive_frame-tcp_example =
    receive_frame-tcp host 1540 167772674 65535 (mac 1) 50000 8080 77 0 2 8192 (2 ∷ 4 ∷ 2 ∷ 24 ∷ [])
      (104 ∷ []) (0 ∷ []) running (omega arith) (omega arith) (omega arith) (omega arith)
      (omega arith) (omega arith) (omega arith) (omega arith)
