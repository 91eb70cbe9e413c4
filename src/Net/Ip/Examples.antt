-- ===== src/Net/Ip/Examples.antt =====
-- Two bytes of UDP from 10.0.2.15 to 10.0.2.2, padded to the least length of a frame.
use gooos.Common.{ℕ, ◌++◌, ◌≡◌, true, some, List, [], ◌∷◌, replicate, arith}
use gooos.Net.Bytes.{Mac}
use gooos.Net.Ip.{ethernet_dispatch, ipv4, ipv4_send, hand_up, ipv4_handle}
use gooos.Net.Ip.RoundTrip.{header, ipv4_send-handle}

abbrev mac : ℕ → Mac
mac n = record { b0 = 82; b1 = 84; b2 = 0; b3 = 18; b4 = 52; b5 = n }

ipv4_send-handle_example :
    (frame : List ℕ) × (packet : List ℕ) × (chksum : ℕ) × (ipv4_send true 167772687
        (mac 1)
        (some (mac 2))
        17
        167772674
        65535
        (7 ∷ 8 ∷ [])
      ≡ (0, some frame))
    × (ethernet_dispatch (mac 2) (frame ++ replicate 24 0) ≡ ipv4 packet)
    × (ipv4_handle 167772674 4294967040 packet
        ≡ hand_up (header 0 17 167772687 167772674 2 chksum) (7 ∷ 8 ∷ []))
ipv4_send-handle_example =
    ipv4_send-handle 167772687 167772674 4294967040 17 65535 (mac 1) (mac 2) (7 ∷ 8 ∷ [])
      (replicate 24 0) (omega arith) (omega arith) (omega arith) (omega arith) (omega arith)
      (omega arith) (omega arith)
