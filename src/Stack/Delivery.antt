-- ===== src/Stack/Delivery.antt =====
-- The layers together: a datagram and a TCP segment cross the network.
use gooos.Common.{
  ℕ, ◌+◌, ◌<◌, ◌≤◌, ◌≡◌, refl, ap, ◌∙◌, Bool, true, false, some, List, ◌++◌, length, ltb, u16,
  arith,
}
use gooos.Net.Bytes.{Mac}
use gooos.Net.Ip.{ipv4, ethernet_dispatch, Ipv4Header, tcp, udp, ipv4_send, ipv4_handle, hand_up}
use gooos.Net.Ip.RoundTrip.{header, ipv4_send-handle}
use gooos.Net.Udp.{udp_send, deliver, udp_handle}
use gooos.Net.Udp.RoundTrip.{length-udp_send, udp_send-handle}
use gooos.Tcp.Segment.{
  TcpHeader, build, checksum_verify, parse, tcp_checksum, compute_and_set_checksum,
}
use gooos.Tcp.Segment.RoundTrip.{InRange, header as tcp_header, length-sealed, send-receive}
use gooos.Tcp.Table.{TcpTables}
use gooos.Tcp.Connection.{Env}
use gooos.Tcp.Entry.{handle_segment, tcp_handle}
use gooos.Stack.{Host, Net, nothing, handle_upper, handle_incoming, receive_frame}

receive_frame_at :
    (host : Host) (frame packet inner : List ℕ) (h : Ipv4Header) (s : Net)
    → ethernet_dispatch host.mac frame ≡ ipv4 packet
    → ipv4_handle host.env.our_ip host.netmask packet ≡ udp h inner
    → receive_frame host frame s ≡ (
      record s { udp_state = (udp_handle h.src_ip h.dst_ip inner s.udp_state).0 },
      record nothing { woken = (udp_handle h.src_ip h.dst_ip inner s.udp_state).1 },
    )
unfolding receive_frame handle_incoming handle_upper
receive_frame_at host frame packet inner h s dispatched given =
    ap (λ i. handle_incoming host i s) dispatched ∙ ap (λ u. handle_upper host u s) given

-- A datagram of at most 1472 bytes that `udpSend` makes and `ipv4Send` frames, for the hardware address
-- of a host and between ports of 16 bits and addresses of 32, arrives there, also when the frame was
-- padded to 60 bytes: the host delivers that datagram, with the sender's address and port, to its queue,
-- and does nothing else. The padding keeps the frame within the length that the host accepts.
pub receive_frame-udp :
    (host : Host) (our_ip src_port dst_port counter : ℕ) (our_mac : Mac) (payload pad : List ℕ)
    (s : Net)
    → 0 < our_ip
    → our_ip < 4294967296
    → host.env.our_ip < 4294967296
    → src_port < 65536
    → dst_port < 65536
    → length payload ≤ 1472
    → 18 ≤ length payload + length pad
    → length payload + length pad ≤ 1476
    → let (u, woken) =
        deliver
          (record { src_ip = our_ip; src_port = src_port; dst_port = dst_port; bytes = payload })
          s.udp_state in
      (p : List ℕ) × (frame : List ℕ) × (udp_send our_ip host.env.our_ip dst_port src_port payload
        ≡ some p)
      × (ipv4_send true our_ip our_mac (some host.mac) 17 host.env.our_ip counter p
          ≡ (u16 (counter + 1), some frame))
      × (receive_frame host (frame ++ pad) s
          ≡ (record s { udp_state = u }, record nothing { woken = woken }))
receive_frame-udp host our_ip src_port dst_port counter our_mac payload pad s pos our_in their_in
      src_in dst_in fits low high =
    let (p, sent, handled) =
      udp_send-handle our_ip host.env.our_ip src_port dst_port payload s.udp_state src_in dst_in
        fits in
    let size = length-udp_send our_ip host.env.our_ip dst_port src_port payload p sent in
    let (frame, packet, chksum, framed, dispatched, given) =
      ipv4_send-handle our_ip host.env.our_ip host.netmask 17 counter our_mac host.mac p pad pos
        our_in their_in (omega arith) (omega arith) (omega arith) (omega arith) in
    (
      p,
      frame,
      sent,
      framed,
      receive_frame_at host (frame ++ pad) packet p
            (header (u16 (counter + 1)) 17 our_ip host.env.our_ip (length p) chksum) s dispatched
            (given ∙ unfold hand_up in refl)
          ∙ ap (λ r. (record s { udp_state = r.0 }, record nothing { woken = r.1 })) handled,
    )

tcp_handle_at :
    (e : Env) (accepted : Bool) (src_ip dst_ip : ℕ) (inner payload : List ℕ) (h : TcpHeader)
    (ts : TcpTables)
    → 20 ≤ length inner
    → checksum_verify src_ip dst_ip inner ≡ true
    → parse inner ≡ some (h, payload)
    → tcp_handle e accepted src_ip dst_ip inner ts
      ≡ handle_segment e accepted src_ip dst_ip h payload ts
unfolding tcp_handle
tcp_handle_at e accepted src_ip dst_ip inner payload h ts long verified parsed =
    let enough : ltb (length inner) 20 ≡ false = ground (arith, long) in
    rw (enough, verified, parsed) refl

receive_frame_tcp_at :
    (host : Host) (frame packet inner : List ℕ) (h : Ipv4Header) (s : Net)
    → ethernet_dispatch host.mac frame ≡ ipv4 packet
    → ipv4_handle host.env.our_ip host.netmask packet ≡ tcp h inner
    → let (ts, sent) = tcp_handle host.env host.accepted h.src_ip h.dst_ip inner s.tcp_tables in
      receive_frame host frame s
      ≡ (record s { tcp_tables = ts }, record nothing { segments = sent })
unfolding receive_frame handle_incoming handle_upper
receive_frame_tcp_at host frame packet inner h s dispatched given =
    ap (λ i. handle_incoming host i s) dispatched ∙ ap (λ u. handle_upper host u s) given

-- A segment that `tcpBuildSegment` makes of fields in the range of their words and padded options, with
-- its checksum set, and that `ipv4Send` frames for the hardware address of a host, arrives there, also
-- when the frame was padded to 60 bytes: the host handles it as a segment from the sender to itself with
-- those fields, options and payload, without the padding, and does nothing else. Options and payload are
-- at most 1460 bytes, the buffer has room for the segment, addresses have 32 bits and the sender's is not 0; the padding keeps the frame
-- within the length that the host accepts.
pub receive_frame-tcp :
    (host : Host) (room our_ip counter : ℕ) (our_mac : Mac)
    (src_port dst_port seq ack flags window : ℕ) (options payload pad : List ℕ) (s : Net)
    → InRange src_port dst_port seq ack flags window options
    → 0 < our_ip
    → our_ip < 4294967296
    → host.env.our_ip < 4294967296
    → 20 + length options + length payload ≤ room
    → length options + length payload ≤ 1460
    → 6 ≤ length options + length payload + length pad
    → length options + length payload + length pad ≤ 1464
    → (p : List ℕ) × (frame : List ℕ) × (build room src_port dst_port seq ack flags window options
          payload
        ≡ some p)
      × (ipv4_send true our_ip our_mac
            (some host.mac)
            6
            host.env.our_ip
            counter
            (compute_and_set_checksum our_ip host.env.our_ip p)
          ≡ (u16 (counter + 1), some frame))
      × (let c = tcp_checksum our_ip host.env.our_ip p in
          let (ts, sent) =
            handle_segment host.env host.accepted our_ip host.env.our_ip
              (tcp_header src_port dst_port seq ack flags window c options)
              payload
              s.tcp_tables in
          receive_frame host (frame ++ pad) s
          ≡ (record s { tcp_tables = ts }, record nothing { segments = sent }))
receive_frame-tcp host room our_ip counter our_mac src_port dst_port seq ack flags window options
      payload pad s r pos our_in their_in roomy fits low high =
    let (p, built, verified, parsed) =
      send-receive src_port dst_port seq ack flags window options payload r our_ip host.env.our_ip
        room roomy in
    let sealed : List ℕ = compute_and_set_checksum our_ip host.env.our_ip p in
    let size : length sealed ≡ 20 + length options + length payload =
      length-sealed room src_port dst_port seq ack flags window options payload our_ip
        host.env.our_ip p built in
    let (frame, packet, chksum, framed, dispatched, given) =
      ipv4_send-handle our_ip host.env.our_ip host.netmask 6 counter our_mac host.mac sealed pad pos
        our_in their_in (omega arith) (omega (arith, size)) (omega (arith, size))
        (omega (arith, size)) in
    let handled =
      tcp_handle_at host.env host.accepted our_ip host.env.our_ip sealed payload _ s.tcp_tables
        (omega (arith, size)) verified parsed in
    (
      p,
      frame,
      built,
      framed,
      receive_frame_tcp_at host (frame ++ pad) packet sealed
            (header (u16 (counter + 1)) 6 our_ip host.env.our_ip (length sealed) chksum) s
            dispatched (given ∙ unfold hand_up in refl)
          ∙ ap (λ r. (record s { tcp_tables = r.0 }, record nothing { segments = r.1 })) handled,
    )
