-- ===== src/Tcp/Entry.antt =====
-- The functions of src/tcp.go that work on connections and listeners: the entry for incoming segments,
-- and the two ways to open a connection. `accepted` is what `ipv4Send` answers.
pub mod Ends
pub mod Slots
pub mod Distinct
pub mod Examples
use gooos.Common.{
  ℕ, zero, suc, ◌+◌, ◌*◌, Bool, true, false, not, ◌&&◌, ◌||◌, Option, none, some, List, [], ◌∷◌,
  ◌++◌, ltb, leb, ◌==◌, if◌then◌else◌, length, set, get_or, u32,
}
use gooos.Tcp.Congestion.{tcp_default_mss, fin_bit, syn_bit, rst_bit, ack_bit}
use gooos.Tcp.Segment.{TcpHeader, parse, checksum_verify, build_mss_option}
use gooos.Tcp.Connection.{TcbState, Tcb, Env, Packet, has_flag, tcb_free, send_segment, send_reset}
use gooos.Tcp.Connection.Handlers.{Outcome, sends, peer_mss, effective_mss, dispatch}
use gooos.Tcp.Connection.Timers.{queue_sent, is_some_packet}
use gooos.Tcp.Table.{
  Listener, TcpTables, accept_queue_depth, tcb_lookup, claimed, free_tcb, alloc_ephemeral_port,
  listener_lookup, push_pending, promote, listener_remove,
}

-- `isnNext`
unfoldable pub isn_next : ℕ → ℕ
isn_next now = u32 (now * 250000)

-- the connection of a SYN that came in, before the SYN|ACK is sent
unfoldable pub passive_tcb : Env → TcpHeader → ℕ → Tcb → Tcb
passive_tcb e h listener t =
    let c = t.cc in
    let iss = isn_next e.now in
    record t {
      state = TcbState.syn_received;
      iss = iss;
      irs = h.seq;
      rcv_nxt = u32 (h.seq + 1);
      rcv_wnd = 8192;
      snd_una = iss;
      snd_nxt = u32 (iss + 1);
      snd_wnd = h.window;
      snd_wl1 = h.seq;
      snd_wl2 = 0;
      mss_local = tcp_default_mss;
      mss_peer = peer_mss h;
      cc = record c { mss_eff = effective_mss (peer_mss h) tcp_default_mss };
      listener = some listener;
    }

-- sending a SYN, with or without ACK, under `iss`, and queueing it: the connection, what is sent, and
-- whether the send went through
unfoldable pub send_syn : Env → Bool → ℕ → Tcb → Tcb × Option Packet × Bool
send_syn e accepted flags t =
    let (t', p) =
      send_segment e.our_ip flags (build_mss_option t.mss_local) []
        (record t { snd_nxt = t.iss }) in
    let back = record t' { snd_nxt = t.snd_nxt } in
    if is_some_packet p && accepted
    then (queue_sent e.now t.iss flags back, p, true)
    else (back, p, false)

-- the reset that refuses a SYN
abbrev pub refuse_syn : ℕ → ℕ → TcpHeader → List ℕ → TcpTables → TcpTables × List Packet
refuse_syn dst_ip src_ip h payload s =
    (s, sends (send_reset dst_ip h.dst_port src_ip h.src_port h (length payload)))

-- `tcpTryPassiveOpen` with its listener and its slot found; 18 is SYN and ACK
unfoldable pub open_passive :
    Env → Bool → TcpHeader → ℕ → Listener → ℕ → Tcb → TcpTables → TcpTables × List Packet
open_passive e accepted h li l i t s =
    let (l', pushed) = push_pending i l in
    let opened = passive_tcb e h li t in
    let (t', p, ok) = send_syn e accepted 18 opened in
    if not pushed
    then (record s { tcbs = set s.tcbs i (tcb_free opened) }, [])
    else if ok
    then (record s { tcbs = set s.tcbs i t'; listeners = set s.listeners li l' }, sends p)
    else (
      record s {
        tcbs = set s.tcbs i (tcb_free t');
        listeners = set s.listeners li (listener_remove i l');
      },
      sends p,
    )

unfoldable pub try_passive_open :
    Env → Bool → ℕ → ℕ → TcpHeader → List ℕ → TcpTables → TcpTables × List Packet
try_passive_open e accepted src_ip dst_ip h payload s =
    elim (listener_lookup 0 h.dst_port s.listeners) [
      | none ↦ refuse_syn dst_ip src_ip h payload s
      | some (li, l) ↦
          if leb accept_queue_depth (length l.pending + length l.accept)
          then refuse_syn dst_ip src_ip h payload s
          else elim (free_tcb 0 s.tcbs) [
            | none ↦ refuse_syn dst_ip src_ip h payload s
            | some (i, t) ↦
                open_passive e accepted h li l i (claimed dst_ip h.dst_port src_ip h.src_port t) s
          ]
    ]

-- `tcpListenerPromote` for a connection that a handler moves to the accept queue of its listener
unfoldable pub promote_in : ℕ → Option ℕ → List Listener → List Listener
promote_in i none ls = ls
promote_in i (some li) [] = []
promote_in i (some zero) (l ∷ ls) = (promote i l).0 ∷ ls
promote_in i (some (suc li)) (l ∷ ls) = l ∷ promote_in i (some li) ls

-- the end of `tcpHandle`, for a segment that no connection owns
unfoldable pub handle_unowned :
    Env → Bool → ℕ → ℕ → TcpHeader → List ℕ → TcpTables → TcpTables × List Packet
handle_unowned e accepted src_ip dst_ip h payload s =
    if has_flag syn_bit h && not (has_flag ack_bit h)
    then try_passive_open e accepted src_ip dst_ip h payload s
    else if has_flag rst_bit h
    then (s, [])
    else refuse_syn dst_ip src_ip h payload s

-- the connection in slot `i` handles a segment
unfoldable pub handle_owned :
    Env → TcpHeader → List ℕ → ℕ → Tcb → TcpTables → TcpTables × List Packet
handle_owned e h payload i t s =
    let o = dispatch e h payload t in
    (
      record s {
        tcbs = set s.tcbs i o.tcb;
        listeners = if o.promoted then promote_in i t.listener s.listeners else s.listeners;
      },
      o.sent,
    )

-- a segment that was parsed
unfoldable pub handle_segment :
    Env → Bool → ℕ → ℕ → TcpHeader → List ℕ → TcpTables → TcpTables × List Packet
handle_segment e accepted src_ip dst_ip h payload s =
    elim (tcb_lookup 0 dst_ip h.dst_port src_ip h.src_port s.tcbs) [
      | none ↦ handle_unowned e accepted src_ip dst_ip h payload s
      | some (i, t) ↦ handle_owned e h payload i t s
    ]

-- `tcpHandle`: the bytes of a segment with the addresses of its IP header
unfoldable pub tcp_handle : Env → Bool → ℕ → ℕ → List ℕ → TcpTables → TcpTables × List Packet
tcp_handle e accepted src_ip dst_ip inner s =
    if ltb (length inner) 20 || not (checksum_verify src_ip dst_ip inner)
    then (s, [])
    else elim (parse inner) [
      | none ↦ (s, [])
      | some (h, payload) ↦ handle_segment e accepted src_ip dst_ip h payload s
    ]

-- the connection of `tcpActiveConnect` before its SYN is sent
unfoldable pub active_tcb : Env → Tcb → Tcb
active_tcb e t =
    let c = t.cc in
    let iss = isn_next e.now in
    record t {
      state = TcbState.syn_sent;
      iss = iss;
      snd_una = iss;
      snd_nxt = u32 (iss + 1);
      rcv_wnd = 8192;
      mss_local = tcp_default_mss;
      cc = record c { mss_eff = tcp_default_mss };
    }

-- `tcpActiveConnect` from `tcbAlloc` on, for the port that was picked: the slot of the new connection, if
-- there is one; 2 is SYN
unfoldable pub connect_from :
    Env → Bool → ℕ → ℕ → ℕ → TcpTables → TcpTables × List Packet × Option ℕ
connect_from e accepted remote_ip remote_port port s = elim (free_tcb 0 s.tcbs) [
  | none ↦ (s, [], none)
  | some (i, t) ↦
      let opened = active_tcb e (claimed e.our_ip port remote_ip remote_port t) in
      let (t', p, ok) = send_syn e accepted 2 opened in
      if ok
      then (record s { tcbs = set s.tcbs i t' }, sends p, some i)
      else (record s { tcbs = set s.tcbs i (tcb_free t') }, sends p, none)
]

-- `tcpActiveConnect`. The lock is released between the choice of the port and `tcbAlloc`; `meanwhile` is
-- what other processors do to the tables there.
unfoldable pub active_connect :
    (TcpTables → TcpTables) → Env → Bool → ℕ → ℕ → TcpTables → TcpTables × List Packet × Option ℕ
active_connect meanwhile e accepted remote_ip remote_port s = elim (alloc_ephemeral_port s.tcbs) [
  | none ↦ (s, [], none)
  | some port ↦ connect_from e accepted remote_ip remote_port port (meanwhile s)
]
