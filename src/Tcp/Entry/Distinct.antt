-- ===== src/Tcp/Entry/Distinct.antt =====
-- No two active connections are between the same two ends.
use gooos.Common.{
  ℕ, ◌+◌, ◌≡◌, ◌⊎◌, sym, subst, Bool, not, ◌&&◌, ◌||◌, some, List, length, ltb, leb, set, arith,
  Bool-cases, Option-cases, inl, inr,
}
use gooos.Tcp.Congestion.{syn_bit, rst_bit, ack_bit}
use gooos.Tcp.Segment.{TcpHeader, parse, checksum_verify}
use gooos.Tcp.Connection.{has_flag, Tcb, Env}
use gooos.Tcp.Connection.Handlers.{dispatch}
use gooos.Tcp.Table.{
  Listener, TcpTables, claimed, tcb_lookup, free_tcb, listener_lookup, alloc_ephemeral_port,
  push_pending,
}
use gooos.Tcp.Table.Lookup.{owners, owners-set, tcb_lookup-Found, tcb_lookup-none, ephemeral-owners}
use gooos.Tcp.Entry.{
  passive_tcb, send_syn, open_passive, try_passive_open, handle_unowned, handle_owned,
  handle_segment, tcp_handle, active_tcb, connect_from, active_connect,
}
use gooos.Tcp.Entry.Slots.{
  Distinct, BetweenOnly, fill-Distinct, free-BetweenOnly, passive-BetweenOnly, active-BetweenOnly,
}
use gooos.Tcp.Entry.Ends.{dispatch-owns}

open_passive-Distinct :
    (l p r q i : ℕ) (u : Tcb) (e : Env) (accepted : Bool) (h : TcpHeader) (li : ℕ)
    (listener : Listener) (s : TcpTables)
    → free_tcb 0 s.tcbs ≡ some (i, u)
    → owners l p r q s.tcbs ≡ 0
    → Distinct s.tcbs
    → Distinct (open_passive e accepted h li listener i (claimed l p r q u) s).0.tcbs
unfolding open_passive
open_passive-Distinct l p r q i u e accepted h li listener s free new v =
    let opened = passive_tcb e h li (claimed l p r q u) in
    let fill = λ (t : Tcb) (only : BetweenOnly l p r q t).
      fill-Distinct l p r q i u t s.tcbs free new only v in
    elim (Bool-cases (push_pending i listener).1) [
      | inl pushed ↦ elim (Bool-cases (send_syn e accepted 18 opened).2) [
        | inl sent ↦ rw (pushed, sent) (fill _ (passive-BetweenOnly l p r q e accepted h li u))
        | inr lost ↦
            rw (pushed, lost) (fill _ (free-BetweenOnly l p r q (send_syn e accepted 18 opened).0))
      ]
      | inr refused ↦ rw refused (fill _ (free-BetweenOnly l p r q opened))
    ]

-- `tcpTryPassiveOpen` for two ends that no connection is between
try_passive_open-Distinct :
    (e : Env) (accepted : Bool) (src_ip dst_ip : ℕ) (h : TcpHeader) (payload : List ℕ)
    (s : TcpTables)
    → owners dst_ip h.dst_port src_ip h.src_port s.tcbs ≡ 0
    → Distinct s.tcbs
    → Distinct (try_passive_open e accepted src_ip dst_ip h payload s).0.tcbs
unfolding try_passive_open
try_passive_open-Distinct e accepted src_ip dst_ip h payload s new v =
    elim (Option-cases (listener_lookup 0 h.dst_port s.listeners)) [
      | inl none_bound ↦ rw (none_bound, try_passive_open) v
      | inr ((li, l), bound) ↦ elim (Bool-cases (leb 8 (length l.pending + length l.accept))) [
        | inl full ↦ rw (bound, full, try_passive_open) v
        | inr room ↦ elim (Option-cases (free_tcb 0 s.tcbs)) [
          | inl exhausted ↦ rw (bound, room, exhausted, try_passive_open) v
          | inr ((i, t), free) ↦
              rw (bound, room, free, try_passive_open)
                (open_passive-Distinct dst_ip h.dst_port src_ip h.src_port i t e accepted h li l s
                  free new v)
        ]
      ]
    ]

handle_owned-Distinct :
    (a b c d : ℕ) (e : Env) (h : TcpHeader) (payload : List ℕ) (i : ℕ) (t : Tcb) (s : TcpTables)
    → tcb_lookup 0 a b c d s.tcbs ≡ some (i, t)
    → Distinct s.tcbs
    → Distinct (handle_owned e h payload i t s).0.tcbs
unfolding handle_owned
handle_owned-Distinct a b c d e h payload i t s lookup v =
    let found = tcb_lookup-Found 0 a b c d s.tcbs i t lookup in
    let handled = (dispatch e h payload t).tcb in
    subst (λ k. Distinct (set s.tcbs k handled)) {x = found.index} {y = i}
      (omega (arith, found.counted))
      (λ l p r q. omega (
        arith,
        owners-set l p r q s.tcbs found.index t handled found.at,
        dispatch-owns l p r q e h payload t,
        v l p r q,
      ))

handle_unowned-Distinct :
    (e : Env) (accepted : Bool) (src_ip dst_ip : ℕ) (h : TcpHeader) (payload : List ℕ)
    (s : TcpTables)
    → owners dst_ip h.dst_port src_ip h.src_port s.tcbs ≡ 0
    → Distinct s.tcbs
    → Distinct (handle_unowned e accepted src_ip dst_ip h payload s).0.tcbs
unfolding handle_unowned
handle_unowned-Distinct e accepted src_ip dst_ip h payload s new v =
    elim (Bool-cases (has_flag syn_bit h && not (has_flag ack_bit h))) [
      | inl opens ↦ rw opens (try_passive_open-Distinct e accepted src_ip dst_ip h payload s new v)
      | inr other ↦ elim (Bool-cases (has_flag rst_bit h)) [
        | inl reset ↦ rw (other, reset) v
        | inr refused ↦ rw (other, refused) v
      ]
    ]

handle_segment-Distinct :
    (e : Env) (accepted : Bool) (src_ip dst_ip : ℕ) (h : TcpHeader) (payload : List ℕ)
    (s : TcpTables)
    → Distinct s.tcbs
    → Distinct (handle_segment e accepted src_ip dst_ip h payload s).0.tcbs
unfolding handle_segment
handle_segment-Distinct e accepted src_ip dst_ip h payload s v =
    elim (Option-cases (tcb_lookup 0 dst_ip h.dst_port src_ip h.src_port s.tcbs)) [
      | inl unowned ↦
          rw (unowned, handle_segment)
            (handle_unowned-Distinct e accepted src_ip dst_ip h payload s
              (tcb_lookup-none 0 dst_ip h.dst_port src_ip h.src_port s.tcbs unowned) v)
      | inr ((i, t), owned) ↦
          rw (owned, handle_segment)
            (handle_owned-Distinct dst_ip h.dst_port src_ip h.src_port e h payload i t s owned v)
    ]

-- Whatever bytes arrive, from any address and for any: when no two active connections are between the
-- same two ends, `tcpHandle` keeps that so. It opens a second connection for no pair of ends.
pub tcp_handle-Distinct :
    (e : Env) (accepted : Bool) (src_ip dst_ip : ℕ) (inner : List ℕ) (s : TcpTables)
    → Distinct s.tcbs
    → Distinct (tcp_handle e accepted src_ip dst_ip inner s).0.tcbs
unfolding tcp_handle
tcp_handle-Distinct e accepted src_ip dst_ip inner s v =
    elim (Bool-cases (ltb (length inner) 20 || not (checksum_verify src_ip dst_ip inner))) [
      | inl dropped ↦ rw dropped v
      | inr kept ↦ elim (Option-cases (parse inner)) [
        | inl malformed ↦ rw (kept, malformed) v
        | inr ((h, payload), parsed) ↦
            rw (kept, parsed) (handle_segment-Distinct e accepted src_ip dst_ip h payload s v)
      ]
    ]

connect_from-Distinct :
    (e : Env) (accepted : Bool) (remote_ip remote_port port : ℕ) (s : TcpTables)
    → owners e.our_ip port remote_ip remote_port s.tcbs ≡ 0
    → Distinct s.tcbs
    → Distinct (connect_from e accepted remote_ip remote_port port s).0.tcbs
unfolding connect_from
connect_from-Distinct e accepted remote_ip remote_port port s new v =
    elim (Option-cases (free_tcb 0 s.tcbs)) [
      | inl full ↦ rw (full, connect_from) v
      | inr ((i, u), free) ↦
          let opened = active_tcb e (claimed e.our_ip port remote_ip remote_port u) in
          let fill = λ (t : Tcb) (only : BetweenOnly e.our_ip port remote_ip remote_port t).
            fill-Distinct e.our_ip port remote_ip remote_port i u t s.tcbs free new only v in
          elim (Bool-cases (send_syn e accepted 2 opened).2) [
            | inl sent ↦
                rw (free, sent, connect_from)
                  (fill _ (active-BetweenOnly e.our_ip port remote_ip remote_port e accepted u))
            | inr lost ↦
                rw (free, lost, connect_from)
                  (fill _ (
                    free-BetweenOnly e.our_ip port remote_ip remote_port
                      (send_syn e accepted 2 opened).0))
          ]
    ]

-- `tcpActiveConnect` leaves no two active connections between the same two ends when there were none and
-- either nothing comes between its choice of a port and `tcbAlloc`, or what comes between leaves no two
-- and opens no connection from that port to the same peer.
pub active_connect-Distinct :
    (meanwhile : TcpTables → TcpTables) (e : Env) (accepted : Bool) (remote_ip remote_port : ℕ)
    (s : TcpTables)
    → Distinct s.tcbs
    → (meanwhile s ≡ s)
      ⊎ (Distinct (meanwhile s).tcbs
          × ((port : ℕ)
              → alloc_ephemeral_port s.tcbs ≡ some port
              → owners e.our_ip port remote_ip remote_port (meanwhile s).tcbs ≡ 0))
    → Distinct (active_connect meanwhile e accepted remote_ip remote_port s).0.tcbs
unfolding active_connect
active_connect-Distinct meanwhile e accepted remote_ip remote_port s v between =
    elim (Option-cases (alloc_ephemeral_port s.tcbs)) [
      | inl no_port ↦ rw (no_port, active_connect) v
      | inr (port, picked) ↦ elim between [
        | inl alone ↦
            rw (picked, active_connect)
              (subst
                (λ (t : TcpTables).
                  Distinct (connect_from e accepted remote_ip remote_port port t).0.tcbs)
                (sym alone)
                (connect_from-Distinct e accepted remote_ip remote_port port s
                  (ephemeral-owners s.tcbs port e.our_ip remote_ip remote_port picked) v))
        | inr (kept, free) ↦
            rw (picked, active_connect)
              (connect_from-Distinct e accepted remote_ip remote_port port (meanwhile s)
                (free port picked) kept)
      ]
    ]
