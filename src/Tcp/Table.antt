-- ===== src/Tcp/Table.antt =====
-- The tables of src/tcp.go: the connections `tcbTable`, the listeners `tcpListeners`.
pub mod Lookup
pub mod Listeners
pub mod Examples
use gooos.Common.{
  ℕ, zero, suc, ◌+◌, ◌*◌, Bool, true, false, not, ◌&&◌, ◌||◌, Option, none, some, List, [], ◌∷◌,
  ◌++◌, ltb, leb, ◌==◌, if◌then◌else◌, length, set, u32,
}
use gooos.Tcp.Congestion.{tcp_default_mss, fin_bit, syn_bit, rst_bit, ack_bit}
use gooos.Tcp.Segment.{TcpHeader, parse, checksum_verify, build_mss_option}
use gooos.Tcp.Connection.{TcbState, Tcb, Env, Packet, has_flag, tcb_free, send_segment, send_reset}
use gooos.Tcp.Connection.Handlers.{Outcome, sends, peer_mss, effective_mss, dispatch}
use gooos.Tcp.Connection.Timers.{queue_sent, is_some_packet}

-- A listener; its queues are the arrays `pending` and `accept` up to their counts, as lists of slots of
-- the connection table.
pub record Listener : Type 0 where
  pub port : ℕ
  pub active : Bool
  pub owner : Option ℕ
  pub pending : List ℕ
  pub accept : List ℕ

pub record TcpTables : Type 0 where
  pub tcbs : List Tcb
  pub listeners : List Listener

-- `tcpAcceptQueueDepth`
abbrev pub accept_queue_depth : ℕ
accept_queue_depth = 8

abbrev pub has_tuple : ℕ → ℕ → ℕ → ℕ → Tcb → Bool
has_tuple local_ip local_port remote_ip remote_port t =
    t.local_ip == local_ip
    && t.local_port == local_port
    && t.remote_ip == remote_ip
    && t.remote_port == remote_port

-- `tcbLookup`, with the slots counted from `i`
unfoldable pub tcb_lookup : ℕ → ℕ → ℕ → ℕ → ℕ → List Tcb → Option (ℕ × Tcb)
tcb_lookup i local_ip local_port remote_ip remote_port [] = none
tcb_lookup i local_ip local_port remote_ip remote_port (t ∷ ts) =
    let later = tcb_lookup (suc i) local_ip local_port remote_ip remote_port ts in
    if t.active && has_tuple local_ip local_port remote_ip remote_port t then some (i, t) else later

-- what `tcbAlloc` sets in a slot; all other fields stay as the slot had them
abbrev pub claimed : ℕ → ℕ → ℕ → ℕ → Tcb → Tcb
claimed local_ip local_port remote_ip remote_port t = record t {
  local_ip = local_ip;
  local_port = local_port;
  remote_ip = remote_ip;
  remote_port = remote_port;
  state = TcbState.closed;
  user_owner = none;
  active = true;
}

-- `tcbAlloc` finds the first free slot, which is then claimed
unfoldable pub free_tcb : ℕ → List Tcb → Option (ℕ × Tcb)
free_tcb i [] = none
free_tcb i (t ∷ ts) = let later = free_tcb (suc i) ts in if t.active then later else some (i, t)

-- whether an active connection uses a local port
unfoldable pub port_in_use : ℕ → List Tcb → Bool
port_in_use p [] = false
port_in_use p (t ∷ ts) = (t.active && t.local_port == p) || port_in_use p ts

-- `tcpAllocEphemeralPort`: the first port that is free of `n` from `p` on; 0 is `none`
unfoldable pub ephemeral_from : ℕ → ℕ → List Tcb → Option ℕ
ephemeral_from zero p ts = none
ephemeral_from (suc n) p ts =
    let later = ephemeral_from n (p + 1) ts in if port_in_use p ts then later else some p

unfoldable pub alloc_ephemeral_port : List Tcb → Option ℕ
alloc_ephemeral_port ts = ephemeral_from 16 49152 ts

-- `tcpListenerLookupLocked`, with the listeners counted from `i`
unfoldable pub listener_lookup : ℕ → ℕ → List Listener → Option (ℕ × Listener)
listener_lookup i port [] = none
listener_lookup i port (l ∷ ls) =
    let later = listener_lookup (suc i) port ls in
    if l.active && l.port == port then some (i, l) else later

unfoldable pub free_listener : ℕ → List Listener → Option ℕ
free_listener i [] = none
free_listener i (l ∷ ls) =
    let later = free_listener (suc i) ls in if l.active then later else some i

-- `tcpListenerAllocLocked`
unfoldable pub listener_alloc : ℕ → Option ℕ → List Listener → List Listener × Option ℕ
listener_alloc port owner ls = elim (listener_lookup 0 port ls) [
  | some taken ↦ (ls, none)
  | none ↦ elim (free_listener 0 ls) [
    | none ↦ (ls, none)
    | some i ↦ (
      set ls i (record { port = port; active = true; owner = owner; pending = []; accept = [] }),
      some i,
    )
  ]
]

-- `tcpListenerPushPending`
unfoldable pub push_pending : ℕ → Listener → Listener × Bool
push_pending t l =
    if leb accept_queue_depth (length l.pending + length l.accept)
    then (l, false)
    else (record l { pending = l.pending ++ (t ∷ []) }, true)

unfoldable pub holds_tcb : ℕ → List ℕ → Bool
holds_tcb t [] = false
holds_tcb t (u ∷ us) = u == t || holds_tcb t us

-- the first occurrence leaves the queue, and those behind it move up
unfoldable pub without : ℕ → List ℕ → List ℕ
without t [] = []
without t (u ∷ us) = let rest = without t us in if u == t then us else u ∷ rest

-- `tcpListenerPromote`
unfoldable pub promote : ℕ → Listener → Listener × Bool
promote t l =
    let shorter = record l { pending = without t l.pending } in
    if holds_tcb t l.pending
    then (if leb accept_queue_depth (length l.accept)
        then (shorter, false)
        else (record shorter { accept = l.accept ++ (t ∷ []) }, true))
    else (l, false)

-- `tcpListenerRemove`
unfoldable pub listener_remove : ℕ → Listener → Listener
listener_remove t l =
    if holds_tcb t l.pending
    then record l { pending = without t l.pending }
    else record l { accept = without t l.accept }
