-- ===== src/Tcp/Entry/Examples.antt =====
-- A SYN arrives for a listener beside an open connection, and the theorems at these tables.
use gooos.Common.{ℕ, ◌≡◌, refl, inl, true, none, some, List, [], ◌∷◌, arith}
use gooos.Tcp.Segment.{build, compute_and_set_checksum}
use gooos.Tcp.Connection.{tcb_free}
use gooos.Tcp.Connection.Examples.{at_tick, talking}
use gooos.Tcp.Table.{TcpTables}
use gooos.Tcp.Table.Examples.{http, client, one_client}
use gooos.Tcp.Table.Lookup.{owners, owns_le_one}
use gooos.Tcp.Entry.{tcp_handle, active_connect}
use gooos.Tcp.Entry.Ends.{tcb_free-owns}
use gooos.Tcp.Entry.Slots.{Distinct}
use gooos.Tcp.Entry.Distinct.{tcp_handle-Distinct, active_connect-Distinct}

abbrev pub tables : TcpTables
tables = record { tcbs = one_client; listeners = http ∷ [] }

pub tables-Distinct : Distinct tables.tcbs
unfolding owners
tables-Distinct a b c d = omega (arith, owns_le_one a b c d client, tcb_free-owns a b c d talking)

-- the SYN of 10.0.2.2:50000 to 10.0.2.15:8080
abbrev pub syn_bytes : List ℕ
syn_bytes = elim (build 1460 50000 8080 77 0 2 8192 [] []) [
  | none ↦ []
  | some p ↦ compute_and_set_checksum 167772674 167772687 p
]

tcp_handle-Distinct_example :
    Distinct (tcp_handle (at_tick 160) true 167772674 167772687 syn_bytes tables).0.tcbs
tcp_handle-Distinct_example =
    tcp_handle-Distinct (at_tick 160) true 167772674 167772687 syn_bytes tables tables-Distinct

active_connect-Distinct_example :
    Distinct (active_connect (λ s. s) (at_tick 160) true 167772674 80 tables).0.tcbs
active_connect-Distinct_example =
    active_connect-Distinct (λ s. s) (at_tick 160) true 167772674 80 tables tables-Distinct
      (inl refl)

-- another processor that connects to the same peer between the choice of the port and `tcbAlloc`
abbrev rival : TcpTables → TcpTables
rival s = (active_connect (λ t. t) (at_tick 160) true 167772674 80 s).0

abbrev two_free : TcpTables
two_free = record { tcbs = tcb_free talking ∷ tcb_free talking ∷ []; listeners = [] }

same_port :
    owners 167772687 49152 167772674 80
      (active_connect rival (at_tick 160) true 167772674 80 two_free).0.tcbs
    ≡ 2
unfolding owners active_connect gooos.Tcp.Table.alloc_ephemeral_port gooos.Tcp.Table.ephemeral_from
    gooos.Tcp.Table.port_in_use tcb_free gooos.Tcp.Entry.connect_from gooos.Tcp.Table.free_tcb
    gooos.Tcp.Entry.send_syn gooos.Tcp.Connection.send_segment gooos.Tcp.Segment.build_mss_option
    build gooos.Tcp.Connection.Timers.queue_sent gooos.Tcp.Connection.arm_rto
    gooos.Tcp.Connection.advertise_win gooos.Tcp.Entry.active_tcb
same_port = refl
