-- ===== src/Tcp/Table/Examples.antt =====
-- A listener with a connection in each queue, a table of two slots, and the theorems at them.
use gooos.Common.{ℕ, ◌+◌, ◌≡◌, refl, true, some, List, [], ◌∷◌, ltb, ◌==◌, if◌then◌else◌, arith}
use gooos.Tcp.Connection.Examples.{talking}
use gooos.Tcp.Connection.{Tcb, tcb_free}
use gooos.Tcp.Table.{
  Listener, TcpTables, alloc_ephemeral_port, push_pending, holds_tcb, promote, listener_remove,
}
use gooos.Tcp.Table.Lookup.{PortFound, alloc_ephemeral_port-PortFound}
use gooos.Tcp.Table.Listeners.{
  IsValid, times, push_pending-IsValid, promote-IsValid, listener_remove-IsValid,
}

-- slot 3 waits for the handshake, slot 5 to be accepted
abbrev pub http : Listener
http = record { port = 8080; active = true; owner = some 4; pending = 3 ∷ []; accept = 5 ∷ [] }

http-IsValid : IsValid http
unfolding times
http-IsValid = record { room = omega arith; once = λ t. ground arith }

push_pending-IsValid_example :
    let (l', ok) = push_pending 6 http in
    IsValid l'
    × (ok ≡ ltb 2 8)
    × (l'.pending ≡ (if ok then 3 ∷ 6 ∷ [] else 3 ∷ []))
    × (l'.accept ≡ 5 ∷ [])
unfolding times
push_pending-IsValid_example = push_pending-IsValid 6 http http-IsValid refl

promote-IsValid_example :
    let (l', ok) = promote 3 http in
    IsValid l'
    × (ok ≡ holds_tcb 3 http.pending)
    × (l'.accept ≡ (if ok then 5 ∷ 3 ∷ [] else 5 ∷ []))
    × ((u : ℕ)
        → times u l'.pending + times u l'.accept ≡ times u http.pending + times u http.accept)
promote-IsValid_example = promote-IsValid 3 http http-IsValid

listener_remove-IsValid_example :
    let l' = listener_remove 5 http in
    IsValid l'
    × ((u : ℕ) → times u l'.pending ≡ (if 5 == u then 0 else times u http.pending))
    × ((u : ℕ) → times u l'.accept ≡ (if 5 == u then 0 else times u http.accept))
listener_remove-IsValid_example = listener_remove-IsValid 5 http http-IsValid

-- a connection from the first of the ephemeral ports, and a free slot
abbrev pub client : Tcb
client = record talking { local_port = 49152; remote_port = 80 }

abbrev pub one_client : List Tcb
one_client = client ∷ tcb_free talking ∷ []

next_port : alloc_ephemeral_port one_client ≡ some 49153
unfolding alloc_ephemeral_port gooos.Tcp.Table.ephemeral_from gooos.Tcp.Table.port_in_use tcb_free
next_port = refl

alloc_ephemeral_port-PortFound_example :
    PortFound 16 49152 one_client (alloc_ephemeral_port one_client)
alloc_ephemeral_port-PortFound_example = alloc_ephemeral_port-PortFound one_client
