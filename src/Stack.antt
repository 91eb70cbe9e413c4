-- ===== src/Stack.antt =====
-- What a host does with a frame: `ethernetDispatch` (src/net.go) and `ipv4Handle` (src/ipv4.go) on the
-- state of ARP, UDP and TCP. ICMP is left out: its packets change nothing here.
pub mod Delivery
pub mod Examples
use gooos.Common.{ℕ, Bool, Option, none, List, []}
use gooos.Net.Bytes.{Mac}
use gooos.Net.Ip.{
  Incoming, discarded, arp, ipv4, ethernet_dispatch, Upper, dropped, icmp, tcp, udp, ipv4_handle,
}
use gooos.Net.Arp.{ArpEntry, arp_handle}
use gooos.Net.Udp.{Udp, udp_handle}
use gooos.Tcp.Connection.{Env, Packet}
use gooos.Tcp.Table.{TcpTables}
use gooos.Tcp.Entry.{tcp_handle}

-- `e1000MAC`, `ourNetmask`, the address with the tick counter, and what `ipv4Send` answers to a SYN
pub record Host : Type 0 where
  pub mac : Mac
  pub netmask : ℕ
  pub env : Env
  pub accepted : Bool

pub record Net : Type 0 where
  pub arp_cache : List ArpEntry
  pub udp_state : Udp
  pub tcp_tables : TcpTables

-- What goes out: the ARP reply with where it goes, the segments handed to `ipv4Send`, and the thread
-- that is woken.
pub record Effects : Type 0 where
  pub reply : Option (Mac × List ℕ)
  pub segments : List Packet
  pub woken : Option ℕ

abbrev pub nothing : Effects
nothing = record { reply = none; segments = []; woken = none }

-- the protocol that `ipv4Handle` picked handles the packet
unfoldable pub handle_upper : Host → Upper → Net → Net × Effects
handle_upper host dropped s = (s, nothing)
handle_upper host (icmp h inner) s = (s, nothing)
handle_upper host (tcp h inner) s =
    let (ts, sent) = tcp_handle host.env host.accepted h.src_ip h.dst_ip inner s.tcp_tables in
    (record s { tcp_tables = ts }, record nothing { segments = sent })
handle_upper host (udp h inner) s =
    let (u, woken) = udp_handle h.src_ip h.dst_ip inner s.udp_state in
    (record s { udp_state = u }, record nothing { woken = woken })

-- the handler that `ethernetDispatch` picked
unfoldable pub handle_incoming : Host → Incoming → Net → Net × Effects
handle_incoming host discarded s = (s, nothing)
handle_incoming host (arp src payload) s =
    let (cache, reply) = arp_handle host.env.now host.env.our_ip host.mac payload s.arp_cache in
    (record s { arp_cache = cache }, record nothing { reply = reply })
handle_incoming host (ipv4 payload) s =
    handle_upper host (ipv4_handle host.env.our_ip host.netmask payload) s

unfoldable pub receive_frame : Host → List ℕ → Net → Net × Effects
receive_frame host frame s = handle_incoming host (ethernet_dispatch host.mac frame) s
