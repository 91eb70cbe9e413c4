-- ===== src/Tcp/Connection/Arrows.antt =====
-- The state diagram of RFC 793, as far as incoming segments take its arrows.
use gooos.Common.{◌≡◌, refl, Bool, true, false, ◌||◌, arith}
use gooos.Tcp.Connection.{TcbState}

-- The arrows of the diagram that an incoming segment takes, without those to `CLOSED`.
unfoldable pub arrow : TcbState → TcbState → Bool
arrow TcbState.syn_sent TcbState.established = true
arrow TcbState.syn_received TcbState.established = true
arrow TcbState.established TcbState.close_wait = true
arrow TcbState.fin_wait_1 TcbState.fin_wait_2 = true
arrow TcbState.fin_wait_1 TcbState.closing = true
arrow TcbState.fin_wait_1 TcbState.time_wait = true
arrow TcbState.fin_wait_2 TcbState.time_wait = true
arrow TcbState.closing TcbState.time_wait = true
arrow s s' = false

unfoldable pub same_state : TcbState → TcbState → Bool
same_state TcbState.closed TcbState.closed = true
same_state TcbState.listen TcbState.listen = true
same_state TcbState.syn_sent TcbState.syn_sent = true
same_state TcbState.syn_received TcbState.syn_received = true
same_state TcbState.established TcbState.established = true
same_state TcbState.fin_wait_1 TcbState.fin_wait_1 = true
same_state TcbState.fin_wait_2 TcbState.fin_wait_2 = true
same_state TcbState.close_wait TcbState.close_wait = true
same_state TcbState.closing TcbState.closing = true
same_state TcbState.last_ack TcbState.last_ack = true
same_state TcbState.time_wait TcbState.time_wait = true
same_state s s' = false

-- The one pair of arrows that a single segment takes: it ends the handshake and carries a FIN.
unfoldable pub two_arrows : TcbState → TcbState → Bool
two_arrows TcbState.syn_received TcbState.close_wait = true
two_arrows s s' = false

unfoldable pub is_closed : TcbState → Bool
is_closed TcbState.closed = true
is_closed s = false

-- the arrows, staying, and the pair of arrows
abbrev pub allowed : TcbState → TcbState → Bool
allowed s s' = arrow s s' || same_state s s' || two_arrows s s'

-- no arrow leads to `CLOSED`
pub allowed-closed : (s : TcbState) → is_closed s ≡ false → allowed s TcbState.closed ≡ false
unfolding arrow same_state two_arrows is_closed
allowed-closed TcbState.closed c = cc
allowed-closed TcbState.listen c = refl
allowed-closed TcbState.syn_sent c = refl
allowed-closed TcbState.syn_received c = refl
allowed-closed TcbState.established c = refl
allowed-closed TcbState.fin_wait_1 c = refl
allowed-closed TcbState.fin_wait_2 c = refl
allowed-closed TcbState.close_wait c = refl
allowed-closed TcbState.closing c = refl
allowed-closed TcbState.last_ack c = refl
allowed-closed TcbState.time_wait c = refl

pub allowed_self : (s : TcbState) → allowed s s ≡ true
unfolding arrow same_state two_arrows
allowed_self TcbState.closed = refl
allowed_self TcbState.listen = refl
allowed_self TcbState.syn_sent = refl
allowed_self TcbState.syn_received = refl
allowed_self TcbState.established = refl
allowed_self TcbState.fin_wait_1 = refl
allowed_self TcbState.fin_wait_2 = refl
allowed_self TcbState.close_wait = refl
allowed_self TcbState.closing = refl
allowed_self TcbState.last_ack = refl
allowed_self TcbState.time_wait = refl

pub allowed-is_closed :
    (s s' : TcbState) → allowed s s' ≡ true → is_closed s ≡ false → is_closed s' ≡ false
unfolding arrow same_state two_arrows is_closed
allowed-is_closed s TcbState.closed a c = ground (arith, a, c, allowed-closed s)
allowed-is_closed s TcbState.listen a c = refl
allowed-is_closed s TcbState.syn_sent a c = refl
allowed-is_closed s TcbState.syn_received a c = refl
allowed-is_closed s TcbState.established a c = refl
allowed-is_closed s TcbState.fin_wait_1 a c = refl
allowed-is_closed s TcbState.fin_wait_2 a c = refl
allowed-is_closed s TcbState.close_wait a c = refl
allowed-is_closed s TcbState.closing a c = refl
allowed-is_closed s TcbState.last_ack a c = refl
allowed-is_closed s TcbState.time_wait a c = refl
