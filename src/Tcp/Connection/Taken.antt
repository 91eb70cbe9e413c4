-- ===== src/Tcp/Connection/Taken.antt =====
-- What it means that a connection has taken in bytes, and that the receive ring does.
use gooos.Common.{
  ℕ, ◌+◌, ◌-◌, ◌<◌, ◌≡◌, sym, ap, ◌∙◌, subst, inl, inr, List, ◌++◌, ◌==◌, min, append-nil,
  if◌then◌else◌, length, length-append, length-take, take, u32, arith, Bool-cases,
}
use gooos.Tcp.Segment.{TcpHeader}
use gooos.Tcp.RingBuf.Fifo.{IsValid, contents, rb_write_refines}
use gooos.Tcp.Connection.{TcbState, Tcb, Env, receive_payload}
use gooos.Tcp.Connection.Handlers.{acknowledge}
use gooos.Tcp.Connection.Frame.{SameReceiver, send_pure_ack-SameReceiver}

-- The receive ring is in order, and the window to advertise is what it has room for.
pub record IsOpen (t : Tcb) : Type 0 where
  pub ring : IsValid t.rx_buf
  pub window : t.rcv_wnd ≡ 8192 - length (contents t.rx_buf)

-- how many bytes of a payload fit
abbrev pub fitting : List ℕ → Tcb → ℕ
fitting payload t = min (length payload) (8192 - length (contents t.rx_buf))

-- `t'` has taken in `k` bytes of `payload`, and `extra` sequence numbers beyond them.
pub record Took (payload : List ℕ) (k extra : ℕ) (t t' : Tcb) : Type 0 where
  pub stays_open : IsOpen t'
  pub appended : contents t'.rx_buf ≡ contents t.rx_buf ++ take k payload
  pub counted : t'.rcv_nxt ≡ u32 (t.rcv_nxt + k + extra)

pub receive_payload-Took :
    (payload : List ℕ) (t : Tcb)
    → IsOpen t
    → t.rcv_nxt < 4294967296
    → Took payload (fitting payload t) 0 t (receive_payload payload t)
unfolding receive_payload
receive_payload-Took payload t o small =
    let wrote = rb_write_refines payload t.rx_buf o.ring in
    let k = fitting payload t in
    let grown = wrote.2 ∙ ap (λ n. contents t.rx_buf ++ take n payload) wrote.1 in
    let size =
      ap length grown
      ∙ length-append (contents t.rx_buf) (take k payload)
      ∙ ap (λ n. length (contents t.rx_buf) + n) (length-take k payload) in
    elim (Bool-cases (length payload == 0)) [
      | inl none_sent ↦
          let nothing =
            ap (λ n. contents t.rx_buf ++ take n payload) {x = k} {y = 0}
              (ground (arith, none_sent))
            ∙ append-nil (contents t.rx_buf) in
          rw none_sent
            (record { stays_open = o; appended = sym nothing; counted = ground (arith, none_sent) })
      | inr some_sent ↦ rw some_sent (record {
        stays_open = record { ring = wrote.0; window = ground (arith, wrote.1, size, o.window) };
        appended = grown;
        counted = ground (arith, wrote.1);
      })
    ]

pub SameReceiver-IsOpen : {t t' : Tcb} → SameReceiver t t' → IsOpen t → IsOpen t'
SameReceiver-IsOpen {t} {t'} same o = record {
  ring = subst IsValid (sym same.rx_buf_eq) o.ring;
  window = same.rcv_wnd_eq ∙ o.window ∙ ap (λ r. 8192 - length (contents r)) (sym same.rx_buf_eq);
}

pub SameReceiver-fitting :
    (payload : List ℕ) {t t' : Tcb} → SameReceiver t t' → fitting payload t' ≡ fitting payload t
SameReceiver-fitting payload same =
    ap (λ r. min (length payload) (8192 - length (contents r))) same.rx_buf_eq

pub Took-before :
    {payload : List ℕ} {k f : ℕ} {t u v : Tcb}
    → SameReceiver t u
    → Took payload k f u v
    → Took payload k f t v
Took-before {payload} {k} {f} {t} {u} {v} same took = record {
  stays_open = took.stays_open;
  appended = took.appended ∙ ap (λ r. contents r ++ take k payload) same.rx_buf_eq;
  counted = took.counted ∙ ap (λ n. u32 (n + k + f)) same.rcv_nxt_eq;
}

pub Took-after :
    {payload : List ℕ} {k f : ℕ} {t u v : Tcb}
    → Took payload k f t u
    → SameReceiver u v
    → Took payload k f t v
Took-after {payload} {k} {f} {t} {u} {v} took same = record {
  stays_open = SameReceiver-IsOpen same took.stays_open;
  appended = ap contents same.rx_buf_eq ∙ took.appended;
  counted = same.rcv_nxt_eq ∙ took.counted;
}

-- nothing taken in
pub Took-none :
    (payload : List ℕ) (t : Tcb) → IsOpen t → t.rcv_nxt < 4294967296 → Took payload 0 0 t t
Took-none payload t o small = record {
  stays_open = o;
  appended = sym (append-nil (contents t.rx_buf));
  counted = omega arith;
}

-- a FIN after the data
pub Took-fin :
    {payload : List ℕ} {k : ℕ} {t u : Tcb} (s : TcbState) (deadline : ℕ)
    → Took payload k 0 t u
    → Took payload k 1 t
        (record u { rcv_nxt = u32 (u.rcv_nxt + 1); state = s; time_wait_deadline = deadline })
Took-fin {payload} {k} {t} {u} s deadline took = record {
  stays_open = record { ring = took.stays_open.ring; window = took.stays_open.window };
  appended = took.appended;
  counted = ground (arith, took.counted);
}

pub acknowledge-SameReceiver : (e : Env) (t : Tcb) → SameReceiver t (acknowledge e t).tcb
unfolding acknowledge
acknowledge-SameReceiver e t = send_pure_ack-SameReceiver e.our_ip t

-- the sequence numbers that a segment in order takes, and none for one that is not
abbrev pub if_in_order : TcpHeader → Tcb → ℕ → ℕ
if_in_order h t n = if h.seq == t.rcv_nxt then n else 0
