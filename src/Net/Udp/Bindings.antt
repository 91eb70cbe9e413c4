-- ===== src/Net/Udp/Bindings.antt =====
-- The bound ports as a map from ports to queues, and the queue that a datagram comes to.
use gooos.Common.{
  ℕ, ◌+◌, ◌≡◌, refl, sym, ap, ◌∙◌, false, not, ◌&&◌, Option, none, some, List, [], ◌∷◌, ◌++◌, ltb,
  ◌==◌, Bool-cases, inl, inr, if◌then◌else◌, length, update_self, subst, arith,
}
use gooos.Sync.Queue.{Queue, try_push}
use gooos.Sync.Queue.Fifo.{IsValid, contents, try_push_refines}
use gooos.Net.Udp.{
  UdpDatagram, UdpBinding, Udp, is_bound, fill, udp_bind_with_queue, blank, udp_unbind,
  udp_lookup_queue, deliver, stats_inc,
}

-- how many bindings are not active
pub unused : List UdpBinding → ℕ
unused [] = 0
unused (b ∷ bs) = (if b.active then 0 else 1) + unused bs

-- a port that is not bound has no queue
lookup-unbound :
    (port : ℕ) (bs : List UdpBinding) → is_bound port bs ≡ false → udp_lookup_queue port bs ≡ none
unfolding is_bound udp_lookup_queue
lookup-unbound port [] h = refl
lookup-unbound port (b ∷ bs) h = ground (arith, h, lookup-unbound port bs)

lookup-fill :
    (port other : ℕ) (q : Option ℕ) (bs : List UdpBinding)
    → is_bound port bs ≡ false
    → let (bs', ok) = fill port q bs in
      (ok ≡ ltb 0 (unused bs))
      × (udp_lookup_queue other bs'
          ≡ (if ok && port == other then q else udp_lookup_queue other bs))
unfolding is_bound udp_lookup_queue fill unused
lookup-fill port other q [] h = (refl, refl)
lookup-fill port other q (b ∷ bs) h =
    ground (arith, h, lookup-fill port other q bs, lookup-unbound port bs)

-- `udpBindWithQueue` binds a port with its queue exactly when the port is not bound and a binding is
-- left over; then that port leads to that queue and every other port leads where it did. When it
-- refuses, nothing changes.
pub udp_bind_with_queue-lookup :
    (port other q : ℕ) (bs : List UdpBinding)
    → let (bs', ok) = udp_bind_with_queue port (some q) bs in
      (ok ≡ (not (is_bound port bs) && ltb 0 (unused bs)))
      × (udp_lookup_queue other bs'
          ≡ (if ok && port == other then some q else udp_lookup_queue other bs))
unfolding udp_bind_with_queue
udp_bind_with_queue-lookup port other q bs = elim (Bool-cases (is_bound port bs)) [
  | inl taken ↦ rw taken (refl, refl)
  | inr open_port ↦ rw open_port (lookup-fill port other (some q) bs open_port)
]

-- After `udpUnbind` the port leads to no queue, and every other port leads where it did.
pub udp_unbind-lookup :
    (port other : ℕ) (bs : List UdpBinding)
    → udp_lookup_queue other (udp_unbind port bs)
      ≡ (if port == other then none else udp_lookup_queue other bs)
unfolding udp_unbind udp_lookup_queue
udp_unbind-lookup port other [] = ground arith
udp_unbind-lookup port other (b ∷ bs) = ground (arith, udp_unbind-lookup port other bs)

-- the queue numbered `i`, as a list
abbrev pub queued : ℕ → Udp → List UdpDatagram
queued i s = contents 16 (s.queues i)

pushed_onto :
    (d : UdpDatagram) (q : Queue UdpDatagram)
    → IsValid 16 q
    → let (q', accepted, woken) = try_push 16 blank d q in
      let ok = ltb (length (contents 16 q)) 16 in
      IsValid 16 q'
      × (contents 16 q' ≡ (if ok then contents 16 q ++ (d ∷ []) else contents 16 q))
      × (accepted ≡ ok)
      × (woken ≡ (if ok then q.consumer else none))
pushed_onto d q v =
    let (valid, offered, woken) = try_push_refines 16 blank (omega arith) (omega arith) d q v in
    let stored = ap (λ r. r.0) offered in
    let accepted = ap (λ r. r.1) offered in
    elim (Bool-cases (ltb (length (contents 16 q)) 16)) [
      | inl room ↦ (
        valid,
        ground (arith, room, stored),
        ground (arith, room, accepted),
        ground (arith, room, accepted, woken),
      )
      | inr full ↦ (
        valid,
        ground (arith, full, stored),
        ground (arith, full, accepted),
        ground (arith, full, accepted, woken),
      )
    ]

-- A datagram for a port that leads to a valid queue is appended to that queue when it holds fewer than
-- 16, and is lost otherwise; the one counter that tells which is raised. No other queue and no binding
-- changes, and the consumer that waits is woken exactly when the datagram was appended.
pub deliver_refines :
    (d : UdpDatagram) (s : Udp) (i j : ℕ)
    → udp_lookup_queue d.dst_port s.bindings ≡ some i
    → IsValid 16 (s.queues i)
    → let (s', woken) = deliver d s in
      let ok = ltb (length (queued i s)) 16 in
      IsValid 16 (s'.queues i)
      × (queued i s' ≡ (if ok then queued i s ++ (d ∷ []) else queued i s))
      × (s'.queues j ≡ (if i == j then s'.queues i else s.queues j))
      × (s'.bindings ≡ s.bindings)
      × (s'.stats.udp_recv ≡ (if ok then stats_inc s.stats.udp_recv else s.stats.udp_recv))
      × (s'.stats.rx_dropped ≡ (if ok then s.stats.rx_dropped else stats_inc s.stats.rx_dropped))
      × (woken ≡ (if ok then (s.queues i).consumer else none))
unfolding deliver
deliver_refines d s i j bound v =
    let (valid, stored, accepted, wakes) = pushed_onto d (s.queues i) v in
    rw (bound, deliver)
      (
        subst (IsValid 16) (sym (update_self s.queues i _)) valid,
        ap (contents 16) (update_self s.queues i _) ∙ stored,
        ground arith,
        refl,
        rw accepted (ground arith),
        rw accepted (ground arith),
        wakes,
      )
