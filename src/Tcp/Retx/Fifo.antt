-- ===== src/Tcp/Retx/Fifo.antt =====
-- The retransmission queue is a bounded FIFO, and an acknowledgement takes off exactly the leading
-- descriptors that it covers.
use gooos.Common.{
  ℕ, zero, suc, ◌+◌, ◌-◌, ◌%◌, ◌≤◌, ◌<◌, ◌≡◌, refl, sym, ap, ◌∙◌, Bool, false, ◌||◌, List, [], ◌∷◌,
  ◌++◌, ltb, min, ◌==◌, if◌then◌else◌, update, u8, length, arith, ◌⊎◌, inl, inr,
}
use gooos.Common.Rings.{view, view_mod, view-update_end, view-update_head, length-view}
use gooos.Tcp.Seq.{seq_le}
use gooos.Tcp.Retx.{Entry, blank, RetxQueue, Acked, note, ack_loop, retx_push, retx_ack_to}

abbrev pub contents : RetxQueue → List Entry
contents q = view q.ring 64 q.head q.n

pub record IsValid (q : RetxQueue) : Type 0 where
  pub head_in : q.head < 256
  pub tail_at : q.tail ≡ u8 (q.head + q.n)
  pub n_in : q.n ≤ 64

-- `retxPush` on a valid queue leaves a valid queue; it appends the descriptor and says so exactly
-- when fewer than 64 are held.
pub retx_push_refines :
    (e : Entry) (q : RetxQueue)
    → IsValid q
    → let (q', ok) = retx_push e q in
      IsValid q'
      × (ok ≡ ltb (length (contents q)) 64)
      × (contents q' ≡ (if ok then contents q ++ (e ∷ []) else contents q))
unfolding retx_push
retx_push_refines e q v =
    ground (
      arith,
      length-view q.ring 64 q.head q.n,
      view-update_end q.ring 64 q.head q.n (q.tail % 64) e,
    )

-- the leading descriptors that `ack` covers, and the others
pub covered : ℕ → List Entry → List Entry
covered ack [] = []
covered ack (e ∷ es) = let more = covered ack es in if seq_le e.end_seq ack then e ∷ more else []

pub pending : ℕ → List Entry → List Entry
pending ack [] = []
pending ack (e ∷ es) = let more = pending ack es in if seq_le e.end_seq ack then more else e ∷ es

pub note_all : List Entry → Acked → Acked
note_all [] a = a
note_all (e ∷ es) a = note_all es (note e a)

-- one turn of the loop, as a queue
abbrev popped_one : RetxQueue → RetxQueue
popped_one q = record q {
  ring = update q.ring (q.head % 64) blank;
  head = u8 (q.head + 1);
  n = q.n - 1;
}

popped_one-IsValid : (q : RetxQueue) → IsValid q → 0 < q.n → IsValid (popped_one q)
popped_one-IsValid q v h = omega arith

contents-popped_one :
    (q : RetxQueue)
    → IsValid q
    → 0 < q.n
    → contents q ≡ q.ring (q.head % 64) ∷ contents (popped_one q)
contents-popped_one q v h =
    ap (λ k. view q.ring 64 q.head k) {y = suc (q.n - 1)} (omega arith)
    ∙ ap (λ es. q.ring (q.head % 64) ∷ es)
        (sym (
          view_mod (update q.ring (q.head % 64) blank) 64 (u8 (q.head + 1)) (q.head + 1) (q.n - 1)
            (omega arith)
          ∙ view-update_head q.ring 64 q.head (q.n - 1) blank (omega arith)))

-- one turn on a list, in the form the loop has it
pending_step :
    (ack : ℕ) (e : Entry) (es : List Entry)
    → pending ack (e ∷ es) ≡ (if seq_le e.end_seq ack then pending ack es else e ∷ es)
unfolding pending
pending_step ack e es = refl

covered_step :
    (ack : ℕ) (e : Entry) (es : List Entry)
    → covered ack (e ∷ es) ≡ (if seq_le e.end_seq ack then e ∷ covered ack es else [])
unfolding covered
covered_step ack e es = refl

pending_nil : (ack : ℕ) → pending ack [] ≡ []
unfolding pending
pending_nil ack = refl

covered_nil : (ack : ℕ) → covered ack [] ≡ []
unfolding covered
covered_nil ack = refl

note_all_nil : (a : Acked) → note_all [] a ≡ a
unfolding note_all
note_all_nil a = refl

note_all_step :
    (e : Entry) (es : List Entry) (a : Acked) → note_all (e ∷ es) a ≡ note_all es (note e a)
unfolding note_all
note_all_step e es a = refl

zero_or_more : (n : ℕ) → (n ≡ 0) ⊎ (0 < n)
zero_or_more zero = inl refl
zero_or_more (suc n) = inr (omega arith)

contents_empty : (q : RetxQueue) → q.n ≡ 0 → contents q ≡ []
contents_empty q h = ap (λ k. view q.ring 64 q.head k) h

ack_loop_refines :
    (fuel ack : ℕ) (q : RetxQueue) (a : Acked)
    → IsValid q
    → q.n ≤ fuel
    → let (q', a') = ack_loop fuel ack q a in
      IsValid q'
      × (contents q' ≡ pending ack (contents q))
      × (a' ≡ note_all (covered ack (contents q)) a)
unfolding ack_loop
ack_loop_refines zero ack q a v h =
    let c = contents_empty q (omega arith) in
    ground (arith, c, pending_nil ack, covered_nil ack, note_all_nil a)
ack_loop_refines (suc fuel) ack q a v h = elim (zero_or_more q.n) [
  | inl empty ↦
      let c = contents_empty q (omega arith) in
      ground (arith, c, empty, pending_nil ack, covered_nil ack, note_all_nil a)
  | inr some_left ↦
      let e = q.ring (q.head % 64) in
      let c = contents-popped_one q v (omega arith) in
      let es = contents (popped_one q) in
      let rec =
        ack_loop_refines fuel ack (popped_one q) (note e a) (popped_one-IsValid q v (omega arith))
          (omega arith) in
      ground (
        arith,
        c,
        some_left,
        rec,
        pending_step ack e es,
        covered_step ack e es,
        pending_nil ack,
        note_all_step e (covered ack es) a,
        note_all_nil a,
      )
]

-- the smallest send time of a list, given one to start from
pub oldest_from : ℕ → List Entry → ℕ
oldest_from m [] = m
oldest_from m (e ∷ es) = oldest_from (min m e.sent_ticks) es

pub oldest : List Entry → ℕ
oldest [] = 0
oldest (e ∷ es) = oldest_from e.sent_ticks es

pub any_sent_once : List Entry → Bool
any_sent_once [] = false
any_sent_once (e ∷ es) = e.xmit_count == 0 || any_sent_once es

note_all_later :
    (es : List Entry) (a : Acked)
    → 0 < a.popped
    → let a' = note_all es a in
      (a'.popped ≡ a.popped + length es)
      × (a'.oldest_sent ≡ oldest_from a.oldest_sent es)
      × (a'.any_pristine ≡ any_sent_once es || a.any_pristine)
unfolding note_all note oldest_from any_sent_once
note_all_later [] a h = (omega arith, refl, refl)
note_all_later (e ∷ es) a h =
    let rec = note_all_later es (note e a) (omega arith) in ground (arith, rec)

note_all_first :
    (es : List Entry)
    → let a = note_all es (record { popped = 0; oldest_sent = 0; any_pristine = false }) in
      (a.popped ≡ length es) × (a.oldest_sent ≡ oldest es) × (a.any_pristine ≡ any_sent_once es)
unfolding note_all oldest any_sent_once note
note_all_first [] = (refl, refl, refl)
note_all_first (e ∷ es) =
    let later =
      note_all_later es (note e (record { popped = 0; oldest_sent = 0; any_pristine = false }))
        (omega arith) in
    ground (arith, later)

covered-pending : (ack : ℕ) (es : List Entry) → covered ack es ++ pending ack es ≡ es
unfolding covered pending
covered-pending ack [] = refl
covered-pending ack (e ∷ es) = let rec = covered-pending ack es in ground (arith, rec)

-- `retxAckTo` on a valid queue leaves a valid queue. It takes off exactly the leading descriptors
-- whose last sequence number is not after `ack`, keeps the others in their order, and returns how
-- many it took off, the smallest send time among them (0 for none), and whether one of them was
-- never sent again.
pub retx_ack_to_refines :
    (ack : ℕ) (q : RetxQueue)
    → IsValid q
    → let (q', a) = retx_ack_to ack q in
      IsValid q'
      × (contents q' ≡ pending ack (contents q))
      × (covered ack (contents q) ++ contents q' ≡ contents q)
      × (a.popped ≡ length (covered ack (contents q)))
      × (a.oldest_sent ≡ oldest (covered ack (contents q)))
      × (a.any_pristine ≡ any_sent_once (covered ack (contents q)))
unfolding retx_ack_to
retx_ack_to_refines ack q v =
    let none_yet : Acked = record { popped = 0; oldest_sent = 0; any_pristine = false } in
    let (v', c, r) = ack_loop_refines q.n ack q none_yet v (omega arith) in
    let (n, o, p) = note_all_first (covered ack (contents q)) in
    let whole = covered-pending ack (contents q) in
    (
      v',
      c,
      ap (λ es. covered ack (contents q) ++ es) c ∙ whole,
      ap (λ a. a.popped) r ∙ n,
      ap (λ a. a.oldest_sent) r ∙ o,
      ap (λ a. a.any_pristine) r ∙ p,
    )
