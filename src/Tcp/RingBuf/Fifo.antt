-- ===== src/Tcp/RingBuf/Fifo.antt =====
-- The byte ring is a bounded FIFO of bytes, across the wrap of its counters.
use gooos.Common.{
  ℕ, zero, suc, ◌+◌, ◌-◌, ◌%◌, ◌≤◌, ◌<◌, ◌≡◌, refl, sym, ap, ◌∙◌, List, [], ◌∷◌, ◌++◌, ltb, leb,
  min, if◌then◌else◌, Array, update, u32, length, take, drop, arith, append_assoc, append-nil,
  length-take, take_all, drop_all, leb→le, Bool-cases, inl, inr,
}
use gooos.Common.Rings.{view, view_mod, view-update_end, length-view, take-view, drop-view}
use gooos.Tcp.RingBuf.{RingBuf, store, load, rb_free, rb_len, rb_write, rb_read, rb_peek}

abbrev pub contents : RingBuf → List ℕ
contents r = view r.bytes 8192 r.head r.count

pub record IsValid (r : RingBuf) : Type 0 where
  pub head_in : r.head < 4294967296
  pub tail_at : r.tail ≡ u32 (r.head + r.count)
  pub count_in : r.count ≤ 8192

load-eq-view : (f : Array ℕ) (h n : ℕ) → load f h n ≡ view f 8192 h n
unfolding load
load-eq-view f h zero = refl
load-eq-view f h (suc n) =
    ap (λ xs. f (h % 8192) ∷ xs)
      (load-eq-view f (u32 (h + 1)) n ∙ view_mod f 8192 (u32 (h + 1)) (h + 1) n (omega arith))

view-store :
    (f : Array ℕ) (h c t : ℕ) (xs : List ℕ)
    → t % 8192 ≡ (h + c) % 8192
    → c + length xs ≤ 8192
    → view (store f t xs) 8192 h (c + length xs) ≡ view f 8192 h c ++ xs
unfolding store
view-store f h c t [] e k = ap (λ n. view f 8192 h n) {y = c} (omega arith) ∙ sym (append-nil _)
view-store f h c t (x ∷ xs) e k =
    ap (λ n. view (store (update f (t % 8192) x) (u32 (t + 1)) xs) 8192 h n) {y = suc c + length xs}
      (omega arith)
    ∙ view-store (update f (t % 8192) x) h (suc c) (u32 (t + 1)) xs (omega arith) (omega arith)
    ∙ ap (λ ys. ys ++ xs) (view-update_end f 8192 h c (t % 8192) x (omega arith) e)
    ∙ append_assoc (view f 8192 h c) (x ∷ []) xs

appended :
    (src : List ℕ) (n : ℕ) (r : RingBuf)
    → IsValid r
    → n ≤ length src
    → r.count + n ≤ 8192
    → view (store r.bytes r.tail (take n src)) 8192 r.head (u32 (r.count + n))
      ≡ contents r ++ take n src
appended src n r v h k =
    ap (λ c. view (store r.bytes r.tail (take n src)) 8192 r.head c)
      {y = r.count + length (take n src)} (omega (arith, length-take n src))
    ∙ view-store r.bytes r.head r.count r.tail (take n src) (omega arith)
        (omega (arith, length-take n src))

take_nil : (n : ℕ) → take {A = ℕ} n [] ≡ []
take_nil zero = refl
take_nil (suc n) = refl

take_part :
    (n c h : ℕ) (r : RingBuf) → take n (view r.bytes 8192 h c) ≡ view r.bytes 8192 h (min n c)
take_part n c h r = elim (Bool-cases (leb n c)) [
  | inl le ↦
      take-view r.bytes 8192 h c n (leb→le _ _ le)
      ∙ ap (λ k. view r.bytes 8192 h k) (omega (arith, leb→le _ _ le))
  | inr gt ↦
      let lt : c ≤ n = ground arith in
      take_all n (view r.bytes 8192 h c) (omega (arith, length-view r.bytes 8192 h c))
      ∙ ap (λ k. view r.bytes 8192 h k) (omega arith)
]

-- `rbWrite` on a valid ring leaves a valid ring; it appends the bytes that fit under 8192, in order,
-- and returns their number.
pub rb_write_refines :
    (src : List ℕ) (r : RingBuf)
    → IsValid r
    → let (r', n) = rb_write src r in
      IsValid r'
      × (n ≡ min (length src) (8192 - length (contents r)))
      × (contents r' ≡ contents r ++ take n src)
unfolding rb_write rb_free
rb_write_refines src r v =
    let n : ℕ = min (length src) (8192 - r.count) in
    let e : (if ltb (8192 - r.count) (length src) then 8192 - r.count else length src) ≡ n =
      ground arith in
    rw e (
      record { head_in = v.head_in; tail_at = omega arith; count_in = omega arith },
      omega (arith, length-view r.bytes 8192 r.head r.count),
      appended src n r v (omega arith) (omega arith),
    )

-- `rbRead` on a valid ring leaves a valid ring; it returns the oldest bytes, as many as are there and
-- fit in the buffer, and keeps the others.
pub rb_read_refines :
    (room : ℕ) (r : RingBuf)
    → IsValid r
    → let (r', out) = rb_read room r in
      IsValid r' × (out ≡ take room (contents r)) × (contents r' ≡ drop room (contents r))
unfolding rb_read rb_len
rb_read_refines room r v = elim (Bool-cases (ltb r.count room)) [
  | inl all ↦
      let le : r.count ≤ room = ground arith in
      rw all (
        record { head_in = omega arith; tail_at = omega arith; count_in = omega arith },
        load-eq-view r.bytes r.head r.count
            ∙ sym (
                take_all room (contents r)
                  (omega (arith, length-view r.bytes 8192 r.head r.count))),
        (ap (λ k. view r.bytes 8192 (u32 (r.head + r.count)) k) {y = 0} (omega arith))
            ∙ sym (
                drop_all room (contents r)
                  (omega (arith, length-view r.bytes 8192 r.head r.count))),
      )
  | inr part ↦
      let le : room ≤ r.count = ground arith in
      rw part (
        record { head_in = omega arith; tail_at = omega arith; count_in = omega arith },
        load-eq-view r.bytes r.head room ∙ sym (take-view r.bytes 8192 r.head r.count room le),
        view_mod r.bytes 8192 (u32 (r.head + room)) (r.head + room) (r.count - room) (omega arith)
            ∙ sym (drop-view r.bytes 8192 r.head r.count room le),
      )
]

-- `rbPeek` on a valid ring, of offset and count in 31 bits, returns the bytes at the offset, as many
-- as are there, are asked for and fit in the buffer.
pub rb_peek_refines :
    (off n room : ℕ) (r : RingBuf)
    → IsValid r
    → off < 2147483648
    → n < 2147483648
    → rb_peek off n room r ≡ take (min n room) (drop off (contents r))
unfolding rb_peek rb_len
rb_peek_refines off n room r v h k = elim (Bool-cases (leb r.count off)) [
  | inl past ↦ rw past (
      sym (take_nil (min n room))
      ∙ ap (take (min n room)) (
          sym (
            drop_all off (contents r)
              (omega (arith, leb→le _ _ past, length-view r.bytes 8192 r.head r.count)))))
  | inr inside ↦
      let le : off ≤ r.count = ground arith in
      let m : ℕ = min (min n room) (r.count - off) in
      let e : (if ltb r.count (u32 (off + (if ltb room n then room else n)))
            then r.count - off
            else (if ltb room n then room else n))
          ≡ m =
        ground arith in
      rw (inside, e)
        (load-eq-view r.bytes (u32 (r.head + off)) m
          ∙ view_mod r.bytes 8192 (u32 (r.head + off)) (r.head + off) m (omega arith)
          ∙ sym (take_part (min n room) (r.count - off) (r.head + off) r)
          ∙ ap (take (min n room)) (sym (drop-view r.bytes 8192 r.head r.count off le)))
]
