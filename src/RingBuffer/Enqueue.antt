-- ===== src/RingBuffer/Enqueue.antt =====
-- `Enqueue` and `EnqueueLock` against the queue of the bytes held.
use native.Mathlib.Nat.{mod-add-mod, mod-lt, add_assoc}
use native.Mathlib.Decide.{dec_lt}
use game_server_portfolio.Base.{
  ℕ, zero, suc, ◌+◌, ◌%◌, ◌≤◌, ◌<◌, ◌≡◌, refl, sym, ap, ◌∙◌, ◌⊎◌, List, [], ◌∷◌, ◌++◌, append-nil,
  append_assoc, arith, ℤ, pos, length, take, set, length-set,
}
use game_server_portfolio.RingBuffer.{
  CRingBuffer, get_use_size, get_free_size, get_buffer_size, put_byte, enqueue_loop, enqueue,
  enqueue_lock,
}
use game_server_portfolio.RingBuffer.Window.{window-set_end}
use game_server_portfolio.RingBuffer.Valid.{
  IsValid, contents, use-add-free, front-add-use, use-of-rear,
}

-- The rear one byte further, in terms of the front.
rear-add-one :
    {r : CRingBuffer}
    → IsValid r
    → (r.rear + 1) % r.size ≡ (r.front + (get_use_size r + 1)) % r.size
rear-add-one {r} v =
    ap (λ k. (k + 1) % r.size) (sym (front-add-use v))
    ∙ mod-add-mod (r.front + get_use_size r) r.size 1
    ∙ ap (λ k. k % r.size) (add_assoc r.front (get_use_size r) 1)

-- A run of the loop appends its bytes.
pub record Appends (r : CRingBuffer) (bs : List ℕ) (r' : CRingBuffer) : Type 0 where
  pub valid : IsValid r'
  pub size_kept : r'.size ≡ r.size
  pub front_kept : r'.front ≡ r.front
  pub used : get_use_size r' ≡ get_use_size r + length bs
  pub bytes : contents r' ≡ contents r ++ bs

put_byte-use :
    (r : CRingBuffer) (x : ℕ)
    → IsValid r
    → get_use_size r + 1 < r.size
    → get_use_size (put_byte r x) ≡ get_use_size r + 1
unfolding put_byte
put_byte-use r x v h =
    use-of-rear r.size r.front (get_use_size r + 1) ((r.rear + 1) % r.size) (set r.buffer r.rear x)
      v.front_in h (rear-add-one v)

put_byte-IsValid : (r : CRingBuffer) (x : ℕ) → IsValid r → IsValid (put_byte r x)
unfolding put_byte
put_byte-IsValid r x v =
    ground (arith, length-set r.buffer r.rear x, mod-lt (r.rear + 1) {m = r.size})

put_byte-contents :
    (r : CRingBuffer) (x : ℕ)
    → IsValid r
    → get_use_size r + 1 < r.size
    → contents (put_byte r x) ≡ contents r ++ x ∷ []
put_byte-contents r x v h = rw (put_byte-use r x v h) (
    unfold put_byte in
    ground (arith, front-add-use v, window-set_end r.buffer r.size r.front (get_use_size r) x))

put_byte-Appends :
    (r : CRingBuffer) (x : ℕ)
    → IsValid r
    → get_use_size r + 1 < r.size
    → Appends r (x ∷ []) (put_byte r x)
unfolding put_byte
put_byte-Appends r x v h = record {
  valid = put_byte-IsValid r x v;
  size_kept = refl;
  front_kept = refl;
  used = put_byte-use r x v h;
  bytes = put_byte-contents r x v h;
}

-- Room for one more byte leads to room for one less.
Appends-cons :
    {r r' r'' : CRingBuffer} {x : ℕ} {bs : List ℕ}
    → Appends r (x ∷ []) r'
    → Appends r' bs r''
    → Appends r (x ∷ bs) r''
Appends-cons {r} {r'} {r''} {x} {bs} a b = record {
  valid = b.valid;
  size_kept = b.size_kept ∙ a.size_kept;
  front_kept = b.front_kept ∙ a.front_kept;
  used = omega (arith, a.used, b.used);
  bytes = b.bytes ∙ ap (λ k. k ++ bs) a.bytes ∙ append_assoc (contents r) (x ∷ []) bs;
}

-- The loop appends the first `n` bytes that it is given, if there is room for them.
pub enqueue_loop-Appends :
    (n : ℕ) (bs : List ℕ) (r : CRingBuffer)
    → IsValid r
    → n ≤ length bs
    → get_use_size r + n < r.size
    → Appends r (take n bs) (enqueue_loop n bs r)
unfolding enqueue_loop
enqueue_loop-Appends zero bs r v hb hr = record {
  valid = v;
  size_kept = refl;
  front_kept = refl;
  used = omega arith;
  bytes = sym (append-nil (contents r));
}
enqueue_loop-Appends (suc n) [] r v hb hr = absurd (omega arith)
enqueue_loop-Appends (suc n) (x ∷ bs) r v hb hr =
    let a = put_byte-Appends r x v (omega arith) in
    Appends-cons a (
      enqueue_loop-Appends n bs (put_byte r x) a.valid (omega arith)
        (omega (arith, a.used, a.size_kept)))

-- On a valid ring `Enqueue` of `iSize` bytes takes all of them, in order and behind the bytes held,
-- if that many are free, and returns `iSize`; otherwise it returns 0 and leaves the ring as it was.
-- Either way the ring stays valid and keeps its size.
pub enqueue_refines :
    (r : CRingBuffer) (chp_data : List ℕ) (n : ℕ)
    → IsValid r
    → n ≤ length chp_data
    → let (taken, r') = enqueue r chp_data (pos n) in
      IsValid r'
      × (r'.size ≡ r.size)
      × ((n ≤ get_free_size r) × (taken ≡ pos n) × (contents r' ≡ contents r ++ take n chp_data)
          ⊎ (get_free_size r < n) × (taken ≡ pos 0) × (r' ≡ r))
unfolding enqueue get_buffer_size
enqueue_refines r chp_data n v h = elim (dec_lt (get_free_size r) n) [
  | yes full ↦ ground arith
  | no fits ↦
      let a = enqueue_loop-Appends n chp_data r v h (omega (arith, use-add-free v)) in
      ground (arith, a)
]

-- `EnqueueLock` does what `Enqueue` does, for every size, negative ones included.
pub enqueue_lock-enqueue :
    (r : CRingBuffer) (chp_data : List ℕ) (n : ℤ) → enqueue_lock r chp_data n ≡ enqueue r chp_data n
unfolding enqueue enqueue_lock
enqueue_lock-enqueue r chp_data n = refl
