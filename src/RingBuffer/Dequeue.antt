-- ===== src/RingBuffer/Dequeue.antt =====
-- `Dequeue`, `DequeueLock`, `Peek` and `MoveFront` against the queue of the bytes held.
use native.Mathlib.Nat.{mod-add-mod, mod-lt, mod-mod, mod-eq_of_lt}
use native.Mathlib.Decide.{dec_lt}
use game_server_portfolio.Base.{
  ℕ, zero, suc, ◌+◌, ◌-◌, ◌%◌, ◌≤◌, ◌<◌, ◌≡◌, refl, sym, ap, ◌∙◌, ◌⊎◌, inl, inr, some, arith, pos,
  take, drop, min, take_all,
}
use game_server_portfolio.RingBuffer.{
  CRingBuffer, get_use_size, dequeue_loop, dequeue, peek_loop, peek, move_front,
}
use game_server_portfolio.RingBuffer.Window.{window, window-cong, take-window, drop-window}
use game_server_portfolio.RingBuffer.Valid.{
  IsValid, contents, length-contents, use-lt-size, front-add-use, use-of-rear,
}

-- The loop of `Peek` reads a window.
peek_loop-window :
    (n f : ℕ) (r : CRingBuffer) → f < r.size → peek_loop n f r ≡ window r.buffer r.size f n
unfolding peek_loop
peek_loop-window zero f r h = refl
peek_loop-window (suc n) f r h = ground (
  arith,
  mod-eq_of_lt h,
  peek_loop-window n ((f + 1) % r.size) r (mod-lt (f + 1) {m = r.size} (omega arith)),
  window-cong r.buffer r.size ((f + 1) % r.size) (f + 1) n (mod-mod (f + 1) r.size),
)

-- `r` with its front `n` cells further on
pub advanced : ℕ → CRingBuffer → CRingBuffer
advanced n r = record r { front = (r.front + n) % r.size }

front-step : (s f n : ℕ) → ((f + 1) % s + n) % s ≡ (f + suc n) % s
front-step s f n = mod-add-mod (f + 1) s n ∙ ap (λ k. k % s) (omega arith)

-- The loop of `Dequeue` reads the same window, and leaves the front behind it.
dequeue_loop_lem :
    (n : ℕ) (r : CRingBuffer)
    → r.front < r.size
    → dequeue_loop n r ≡ (window r.buffer r.size r.front n, advanced n r)
unfolding dequeue_loop advanced
dequeue_loop_lem zero r h = ground (arith, mod-eq_of_lt h)
dequeue_loop_lem (suc n) r h = ground (
  arith,
  mod-eq_of_lt h,
  front-step r.size r.front n,
  dequeue_loop_lem n (record r { front = (r.front + 1) % r.size })
      (mod-lt (r.front + 1) {m = r.size} (omega arith)),
  window-cong r.buffer r.size ((r.front + 1) % r.size) (r.front + 1) n
      (mod-mod (r.front + 1) r.size),
)

-- What a ring holds once `n` bytes have left it.
pub record Drops (r : CRingBuffer) (n : ℕ) (r' : CRingBuffer) : Type 0 where
  pub valid : IsValid r'
  pub size_kept : r'.size ≡ r.size
  pub bytes : contents r' ≡ drop n (contents r)

advanced-rear :
    (n : ℕ) (r : CRingBuffer)
    → IsValid r
    → n ≤ get_use_size r
    → r.rear ≡ ((r.front + n) % r.size + (get_use_size r - n)) % r.size
advanced-rear n r v h =
    sym (front-add-use v)
    ∙ sym (
        mod-add-mod (r.front + n) r.size (get_use_size r - n)
        ∙ ap (λ k. k % r.size)
            (let e : r.front + n + (get_use_size r - n) ≡ r.front + get_use_size r = omega arith in
              e))

advanced-use :
    (n : ℕ) (r : CRingBuffer)
    → IsValid r
    → n ≤ get_use_size r
    → get_use_size (advanced n r) ≡ get_use_size r - n
unfolding advanced
advanced-use n r v h =
    use-of-rear r.size ((r.front + n) % r.size) (get_use_size r - n) r.rear r.buffer
      (mod-lt (r.front + n) {m = r.size} (omega (arith, v.front_in))) (omega (arith, use-lt-size v))
      (advanced-rear n r v h)

-- Moving the front over `n` bytes held drops them.
advanced-Drops :
    (n : ℕ) (r : CRingBuffer) → IsValid r → n ≤ get_use_size r → Drops r n (advanced n r)
unfolding advanced
advanced-Drops n r v h = record {
  valid = ground (arith, mod-lt (r.front + n) {m = r.size});
  size_kept = refl;
  bytes = ground (
    arith,
    advanced-use n r v h,
    window-cong r.buffer r.size ((r.front + n) % r.size) (r.front + n) (get_use_size r - n)
        (mod-mod (r.front + n) r.size),
    drop-window r.buffer r.size r.front n (get_use_size r - n),
  );
}

take-contents :
    (r : CRingBuffer) (n : ℕ)
    → window r.buffer r.size r.front (min n (get_use_size r)) ≡ take n (contents r)
take-contents r n = elim (dec_lt (get_use_size r) n) [
  | yes more ↦
      rw (let e : min n (get_use_size r) ≡ get_use_size r = omega arith in e)
        (sym (take_all n (contents r) (omega (arith, length-contents r))))
  | no less ↦
      rw (let e : min n (get_use_size r) ≡ n = omega arith in e)
        (sym (take-window r.buffer r.size r.front n (get_use_size r) (omega arith)))
]

-- `Dequeue` as one equation, over all its branches.
dequeue_lem :
    (r : CRingBuffer) (n : ℕ)
    → IsValid r
    → let m = min n (get_use_size r) in
      dequeue r (pos n) ≡ (pos m, window r.buffer r.size r.front m, advanced m r)
unfolding dequeue
dequeue_lem r n v = elim (dec_lt (get_use_size r) n) [
  | yes more ↦
      rw (let e : min n (get_use_size r) ≡ get_use_size r = omega arith in e)
        (ground (arith, dequeue_loop_lem (get_use_size r) r v.front_in))
  | no less ↦
      rw (let e : min n (get_use_size r) ≡ n = omega arith in e)
        (ground (arith, dequeue_loop_lem n r v.front_in))
]

-- On a valid ring `Dequeue` of `iSize` bytes hands over the oldest bytes held, `iSize` of them or
-- all if there are fewer, returns their number, and leaves the rest in a valid ring of the same
-- size.
pub dequeue_refines :
    (r : CRingBuffer) (n : ℕ)
    → IsValid r
    → let (count, bytes, r') = dequeue r (pos n) in
      (count ≡ pos (min n (get_use_size r)))
      × (bytes ≡ take n (contents r))
      × Drops r (min n (get_use_size r)) r'
dequeue_refines r n v =
    rw (dequeue_lem r n v)
      (refl, take-contents r n, advanced-Drops (min n (get_use_size r)) r v (omega arith))

peek_lem :
    (r : CRingBuffer) (n : ℕ)
    → IsValid r
    → let m = min n (get_use_size r) in peek r (pos n) ≡ (pos m, window r.buffer r.size r.front m)
unfolding peek
peek_lem r n v = elim (dec_lt (get_use_size r) n) [
  | yes more ↦
      rw (let e : min n (get_use_size r) ≡ get_use_size r = omega arith in e)
        (ground (arith, peek_loop-window (get_use_size r) r.front r v.front_in))
  | no less ↦
      rw (let e : min n (get_use_size r) ≡ n = omega arith in e)
        (ground (arith, peek_loop-window n r.front r v.front_in))
]

-- On a valid ring `Peek` shows the bytes that `Dequeue` of that size hands over, and returns the
-- number that it returns.
pub peek-dequeue :
    (r : CRingBuffer) (n : ℕ)
    → IsValid r
    → peek r (pos n) ≡ ((dequeue r (pos n)).0, (dequeue r (pos n)).1)
peek-dequeue r n v = rw (dequeue_lem r n v) (peek_lem r n v)

-- On a valid ring `MoveFront` by `iSize` bytes drops that many if they are held, and returns
-- `iSize`; otherwise it returns 0 and leaves the ring as it was.
pub move_front_refines :
    (r : CRingBuffer) (n : ℕ)
    → IsValid r
    → ((n ≤ get_use_size r)
        × (r' : CRingBuffer) × (move_front r (pos n) ≡ some (pos n, r'))
        × Drops r n r')
      ⊎ ((get_use_size r < n) × (move_front r (pos n) ≡ some (pos 0, r)))
unfolding move_front advanced
move_front_refines r n v = elim (dec_lt (get_use_size r) n) [
  | yes more ↦ inr (more, ground arith)
  | no less ↦
      let held : n ≤ get_use_size r = omega arith in
      inl (held, advanced n r, ground arith, advanced-Drops n r v held)
]
