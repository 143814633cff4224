-- ===== src/RingBuffer/Receive.antt =====
-- A receive into the two spans that `Session::PostRecv` hands over, completed by `MoveRear`.
use native.Mathlib.Nat.{mod-add-mod, mod-lt, add_assoc}
use game_server_portfolio.Base.{
  ℕ, ◌+◌, ◌-◌, ◌%◌, ◌≤◌, ◌<◌, ◌≡◌, ◌⊎◌, inl, inr, refl, sym, ap, ap₂, ◌∙◌, List, ◌++◌, some, arith,
  pos, length, get_or,
}
use game_server_portfolio.RingBuffer.{
  CRingBuffer, get_use_size, get_free_size, direct_enqueue_size, move_rear,
}
use game_server_portfolio.RingBuffer.Window.{window, window-add, window_ext, window_of_cells}
use game_server_portfolio.RingBuffer.Valid.{
  IsValid, contents, use-add-free_size, front-add-use, use-of-rear,
}
use game_server_portfolio.RingBuffer.Direct.{free_cell, held_cell}

-- What a scattered read documents: the bytes `bs` fill the first span, then the second, and no other
-- cell changes. `after` is the storage once the read has completed.
pub record Scattered (r : CRingBuffer) (bs : List ℕ) (after : List ℕ) : Type 0 where
  pub kept_length : length after ≡ length r.buffer
  pub first :
      (k : ℕ)
      → k < length bs
      → k < direct_enqueue_size r
      → get_or after (r.rear + k) 0 ≡ get_or bs k 0
  pub second :
      (k : ℕ)
      → k < length bs
      → direct_enqueue_size r ≤ k
      → get_or after (k - direct_enqueue_size r) 0 ≡ get_or bs k 0
  pub others :
      (c : ℕ)
      → (c < r.rear) ⊎ (r.rear + direct_enqueue_size r ≤ c)
      → get_free_size r - direct_enqueue_size r ≤ c
      → get_or after c 0 ≡ get_or r.buffer c 0

module _ (r : CRingBuffer) (bs after : List ℕ) (v : IsValid r) (fits : length bs ≤ get_free_size r)
    (scattered : Scattered r bs after) where
  received_ring : CRingBuffer
  received_ring = record r { rear = (r.rear + length bs) % r.size; buffer = after }

  received_cell :
      (k : ℕ)
      → k < length bs
      → get_or after ((r.front + get_use_size r + k) % r.size) 0 ≡ get_or bs k 0
  received_cell k h = elim (free_cell r k v (omega arith)) [
    | inl (near, e, _) ↦ ground (arith, scattered.first k h near, cell k)
    | inr (far, e) ↦ ground (arith, scattered.second k h far, cell k)
  ]
    where
      cell : (k : ℕ) → (r.front + get_use_size r + k) % r.size ≡ (r.rear + k) % r.size
      cell k =
          sym (mod-add-mod (r.front + get_use_size r) r.size k)
          ∙ ap (λ e. (e + k) % r.size) (front-add-use v)

  received-use : get_use_size received_ring ≡ get_use_size r + length bs
  unfolding received_ring
  received-use =
      use-of-rear r.size r.front (get_use_size r + length bs) ((r.rear + length bs) % r.size) after
        v.front_in (omega (arith, use-add-free_size v))
        (ap (λ k. (k + length bs) % r.size) (sym (front-add-use v))
          ∙ mod-add-mod (r.front + get_use_size r) r.size (length bs)
          ∙ ap (λ k. k % r.size) (add_assoc r.front (get_use_size r) (length bs)))

  received-contents : contents received_ring ≡ contents r ++ bs
  unfolding received_ring
  received-contents =
      ap (window after r.size r.front) received-use
      ∙ window-add after r.size r.front (get_use_size r) (length bs)
      ∙ ap₂ ◌++◌ (window_ext after r.buffer r.size r.front (get_use_size r) held)
          (window_of_cells after r.size (r.front + get_use_size r) bs received_cell)
    where
      held :
          (k : ℕ)
          → k < get_use_size r
          → get_or after ((r.front + k) % r.size) 0 ≡ get_or r.buffer ((r.front + k) % r.size) 0
      held k h =
          let (outside_first, outside_second) = held_cell r k v h in
          scattered.others ((r.front + k) % r.size) outside_first outside_second

  -- A receive of bytes into the two free spans of a valid ring, in order, and `MoveRear` by their
  -- number append them to the bytes held: `MoveRear` returns that number, and the ring stays valid
  -- and keeps its size.
  pub received_refines :
      (r' : CRingBuffer) × (move_rear (record r { buffer = after }) (pos (length bs))
        ≡ some (pos (length bs), r'))
      × IsValid r'
      × (r'.size ≡ r.size)
      × (contents r' ≡ contents r ++ bs)
  unfolding received_ring move_rear get_free_size
  received_refines = (
    received_ring,
    ground (arith),
    ground (arith, mod-lt (r.rear + length bs) {m = r.size}, scattered.kept_length),
    refl,
    received-contents,
  )
