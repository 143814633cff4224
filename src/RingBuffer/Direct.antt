-- ===== src/RingBuffer/Direct.antt =====
-- The spans of storage that `Session::PostRecv` and `Session::PostSend` hand to the sockets, and
-- `MoveRear` once bytes have been received into them.
use native.Mathlib.Nat.{mod-eq_of_lt, mod-eq-sub-mod}
use game_server_portfolio.Base.{ℕ, ◌+◌, ◌-◌, ◌%◌, ◌≤◌, ◌<◌, ◌≡◌, ◌⊎◌, arith}
use game_server_portfolio.RingBuffer.{CRingBuffer, get_use_size, get_free_size, direct_enqueue_size}
use game_server_portfolio.RingBuffer.Valid.{IsValid}

-- The cell of the `k`-th free byte: in the first span while that lasts, then from the start.
pub free_cell :
    (r : CRingBuffer) (k : ℕ)
    → IsValid r
    → k < get_free_size r
    → ((k < direct_enqueue_size r) × ((r.rear + k) % r.size ≡ r.rear + k) × (r.rear + k < r.size))
      ⊎ (direct_enqueue_size r ≤ k) × ((r.rear + k) % r.size ≡ k - direct_enqueue_size r)
unfolding get_free_size direct_enqueue_size
free_cell r k v h = ground (
  arith,
  mod-eq_of_lt {n = r.rear + k} {m = r.size},
  mod-eq-sub-mod {n = r.rear + k} {m = r.size},
  mod-eq_of_lt {n = r.rear + k - r.size} {m = r.size},
)

-- The two spans of `PostRecv` lie in the storage.
pub spans_in_storage :
    (r : CRingBuffer)
    → IsValid r
    → (r.rear + direct_enqueue_size r ≤ r.size)
      × (direct_enqueue_size r ≤ get_free_size r)
      × (get_free_size r - direct_enqueue_size r ≤ r.size)
unfolding get_free_size direct_enqueue_size
spans_in_storage r v = ground arith

-- The cell of the `k`-th byte held lies in neither span.
pub held_cell :
    (r : CRingBuffer) (k : ℕ)
    → IsValid r
    → k < get_use_size r
    → let c = (r.front + k) % r.size in
      ((c < r.rear) ⊎ (r.rear + direct_enqueue_size r ≤ c))
      × (get_free_size r - direct_enqueue_size r ≤ c)
unfolding get_use_size get_free_size direct_enqueue_size
held_cell r k v h = ground (
  arith,
  mod-eq_of_lt {n = r.front + k} {m = r.size},
  mod-eq-sub-mod {n = r.front + k} {m = r.size},
  mod-eq_of_lt {n = r.front + k - r.size} {m = r.size},
)
