-- ===== src/RingBuffer/Valid.antt =====
-- The representation invariant of a ring, its sizes, and the bytes that it holds.
use native.Mathlib.Nat.{mod-eq_of_lt, mod-eq-sub-mod}
use game_server_portfolio.Base.{ℕ, ◌+◌, ◌-◌, ◌%◌, ◌<◌, ◌≡◌, List, [], arith, length}
use game_server_portfolio.RingBuffer.{
  CRingBuffer, create, get_buffer_size, get_use_size, get_free_size, clear_buffer,
}
use game_server_portfolio.RingBuffer.Window.{window, length-window}

pub record IsValid (r : CRingBuffer) : Type 0 where
  pub storage : length r.buffer ≡ r.size
  pub front_in : r.front < r.size
  pub rear_in : r.rear < r.size

-- what a client sees of a ring: its bytes, oldest first
abbrev pub contents : CRingBuffer → List ℕ
contents r = window r.buffer r.size r.front (get_use_size r)

pub length-contents : (r : CRingBuffer) → length (contents r) ≡ get_use_size r
length-contents r = length-window r.buffer r.size r.front (get_use_size r)

-- The bytes held and the free ones make up the size that the ring was created with.
pub use-add-free :
    {r : CRingBuffer} → IsValid r → get_use_size r + get_free_size r ≡ get_buffer_size r
unfolding get_use_size get_free_size get_buffer_size
use-add-free v = ground arith

-- One cell is never used.
pub use-add-free_size :
    {r : CRingBuffer} → IsValid r → get_use_size r + get_free_size r + 1 ≡ r.size
unfolding get_use_size get_free_size
use-add-free_size v = ground arith

pub use-lt-size : {r : CRingBuffer} → IsValid r → get_use_size r < r.size
unfolding get_use_size
use-lt-size v = ground arith

-- The end of the contents is where the next byte goes.
pub front-add-use : {r : CRingBuffer} → IsValid r → (r.front + get_use_size r) % r.size ≡ r.rear
unfolding get_use_size
front-add-use {r} v = ground (
  arith,
  mod-eq_of_lt {n = r.rear} {m = r.size},
  mod-eq_of_lt {n = r.front + (r.rear - r.front)} {m = r.size},
  mod-eq-sub-mod {n = r.front + (r.size - r.front + r.rear)} {m = r.size},
  mod-eq_of_lt {n = r.front + (r.size - r.front + r.rear) - r.size} {m = r.size},
)

-- The bytes held are counted by the way from front to rear.
pub use-of-rear :
    (s f u e : ℕ) (buf : List ℕ)
    → f < s
    → u < s
    → e ≡ (f + u) % s
    → get_use_size (record { size = s; front = f; rear = e; buffer = buf }) ≡ u
unfolding get_use_size
use-of-rear s f u e buf hf hu h = ground (
  arith,
  mod-eq_of_lt {n = f + u} {m = s},
  mod-eq-sub-mod {n = f + u} {m = s},
  mod-eq_of_lt {n = f + u - s} {m = s},
)

pub create-IsValid :
    (n : ℕ) (fresh : List ℕ)
    → length fresh ≡ n + 1
    → IsValid (create n fresh)
      × (contents (create n fresh) ≡ [])
      × (get_free_size (create n fresh) ≡ n)
unfolding create get_use_size get_free_size
create-IsValid n fresh h = ground arith

pub clear_buffer-IsValid :
    {r : CRingBuffer} → IsValid r → IsValid (clear_buffer r) × (contents (clear_buffer r) ≡ [])
unfolding clear_buffer get_use_size
clear_buffer-IsValid v = ground arith
