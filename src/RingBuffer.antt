-- ===== src/RingBuffer.antt =====
-- iocp-chatting-server/Util/CRingBuffer.{h,cpp}: a byte ring with one cell kept free. The lock of
-- the source is left out: a call runs alone. Indices are numbers; a step that would leave an index
-- negative is `none` (`shifted`).
pub mod Window
pub mod Valid
pub mod Enqueue
pub mod Dequeue
pub mod Direct
pub mod Receive
pub mod Send
pub mod Rewind
mod Tests
use game_server_portfolio.Base.{
  ℕ, zero, suc, ◌+◌, ◌-◌, ◌%◌, Option, none, some, List, [], ◌∷◌, ◌||◌, ℤ, pos, negsuc, pos_part,
  ltb, leb, ltb_ℤ, ◌==◌, if◌then◌else◌, get_or, set,
}
use mathlib.Core.Option

pub record CRingBuffer : Type 0 where
  pub size : ℕ
  pub front : ℕ
  pub rear : ℕ
  pub buffer : List ℕ

abbrev pub buffer_size : ℕ
buffer_size = 1460

-- `fresh` is what `new char[size_]` returns: its bytes are arbitrary.
unfoldable pub create : ℕ → List ℕ → CRingBuffer
create i_buffer_size fresh = record {
  size = i_buffer_size + 1;
  front = 0;
  rear = 0;
  buffer = fresh;
}

unfoldable pub create_default : List ℕ → CRingBuffer
unfolding create
create_default fresh = create buffer_size fresh

unfoldable pub get_buffer_size : CRingBuffer → ℕ
get_buffer_size r = r.size - 1

unfoldable pub get_use_size : CRingBuffer → ℕ
get_use_size r = if leb r.front r.rear then r.rear - r.front else r.size - r.front + r.rear

unfoldable pub get_free_size : CRingBuffer → ℕ
get_free_size r =
    if leb r.front r.rear then r.size - (r.rear - r.front) - 1 else r.front - r.rear - 1

-- one round of the loop of `Enqueue`
unfoldable pub put_byte : CRingBuffer → ℕ → CRingBuffer
put_byte r x = record r { rear = (r.rear + 1) % r.size; buffer = set r.buffer r.rear x }

-- The rounds left, and what is left of `chpData`.
unfoldable pub enqueue_loop : ℕ → List ℕ → CRingBuffer → CRingBuffer
unfolding put_byte
enqueue_loop zero chp_data r = r
enqueue_loop (suc n) [] r = r
enqueue_loop (suc n) (x ∷ chp_data) r = enqueue_loop n chp_data (put_byte r x)

unfoldable pub enqueue : CRingBuffer → List ℕ → ℤ → ℤ × CRingBuffer
enqueue r chp_data i_size =
    if ltb_ℤ (pos (get_free_size r)) i_size
    then (pos 0, r)
    else (i_size, enqueue_loop (pos_part i_size) chp_data r)

unfoldable pub enqueue_lock : CRingBuffer → List ℕ → ℤ → ℤ × CRingBuffer
enqueue_lock r chp_data i_size =
    if ltb_ℤ (pos (get_free_size r)) i_size
    then (pos 0, r)
    else (i_size, enqueue_loop (pos_part i_size) chp_data r)

-- The bytes written to `chpDest`, in order, and the ring.
unfoldable pub dequeue_loop : ℕ → CRingBuffer → List ℕ × CRingBuffer
dequeue_loop zero r = ([], r)
dequeue_loop (suc n) r =
    let (bytes, r') = dequeue_loop n (record r { front = (r.front + 1) % r.size }) in
    (get_or r.buffer r.front 0 ∷ bytes, r')

abbrev pub at_most : ℕ → ℤ → ℤ
at_most use_size i_size = if ltb_ℤ (pos use_size) i_size then pos use_size else i_size

unfoldable pub dequeue : CRingBuffer → ℤ → ℤ × List ℕ × CRingBuffer
unfolding dequeue_loop
dequeue r i_size =
    let use_size = get_use_size r in
    let n = at_most use_size i_size in
    let (bytes, r') = dequeue_loop (pos_part n) r in
    if use_size == 0 || ltb_ℤ i_size (pos 1) then (pos 0, [], r) else (n, bytes, r')

-- Here the source does not test for `iSize <= 0`.
unfoldable pub dequeue_lock : CRingBuffer → ℤ → ℤ × List ℕ × CRingBuffer
unfolding dequeue_loop
dequeue_lock r i_size =
    let use_size = get_use_size r in
    let n = at_most use_size i_size in
    let (bytes, r') = dequeue_loop (pos_part n) r in
    if use_size == 0 then (pos 0, [], r) else (n, bytes, r')

unfoldable pub peek_loop : ℕ → ℕ → CRingBuffer → List ℕ
peek_loop zero tmp_front r = []
peek_loop (suc n) tmp_front r =
    get_or r.buffer tmp_front 0 ∷ peek_loop n ((tmp_front + 1) % r.size) r

unfoldable pub peek : CRingBuffer → ℤ → ℤ × List ℕ
unfolding peek_loop
peek r i_size =
    let use_size = get_use_size r in
    let n = at_most use_size i_size in
    if use_size == 0 then (pos 0, []) else (n, peek_loop (pos_part n) r.front r)

unfoldable pub clear_buffer : CRingBuffer → CRingBuffer
clear_buffer r = record r { rear = r.front }

unfoldable pub direct_enqueue_size : CRingBuffer → ℕ
direct_enqueue_size r =
    if leb r.front r.rear
    then if r.front == 0 then r.size - r.rear - 1 else r.size - r.rear
    else r.front - r.rear - 1

unfoldable pub direct_dequeue_size : CRingBuffer → ℕ
direct_dequeue_size r = if leb r.front r.rear then r.rear - r.front else r.size - r.front

-- `(index + i) % size` of the source, whose `%` takes the sign of its left side: `none` stands for
-- a negative index.
unfoldable pub shifted : ℕ → ℤ → ℕ → Option ℕ
shifted index (pos i) size = some ((index + i) % size)
shifted index (negsuc i) size =
    if leb (suc i) index
    then some ((index - suc i) % size)
    else if (suc i - index) % size == 0
    then some 0
    else none

abbrev pub neg : ℤ → ℕ
neg (pos i) = 0
neg (negsuc i) = suc i

unfoldable pub move_rear : CRingBuffer → ℤ → Option (ℤ × CRingBuffer)
unfolding shifted
move_rear r i_size =
    if ltb (get_free_size r) (pos_part i_size) || ltb (get_use_size r) (neg i_size)
    then some (pos 0, r)
    else Option.map (λ rear. (i_size, record r { rear = rear })) (shifted r.rear i_size r.size)

unfoldable pub move_front : CRingBuffer → ℤ → Option (ℤ × CRingBuffer)
unfolding shifted
move_front r i_size =
    if ltb (get_use_size r) (pos_part i_size) || ltb (get_free_size r) (neg i_size)
    then some (pos 0, r)
    else Option.map (λ front. (i_size, record r { front = front })) (shifted r.front i_size r.size)
