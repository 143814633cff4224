-- ===== src/RingBuffer/Send.antt =====
-- The two spans that `Session::PostSend` hands over hold the bytes of the ring, in order.
use native.Mathlib.Nat.{mod-eq_of_lt, mod_self, suc-add}
use native.Mathlib.Decide.{dec_le}
use game_server_portfolio.Base.{
  ℕ, zero, suc, ◌+◌, ◌-◌, ◌≤◌, ◌<◌, ◌≡◌, refl, List, [], ◌∷◌, ◌++◌, append-nil, arith, length, take,
  drop, get_or,
}
use game_server_portfolio.RingBuffer.{CRingBuffer, get_use_size, direct_dequeue_size}
use game_server_portfolio.RingBuffer.Window.{window, window-add, window-cong}
use game_server_portfolio.RingBuffer.Valid.{IsValid, contents}

-- the bytes of one `WSABUF`: `len` of them from `offset` on
abbrev pub span : List ℕ → ℕ → ℕ → List ℕ
span buf offset len = take len (drop offset buf)

drop_cons : (buf : List ℕ) (i : ℕ) → i < length buf → drop i buf ≡ get_or buf i 0 ∷ drop (i + 1) buf
drop_cons [] i h = absurd (omega arith)
drop_cons (x ∷ buf) zero h = refl
drop_cons (x ∷ buf) (suc i) h = rw suc-add (drop_cons buf i (omega arith))

-- A window that does not go round is a span.
window-span :
    (buf : List ℕ) (s i n : ℕ) → length buf ≡ s → i + n ≤ s → window buf s i n ≡ span buf i n
window-span buf s i zero e h = refl
window-span buf s i (suc n) e h =
    ground (arith, drop_cons buf i, window-span buf s (i + 1) n e, mod-eq_of_lt {n = i} {m = s})

-- The two spans of `PostSend`, one behind the other, are the bytes held by a valid ring: nothing is
-- sent twice, and nothing is left out.
pub send_spans-contents :
    (r : CRingBuffer)
    → IsValid r
    → span r.buffer r.front (direct_dequeue_size r)
        ++ span r.buffer 0 (get_use_size r - direct_dequeue_size r)
      ≡ contents r
unfolding get_use_size direct_dequeue_size
send_spans-contents r v = elim (dec_le r.front r.rear) [
  | yes straight ↦ ground (
    arith,
    window-span r.buffer r.size r.front (r.rear - r.front) v.storage,
    append-nil (span r.buffer r.front (r.rear - r.front)),
  )
  | no round ↦ ground (
    arith,
    window-span r.buffer r.size r.front (r.size - r.front) v.storage,
    window-span r.buffer r.size 0 r.rear v.storage,
    window-add r.buffer r.size r.front (r.size - r.front) r.rear,
    window-cong r.buffer r.size r.size 0 r.rear,
    mod_self r.size,
    mod-eq_of_lt {n = 0} {m = r.size},
  )
]
