-- ===== src/Server/Stream.antt =====
-- NetLib/Session.cpp: what the handlers do to the rings of the sessions, and to the bytes that a send
-- queue holds.
pub mod Rounds
pub mod Sends
pub mod Accept
pub mod Steps
pub mod Flight
mod Tests
use native.Mathlib.Decide.{dec_lt}
use game_server_portfolio.Base.{
  ap, sym, ◌∙◌, refl, subst, ℕ, zero, suc, ◌≡◌, min, List, [], ◌∷◌, ◌++◌, append-nil, append_assoc,
  length, take, drop, pos, arith,
}
use game_server_portfolio.RingBuffer.{CRingBuffer, get_free_size, put_byte, enqueue, enqueue_loop}
use game_server_portfolio.RingBuffer.Valid.{IsValid, contents, use-add-free_size}
use game_server_portfolio.RingBuffer.Enqueue.{enqueue_loop-Appends}
use game_server_portfolio.Server.State.{Session}
use game_server_portfolio.Server.Frame.{Books, Frame}

-- A ring that is still valid, and of the size that it had.
pub record Kept (q q' : CRingBuffer) : Type 0 where
  pub valid : IsValid q'
  pub size_is : q'.size ≡ q.size

-- This many bytes have left the front of a ring, and some have come behind the others.
abbrev pub Moves : ℕ → CRingBuffer → CRingBuffer → Type 0
Moves k q q' = Kept q q' × (put : List ℕ) × (contents q' ≡ drop k (contents q) ++ put)

-- A session whose receive ring has stayed valid, and this many bytes of whose send ring have gone.
abbrev pub Flows : ℕ → Session → Session → Type 0
Flows k s t =
    (IsValid s.recv_q → Kept s.recv_q t.recv_q) × (IsValid s.send_q → Moves k s.send_q t.send_q)

pub Kept-refl : (q : CRingBuffer) → IsValid q → Kept q q
Kept-refl q v = record { valid = v; size_is = refl }

pub Kept-trans : (q q' q'' : CRingBuffer) → Kept q q' → Kept q' q'' → Kept q q''
Kept-trans q q' q'' a b = record { valid = b.valid; size_is = b.size_is ∙ a.size_is }

pub Moves-refl : (q : CRingBuffer) → IsValid q → Moves 0 q q
Moves-refl q v = (Kept-refl q v, [], sym (append-nil (contents q)))

pub Flows-trans : (k : ℕ) (s t u : Session) → Flows k s t → Flows 0 t u → Flows k s u
Flows-trans k s t u (a, b) (a', b') = (
  λ v. let first = a v in Kept-trans s.recv_q t.recv_q u.recv_q first (a' first.valid),
  λ v.
      let (kept, put, e) = b v in
      let (kept', put', e') = b' kept.valid in
      (
        Kept-trans s.send_q t.send_q u.send_q kept kept',
        put ++ put',
        e' ∙ ap (λ bs. bs ++ put') e ∙ append_assoc (drop k (contents s.send_q)) put put',
      ),
)

enqueue_loop_short :
    (n : ℕ) (bs : List ℕ) (r : CRingBuffer)
    → enqueue_loop n bs r ≡ enqueue_loop (min n (length bs)) bs r
unfolding enqueue_loop
enqueue_loop_short zero bs r =
    ap (λ k. enqueue_loop k bs r) (let e : 0 ≡ min 0 (length bs) = omega arith in e)
enqueue_loop_short (suc n) [] r =
    ap (λ k. enqueue_loop k [] r) (let e : 0 ≡ min (suc n) 0 = omega arith in e)
enqueue_loop_short (suc n) (x ∷ bs) r =
    enqueue_loop_short n bs (put_byte r x)
    ∙ ap (λ k. enqueue_loop k (x ∷ bs) r)
        (let e : suc (min n (length bs)) ≡ min (suc n) (suc (length bs)) = omega arith in e)

-- `Enqueue`, whatever it is given.
enqueue-Moves :
    (q : CRingBuffer) (bs : List ℕ) (n : ℕ) → IsValid q → Moves 0 q (enqueue q bs (pos n)).1
unfolding enqueue
enqueue-Moves q bs n v = elim (dec_lt (get_free_size q) n) [
  | yes full ↦
      subst (Moves 0 q) (let e : q ≡ (enqueue q bs (pos n)).1 = ground (arith, full) in e)
        (Moves-refl q v)
  | no fits ↦
      let m = min n (length bs) in
      let a = enqueue_loop-Appends m bs q v (omega arith) (omega (arith, use-add-free_size v)) in
      let e : enqueue_loop m bs q ≡ (enqueue q bs (pos n)).1 =
        sym (enqueue_loop_short n bs q) ∙ ground (arith, fits) in
      subst (Moves 0 q) e (record { valid = a.valid; size_is = a.size_kept }, take m bs, a.bytes)
]

pub Flows-books : (s t : Session) → t.recv_q ≡ s.recv_q → t.send_q ≡ s.send_q → Flows 0 s t
Flows-books s t e e' = (
  λ v. subst (Kept s.recv_q) (sym e) (Kept-refl s.recv_q v),
  λ v. subst (Moves 0 s.send_q) (sym e') (Moves-refl s.send_q v),
)

pub Flows-Frame : Frame (Flows 0)
Flows-Frame = record {
  base = record { along = λ s t u a b. Flows-trans 0 s t u a b; books = Flows-books };
  enqueues = λ s bytes n. (λ v. Kept-refl s.recv_q v, λ v. enqueue-Moves s.send_q bytes n v);
}

-- What leaves both rings as they are.
pub SameRings-Books : Books (λ s t. (t.recv_q ≡ s.recv_q) × (t.send_q ≡ s.send_q))
SameRings-Books = record {
  along = λ s t u a b. (b.0 ∙ a.0, b.1 ∙ a.1);
  books = λ s t e e'. (e, e');
}
