-- ===== src/Server/Stream/Sends.antt =====
-- NetLib/Session.cpp: the rings behind `OnSend`, and so behind each round of a worker thread.
use native.Mathlib.Decide.{ℕ_discrete}
use game_server_portfolio.Base.{
  ap, sym, ◌∙◌, refl, subst, ◌⊎◌, inl, inr, ℕ, zero, suc, ◌<◌, ◌≡◌, ◌==◌, leb, if◌then◌else◌, List,
  length, pos, ℤ, arith, some, of-some, true, false, Bool-cases, Option-cases, get_or-set_self,
  get_or-set_ne,
}
use game_server_portfolio.RingBuffer.{CRingBuffer, get_use_size, move_front}
use game_server_portfolio.RingBuffer.Valid.{IsValid}
use game_server_portfolio.Server.State.{
  IoType, io_recv, io_send, Session, Server, no_session, session_at, set_session, is_active,
}
use game_server_portfolio.Server.Io.{decrement_ref_count}
use game_server_portfolio.Server.Handlers.{send_rest, on_send, worker_round}
use game_server_portfolio.Server.Stable.{decrement-Stable, release-Stable, send_rest-Stable}
use game_server_portfolio.Server.Frame.{AllOf, AllOf-refl, AllOf-Stable}
use game_server_portfolio.Server.Sound.Reach.{with_pending}
use game_server_portfolio.Server.Sound.Post.{active-lt}
use game_server_portfolio.Server.Stream.{
  Kept, Kept-refl, Moves, Flows, Flows-trans, Flows-Frame, Flows-books, SameRings-Books,
}
use game_server_portfolio.Server.Stream.Rounds.{move_front-Moves, on_recv-Flows}

-- The bytes that a completion with `n` bytes takes off the front of a slot's send ring: those of a
-- send on this slot, if the ring holds as many.
abbrev pub sent_of : IoType → ℕ → ℕ → Server → ℕ → ℕ
sent_of io_recv n i v j = 0
sent_of io_send n i v j =
    if i == j then (if leb n (get_use_size (session_at v j).send_q) then n else 0) else 0

pub sent_of-pending :
    (type : IoType) (n i : ℕ) (v : Server) (ops : List (ℕ × IoType)) (j : ℕ)
    → sent_of type n i (with_pending v ops) j ≡ sent_of type n i v j
sent_of-pending io_recv n i v ops j = refl
sent_of-pending io_send n i v ops j = refl

-- What a handler leaves of all slots.
abbrev pub Served : IoType → ℕ → ℕ → Server → Server → Type 0
Served type n i v v' = (j : ℕ) → Flows (sent_of type n i v j) (session_at v j) (session_at v' j)

-- The session was released with the operation, or had gone before.
abbrev pub Gone : Server → ℕ → Type 0
Gone v i =
    ((decrement_ref_count v i).0 ≡ true)
    ⊎ (is_active (session_at (decrement_ref_count v i).1 i) ≡ false)

-- the session of a slot when its send has completed
abbrev sent_session : Session → CRingBuffer → Session
sent_session s q = record s { send_q = q; is_sending = false }

sent-Served :
    (v v₁ : Server) (i n : ℕ) (m : ℤ) (q : CRingBuffer)
    → i < length v₁.sessions
    → AllOf (λ s t. (t.recv_q ≡ s.recv_q) × (t.send_q ≡ s.send_q)) v v₁
    → move_front (session_at v₁ i).send_q (pos n) ≡ some (m, q)
    → Served io_send n i v (set_session v₁ i (sent_session (session_at v₁ i) q))
sent-Served v v₁ i n m q lt same moved j =
    let sess = sent_session (session_at v₁ i) q in
    let w = set_session v₁ i sess in
    elim (ℕ_discrete i j) [
      | no ne ↦
          let k : 0 ≡ sent_of io_send n i v j = ground (arith, ne) in
          let there : session_at w j ≡ session_at v₁ j =
            get_or-set_ne v₁.sessions sess no_session ne in
          let (e, e') = same j in
          subst (λ k. Flows k (session_at v j) (session_at w j)) k
            (Flows-books (session_at v j) (session_at w j) (ap (λ s. s.recv_q) there ∙ e)
              (ap (λ s. s.send_q) there ∙ e'))
      | yes here ↦
          subst (λ k. Flows (sent_of io_send n i v k) (session_at v k) (session_at w k)) here at_i
    ]
  where
    at_i :
        Flows
          (sent_of io_send n i v i)
          (session_at v i)
          (session_at (set_session v₁ i (sent_session (session_at v₁ i) q)) i)
    at_i =
        let s = session_at v i in
        let (e, e') = same i in
        let taken : (if leb n (get_use_size s.send_q) then n else 0) ≡ sent_of io_send n i v i =
          ground arith in
        let moves : IsValid s.send_q
            → Moves (if leb n (get_use_size s.send_q) then n else 0) s.send_q q =
          λ valid.
            move_front-Moves s.send_q q n m valid
              (subst (λ r. move_front r (pos n) ≡ some (m, q)) e' moved) in
        let t : Session = sent_session (session_at v₁ i) q in
        let flows : Flows (if leb n (get_use_size s.send_q) then n else 0) s t =
          ((λ valid. subst (Kept s.recv_q) (sym e) (Kept-refl s.recv_q valid)), moves) in
        subst (λ k. Flows k s (session_at (set_session v₁ i t) i)) taken
          (subst (Flows (if leb n (get_use_size s.send_q) then n else 0) s)
            (sym (get_or-set_self v₁.sessions i t no_session lt)) flows)

-- nothing taken off
none-Served : (type : IoType) (i : ℕ) (v v' : Server) → AllOf (Flows 0) v v' → Served type 0 i v v'
none-Served io_recv i v v' s j = s j
none-Served io_send i v v' s j =
    let k : 0 ≡ sent_of io_send 0 i v j = ground arith in
    subst (λ k. Flows k (session_at v j) (session_at v' j)) k (s j)

module _ (fresh : List ℕ) (garbage : ℕ) where
  on_send-Served :
      (v v' : Server) (i n : ℕ)
      → on_send fresh garbage v i n ≡ some v'
      → Gone v i × AllOf (Flows 0) v v' ⊎ Served io_send n i v v'
  unfolding on_send
  on_send-Served v v' i n e =
      let v₁ = (decrement_ref_count v i).1 in
      let same =
        decrement-Stable (AllOf-Stable SameRings-Books v) v i (AllOf-refl SameRings-Books v) in
      let flows =
        decrement-Stable (AllOf-Stable Flows-Frame.base v) v i (AllOf-refl Flows-Frame.base v) in
      elim (Bool-cases (decrement_ref_count v i).0) [
        | inl released ↦
            let out : v₁ ≡ v' = ground (arith, e, released) in
            inl (inl released, subst (AllOf (Flows 0) v) out flows)
        | inr held ↦ elim (Bool-cases (is_active (session_at v₁ i))) [
          | inr off ↦
              let out : v₁ ≡ v' = ground (arith, e, held, off) in
              inl (inr off, subst (AllOf (Flows 0) v) out flows)
          | inl on ↦ elim (Option-cases (move_front (session_at v₁ i).send_q (pos n))) [
            | inl stuck ↦ ground (arith, e, held, on, stuck)
            | inr ((m, q), moved) ↦
                let w = set_session v₁ i (sent_session (session_at v₁ i) q) in
                let out : send_rest w i ≡ v' = ground (arith, e, held, on, moved) in
                let sent = sent-Served v v₁ i n m q (active-lt v₁ i on) same moved in
                let rest =
                  send_rest-Stable (AllOf-Stable Flows-Frame.base w) w i
                    (AllOf-refl Flows-Frame.base w) in
                inr (
                  subst (Served io_send n i v) out (λ j.
                    Flows-trans (sent_of io_send n i v j) (session_at v j) (session_at w j)
                      (session_at (send_rest w i) j) (sent j) (rest j)))
          ]
        ]
      ]

  pub worker_round-Served :
      (v v' : Server) (i : ℕ) (type : IoType) (n : ℕ)
      → worker_round fresh garbage v i type n ≡ some v'
      → Gone v i × AllOf (Flows 0) v v' ⊎ Served type n i v v'
  unfolding worker_round
  worker_round-Served v v' i type zero e = inr (
      none-Served type i v v' (
        subst (AllOf (Flows 0) v) (of-some e)
          (release-Stable (AllOf-Stable Flows-Frame.base v) v i (AllOf-refl Flows-Frame.base v))))
  worker_round-Served v v' i io_recv (suc n) e = inr (on_recv-Flows fresh garbage v v' i (suc n) e)
  worker_round-Served v v' i io_send (suc n) e = on_send-Served v v' i (suc n) e
