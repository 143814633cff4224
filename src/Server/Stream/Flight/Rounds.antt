-- ===== src/Server/Stream/Flight/Rounds.antt =====
-- NetLib/Session.cpp and NetLib/LanServer.cpp: the sends in flight behind one round of a worker thread.
use game_server_portfolio.Base.{
  false, ap, ◌∙◌, refl, subst, ◌⊎◌, inl, inr, ℕ, zero, suc, ◌≡◌, List, pos, arith, some, of-some,
  Bool-cases, Option-cases, ◌&&◌,
}
use game_server_portfolio.RingBuffer.{move_front}
use game_server_portfolio.Server.State.{
  IoType, io_recv, io_send, Session, Server, session_at, set_session, is_active,
}
use game_server_portfolio.Server.Lobby.{on_release}
use game_server_portfolio.Server.Manager.{disconnect_session, close_socket, clear, free_id_lock}
use game_server_portfolio.Server.Io.{dec, below_one, decrement_ref_count}
use game_server_portfolio.Server.Handlers.{send_rest, on_send, worker_round}
use game_server_portfolio.Server.Sound.{sends}
use game_server_portfolio.Server.Stable.{release-Stable, decrement-Stable, send_rest-Stable}
use game_server_portfolio.Server.Stream.Rounds.{Receivable, move_front-Moves, on_recv-Receivable}
use game_server_portfolio.Server.Stream.Flight.{
  AllCarried, set_session-AllCarried, same-AllCarried, AllCarried-Writable,
}

decrement_pending :
    (v : Server) (i : ℕ) → (decrement_ref_count v i).1.sockets.pending ≡ v.sockets.pending
unfolding decrement_ref_count disconnect_session close_socket on_release clear free_id_lock
decrement_pending v i =
    elim (Bool-cases
      ((session_at v i).disconnect_requested && below_one (dec (session_at v i).ref_count))) [
        | inl last ↦ ground (arith, last)
        | inr more ↦ ground (arith, more)
      ]

AllCarried-Receivable : Receivable AllCarried
AllCarried-Receivable = record {
  base = AllCarried-Writable;
  receives =
      λ w i q c kept. same-AllCarried w i (record (session_at w i) { recv_q = q }) refl refl c;
}

module _ (fresh : List ℕ) (garbage : ℕ) where
  on_send-AllCarried :
      (v v' : Server) (i n : ℕ)
      → sends i v.sockets.pending ≡ 0
      → AllCarried v
      → on_send fresh garbage v i n ≡ some v'
      → AllCarried v'
  unfolding on_send
  on_send-AllCarried v v' i n quiet c e =
      let v₁ = (decrement_ref_count v i).1 in
      let c₁ = decrement-Stable AllCarried-Writable.base v i c in
      let quiet₁ : sends i v₁.sockets.pending ≡ 0 = ap (sends i) (decrement_pending v i) ∙ quiet in
      elim (Bool-cases (decrement_ref_count v i).0) [
        | inl released ↦ let out : v₁ ≡ v' = ground (arith, e, released) in subst AllCarried out c₁
        | inr held ↦ elim (Bool-cases (is_active (session_at v₁ i))) [
          | inr off ↦ let out : v₁ ≡ v' = ground (arith, e, held, off) in subst AllCarried out c₁
          | inl on ↦ elim (Option-cases (move_front (session_at v₁ i).send_q (pos n))) [
            | inl stuck ↦ ground (arith, e, held, on, stuck)
            | inr ((m, q), moved) ↦
                let sess : Session = record (session_at v₁ i) { send_q = q; is_sending = false } in
                let w = set_session v₁ i sess in
                let out : send_rest w i ≡ v' = ground (arith, e, held, on, moved) in
                let (kept, _, _) = move_front-Moves (session_at v₁ i).send_q q n m (c₁ i).0 moved in
                let c₂ = set_session-AllCarried v₁ i sess (kept.valid, inl quiet₁) c₁ in
                subst AllCarried out (send_rest-Stable AllCarried-Writable.base w i c₂)
          ]
        ]
      ]

  -- A send completes when no other is in flight on its slot.
  pub worker_round-AllCarried :
      (v v' : Server) (i : ℕ) (type : IoType) (n : ℕ)
      → (type ≡ io_recv) ⊎ (sends i v.sockets.pending ≡ 0)
      → AllCarried v
      → worker_round fresh garbage v i type n ≡ some v'
      → AllCarried v'
  unfolding worker_round
  worker_round-AllCarried v v' i type zero quiet c e =
      subst AllCarried (of-some e) (release-Stable AllCarried-Writable.base v i c)
  worker_round-AllCarried v v' i io_recv (suc n) quiet c e =
      on_recv-Receivable fresh garbage AllCarried-Receivable v v' i (suc n) c e
  worker_round-AllCarried v v' i io_send (suc n) (inr quiet) c e =
      on_send-AllCarried v v' i (suc n) quiet c e
  worker_round-AllCarried v v' i io_send (suc n) (inl other) c e = cc
