-- ===== src/Server/Sending.antt =====
-- `Session::PostSend`: what it hands to the socket, and the flag that keeps it from doing so.
use game_server_portfolio.Base.{
  ℕ, ◌<◌, ◌≡◌, refl, ap, ◌∙◌, true, false, some, ◌∷◌, arith, ◌⊎◌, inl, inr, length, length-set,
  get_or-set_self,
}
use game_server_portfolio.RingBuffer.Valid.{IsValid, contents}
use game_server_portfolio.RingBuffer.Send.{send_spans-contents}
use game_server_portfolio.Server.State.{
  io_send, Session, Server, no_session, session_at, set_session, is_active, verdict,
}
use game_server_portfolio.Server.Lobby.{on_release}
use game_server_portfolio.Server.Manager.{
  init, clear, disconnect_session, create_session, get_id_lock, free_id_lock, close_socket,
}
use game_server_portfolio.Server.Io.{
  inc, increment_ref_count, post, log_send, post_send, send_buffers,
}

-- `PostSend` while a send is under way, or on a session that is not active.
pub post_send_idle :
    (v : Server) (i : ℕ)
    → (is_active (session_at v i) ≡ false) ⊎ (session_at v i).is_sending ≡ true
    → post_send v i ≡ (false, v)
unfolding post_send
post_send_idle v i (inl h) = ground arith
post_send_idle v i (inr h) = ground arith

-- On an active session that is not sending, whose send queue is valid, a call of `PostSend` that is
-- accepted hands to the session's socket the bytes of the send queue, all of them and once, counts
-- one operation in flight more and posts it, marks the session as sending, and keeps its queues.
pub post_send_refines :
    (v : Server) (i : ℕ)
    → i < length v.sessions
    → is_active (session_at v i) ≡ true
    → (session_at v i).is_sending ≡ false
    → verdict v.sockets.accepted ≡ true
    → IsValid (session_at v i).send_q
    → let s = session_at v i in
      let (posted, v') = post_send v i in
      (posted ≡ true)
      × (v'.sockets.sent ≡ (s.socket, contents s.send_q) ∷ v.sockets.sent)
      × (v'.sockets.pending ≡ (i, io_send) ∷ v.sockets.pending)
      × (session_at v' i ≡ record s { ref_count = inc s.ref_count; is_sending = true })
unfolding post_send increment_ref_count post log_send send_buffers
post_send_refines v i h running idle accepted valid =
    let s = session_at v i in
    let once =
      get_or-set_self v.sessions i (record s { ref_count = inc s.ref_count }) no_session h in
    let v₁ = increment_ref_count v i in
    let twice =
      get_or-set_self v₁.sessions i (record (session_at v₁ i) { is_sending = true }) no_session
        (omega (arith, length-set v.sessions i (record s { ref_count = inc s.ref_count }))) in
    let marked = ap {A = Session} {B = Session} (λ x. record x { is_sending = true }) once in
    let bytes = send_spans-contents s.send_q valid in
    ground (arith, running, idle, accepted, twice, marked, bytes)

-- A slot whose session was released while a send was under way keeps `isSending_`: `Init` does not
-- reset it. The client that gets the slot next is active, but `PostSend` refuses it and changes
-- nothing.
pub reused-is_sending :
    (v : Server) (id client_socket address : ℕ)
    → id < length v.sessions
    → (session_at v id).is_sending ≡ true
    → (v' : Server) × (create_session (disconnect_session v id) client_socket address
        ≡ some (id, v'))
      × (is_active (session_at v' id) ≡ true)
      × (post_send v' id ≡ (false, v'))
unfolding disconnect_session create_session get_id_lock free_id_lock init clear close_socket
    on_release is_active
reused-is_sending v id client_socket address h flag =
    let w = disconnect_session v id in
    let fresh = init (session_at w id) client_socket id address in
    let v' = set_session (record w { session_id_stack = v.session_id_stack }) id fresh in
    let cleared : session_at w id ≡ clear (session_at v id) =
      get_or-set_self v.sessions id (clear (session_at v id)) no_session h in
    let filled : session_at v' id ≡ fresh =
      get_or-set_self w.sessions id fresh no_session
        (omega (arith, length-set v.sessions id (clear (session_at v id)))) in
    let runs : is_active (session_at v' id) ≡ true = ap is_active filled in
    let kept : (session_at v' id).is_sending ≡ true =
      ap (λ s. s.is_sending) filled ∙ ap (λ s. s.is_sending) cleared ∙ flag in
    (v', refl, runs, post_send_idle v' id (inr kept))
