-- ===== src/Server/Stable.antt =====
-- The operations of NetLib/Session.cpp and Contents/ on a whole server: what is kept by the changes of
-- a session's count and marks, by an operation posted and by `Enqueue` is kept by every operation that
-- a handler ends with.
pub mod Accept
pub mod Messages
use game_server_portfolio.Base.{
  ap, sym, ◌∙◌, get_or-set_self, length-set, length, ◌<◌, sym, refl, subst, Bool, true, false,
  Bool-cases, ℕ, ◌≡◌, inl, inr, List, ltb, ℤ, pos, arith, ◌&&◌,
}
use game_server_portfolio.RingBuffer.{enqueue, get_use_size}
use game_server_portfolio.Server.State.{
  io_recv, io_send, inactive, Session, Server, no_session, session_at, set_session, is_active,
  verdict,
}
use game_server_portfolio.Server.Lobby.{on_release}
use game_server_portfolio.Server.Manager.{disconnect_session, close_socket, clear, free_id_lock}
use game_server_portfolio.Server.Io.{
  inc, dec, send_buffers, below_one, ask, request_disconnect, increment_ref_count,
  decrement_ref_count, decrement_ref_count_and_release, post, log_send, post_recv, post_send,
}
use game_server_portfolio.Server.Handlers.{recv_again, send_rest}
use game_server_portfolio.Server.Sound.Post.{active-lt}

-- the session with these bytes put behind those to send
abbrev pub enqueue_send : Session → List ℕ → ℕ → Session
enqueue_send s bytes n = record s { send_q = (enqueue s.send_q bytes (pos n)).1 }

-- What the changes of counts and marks keep, and the operations posted.
pub record Stable (P : Server → Type 0) : Type 0 where
  pub books :
      (w : Server) (i : ℕ) (sess : Session)
      → P w
      → sess.recv_q ≡ (session_at w i).recv_q
      → sess.send_q ≡ (session_at w i).send_q
      → sess.socket ≡ (session_at w i).socket
      → P (set_session w i sess)
  pub aside :
      (w w' : Server)
      → P w
      → w'.sessions ≡ w.sessions
      → w'.sockets.pending ≡ w.sockets.pending
      → w'.sockets.sent ≡ w.sockets.sent
      → P w'
  pub received : (w : Server) (i : ℕ) → P w → P (post w i io_recv)
  pub sent :
      (w : Server) (i socket : ℕ) (bytes : List ℕ)
      → P w
      → socket ≡ (session_at w i).socket
      → bytes ≡ send_buffers (session_at w i).send_q
      → P (post (log_send w socket bytes) i io_send)

-- What the bytes put behind those to send keep, too.
pub record Writable (P : Server → Type 0) : Type 0 where
  pub base : Stable P
  pub enqueues :
      (w : Server) (i : ℕ) (bytes : List ℕ) (n : ℕ)
      → P w
      → P (set_session w i (enqueue_send (session_at w i) bytes n))

-- The session of `PostSend` when it has been counted and marked.
twice-kept :
    (w : Server) (i : ℕ)
    → i < length w.sessions
    → let w₁ =
        set_session w i (record (session_at w i) { ref_count = inc (session_at w i).ref_count }) in
      let w₂ = set_session w₁ i (record (session_at w₁ i) { is_sending = true }) in
      ((session_at w i).socket ≡ (session_at w₂ i).socket)
      × (send_buffers (session_at w i).send_q ≡ send_buffers (session_at w₂ i).send_q)
twice-kept w i lt =
    let counted : Session = record (session_at w i) {
      ref_count = inc (session_at w i).ref_count;
    } in
    let w₁ = set_session w i counted in
    let once = get_or-set_self w.sessions i counted no_session lt in
    let twice =
      get_or-set_self w₁.sessions i (record (session_at w₁ i) { is_sending = true }) no_session
        (omega (arith, lt, length-set w.sessions i counted)) in
    (
      sym (ap (λ s. s.socket) twice ∙ ap (λ s. s.socket) once),
      sym (ap (λ s. send_buffers s.send_q) twice ∙ ap (λ s. send_buffers s.send_q) once),
    )

module _ {P : Server → Type 0} (f : Stable P) where
  pub disconnect_session-Stable : (w : Server) (i : ℕ) → P w → P (disconnect_session w i)
  unfolding disconnect_session close_socket on_release clear free_id_lock
  disconnect_session-Stable w i s =
      let off : Session = record (session_at w i) { state = inactive } in
      f.aside (set_session w i off) (disconnect_session w i) (f.books w i off s refl refl refl) refl
        refl refl

  pub request_disconnect-Stable : (w : Server) (i : ℕ) → P w → P (request_disconnect w i)
  unfolding request_disconnect
  request_disconnect-Stable w i s =
      f.books w i (record (session_at w i) { disconnect_requested = true }) s refl refl refl

  ask-Stable : (w : Server) → P w → P (ask w)
  ask-Stable w s = f.aside w (ask w) s refl refl refl

  -- the session's count changed
  count-Stable :
      (w : Server) (i : ℕ) (count : ℤ)
      → P w
      → P (set_session w i (record (session_at w i) { ref_count = count }))
  count-Stable w i count s =
      f.books w i (record (session_at w i) { ref_count = count }) s refl refl refl

  pub release-Stable : (w : Server) (i : ℕ) → P w → P (decrement_ref_count_and_release w i)
  unfolding decrement_ref_count_and_release
  release-Stable w i s =
      let count = dec (session_at w i).ref_count in
      let w' = set_session w i (record (session_at w i) { ref_count = count }) in
      let s' : P w' = count-Stable w i count s in
      elim (Bool-cases (below_one count)) [
        | inl last ↦
            let e : disconnect_session w' (session_at w i).id
                ≡ decrement_ref_count_and_release w i =
              ground (arith, last) in
            subst P e (disconnect_session-Stable w' (session_at w i).id s')
        | inr more ↦
            let e : request_disconnect w' i ≡ decrement_ref_count_and_release w i =
              ground (arith, more) in
            subst P e (request_disconnect-Stable w' i s')
      ]

  pub decrement-Stable : (w : Server) (i : ℕ) → P w → P (decrement_ref_count w i).1
  unfolding decrement_ref_count
  decrement-Stable w i s =
      let count = dec (session_at w i).ref_count in
      let w' = set_session w i (record (session_at w i) { ref_count = count }) in
      let s' : P w' = count-Stable w i count s in
      elim (Bool-cases ((session_at w i).disconnect_requested && below_one count)) [
        | inl last ↦
            let e : disconnect_session w' (session_at w i).id ≡ (decrement_ref_count w i).1 =
              ground (arith, last) in
            subst P e (disconnect_session-Stable w' (session_at w i).id s')
        | inr more ↦ let e : w' ≡ (decrement_ref_count w i).1 = ground (arith, more) in subst P e s'
      ]

  pub post_recv-Stable : (w : Server) (i : ℕ) → P w → P (post_recv w i).1
  unfolding post_recv post increment_ref_count
  post_recv-Stable w i s =
      let w₁ =
        set_session w i (record (session_at w i) { ref_count = inc (session_at w i).ref_count }) in
      let s₁ : P w₁ = count-Stable w i (inc (session_at w i).ref_count) s in
      elim (Bool-cases (is_active (session_at w i))) [
        | inr off ↦ let e : w ≡ (post_recv w i).1 = ground (arith, off) in subst P e s
        | inl on ↦ elim (Bool-cases (verdict w.sockets.accepted)) [
          | inl taken ↦
              let e : post (ask w₁) i io_recv ≡ (post_recv w i).1 = ground (arith, on, taken) in
              subst P e (f.received (ask w₁) i (ask-Stable w₁ s₁))
          | inr refused ↦
              let e : decrement_ref_count_and_release (ask w₁) i ≡ (post_recv w i).1 =
                ground (arith, on, refused) in
              subst P e (release-Stable (ask w₁) i (ask-Stable w₁ s₁))
        ]
      ]

  pub post_send-Stable : (w : Server) (i : ℕ) → P w → P (post_send w i).1
  unfolding post_send post log_send increment_ref_count
  post_send-Stable w i s =
      let w₁ =
        set_session w i (record (session_at w i) { ref_count = inc (session_at w i).ref_count }) in
      let w₂ = set_session w₁ i (record (session_at w₁ i) { is_sending = true }) in
      let s₁ : P w₁ = count-Stable w i (inc (session_at w i).ref_count) s in
      let s₂ : P w₂ =
        f.books w₁ i (record (session_at w₁ i) { is_sending = true }) s₁ refl refl refl in
      elim (Bool-cases (is_active (session_at w i))) [
        | inr off ↦ let e : w ≡ (post_send w i).1 = ground (arith, off) in subst P e s
        | inl on ↦ elim (Bool-cases (session_at w i).is_sending) [
          | inl busy ↦ let e : w ≡ (post_send w i).1 = ground (arith, on, busy) in subst P e s
          | inr idle ↦ elim (Bool-cases (verdict w.sockets.accepted)) [
            | inl taken ↦
                let bytes = send_buffers (session_at w i).send_q in
                let e : post (log_send (ask w₂) (session_at w i).socket bytes) i io_send
                    ≡ (post_send w i).1 =
                  ground (arith, on, idle, taken) in
                let (at_socket, at_bytes) = twice-kept w i (active-lt w i on) in
                subst P e (
                  f.sent (ask w₂) i (session_at w i).socket bytes (ask-Stable w₂ s₂) at_socket
                    at_bytes)
            | inr refused ↦
                let e : decrement_ref_count_and_release (ask w₂) i ≡ (post_send w i).1 =
                  ground (arith, on, idle, refused) in
                subst P e (release-Stable (ask w₂) i (ask-Stable w₂ s₂))
          ]
        ]
      ]

  pub recv_again-Stable : (r : Bool × Server) (i : ℕ) → P r.1 → P (recv_again r i)
  unfolding recv_again
  recv_again-Stable (true, w) i s = s
  recv_again-Stable (false, w) i s = post_recv-Stable w i s

  pub send_rest-Stable : (w : Server) (i : ℕ) → P w → P (send_rest w i)
  unfolding send_rest
  send_rest-Stable w i s = elim (Bool-cases (ltb 0 (get_use_size (session_at w i).send_q))) [
    | inl more ↦
        let e : (post_send w i).1 ≡ send_rest w i = ground (arith, more) in
        subst P e (post_send-Stable w i s)
    | inr none_left ↦ let e : w ≡ send_rest w i = ground (arith, none_left) in subst P e s
  ]
