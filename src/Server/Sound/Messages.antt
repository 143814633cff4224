-- ===== src/Server/Sound/Messages.antt =====
-- From a message to the reply: Contents/Lobby.cpp, Packet/PacketProcess_Auto.cpp and `SendPacket`.
use game_server_portfolio.Base.{
  Bool-cases, ℕ, zero, suc, ◌≡◌, inl, inr, List, ◌==◌, if◌then◌else◌, ℤ, pos, negsuc, refl, subst,
  arith, Option-cases,
}
use game_server_portfolio.RingBuffer.{enqueue}
use game_server_portfolio.Packet.{CPacket, create_default, read_value}
use game_server_portfolio.Server.State.{Server, session_at, set_session, is_active}
use game_server_portfolio.Server.Lobby.{find_user}
use game_server_portfolio.Server.Manager.{get_session_pointer}
use game_server_portfolio.Server.Io.{request_disconnect, post_send, send_packet}
use game_server_portfolio.Server.Message.{
  msg_size, mp_echo, chat_unicast, on_echo, dispatch_echo, process, on_message,
}
use game_server_portfolio.Server.Sound.{Held, Sound}
use game_server_portfolio.Server.Sound.Release.{request_disconnect-Sound}
use game_server_portfolio.Server.Sound.Post.{same-Sound, post_send-Sound}

-- the end of `SendPacket`
abbrev pub queued : Server → ℕ → ℕ → ℤ → Server
queued v i n (pos m) = if m == n then (post_send v i).1 else request_disconnect v i
queued v i n (negsuc m) = request_disconnect v i

queued-Sound : (v : Server) (h : Held) (i n : ℕ) (put : ℤ) → Sound v h → Sound (queued v i n put) h
queued-Sound v h i n (negsuc m) s = request_disconnect-Sound v h i s
queued-Sound v h i n (pos m) s = elim (Bool-cases (m == n)) [
  | inl all ↦
      let e : (post_send v i).1 ≡ queued v i n (pos m) = ground (arith, all) in
      subst (λ u. Sound u h) e (post_send-Sound v h i s)
  | inr some_left ↦
      let e : request_disconnect v i ≡ queued v i n (pos m) = ground (arith, some_left) in
      subst (λ u. Sound u h) e (request_disconnect-Sound v h i s)
]

send_packet-Sound :
    (v : Server) (h : Held) (i : ℕ) (packet : CPacket)
    → Sound v h
    → Sound (send_packet v i packet) h
unfolding send_packet is_active
send_packet-Sound v h i packet s = elim (Bool-cases (is_active (session_at v i))) [
  | inr off ↦ let e : v ≡ send_packet v i packet = ground (arith, off) in subst (λ u. Sound u h) e s
  | inl on ↦
      let sess = session_at v i in
      let put = (enqueue sess.send_q packet.buffer (pos packet.data_size)).0 in
      let q = (enqueue sess.send_q packet.buffer (pos packet.data_size)).1 in
      let v' = set_session v i (record sess { send_q = q }) in
      let s' : Sound v' h =
        same-Sound v h i (record sess { send_q = q }) refl refl refl refl refl s in
      let e : queued v' i packet.data_size put ≡ send_packet v i packet = ground (arith, on) in
      subst (λ u. Sound u h) e (queued-Sound v' h i packet.data_size put s')
]

module _ (fresh : List ℕ) (garbage : ℕ) where
  chat_unicast-Sound :
      (v : Server) (h : Held) (user_id msg : ℕ)
      → Sound v h
      → Sound (chat_unicast fresh garbage v user_id msg) h
  unfolding chat_unicast
  chat_unicast-Sound v h user_id msg s = elim (Option-cases (find_user user_id v.users)) [
    | inl e ↦
        let same : v ≡ chat_unicast fresh garbage v user_id msg = ground (arith, e) in
        subst (λ u. Sound u h) same s
    | inr (user, e) ↦ elim (Option-cases (get_session_pointer v user.session_id)) [
      | inl e' ↦
          let same : v ≡ chat_unicast fresh garbage v user_id msg = ground (arith, e, e') in
          subst (λ u. Sound u h) same s
      | inr (i, e') ↦
          let packet = mp_echo (create_default fresh) msg in
          let same : send_packet v i packet ≡ chat_unicast fresh garbage v user_id msg =
            ground (arith, e, e') in
          subst (λ u. Sound u h) same (send_packet-Sound v h i packet s)
    ]
  ]

  on_echo-Sound :
      (v : Server) (h : Held) (session_id msg : ℕ)
      → Sound v h
      → Sound (on_echo fresh garbage v session_id msg) h
  unfolding on_echo
  on_echo-Sound v h session_id msg s = elim (Option-cases (get_session_pointer v session_id)) [
    | inl e ↦
        let same : v ≡ on_echo fresh garbage v session_id msg = ground (arith, e) in
        subst (λ u. Sound u h) same s
    | inr (i, e) ↦
        let id = (session_at v i).user_id in
        let same : chat_unicast fresh garbage v id msg ≡ on_echo fresh garbage v session_id msg =
          ground (arith, e) in
        subst (λ u. Sound u h) same (chat_unicast-Sound v h id msg s)
  ]

  process-Sound :
      (v : Server) (h : Held) (type session_id : ℕ) (packet : CPacket)
      → Sound v h
      → Sound (process fresh garbage v type session_id packet) h
  unfolding process dispatch_echo
  process-Sound v h zero session_id packet s =
      on_echo-Sound v h session_id (read_value msg_size packet garbage).0 s
  process-Sound v h (suc type) session_id packet s = s

  pub on_message-Sound :
      (v : Server) (h : Held) (i type : ℕ) (packet : CPacket)
      → Sound v h
      → Sound (on_message fresh garbage v i type packet) h
  unfolding on_message
  on_message-Sound v h i type packet s = process-Sound v h type (session_at v i).id packet s
