-- ===== src/Server/Stable/Messages.antt =====
-- `Session::SendPacket` and `Contents/ContentsProcess.cpp`: what they keep.
use game_server_portfolio.Base.{
  subst, Bool-cases, Option-cases, ℕ, zero, suc, ◌≡◌, inl, inr, List, ◌==◌, ℤ, pos, negsuc, arith,
}
use game_server_portfolio.RingBuffer.{enqueue}
use game_server_portfolio.Packet.{CPacket, create_default, read_value}
use game_server_portfolio.Server.State.{Server, session_at, set_session, is_active}
use game_server_portfolio.Server.Lobby.{find_user}
use game_server_portfolio.Server.Manager.{get_session_pointer}
use game_server_portfolio.Server.Io.{request_disconnect, post_send, send_packet}
use game_server_portfolio.Server.Message.{
  msg_size, mp_echo, chat_unicast, on_echo, dispatch_echo, process, on_message,
}
use game_server_portfolio.Server.Sound.Messages.{queued}
use game_server_portfolio.Server.Stable.{
  Writable, enqueue_send, request_disconnect-Stable, post_send-Stable,
}

module _ {P : Server → Type 0} (f : Writable P) where
  queued-Stable : (w : Server) (i n : ℕ) (put : ℤ) → P w → P (queued w i n put)
  queued-Stable w i n (negsuc m) s = request_disconnect-Stable f.base w i s
  queued-Stable w i n (pos m) s = elim (Bool-cases (m == n)) [
    | inl all ↦
        let e : (post_send w i).1 ≡ queued w i n (pos m) = ground (arith, all) in
        subst P e (post_send-Stable f.base w i s)
    | inr some_left ↦
        let e : request_disconnect w i ≡ queued w i n (pos m) = ground (arith, some_left) in
        subst P e (request_disconnect-Stable f.base w i s)
  ]

  send_packet-Stable : (w : Server) (i : ℕ) (packet : CPacket) → P w → P (send_packet w i packet)
  unfolding send_packet
  send_packet-Stable w i packet s = elim (Bool-cases (is_active (session_at w i))) [
    | inr off ↦ let e : w ≡ send_packet w i packet = ground (arith, off) in subst P e s
    | inl on ↦
        let sess = session_at w i in
        let n = packet.data_size in
        let put = (enqueue sess.send_q packet.buffer (pos n)).0 in
        let w' = set_session w i (enqueue_send sess packet.buffer n) in
        let s' : P w' = f.enqueues w i packet.buffer n s in
        let e : queued w' i n put ≡ send_packet w i packet = ground (arith, on) in
        subst P e (queued-Stable w' i n put s')
  ]

  module _ (fresh : List ℕ) (garbage : ℕ) where
    pub on_message-Stable :
        (w : Server) (i type : ℕ) (packet : CPacket)
        → P w
        → P (on_message fresh garbage w i type packet)
    unfolding on_message process dispatch_echo on_echo chat_unicast
    on_message-Stable w i (suc type) packet s = s
    on_message-Stable w i zero packet s =
        let msg = (read_value msg_size packet garbage).0 in
        let w' = on_message fresh garbage w i 0 packet in
        elim (Option-cases (get_session_pointer w (session_at w i).id)) [
          | inl e ↦ let same : w ≡ w' = ground (arith, e) in subst P same s
          | inr (k, e) ↦ elim (Option-cases (find_user (session_at w k).user_id w.users)) [
            | inl e' ↦ let same : w ≡ w' = ground (arith, e, e') in subst P same s
            | inr (user, e') ↦ elim (Option-cases (get_session_pointer w user.session_id)) [
              | inl e'' ↦ let same : w ≡ w' = ground (arith, e, e', e'') in subst P same s
              | inr (m, e'') ↦
                  let reply = mp_echo (create_default fresh) msg in
                  let same : send_packet w m reply ≡ w' = ground (arith, e, e', e'') in
                  subst P same (send_packet-Stable w m reply s)
            ]
          ]
        ]
