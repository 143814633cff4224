-- ===== src/Server/Io.antt =====
-- NetLib/Session.cpp: the counts of operations in flight, and the calls of `WSARecv` and `WSASend`.
-- A call that is not accepted is one that returns an error other than WSA_IO_PENDING.
use game_server_portfolio.Base.{
  ℕ, zero, suc, ◌-◌, Bool, true, false, List, ◌∷◌, ◌++◌, ◌&&◌, not, ℤ, pos, negsuc, ◌==◌,
  if◌then◌else◌,
}
pub use game_server_portfolio.Base.{inc, dec}
use game_server_portfolio.RingBuffer.{CRingBuffer, get_use_size, direct_dequeue_size, enqueue}
use game_server_portfolio.Bytes.{span}
use game_server_portfolio.Packet.{CPacket}
use game_server_portfolio.Server.State.{
  IoType, io_recv, io_send, Server, session_at, set_session, is_active, verdict, asked,
}
use game_server_portfolio.Server.Manager.{disconnect_session}

abbrev pub below_one : ℤ → Bool
below_one (pos zero) = true
below_one (pos (suc n)) = false
below_one (negsuc n) = true

unfoldable pub request_disconnect : Server → ℕ → Server
request_disconnect v i = set_session v i (record (session_at v i) { disconnect_requested = true })

unfoldable pub increment_ref_count : Server → ℕ → Server
increment_ref_count v i =
    let s = session_at v i in set_session v i (record s { ref_count = inc s.ref_count })

-- Whether the session was released.
unfoldable pub decrement_ref_count : Server → ℕ → Bool × Server
decrement_ref_count v i =
    let s = session_at v i in
    let count = dec s.ref_count in
    let v' = set_session v i (record s { ref_count = count }) in
    if s.disconnect_requested && below_one count
    then (true, disconnect_session v' s.id)
    else (false, v')

unfoldable pub decrement_ref_count_and_release : Server → ℕ → Server
unfolding request_disconnect
decrement_ref_count_and_release v i =
    let s = session_at v i in
    let count = dec s.ref_count in
    let v' = set_session v i (record s { ref_count = count }) in
    if below_one count then disconnect_session v' s.id else request_disconnect v' i

-- An accepted operation is in flight.
unfoldable pub post : Server → ℕ → IoType → Server
post v i type = record v {
  sockets = record (v.sockets) { pending = (i, type) ∷ v.sockets.pending };
}

abbrev pub ask : Server → Server
ask v = record v { sockets = asked v.sockets }

unfoldable pub post_recv : Server → ℕ → Bool × Server
unfolding increment_ref_count post
post_recv v i =
    let v₁ = increment_ref_count v i in
    if not (is_active (session_at v i))
    then (false, v)
    else if verdict v.sockets.accepted
    then (true, post (ask v₁) i io_recv)
    else (false, decrement_ref_count_and_release (ask v₁) i)

-- the bytes of the two buffers that are handed to `WSASend`
unfoldable pub send_buffers : CRingBuffer → List ℕ
send_buffers q =
    let direct = direct_dequeue_size q in
    span q.buffer q.front direct ++ span q.buffer 0 (get_use_size q - direct)

-- `WSASend` of these bytes on the session's socket
unfoldable pub log_send : Server → ℕ → List ℕ → Server
log_send v socket bytes = record v {
  sockets = record (v.sockets) { sent = (socket, bytes) ∷ v.sockets.sent };
}

unfoldable pub post_send : Server → ℕ → Bool × Server
unfolding increment_ref_count post log_send
post_send v i =
    let s = session_at v i in
    let v₁ = increment_ref_count v i in
    let v₂ = set_session v₁ i (record (session_at v₁ i) { is_sending = true }) in
    if not (is_active s)
    then (false, v)
    else if s.is_sending
    then (false, v)
    else if verdict v.sockets.accepted
    then (true, post (log_send (ask v₂) s.socket (send_buffers s.send_q)) i io_send)
    else (false, decrement_ref_count_and_release (ask v₂) i)

-- The packet's bytes are taken from the start of its buffer.
unfoldable pub send_packet : Server → ℕ → CPacket → Server
unfolding request_disconnect
send_packet v i packet =
    let s = session_at v i in
    let (put, q) = enqueue s.send_q packet.buffer (pos packet.data_size) in
    let v' = set_session v i (record s { send_q = q }) in
    if not (is_active s) then v else elim put [
      | pos n ↦ if n == packet.data_size then (post_send v' i).1 else request_disconnect v' i
      | negsuc n ↦ request_disconnect v' i
    ]
