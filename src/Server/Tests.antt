-- ===== src/Server/Tests.antt =====
-- The server on small inputs, and the theorems at inputs that meet their hypotheses.
use game_server_portfolio.Base.{
  ℕ, ◌+◌, ◌≡◌, refl, true, false, List, [], ◌∷◌, ◌++◌, none, some, pos, arith, length, replicate,
}
use game_server_portfolio.Bytes.{to_bytes, write_at}
use game_server_portfolio.RingBuffer.{CRingBuffer, get_use_size, peek}
use game_server_portfolio.RingBuffer.Valid.{IsValid, contents}
use game_server_portfolio.Packet.{CPacket, create_default, read_value}
use game_server_portfolio.Server.State.{
  io_recv, io_send, active, Sockets, Server, no_session, session_at, is_active,
}
use game_server_portfolio.Server.Manager.{
  unstarted, new_session, init_manager, create_session, disconnect_session,
}
use game_server_portfolio.Server.Io.{inc, post_send}
use game_server_portfolio.Server.Message.{msg_size, mp_echo}
use game_server_portfolio.Server.Handlers.{
  header_len, take_message, recv_loop, worker_round, on_accept,
}
use game_server_portfolio.Server.Looping.{Ends, recv_loop_terminates}
use game_server_portfolio.Server.Framing.{mp_echo-take_message, recv_loop-overflow}
use game_server_portfolio.Server.Lobby.{find_user, on_connect}
use game_server_portfolio.Server.Sending.{post_send_refines, reused-is_sending}

abbrev quiet : Sockets
quiet = record { accepted = []; pending = []; sent = []; closed = [] }

-- a server with one session, whose queues hold 31 bytes
abbrev small : Server
small = init_manager 1 (new_session 31 31 (replicate 32 0) (replicate 32 0)) (unstarted quiet)

-- the bytes received in the first session's queue
abbrev arrive : Server → List ℕ → Server
arrive v bytes =
    let s = session_at v 0 in
    record v {
      sessions =
          record s { recv_q = record (s.recv_q) { buffer = write_at s.recv_q.buffer 0 bytes } }
          ∷ [];
    }

abbrev storage : List ℕ
storage = replicate 1400 0

-- A client connects, sends an echo message of 7, and what is sent back to it is that message.
echo_runs :
    elim (worker_round storage 99
      (arrive (on_accept small 5 0) (8 ∷ 0 ∷ 7 ∷ replicate 7 0))
      0
      io_recv
      10) [ none ↦ [] | some v ↦ v.sockets.sent ]
    ≡ (5, 8 ∷ 0 ∷ 7 ∷ replicate 7 0) ∷ []
unfolding worker_round on_accept init_manager new_session create_session is_active get_use_size peek
    write_at to_bytes game_server_portfolio.Bytes.of_bytes game_server_portfolio.Packet.clear
    game_server_portfolio.RingBuffer.move_rear game_server_portfolio.RingBuffer.move_front
    game_server_portfolio.RingBuffer.get_free_size game_server_portfolio.RingBuffer.clear_buffer
    game_server_portfolio.RingBuffer.create game_server_portfolio.RingBuffer.dequeue
    game_server_portfolio.RingBuffer.dequeue_loop
    game_server_portfolio.RingBuffer.direct_dequeue_size game_server_portfolio.RingBuffer.enqueue
    game_server_portfolio.RingBuffer.enqueue_loop game_server_portfolio.RingBuffer.peek_loop
    game_server_portfolio.RingBuffer.put_byte game_server_portfolio.RingBuffer.shifted
    create_default game_server_portfolio.Packet.create game_server_portfolio.Packet.move_write_pos
    game_server_portfolio.Packet.put_bytes game_server_portfolio.Packet.put_data read_value
    game_server_portfolio.Packet.write_value game_server_portfolio.Server.Io.post_recv
    game_server_portfolio.Server.Io.decrement_ref_count
    game_server_portfolio.Server.Io.decrement_ref_count_and_release
    game_server_portfolio.Server.Io.increment_ref_count game_server_portfolio.Server.Io.log_send
    game_server_portfolio.Server.Io.post post_send
    game_server_portfolio.Server.Io.request_disconnect game_server_portfolio.Server.Io.send_buffers
    game_server_portfolio.Server.Io.send_packet game_server_portfolio.Server.Lobby.on_connect
    game_server_portfolio.Server.Lobby.create_user game_server_portfolio.Server.Lobby.emplace
    game_server_portfolio.Server.Lobby.find_user game_server_portfolio.Server.Manager.init
    game_server_portfolio.Server.Manager.get_id_lock
    game_server_portfolio.Server.Manager.get_session_pointer
    game_server_portfolio.Server.Manager.push_ids game_server_portfolio.Server.Message.chat_unicast
    game_server_portfolio.Server.Message.dispatch_echo mp_echo
    game_server_portfolio.Server.Message.on_echo game_server_portfolio.Server.Message.on_message
    game_server_portfolio.Server.Message.process game_server_portfolio.Server.Handlers.check_header
    game_server_portfolio.Server.Handlers.message_size header_len take_message
    game_server_portfolio.Server.Handlers.on_recv game_server_portfolio.Server.Handlers.recv_again
    recv_loop
echo_runs = refl

-- A message of one byte is answered with what the variable held.
short_runs :
    elim (worker_round storage 99 (arrive (on_accept small 5 0) (1 ∷ 0 ∷ 7 ∷ [])) 0 io_recv 3) [
      | none ↦ []
      | some v ↦ v.sockets.sent
    ]
    ≡ (5, 8 ∷ 0 ∷ 99 ∷ replicate 7 0) ∷ []
unfolding worker_round on_accept init_manager new_session create_session is_active get_use_size peek
    write_at to_bytes game_server_portfolio.Bytes.of_bytes game_server_portfolio.Packet.clear
    game_server_portfolio.RingBuffer.move_rear game_server_portfolio.RingBuffer.move_front
    game_server_portfolio.RingBuffer.get_free_size game_server_portfolio.RingBuffer.clear_buffer
    game_server_portfolio.RingBuffer.create game_server_portfolio.RingBuffer.dequeue
    game_server_portfolio.RingBuffer.dequeue_loop
    game_server_portfolio.RingBuffer.direct_dequeue_size game_server_portfolio.RingBuffer.enqueue
    game_server_portfolio.RingBuffer.enqueue_loop game_server_portfolio.RingBuffer.peek_loop
    game_server_portfolio.RingBuffer.put_byte game_server_portfolio.RingBuffer.shifted
    create_default game_server_portfolio.Packet.create game_server_portfolio.Packet.move_write_pos
    game_server_portfolio.Packet.put_bytes game_server_portfolio.Packet.put_data read_value
    game_server_portfolio.Packet.write_value game_server_portfolio.Server.Io.post_recv
    game_server_portfolio.Server.Io.decrement_ref_count
    game_server_portfolio.Server.Io.decrement_ref_count_and_release
    game_server_portfolio.Server.Io.increment_ref_count game_server_portfolio.Server.Io.log_send
    game_server_portfolio.Server.Io.post post_send
    game_server_portfolio.Server.Io.request_disconnect game_server_portfolio.Server.Io.send_buffers
    game_server_portfolio.Server.Io.send_packet game_server_portfolio.Server.Lobby.on_connect
    game_server_portfolio.Server.Lobby.create_user game_server_portfolio.Server.Lobby.emplace
    game_server_portfolio.Server.Lobby.find_user game_server_portfolio.Server.Manager.init
    game_server_portfolio.Server.Manager.get_id_lock
    game_server_portfolio.Server.Manager.get_session_pointer
    game_server_portfolio.Server.Manager.push_ids game_server_portfolio.Server.Message.chat_unicast
    game_server_portfolio.Server.Message.dispatch_echo mp_echo
    game_server_portfolio.Server.Message.on_echo game_server_portfolio.Server.Message.on_message
    game_server_portfolio.Server.Message.process game_server_portfolio.Server.Handlers.check_header
    game_server_portfolio.Server.Handlers.message_size header_len take_message
    game_server_portfolio.Server.Handlers.on_recv game_server_portfolio.Server.Handlers.recv_again
    recv_loop
short_runs = refl

abbrev ring_of : List ℕ → CRingBuffer
ring_of bytes = record {
  size = length bytes + 1;
  front = 0;
  rear = length bytes;
  buffer = bytes ++ 0 ∷ [];
}

abbrev echo_bytes : List ℕ
echo_bytes = 8 ∷ 0 ∷ 7 ∷ replicate 7 0 ++ 8 ∷ []

mp_echo-take_message_example :
    (header_len (ring_of echo_bytes) ≡ pos msg_size)
    × (packet : CPacket) × (q' : CRingBuffer) × (take_message storage 99
          (ring_of echo_bytes)
          (header_len (ring_of echo_bytes))
        ≡ some (packet, q'))
    × ((read_value msg_size packet 99).0 ≡ 7)
    × IsValid q'
    × (contents q' ≡ 8 ∷ [])
unfolding mp_echo game_server_portfolio.Packet.write_value get_use_size
    game_server_portfolio.Packet.put_data game_server_portfolio.Packet.clear create_default to_bytes
    write_at
mp_echo-take_message_example =
    mp_echo-take_message storage storage 99 7 (ring_of echo_bytes) (8 ∷ []) refl refl (omega arith)
      (record { storage = refl; front_in = omega arith; rear_in = omega arith }) refl

-- The header says 1401, and as many bytes have come in.
abbrev flooded : Server
flooded = record small {
  sessions = record no_session { recv_q = ring_of (121 ∷ 5 ∷ replicate 1401 0) } ∷ [];
}

recv_loop-overflow_example : recv_loop storage 99 1 flooded 0 ≡ none
unfolding header_len game_server_portfolio.Bytes.of_bytes peek get_use_size
recv_loop-overflow_example =
    recv_loop-overflow storage 99 0 1401 flooded 0
      (record { storage = refl; front_in = omega arith; rear_in = omega arith }) refl (omega arith)
      (omega arith) (omega arith)

-- an active session with three bytes to send, and one that is sending
abbrev waiting : Server
waiting = record {
  sessions =
      record no_session { state = active; socket = 5; send_q = ring_of (1 ∷ 2 ∷ 3 ∷ []) } ∷ [];
  session_id_stack = [];
  users = [];
  user_id_count = 1;
  sockets = quiet;
}

abbrev sending : Server
sending = record waiting { sessions = record (session_at waiting 0) { is_sending = true } ∷ [] }

post_send_refines_example :
    let s = session_at waiting 0 in
    let (posted, v') = post_send waiting 0 in
    (posted ≡ true)
    × (v'.sockets.sent ≡ (s.socket, contents s.send_q) ∷ waiting.sockets.sent)
    × (v'.sockets.pending ≡ (0, io_send) ∷ waiting.sockets.pending)
    × (session_at v' 0 ≡ record s { ref_count = inc s.ref_count; is_sending = true })
unfolding is_active
post_send_refines_example =
    post_send_refines waiting 0 (omega arith) refl refl refl
      (record { storage = refl; front_in = omega arith; rear_in = omega arith })

reused-is_sending_example :
    (v' : Server) × (create_session (disconnect_session sending 0) 6 0 ≡ some (0, v'))
    × (is_active (session_at v' 0) ≡ true)
    × (post_send v' 0 ≡ (false, v'))
reused-is_sending_example = reused-is_sending sending 0 6 0 (omega arith) refl

-- a receive queue with an echo message and one byte of the next
abbrev received : Server
received = record waiting {
  sessions = record no_session { recv_q = ring_of (8 ∷ 0 ∷ 7 ∷ replicate 8 0) } ∷ [];
}

recv_loop_terminates_example :
    (recv_loop storage 99 20 received 0 ≡ recv_loop storage 99 12 received 0)
    × Ends 0 (recv_loop storage 99 20 received 0)
unfolding get_use_size
recv_loop_terminates_example =
    recv_loop_terminates storage 99 20 received 0
      (record { storage = refl; front_in = omega arith; rear_in = omega arith }) (omega arith)
