-- ===== src/Server/Stream/Tests.antt =====
-- A server with one session: a client connects, sends an echo message of 7, and takes the first four
-- bytes of what is sent back.
use game_server_portfolio.Base.{◌≡◌, ℕ, ◌≤◌, ◌⊎◌, refl, List, [], ◌∷◌, none, some, replicate, arith}
use game_server_portfolio.RingBuffer.Valid.{IsValid}
use game_server_portfolio.Server.State.{
  IoType, io_recv, io_send, Sockets, Session, Server, session_at, is_active,
}
use game_server_portfolio.Server.Manager.{unstarted, new_session, init_manager}
use game_server_portfolio.Server.Handlers.{worker_round, on_accept}
use game_server_portfolio.Server.Sound.Reach.{
  with_bytes, Step, accepted, completed, arrived, Steps, here, step,
}
use game_server_portfolio.Server.Stream.Flight.{CarriedAt}
use game_server_portfolio.Server.Stream.Flight.Steps.{in_flight-Carried}
use game_server_portfolio.Server.Stream.Steps.{Rings, Fate, send_q-Steps}

abbrev idle : Sockets
idle = record { accepted = []; pending = []; sent = []; closed = [] }

abbrev storage : List ℕ
storage = replicate 1400 0

abbrev made : Session
made = new_session 31 31 (replicate 32 0) (replicate 32 0)

abbrev small : Server
small = init_manager 1 made (unstarted idle)

abbrev connected : Server
connected = on_accept small 5 0

abbrev received : Server
received = with_bytes connected 0 (8 ∷ 0 ∷ 7 ∷ replicate 29 0)

-- the server when an operation, the last in flight, has completed with this many bytes
abbrev handled : Server → List (ℕ × IoType) → IoType → ℕ → Server
handled v others type n =
    elim (worker_round storage 99 (record v { sockets = record (v.sockets) { pending = others } }) 0
      type n) [ none ↦ v | some v' ↦ v' ]

abbrev echoed : Server
echoed = handled received [] io_recv 10

abbrev taken : Server
taken = handled echoed ((0, io_recv) ∷ []) io_send 4

made-Rings : IsValid made.recv_q × IsValid made.send_q
unfolding new_session game_server_portfolio.RingBuffer.create
made-Rings = ground arith

abbrev echoed_run : Steps storage 99 small echoed
unfolding worker_round on_accept init_manager new_session
    game_server_portfolio.Server.Manager.create_session is_active
    game_server_portfolio.RingBuffer.get_use_size game_server_portfolio.RingBuffer.peek
    game_server_portfolio.Bytes.write_at game_server_portfolio.Bytes.to_bytes
    game_server_portfolio.Bytes.of_bytes game_server_portfolio.Packet.clear
    game_server_portfolio.RingBuffer.move_rear game_server_portfolio.RingBuffer.move_front
    game_server_portfolio.RingBuffer.get_free_size game_server_portfolio.RingBuffer.clear_buffer
    game_server_portfolio.RingBuffer.create game_server_portfolio.RingBuffer.dequeue
    game_server_portfolio.RingBuffer.dequeue_loop
    game_server_portfolio.RingBuffer.direct_dequeue_size game_server_portfolio.RingBuffer.enqueue
    game_server_portfolio.RingBuffer.enqueue_loop game_server_portfolio.RingBuffer.peek_loop
    game_server_portfolio.RingBuffer.put_byte game_server_portfolio.RingBuffer.shifted
    game_server_portfolio.Packet.create_default game_server_portfolio.Packet.create
    game_server_portfolio.Packet.move_write_pos game_server_portfolio.Packet.put_bytes
    game_server_portfolio.Packet.put_data game_server_portfolio.Packet.read_value
    game_server_portfolio.Packet.write_value game_server_portfolio.Server.Io.post_recv
    game_server_portfolio.Server.Io.decrement_ref_count
    game_server_portfolio.Server.Io.decrement_ref_count_and_release
    game_server_portfolio.Server.Io.increment_ref_count game_server_portfolio.Server.Io.log_send
    game_server_portfolio.Server.Io.post game_server_portfolio.Server.Io.post_send
    game_server_portfolio.Server.Io.request_disconnect game_server_portfolio.Server.Io.send_buffers
    game_server_portfolio.Server.Io.send_packet game_server_portfolio.Server.Lobby.on_connect
    game_server_portfolio.Server.Lobby.create_user game_server_portfolio.Server.Lobby.emplace
    game_server_portfolio.Server.Lobby.find_user game_server_portfolio.Server.Manager.init
    game_server_portfolio.Server.Manager.get_id_lock
    game_server_portfolio.Server.Manager.get_session_pointer
    game_server_portfolio.Server.Manager.push_ids game_server_portfolio.Server.Message.chat_unicast
    game_server_portfolio.Server.Message.dispatch_echo game_server_portfolio.Server.Message.mp_echo
    game_server_portfolio.Server.Message.on_echo game_server_portfolio.Server.Message.on_message
    game_server_portfolio.Server.Message.process game_server_portfolio.Server.Handlers.check_header
    game_server_portfolio.Server.Handlers.message_size
    game_server_portfolio.Server.Handlers.header_len
    game_server_portfolio.Server.Handlers.take_message game_server_portfolio.Server.Handlers.on_recv
    game_server_portfolio.Server.Handlers.recv_again game_server_portfolio.Server.Handlers.recv_loop
echoed_run =
    step small received echoed
      (step small connected received (step small small connected (here small) (accepted small 5 0))
        (arrived connected 0 (8 ∷ 0 ∷ 7 ∷ replicate 29 0) refl))
      (completed received echoed [] [] 0 io_recv 10 refl refl)

abbrev taken_step : Step storage 99 echoed taken
unfolding worker_round on_accept init_manager new_session
    game_server_portfolio.Server.Manager.create_session is_active
    game_server_portfolio.RingBuffer.get_use_size game_server_portfolio.RingBuffer.peek
    game_server_portfolio.Bytes.write_at game_server_portfolio.Bytes.to_bytes
    game_server_portfolio.Bytes.of_bytes game_server_portfolio.Packet.clear
    game_server_portfolio.RingBuffer.move_rear game_server_portfolio.RingBuffer.move_front
    game_server_portfolio.RingBuffer.get_free_size game_server_portfolio.RingBuffer.clear_buffer
    game_server_portfolio.RingBuffer.create game_server_portfolio.RingBuffer.dequeue
    game_server_portfolio.RingBuffer.dequeue_loop
    game_server_portfolio.RingBuffer.direct_dequeue_size game_server_portfolio.RingBuffer.enqueue
    game_server_portfolio.RingBuffer.enqueue_loop game_server_portfolio.RingBuffer.peek_loop
    game_server_portfolio.RingBuffer.put_byte game_server_portfolio.RingBuffer.shifted
    game_server_portfolio.Packet.create_default game_server_portfolio.Packet.create
    game_server_portfolio.Packet.move_write_pos game_server_portfolio.Packet.put_bytes
    game_server_portfolio.Packet.put_data game_server_portfolio.Packet.read_value
    game_server_portfolio.Packet.write_value game_server_portfolio.Server.Io.post_recv
    game_server_portfolio.Server.Io.decrement_ref_count
    game_server_portfolio.Server.Io.decrement_ref_count_and_release
    game_server_portfolio.Server.Io.increment_ref_count game_server_portfolio.Server.Io.log_send
    game_server_portfolio.Server.Io.post game_server_portfolio.Server.Io.post_send
    game_server_portfolio.Server.Io.request_disconnect game_server_portfolio.Server.Io.send_buffers
    game_server_portfolio.Server.Io.send_packet game_server_portfolio.Server.Lobby.on_connect
    game_server_portfolio.Server.Lobby.create_user game_server_portfolio.Server.Lobby.emplace
    game_server_portfolio.Server.Lobby.find_user game_server_portfolio.Server.Manager.init
    game_server_portfolio.Server.Manager.get_id_lock
    game_server_portfolio.Server.Manager.get_session_pointer
    game_server_portfolio.Server.Manager.push_ids game_server_portfolio.Server.Message.chat_unicast
    game_server_portfolio.Server.Message.dispatch_echo game_server_portfolio.Server.Message.mp_echo
    game_server_portfolio.Server.Message.on_echo game_server_portfolio.Server.Message.on_message
    game_server_portfolio.Server.Message.process game_server_portfolio.Server.Handlers.check_header
    game_server_portfolio.Server.Handlers.message_size
    game_server_portfolio.Server.Handlers.header_len
    game_server_portfolio.Server.Handlers.take_message game_server_portfolio.Server.Handlers.on_recv
    game_server_portfolio.Server.Handlers.recv_again game_server_portfolio.Server.Handlers.recv_loop
taken_step = completed echoed taken ((0, io_recv) ∷ []) [] 0 io_send 4 refl refl

send_q-Steps_example : Fate storage 99 echoed taken taken_step 0
unfolding new_session is_active
send_q-Steps_example =
    send_q-Steps storage 99 1 made idle echoed taken refl refl refl made-Rings.0 made-Rings.1
      echoed_run taken_step 0

in_flight-Carried_example : CarriedAt echoed 0 × ((1 ≤ 0) ⊎ Rings made (session_at echoed 0))
unfolding new_session is_active
in_flight-Carried_example =
    in_flight-Carried storage 99 1 made idle echoed refl refl refl made-Rings.0 made-Rings.1
      echoed_run 0

-- The echo is in flight when it has been handled, and none of it has left the ring.
echo_sent : echoed.sockets.pending ≡ (0, io_recv) ∷ (0, io_send) ∷ []
unfolding worker_round on_accept init_manager new_session
    game_server_portfolio.Server.Manager.create_session is_active
    game_server_portfolio.RingBuffer.get_use_size game_server_portfolio.RingBuffer.peek
    game_server_portfolio.Bytes.write_at game_server_portfolio.Bytes.to_bytes
    game_server_portfolio.Bytes.of_bytes game_server_portfolio.Packet.clear
    game_server_portfolio.RingBuffer.move_rear game_server_portfolio.RingBuffer.move_front
    game_server_portfolio.RingBuffer.get_free_size game_server_portfolio.RingBuffer.clear_buffer
    game_server_portfolio.RingBuffer.create game_server_portfolio.RingBuffer.dequeue
    game_server_portfolio.RingBuffer.dequeue_loop
    game_server_portfolio.RingBuffer.direct_dequeue_size game_server_portfolio.RingBuffer.enqueue
    game_server_portfolio.RingBuffer.enqueue_loop game_server_portfolio.RingBuffer.peek_loop
    game_server_portfolio.RingBuffer.put_byte game_server_portfolio.RingBuffer.shifted
    game_server_portfolio.Packet.create_default game_server_portfolio.Packet.create
    game_server_portfolio.Packet.move_write_pos game_server_portfolio.Packet.put_bytes
    game_server_portfolio.Packet.put_data game_server_portfolio.Packet.read_value
    game_server_portfolio.Packet.write_value game_server_portfolio.Server.Io.post_recv
    game_server_portfolio.Server.Io.decrement_ref_count
    game_server_portfolio.Server.Io.decrement_ref_count_and_release
    game_server_portfolio.Server.Io.increment_ref_count game_server_portfolio.Server.Io.log_send
    game_server_portfolio.Server.Io.post game_server_portfolio.Server.Io.post_send
    game_server_portfolio.Server.Io.request_disconnect game_server_portfolio.Server.Io.send_buffers
    game_server_portfolio.Server.Io.send_packet game_server_portfolio.Server.Lobby.on_connect
    game_server_portfolio.Server.Lobby.create_user game_server_portfolio.Server.Lobby.emplace
    game_server_portfolio.Server.Lobby.find_user game_server_portfolio.Server.Manager.init
    game_server_portfolio.Server.Manager.get_id_lock
    game_server_portfolio.Server.Manager.get_session_pointer
    game_server_portfolio.Server.Manager.push_ids game_server_portfolio.Server.Message.chat_unicast
    game_server_portfolio.Server.Message.dispatch_echo game_server_portfolio.Server.Message.mp_echo
    game_server_portfolio.Server.Message.on_echo game_server_portfolio.Server.Message.on_message
    game_server_portfolio.Server.Message.process game_server_portfolio.Server.Handlers.check_header
    game_server_portfolio.Server.Handlers.message_size
    game_server_portfolio.Server.Handlers.header_len
    game_server_portfolio.Server.Handlers.take_message game_server_portfolio.Server.Handlers.on_recv
    game_server_portfolio.Server.Handlers.recv_again game_server_portfolio.Server.Handlers.recv_loop
echo_sent = refl
