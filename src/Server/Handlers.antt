-- ===== src/Server/Handlers.antt =====
-- NetLib/Session.cpp and NetLib/LanServer.cpp: what a completed operation and an accepted client do.
-- `none` is undefined behaviour: a write past the end of a packet's storage, or a negative size.
use game_server_portfolio.Base.{
  ℕ, zero, suc, ◌+◌, ◌-◌, ◌%◌, ◌^◌, Bool, true, false, not, List, Option, none, some, ℤ, pos,
  negsuc, ltb, leb, ◌==◌, length, if◌then◌else◌,
}
use game_server_portfolio.RingBuffer.{
  CRingBuffer, get_use_size, peek, dequeue, move_rear, move_front,
}
use game_server_portfolio.Bytes.{of_bytes, write_at}
use game_server_portfolio.Packet.{CPacket, buffer_default, create_default, move_write_pos}
use game_server_portfolio.Server.State.{
  IoType, io_recv, io_send, Session, Server, session_at, set_session, is_active, verdict,
}
use game_server_portfolio.Server.Lobby.{on_connect}
use game_server_portfolio.Server.Manager.{create_session, disconnect_session}
use game_server_portfolio.Server.Io.{
  request_disconnect, decrement_ref_count, decrement_ref_count_and_release, post_recv, post_send,
  ask,
}
use game_server_portfolio.Server.Message.{header_size, on_message}

-- the `short` whose two bytes these are
abbrev pub to_short : ℕ → ℤ
to_short u = if ltb u (2 ^ 15) then pos u else negsuc (2 ^ 16 - u - 1)

-- its value as a `size_t`
abbrev pub to_size : ℤ → ℕ
to_size (pos n) = n
to_size (negsuc n) = 2 ^ 64 - (n + 1)

-- the `Len` of the header at the front of the queue
unfoldable pub header_len : CRingBuffer → ℤ
header_len q = to_short (of_bytes (peek q (pos header_size)).1)

-- `sizeof(PktHeader) + header.Len`, computed in `size_t`
unfoldable pub message_size : ℤ → ℕ
message_size len = (header_size + to_size len) % 2 ^ 64

-- The source accepts every header so far.
unfoldable pub check_header : ℤ → Bool
check_header len = true

abbrev pub set_recv_q : Server → ℕ → CRingBuffer → Server
set_recv_q v i q = set_session v i (record (session_at v i) { recv_q = q })

abbrev pub set_send_q : Server → ℕ → CRingBuffer → Server
set_send_q v i q = set_session v i (record (session_at v i) { send_q = q })

-- `bytes` dequeued into the storage of a packet
abbrev pub fill : CPacket → List ℕ → CPacket
fill p bytes = record p { buffer = write_at p.buffer 0 bytes }

abbrev pub is_zero : ℤ → Bool
is_zero (pos n) = n == 0
is_zero (negsuc n) = false

-- The end of `OnRecv`.
unfoldable pub recv_again : Bool × Server → ℕ → Server
recv_again (true, v) i = v
recv_again (false, v) i = (post_recv v i).1

abbrev sent_some : Session → CRingBuffer → Session
sent_some s q = record s { send_q = q; is_sending = false }

-- The end of `OnSend`.
unfoldable pub send_rest : Server → ℕ → Server
send_rest v i = if ltb 0 (get_use_size (session_at v i).send_q) then (post_send v i).1 else v

module _ (fresh : List ℕ) (garbage : ℕ) where
  -- One message of this length, whose header is at the front of the queue: the packet made from it,
  -- and the queue behind it.
  unfoldable pub take_message : CRingBuffer → ℤ → Option (CPacket × CRingBuffer)
  take_message q len = elim (move_front q (pos header_size)) [
    | none ↦ none
    | some (_, q₁) ↦
        let (_, bytes, q₂) = dequeue q₁ len in
        if ltb buffer_default (length bytes)
        then none
        else elim (move_write_pos (fill (create_default fresh) bytes) len) [
          | none ↦ none
          | some (_, packet) ↦ some (packet, q₂)
        ]
  ]

  -- The loop of `OnRecv`, on fuel.
  unfoldable pub recv_loop : ℕ → Server → ℕ → Option Server
  recv_loop zero v i = some v
  recv_loop (suc fuel) v i =
      let q = (session_at v i).recv_q in
      let len = header_len q in
      if not (ltb header_size (get_use_size q))
      then some v
      else if not (check_header len)
      then some (request_disconnect v i)
      else if not (leb (message_size len) (get_use_size q))
      then some v
      else elim (take_message q len) [
        | none ↦ none
        | some (packet, q') ↦
            recv_loop fuel (on_message fresh garbage (set_recv_q v i q') i 0 packet) i
      ]

  -- `OnRecv`, with the fuel of `recv_loop`: each round takes two bytes at least off the queue.
  unfoldable pub on_recv : Server → ℕ → ℕ → Option Server
  unfolding recv_loop
  on_recv v i transferred = elim (move_rear (session_at v i).recv_q (pos transferred)) [
    | none ↦ none
    | some (moved, q) ↦
        let v₁ = set_recv_q v i q in
        if is_zero moved
        then some (decrement_ref_count_and_release v₁ i)
        else elim (recv_loop (suc (get_use_size q)) v₁ i) [
          | none ↦ none
          | some v₂ ↦ some (recv_again (decrement_ref_count v₂ i) i)
        ]
  ]

  -- `OnSend`
  unfoldable pub on_send : Server → ℕ → ℕ → Option Server
  on_send v i transferred =
      let (released, v₁) = decrement_ref_count v i in
      if released
      then some v₁
      else if not (is_active (session_at v₁ i))
      then some v₁
      else elim (move_front (session_at v₁ i).send_q (pos transferred)) [
        | none ↦ none
        | some (_, q) ↦ some (send_rest (set_session v₁ i (sent_some (session_at v₁ i) q)) i)
      ]

  -- One round of `LanServer::WorkerThread`, for an operation that has completed.
  unfoldable pub worker_round : Server → ℕ → IoType → ℕ → Option Server
  unfolding on_recv on_send
  worker_round v i type zero = some (decrement_ref_count_and_release v i)
  worker_round v i io_recv (suc n) = on_recv v i (suc n)
  worker_round v i io_send (suc n) = on_send v i (suc n)

-- `LanServer::OnAccept`. A verdict is asked for `CreateIoCompletionPort`, too.
unfoldable pub on_accept : Server → ℕ → ℕ → Server
on_accept v client_socket address = elim (create_session v client_socket address) [
  | none ↦ v
  | some (i, v₁) ↦
      let id = (session_at v₁ i).id in
      let (recved, v₂) = post_recv (ask v₁) i in
      let (user_id, v₃) = on_connect v₂ id in
      if not (verdict v₁.sockets.accepted)
      then disconnect_session (ask v₁) id
      else if not recved
      then v₂
      else set_session v₃ i (record (session_at v₃ i) { user_id = user_id })
]
