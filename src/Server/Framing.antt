-- ===== src/Server/Framing.antt =====
-- The messages in a receive queue, and the echo packets: a header, and as many bytes as it says.
use native.Mathlib.Nat.{mod-eq_of_lt}
use game_server_portfolio.Base.{
  ℕ, suc, ◌+◌, ◌-◌, ◌^◌, ◌<◌, ◌≤◌, ◌≡◌, sym, ap, ◌∙◌, inl, inr, none, some, List, [], ◌++◌, pos,
  arith, length, take, drop, min, ap₂, take-append_left, drop-append_left, length-append,
  length-take, length-drop, append-nil, append_assoc,
}
use game_server_portfolio.Bytes.{
  write_at, to_bytes, of_bytes, length-to_bytes, of_bytes-to_bytes, length-write_at,
  span-write_at_self,
}
use game_server_portfolio.RingBuffer.{CRingBuffer, get_use_size, dequeue, peek}
use game_server_portfolio.RingBuffer.Valid.{IsValid, contents, length-contents}
use game_server_portfolio.RingBuffer.Dequeue.{dequeue_refines, move_front_refines, peek-dequeue}
use game_server_portfolio.Packet.{
  CPacket, clear, put_data, put_bytes, buffer_default, create, create_default, move_write_pos,
  read_value,
}
use game_server_portfolio.Packet.Valid
use game_server_portfolio.Packet.Stream.{write_value_fits, read_value_next}
use game_server_portfolio.Server.State.{Server, session_at}
use game_server_portfolio.Server.Message.{header_size, msg_size, mp_echo}
use game_server_portfolio.Server.Handlers.{
  header_len, take_message, fill, recv_loop, message_size, check_header,
}

-- A packet filled with as many bytes as it has been told of holds them.
fill_lem :
    (fresh bytes : List ℕ)
    → length fresh ≡ buffer_default
    → length bytes ≤ buffer_default
    → (packet : CPacket) × (move_write_pos (fill (create_default fresh) bytes) (pos (length bytes))
        ≡ some (pos (length bytes), packet))
      × Valid.IsValid packet
      × (Valid.contents packet ≡ bytes)
unfolding create_default create move_write_pos
fill_lem fresh bytes f h = (
  record {
    buffer_size = buffer_default;
    data_size = length bytes;
    last_error = (create_default fresh).last_error;
    buffer = write_at fresh 0 bytes;
    readpos = 0;
    writepos = length bytes;
  },
  ground arith,
  ground (arith, length-write_at fresh 0 bytes),
  span-write_at_self fresh 0 bytes (omega arith),
)

-- A message at the front of a queue: a header with the length of the body, and the body.
abbrev pub framed : List ℕ → List ℕ → List ℕ
framed body rest = to_bytes header_size (length body) ++ (body ++ rest)

header_len-framed :
    (q : CRingBuffer) (body rest : List ℕ)
    → IsValid q
    → length body < 2 ^ 15
    → contents q ≡ framed body rest
    → header_len q ≡ pos (length body)
unfolding header_len
header_len-framed q body rest v h e =
    let head = to_bytes header_size (length body) in
    let two = length-to_bytes header_size (length body) in
    let (_, bytes, _) = dequeue_refines q header_size v in
    let first : (peek q (pos header_size)).1 ≡ head =
      ap (λ x. x.1) (peek-dequeue q header_size v)
      ∙ bytes
      ∙ ap₂ take (sym two) e
      ∙ take-append_left head (body ++ rest) in
    let value : of_bytes head ≡ length body =
      of_bytes-to_bytes header_size (length body) (omega arith) in
    rw (first, value) (ground arith)

-- The packet that a round of `OnRecv` makes of the message at the front of the queue, and what it
-- leaves in the queue.
take_message-framed :
    (fresh : List ℕ) (garbage : ℕ) (q : CRingBuffer) (body rest : List ℕ)
    → length fresh ≡ buffer_default
    → IsValid q
    → length body ≤ buffer_default
    → contents q ≡ framed body rest
    → (packet : CPacket) × (q' : CRingBuffer) × (take_message fresh garbage q (pos (length body))
        ≡ some (packet, q'))
      × Valid.IsValid packet
      × (Valid.contents packet ≡ body)
      × IsValid q'
      × (contents q' ≡ rest)
unfolding take_message
take_message-framed fresh garbage q body rest f v h e =
    let head = to_bytes header_size (length body) in
    let two = length-to_bytes header_size (length body) in
    let held : length head + (length body + length rest) ≡ get_use_size q = omega (
      arith,
      sym (ap length e),
      length-contents q,
      length-append head (body ++ rest),
      length-append body rest,
    ) in
    elim (move_front_refines q header_size v) [
      | inr (few, _) ↦ absurd (omega arith)
      | inl (_, q₁, moved, dropped) ↦
          let after : contents q₁ ≡ body ++ rest =
            dropped.bytes ∙ ap₂ drop (sym two) e ∙ drop-append_left head (body ++ rest) in
          let use₁ : get_use_size q₁ ≡ length body + length rest =
            omega (arith, sym (ap length after), length-contents q₁, length-append body rest) in
          let (_, bytes, left) = dequeue_refines q₁ (length body) dropped.valid in
          let taken : (dequeue q₁ (pos (length body))).1 ≡ body =
            bytes ∙ ap (take (length body)) after ∙ take-append_left body rest in
          let (packet, filled, valid, holds) = fill_lem fresh body f h in
          (
            packet,
            (dequeue q₁ (pos (length body))).2,
            ground (arith, moved, taken, filled),
            valid,
            holds,
            left.valid,
            left.bytes
                ∙ ap₂ drop
                    (let all : min (length body) (get_use_size q₁) ≡ length body = ground arith in
                      all)
                    after
                ∙ drop-append_left body rest,
          )
    ]

mp_echo-framed :
    (fresh : List ℕ) (msg : ℕ)
    → length fresh ≡ buffer_default
    → Valid.contents (mp_echo (create_default fresh) msg)
      ≡ to_bytes header_size msg_size ++ to_bytes msg_size msg
unfolding mp_echo create_default create clear put_data
mp_echo-framed fresh msg f =
    let empty = create_default fresh in
    let (valid, nothing) = Valid.create-IsValid buffer_default fresh f in
    let two = length-to_bytes header_size msg_size in
    let (put, bytes) =
      Valid.put_bytes_lem empty (to_bytes header_size msg_size) valid (omega (arith, two)) in
    let (_, _, all) =
      write_value_fits msg_size (put_bytes empty (to_bytes header_size msg_size)) msg put
        (omega (arith, two)) in
    ground (arith, all, bytes, nothing)

-- An echo packet that has come in whole is taken apart as it was made: if the packet's storage has
-- its 1400 bytes and the message is an `int64_t`, then of a valid queue whose bytes begin with the
-- bytes of `mp_Echo` of the message, the header says 8, a round of `OnRecv` leaves what follows
-- in a valid queue, and the message read from the packet it makes is the message sent.
pub mp_echo-take_message :
    (fresh fresh' : List ℕ) (garbage msg : ℕ) (q : CRingBuffer) (rest : List ℕ)
    → length fresh ≡ buffer_default
    → length fresh' ≡ buffer_default
    → msg < 256 ^ msg_size
    → IsValid q
    → contents q ≡ Valid.contents (mp_echo (create_default fresh) msg) ++ rest
    → (header_len q ≡ pos msg_size)
      × (packet : CPacket) × (q' : CRingBuffer) × (take_message fresh' garbage q (header_len q)
          ≡ some (packet, q'))
      × ((read_value msg_size packet garbage).0 ≡ msg)
      × IsValid q'
      × (contents q' ≡ rest)
mp_echo-take_message fresh fresh' garbage msg q rest f f' m v e =
    let body = to_bytes msg_size msg in
    let eight = length-to_bytes msg_size msg in
    let e' : contents q ≡ framed body rest =
      e
      ∙ ap (λ es. es ++ rest) (mp_echo-framed fresh msg f)
      ∙ append_assoc (to_bytes header_size msg_size) body rest
      ∙ ap (λ n. to_bytes header_size n ++ (body ++ rest)) (sym eight) in
    let len = header_len-framed q body rest v (omega (arith, eight)) e' in
    let (packet, q', taken, valid, holds, kept, left) =
      take_message-framed fresh' garbage q body rest f' v (omega (arith, eight)) e' in
    let (read, _, _) =
      read_value_next msg_size packet garbage msg [] valid m (holds ∙ sym (append-nil body)) in
    (len ∙ ap pos eight, packet, q', rw len taken, read, kept, left)

-- A message of more than 1400 bytes is written past the end of the packet's storage.
pub take_message-overflow :
    (fresh : List ℕ) (garbage n : ℕ) (q : CRingBuffer)
    → IsValid q
    → buffer_default < n
    → header_size + n ≤ get_use_size q
    → take_message fresh garbage q (pos n) ≡ none
unfolding take_message
take_message-overflow fresh garbage n q v long all = elim (move_front_refines q header_size v) [
  | inr (few, _) ↦ absurd (omega arith)
  | inl (_, q₁, moved, dropped) ↦
      let (_, bytes, _) = dequeue_refines q₁ n dropped.valid in
      let used : get_use_size q₁ ≡ get_use_size q - header_size = omega (
        arith,
        ap length dropped.bytes,
        length-contents q,
        length-contents q₁,
        length-drop header_size (contents q),
      ) in
      let count : length (dequeue q₁ (pos n)).1 ≡ n =
        omega (arith, ap length bytes, length-take n (contents q₁), length-contents q₁) in
      ground (arith, moved, count)
]

-- `OnRecv` trusts the length in a header: if the bytes of a message whose header says more than
-- 1400 are all in the receive queue, the loop writes past the end of the packet's storage.
pub recv_loop-overflow :
    (fresh : List ℕ) (garbage fuel n : ℕ) (v : Server) (i : ℕ)
    → IsValid (session_at v i).recv_q
    → header_len (session_at v i).recv_q ≡ pos n
    → buffer_default < n
    → n < 2 ^ 15
    → header_size + n ≤ get_use_size (session_at v i).recv_q
    → recv_loop fresh garbage (suc fuel) v i ≡ none
unfolding recv_loop check_header message_size
recv_loop-overflow fresh garbage fuel n v i valid len long small all = ground (
  arith,
  len,
  mod-eq_of_lt {n = header_size + n} {m = 2 ^ 64},
  take_message-overflow fresh garbage n (session_at v i).recv_q valid long all,
)
