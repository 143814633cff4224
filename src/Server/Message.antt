-- ===== src/Server/Message.antt =====
-- Packet/PacketMaker_Auto.cpp, Packet/PacketProcess_Auto.cpp, Contents/ContentsProcess.cpp and
-- `Lobby::ChatUnicast`: from a message to the reply.
use game_server_portfolio.Base.{ℕ, zero, suc, List, none, some}
use game_server_portfolio.Bytes.{to_bytes}
use game_server_portfolio.Packet.{CPacket, create_default, clear, put_data, write_value, read_value}
use game_server_portfolio.Server.State.{Server, session_at}
use game_server_portfolio.Server.Lobby.{find_user}
use game_server_portfolio.Server.Manager.{get_session_pointer}
use game_server_portfolio.Server.Io.{send_packet}

-- `sizeof(PktHeader)`: the field `short Len`
abbrev pub header_size : ℕ
header_size = 2

-- `sizeof(int64_t)`
abbrev pub msg_size : ℕ
msg_size = 8

unfoldable pub mp_echo : CPacket → ℕ → CPacket
mp_echo packet msg =
    write_value msg_size (put_data (clear packet) (to_bytes header_size msg_size)).1 msg

-- What the program leaves uninitialised: the storage of a packet, and the variable of a message.
module _ (fresh : List ℕ) (garbage : ℕ) where
  unfoldable pub chat_unicast : Server → ℕ → ℕ → Server
  chat_unicast v user_id msg = elim (find_user user_id v.users) [
    | none ↦ v
    | some user ↦ elim (get_session_pointer v user.session_id) [
      | none ↦ v
      | some i ↦ send_packet v i (mp_echo (create_default fresh) msg)
    ]
  ]

  unfoldable pub on_echo : Server → ℕ → ℕ → Server
  unfolding chat_unicast
  on_echo v session_id msg = elim (get_session_pointer v session_id) [
    | none ↦ v
    | some i ↦ chat_unicast v (session_at v i).user_id msg
  ]

  -- The message is taken off the packet, and is what the variable held before if it is not there.
  unfoldable pub dispatch_echo : Server → ℕ → CPacket → Server
  unfolding on_echo
  dispatch_echo v session_id packet = on_echo v session_id (read_value msg_size packet garbage).0

  unfoldable pub process : Server → ℕ → ℕ → CPacket → Server
  unfolding dispatch_echo
  process v zero session_id packet = dispatch_echo v session_id packet
  process v (suc type) session_id packet = v

  -- `Session::OnMessage`
  unfoldable pub on_message : Server → ℕ → ℕ → CPacket → Server
  unfolding process
  on_message v i type packet = process v type (session_at v i).id packet
