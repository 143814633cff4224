-- ===== src/Server/Manager.antt =====
-- NetLib/SessionManager.cpp, and the operations of NetLib/Session.cpp that it calls. The socket
-- options are left out.
use game_server_portfolio.Base.{
  ℕ, zero, suc, ◌+◌, ◌%◌, ◌^◌, false, List, [], ◌∷◌, ◌++◌, Option, none, some, pos, replicate,
  if◌then◌else◌,
}
use game_server_portfolio.RingBuffer.{create, clear_buffer}
use game_server_portfolio.Server.State.{
  inactive, active, Session, Server, Sockets, session_at, set_session, is_active,
}
use game_server_portfolio.Server.Lobby.{on_release}

-- the constructor, with what `new char[]` returns for the two rings
unfoldable pub new_session : ℕ → ℕ → List ℕ → List ℕ → Session
new_session max_recv_q max_send_q recv_fresh send_fresh = record {
  id = 0;
  gen = 0;
  gen_count = 0;
  state = inactive;
  ref_count = pos 0;
  socket = 0;
  address = 0;
  recv_q = create max_recv_q recv_fresh;
  send_q = create max_send_q send_fresh;
  disconnect_requested = false;
  is_sending = false;
  user_id = 0;
}

unfoldable pub init : Session → ℕ → ℕ → ℕ → Session
init s client_socket id address = record s {
  id = id;
  gen = s.gen_count;
  gen_count = (s.gen_count + 1) % 2 ^ 32;
  state = active;
  socket = client_socket;
  address = address;
  recv_q = clear_buffer s.recv_q;
  send_q = clear_buffer s.send_q;
  disconnect_requested = false;
  user_id = 0;
}

unfoldable pub clear : Session → Session
clear s = record s { state = inactive }

-- the ids `0 .. n - 1`, pushed in this order onto the stack
unfoldable pub push_ids : ℕ → List ℕ → List ℕ
push_ids zero ids = ids
push_ids (suc n) ids = n ∷ push_ids n ids

-- `SessionManager::Init`: sessions, which are all made alike, are put behind those there are, and their
-- ids on the stack.
unfoldable pub init_manager : ℕ → Session → Server → Server
unfolding push_ids
init_manager max_session session v = record v {
  sessions = v.sessions ++ replicate max_session session;
  session_id_stack = push_ids max_session v.session_id_stack;
}

-- The session manager and the lobby as the program starts.
abbrev pub unstarted : Sockets → Server
unstarted sockets = record {
  sessions = [];
  session_id_stack = [];
  users = [];
  user_id_count = 1;
  sockets = sockets;
}

abbrev top : List ℕ → Option (ℕ × List ℕ)
top [] = none
top (id ∷ ids) = some (id, ids)

unfoldable pub get_id_lock : Server → Option (ℕ × Server)
get_id_lock v = elim (top v.session_id_stack) [
  | none ↦ none
  | some (id, ids) ↦ some (id, record v { session_id_stack = ids })
]

unfoldable pub free_id_lock : Server → ℕ → Server
free_id_lock v id = record v { session_id_stack = id ∷ v.session_id_stack }

-- The index of the session, or `none` for `nullptr`.
unfoldable pub create_session : Server → ℕ → ℕ → Option (ℕ × Server)
unfolding get_id_lock init
create_session v client_socket address = elim (get_id_lock v) [
  | none ↦ none
  | some (id, v') ↦ some (id, set_session v' id (init (session_at v' id) client_socket id address))
]

unfoldable pub close_socket : Server → ℕ → Server
close_socket v socket = record v {
  sockets = record (v.sockets) { closed = socket ∷ v.sockets.closed };
}

unfoldable pub disconnect_session : Server → ℕ → Server
unfolding close_socket on_release clear free_id_lock
disconnect_session v id =
    let session = session_at v id in
    let v₁ = close_socket v session.socket in
    let v₂ = on_release v₁ id (record { session_id = id; user_id = session.user_id }) in
    let v₃ = set_session v₂ id (clear session) in free_id_lock v₃ id

unfoldable pub get_session_pointer : Server → ℕ → Option ℕ
unfolding is_active
get_session_pointer v id = if is_active (session_at v id) then some id else none
