-- ===== src/Server/State.antt =====
-- NetLib/Session.h, NetLib/SessionManager.h, Contents/Lobby.h, Contents/User.h and define.h: what
-- the server keeps; and what it shares with the sockets.
use game_server_portfolio.Base.{ℕ, Bool, true, false, List, [], ◌∷◌, ℤ, pos, get_or, set}
use game_server_portfolio.RingBuffer.{CRingBuffer}

pub data IoType : Type 0 where
  io_recv io_send : IoType

pub data State : Type 0 where
  inactive active : State

-- `ip_` and `port_` are one address; the two overlapped structures, which only the sockets use, and
-- the mutex are left out.
pub record Session : Type 0 where
  pub id : ℕ
  pub gen : ℕ
  pub gen_count : ℕ
  pub state : State
  pub ref_count : ℤ
  pub socket : ℕ
  pub address : ℕ
  pub recv_q : CRingBuffer
  pub send_q : CRingBuffer
  pub disconnect_requested : Bool
  pub is_sending : Bool
  pub user_id : ℕ

pub record User : Type 0 where
  pub id : ℕ
  pub session_id : ℕ

pub record SessionInfo : Type 0 where
  pub session_id : ℕ
  pub user_id : ℕ

-- The sockets' side. `accepted` says of each of the next socket calls whether it is accepted (at
-- once, or as pending); once it is used up, each is. `pending` holds the operations posted whose
-- completion has not been taken from the port, by the index of their session; `sent` what was
-- handed to `WSASend`, latest first; `closed` the sockets closed, latest first.
pub record Sockets : Type 0 where
  pub accepted : List Bool
  pub pending : List (ℕ × IoType)
  pub sent : List (ℕ × List ℕ)
  pub closed : List ℕ

pub record Server : Type 0 where
  pub sessions : List Session
  pub session_id_stack : List ℕ
  pub users : List User
  pub user_id_count : ℕ
  pub sockets : Sockets

-- what stands for a session outside the vector
abbrev pub no_session : Session
no_session = record {
  id = 0;
  gen = 0;
  gen_count = 0;
  state = inactive;
  ref_count = pos 0;
  socket = 0;
  address = 0;
  recv_q = record { size = 1; front = 0; rear = 0; buffer = 0 ∷ [] };
  send_q = record { size = 1; front = 0; rear = 0; buffer = 0 ∷ [] };
  disconnect_requested = false;
  is_sending = false;
  user_id = 0;
}

-- `sessions_[i]`
abbrev pub session_at : Server → ℕ → Session
session_at v i = get_or v.sessions i no_session

abbrev pub set_session : Server → ℕ → Session → Server
set_session v i s = record v { sessions = set v.sessions i s }

unfoldable pub is_active : Session → Bool
is_active s = elim s.state [ inactive ↦ false | active ↦ true ]

-- the verdict on the next socket call, and the calls after it
abbrev pub verdict : List Bool → Bool
verdict [] = true
verdict (b ∷ bs) = b

abbrev pub later : List Bool → List Bool
later [] = []
later (b ∷ bs) = bs

abbrev pub asked : Sockets → Sockets
asked k = record k { accepted = later k.accepted }
