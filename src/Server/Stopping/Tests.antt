-- ===== src/Server/Stopping/Tests.antt =====
-- A server with one session and one worker thread.
use game_server_portfolio.Base.{inr, ◌≡◌, refl, true, false, [], ◌∷◌, none, some, pos, arith}
use game_server_portfolio.Server.State.{io_recv, active, Server, no_session}
use game_server_portfolio.Server.Manager.{unstarted}
use game_server_portfolio.Server.Io.{decrement_ref_count_and_release}
use game_server_portfolio.Server.Handlers.{worker_round}
use game_server_portfolio.Server.Threads.{
  Windows, LanServer, accept_error, start_server, completed_io, accept_thread, take_pending, handle,
  stop,
}
use game_server_portfolio.Server.Stopping.Starting.{Started, start_server-Started}
use game_server_portfolio.Server.Stopping.{handle_all, stop_ends}
use game_server_portfolio.Server.Sound.Reach.{Steps, with_pending}

-- a session whose receive is in flight
abbrev pub receiving : Server
receiving = record {
  sessions = record no_session { state = active; socket = 5; ref_count = pos 1 } ∷ [];
  session_id_stack = [];
  users = [];
  user_id_count = 1;
  sockets = record { accepted = []; pending = (0, io_recv) ∷ []; sent = []; closed = [] };
}

abbrev pub running : LanServer
running = record {
  config = none;
  number_of_worker_threads = 1;
  completion_port = some 3;
  listen_socket = some 4;
  accept_thread = true;
  worker_threads = 1;
  queue = completed_io 0 io_recv 0 ∷ [];
  server = receiving;
}

abbrev pub released : Server
released = decrement_ref_count_and_release (with_pending receiving []) 0

stop_ends_example :
    (l' : LanServer) × (stop [] 0 (accept_error 10004 ∷ []) running ≡ some l')
    × (l'.accept_thread ≡ false)
    × (l'.worker_threads ≡ 0)
    × (l'.queue ≡ [])
    × (l'.server ≡ released)
    × Steps [] 0 receiving released
unfolding accept_thread handle_all handle take_pending worker_round
stop_ends_example =
    stop_ends [] 0 (accept_error 10004 ∷ []) running ((0, io_recv, 0) ∷ []) receiving released refl
      (omega arith) refl refl refl refl

-- a server that has not been started
abbrev idle : LanServer
idle = record running {
  accept_thread = false;
  worker_threads = 0;
  queue = [];
  server = unstarted (record { accepted = []; pending = []; sent = []; closed = [] });
}

abbrev willing : Windows
willing = record {
  wsa_startup = 0;
  socket = some 4;
  bind_ok = true;
  listen_ok = true;
  completion_port = some 3;
}

start_server-Started_example : Started idle (start_server willing [] [] idle)
start_server-Started_example =
    start_server-Started willing [] [] idle refl refl
      (λ j. inr (omega arith, refl, refl, refl, refl))
