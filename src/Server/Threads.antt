-- ===== src/Server/Threads.antt =====
-- NetLib/Server.h and .cpp, and NetLib/LanServer.cpp: the configuration, the server's start and stop,
-- and the loops of its threads.
use game_server_portfolio.Base.{
  ℕ, zero, suc, Bool, true, false, not, ◌||◌, ◌&&◌, List, [], ◌∷◌, ◌++◌, Option, none, some, ◌==◌,
  if◌then◌else◌, replicate,
}
use game_server_portfolio.Server.State.{IoType, io_recv, io_send, Server}
use game_server_portfolio.Server.Manager.{new_session, init_manager}
use game_server_portfolio.Server.Handlers.{worker_round, on_accept}

-- The address, a string, is left out.
pub record ServerConfig : Type 0 where
  pub port : ℕ
  pub max_recv_q_size : ℕ
  pub max_send_q_size : ℕ
  pub back_log_q_size : ℕ
  pub max_session : ℕ
  pub pkt_header_code : ℕ

-- `PktHeaderCode` is a byte.
unfoldable pub load_config : ServerConfig
load_config = record {
  port = 6000;
  max_recv_q_size = 10000;
  max_send_q_size = 20000;
  back_log_q_size = 256;
  max_session = 15000;
  pkt_header_code = 137;
}

-- What the calls of Windows that `Start` makes return: `none` is INVALID_SOCKET, or
-- INVALID_HANDLE_VALUE, which is what the source tests for.
pub record Windows : Type 0 where
  pub wsa_startup : ℕ
  pub socket : Option ℕ
  pub bind_ok : Bool
  pub listen_ok : Bool
  pub completion_port : Option ℕ

-- What the completion port hands out: a null completion is one with neither session nor bytes.
pub data Completion : Type 0 where
  null_completion : Completion
  completed_io : ℕ → IoType → ℕ → Completion

-- `listen_socket` is the socket while it is open; `accept_thread` says whether the thread runs, and
-- `worker_threads` how many run; `queue` is what the completion port holds, oldest first. The event
-- that is only created and the number of concurrent threads are left out.
pub record LanServer : Type 0 where
  pub config : Option ServerConfig
  pub number_of_worker_threads : ℕ
  pub completion_port : Option ℕ
  pub listen_socket : Option ℕ
  pub accept_thread : Bool
  pub worker_threads : ℕ
  pub queue : List Completion
  pub server : Server

-- what `Init` makes of the sessions
abbrev pub sessions_of : ServerConfig → List ℕ → List ℕ → Server → Server
sessions_of config recv_fresh send_fresh v =
    init_manager config.max_session
      (new_session config.max_recv_q_size config.max_send_q_size recv_fresh send_fresh) v

-- The threads that `Start` ends with.
abbrev pub with_threads : LanServer → LanServer
with_threads l = record l { accept_thread = true; worker_threads = l.number_of_worker_threads }

-- `recv_fresh` and `send_fresh` are what `new char[]` returns for the rings of a session.
unfoldable pub start_server : Windows → List ℕ → List ℕ → LanServer → Bool × LanServer
unfolding load_config
start_server w recv_fresh send_fresh l =
    let l₁ = record l {
      config = some load_config;
      server = sessions_of load_config recv_fresh send_fresh l.server;
    } in
    let l₂ = record l₁ { listen_socket = w.socket } in
    let l₃ = record l₂ { completion_port = w.completion_port } in
    if not (w.wsa_startup == 0) then (false, l₁) else elim w.socket [
      | none ↦ (false, l₂)
      | some _ ↦
          if not w.bind_ok
          then (false, l₂)
          else if not w.listen_ok
          then (false, l₂)
          else elim w.completion_port [ none ↦ (false, l₃) | some _ ↦ (true, with_threads l₃) ]
    ]

-- What `accept` returns: a client, or an error.
pub data Accepted : Type 0 where
  client : ℕ → ℕ → Accepted
  accept_error : ℕ → Accepted

abbrev pub sock_err_intr : ℕ
sock_err_intr = 10004

abbrev pub sock_err_notsock : ℕ
sock_err_notsock = 10038

-- The loop of `AcceptThread` over what `accept` returns, and whether the thread has ended.
unfoldable pub accept_thread : List Accepted → Server → Bool × Server
accept_thread [] v = (false, v)
accept_thread (client client_socket address ∷ as') v =
    accept_thread as' (on_accept v client_socket address)
accept_thread (accept_error error ∷ as') v =
    let more = accept_thread as' v in
    if error == sock_err_intr || error == sock_err_notsock then (true, v) else more

abbrev pub same_type : IoType → IoType → Bool
same_type io_recv io_recv = true
same_type io_recv io_send = false
same_type io_send io_recv = false
same_type io_send io_send = true

abbrev keep : ℕ × IoType → Option (List (ℕ × IoType)) → Option (List (ℕ × IoType))
keep p none = none
keep p (some ops) = some (p ∷ ops)

-- The operations in flight without one that has completed: only those complete.
unfoldable pub take_pending : ℕ → IoType → List (ℕ × IoType) → Option (List (ℕ × IoType))
take_pending i type [] = none
take_pending i type ((j, t) ∷ ops) =
    let later = take_pending i type ops in
    if i == j && same_type type t then some ops else keep (j, t) later

unfoldable pub close_accept_thread : LanServer → LanServer
close_accept_thread l = record l { listen_socket = none }

unfoldable pub close_worker_threads : LanServer → LanServer
close_worker_threads l = record l {
  queue = l.queue ++ replicate l.number_of_worker_threads null_completion;
}

module _ (fresh : List ℕ) (garbage : ℕ) where
  -- A completion taken from the port by a worker thread that runs: `none` is undefined behaviour.
  unfoldable pub handle : Server → ℕ → IoType → ℕ → Option Server
  unfolding take_pending
  handle v i type n = elim (take_pending i type v.sockets.pending) [
    | none ↦ none
    | some ops ↦
        worker_round fresh garbage (record v { sockets = record (v.sockets) { pending = ops } }) i
          type n
  ]

  -- The loops of this many worker threads over the completions in the port. Each is taken by one
  -- of the threads: what is left of them, and of the port.
  unfoldable pub worker_threads :
      ℕ → List Completion → Server → Option (ℕ × List Completion × Server)
  unfolding handle
  worker_threads zero queue v = some (zero, queue, v)
  worker_threads (suc running) [] v = some (suc running, [], v)
  worker_threads (suc running) (null_completion ∷ queue) v = worker_threads running queue v
  worker_threads (suc running) (completed_io i type n ∷ queue) v = elim (handle v i type n) [
    | none ↦ none
    | some v' ↦ worker_threads (suc running) queue v'
  ]

  -- `WaitingForMultiThreadEnd`, with what `accept` returns until then: the threads that still run
  -- are waited for.
  unfoldable pub waiting_for_multi_thread_end : List Accepted → LanServer → Option LanServer
  unfolding accept_thread worker_threads
  waiting_for_multi_thread_end accepts l =
      let (ended, v) = accept_thread accepts l.server in
      let l' = record l {
        accept_thread = l.accept_thread && not ended;
        server = if l.accept_thread then v else l.server;
      } in
      elim (worker_threads l'.worker_threads l'.queue l'.server) [
        | none ↦ none
        | some (running, queue, v') ↦
            some (record l' { worker_threads = running; queue = queue; server = v' })
      ]

  unfoldable pub stop : List Accepted → LanServer → Option LanServer
  unfolding close_accept_thread close_worker_threads waiting_for_multi_thread_end
  stop accepts l =
      waiting_for_multi_thread_end accepts (close_worker_threads (close_accept_thread l))
