-- ===== src/Console/Tests.antt =====
-- The keys `d`, `s`, `x`, `p` and `s` on the console of a server with one worker thread.
use game_server_portfolio.Base.{ℕ, ◌≡◌, refl, List, [], ◌∷◌, some, arith}
use game_server_portfolio.SystemLogger.{error_level}
use game_server_portfolio.Server.State.{io_recv}
use game_server_portfolio.Server.Handlers.{worker_round}
use game_server_portfolio.Server.Threads.{accept_error, accept_thread, take_pending, handle}
use game_server_portfolio.Server.Stopping.{handle_all}
use game_server_portfolio.Server.Stopping.Tests.{running, released, receiving}
use game_server_portfolio.Console.{ConsoleHandler, run}
use game_server_portfolio.Console.Run.{Pressed, printed, run_ends}

abbrev console : ConsoleHandler
console = record {
  server = running;
  logger = record { sys_log_level = error_level; lines = [] };
  profiles = 0;
}

abbrev keys : List ℕ
keys = 100 ∷ 115 ∷ 120 ∷ 112 ∷ 115 ∷ []

run_ends_example :
    (c' : ConsoleHandler) × (run [] 0 (accept_error 10004 ∷ []) keys console ≡ some c')
    × Pressed [] 0 (accept_error 10004 ∷ []) (printed keys) 1 2 released console c'
unfolding accept_thread handle_all handle take_pending worker_round
run_ends_example =
    run_ends [] 0 (accept_error 10004 ∷ []) keys console ((0, io_recv, 0) ∷ []) receiving released
      refl (omega arith) refl refl refl refl
