-- ===== src/Server/Sound/Tests.antt =====
-- A server of two slots that has accepted a client.
use game_server_portfolio.Base.{
  count, ℕ, ◌≤◌, ◌≡◌, ◌⊎◌, refl, false, [], none, some, pos, replicate, length,
}
use game_server_portfolio.Server.State.{Sockets, Server, session_at, is_active}
use game_server_portfolio.Server.Manager.{unstarted, new_session, init_manager, create_session}
use game_server_portfolio.Server.Handlers.{on_accept}
use game_server_portfolio.Server.Sound.{recvs, sends, nothing, Sound}
use game_server_portfolio.Server.Sound.Reach.{
  accepted, Steps, here, step, abort, init_manager-Steps, create_session-Steps, abort-Steps,
}

abbrev idle_sockets : Sockets
idle_sockets = record { accepted = []; pending = []; sent = []; closed = [] }

abbrev empty : Server
empty =
    init_manager 2 (new_session 31 31 (replicate 32 0) (replicate 32 0)) (unstarted idle_sockets)

abbrev one_client : Server
one_client = on_accept empty 5 0

abbrev one_client_run : Steps [] 0 empty one_client
one_client_run = step empty empty one_client (here empty) (accepted empty 5 0)

init_manager-Steps_example : Sound one_client nothing
unfolding new_session is_active
init_manager-Steps_example =
    init_manager-Steps [] 0 2 (new_session 31 31 (replicate 32 0) (replicate 32 0)) idle_sockets
      one_client refl refl refl one_client_run

-- the server when a second client has its slot
abbrev two_clients : Server
two_clients = elim (create_session one_client 6 0) [ none ↦ one_client | some (_, v) ↦ v ]

create_session-Steps_example :
    (is_active (session_at one_client 0) ≡ false)
    × ((session_at one_client 0).ref_count ≡ pos 0)
    × (recvs 0 one_client.sockets.pending ≡ 0)
    × (sends 0 one_client.sockets.pending ≡ 0)
    × (count 0 two_clients.session_id_stack ≡ 0)
unfolding new_session is_active on_accept create_session init_manager
    game_server_portfolio.Server.Manager.get_id_lock game_server_portfolio.Server.Manager.init
    game_server_portfolio.Server.Manager.push_ids game_server_portfolio.Server.Io.post_recv
    game_server_portfolio.Server.Io.increment_ref_count game_server_portfolio.Server.Io.post
    game_server_portfolio.Server.Lobby.on_connect game_server_portfolio.Server.Lobby.create_user
    game_server_portfolio.Server.Lobby.emplace game_server_portfolio.Server.Lobby.find_user
create_session-Steps_example =
    create_session-Steps [] 0 2 (new_session 31 31 (replicate 32 0) (replicate 32 0)) idle_sockets
      one_client two_clients 6 0 0 refl refl refl one_client_run refl

abort-Steps_example :
    (v : Server) × (abort [] 0 one_client.sockets.pending one_client ≡ some v)
    × (v.sockets.pending ≡ [])
    × ((j : ℕ)
        → (length v.sessions ≤ j)
          ⊎ (is_active (session_at v j) ≡ false)
            × ((session_at v j).ref_count ≡ pos 0)
            × (count j v.session_id_stack ≡ 1))
unfolding new_session is_active
abort-Steps_example =
    abort-Steps [] 0 2 (new_session 31 31 (replicate 32 0) (replicate 32 0)) idle_sockets one_client
      refl refl refl one_client_run
