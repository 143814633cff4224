-- ===== src/Server/Lobby.antt =====
-- Contents/Lobby.cpp: the users by their ids.
use game_server_portfolio.Base.{
  ℕ, ◌+◌, ◌%◌, ◌^◌, List, [], ◌∷◌, Option, none, some, ◌==◌, if◌then◌else◌,
}
use game_server_portfolio.Server.State.{User, Server, SessionInfo}

-- `users_.find`
unfoldable pub find_user : ℕ → List User → Option User
find_user user_id [] = none
find_user user_id (u ∷ us) = if u.id == user_id then some u else find_user user_id us

-- `users_.emplace`, which leaves a user that is there
unfoldable pub emplace : User → List User → List User
unfolding find_user
emplace u us = elim (find_user u.id us) [ none ↦ u ∷ us | some _ ↦ us ]

-- `users_.erase`
unfoldable pub erase_user : ℕ → List User → List User
erase_user user_id [] = []
erase_user user_id (u ∷ us) = if u.id == user_id then us else u ∷ erase_user user_id us

unfoldable pub create_user : Server → ℕ → ℕ × Server
unfolding emplace
create_user v session_id = (
  v.user_id_count,
  record v {
    users = emplace (record { id = v.user_id_count; session_id = session_id }) v.users;
    user_id_count = (v.user_id_count + 1) % 2 ^ 32;
  },
)

unfoldable pub delete_user : Server → ℕ → Server
unfolding erase_user
delete_user v user_id = record v { users = erase_user user_id v.users }

unfoldable pub on_connect : Server → ℕ → ℕ × Server
unfolding create_user
on_connect v session_id = create_user v session_id

unfoldable pub on_release : Server → ℕ → SessionInfo → Server
unfolding delete_user
on_release v session_id info = delete_user v info.user_id
