-- ===== src/Server/Slots.antt =====
-- The slots of sessions and the users of the lobby, from a client's arrival to its release.
use game_server_portfolio.Base.{
  ℕ, ◌<◌, ◌≡◌, refl, sym, ap, ◌∙◌, true, false, none, some, List, [], ◌∷◌, arith, ==_refl, length,
  subst, of-some, length-set, get_or-set_self,
}
use game_server_portfolio.Server.State.{Server, no_session, session_at, set_session, is_active}
use game_server_portfolio.Server.Lobby.{
  find_user, emplace, erase_user, create_user, delete_user, on_connect, on_release,
}
use game_server_portfolio.Server.Manager.{
  init, clear, disconnect_session, create_session, get_id_lock, free_id_lock, close_socket,
}

-- Where the next id of a user is not in use, `OnConnect` returns it and makes a user for the
-- session that is found under it, and `OnRelease` of that user leaves the users as they were before.
pub on_connect-on_release :
    (v : Server) (session_id : ℕ)
    → find_user v.user_id_count v.users ≡ none
    → let (user_id, v') = on_connect v session_id in
      (user_id ≡ v.user_id_count)
      × (find_user user_id v'.users ≡ some (record { id = user_id; session_id = session_id }))
      × ((on_release v' session_id (record { session_id = session_id; user_id = user_id })).users
          ≡ v.users)
unfolding on_connect create_user emplace find_user on_release delete_user erase_user
on_connect-on_release v session_id h =
    (refl, ground (arith, h, ==_refl v.user_id_count), ground (arith, h, ==_refl v.user_id_count))

-- the server once the session of this id, taken off the stack, has been made active
abbrev created : Server → ℕ → List ℕ → ℕ → ℕ → Server
created v id ids client_socket address =
    set_session (record v { session_id_stack = ids }) id
      (init (session_at v id) client_socket id address)

create_session-created :
    (v v' : Server) (id client_socket address : ℕ)
    → create_session v client_socket address ≡ some (id, v')
    → (ids : List ℕ) × (v.session_id_stack ≡ id ∷ ids)
      × (created v id ids client_socket address ≡ v')
unfolding create_session get_id_lock
create_session-created v v' id client_socket address runs = split v.session_id_stack refl
  where
    split :
        (stack : List ℕ)
        → v.session_id_stack ≡ stack
        → (ids : List ℕ) × (v.session_id_stack ≡ id ∷ ids)
          × (created v id ids client_socket address ≡ v')
    split [] e = ground (arith, runs, e)
    split (i ∷ ids) e =
        let made : ℕ × Server = (i, created v i ids client_socket address) in
        let wanted : ℕ × Server = (id, v') in
        let got : some made ≡ some wanted = ground (arith, runs, e) in
        let same : i ≡ id = ap (λ x. x.0) (of-some got) in
        (
          ids,
          e ∙ ap (λ j. j ∷ ids) same,
          ap (λ j. created v j ids client_socket address) (sym same) ∙ ap (λ x. x.1) (of-some got),
        )

-- If `CreateSession` gives a client the slot of an id that is an index of the sessions, then the
-- session there is active; and `DisconnectSession` of it puts the id back, so that the stack of ids
-- is what it was, closes the client's socket, and leaves the session inactive.
pub create_session-disconnect_session :
    (v v' : Server) (id client_socket address : ℕ)
    → id < length v.sessions
    → create_session v client_socket address ≡ some (id, v')
    → (is_active (session_at v' id) ≡ true)
      × ((disconnect_session v' id).session_id_stack ≡ v.session_id_stack)
      × ((disconnect_session v' id).sockets.closed ≡ client_socket ∷ v.sockets.closed)
      × (is_active (session_at (disconnect_session v' id) id) ≡ false)
unfolding create_session get_id_lock disconnect_session free_id_lock close_socket on_release
    delete_user init clear is_active
create_session-disconnect_session v v' id client_socket address h runs =
    let (ids, stack, same) = create_session-created v v' id client_socket address runs in
    let w = created v id ids client_socket address in
    let fresh = init (session_at v id) client_socket id address in
    let filled : session_at w id ≡ fresh = get_or-set_self v.sessions id fresh no_session h in
    let emptied : session_at (disconnect_session w id) id ≡ clear (session_at w id) =
      get_or-set_self w.sessions id (clear (session_at w id)) no_session
        (omega (arith, length-set v.sessions id fresh)) in
    subst
      (λ u.
        (is_active (session_at u id) ≡ true)
        × ((disconnect_session u id).session_id_stack ≡ v.session_id_stack)
        × ((disconnect_session u id).sockets.closed ≡ client_socket ∷ v.sockets.closed)
        × (is_active (session_at (disconnect_session u id) id) ≡ false))
      same
      (
        ap is_active filled,
        sym stack,
        ap (λ s. s.socket ∷ v.sockets.closed) filled,
        ap is_active emptied,
      )
