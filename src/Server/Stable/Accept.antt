-- ===== src/Server/Stable/Accept.antt =====
-- `LanServer::OnAccept`: what it does with a slot once it has one.
use game_server_portfolio.Base.{ℕ, ◌≡◌, refl, subst, inl, inr, some, Bool-cases, arith}
use game_server_portfolio.Server.State.{Session, Server, session_at, set_session, verdict}
use game_server_portfolio.Server.Lobby.{on_connect}
use game_server_portfolio.Server.Manager.{create_session, disconnect_session}
use game_server_portfolio.Server.Io.{ask, post_recv}
use game_server_portfolio.Server.Handlers.{on_accept}
use game_server_portfolio.Server.Stable.{Stable, disconnect_session-Stable, post_recv-Stable}

pub on_accept-Stable :
    {P : Server → Type 0} (f : Stable P) (v v₁ : Server) (client_socket address i : ℕ)
    → create_session v client_socket address ≡ some (i, v₁)
    → P v₁
    → P (on_accept v client_socket address)
unfolding on_accept on_connect
on_accept-Stable {P} f v v₁ client_socket address i e s =
    let w = ask v₁ in
    let asked : P w = f.aside v₁ w s refl refl refl in
    let v' = on_accept v client_socket address in
    let v₂ = (post_recv w i).1 in
    let s₂ : P v₂ = post_recv-Stable f w i asked in
    elim (Bool-cases (verdict v₁.sockets.accepted)) [
      | inr refused ↦
          let id = (session_at v₁ i).id in
          let same : disconnect_session w id ≡ v' = ground (arith, e, refused) in
          subst P same (disconnect_session-Stable f w id asked)
      | inl taken ↦ elim (Bool-cases (post_recv w i).0) [
        | inr failed ↦ let same : v₂ ≡ v' = ground (arith, e, taken, failed) in subst P same s₂
        | inl posted ↦
            let (user_id, v₃) = on_connect v₂ (session_at v₁ i).id in
            let sess : Session = record (session_at v₃ i) { user_id = user_id } in
            let same : set_session v₃ i sess ≡ v' = ground (arith, e, taken, posted) in
            let s₃ : P v₃ = f.aside v₂ v₃ s₂ refl refl refl in
            subst P same (f.books v₃ i sess s₃ refl refl refl)
      ]
    ]
