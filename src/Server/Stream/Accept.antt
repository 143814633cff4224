-- ===== src/Server/Stream/Accept.antt =====
-- NetLib/SessionManager.cpp: the rings of all sessions when a client is accepted.
use game_server_portfolio.Base.{
  ap, sym, ◌∙◌, subst, ◌⊎◌, inl, inr, ℕ, ◌<◌, ◌≡◌, arith, some, false, Option-cases, count,
}
use game_server_portfolio.RingBuffer.{clear_buffer}
use game_server_portfolio.Server.State.{Server, session_at, is_active}
use game_server_portfolio.Server.Manager.{init, create_session}
use game_server_portfolio.Server.Handlers.{on_accept}
use game_server_portfolio.Server.Stable.Accept.{on_accept-Stable}
use game_server_portfolio.Server.Frame.{AllOf-refl, get_or-set_cases, AllOf-Stable}
use game_server_portfolio.Server.Sound.{nothing, Sound}
use game_server_portfolio.Server.Sound.Accept.{create_session-handed}
use game_server_portfolio.Server.Sound.Reach.{create_session-free}
use game_server_portfolio.Server.Stream.{SameRings-Books}

-- The rings of a slot as they were.
abbrev pub Same : Server → Server → ℕ → Type 0
Same v v' j =
    ((session_at v' j).recv_q ≡ (session_at v j).recv_q)
    × ((session_at v' j).send_q ≡ (session_at v j).send_q)

-- A slot that was free, and whose rings have been cleared.
abbrev pub HandedOut : Server → Server → ℕ → Type 0
HandedOut v v' j =
    (is_active (session_at v j) ≡ false)
    × ((session_at v' j).recv_q ≡ clear_buffer (session_at v j).recv_q)
    × ((session_at v' j).send_q ≡ clear_buffer (session_at v j).send_q)

create_session-Rings :
    (v v' : Server) (client_socket address i : ℕ)
    → Sound v nothing
    → create_session v client_socket address ≡ some (i, v')
    → (j : ℕ) → Same v v' j ⊎ HandedOut v v' j
unfolding init
create_session-Rings v v' client_socket address i s e j =
    let free : 0 < count i v.session_id_stack =
      create_session-free v v' client_socket address i e in
    let (ids, out) = create_session-handed v v' client_socket address i e in
    subst (λ w. Same v w j ⊎ HandedOut v w j) out
      (elim (get_or-set_cases v.sessions i j (init (session_at v i) client_socket i address)) [
        | inl same ↦ inl (ap (λ t. t.recv_q) same, ap (λ t. t.send_q) same)
        | inr (at_i, there) ↦
            let off : is_active (session_at v j) ≡ false =
              subst (λ k. is_active (session_at v k) ≡ false) there (ground (arith, s i, free)) in
            inr (
              off,
              ap (λ t. t.recv_q) at_i ∙ ap (λ k. clear_buffer (session_at v k).recv_q) there,
              ap (λ t. t.send_q) at_i ∙ ap (λ k. clear_buffer (session_at v k).send_q) there,
            )
      ])

pub on_accept-Rings :
    (v : Server) (client_socket address : ℕ)
    → Sound v nothing
    → (j : ℕ)
    → Same v (on_accept v client_socket address) j
      ⊎ HandedOut v (on_accept v client_socket address) j
unfolding on_accept
on_accept-Rings v client_socket address s j =
    elim (Option-cases (create_session v client_socket address)) [
      | inl full ↦
          let same : v ≡ on_accept v client_socket address = ground (arith, full) in
          inl (
            ap (λ w. (session_at w j).recv_q) (sym same),
            ap (λ w. (session_at w j).send_q) (sym same),
          )
      | inr ((i, v₁), e) ↦
          let (a, b) =
            on_accept-Stable (AllOf-Stable SameRings-Books v₁) v v₁ client_socket address i e
              (AllOf-refl SameRings-Books v₁) j in
          elim (create_session-Rings v v₁ client_socket address i s e j) [
            | inl (a', b') ↦ inl (a ∙ a', b ∙ b')
            | inr (off, a', b') ↦ inr (off, a ∙ a', b ∙ b')
          ]
    ]
