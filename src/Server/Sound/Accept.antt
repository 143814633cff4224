-- ===== src/Server/Sound/Accept.antt =====
-- `SessionManager::Init`, `CreateSession` and `LanServer::OnAccept`.
use game_server_portfolio.Base.{
  count, get_or, replicate, length-replicate, get_or-set, get_or-set_self, length-set, Bool-cases,
  ℕ, zero, suc, ◌+◌, ◌<◌, ◌≡◌, inl, inr, false, List, [], ◌∷◌, ◌==◌, if◌then◌else◌, ltb, pos,
  length, ap, sym, ◌∙◌, refl, subst, Option, none, some, of-some, arith, Option-cases,
}
use game_server_portfolio.Server.State.{
  Session, Server, Sockets, no_session, session_at, set_session, is_active, verdict,
}
use game_server_portfolio.Server.Lobby.{on_connect}
use game_server_portfolio.Server.Manager.{
  unstarted, init, get_id_lock, create_session, disconnect_session, push_ids, init_manager,
}
use game_server_portfolio.Server.Io.{ask, post_recv}
use game_server_portfolio.Server.Handlers.{on_accept}
use game_server_portfolio.Server.Sound.{recvs, sends, Held, nothing, owe, Sound}
use game_server_portfolio.Server.Sound.Release.{SoundBut, disconnect_session-Sound}
use game_server_portfolio.Server.Sound.Post.{same-Sound, post_recv-Sound}

-- A slot that has just been handed out.
pub record Created (v : Server) (i : ℕ) : Type 0 where
  pub lt : i < length v.sessions
  pub id_is : (session_at v i).id ≡ i
  pub ref : (session_at v i).ref_count ≡ pos 0
  pub quiet : recvs i v.sockets.pending + sends i v.sockets.pending ≡ 0
  pub off : count i v.session_id_stack ≡ 0
  pub others : SoundBut i v nothing
  pub sound : Sound v (owe i nothing)

-- the server with this slot handed out
abbrev pub handed : Server → ℕ → List ℕ → ℕ → ℕ → Server
handed v i ids client_socket address =
    let w = record v { session_id_stack = ids } in
    set_session w i (init (session_at w i) client_socket i address)

handed-Created :
    (v : Server) (i : ℕ) (ids : List ℕ) (client_socket address : ℕ)
    → v.session_id_stack ≡ i ∷ ids
    → Sound v nothing
    → Created (handed v i ids client_socket address) i
unfolding init is_active
handed-Created v i ids client_socket address e s =
    let sess = init (session_at v i) client_socket i address in
    let stacked : (j : ℕ) → count j v.session_id_stack ≡ (if i == j then 1 else 0) + count j ids =
      λ j. ap (count j) e in
    let here : i < length v.sessions = ground (arith, s i, stacked i) in
    let at_i = get_or-set_self v.sessions i sess no_session here in
    record {
      lt = omega (arith, here, length-set v.sessions i sess);
      id_is = ap (λ x. x.id) at_i;
      ref = ap (λ x. x.ref_count) at_i ∙ ground (arith, s i, stacked i);
      quiet = ground (arith, s i, stacked i);
      off = ground (arith, s i, stacked i);
      others = λ j. ground (
        arith,
        s j,
        stacked j,
        get_or-set v.sessions i j sess no_session,
        length-set v.sessions i sess,
      );
      sound = λ j. ground (
        arith,
        s j,
        stacked j,
        get_or-set v.sessions i j sess no_session,
        length-set v.sessions i sess,
      );
    }

-- `CreateSession` on a free id
abbrev pub created : List ℕ → Server → ℕ → ℕ → Option (ℕ × Server)
created [] v client_socket address = none
created (i ∷ ids) v client_socket address = some (i, handed v i ids client_socket address)

pub created_lem :
    (v : Server) (client_socket address : ℕ)
    → create_session v client_socket address ≡ created v.session_id_stack v client_socket address
unfolding create_session get_id_lock
created_lem v client_socket address = by_stack v.session_id_stack v client_socket address refl
  where
    by_stack :
        (ids : List ℕ) (v : Server) (client_socket address : ℕ)
        → v.session_id_stack ≡ ids
        → create_session v client_socket address ≡ created ids v client_socket address
    by_stack [] v client_socket address e = ground (arith, e)
    by_stack (i ∷ ids) v client_socket address e = ground (arith, e)

-- What `CreateSession` returns is the server with a slot handed out.
pub create_session-handed :
    (v v' : Server) (client_socket address i : ℕ)
    → create_session v client_socket address ≡ some (i, v')
    → (ids : List ℕ) × (handed v i ids client_socket address ≡ v')
create_session-handed v v' client_socket address i e =
    by_stack v.session_id_stack (sym (created_lem v client_socket address) ∙ e)
  where
    by_stack :
        (ids : List ℕ)
        → created ids v client_socket address ≡ some (i, v')
        → (ids : List ℕ) × (handed v i ids client_socket address ≡ v')
    by_stack [] e' = ground (arith, e')
    by_stack (k ∷ ids) e' =
        let p = of-some e' in
        (
          ids,
          ap (λ m. handed v m ids client_socket address) (sym (ap (λ x. x.0) p)) ∙ ap (λ x. x.1) p,
        )

pub create_session-Created :
    (v v' : Server) (client_socket address i : ℕ)
    → Sound v nothing
    → create_session v client_socket address ≡ some (i, v')
    → Created v' i
create_session-Created v v' client_socket address i s e =
    by_stack v.session_id_stack v client_socket address refl s
      (sym (created_lem v client_socket address) ∙ e)
  where
    by_stack :
        (ids : List ℕ) (v : Server) (client_socket address : ℕ)
        → v.session_id_stack ≡ ids
        → Sound v nothing
        → created ids v client_socket address ≡ some (i, v')
        → Created v' i
    by_stack [] v client_socket address stacked s e = ground (arith, e)
    by_stack (k ∷ ids) v client_socket address stacked s e =
        subst (λ x. Created x.1 x.0) (of-some e)
          (handed-Created v k ids client_socket address stacked s)

-- The client's session when its first receive is posted.
abbrev welcomed : Server → ℕ → ℕ → Server
welcomed v i id =
    let (user_id, w) = on_connect v id in
    set_session w i (record (session_at w i) { user_id = user_id })

welcomed-Sound : (v : Server) (h : Held) (i id : ℕ) → Sound v h → Sound (welcomed v i id) h
unfolding on_connect is_active
welcomed-Sound v h i id s =
    same-Sound (on_connect v id).1 h i (record (session_at v i) { user_id = (on_connect v id).0 })
      refl refl refl refl refl s

pub on_accept-Sound :
    (v : Server) (client_socket address : ℕ)
    → Sound v nothing
    → Sound (on_accept v client_socket address) nothing
unfolding on_accept
on_accept-Sound v client_socket address s =
    elim (Option-cases (create_session v client_socket address)) [
      | inl full ↦
          let same : v ≡ on_accept v client_socket address = ground (arith, full) in
          subst (λ u. Sound u nothing) same s
      | inr ((i, v₁), e) ↦
          let c = create_session-Created v v₁ client_socket address i s e in
          elim (Bool-cases (verdict v₁.sockets.accepted)) [
            | inr refused ↦
                let same : disconnect_session (ask v₁) i ≡ on_accept v client_socket address =
                  ground (arith, e, refused, c.id_is) in
                subst (λ u. Sound u nothing) same
                  (disconnect_session-Sound (ask v₁) nothing i c.lt c.ref (omega (arith, c.quiet))
                    (omega arith) c.off c.others)
            | inl taken ↦
                let v₂ = (post_recv (ask v₁) i).1 in
                let s₂ : Sound v₂ nothing = post_recv-Sound (ask v₁) nothing i c.sound in
                elim (Bool-cases (post_recv (ask v₁) i).0) [
                  | inr failed ↦
                      let same : v₂ ≡ on_accept v client_socket address =
                        ground (arith, e, taken, failed) in
                      subst (λ u. Sound u nothing) same s₂
                  | inl posted ↦
                      let id = (session_at v₁ i).id in
                      let same : welcomed v₂ i id ≡ on_accept v client_socket address =
                        ground (arith, e, taken, posted) in
                      subst (λ u. Sound u nothing) same (welcomed-Sound v₂ nothing i id s₂)
                ]
          ]
    ]

pub count-push_ids :
    (j n : ℕ) (ids : List ℕ) → count j (push_ids n ids) ≡ (if ltb j n then 1 else 0) + count j ids
unfolding push_ids
count-push_ids j zero ids = ground arith
count-push_ids j (suc n) ids = ground (arith, count-push_ids j n ids)

pub get_or-replicate {ℓ} :
    {A : Type ℓ} (n j : ℕ) (x d : A) → get_or (replicate n x) j d ≡ (if ltb j n then x else d)
get_or-replicate zero j x d = ground arith
get_or-replicate (suc n) zero x d = ground arith
get_or-replicate (suc n) (suc j) x d = ground (arith, get_or-replicate n j x d)

pub init_manager-Sound :
    (n : ℕ) (session : Session) (sockets : Sockets)
    → is_active session ≡ false
    → session.ref_count ≡ pos 0
    → sockets.pending ≡ []
    → Sound (init_manager n session (unstarted sockets)) nothing
unfolding init_manager
init_manager-Sound n session sockets off zeroed idle j =
    let r : recvs j sockets.pending ≡ 0 = ap (recvs j) idle in
    let w : sends j sockets.pending ≡ 0 = ap (sends j) idle in
    ground (
      arith,
      r,
      w,
      off,
      zeroed,
      count-push_ids j n [],
      get_or-replicate n j session no_session,
      length-replicate n session,
    )
