-- ===== src/Server/Stream/Flight/Steps.antt =====
-- NetLib/LanServer.cpp: the sends in flight along the server's runs.
use game_server_portfolio.Base.{
  ap, sym, ◌∙◌, refl, subst, ◌⊎◌, inl, inr, ℕ, ◌≡◌, ◌≤◌, List, [], ◌∷◌, ◌++◌, pos, arith, false,
  Option-cases,
}
use game_server_portfolio.RingBuffer.Valid.{IsValid, clear_buffer-IsValid}
use game_server_portfolio.Server.State.{
  IoType, io_recv, io_send, Session, Server, Sockets, session_at, is_active,
}
use game_server_portfolio.Server.Manager.{unstarted, init, create_session, init_manager}
use game_server_portfolio.Server.Handlers.{on_accept}
use game_server_portfolio.Server.Stable.Accept.{on_accept-Stable}
use game_server_portfolio.Server.Sound.{sends, nothing, hold, Sound}
use game_server_portfolio.Server.Sound.Accept.{handed, create_session-handed}
use game_server_portfolio.Server.Sound.Reach.{
  with_pending, Step, accepted, completed, arrived, decided, Steps, here, step, create_session-free,
  sends-append, taken-Sound, Steps-Sound, init_manager-Steps,
}
use game_server_portfolio.Server.Stream.Steps.{Rings, init_manager-Rings, init_manager-Steps-Rings}
use game_server_portfolio.Server.Stream.Flight.{
  CarriedAt, AllCarried, set_session-AllCarried, same-AllCarried, AllCarried-Writable,
}
use game_server_portfolio.Server.Stream.Flight.Rounds.{worker_round-AllCarried}

handed-AllCarried :
    (v : Server) (i client_socket address : ℕ) (ids : List ℕ)
    → sends i v.sockets.pending ≡ 0
    → AllCarried v
    → AllCarried (handed v i ids client_socket address)
unfolding init
handed-AllCarried v i client_socket address ids quiet c =
    let w : Server = record v { session_id_stack = ids } in
    set_session-AllCarried w i (init (session_at w i) client_socket i address)
      ((clear_buffer-IsValid (c i).0).0, inl quiet) c

on_accept-AllCarried :
    (v : Server) (client_socket address : ℕ)
    → Sound v nothing
    → AllCarried v
    → AllCarried (on_accept v client_socket address)
unfolding on_accept
on_accept-AllCarried v client_socket address s c =
    elim (Option-cases (create_session v client_socket address)) [
      | inl full ↦
          let same : v ≡ on_accept v client_socket address = ground (arith, full) in
          subst AllCarried same c
      | inr ((i, v₁), e) ↦
          let free = create_session-free v v₁ client_socket address i e in
          let quiet : sends i v.sockets.pending ≡ 0 = ground (arith, s i, free) in
          let (ids, out) = create_session-handed v v₁ client_socket address i e in
          on_accept-Stable AllCarried-Writable.base v v₁ client_socket address i e
            (subst AllCarried out (handed-AllCarried v i client_socket address ids quiet c))
    ]

-- An operation taken from the port.
taken-AllCarried :
    (v : Server) (i : ℕ) (t : IoType) (before behind : List (ℕ × IoType))
    → v.sockets.pending ≡ before ++ (i, t) ∷ behind
    → AllCarried v
    → AllCarried (with_pending v (before ++ behind))
taken-AllCarried v i t before behind e c j =
    let (valid, flight) = c j in
    (
      valid,
      elim flight [
        | inl none_sent ↦
            inl (fewer t (ap (sends j) e ∙ sends-append j i t before behind) none_sent)
        | inr carried ↦ inr carried
      ],
    )
  where
    fewer :
        (t : IoType)
        → sends j v.sockets.pending ≡ sends j ((i, t) ∷ before ++ behind)
        → sends j v.sockets.pending ≡ 0
        → sends j (before ++ behind) ≡ 0
    fewer io_recv same none_sent = sym same ∙ none_sent
    fewer io_send same none_sent = ground (arith, same, none_sent)

-- No other send is in flight on the slot of one that has been taken.
taken-quiet :
    (v : Server) (i : ℕ) (t : IoType)
    → Sound v (hold t i nothing)
    → (t ≡ io_recv) ⊎ (sends i v.sockets.pending ≡ 0)
taken-quiet v i io_recv s = inl refl
taken-quiet v i io_send s = inr (ground (arith, s i))

module _ (fresh : List ℕ) (garbage : ℕ) where
  Step-AllCarried :
      (v v' : Server) → Step fresh garbage v v' → Sound v nothing → AllCarried v → AllCarried v'
  Step-AllCarried _ _ (accepted v client_socket address) s c =
      on_accept-AllCarried v client_socket address s c
  Step-AllCarried _ _ (completed v v' before behind i t n e done) s c =
      let w = with_pending v (before ++ behind) in
      worker_round-AllCarried fresh garbage w v' i t n
        (taken-quiet w i t (taken-Sound v i t before behind e s))
        (taken-AllCarried v i t before behind e c) done
  Step-AllCarried _ _ (arrived v i bytes same_length) s c =
      same-AllCarried v i
        (record (session_at v i) { recv_q = record ((session_at v i).recv_q) { buffer = bytes } })
        refl refl c
  Step-AllCarried _ _ (decided v verdicts) s c = c

  Steps-AllCarried :
      (u v : Server) → Steps fresh garbage u v → Sound u nothing → AllCarried u → AllCarried v
  Steps-AllCarried _ _ (here v) s c = c
  Steps-AllCarried _ _ (step u v w run last) s c =
      Step-AllCarried v w last (Steps-Sound fresh garbage u v run s) (Steps-AllCarried u v run s c)

  -- In every server that runs reach from the first `SessionManager::Init`, with an inactive and uncounted session
  -- of valid rings and nothing in flight, the send ring of each slot is valid; if a send is in flight
  -- on it, some bytes that were handed to its socket are still the first of those that it has to send,
  -- with nothing but others behind them; and both rings of each session made are valid, and of the
  -- sizes that they were made with.
  pub in_flight-Carried :
      (n : ℕ) (session : Session) (sockets : Sockets) (v : Server)
      → is_active session ≡ false
      → session.ref_count ≡ pos 0
      → sockets.pending ≡ []
      → IsValid session.recv_q
      → IsValid session.send_q
      → Steps fresh garbage (init_manager n session (unstarted sockets)) v
      → (j : ℕ) → CarriedAt v j × ((n ≤ j) ⊎ Rings session (session_at v j))
  unfolding init_manager
  in_flight-Carried n session sockets v off zeroed idle a b run j =
      let u = init_manager n session (unstarted sockets) in
      let s = init_manager-Steps fresh garbage n session sockets u off zeroed idle (here u) in
      let c : AllCarried u = λ k.
        ((init_manager-Rings fresh garbage n session sockets a b k).1, inl (ap (sends k) idle)) in
      (
        Steps-AllCarried u v run s c j,
        init_manager-Steps-Rings fresh garbage n session sockets v off zeroed idle a b run j,
      )
