-- ===== src/Server/Stopping/Starting.antt =====
-- NetLib/LanServer.cpp: what `Start` leaves.
use game_server_portfolio.Base.{
  ℕ, ◌+◌, ◌<◌, ◌≡◌, refl, sym, ap, subst, ◌⊎◌, inl, inr, Bool, true, false, List, [], ◌∷◌, ◌++◌,
  some, Option-cases, Bool-cases, ◌==◌, pos, count, get_or, length, replicate, arith,
}
use game_server_portfolio.Server.State.{IoType, Session, Server, no_session, is_active}
use game_server_portfolio.Server.Manager.{new_session, push_ids, init_manager}
use game_server_portfolio.Server.Threads.{
  load_config, Windows, LanServer, sessions_of, with_threads, start_server,
}
use game_server_portfolio.Server.Sound.{recvs, sends, nothing, Slot, Sound}
use game_server_portfolio.Server.Sound.Accept.{count-push_ids, init_manager-Sound}

-- The sessions after another `Init`: those of a sound server on which nothing is in flight, if there was
-- no session before; and otherwise the id 0 stands on the stack twice.
abbrev pub Again : Server → Server → Type 0
Again v v' =
    (v.sessions ≡ []) × Sound v' nothing
    ⊎ (0 < length v.sessions) × (count 0 v'.session_id_stack ≡ 2)

-- What `Start` leaves, whether it returns true or false.
abbrev pub Started : LanServer → Bool × LanServer → Type 0
Started l (started, l') =
    (l'.accept_thread ≡ started)
    × ((started ≡ false) ⊎ (l'.worker_threads ≡ l.number_of_worker_threads))
    × Again l.server l'.server

uncounted : (ids : List ℕ) → ((j : ℕ) → count j ids ≡ 0) → ids ≡ []
uncounted [] h = refl
uncounted (k ∷ ids) h = ground (arith, h k)

-- the slots by the three lists that they are read from
abbrev Slots : List Session → List (ℕ × IoType) → List ℕ → Type 0
Slots sessions ops ids =
    (j : ℕ)
    → Slot (length sessions) (get_or sessions j no_session) j (recvs j ops + 0) (sends j ops + 0) 0
        (count j ids)

init_manager-Again :
    (n : ℕ) (session : Session) (v : Server)
    → 0 < n
    → is_active session ≡ false
    → session.ref_count ≡ pos 0
    → v.sockets.pending ≡ []
    → Sound v nothing
    → Again v (init_manager n session v)
unfolding init_manager
init_manager-Again n session v some_sessions off zeroed idle s = by_sessions v.sessions refl
  where
    by_sessions : (xs : List Session) → v.sessions ≡ xs → Again v (init_manager n session v)
    by_sessions [] e =
        let none_stacked : v.session_id_stack ≡ [] =
          uncounted v.session_id_stack (λ j. ground (arith, s j, e)) in
        let first : Slots (replicate n session) v.sockets.pending (push_ids n []) =
          init_manager-Sound n session v.sockets off zeroed idle in
        inl (
          e,
          subst
              (λ xs.
                Slots (xs ++ replicate n session) v.sockets.pending (push_ids n v.session_id_stack))
              (sym e)
              (subst (λ ids. Slots (replicate n session) v.sockets.pending (push_ids n ids))
                (sym none_stacked) first),
        )
    by_sessions (x ∷ xs) e =
        let lt : 0 < length v.sessions = ground (arith, e) in
        let once : count 0 v.session_id_stack ≡ 1 =
          ground (arith, s 0, lt, ap (recvs 0) idle, ap (sends 0) idle) in
        inr (lt, ground (arith, some_sessions, once, count-push_ids 0 n v.session_id_stack))

-- `Start` of a server whose threads do not run and whose sessions are sound, with nothing in flight,
-- returns true just when the accept thread runs, whatever the calls of Windows return; in that case as
-- many worker threads run as were asked for. The first time, when there is no session yet, it leaves
-- the sessions of a sound server on which nothing is in flight, even if it returns false. But if there
-- are sessions from a `Start` before, whatever that returned, the id 0 stands on the stack twice then.
pub start_server-Started :
    (w : Windows) (recv_fresh send_fresh : List ℕ) (l : LanServer)
    → l.accept_thread ≡ false
    → l.server.sockets.pending ≡ []
    → Sound l.server nothing
    → Started l (start_server w recv_fresh send_fresh l)
unfolding start_server new_session is_active
start_server-Started w recv_fresh send_fresh l off idle sound =
    let c = load_config in
    let v = sessions_of c recv_fresh send_fresh l.server in
    let s : Again l.server v =
      init_manager-Again c.max_session
        (new_session c.max_recv_q_size c.max_send_q_size recv_fresh send_fresh) l.server
        (omega arith) refl refl idle sound in
    let l₁ : LanServer = record l { config = some c; server = v } in
    let l₂ : LanServer = record l₁ { listen_socket = w.socket } in
    let l₃ : LanServer = record l₂ { completion_port = w.completion_port } in
    let r = start_server w recv_fresh send_fresh l in
    let P = Started l in
    elim (Bool-cases (w.wsa_startup == 0)) [
      | inr refused ↦
          subst P (let e : (false, l₁) ≡ r = ground (arith, refused) in e) (off, inl refl, s)
      | inl up ↦ elim (Option-cases w.socket) [
        | inl e ↦ subst P (let q : (false, l₂) ≡ r = ground (arith, up, e) in q) (off, inl refl, s)
        | inr (k, e) ↦ elim (Bool-cases w.bind_ok) [
          | inr b ↦
              subst P (let q : (false, l₂) ≡ r = ground (arith, up, e, b) in q) (off, inl refl, s)
          | inl b ↦ elim (Bool-cases w.listen_ok) [
            | inr t ↦
                subst P (let q : (false, l₂) ≡ r = ground (arith, up, e, b, t) in q)
                  (off, inl refl, s)
            | inl t ↦ elim (Option-cases w.completion_port) [
              | inl d ↦
                  subst P (let q : (false, l₃) ≡ r = ground (arith, up, e, b, t, d) in q)
                    (off, inl refl, s)
              | inr (port, d) ↦
                  subst P
                    (let q : (true, with_threads l₃) ≡ r = ground (arith, up, e, b, t, d) in q)
                    (refl, inr refl, s)
            ]
          ]
        ]
      ]
    ]
