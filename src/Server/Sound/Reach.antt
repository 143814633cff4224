-- ===== src/Server/Sound/Reach.antt =====
-- The server's runs: NetLib/LanServer.cpp accepts clients and takes completed operations from the
-- port, one handler after the other, while the network fills the receive queues.
use game_server_portfolio.Base.{
  count, ◌++◌, Bool-cases, ℕ, ◌<◌, ◌≤◌, ◌≡◌, ◌⊎◌, inl, inr, Bool, false, List, [], ◌∷◌, pos, length,
  ap, sym, ◌∙◌, refl, Option, none, some, of-some, arith,
}
use game_server_portfolio.Server.State.{
  IoType, io_recv, io_send, Session, Server, Sockets, session_at, is_active,
}
use game_server_portfolio.Server.Manager.{
  unstarted, create_session, disconnect_session, close_socket, clear, free_id_lock, init_manager,
}
use game_server_portfolio.Server.Lobby.{on_release}
use game_server_portfolio.Server.Io.{
  dec, below_one, decrement_ref_count_and_release, request_disconnect,
}
use game_server_portfolio.Server.Handlers.{set_recv_q, worker_round, on_accept}
use game_server_portfolio.Server.Sound.{recvs, sends, nothing, hold, Sound}
use game_server_portfolio.Server.Sound.Post.{same-Sound}
use game_server_portfolio.Server.Sound.Handlers.{worker_round-Sound}
use game_server_portfolio.Server.Sound.Accept.{
  created, created_lem, create_session-Created, on_accept-Sound, init_manager-Sound,
}

-- The server when these operations are in flight, and when these verdicts are to come.
abbrev pub with_pending : Server → List (ℕ × IoType) → Server
with_pending v ops = record v { sockets = record (v.sockets) { pending = ops } }

abbrev pub with_verdicts : Server → List Bool → Server
with_verdicts v verdicts = record v { sockets = record (v.sockets) { accepted = verdicts } }

-- bytes that arrive in a session's receive queue
abbrev pub with_bytes : Server → ℕ → List ℕ → Server
with_bytes v i bytes = set_recv_q v i (record ((session_at v i).recv_q) { buffer = bytes })

-- `garbage` is what uninitialised memory holds, `fresh` what `new char[]` returns.
module _ (fresh : List ℕ) (garbage : ℕ) where
  -- One step of the server: a client is accepted, an operation in flight completes with some number
  -- of bytes and is handled, bytes arrive, or the sockets change their mind on the next calls.
  pub data Step : Server → Server → Type 0 where
    accepted : (v : Server) (client_socket address : ℕ) → Step v (on_accept v client_socket address)
    completed :
        (v v' : Server) (before behind : List (ℕ × IoType)) (i : ℕ) (type : IoType) (n : ℕ)
        → v.sockets.pending ≡ before ++ (i, type) ∷ behind
        → worker_round fresh garbage (with_pending v (before ++ behind)) i type n ≡ some v'
        → Step v v'
    arrived :
        (v : Server) (i : ℕ) (bytes : List ℕ)
        → length bytes ≡ length (session_at v i).recv_q.buffer
        → Step v (with_bytes v i bytes)
    decided : (v : Server) (verdicts : List Bool) → Step v (with_verdicts v verdicts)

  -- any number of steps
  pub data Steps : Server → Server → Type 0 where
    here : (v : Server) → Steps v v
    step : (u v w : Server) → Steps u v → Step v w → Steps u w

recvs-append :
    (j i : ℕ) (t : IoType) (before behind : List (ℕ × IoType))
    → recvs j (before ++ (i, t) ∷ behind) ≡ recvs j ((i, t) ∷ before ++ behind)
recvs-append j i t [] behind = refl
recvs-append j i io_recv ((k, io_recv) ∷ before) behind =
    ground (arith, recvs-append j i io_recv before behind)
recvs-append j i io_send ((k, io_recv) ∷ before) behind =
    ground (arith, recvs-append j i io_send before behind)
recvs-append j i io_recv ((k, io_send) ∷ before) behind =
    ground (arith, recvs-append j i io_recv before behind)
recvs-append j i io_send ((k, io_send) ∷ before) behind =
    ground (arith, recvs-append j i io_send before behind)

pub sends-append :
    (j i : ℕ) (t : IoType) (before behind : List (ℕ × IoType))
    → sends j (before ++ (i, t) ∷ behind) ≡ sends j ((i, t) ∷ before ++ behind)
sends-append j i t [] behind = refl
sends-append j i io_recv ((k, io_recv) ∷ before) behind =
    ground (arith, sends-append j i io_recv before behind)
sends-append j i io_send ((k, io_recv) ∷ before) behind =
    ground (arith, sends-append j i io_send before behind)
sends-append j i io_recv ((k, io_send) ∷ before) behind =
    ground (arith, sends-append j i io_recv before behind)
sends-append j i io_send ((k, io_send) ∷ before) behind =
    ground (arith, sends-append j i io_send before behind)

-- An operation taken from the port is held by its handler.
pub taken-Sound :
    (v : Server) (i : ℕ) (t : IoType) (before behind : List (ℕ × IoType))
    → v.sockets.pending ≡ before ++ (i, t) ∷ behind
    → Sound v nothing
    → Sound (with_pending v (before ++ behind)) (hold t i nothing)
taken-Sound v i io_recv before behind e s j =
    let r = ap (recvs j) e ∙ recvs-append j i io_recv before behind in
    let w = ap (sends j) e ∙ sends-append j i io_recv before behind in ground (arith, s j, r, w)
taken-Sound v i io_send before behind e s j =
    let r = ap (recvs j) e ∙ recvs-append j i io_send before behind in
    let w = ap (sends j) e ∙ sends-append j i io_send before behind in ground (arith, s j, r, w)

release_pending :
    (v : Server) (i : ℕ) → (decrement_ref_count_and_release v i).sockets.pending ≡ v.sockets.pending
unfolding decrement_ref_count_and_release request_disconnect disconnect_session close_socket
    on_release clear free_id_lock
release_pending v i = elim (Bool-cases (below_one (dec (session_at v i).ref_count))) [
  | inl last ↦ ground (arith, last)
  | inr more ↦ ground (arith, more)
]

pub create_session-free :
    (v v' : Server) (client_socket address i : ℕ)
    → create_session v client_socket address ≡ some (i, v')
    → 0 < count i v.session_id_stack
create_session-free v v' client_socket address i e =
    by_stack v.session_id_stack (sym (created_lem v client_socket address) ∙ e)
  where
    by_stack : (ids : List ℕ) → created ids v client_socket address ≡ some (i, v') → 0 < count i ids
    by_stack [] e' = ground (arith, e')
    by_stack (k ∷ ids) e' = ground (arith, ap (λ x. x.0) (of-some e'))

module _ (fresh : List ℕ) (garbage : ℕ) where
  Step-Sound : (v v' : Server) → Step fresh garbage v v' → Sound v nothing → Sound v' nothing
  unfolding is_active
  Step-Sound _ _ (accepted v client_socket address) s = on_accept-Sound v client_socket address s
  Step-Sound _ _ (completed v v' before behind i t n e done) s =
      worker_round-Sound fresh garbage (with_pending v (before ++ behind)) v' nothing i t n
        (taken-Sound v i t before behind e s) done
  Step-Sound _ _ (arrived v i bytes same_length) s =
      same-Sound v nothing i
        (record (session_at v i) { recv_q = record ((session_at v i).recv_q) { buffer = bytes } })
        refl refl refl refl refl s
  Step-Sound _ _ (decided v verdicts) s = s

  pub Steps-Sound : (v v' : Server) → Steps fresh garbage v v' → Sound v nothing → Sound v' nothing
  Steps-Sound _ _ (here v) s = s
  Steps-Sound _ _ (step u v w run last) s = Step-Sound v w last (Steps-Sound u v run s)

  -- Every server that runs reach from the first `SessionManager::Init`, with an inactive and uncounted session
  -- and nothing in flight, is sound: each session's count is the number of its receives and sends in
  -- flight, at most one of each kind, and of a send only while it is marked as sending; an id of a
  -- session stands once on the stack if the session is inactive, which then has none in flight, and
  -- not at all if it is active; and an active session has a receive in flight, or is asked to
  -- disconnect with an operation in flight.
  pub init_manager-Steps :
      (n : ℕ) (session : Session) (sockets : Sockets) (v : Server)
      → is_active session ≡ false
      → session.ref_count ≡ pos 0
      → sockets.pending ≡ []
      → Steps fresh garbage (init_manager n session (unstarted sockets)) v
      → Sound v nothing
  init_manager-Steps n session sockets v off zeroed idle run =
      Steps-Sound (init_manager n session (unstarted sockets)) v run
        (init_manager-Sound n session sockets off zeroed idle)

  -- In every server that runs reach from the first `SessionManager::Init`, with an inactive and uncounted
  -- session and nothing in flight, `CreateSession` hands out only a slot that is inactive, uncounted
  -- and without an operation in flight, and its id is then on the stack no more.
  pub create_session-Steps :
      (n : ℕ) (session : Session) (sockets : Sockets) (v v' : Server) (client_socket address i : ℕ)
      → is_active session ≡ false
      → session.ref_count ≡ pos 0
      → sockets.pending ≡ []
      → Steps fresh garbage (init_manager n session (unstarted sockets)) v
      → create_session v client_socket address ≡ some (i, v')
      → (is_active (session_at v i) ≡ false)
        × ((session_at v i).ref_count ≡ pos 0)
        × (recvs i v.sockets.pending ≡ 0)
        × (sends i v.sockets.pending ≡ 0)
        × (count i v'.session_id_stack ≡ 0)
  create_session-Steps n session sockets v v' client_socket address i off zeroed idle run e =
      let s = init_manager-Steps n session sockets v off zeroed idle run in
      let c = create_session-Created v v' client_socket address i s e in
      let free = create_session-free v v' client_socket address i e in
      ground (arith, s i, free, c.off)

  -- The operations given complete without a byte, one after the other: their sockets are closed.
  unfoldable pub abort : List (ℕ × IoType) → Server → Option Server
  abort [] v = some v
  abort ((i, type) ∷ ops) v = elim (worker_round fresh garbage (with_pending v ops) i type 0) [
    | none ↦ none
    | some v' ↦ abort ops v'
  ]

  -- A server that is still sound, with nothing in flight.
  abbrev Drained : Server → Type 0
  Drained v = Sound v nothing × (v.sockets.pending ≡ [])

  abort-Drained :
      (ops : List (ℕ × IoType)) (v : Server)
      → v.sockets.pending ≡ ops
      → Sound v nothing
      → (v' : Server) × (abort ops v ≡ some v') × Drained v'
  unfolding abort worker_round
  abort-Drained [] v e s = (v, refl, (s, e))
  abort-Drained ((i, t) ∷ ops) v e s =
      let w = decrement_ref_count_and_release (with_pending v ops) i in
      abort-Drained ops w (release_pending (with_pending v ops) i) (
        worker_round-Sound fresh garbage (with_pending v ops) w nothing i t 0
          (taken-Sound v i t [] ops e s) refl)

  -- From every server that runs reach from the first `SessionManager::Init`, with an inactive and uncounted
  -- session and nothing in flight: once all operations in flight have completed without a byte, one
  -- after the other, none is in flight, and every session is released: inactive, uncounted, and its
  -- id once on the stack.
  pub abort-Steps :
      (n : ℕ) (session : Session) (sockets : Sockets) (v : Server)
      → is_active session ≡ false
      → session.ref_count ≡ pos 0
      → sockets.pending ≡ []
      → Steps fresh garbage (init_manager n session (unstarted sockets)) v
      → (v' : Server) × (abort v.sockets.pending v ≡ some v')
        × (v'.sockets.pending ≡ [])
        × ((j : ℕ)
            → (length v'.sessions ≤ j)
              ⊎ (is_active (session_at v' j) ≡ false)
                × ((session_at v' j).ref_count ≡ pos 0)
                × (count j v'.session_id_stack ≡ 1))
  abort-Steps n session sockets v off zeroed idle run =
      let s = init_manager-Steps n session sockets v off zeroed idle run in
      let (v', ran, (s', none_left)) = abort-Drained v.sockets.pending v refl s in
      (
        v',
        ran,
        none_left,
        λ j. ground (arith, s' j, ap (recvs j) none_left, ap (sends j) none_left),
      )
