-- ===== src/Server/Stream/Steps.antt =====
-- NetLib/LanServer.cpp: the rings of all sessions along the server's runs.
use native.Mathlib.Decide.{dec_lt}
use game_server_portfolio.Base.{
  ap, sym, ◌∙◌, refl, subst, ◌⊎◌, inl, inr, ℕ, ◌≤◌, ◌≡◌, List, [], ◌++◌, drop, pos, arith, false,
}
use game_server_portfolio.RingBuffer.{clear_buffer}
use game_server_portfolio.RingBuffer.Valid.{IsValid, contents, clear_buffer-IsValid}
use game_server_portfolio.Server.State.{Session, Server, Sockets, no_session, session_at, is_active}
use game_server_portfolio.Server.Manager.{unstarted, init_manager}
use game_server_portfolio.Server.Handlers.{on_accept}
use game_server_portfolio.Server.Frame.{get_or-set_cases}
use game_server_portfolio.Server.Sound.{nothing, Sound}
use game_server_portfolio.Server.Sound.Accept.{get_or-replicate}
use game_server_portfolio.Server.Sound.Reach.{
  with_pending, with_verdicts, with_bytes, Step, accepted, completed, arrived, decided, Steps, here,
  step, Steps-Sound, init_manager-Steps,
}
use game_server_portfolio.Server.Stream.Accept.{Same, HandedOut, on_accept-Rings}
use game_server_portfolio.Server.Stream.{Kept, Kept-refl, Kept-trans, Flows}
use game_server_portfolio.Server.Stream.Sends.{sent_of, sent_of-pending, Gone, worker_round-Served}

-- The rings of a slot stay valid, and of their size.
abbrev pub Rings : Session → Session → Type 0
Rings s t = Kept s.recv_q t.recv_q × Kept s.send_q t.send_q

-- The bytes that a slot has to send: this many are gone from the front, and some have come behind the
-- others.
abbrev pub Moved : ℕ → Server → Server → ℕ → Type 0
Moved k v v' j =
    (put : List ℕ) × (contents (session_at v' j).send_q
      ≡ drop k (contents (session_at v j).send_q) ++ put)

-- They are what they were.
abbrev pub Unmoved : Server → Server → ℕ → Type 0
Unmoved v v' j = contents (session_at v' j).send_q ≡ contents (session_at v j).send_q

flowed-Moved :
    (k : ℕ) (v v' : Server) (j : ℕ)
    → IsValid (session_at v j).recv_q
    → IsValid (session_at v j).send_q
    → Flows k (session_at v j) (session_at v' j)
    → Rings (session_at v j) (session_at v' j) × Moved k v v' j
flowed-Moved k v v' j a b (recv, send) = let (kept, put, e) = send b in ((recv a, kept), (put, e))

Same-Unmoved :
    (v v' : Server) (j : ℕ)
    → IsValid (session_at v j).recv_q
    → IsValid (session_at v j).send_q
    → Same v v' j
    → Rings (session_at v j) (session_at v' j) × Unmoved v v' j
Same-Unmoved v v' j a b (e, e') = (
  (
    subst (Kept (session_at v j).recv_q) (sym e) (Kept-refl (session_at v j).recv_q a),
    subst (Kept (session_at v j).send_q) (sym e') (Kept-refl (session_at v j).send_q b),
  ),
  ap contents e',
)

-- A slot that was free, and has none to send.
abbrev pub Emptied : Server → Server → ℕ → Type 0
Emptied v v' j = (is_active (session_at v j) ≡ false) × (contents (session_at v' j).send_q ≡ [])

handed-Emptied :
    (v v' : Server) (j : ℕ)
    → IsValid (session_at v j).recv_q
    → IsValid (session_at v j).send_q
    → HandedOut v v' j
    → Rings (session_at v j) (session_at v' j) × Emptied v v' j
unfolding clear_buffer
handed-Emptied v v' j a b (off, e, e') =
    let (a', none_held) = clear_buffer-IsValid a in
    let (b', none_left) = clear_buffer-IsValid b in
    (
      (
        subst (Kept (session_at v j).recv_q) (sym e) (record { valid = a'; size_is = refl }),
        subst (Kept (session_at v j).send_q) (sym e') (record { valid = b'; size_is = refl }),
      ),
      (off, ap contents e' ∙ none_left),
    )

module _ (fresh : List ℕ) (garbage : ℕ) where
  -- What a step makes of the bytes that a slot has to send, by the step: when a client is accepted,
  -- nothing, unless the slot was free; when an operation completes, it takes off what a send of as many
  -- bytes on this slot takes, and nothing if the session is released with it or had gone; and nothing
  -- otherwise.
  abbrev pub Fate : (v v' : Server) → Step fresh garbage v v' → ℕ → Type 0
  Fate _ _ (accepted v client_socket address) j =
      Unmoved v (on_accept v client_socket address) j
      ⊎ Emptied v (on_accept v client_socket address) j
  Fate _ _ (completed v v' before behind i type n e done) j =
      Gone (with_pending v (before ++ behind)) i × Moved 0 v v' j
      ⊎ Moved (sent_of type n i v j) v v' j
  Fate _ _ (decided v verdicts) j = Unmoved v (with_verdicts v verdicts) j
  Fate _ _ (arrived v i bytes same_length) j = Unmoved v (with_bytes v i bytes) j

  Step-Fate :
      (v v' : Server) (last : Step fresh garbage v v')
      → Sound v nothing
      → (j : ℕ) → IsValid (session_at v j).recv_q
      → IsValid (session_at v j).send_q
      → Rings (session_at v j) (session_at v' j) × Fate v v' last j
  Step-Fate _ _ (accepted v client_socket address) s j a b =
      let v' = on_accept v client_socket address in
      elim (on_accept-Rings v client_socket address s j) [
        | inl same ↦ let (rings, unmoved) = Same-Unmoved v v' j a b same in (rings, inl unmoved)
        | inr handed ↦
            let (rings, emptied) = handed-Emptied v v' j a b handed in (rings, inr emptied)
      ]
  Step-Fate _ _ (completed v v' before behind i t n e done) s j a b =
      elim (worker_round-Served fresh garbage (with_pending v (before ++ behind)) v' i t n done) [
        | inl (gone, flows) ↦
            let (rings, moved) = flowed-Moved 0 v v' j a b (flows j) in (rings, inl (gone, moved))
        | inr served ↦
            let k = sent_of t n i v j in
            let same : sent_of t n i (with_pending v (before ++ behind)) j ≡ k =
              sent_of-pending t n i v (before ++ behind) j in
            let (rings, moved) =
              flowed-Moved k v v' j a b
                (subst (λ m. Flows m (session_at v j) (session_at v' j)) same (served j)) in
            (rings, inr moved)
      ]
  Step-Fate _ _ (decided v verdicts) s j a b =
      ((Kept-refl (session_at v j).recv_q a, Kept-refl (session_at v j).send_q b), refl)
  Step-Fate _ _ (arrived v i bytes same_length) s j a b =
      let sess : Session = record (session_at v i) {
        recv_q = record ((session_at v i).recv_q) { buffer = bytes };
      } in
      elim (get_or-set_cases v.sessions i j sess) [
        | inl same ↦
            Same-Unmoved v (with_bytes v i bytes) j a b
              (ap (λ t. t.recv_q) same, ap (λ t. t.send_q) same)
        | inr (at_i, there) ↦
            let arrives : IsValid (session_at v i).recv_q
                → Kept (session_at v i).recv_q sess.recv_q =
              λ valid. record {
                valid = record {
                  storage = same_length ∙ valid.storage;
                  front_in = valid.front_in;
                  rear_in = valid.rear_in;
                };
                size_is = refl;
              } in
            let sent : sess.send_q ≡ (session_at v j).send_q =
              ap (λ k. (session_at v k).send_q) there in
            let recv =
              subst
                (λ k. IsValid (session_at v k).recv_q → Kept (session_at v k).recv_q sess.recv_q)
                there arrives a in
            (
              (
                subst (λ t. Kept (session_at v j).recv_q t.recv_q) (sym at_i) recv,
                subst (Kept (session_at v j).send_q) (sym (ap (λ t. t.send_q) at_i ∙ sent))
                    (Kept-refl (session_at v j).send_q b),
              ),
              ap (λ t. contents t.send_q) at_i ∙ ap contents sent,
            )
      ]

  pub Steps-Rings :
      (u v : Server)
      → Steps fresh garbage u v
      → Sound u nothing
      → (j : ℕ) → IsValid (session_at u j).recv_q
      → IsValid (session_at u j).send_q
      → Rings (session_at u j) (session_at v j)
  Steps-Rings _ _ (here v) s j a b =
      (Kept-refl (session_at v j).recv_q a, Kept-refl (session_at v j).send_q b)
  Steps-Rings _ _ (step u v w run last) s j a b =
      let (recv, send) = Steps-Rings u v run s j a b in
      let ((recv', send'), _) =
        Step-Fate v w last (Steps-Sound fresh garbage u v run s) j recv.valid send.valid in
      (
        Kept-trans (session_at u j).recv_q (session_at v j).recv_q (session_at w j).recv_q recv
            recv',
        Kept-trans (session_at u j).send_q (session_at v j).send_q (session_at w j).send_q send
            send',
      )

  pub init_manager-Rings :
      (n : ℕ) (session : Session) (sockets : Sockets)
      → IsValid session.recv_q
      → IsValid session.send_q
      → (j : ℕ)
      → IsValid (session_at (init_manager n session (unstarted sockets)) j).recv_q
        × IsValid (session_at (init_manager n session (unstarted sockets)) j).send_q
        × ((n ≤ j) ⊎ (session_at (init_manager n session (unstarted sockets)) j ≡ session))
  unfolding init_manager
  init_manager-Rings n session sockets a b j = elim (dec_lt j n) [
    | yes lt ↦
        let e : session ≡ session_at (init_manager n session (unstarted sockets)) j =
          ground (arith, lt, get_or-replicate n j session no_session) in
        (subst (λ s. IsValid s.recv_q) e a, subst (λ s. IsValid s.send_q) e b, inr (sym e))
    | no ge ↦
        let e : no_session ≡ session_at (init_manager n session (unstarted sockets)) j =
          ground (arith, ge, get_or-replicate n j session no_session) in
        let one_byte : IsValid no_session.recv_q = ground arith in
        (
          subst (λ s. IsValid s.recv_q) e one_byte,
          subst (λ s. IsValid s.send_q) e one_byte,
          inl (ground (arith, ge)),
        )
  ]

  pub init_manager-Steps-Rings :
      (n : ℕ) (session : Session) (sockets : Sockets) (v : Server)
      → is_active session ≡ false
      → session.ref_count ≡ pos 0
      → sockets.pending ≡ []
      → IsValid session.recv_q
      → IsValid session.send_q
      → Steps fresh garbage (init_manager n session (unstarted sockets)) v
      → (j : ℕ) → (n ≤ j) ⊎ Rings session (session_at v j)
  init_manager-Steps-Rings n session sockets v off zeroed idle a b run j =
      let u = init_manager n session (unstarted sockets) in
      let s = init_manager-Steps fresh garbage n session sockets u off zeroed idle (here u) in
      let (a', b', made) = init_manager-Rings n session sockets a b j in
      let rings = Steps-Rings u v run s j a' b' in
      elim made [
        | inl outside ↦ inl outside
        | inr e ↦ inr (subst (λ t. Rings t (session_at v j)) e rings)
      ]

  -- Every server that runs reach from the first `SessionManager::Init`, with an inactive and uncounted
  -- session of valid rings and nothing in flight, makes this of the bytes that a slot has to send, in
  -- its next step. When an operation completes: if it is a send of `n` bytes on this slot, and the ring
  -- holds as many, the first `n` bytes are gone, and none are gone for any other operation, nor if the
  -- session was released with it or had gone before; and some may have come behind the others. When a
  -- client is accepted: they are what they were, or the slot was inactive, and it has none then. When
  -- bytes arrive, or the sockets change their verdicts: they are what they were.
  pub send_q-Steps :
      (n : ℕ) (session : Session) (sockets : Sockets) (v v' : Server)
      → is_active session ≡ false
      → session.ref_count ≡ pos 0
      → sockets.pending ≡ []
      → IsValid session.recv_q
      → IsValid session.send_q
      → Steps fresh garbage (init_manager n session (unstarted sockets)) v
      → (last : Step fresh garbage v v') (j : ℕ) → Fate v v' last j
  send_q-Steps n session sockets v v' off zeroed idle a b run last j =
      let u = init_manager n session (unstarted sockets) in
      let s = init_manager-Steps fresh garbage n session sockets u off zeroed idle (here u) in
      let (a', b', _) = init_manager-Rings n session sockets a b j in
      let (recv, send) = Steps-Rings u v run s j a' b' in
      (Step-Fate v v' last (Steps-Sound fresh garbage u v run s) j recv.valid send.valid).1
