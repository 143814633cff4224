-- ===== src/Server/Frame.antt =====
-- NetLib/Session.cpp and Contents/: what the operations make of each session of a server, as a relation
-- between the sessions before and after.
use game_server_portfolio.Base.{
  get_or, set, get_or-set, sym, refl, subst, ◌⊎◌, ℕ, ◌≡◌, inl, inr, List, arith,
}
use game_server_portfolio.Server.State.{Session, Server, no_session, session_at, set_session}
use game_server_portfolio.Server.Io.{post, log_send}
use game_server_portfolio.Server.Stable.{Stable, Writable, enqueue_send}

-- A write to one session, seen at another.
pub get_or-set_cases :
    (xs : List Session) (i j : ℕ) (s : Session)
    → (get_or (set xs i s) j no_session ≡ get_or xs j no_session)
      ⊎ (get_or (set xs i s) j no_session ≡ s) × (i ≡ j)
get_or-set_cases xs i j s = ground (arith, get_or-set xs i j s no_session)

-- What the changes of counts and marks keep, and also those of the send queue.
pub record Books (R : Session → Session → Type 0) : Type 0 where
  pub along : (s t u : Session) → R s t → R t u → R s u
  pub books : (s t : Session) → t.recv_q ≡ s.recv_q → t.send_q ≡ s.send_q → R s t

pub record Frame (R : Session → Session → Type 0) : Type 0 where
  pub base : Books R
  pub enqueues : (s : Session) (bytes : List ℕ) (n : ℕ) → R s (enqueue_send s bytes n)

-- of all sessions of two servers
abbrev pub AllOf : (Session → Session → Type 0) → Server → Server → Type 0
AllOf R v w = (j : ℕ) → R (session_at v j) (session_at w j)

module _ {R : Session → Session → Type 0} (f : Books R) where
  pub AllOf-refl : (v : Server) → AllOf R v v
  AllOf-refl v j = f.books (session_at v j) (session_at v j) refl refl

  pub set_session-AllOf :
      (v w : Server) (i : ℕ) (sess : Session)
      → AllOf R v w
      → R (session_at w i) sess
      → AllOf R v (set_session w i sess)
  set_session-AllOf v w i sess s r j = elim (get_or-set_cases w.sessions i j sess) [
    | inl same ↦ subst (R (session_at v j)) (sym same) (s j)
    | inr (here, there) ↦ subst (R (session_at v j)) (sym here) (
        f.along (session_at v j) (session_at w j) sess (s j)
          (subst (λ k. R (session_at w k) sess) there r))
  ]

  pub AllOf-Stable : (v : Server) → Stable (AllOf R v)
  unfolding post log_send
  AllOf-Stable v = record {
    books =
        λ w i sess s e e' same. set_session-AllOf v w i sess s (f.books (session_at w i) sess e e');
    aside = λ w w' s e pending sent.
        subst (λ xs. (j : ℕ) → R (session_at v j) (get_or xs j no_session)) (sym e) s;
    received = λ w i s. s;
    sent = λ w i socket bytes s e e'. s;
  }

pub AllOf-Writable :
    {R : Session → Session → Type 0} (f : Frame R) (v : Server) → Writable (AllOf R v)
AllOf-Writable f v = record {
  base = AllOf-Stable f.base v;
  enqueues = λ w i bytes n s.
      set_session-AllOf f.base v w i (enqueue_send (session_at w i) bytes n) s
        (f.enqueues (session_at w i) bytes n);
}
