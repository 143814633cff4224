-- ===== src/Server/Stream/Flight.antt =====
-- NetLib/Session.cpp: the bytes that a send in flight was handed, and the send ring that they stand in.
pub mod Rounds
pub mod Steps
use native.Mathlib.Decide.{ℕ_discrete}
use game_server_portfolio.Base.{
  ap, sym, ◌∙◌, refl, subst, ◌⊎◌, inl, inr, ℕ, suc, ◌+◌, ◌≡◌, ◌==◌, if◌then◌else◌, List, [], ◌∷◌,
  ◌++◌, append-nil, append_assoc, get_elem?, get_or, some, arith,
}
use game_server_portfolio.RingBuffer.Valid.{IsValid, contents}
use game_server_portfolio.RingBuffer.Send.{send_spans-contents}
use game_server_portfolio.Server.State.{
  io_send, Session, Server, no_session, session_at, set_session,
}
use game_server_portfolio.Server.Io.{post, log_send, send_buffers}
use game_server_portfolio.Server.Sound.{sends}
use game_server_portfolio.Server.Frame.{get_or-set_cases}
use game_server_portfolio.Server.Stable.{Writable, enqueue_send}
use game_server_portfolio.Server.Stream.{enqueue-Moves}

-- A session whose send ring is valid; and if sends are in flight on it, bytes that were handed to its
-- socket are still the first of those that it has to send.
abbrev pub Carried : ℕ → Session → List (ℕ × List ℕ) → Type 0
Carried n s log =
    IsValid s.send_q
    × ((n ≡ 0)
        ⊎ (k : ℕ) × (bytes behind : List ℕ) × (get_elem? log k ≡ some (s.socket, bytes))
          × (contents s.send_q ≡ bytes ++ behind))

abbrev pub CarriedAt : Server → ℕ → Type 0
CarriedAt v j = Carried (sends j v.sockets.pending) (session_at v j) v.sockets.sent

abbrev pub AllCarried : Server → Type 0
AllCarried v = (j : ℕ) → CarriedAt v j

-- a session with the same send ring and the same socket
Carried-same :
    (n : ℕ) (s t : Session) (log : List (ℕ × List ℕ))
    → t.send_q ≡ s.send_q
    → t.socket ≡ s.socket
    → Carried n s log
    → Carried n t log
Carried-same n s t log e e' (valid, inl none_sent) = (subst IsValid (sym e) valid, inl none_sent)
Carried-same n s t log e e' (valid, inr (k, bytes, behind, at_k, held)) = (
  subst IsValid (sym e) valid,
  inr (
    k,
    bytes,
    behind,
    subst (λ n. get_elem? log k ≡ some (n, bytes)) (sym e') at_k,
    ap contents e ∙ held,
  ),
)

pub set_session-AllCarried :
    (w : Server) (i : ℕ) (sess : Session)
    → Carried (sends i w.sockets.pending) sess w.sockets.sent
    → AllCarried w
    → AllCarried (set_session w i sess)
set_session-AllCarried w i sess new c j = elim (get_or-set_cases w.sessions i j sess) [
  | inl same ↦ subst (λ s. Carried (sends j w.sockets.pending) s w.sockets.sent) (sym same) (c j)
  | inr (here, there) ↦
      subst (λ s. Carried (sends j w.sockets.pending) s w.sockets.sent) (sym here)
        (subst (λ k. Carried (sends k w.sockets.pending) sess w.sockets.sent) there new)
]

pub same-AllCarried :
    (w : Server) (i : ℕ) (sess : Session)
    → sess.send_q ≡ (session_at w i).send_q
    → sess.socket ≡ (session_at w i).socket
    → AllCarried w
    → AllCarried (set_session w i sess)
same-AllCarried w i sess e e' c =
    set_session-AllCarried w i sess
      (Carried-same (sends i w.sockets.pending) (session_at w i) sess w.sockets.sent e e' (c i)) c

-- one more operation handed over
Carried-more :
    (n : ℕ) (s : Session) (x : ℕ × List ℕ) (log : List (ℕ × List ℕ))
    → Carried n s log
    → Carried n s (x ∷ log)
Carried-more n s x log (valid, inl none_sent) = (valid, inl none_sent)
Carried-more n s x log (valid, inr (k, bytes, behind, at_k, held)) =
    (valid, inr (suc k, bytes, behind, at_k, held))

Carried-new :
    (n : ℕ) (s : Session) (bytes : List ℕ) (log : List (ℕ × List ℕ))
    → IsValid s.send_q
    → bytes ≡ send_buffers s.send_q
    → Carried n s ((s.socket, bytes) ∷ log)
unfolding send_buffers
Carried-new n s bytes log valid e = (
  valid,
  inr (0, bytes, [], refl, sym (append-nil bytes ∙ e ∙ send_spans-contents s.send_q valid)),
)

Carried-enqueue :
    (n : ℕ) (s : Session) (log : List (ℕ × List ℕ)) (bytes : List ℕ) (m : ℕ)
    → Carried n s log
    → Carried n (enqueue_send s bytes m) log
Carried-enqueue n s log bytes m (valid, flight) =
    let (kept, put, e) = enqueue-Moves s.send_q bytes m valid in
    (
      kept.valid,
      elim flight [
        | inl none_sent ↦ inl none_sent
        | inr (k, first, behind, at_k, held) ↦ inr (
          k,
          first,
          behind ++ put,
          at_k,
          e ∙ ap (λ bs. bs ++ put) held ∙ append_assoc first behind put,
        )
      ],
    )

sent-AllCarried :
    (w : Server) (i socket : ℕ) (bytes : List ℕ)
    → AllCarried w
    → socket ≡ (session_at w i).socket
    → bytes ≡ send_buffers (session_at w i).send_q
    → AllCarried (post (log_send w socket bytes) i io_send)
unfolding post log_send
sent-AllCarried w i socket bytes c e e' j =
    let s = session_at w j in
    let n = (if i == j then 1 else 0) + sends j w.sockets.pending in
    elim (ℕ_discrete i j) [
      | no ne ↦
          let same : sends j w.sockets.pending ≡ n = ground (arith, ne) in
          subst (λ m. Carried m s ((socket, bytes) ∷ w.sockets.sent)) same
            (Carried-more (sends j w.sockets.pending) s (socket, bytes) w.sockets.sent (c j))
      | yes here ↦
          let at_socket : s.socket ≡ socket =
            ap (λ k. (session_at w k).socket) (sym here) ∙ sym e in
          let at_bytes : bytes ≡ send_buffers s.send_q =
            e' ∙ ap (λ k. send_buffers (session_at w k).send_q) here in
          subst (λ k. Carried n s ((k, bytes) ∷ w.sockets.sent)) at_socket
            (Carried-new n s bytes w.sockets.sent (c j).0 at_bytes)
    ]

pub AllCarried-Writable : Writable AllCarried
unfolding post
AllCarried-Writable = record {
  base = record {
    books = λ w i sess c e e' same. same-AllCarried w i sess e' same c;
    aside = λ w w' c e pending sent j.
        subst (λ xs. Carried (sends j w'.sockets.pending) (get_or xs j no_session) w'.sockets.sent)
          (sym e)
          (subst (λ ps. Carried (sends j ps) (session_at w j) w'.sockets.sent) (sym pending)
            (subst (λ log. Carried (sends j w.sockets.pending) (session_at w j) log) (sym sent)
              (c j)));
    received = λ w i c. c;
    sent = λ w i socket bytes c e e'. sent-AllCarried w i socket bytes c e e';
  };
  enqueues = λ w i bytes n c.
      set_session-AllCarried w i (enqueue_send (session_at w i) bytes n)
        (Carried-enqueue (sends i w.sockets.pending) (session_at w i) w.sockets.sent bytes n (c i))
        c;
}
