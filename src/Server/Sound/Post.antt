-- ===== src/Server/Sound/Post.antt =====
-- `PostRecv`, `PostSend` and the calls that end in `PostSend`.
use native.Mathlib.Decide.{dec_lt, ℕ_discrete}
use game_server_portfolio.Base.{
  count, get_or, set, get_or-set_self, get_or-set_ne, set-set, Bool-cases, ℕ, zero, suc, ◌+◌, ◌<◌,
  ◌≤◌, ◌≡◌, inl, inr, true, false, List, [], ◌∷◌, length, ap, sym, ◌∙◌, refl, subst, arith,
  get_or-set, length-set,
}
use game_server_portfolio.Server.State.{
  IoType, io_recv, io_send, Session, Server, no_session, session_at, set_session, is_active,
  verdict,
}
use game_server_portfolio.Server.Io.{
  inc, ask, post, log_send, send_buffers, increment_ref_count, decrement_ref_count_and_release,
  post_recv, post_send,
}
use game_server_portfolio.Server.Sound.{
  recvs, sends, Held, hold, hold_recv, hold_send, owe, Sound, Slot,
}
use game_server_portfolio.Server.Sound.Release.{release-Sound}

post-Sound :
    (t : IoType) (v : Server) (h : Held) (i : ℕ) → Sound v (hold t i h) → Sound (post v i t) h
unfolding post
post-Sound io_recv v h i s j = ground (arith, s j)
post-Sound io_send v h i s j = ground (arith, s j)

-- A change of a session that none of the counts and marks of its slot show.
pub same-Sound :
    (v : Server) (h : Held) (i : ℕ) (sess : Session)
    → is_active sess ≡ is_active (session_at v i)
    → sess.id ≡ (session_at v i).id
    → sess.ref_count ≡ (session_at v i).ref_count
    → sess.disconnect_requested ≡ (session_at v i).disconnect_requested
    → sess.is_sending ≡ (session_at v i).is_sending
    → Sound v h
    → Sound (set_session v i sess) h
same-Sound v h i sess a b c d e s j =
    ground (arith, s j, get_or-set v.sessions i j sess no_session, length-set v.sessions i sess)

increment-owed :
    (v : Server) (h : Held) (i : ℕ)
    → is_active (session_at v i) ≡ true
    → Sound v (owe i h)
    → Sound (increment_ref_count v i) (hold_recv i h)
unfolding increment_ref_count is_active
increment-owed v h i on s j =
    let sess = record (session_at v i) { ref_count = inc (session_at v i).ref_count } in
    ground (arith, s j, get_or-set v.sessions i j sess no_session, length-set v.sessions i sess)

-- A session that has gone owes nothing.
gone-owed :
    (v : Server) (h : Held) (i : ℕ)
    → is_active (session_at v i) ≡ false
    → Sound v (owe i h)
    → Sound v h
gone-owed v h i off s j = ground (arith, s j)

pub post_recv-Sound :
    (v : Server) (h : Held) (i : ℕ) → Sound v (owe i h) → Sound (post_recv v i).1 h
unfolding post_recv
post_recv-Sound v h i s = elim (Bool-cases (is_active (session_at v i))) [
  | inr off ↦
      let e : v ≡ (post_recv v i).1 = ground (arith, off) in
      subst (λ u. Sound u h) e (gone-owed v h i off s)
  | inl on ↦
      let v₁ = increment_ref_count v i in
      let held : Sound (ask v₁) (hold_recv i h) = increment-owed v h i on s in
      elim (Bool-cases (verdict v.sockets.accepted)) [
        | inl yes_sir ↦
            let e : post (ask v₁) i io_recv ≡ (post_recv v i).1 = ground (arith, on, yes_sir) in
            subst (λ u. Sound u h) e (post-Sound io_recv (ask v₁) h i held)
        | inr refused ↦
            let e : decrement_ref_count_and_release (ask v₁) i ≡ (post_recv v i).1 =
              ground (arith, on, refused) in
            subst (λ u. Sound u h) e (release-Sound io_recv (ask v₁) h i held)
      ]
]

-- A session is marked as sending, and the send counted.
abbrev marked : Session → Session
marked s = record s { ref_count = inc s.ref_count; is_sending = true }

pub get_or-beyond {ℓ} :
    {A : Type ℓ} (xs : List A) (i : ℕ) (d : A) → length xs ≤ i → get_or xs i d ≡ d
get_or-beyond [] i d h = refl
get_or-beyond (x ∷ xs) zero d h = absurd (omega arith)
get_or-beyond (x ∷ xs) (suc i) d h = get_or-beyond xs i d (omega arith)

-- What stands for a session outside the vector is not active.
pub active-lt : (v : Server) (i : ℕ) → is_active (session_at v i) ≡ true → i < length v.sessions
unfolding is_active
active-lt v i on = elim (dec_lt i (length v.sessions)) [
  | yes lt ↦ lt
  | no out ↦ ground (arith, get_or-beyond v.sessions i no_session)
]

mark-Slot :
    (n : ℕ) (sess : Session) (j r w g f : ℕ)
    → j < n
    → is_active sess ≡ true
    → sess.is_sending ≡ false
    → Slot n sess j r w g f
    → Slot n (marked sess) j r (suc w) g f
unfolding is_active
mark-Slot n sess j r w g f lt on idle (inl (_, ok)) =
    let none_sent : w ≡ 0 = ground (arith, ok.one_send) in
    inl (
      lt,
      record {
        counted = ground (arith, ok.counted);
        one_recv = ok.one_recv;
        one_send = omega arith;
        use_of = ground (arith, ok.use_of);
      },
    )
mark-Slot n sess j r w g f lt on idle (inr (out, _, _, _, _)) = absurd (omega arith)

mark-Sound :
    (v : Server) (h : Held) (i : ℕ)
    → is_active (session_at v i) ≡ true
    → (session_at v i).is_sending ≡ false
    → Sound v h
    → Sound (set_session v i (marked (session_at v i))) (hold_send i h)
mark-Sound v h i on idle s j =
    let sess = marked (session_at v i) in
    let lt = active-lt v i on in
    let slot =
      mark-Slot (length v.sessions) (session_at v i) i (recvs i v.sockets.pending + h.recv i)
        (sends i v.sockets.pending + h.send i) (h.owed i) (count i v.session_id_stack) lt on idle
        (s i) in
    elim (ℕ_discrete i j) [
      | yes e ↦
          let here : session_at (set_session v i sess) j ≡ sess =
            ground (arith, e, get_or-set_self v.sessions i sess no_session lt) in
          ground (arith, e, slot, here, length-set v.sessions i sess)
      | no ne ↦
          let there : session_at (set_session v i sess) j ≡ session_at v j =
            get_or-set_ne v.sessions sess no_session ne in
          ground (arith, s j, there, length-set v.sessions i sess)
    ]

mark_lem :
    (v : Server) (i : ℕ)
    → i < length v.sessions
    → let v₁ = increment_ref_count v i in
      set_session v i (marked (session_at v i))
      ≡ set_session v₁ i (record (session_at v₁ i) { is_sending = true })
unfolding increment_ref_count
mark_lem v i lt =
    let sess = record (session_at v i) { ref_count = inc (session_at v i).ref_count } in
    ap {A = List Session} {B = Server} (λ l. record v { sessions = l })
      (sym (
        set-set v.sessions i sess
          (record (get_or (set v.sessions i sess) i no_session) { is_sending = true })
        ∙ ap {A = Session} (λ x. set v.sessions i (record x { is_sending = true }))
            (get_or-set_self v.sessions i sess no_session lt)))

pub post_send-Sound : (v : Server) (h : Held) (i : ℕ) → Sound v h → Sound (post_send v i).1 h
unfolding post_send log_send
post_send-Sound v h i s = elim (Bool-cases (is_active (session_at v i))) [
  | inr off ↦ let e : v ≡ (post_send v i).1 = ground (arith, off) in subst (λ u. Sound u h) e s
  | inl on ↦ elim (Bool-cases (session_at v i).is_sending) [
    | inl busy ↦
        let e : v ≡ (post_send v i).1 = ground (arith, on, busy) in subst (λ u. Sound u h) e s
    | inr idle ↦
        let v₁ = increment_ref_count v i in
        let v₂ = set_session v₁ i (record (session_at v₁ i) { is_sending = true }) in
        let bytes = send_buffers (session_at v i).send_q in
        let held : Sound v₂ (hold_send i h) =
          subst (λ u. Sound u (hold_send i h)) (mark_lem v i (active-lt v i on))
            (mark-Sound v h i on idle s) in
        elim (Bool-cases (verdict v.sockets.accepted)) [
          | inl yes_sir ↦
              let w = log_send (ask v₂) (session_at v i).socket bytes in
              let e : post w i io_send ≡ (post_send v i).1 = ground (arith, on, idle, yes_sir) in
              subst (λ u. Sound u h) e (post-Sound io_send w h i held)
          | inr refused ↦
              let e : decrement_ref_count_and_release (ask v₂) i ≡ (post_send v i).1 =
                ground (arith, on, idle, refused) in
              subst (λ u. Sound u h) e (release-Sound io_send (ask v₂) h i held)
        ]
  ]
]
