-- ===== src/Server/Sound/Release.antt =====
-- `DisconnectSession` and the two ways to count an operation off.
use native.Mathlib.Decide.{dec_lt}
use game_server_portfolio.Base.{
  count, Bool-cases, ℕ, suc, ◌+◌, ◌<◌, ◌≤◌, ◌≡◌, ◌⊎◌, inl, inr, Bool, true, false, if◌then◌else◌,
  pos, length, ap, ◌∙◌, subst, ℤ, arith, get_or-set_self, get_or-set, length-set,
}
use game_server_portfolio.Server.State.{
  IoType, io_recv, io_send, Session, Server, no_session, session_at, set_session, is_active,
}
use game_server_portfolio.Server.Lobby.{on_release}
use game_server_portfolio.Server.Manager.{disconnect_session, close_socket, clear, free_id_lock}
use game_server_portfolio.Server.Io.{
  dec, request_disconnect, decrement_ref_count, decrement_ref_count_and_release,
}
use game_server_portfolio.Server.Sound.{
  hold, recvs, sends, Held, hold_recv, hold_send, owe, Sound, Slot,
}

pub request_disconnect-Sound :
    (v : Server) (h : Held) (i : ℕ) → Sound v h → Sound (request_disconnect v i) h
unfolding request_disconnect is_active
request_disconnect-Sound v h i s j =
    let sess = record (session_at v i) { disconnect_requested = true } in
    ground (arith, s j, get_or-set v.sessions i j sess no_session, length-set v.sessions i sess)

-- every slot but this one is as it should be
abbrev pub SoundBut : ℕ → Server → Held → Type 0
SoundBut i v h =
    (j : ℕ)
    → (i ≡ j)
      ⊎ Slot (length v.sessions) (session_at v j) j (recvs j v.sockets.pending + h.recv j)
          (sends j v.sockets.pending + h.send j) (h.owed j) (count j v.session_id_stack)

-- The release of a slot on which nothing is in flight.
pub disconnect_session-Sound :
    (v : Server) (h : Held) (i : ℕ)
    → i < length v.sessions
    → (session_at v i).ref_count ≡ pos 0
    → recvs i v.sockets.pending + h.recv i + (sends i v.sockets.pending + h.send i) ≡ 0
    → h.owed i ≤ 1
    → count i v.session_id_stack ≡ 0
    → SoundBut i v h
    → Sound (disconnect_session v i) h
unfolding disconnect_session close_socket on_release clear free_id_lock is_active
disconnect_session-Sound v h i lt none_left quiet few off s j =
    let sess = clear (session_at v i) in
    ground (arith, s j, get_or-set v.sessions i j sess no_session, length-set v.sessions i sess)

abbrev counted_off : Server → ℕ → Server
counted_off v i =
    set_session v i (record (session_at v i) { ref_count = dec (session_at v i).ref_count })

length-counted_off : (v : Server) (i : ℕ) → length (counted_off v i).sessions ≡ length v.sessions
length-counted_off v i =
    length-set v.sessions i (record (session_at v i) { ref_count = dec (session_at v i).ref_count })

counted_off-SoundBut :
    (v : Server) (h h' : Held) (i : ℕ)
    → ((j : ℕ) → (i ≡ j) ⊎ (h.recv j ≡ h'.recv j) × (h.send j ≡ h'.send j) × (h.owed j ≡ h'.owed j))
    → Sound v h
    → SoundBut i (counted_off v i) h'
counted_off-SoundBut v h h' i same s j =
    let sess = record (session_at v i) { ref_count = dec (session_at v i).ref_count } in
    ground
      (arith, s j, same j, get_or-set v.sessions i j sess no_session, length-set v.sessions i sess)

-- The operations in flight on a slot but for those that `h` holds, and those.
abbrev pub in_flight : ℕ → Server → Held → ℕ
in_flight i v h = recvs i v.sockets.pending + h.recv i + (sends i v.sockets.pending + h.send i)

-- A slot on which a handler holds one operation more than `h` says.
pub record InHand (v : Server) (h : Held) (i : ℕ) : Type 0 where
  pub lt : i < length v.sessions
  pub on : is_active (session_at v i) ≡ true
  pub id_is : (session_at v i).id ≡ i
  pub off : count i v.session_id_stack ≡ 0
  pub ref : (session_at v i).ref_count ≡ pos (suc (in_flight i v h))
  pub recv_le : recvs i v.sockets.pending + h.recv i + h.owed i ≤ 1
  pub send_le :
      sends i v.sockets.pending + h.send i ≤ (if (session_at v i).is_sending then 1 else 0)
  pub others : SoundBut i (counted_off v i) h

pub hold-InHand : (t : IoType) (v : Server) (h : Held) (i : ℕ) → Sound v (hold t i h) → InHand v h i
hold-InHand io_recv v h i s =
    let others = counted_off-SoundBut v (hold_recv i h) h i (λ j. ground arith) s in
    ground (arith, s i, others)
hold-InHand io_send v h i s =
    let others = counted_off-SoundBut v (hold_send i h) h i (λ j. ground arith) s in
    ground (arith, s i, others)

-- the session behind `counted_off`
counted_off_at :
    (v : Server) (i : ℕ) {n : ℕ}
    → i < length v.sessions
    → (session_at v i).ref_count ≡ pos (suc n)
    → session_at (counted_off v i) i ≡ record (session_at v i) { ref_count = pos n }
counted_off_at v i {n} lt e =
    get_or-set_self v.sessions i
      (record (session_at v i) { ref_count = dec (session_at v i).ref_count }) no_session lt
    ∙ ap {A = ℤ} {B = Session} (λ c. record (session_at v i) { ref_count = dec c }) e

-- The last operation gone, the slot is released.
gone-Sound :
    (v : Server) (h : Held) (i : ℕ)
    → InHand v h i
    → in_flight i v h ≡ 0
    → Sound (disconnect_session (counted_off v i) i) h
gone-Sound v h i x none_left =
    disconnect_session-Sound (counted_off v i) h i (omega (arith, x.lt, length-counted_off v i))
      (ap (λ s. s.ref_count) (counted_off_at v i x.lt x.ref) ∙ ap pos none_left) none_left
      (omega (arith, x.recv_le)) x.off x.others

-- Operations are left, and the session is to be released with the last one.
left-Sound :
    (v : Server) (h : Held) (i : ℕ)
    → InHand v h i
    → 0 < in_flight i v h
    → Sound (request_disconnect (counted_off v i) i) h
unfolding request_disconnect is_active
left-Sound v h i x some_left j =
    let w = counted_off v i in
    let sess = record (session_at w i) { disconnect_requested = true } in
    ground (
      arith,
      x.others j,
      counted_off_at v i x.lt x.ref,
      length-counted_off v i,
      get_or-set w.sessions i j sess no_session,
      length-set w.sessions i sess,
    )

pub release-Sound :
    (t : IoType) (v : Server) (h : Held) (i : ℕ)
    → Sound v (hold t i h)
    → Sound (decrement_ref_count_and_release v i) h
unfolding decrement_ref_count_and_release
release-Sound t v h i s =
    let x = hold-InHand t v h i s in
    elim (dec_lt 0 (in_flight i v h)) [
      | yes more ↦
          let e : request_disconnect (counted_off v i) i ≡ decrement_ref_count_and_release v i =
            ground (arith, x.ref, more) in
          subst (λ u. Sound u h) e (left-Sound v h i x more)
      | no none_left ↦
          let e : disconnect_session (counted_off v i) i ≡ decrement_ref_count_and_release v i =
            ground (arith, x.ref, x.id_is, none_left) in
          subst (λ u. Sound u h) e (gone-Sound v h i x (omega arith))
    ]

kept-hold_recv :
    (v : Server) (h : Held) (i : ℕ) → Sound v (hold_recv i h) → Sound (counted_off v i) (owe i h)
unfolding is_active
kept-hold_recv v h i s j =
    let x = hold-InHand io_recv v h i s in
    ground (arith, s i, x.others j, counted_off_at v i x.lt x.ref, length-counted_off v i)

kept-hold_send :
    (v : Server) (h : Held) (i : ℕ)
    → Sound v (hold_send i h)
    → ((session_at v i).disconnect_requested ≡ false) ⊎ (0 < in_flight i v h)
    → Sound (counted_off v i) h
unfolding is_active
kept-hold_send v h i s more j =
    let x = hold-InHand io_send v h i s in
    ground (arith, s i, x.others j, counted_off_at v i x.lt x.ref, length-counted_off v i)

-- What a handler has still to do on the session when it has counted its operation off.
abbrev pub after : IoType → ℕ → Held → Held
after io_recv i h = owe i h
after io_send i h = h

-- Behind a send that has been counted off, none is in flight.
abbrev pub NoSend : IoType → Held → ℕ → Server → Type 0
NoSend io_recv h i v = Unit {0}
NoSend io_send h i v = sends i v.sockets.pending + h.send i ≡ 0

-- The two outcomes of `DecrementRefCount`: the slot is released, or the operation is counted off.
abbrev pub CountedOff : IoType → Held → ℕ → Bool × Server → Type 0
CountedOff t h i (true, v) = Sound v h
CountedOff t h i (false, v) =
    Sound v (after t i h) × (is_active (session_at v i) ≡ true) × NoSend t h i v

kept-Sound :
    (t : IoType) (v : Server) (h : Held) (i : ℕ)
    → Sound v (hold t i h)
    → ((session_at v i).disconnect_requested ≡ false) ⊎ (0 < in_flight i v h)
    → CountedOff t h i (false, counted_off v i)
unfolding is_active
kept-Sound t v h i s more =
    let x = hold-InHand t v h i s in
    (by_type t v h i s more, ap is_active (counted_off_at v i x.lt x.ref) ∙ x.on, no_send t v h i s)
  where
    by_type :
        (t : IoType) (v : Server) (h : Held) (i : ℕ)
        → Sound v (hold t i h)
        → ((session_at v i).disconnect_requested ≡ false) ⊎ (0 < in_flight i v h)
        → Sound (counted_off v i) (after t i h)
    by_type io_recv v h i s more = kept-hold_recv v h i s
    by_type io_send v h i s more = kept-hold_send v h i s more

    no_send :
        (t : IoType) (v : Server) (h : Held) (i : ℕ)
        → Sound v (hold t i h)
        → NoSend t h i (counted_off v i)
    no_send io_recv v h i s = tt
    no_send io_send v h i s = ground (arith, s i)

pub decrement_ref_count-Sound :
    (t : IoType) (v : Server) (h : Held) (i : ℕ)
    → Sound v (hold t i h)
    → CountedOff t h i (decrement_ref_count v i)
unfolding decrement_ref_count is_active
decrement_ref_count-Sound t v h i s =
    let x = hold-InHand t v h i s in
    elim (dec_lt 0 (in_flight i v h)) [
      | yes more ↦
          let e : (false, counted_off v i) ≡ decrement_ref_count v i =
            ground (arith, x.ref, more) in
          subst (CountedOff t h i) e (kept-Sound t v h i s (inr more))
      | no none_left ↦ elim (Bool-cases (session_at v i).disconnect_requested) [
        | inl asked ↦
            let e : (true, disconnect_session (counted_off v i) i) ≡ decrement_ref_count v i =
              ground (arith, x.ref, x.id_is, none_left, asked) in
            subst (CountedOff t h i) e (gone-Sound v h i x (omega arith))
        | inr unasked ↦
            let e : (false, counted_off v i) ≡ decrement_ref_count v i =
              ground (arith, x.ref, unasked) in
            subst (CountedOff t h i) e (kept-Sound t v h i s (inl unasked))
      ]
    ]
