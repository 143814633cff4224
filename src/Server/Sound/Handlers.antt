-- ===== src/Server/Sound/Handlers.antt =====
-- The handlers of a completed operation and of an accepted client.
use native.Mathlib.Decide.{ℕ_discrete}
use game_server_portfolio.Base.{
  get_or-set, length-set, Bool-cases, ℕ, zero, suc, ◌+◌, ◌≡◌, ◌⊎◌, inl, inr, Bool, true, false,
  List, ltb, ℤ, pos, refl, subst, Option, none, some, of-some, bind-some, arith, Option-cases,
}
use game_server_portfolio.RingBuffer.{CRingBuffer, get_use_size, move_rear, move_front}
use game_server_portfolio.Server.State.{
  IoType, io_recv, io_send, Server, no_session, session_at, set_session, is_active,
}
use game_server_portfolio.Server.Io.{
  decrement_ref_count, decrement_ref_count_and_release, post_send,
}
use game_server_portfolio.Server.Message.{on_message}
use game_server_portfolio.Server.Handlers.{
  header_len, check_header, set_recv_q, is_zero, recv_again, send_rest, take_message, recv_loop,
  on_recv, on_send, worker_round,
}
use game_server_portfolio.Server.Sound.{sends, Held, hold, hold_recv, hold_send, Sound}
use game_server_portfolio.Server.Sound.Release.{
  release-Sound, CountedOff, decrement_ref_count-Sound,
}
use game_server_portfolio.Server.Sound.Post.{same-Sound, post_recv-Sound, post_send-Sound}
use game_server_portfolio.Server.Sound.Messages.{on_message-Sound}

module _ (fresh : List ℕ) (garbage : ℕ) where
  set_recv_q-Sound :
      (v : Server) (h : Held) (i : ℕ) (q : CRingBuffer) → Sound v h → Sound (set_recv_q v i q) h
  unfolding is_active
  set_recv_q-Sound v h i q s =
      same-Sound v h i (record (session_at v i) { recv_q = q }) refl refl refl refl refl s

  recv_loop-Sound :
      (fuel : ℕ) (v v' : Server) (h : Held) (i : ℕ)
      → Sound v h
      → recv_loop fresh garbage fuel v i ≡ some v'
      → Sound v' h
  unfolding recv_loop check_header
  recv_loop-Sound zero v v' h i s e = subst (λ u. Sound u h) (of-some e) s
  recv_loop-Sound (suc fuel) v v' h i s e =
      let q = (session_at v i).recv_q in
      let len = header_len q in
      elim (Option-cases (take_message fresh garbage q len)) [
        | inl none_taken ↦
            let same : v ≡ v' = ground (arith, e, none_taken) in subst (λ u. Sound u h) same s
        | inr ((packet, q'), taken) ↦
            let w = on_message fresh garbage (set_recv_q v i q') i 0 packet in
            let sw : Sound w h =
              on_message-Sound fresh garbage (set_recv_q v i q') h i 0 packet
                (set_recv_q-Sound v h i q' s) in
            let outcome : (v ≡ v') ⊎ (recv_loop fresh garbage fuel w i ≡ some v') =
              ground (arith, e, taken) in
            elim outcome [
              | inl same ↦ subst (λ u. Sound u h) same s
              | inr more ↦ recv_loop-Sound fuel w v' h i sw more
            ]
      ]

  -- The end of `OnRecv`, which posts the next receive if the slot was not released.
  recv_again-Sound :
      (r : Bool × Server) (h : Held) (i : ℕ) → CountedOff io_recv h i r → Sound (recv_again r i) h
  unfolding recv_again
  recv_again-Sound (true, v) h i s = s
  recv_again-Sound (false, v) h i (s, on, _) = post_recv-Sound v h i s

  on_recv-Sound :
      (v v' : Server) (h : Held) (i n : ℕ)
      → Sound v (hold_recv i h)
      → on_recv fresh garbage v i n ≡ some v'
      → Sound v' h
  unfolding on_recv
  on_recv-Sound v v' h i n s e = elim (Option-cases (move_rear (session_at v i).recv_q (pos n))) [
    | inl stuck ↦ ground (arith, e, stuck)
    | inr ((moved, q), found) ↦
        let v₁ = set_recv_q v i q in
        let s₁ : Sound v₁ (hold_recv i h) = set_recv_q-Sound v (hold_recv i h) i q s in
        elim (Bool-cases (is_zero moved)) [
          | inl full ↦
              let same : decrement_ref_count_and_release v₁ i ≡ v' =
                ground (arith, e, found, full) in
              subst (λ u. Sound u h) same (release-Sound io_recv v₁ h i s₁)
          | inr some_moved ↦
              elim (Option-cases (recv_loop fresh garbage (suc (get_use_size q)) v₁ i)) [
                | inl stuck ↦ ground (arith, e, found, some_moved, stuck)
                | inr (v₂, looped) ↦
                    let s₂ =
                      recv_loop-Sound (suc (get_use_size q)) v₁ v₂ (hold_recv i h) i s₁ looped in
                    let off = decrement_ref_count-Sound io_recv v₂ h i s₂ in
                    let same : recv_again (decrement_ref_count v₂ i) i ≡ v' =
                      ground (arith, e, found, some_moved, looped) in
                    subst (λ u. Sound u h) same
                      (recv_again-Sound (decrement_ref_count v₂ i) h i off)
              ]
        ]
  ]

  send_rest-Sound : (v : Server) (h : Held) (i : ℕ) → Sound v h → Sound (send_rest v i) h
  unfolding send_rest
  send_rest-Sound v h i s = elim (Bool-cases (ltb 0 (get_use_size (session_at v i).send_q))) [
    | inl more ↦
        let same : (post_send v i).1 ≡ send_rest v i = ground (arith, more) in
        subst (λ u. Sound u h) same (post_send-Sound v h i s)
    | inr none_left ↦
        let same : v ≡ send_rest v i = ground (arith, none_left) in subst (λ u. Sound u h) same s
  ]

  -- The end of `OnSend` behind `DecrementRefCount`.
  sent-Sound :
      (v : Server) (h : Held) (i : ℕ) (q : CRingBuffer)
      → sends i v.sockets.pending + h.send i ≡ 0
      → Sound v h
      → Sound (set_session v i (record (session_at v i) { send_q = q; is_sending = false })) h
  unfolding is_active
  sent-Sound v h i q none_left s j =
      let sess = record (session_at v i) { send_q = q; is_sending = false } in
      elim (ℕ_discrete i j) [
        | yes e ↦ ground (
          arith,
          e,
          s j,
          none_left,
          get_or-set v.sessions i j sess no_session,
          length-set v.sessions i sess,
        )
        | no ne ↦
            ground
              (arith, s j, get_or-set v.sessions i j sess no_session, length-set v.sessions i sess)
      ]

  abbrev on_sent : Bool × Server → ℕ → ℕ → Option Server
  on_sent (true, v) i n = some v
  on_sent (false, v) i n = elim (move_front (session_at v i).send_q (pos n)) [
    | none ↦ none
    | some (_, q) ↦
        some (
          send_rest (set_session v i (record (session_at v i) { send_q = q; is_sending = false }))
            i)
  ]

  on_sent-Sound :
      (r : Bool × Server) (v' : Server) (h : Held) (i n : ℕ)
      → CountedOff io_send h i r
      → on_sent r i n ≡ some v'
      → Sound v' h
  on_sent-Sound (true, v) v' h i n s e = subst (λ u. Sound u h) (of-some e) s
  on_sent-Sound (false, v) v' h i n (s, on, none_left) e =
      let next : ℤ × CRingBuffer → Server = λ x.
        send_rest (set_session v i (record (session_at v i) { send_q = x.1; is_sending = false }))
          i in
      let (x, _, e') =
        bind-some (move_front (session_at v i).send_q (pos n)) (λ x. some (next x)) e in
      let w = set_session v i (record (session_at v i) { send_q = x.1; is_sending = false }) in
      subst (λ u. Sound u h) (of-some e') (send_rest-Sound w h i (sent-Sound v h i x.1 none_left s))

  on_send_lem :
      (r : Bool × Server) (v v' : Server) (h : Held) (i n : ℕ)
      → decrement_ref_count v i ≡ r
      → CountedOff io_send h i r
      → on_send fresh garbage v i n ≡ some v'
      → on_sent r i n ≡ some v'
  unfolding on_send
  on_send_lem (true, v₁) v v' h i n counted off e = ground (arith, counted, e)
  on_send_lem (false, v₁) v v' h i n counted (s, on, none_left) e =
      elim (Option-cases (move_front (session_at v₁ i).send_q (pos n))) [
        | inl stuck ↦ ground (arith, counted, e, on, stuck)
        | inr (x, moved) ↦ ground (arith, counted, e, on, moved)
      ]

  on_send-Sound :
      (v v' : Server) (h : Held) (i n : ℕ)
      → Sound v (hold_send i h)
      → on_send fresh garbage v i n ≡ some v'
      → Sound v' h
  on_send-Sound v v' h i n s e =
      let off = decrement_ref_count-Sound io_send v h i s in
      on_sent-Sound (decrement_ref_count v i) v' h i n off
        (on_send_lem (decrement_ref_count v i) v v' h i n refl off e)

  pub worker_round-Sound :
      (v v' : Server) (h : Held) (i : ℕ) (type : IoType) (n : ℕ)
      → Sound v (hold type i h)
      → worker_round fresh garbage v i type n ≡ some v'
      → Sound v' h
  unfolding worker_round
  worker_round-Sound v v' h i type zero s e =
      subst (λ u. Sound u h) (of-some e) (release-Sound type v h i s)
  worker_round-Sound v v' h i io_recv (suc n) s e = on_recv-Sound v v' h i (suc n) s e
  worker_round-Sound v v' h i io_send (suc n) s e = on_send-Sound v v' h i (suc n) s e
