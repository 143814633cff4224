-- ===== src/Server/Looping.antt =====
-- `Session::OnRecv` of NetLib/Session.cpp: its loop over the messages in the receive queue.
use native.Mathlib.Decide.{dec_lt}
use game_server_portfolio.Base.{
  min, get_or-set_self, length-drop, length, ap, sym, refl, ◌∙◌, subst, ◌⊎◌, Bool-cases,
  Option-cases, ℕ, zero, suc, ◌<◌, ◌≤◌, ◌≡◌, inl, inr, List, ltb, ℤ, pos, negsuc, Option, none,
  some, arith,
}
use game_server_portfolio.RingBuffer.{CRingBuffer, get_use_size, dequeue}
use game_server_portfolio.RingBuffer.Valid.{IsValid, contents, length-contents}
use game_server_portfolio.RingBuffer.Dequeue.{Drops, dequeue_refines, move_front_refines}
use game_server_portfolio.Packet.{CPacket, buffer_default, create_default, move_write_pos}
use game_server_portfolio.Server.State.{Server, no_session, session_at}
use game_server_portfolio.Server.Message.{header_size, on_message}
use game_server_portfolio.Server.Handlers.{
  header_len, message_size, check_header, set_recv_q, fill, take_message, recv_loop,
}
use game_server_portfolio.Server.Sound.Post.{get_or-beyond}
use game_server_portfolio.Server.Stable.Messages.{on_message-Stable}
use game_server_portfolio.Server.Frame.{Frame, AllOf-refl, AllOf-Writable}

-- What leaves the receive queue as it is.
SameRecv-Frame : Frame (λ s t. t.recv_q ≡ s.recv_q)
SameRecv-Frame = record {
  base = record { along = λ s t u a b. b ∙ a; books = λ s t same _. same };
  enqueues = λ s bytes n. refl;
}

-- A queue that holds bytes is that of a session.
held-lt : (v : Server) (i : ℕ) → 0 < get_use_size (session_at v i).recv_q → i < length v.sessions
unfolding get_use_size
held-lt v i some_held = elim (dec_lt i (length v.sessions)) [
  | yes lt ↦ lt
  | no out ↦ ground (arith, some_held, get_or-beyond v.sessions i no_session)
]

-- What is left of a queue is shorter.
record Shorter (q q' : CRingBuffer) : Type 0 where
  valid : IsValid q'
  less : get_use_size q' < get_use_size q

Drops-Shorter :
    (q q' : CRingBuffer) (n : ℕ) → 0 < n → n ≤ get_use_size q → Drops q n q' → Shorter q q'
Drops-Shorter q q' n some_dropped held d = record {
  valid = d.valid;
  less =
      omega (
        arith,
        length-contents q,
        length-contents q',
        ap length d.bytes,
        length-drop n (contents q),
      );
}

dequeue-IsValid :
    (q : CRingBuffer) (len : ℤ)
    → IsValid q
    → IsValid (dequeue q len).2 × (get_use_size (dequeue q len).2 ≤ get_use_size q)
unfolding dequeue
dequeue-IsValid q (negsuc n) v = ground (arith, v)
dequeue-IsValid q (pos n) v =
    let q' = (dequeue q (pos n)).2 in
    let (_, _, d) = dequeue_refines q n v in
    (
      d.valid,
      omega (
        arith,
        length-contents q,
        length-contents q',
        ap length d.bytes,
        length-drop (min n (get_use_size q)) (contents q),
      ),
    )

-- No whole message is at the front of the queue.
abbrev pub IsIncomplete : CRingBuffer → Type 0
IsIncomplete q = (get_use_size q ≤ header_size) ⊎ (get_use_size q < message_size (header_len q))

-- what the loop returns on enough fuel
abbrev pub Ends : ℕ → Option Server → Type 0
Ends i none = Unit {0}
Ends i (some w) = IsIncomplete (session_at w i).recv_q

module _ (fresh : List ℕ) (garbage : ℕ) where
  take_message-Shorter :
      (q q' : CRingBuffer) (len : ℤ) (packet : CPacket)
      → IsValid q
      → header_size < get_use_size q
      → take_message fresh garbage q len ≡ some (packet, q')
      → Shorter q q'
  unfolding take_message
  take_message-Shorter q q' len packet v held e = elim (move_front_refines q header_size v) [
    | inr (short, _) ↦ absurd (omega arith)
    | inl (_, q₁, moved, d) ↦
        let s₁ = Drops-Shorter q q₁ header_size (omega arith) (omega arith) d in
        let (v₂, less) = dequeue-IsValid q₁ len s₁.valid in
        let bytes = (dequeue q₁ len).1 in
        let filled = move_write_pos (fill (create_default fresh) bytes) len in
        let q₂_is : (dequeue q₁ len).2 ≡ q' =
          elim (Bool-cases (ltb buffer_default (length bytes))) [
            | inl over ↦ ground (arith, e, moved, over)
            | inr fits ↦ elim (Option-cases filled) [
              | inl wrong ↦ ground (arith, e, moved, fits, wrong)
              | inr (x, right) ↦ ground (arith, e, moved, fits, right)
            ]
          ] in
        subst (Shorter q) q₂_is (record { valid = v₂; less = omega (arith, less, s₁.less) })
  ]

  -- The three ways a round of the loop can go.
  abbrev Stops : Server → ℕ → Type 0
  Stops v i =
      IsIncomplete (session_at v i).recv_q
      × ((fuel : ℕ) → recv_loop fresh garbage (suc fuel) v i ≡ some v)

  abbrev Fails : Server → ℕ → Type 0
  Fails v i = (fuel : ℕ) → recv_loop fresh garbage (suc fuel) v i ≡ none

  abbrev GoesOn : Server → ℕ → Type 0
  GoesOn v i =
      (w : Server) × Shorter (session_at v i).recv_q (session_at w i).recv_q
      × ((fuel : ℕ) → recv_loop fresh garbage (suc fuel) v i ≡ recv_loop fresh garbage fuel w i)

  round_cases :
      (v : Server) (i : ℕ) → IsValid (session_at v i).recv_q → Stops v i ⊎ Fails v i ⊎ GoesOn v i
  unfolding recv_loop check_header
  round_cases v i valid =
      let q = (session_at v i).recv_q in
      let len = header_len q in
      elim (dec_lt header_size (get_use_size q)) [
        | no short ↦ inl (inl (omega arith), λ fuel. ground (arith, short))
        | yes long ↦ elim (dec_lt (get_use_size q) (message_size len)) [
          | yes part ↦ inl (inr part, λ fuel. ground (arith, long, part))
          | no whole ↦ elim (Option-cases (take_message fresh garbage q len)) [
            | inl wrong ↦ inr (inl (λ fuel. ground (arith, long, whole, wrong)))
            | inr ((packet, q'), taken) ↦
                let lt = held-lt v i (omega arith) in
                let v₁ = set_recv_q v i q' in
                let w = on_message fresh garbage v₁ i 0 packet in
                let sess = record (session_at v i) { recv_q = q' } in
                let q'_is : q' ≡ (session_at w i).recv_q = sym (
                  on_message-Stable (AllOf-Writable SameRecv-Frame v₁) fresh garbage v₁ i 0 packet
                    (AllOf-refl SameRecv-Frame.base v₁) i
                  ∙ ap (λ s. s.recv_q) (get_or-set_self v.sessions i sess no_session lt)) in
                let s = take_message-Shorter q q' len packet valid long taken in
                inr (inr (w, subst (Shorter q) q'_is s, λ fuel. ground (arith, long, whole, taken)))
          ]
        ]
      ]

  recv_loop_agrees :
      (fuel fuel' : ℕ) (v : Server) (i : ℕ)
      → IsValid (session_at v i).recv_q
      → get_use_size (session_at v i).recv_q < fuel
      → get_use_size (session_at v i).recv_q < fuel'
      → recv_loop fresh garbage fuel v i ≡ recv_loop fresh garbage fuel' v i
  recv_loop_agrees zero fuel' v i valid enough enough' = absurd (omega arith)
  recv_loop_agrees (suc fuel) zero v i valid enough enough' = absurd (omega arith)
  recv_loop_agrees (suc fuel) (suc fuel') v i valid enough enough' = elim (round_cases v i valid) [
    | inl (_, runs) ↦ runs fuel ∙ sym (runs fuel')
    | inr (inl fails) ↦ fails fuel ∙ sym (fails fuel')
    | inr (inr (w, s, runs)) ↦
        runs fuel
        ∙ recv_loop_agrees fuel fuel' w i s.valid (omega (arith, s.less)) (omega (arith, s.less))
        ∙ sym (runs fuel')
  ]

  recv_loop-Ends :
      (fuel : ℕ) (v : Server) (i : ℕ)
      → IsValid (session_at v i).recv_q
      → get_use_size (session_at v i).recv_q < fuel
      → Ends i (recv_loop fresh garbage fuel v i)
  recv_loop-Ends zero v i valid enough = absurd (omega arith)
  recv_loop-Ends (suc fuel) v i valid enough = elim (round_cases v i valid) [
    | inl (done, runs) ↦ subst (Ends i) (sym (runs fuel)) done
    | inr (inl fails) ↦ subst (Ends i) (sym (fails fuel)) tt
    | inr (inr (w, s, runs)) ↦
        subst (Ends i) (sym (runs fuel)) (recv_loop-Ends fuel w i s.valid (omega (arith, s.less)))
  ]

  -- On a valid receive queue the loop of `OnRecv` ends: with more fuel than there are bytes in the
  -- queue it returns what it returns on one round more than there are bytes, and unless it ran into
  -- undefined behaviour, no whole message is then at the front of the queue.
  pub recv_loop_terminates :
      (fuel : ℕ) (v : Server) (i : ℕ)
      → IsValid (session_at v i).recv_q
      → get_use_size (session_at v i).recv_q < fuel
      → (recv_loop fresh garbage fuel v i
          ≡ recv_loop fresh garbage (suc (get_use_size (session_at v i).recv_q)) v i)
        × Ends i (recv_loop fresh garbage fuel v i)
  recv_loop_terminates fuel v i valid enough = (
    recv_loop_agrees fuel (suc (get_use_size (session_at v i).recv_q)) v i valid enough
        (omega arith),
    recv_loop-Ends fuel v i valid enough,
  )
