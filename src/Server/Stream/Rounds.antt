-- ===== src/Server/Stream/Rounds.antt =====
-- NetLib/Session.cpp and NetLib/LanServer.cpp: the rings behind one round of a worker thread.
use native.Mathlib.Decide.{dec_lt}
use native.Mathlib.Nat.{mod-lt}
use game_server_portfolio.Base.{
  ap, sym, ◌∙◌, refl, subst, ◌⊎◌, inl, inr, ℕ, zero, suc, ◌+◌, ◌%◌, ltb, ◌≡◌, leb, if◌then◌else◌,
  List, [], append-nil, length, drop, pos, negsuc, ℤ, arith, some, of-some, bind-some, Bool-cases,
  Option-cases,
}
use game_server_portfolio.RingBuffer.{
  CRingBuffer, get_use_size, get_free_size, move_rear, move_front, dequeue, shifted,
}
use game_server_portfolio.RingBuffer.Valid.{IsValid, contents}
use game_server_portfolio.RingBuffer.Dequeue.{Drops, dequeue_refines, move_front_refines}
use game_server_portfolio.Packet.{CPacket, buffer_default, create_default, move_write_pos}
use game_server_portfolio.Server.State.{Server, session_at}
use game_server_portfolio.Server.Io.{decrement_ref_count, decrement_ref_count_and_release}
use game_server_portfolio.Server.Message.{header_size, on_message}
use game_server_portfolio.Server.Handlers.{
  header_len, check_header, set_recv_q, is_zero, fill, take_message, recv_loop, recv_again, on_recv,
}
use game_server_portfolio.Server.Stable.{
  Writable, decrement-Stable, recv_again-Stable, release-Stable,
}
use game_server_portfolio.Server.Stable.Messages.{on_message-Stable}
use game_server_portfolio.Server.Frame.{AllOf, AllOf-refl, set_session-AllOf, AllOf-Writable}
use game_server_portfolio.Server.Stream.{
  Kept, Kept-refl, Kept-trans, Moves, Moves-refl, Flows, Flows-Frame,
}

Drops-Kept : (q : CRingBuffer) (n : ℕ) (q' : CRingBuffer) → Drops q n q' → Kept q q'
Drops-Kept q n q' d = record { valid = d.valid; size_is = d.size_kept }

-- `MoveFront` by a size that is not negative takes that many bytes off, or none.
pub move_front-Moves :
    (q q' : CRingBuffer) (n : ℕ) (m : ℤ)
    → IsValid q
    → move_front q (pos n) ≡ some (m, q')
    → Moves (if leb n (get_use_size q) then n else 0) q q'
move_front-Moves q q' n m v e = elim (move_front_refines q n v) [
  | inl (held, r, moved, d) ↦
      let same : r ≡ q' = ap (λ x. x.1) (of-some (sym moved ∙ e)) in
      let k : n ≡ (if leb n (get_use_size q) then n else 0) = ground (arith, held) in
      subst (λ j. Moves j q q') k
        (subst (Moves n q) same
          (Drops-Kept q n r d, [], d.bytes ∙ sym (append-nil (drop n (contents q)))))
  | inr (short, moved) ↦
      let same : q ≡ q' = ap (λ x. x.1) (of-some (sym moved ∙ e)) in
      let k : 0 ≡ (if leb n (get_use_size q) then n else 0) = ground (arith, short) in
      subst (λ j. Moves j q q') k (subst (Moves 0 q) same (Moves-refl q v))
]

move_rear-Kept :
    (q q' : CRingBuffer) (n : ℕ) (m : ℤ)
    → IsValid q
    → move_rear q (pos n) ≡ some (m, q')
    → Kept q q'
unfolding move_rear shifted
move_rear-Kept q q' n m v e = elim (dec_lt (get_free_size q) n) [
  | yes full ↦ let same : q ≡ q' = ground (arith, e, full) in subst (Kept q) same (Kept-refl q v)
  | no fits ↦
      let same : record q { rear = (q.rear + n) % q.size } ≡ q' = ground (arith, e, fits) in
      subst (Kept q) same
        (record { valid = ground (arith, v, mod-lt (q.rear + n) {m = q.size}); size_is = refl })
]

dequeue-Kept : (q : CRingBuffer) (len : ℤ) → IsValid q → Kept q (dequeue q len).2
unfolding dequeue
dequeue-Kept q (negsuc n) v =
    subst (Kept q) (let e : q ≡ (dequeue q (negsuc n)).2 = ground arith in e) (Kept-refl q v)
dequeue-Kept q (pos n) v =
    let (_, _, d) = dequeue_refines q n v in Drops-Kept q _ (dequeue q (pos n)).2 d

-- What a change of a receive ring that keeps it valid keeps, too.
pub record Receivable (P : Server → Type 0) : Type 0 where
  pub base : Writable P
  pub receives :
      (w : Server) (i : ℕ) (q : CRingBuffer)
      → P w
      → (IsValid (session_at w i).recv_q → Kept (session_at w i).recv_q q)
      → P (set_recv_q w i q)

Flows-Receivable : (v : Server) → Receivable (AllOf (Flows 0) v)
Flows-Receivable v = record {
  base = AllOf-Writable Flows-Frame v;
  receives = λ w i q s kept.
      set_session-AllOf Flows-Frame.base v w i (record (session_at w i) { recv_q = q }) s
        (kept, λ valid. Moves-refl (session_at w i).send_q valid);
}

module _ (fresh : List ℕ) (garbage : ℕ) where
  take_message-Kept :
      (q q' : CRingBuffer) (len : ℤ) (packet : CPacket)
      → take_message fresh garbage q len ≡ some (packet, q')
      → IsValid q
      → Kept q q'
  unfolding take_message
  take_message-Kept q q' len packet e v =
      let (x, moved, e') = bind-some (move_front q (pos header_size)) _ e in
      let (kept, _, _) = move_front-Moves q x.1 header_size x.0 v moved in
      let rest = dequeue x.1 len in
      let filled = move_write_pos (fill (create_default fresh) rest.1) len in
      let same : rest.2 ≡ q' = elim (Bool-cases (ltb buffer_default (length rest.1))) [
        | inl over ↦ ground (arith, e', over)
        | inr fits ↦ elim (Option-cases filled) [
          | inl wrong ↦ ground (arith, e', fits, wrong)
          | inr (y, right) ↦ ground (arith, e', fits, right)
        ]
      ] in
      subst (Kept q) same (Kept-trans q x.1 rest.2 kept (dequeue-Kept x.1 len kept.valid))

  recv_loop-Receivable :
      {P : Server → Type 0} (f : Receivable P) (fuel : ℕ) (w v' : Server) (i : ℕ)
      → P w
      → recv_loop fresh garbage fuel w i ≡ some v'
      → P v'
  unfolding recv_loop check_header
  recv_loop-Receivable {P} f zero w v' i s e = subst P (of-some e) s
  recv_loop-Receivable {P} f (suc fuel) w v' i s e =
      let q = (session_at w i).recv_q in
      elim (Option-cases (take_message fresh garbage q (header_len q))) [
        | inl none_taken ↦ let same : w ≡ v' = ground (arith, e, none_taken) in subst P same s
        | inr ((packet, q'), taken) ↦
            let w₁ = set_recv_q w i q' in
            let s₁ = f.receives w i q' s (take_message-Kept q q' (header_len q) packet taken) in
            let w₂ = on_message fresh garbage w₁ i 0 packet in
            let s₂ = on_message-Stable f.base fresh garbage w₁ i 0 packet s₁ in
            let outcome : (w ≡ v') ⊎ (recv_loop fresh garbage fuel w₂ i ≡ some v') =
              ground (arith, e, taken) in
            elim outcome [
              | inl same ↦ subst P same s
              | inr more ↦ recv_loop-Receivable f fuel w₂ v' i s₂ more
            ]
      ]

  pub on_recv-Receivable :
      {P : Server → Type 0} (f : Receivable P) (v v' : Server) (i n : ℕ)
      → P v
      → on_recv fresh garbage v i n ≡ some v'
      → P v'
  unfolding on_recv
  on_recv-Receivable {P} f v v' i n s e =
      elim (Option-cases (move_rear (session_at v i).recv_q (pos n))) [
        | inl stuck ↦ ground (arith, e, stuck)
        | inr ((moved, q), found) ↦
            let v₁ = set_recv_q v i q in
            let s₁ =
              f.receives v i q s
                (λ valid. move_rear-Kept (session_at v i).recv_q q n moved valid found) in
            elim (Bool-cases (is_zero moved)) [
              | inl full ↦
                  let same : decrement_ref_count_and_release v₁ i ≡ v' =
                    ground (arith, e, found, full) in
                  subst P same (release-Stable f.base.base v₁ i s₁)
              | inr some_moved ↦
                  elim (Option-cases (recv_loop fresh garbage (suc (get_use_size q)) v₁ i)) [
                    | inl stuck ↦ ground (arith, e, found, some_moved, stuck)
                    | inr (v₂, looped) ↦
                        let s₂ = recv_loop-Receivable f (suc (get_use_size q)) v₁ v₂ i s₁ looped in
                        let s₃ = decrement-Stable f.base.base v₂ i s₂ in
                        let same : recv_again (decrement_ref_count v₂ i) i ≡ v' =
                          ground (arith, e, found, some_moved, looped) in
                        subst P same (recv_again-Stable f.base.base (decrement_ref_count v₂ i) i s₃)
                  ]
            ]
      ]

  pub on_recv-Flows :
      (v v' : Server) (i n : ℕ) → on_recv fresh garbage v i n ≡ some v' → AllOf (Flows 0) v v'
  on_recv-Flows v v' i n e =
      on_recv-Receivable (Flows-Receivable v) v v' i n (AllOf-refl Flows-Frame.base v) e
