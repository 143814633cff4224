-- ===== src/RingBuffer/Tests.antt =====
-- The ring on small inputs, and the theorems at inputs that meet their hypotheses.
use game_server_portfolio.Base.{
  ℕ, ◌+◌, ◌-◌, ◌<◌, ◌≤◌, ◌≡◌, ◌⊎◌, refl, List, [], ◌∷◌, ◌++◌, some, none, arith, pos, negsuc, take,
  min, get_or, zero, suc,
}
use game_server_portfolio.RingBuffer.{
  CRingBuffer, create_default, get_buffer_size, get_use_size, get_free_size, enqueue, enqueue_lock,
  enqueue_loop, dequeue, dequeue_lock, peek, clear_buffer, move_rear, direct_enqueue_size,
  direct_dequeue_size,
}
use game_server_portfolio.RingBuffer.Valid.{IsValid, contents}
use game_server_portfolio.RingBuffer.Enqueue.{enqueue_refines}
use game_server_portfolio.RingBuffer.Dequeue.{Drops, dequeue_refines}
use game_server_portfolio.RingBuffer.Receive.{Scattered, received_refines}
use game_server_portfolio.RingBuffer.Rewind.{move_rear-rewinds}

-- 8, then 9, round the end of a storage of four bytes
abbrev wrapped : CRingBuffer
wrapped = record { size = 4; front = 3; rear = 1; buffer = 9 ∷ 7 ∷ 6 ∷ 8 ∷ [] }

wrapped-IsValid : IsValid wrapped
wrapped-IsValid = omega arith

wrapped_sizes :
    (get_use_size wrapped ≡ 2)
    × (get_free_size wrapped ≡ 1)
    × (get_buffer_size wrapped ≡ 3)
    × (direct_enqueue_size wrapped ≡ 1)
    × (direct_dequeue_size wrapped ≡ 1)
unfolding get_use_size get_free_size get_buffer_size direct_enqueue_size direct_dequeue_size
wrapped_sizes = (refl, refl, refl, refl, refl)

enqueue_runs :
    (enqueue wrapped (5 ∷ []) (pos 1)
      ≡ (pos 1, record { size = 4; front = 3; rear = 2; buffer = 9 ∷ 5 ∷ 6 ∷ 8 ∷ [] }))
    × (enqueue wrapped (5 ∷ 5 ∷ []) (pos 2) ≡ (pos 0, wrapped))
    × (enqueue_lock wrapped (5 ∷ []) (negsuc 0) ≡ (negsuc 0, wrapped))
unfolding enqueue enqueue_lock enqueue_loop get_free_size
enqueue_runs = (refl, refl, refl)

dequeue_runs :
    (dequeue wrapped (pos 9) ≡ (pos 2, 8 ∷ 9 ∷ [], record wrapped { front = 1 }))
    × (dequeue wrapped (negsuc 0) ≡ (pos 0, [], wrapped))
    × (dequeue_lock wrapped (negsuc 0) ≡ (negsuc 0, [], wrapped))
    × (peek wrapped (pos 1) ≡ (pos 1, 8 ∷ []))
unfolding dequeue dequeue_lock peek get_use_size
dequeue_runs = (refl, refl, refl, refl)

create_default_sizes :
    (fresh : List ℕ)
    → (get_buffer_size (create_default fresh) ≡ 1460)
      × (get_use_size (clear_buffer (create_default fresh)) ≡ 0)
unfolding create_default get_buffer_size get_use_size clear_buffer
create_default_sizes fresh = (refl, refl)

enqueue_refines_example :
    let (taken, r') = enqueue wrapped (5 ∷ 4 ∷ []) (pos 1) in
    IsValid r'
    × (r'.size ≡ wrapped.size)
    × ((1 ≤ get_free_size wrapped)
          × (taken ≡ pos 1)
          × (contents r' ≡ contents wrapped ++ take 1 (5 ∷ 4 ∷ []))
        ⊎ (get_free_size wrapped < 1) × (taken ≡ pos 0) × (r' ≡ wrapped))
enqueue_refines_example = enqueue_refines wrapped (5 ∷ 4 ∷ []) 1 wrapped-IsValid (omega arith)

dequeue_refines_example :
    let (count, bytes, r') = dequeue wrapped (pos 1) in
    (count ≡ pos (min 1 (get_use_size wrapped)))
    × (bytes ≡ take 1 (contents wrapped))
    × Drops wrapped (min 1 (get_use_size wrapped)) r'
dequeue_refines_example = dequeue_refines wrapped 1 wrapped-IsValid

-- five free bytes in two spans: `[4, 6)` and `[0, 2)`, of which one is kept free
abbrev roomy : CRingBuffer
roomy = record { size = 6; front = 3; rear = 4; buffer = 0 ∷ 0 ∷ 0 ∷ 1 ∷ 0 ∷ 0 ∷ [] }

abbrev filled : List ℕ
filled = 4 ∷ 0 ∷ 0 ∷ 1 ∷ 2 ∷ 3 ∷ []

roomy-IsValid : IsValid roomy
roomy-IsValid = omega arith

filled_second : (k : ℕ) → k < 3 → 2 ≤ k → get_or filled (k - 2) 0 ≡ get_or (2 ∷ 3 ∷ 4 ∷ []) k 0
filled_second zero h l = absurd (omega arith)
filled_second (suc zero) h l = absurd (omega arith)
filled_second (suc (suc zero)) h l = refl
filled_second (suc (suc (suc k))) h l = absurd (omega arith)

filled_first : (k : ℕ) → k < 3 → k < 2 → get_or filled (4 + k) 0 ≡ get_or (2 ∷ 3 ∷ 4 ∷ []) k 0
filled_first zero h l = refl
filled_first (suc zero) h l = refl
filled_first (suc (suc k)) h l = absurd (omega arith)

filled_others : (c : ℕ) → (c < 4) ⊎ (6 ≤ c) → 2 ≤ c → get_or filled c 0 ≡ get_or roomy.buffer c 0
filled_others zero h l = absurd (omega arith)
filled_others (suc zero) h l = absurd (omega arith)
filled_others (suc (suc zero)) h l = refl
filled_others (suc (suc (suc zero))) h l = refl
filled_others (suc (suc (suc (suc zero)))) h l = absurd (omega arith)
filled_others (suc (suc (suc (suc (suc zero))))) h l = absurd (omega arith)
filled_others (suc (suc (suc (suc (suc (suc c)))))) h l = refl

roomy-Scattered : Scattered roomy (2 ∷ 3 ∷ 4 ∷ []) filled
unfolding direct_enqueue_size get_free_size
roomy-Scattered = record {
  kept_length = refl;
  first = filled_first;
  second = filled_second;
  others = filled_others;
}

received_refines_example :
    (r' : CRingBuffer) × (move_rear (record roomy { buffer = filled }) (pos 3) ≡ some (pos 3, r'))
    × IsValid r'
    × (r'.size ≡ 6)
    × (contents r' ≡ contents roomy ++ 2 ∷ 3 ∷ 4 ∷ [])
unfolding get_free_size
received_refines_example =
    received_refines roomy (2 ∷ 3 ∷ 4 ∷ []) filled roomy-IsValid (omega arith) roomy-Scattered

move_rear-rewinds_example :
    ((1 < wrapped.rear)
      × (r' : CRingBuffer) × (move_rear wrapped (negsuc 1) ≡ some (negsuc 1, r'))
      × IsValid r'
      × (contents r' ≡ take (get_use_size wrapped - 2) (contents wrapped)))
    ⊎ ((wrapped.rear ≤ 1) × (move_rear wrapped (negsuc 1) ≡ none))
unfolding get_use_size
move_rear-rewinds_example = move_rear-rewinds wrapped 1 wrapped-IsValid (omega arith)
