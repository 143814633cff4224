-- ===== src/RingBuffer/Rewind.antt =====
-- `MoveRear` and `MoveFront` by a negative amount, which take back a move.
use native.Mathlib.Nat.{mod-eq_of_lt}
use native.Mathlib.Decide.{dec_lt}
use game_server_portfolio.Base.{
  ℕ, suc, ◌-◌, ◌≤◌, ◌<◌, ◌≡◌, sym, some, none, arith, negsuc, take, ◌⊎◌, inl, inr,
}
use game_server_portfolio.RingBuffer.{CRingBuffer, get_use_size, move_rear}
use game_server_portfolio.RingBuffer.Window.{take-window}
use game_server_portfolio.RingBuffer.Valid.{IsValid, contents, use-lt-size}

module _ (r : CRingBuffer) (k : ℕ) (v : IsValid r) (h : k < get_use_size r) where
  rewound : CRingBuffer
  rewound = record r { rear = r.rear - suc k }

  rewound-use : k < r.rear → get_use_size rewound ≡ get_use_size r - suc k
  unfolding rewound get_use_size
  rewound-use l = ground arith

  -- `MoveRear(-(k + 1))` on a valid ring that holds more than `k` bytes: if the rear has not gone
  -- round since the last `k + 1` of them were put, it takes those back, returns its argument, and
  -- leaves a valid ring; if it has, the rear is left negative.
  pub move_rear-rewinds :
      ((k < r.rear)
        × (r' : CRingBuffer) × (move_rear r (negsuc k) ≡ some (negsuc k, r'))
        × IsValid r'
        × (contents r' ≡ take (get_use_size r - suc k) (contents r)))
      ⊎ ((r.rear ≤ k) × (move_rear r (negsuc k) ≡ none))
  unfolding move_rear rewound
  move_rear-rewinds = elim (dec_lt k r.rear) [
    | yes l ↦ inl (
      l,
      rewound,
      ground (arith, mod-eq_of_lt {n = r.rear - suc k} {m = r.size}),
      ground arith,
      rw (rewound-use l) (
          sym (
            take-window r.buffer r.size r.front (get_use_size r - suc k) (get_use_size r)
              (omega arith))),
    )
    | no l ↦
        inr (
          omega arith,
          ground (arith, use-lt-size v, mod-eq_of_lt {n = suc k - r.rear} {m = r.size}),
        )
  ]
