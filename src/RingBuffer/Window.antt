-- ===== src/RingBuffer/Window.antt =====
-- The bytes that a ring holds, read round the end of its storage, and how they change.
use native.Mathlib.Nat.{mod-add-mod, div-add-mod, mod-lt, suc-add}
use game_server_portfolio.Base.{
  ℕ, zero, suc, ◌+◌, ◌%◌, ◌≤◌, ◌<◌, ◌≡◌, ◌≢◌, refl, sym, ap, ap₂, ◌∙◌, List, [], ◌∷◌, ◌++◌, arith,
  length, get_or, set, take, drop, get_or-set_self, get_or-set_ne,
}

-- Two indices less than one round apart are different cells.
pub mod-ne : (s i j : ℕ) → i < j → j < i + s → i % s ≢ j % s
mod-ne s i j h k e = grind (arith, div-add-mod)

module _ (s : ℕ) where
  mod-suc : (i j : ℕ) → i % s ≡ j % s → (i + 1) % s ≡ (j + 1) % s
  mod-suc i j e = sym (mod-add-mod i s 1) ∙ ap (λ k. (k + 1) % s) e ∙ mod-add-mod j s 1

module _ (buf : List ℕ) (s : ℕ) where
  -- the `n` bytes from index `i` on, each index taken modulo the storage's size
  abbrev pub window : ℕ → ℕ → List ℕ
  window i zero = []
  window i (suc n) = get_or buf (i % s) 0 ∷ window (i + 1) n

  pub length-window : (i n : ℕ) → length (window i n) ≡ n
  length-window i zero = refl
  length-window i (suc n) = ap suc (length-window (i + 1) n)

  -- Only the cells count, not the round in which they are reached.
  pub window-cong : (i j n : ℕ) → i % s ≡ j % s → window i n ≡ window j n
  window-cong i j zero e = refl
  window-cong i j (suc n) e =
      ap₂ ◌∷◌ (ap (λ k. get_or buf k 0) e) (window-cong (i + 1) (j + 1) n (mod-suc s i j e))

  pub take-window : (i n m : ℕ) → n ≤ m → take n (window i m) ≡ window i n
  take-window i zero m h = refl
  take-window i (suc n) zero h = absurd (omega arith)
  take-window i (suc n) (suc m) h = ground (arith, take-window (i + 1) n m)

  pub drop-window : (i n m : ℕ) → drop n (window i (n + m)) ≡ window (i + n) m
  drop-window i zero m = ground arith
  drop-window i (suc n) m = rw suc-add (ground (arith, drop-window (i + 1) n m))

  pub window-add : (i m n : ℕ) → window i (m + n) ≡ window i m ++ window (i + m) n
  window-add i zero n = ground arith
  window-add i (suc m) n = rw suc-add (ground (arith, window-add (i + 1) m n))

-- A write outside a window leaves it alone.
pub window-set_outside :
    (buf : List ℕ) (s i n j x : ℕ)
    → i + n ≤ j
    → j < i + s
    → window (set buf (j % s) x) s i n ≡ window buf s i n
window-set_outside buf s i zero j x h k = refl
window-set_outside buf s i (suc n) j x h k =
    ap₂ ◌∷◌ (get_or-set_ne buf x 0 (λ e. mod-ne s i j (omega arith) k (sym e)))
      (window-set_outside buf s (i + 1) n j x (omega arith) (omega arith))

-- A write just behind a window extends it by that byte.
pub window-set_end :
    (buf : List ℕ) (s i n x : ℕ)
    → s ≤ length buf
    → suc n ≤ s
    → window (set buf ((i + n) % s) x) s i (suc n) ≡ window buf s i n ++ x ∷ []
window-set_end buf s i n x hs hn = ground (
  arith,
  window-add (set buf ((i + n) % s) x) s i n 1,
  window-set_outside buf s i n (i + n) x,
  mod-lt (i + n) {m = s},
  get_or-set_self buf ((i + n) % s) x 0,
)

shift : (i k : ℕ) → i + suc k ≡ i + 1 + k
shift i k = omega arith

-- Windows whose cells agree are equal.
pub window_ext :
    (a b : List ℕ) (s i n : ℕ)
    → ((k : ℕ) → k < n → get_or a ((i + k) % s) 0 ≡ get_or b ((i + k) % s) 0)
    → window a s i n ≡ window b s i n
window_ext a b s i zero h = refl
window_ext a b s i (suc n) h =
    ap₂ ◌∷◌ (ground (arith, h 0))
      (window_ext a b s (i + 1) n (λ k l. rw (← shift i k) (h (suc k) (omega arith))))

-- A window over the cells that hold `bs` is `bs`.
pub window_of_cells :
    (buf : List ℕ) (s i : ℕ) (bs : List ℕ)
    → ((k : ℕ) → k < length bs → get_or buf ((i + k) % s) 0 ≡ get_or bs k 0)
    → window buf s i (length bs) ≡ bs
window_of_cells buf s i [] h = refl
window_of_cells buf s i (b ∷ bs) h =
    ap₂ ◌∷◌ (ground (arith, h 0))
      (window_of_cells buf s (i + 1) bs (λ k l. rw (← shift i k) (h (suc k) (omega arith))))
