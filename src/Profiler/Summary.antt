-- ===== src/Profiler/Summary.antt =====
-- Util/Profiler.h: what an element of the array says of the times measured for its tag.
use native.Mathlib.Decide.{dec_lt}
use game_server_portfolio.Base.{
  ℕ, zero, suc, ◌+◌, ◌-◌, ◌*◌, ◌≤◌, ◌≡◌, refl, ap, ◌∙◌, Bool-cases, inl, inr, true, List, [], ◌∷◌,
  ◌==◌, ltb, leb, if◌then◌else◌, length, get_or, take, drop, arith,
}
use game_server_portfolio.Profiler.{
  llong_max, ProfileData, unused, update_min, update_max, update_data, get_avg,
}

abbrev pub sum : List ℕ → ℕ
sum [] = 0
sum (x ∷ xs) = x + sum xs

-- the times in ascending order
abbrev pub insert : ℕ → List ℕ → List ℕ
insert x [] = x ∷ []
insert x (y ∷ ys) = if leb x y then x ∷ y ∷ ys else y ∷ insert x ys

abbrev pub sort : List ℕ → List ℕ
sort [] = []
sort (x ∷ xs) = insert x (sort xs)

abbrev pub IsAscending : ℕ → List ℕ → Type 0
IsAscending m [] = Unit {0}
IsAscending m (x ∷ xs) = (m ≤ x) × IsAscending x xs

-- the last two elements of `b`, `a` and the list, the last one first
abbrev pub lasts : ℕ → ℕ → List ℕ → ℕ × ℕ
lasts a b [] = (a, b)
lasts a b (x ∷ xs) = lasts x a xs

-- The element of a tag with these times, latest first.
abbrev pub summary : List ℕ → List ℕ → ProfileData
summary tag times = record {
  flag = true;
  name = tag;
  total_time = sum times;
  min0 = get_or (sort times) 0 llong_max;
  min1 = get_or (sort times) 1 llong_max;
  max0 = (lasts 0 0 (sort times)).0;
  max1 = (lasts 0 0 (sort times)).1;
  call = length times;
}

pub insert-IsAscending :
    (m x : ℕ) (xs : List ℕ) → m ≤ x → IsAscending m xs → IsAscending m (insert x xs)
insert-IsAscending m x [] h s = (h, tt)
insert-IsAscending m x (y ∷ ys) h (h', s) = elim (Bool-cases (leb x y)) [
  | inl first ↦ ground (arith, first, h, s)
  | inr behind ↦ ground (arith, behind, h', insert-IsAscending y x ys (ground (arith, behind)) s)
]

pub sort-IsAscending : (xs : List ℕ) → IsAscending 0 (sort xs)
sort-IsAscending [] = tt
sort-IsAscending (x ∷ xs) = insert-IsAscending 0 x (sort xs) (omega arith) (sort-IsAscending xs)

length-insert : (x : ℕ) (xs : List ℕ) → length (insert x xs) ≡ suc (length xs)
length-insert x [] = refl
length-insert x (y ∷ ys) = ground (arith, length-insert x ys)

pub length-sort : (xs : List ℕ) → length (sort xs) ≡ length xs
length-sort [] = refl
length-sort (x ∷ xs) = length-insert x (sort xs) ∙ ap suc (length-sort xs)

sum-insert : (x : ℕ) (xs : List ℕ) → sum (insert x xs) ≡ x + sum xs
sum-insert x [] = refl
sum-insert x (y ∷ ys) = ground (arith, sum-insert x ys)

pub sum-sort : (xs : List ℕ) → sum (sort xs) ≡ sum xs
sum-sort [] = refl
sum-sort (x ∷ xs) = sum-insert x (sort xs) ∙ ap (◌+◌ x) (sum-sort xs)

update_min-insert :
    (x m : ℕ) (xs : List ℕ)
    → x ≤ llong_max
    → IsAscending m xs
    → update_min x (get_or xs 0 llong_max, get_or xs 1 llong_max)
      ≡ (get_or (insert x xs) 0 llong_max, get_or (insert x xs) 1 llong_max)
unfolding update_min
update_min-insert x m [] h s = ground (arith, h)
update_min-insert x m (y ∷ []) h s = ground (arith, h, s)
update_min-insert x m (y ∷ z ∷ ys) h (_, s) = ground (arith, h, s)

-- Later elements are no less.
lasts-le :
    (m a b : ℕ) (xs : List ℕ)
    → m ≤ b
    → b ≤ a
    → IsAscending a xs
    → (m ≤ (lasts a b xs).1) × ((lasts a b xs).1 ≤ (lasts a b xs).0)
lasts-le m a b [] h h' s = (h, h')
lasts-le m a b (x ∷ xs) h h' (h'', s) = lasts-le m x a xs (omega arith) h'' s

lasts-second :
    (x y b : ℕ) (xs : List ℕ)
    → b ≤ x
    → x ≤ y
    → IsAscending y xs
    → update_max x (lasts y b xs) ≡ lasts y x xs
unfolding update_max
lasts-second x y b [] h h' s = ground (arith, h, h')
lasts-second x y b (z ∷ zs) h h' (h'', s) = ground (arith, lasts-le x z y zs h' h'' s)

update_max-insert :
    (x a b : ℕ) (xs : List ℕ)
    → a ≤ x
    → b ≤ a
    → IsAscending a xs
    → update_max x (lasts a b xs) ≡ lasts a b (insert x xs)
unfolding update_max
update_max-insert x a b [] h h' s = ground (arith, h, h')
update_max-insert x a b (y ∷ ys) h h' (h'', s) = elim (Bool-cases (leb x y)) [
  | inl first ↦ ground (arith, first, lasts-second x y a ys h (ground (arith, first)) s)
  | inr behind ↦ ground (arith, behind, update_max-insert x y a ys (ground (arith, behind)) h'' s)
]

-- One more time measured is one more time summed up.
pub update_data-summary :
    (tag : List ℕ) (t : ℕ) (times : List ℕ)
    → t ≤ llong_max
    → update_data (summary tag times) tag t ≡ summary tag (t ∷ times)
unfolding update_data
update_data-summary tag t times h =
    let s = sort-IsAscending times in
    let mn = update_min-insert t 0 (sort times) h s in
    let mx = update_max-insert t 0 0 (sort times) (omega arith) (omega arith) s in
    ground (arith, mn, mx)

pub update_data-unused :
    (tag : List ℕ) (t : ℕ) → t ≤ llong_max → update_data unused tag t ≡ summary tag (t ∷ [])
unfolding update_data
update_data-unused tag t h =
    let mn = update_min-insert t 0 [] h tt in
    let mx = update_max-insert t 0 0 [] (omega arith) (omega arith) tt in ground (arith, mn, mx)

-- the times but for the two least and the two greatest
abbrev pub middle : List ℕ → List ℕ
middle times = take (length times - 4) (drop 2 (sort times))

sum-lasts :
    (n a b : ℕ) (xs : List ℕ)
    → length xs ≡ n + 2
    → sum xs ≡ sum (take n xs) + ((lasts a b xs).0 + (lasts a b xs).1)
sum-lasts n a b [] h = absurd (omega arith)
sum-lasts n a b (x ∷ []) h = absurd (omega arith)
sum-lasts zero a b (x ∷ y ∷ []) h = omega arith
sum-lasts zero a b (x ∷ y ∷ z ∷ zs) h = absurd (omega arith)
sum-lasts (suc n) a b (x ∷ y ∷ zs) h = omega (arith, sum-lasts n x a (y ∷ zs) (omega arith))

sum-middle :
    (n : ℕ) (xs : List ℕ)
    → length xs ≡ n + 4
    → sum xs
      ≡ sum (take n (drop 2 xs))
        + (get_or xs 0 llong_max + get_or xs 1 llong_max + ((lasts 0 0 xs).0 + (lasts 0 0 xs).1))
sum-middle n [] h = absurd (omega arith)
sum-middle n (x ∷ []) h = absurd (omega arith)
sum-middle n (x ∷ y ∷ xs) h = omega (arith, sum-lasts n y x xs (omega arith))

-- The average of these times as a fraction of microseconds: of all but the two least and the two
-- greatest, if there are more than four.
abbrev pub average : List ℕ → ℕ × ℕ
average times =
    if ltb 4 (length times)
    then (sum (middle times), 1000 * (length times - 4))
    else (if length times == 0 then (0, 1) else (sum times, 1000 * length times))

pub get_avg-summary : (tag times : List ℕ) → get_avg (summary tag times) ≡ average times
unfolding get_avg
get_avg-summary tag times = elim (dec_lt 4 (length times)) [
  | yes many ↦
      let e = sum-middle (length times - 4) (sort times) (omega (arith, length-sort times)) in
      ground (arith, many, e, sum-sort times)
  | no few ↦ ground (arith, few)
]
