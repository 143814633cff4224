-- ===== src/Profiler/End.antt =====
-- Util/Profiler.h: `End` on the array of a thread.
use game_server_portfolio.Base.{
  strcmp_equal, strcmp_equal→eq, strcmp_equal_sym, ℕ, suc, ◌+◌, ◌-◌, ◌<◌, ◌≤◌, ◌≡◌, refl, ap, ap₂,
  subst, ◌∙◌, ◌⊎◌, Bool-cases, inl, inr, Bool, false, ◌||◌, List, [], ◌∷◌, ◌++◌, some,
  if◌then◌else◌, length, get_or, set, replicate, arith,
}
use game_server_portfolio.Profiler.{
  profile_max, llong_max, ProfileData, ProfileThreadContext, unused, update, end_step, end_loop,
}
use game_server_portfolio.Profiler.Summary.{sum, summary, update_data-summary}

-- The tags of a thread, oldest first, each with the times measured for it, latest first.
abbrev pub Log : Type 0
Log = List (List ℕ × List ℕ)

abbrev pub elements : Log → List ProfileData
elements [] = []
elements (e ∷ log) = summary e.0 e.1 ∷ elements log

abbrev pub has : List ℕ → Log → Bool
has tag [] = false
has tag (e ∷ log) = strcmp_equal e.0 tag || has tag log

abbrev pub times_of : List ℕ → Log → List ℕ
times_of tag [] = []
times_of tag (e ∷ log) = if strcmp_equal e.0 tag then e.1 else times_of tag log

-- the log with one more time for a tag that is there
abbrev pub touched : List ℕ → ℕ → List ℕ × List ℕ → List ℕ × List ℕ
touched tag t (name, times) = (name, if strcmp_equal name tag then t ∷ times else times)

abbrev pub touch : List ℕ → ℕ → Log → Log
touch tag t [] = []
touch tag t (e ∷ log) = touched tag t e ∷ touch tag t log

-- the log with one more time
abbrev pub record_time : List ℕ → ℕ → Log → Log
record_time tag t log = if has tag log then touch tag t log else log ++ (tag, t ∷ []) ∷ []

abbrev pub AllDistinct : Log → Type 0
AllDistinct [] = Unit {0}
AllDistinct (e ∷ log) = (has e.0 log ≡ false) × AllDistinct log

-- A thread's array holds what its log says, each tag once, and is unused behind that.
pub record Represents (c : ProfileThreadContext) (log : Log) : Type 0 where
  pub few : length log ≤ profile_max
  pub data_is : c.profile_data ≡ elements log ++ replicate (profile_max - length log) unused
  pub count_is : c.profile_count ≡ length log
  pub distinct : AllDistinct log

times_of-absent : (tag : List ℕ) (log : Log) → has tag log ≡ false → times_of tag log ≡ []
times_of-absent tag [] h = refl
times_of-absent tag (e ∷ log) h = ground (arith, h, times_of-absent tag log)

module _ {ℓ} {A : Type ℓ} where
  pub get_or-append : (xs ys : List A) (x d : A) → get_or (xs ++ x ∷ ys) (length xs) d ≡ x
  get_or-append [] ys x d = refl
  get_or-append (z ∷ xs) ys x d = get_or-append xs ys x d

  pub set-append : (xs ys : List A) (x v : A) → set (xs ++ x ∷ ys) (length xs) v ≡ xs ++ v ∷ ys
  set-append [] ys x v = refl
  set-append (z ∷ xs) ys x v = ap (◌∷◌ z) (set-append xs ys x v)

  pub length-snoc : (xs : List A) (x : A) → length (xs ++ x ∷ []) ≡ suc (length xs)
  length-snoc [] x = refl
  length-snoc (z ∷ xs) x = ap suc (length-snoc xs x)

  pub append-snoc : (xs ys : List A) (x : A) → (xs ++ x ∷ []) ++ ys ≡ xs ++ x ∷ ys
  append-snoc [] ys x = refl
  append-snoc (z ∷ xs) ys x = ap (◌∷◌ z) (append-snoc xs ys x)

-- the context with this array
abbrev pub with_data : ProfileThreadContext → List ProfileData → ProfileThreadContext
with_data c ps = record c { profile_data = ps }

module _ (c : ProfileThreadContext) (tag : List ℕ) (t : ℕ) where
  pub update_at :
      (d xs : List ProfileData) (times : List ℕ)
      → length d < profile_max
      → sum times + t ≤ llong_max
      → update (with_data c (d ++ summary tag times ∷ xs)) (length d) tag t
        ≡ some (with_data c (d ++ summary tag (t ∷ times) ∷ xs))
  unfolding update
  update_at d xs times room fits =
      let x = summary tag times in
      let here = get_or-append d xs x unused in
      let there = set-append d xs x (summary tag (t ∷ times)) in
      let e = update_data-summary tag t times (omega arith) in
      ground (arith, here, there, e, room, fits)

  end_step_lem :
      (d xs : List ProfileData) (e : List ℕ × List ℕ)
      → length d < profile_max
      → (strcmp_equal e.0 tag ≡ false) ⊎ (sum e.1 + t ≤ llong_max)
      → end_step (with_data c (d ++ summary e.0 e.1 ∷ xs)) (length d) tag t
        ≡ some (
          strcmp_equal e.0 tag,
          with_data c (d ++ summary (touched tag t e).0 (touched tag t e).1 ∷ xs),
        )
  unfolding end_step
  end_step_lem d xs (name, times) room fits =
      let x = summary name times in
      let here = get_or-append d xs x unused in
      elim (Bool-cases (strcmp_equal name tag)) [
        | inr differ ↦ ground (arith, here, differ, room)
        | inl same ↦
            let e = strcmp_equal→eq name tag same in
            let u = update_at d xs times room (ground (arith, same, fits)) in
            ground (arith, here, same, room, e, u)
      ]

  pub loop_lem :
      (log : Log) (d tail : List ProfileData)
      → length d + length log ≤ profile_max
      → AllDistinct log
      → (has tag log ≡ false) ⊎ (sum (times_of tag log) + t ≤ llong_max)
      → end_loop (length log) (with_data c (d ++ (elements log ++ tail))) (length d) tag t
        ≡ some (has tag log, with_data c (d ++ (elements (touch tag t log) ++ tail)))
  unfolding end_loop
  loop_lem [] d tail room distinct fits = refl
  loop_lem ((name, times) ∷ log) d tail room (once, distinct) fits =
      let e : List ℕ × List ℕ = (name, times) in
      let e' = touched tag t e in
      let d' = d ++ summary e'.0 e'.1 ∷ [] in
      let xs = elements log ++ tail in
      let later : (has tag log ≡ false) ⊎ (sum (times_of tag log) + t ≤ llong_max) =
        elim (Bool-cases (strcmp_equal name tag)) [
          | inl same ↦ inl (subst (λ x. has x log ≡ false) (strcmp_equal→eq name tag same) once)
          | inr differ ↦ ground (arith, differ, fits)
        ] in
      let one : (strcmp_equal name tag ≡ false) ⊎ (sum times + t ≤ llong_max) =
        ground (arith, fits) in
      let s = end_step_lem d xs e (omega arith) one in
      let rest =
        loop_lem log d' tail (omega (arith, length-snoc d (summary e'.0 e'.1))) distinct later in
      let at_next : end_loop (length log) (with_data c (d ++ summary e'.0 e'.1 ∷ xs))
            (suc (length d)) tag t
          ≡ some (
            has tag log,
            with_data c (d ++ summary e'.0 e'.1 ∷ (elements (touch tag t log) ++ tail)),
          ) =
        subst
          (λ ps.
            end_loop (length log) (with_data c (d ++ summary e'.0 e'.1 ∷ xs)) (suc (length d)) tag t
            ≡ some (has tag log, with_data c ps))
          (append-snoc d (elements (touch tag t log) ++ tail) (summary e'.0 e'.1))
          (subst
            (λ ps.
              end_loop (length log) (with_data c ps) (suc (length d)) tag t
              ≡ some (has tag log, with_data c (d' ++ (elements (touch tag t log) ++ tail))))
            (append-snoc d xs (summary e'.0 e'.1))
            (subst
              (λ k.
                end_loop (length log) (with_data c (d' ++ xs)) k tag t
                ≡ some (has tag log, with_data c (d' ++ (elements (touch tag t log) ++ tail))))
              (length-snoc d (summary e'.0 e'.1)) rest)) in
      ground (arith, s, at_next)

  touch-has : (x : List ℕ) (log : Log) → has x (touch tag t log) ≡ has x log
  touch-has x [] = refl
  touch-has x (e ∷ log) = ground (arith, touch-has x log)

  pub touch-AllDistinct : (log : Log) → AllDistinct log → AllDistinct (touch tag t log)
  touch-AllDistinct [] s = tt
  touch-AllDistinct (e ∷ log) (once, s) = (touch-has e.0 log ∙ once, touch-AllDistinct log s)

  pub length-touch : (log : Log) → length (touch tag t log) ≡ length log
  length-touch [] = refl
  length-touch (e ∷ log) = ap suc (length-touch log)

  pub touch_absent : (log : Log) → has tag log ≡ false → touch tag t log ≡ log
  touch_absent [] h = refl
  touch_absent (e ∷ log) h =
      let differ : strcmp_equal e.0 tag ≡ false = ground (arith, h) in
      let later : has tag log ≡ false = ground (arith, h) in
      ap₂ (◌∷◌) (ground (arith, differ)) (touch_absent log later)

has-snoc :
    (x tag : List ℕ) (ts : List ℕ) (log : Log)
    → has x (log ++ (tag, ts) ∷ []) ≡ (has x log || strcmp_equal tag x)
has-snoc x tag ts [] = ground arith
has-snoc x tag ts (e ∷ log) = ground (arith, has-snoc x tag ts log)

pub snoc-AllDistinct :
    (tag : List ℕ) (ts : List ℕ) (log : Log)
    → has tag log ≡ false
    → AllDistinct log
    → AllDistinct (log ++ (tag, ts) ∷ [])
snoc-AllDistinct tag ts [] h s = (refl, tt)
snoc-AllDistinct tag ts (e ∷ log) h (once, s) = (
  ground (arith, h, once, has-snoc e.0 tag ts log, strcmp_equal_sym e.0 tag),
  snoc-AllDistinct tag ts log (ground (arith, h)) s,
)

pub elements-snoc :
    (tag : List ℕ) (ts : List ℕ) (log : Log)
    → elements (log ++ (tag, ts) ∷ []) ≡ elements log ++ summary tag ts ∷ []
elements-snoc tag ts [] = refl
elements-snoc tag ts (e ∷ log) = ap (◌∷◌ (summary e.0 e.1)) (elements-snoc tag ts log)

pub length-elements : (log : Log) → length (elements log) ≡ length log
length-elements [] = refl
length-elements (e ∷ log) = ap suc (length-elements log)

pub replicate_next :
    (n k : ℕ) → n < k → replicate (k - n) unused ≡ unused ∷ replicate (k - suc n) unused
replicate_next n k h =
    ap (λ m. replicate m unused) (let e : k - n ≡ suc (k - suc n) = omega arith in e)
