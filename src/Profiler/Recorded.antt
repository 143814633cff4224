-- ===== src/Profiler/Recorded.antt =====
-- Util/Profiler.h: `End` as one more time in a thread's log, and the array once it is full.
use native.Mathlib.Decide.{dec_lt}
use game_server_portfolio.Base.{
  ℕ, zero, suc, ◌+◌, ◌-◌, ◌<◌, ◌≤◌, ◌≡◌, refl, sym, ap, ap₂, subst, ◌∙◌, ◌⊎◌, Option-cases, inl,
  inr, true, false, List, [], ◌∷◌, ◌++◌, none, some, length, get_or, set, replicate, arith,
}
use game_server_portfolio.Profiler.{
  profile_max, name_size, llong_max, ProfileData, ProfileThreadContext, unused, update, end_step,
  end_loop, end_tag, check_init, initialize,
}
use game_server_portfolio.Profiler.Summary.{sum, summary, update_data-unused}
use game_server_portfolio.Profiler.End.{
  Log, elements, has, times_of, touch, record_time, Represents, with_data, loop_lem,
  touch-AllDistinct, length-touch, touch_absent, snoc-AllDistinct, elements-snoc, length-elements,
  replicate_next, get_or-append, set-append, length-snoc, append-snoc,
}

-- A thread that has measured nothing.
pub check_init-Represents : (thread_id : List ℕ) → Represents (check_init thread_id none) []
unfolding check_init initialize
check_init-Represents thread_id = record {
  few = omega arith;
  data_is = refl;
  count_is = refl;
  distinct = tt;
}

-- A tag's time fits into its sum, and a new tag into the array and into a name.
abbrev pub Fits : List ℕ → ℕ → Log → Type 0
Fits tag t log =
    (has tag log ≡ true) × (sum (times_of tag log) + t ≤ llong_max)
    ⊎ (has tag log ≡ false)
      × (length log < profile_max)
      × (length tag < name_size)
      × (t ≤ llong_max)

-- what is behind the elements of a log
abbrev behind : Log → List ProfileData
behind log = replicate (profile_max - length log) unused

module _ (c : ProfileThreadContext) (log : Log) (r : Represents c log) (tag : List ℕ) (t : ℕ) where
  looped :
      (has tag log ≡ false) ⊎ (sum (times_of tag log) + t ≤ llong_max)
      → end_loop c.profile_count c 0 tag t
        ≡ some (has tag log, with_data c (elements (touch tag t log) ++ behind log))
  looped fits =
      let whole : end_loop (length log) (with_data c (elements log ++ behind log)) 0 tag t
          ≡ some (has tag log, with_data c (elements (touch tag t log) ++ behind log)) =
        loop_lem c tag t log [] (behind log) (omega (arith, r.few)) r.distinct fits in
      let e : end_loop (length log) c 0 tag t
          ≡ end_loop (length log) (with_data c (elements log ++ behind log)) 0 tag t =
        ap {A = List ProfileData} (λ ps. end_loop (length log) (with_data c ps) 0 tag t)
          r.data_is in
      ap (λ n. end_loop n c 0 tag t) r.count_is ∙ e ∙ whole

  touched-Represents :
      Represents (with_data c (elements (touch tag t log) ++ behind log)) (touch tag t log)
  touched-Represents = record {
    few = omega (arith, length-touch c tag t log, r.few);
    data_is =
        ap (λ n. elements (touch tag t log) ++ replicate (profile_max - n) unused)
          (sym (length-touch c tag t log));
    count_is = r.count_is ∙ sym (length-touch c tag t log);
    distinct = touch-AllDistinct c tag t log r.distinct;
  }

-- a tag that is not in the log, put behind it
abbrev longer : Log → List ℕ → ℕ → Log
longer log tag t = log ++ (tag, t ∷ []) ∷ []

longer_data :
    (log : Log) (tag : List ℕ) (t : ℕ)
    → length log < profile_max
    → set (elements log ++ behind log) (length log) (summary tag (t ∷ []))
      ≡ elements (longer log tag t) ++ behind (longer log tag t)
longer_data log tag t room =
    let x = summary tag (t ∷ []) in
    let xs = replicate (profile_max - suc (length log)) unused in
    ap (λ ps. set (elements log ++ ps) (length log) x)
      (replicate_next (length log) profile_max room)
    ∙ ap (λ n. set (elements log ++ unused ∷ xs) n x) (sym (length-elements log))
    ∙ set-append (elements log) xs unused x
    ∙ sym (append-snoc (elements log) xs x)
    ∙ ap₂ (◌++◌) (sym (elements-snoc tag (t ∷ []) log))
        (ap (λ n. replicate (profile_max - n) unused) (sym (length-snoc log (tag, t ∷ []))))

first_unused :
    (log : Log)
    → length log < profile_max
    → get_or (elements log ++ behind log) (length log) unused ≡ unused
first_unused log room =
    let xs = replicate (profile_max - suc (length log)) unused in
    ap (λ ps. get_or (elements log ++ ps) (length log) unused)
      (replicate_next (length log) profile_max room)
    ∙ ap (λ n. get_or (elements log ++ unused ∷ xs) n unused) (sym (length-elements log))
    ∙ get_or-append (elements log) xs unused unused

update_unused :
    (c : ProfileThreadContext) (log : Log) (tag : List ℕ) (t : ℕ)
    → length log < profile_max
    → length tag < name_size
    → t ≤ llong_max
    → update (with_data c (elements log ++ behind log)) (length log) tag t
      ≡ some (with_data c (elements (longer log tag t) ++ behind (longer log tag t)))
unfolding update
update_unused c log tag t room short fits = ground (
  arith,
  room,
  short,
  fits,
  first_unused log room,
  longer_data log tag t room,
  update_data-unused tag t fits,
)

-- `End` on an array that holds a log returns, and the array then holds the log with one more time:
-- behind the tag's other times if the log has the tag, in which case the sum of them must not go
-- beyond `__int64`, and otherwise under a new tag, which must fit into a name and the array.
pub end_tag_refines :
    (c : ProfileThreadContext) (log : Log) (tag : List ℕ) (t : ℕ)
    → Represents c log
    → Fits tag t log
    → (c' : ProfileThreadContext) × (end_tag c tag t ≡ some c')
      × Represents c' (record_time tag t log)
unfolding end_tag
end_tag_refines c log tag t r (inl (there, fits)) =
    let l = looped c log r tag t (inr fits) in
    let c' = with_data c (elements (touch tag t log) ++ behind log) in
    let e : touch tag t log ≡ record_time tag t log = ground (arith, there) in
    (c', ground (arith, l, there), subst (Represents c') e (touched-Represents c log r tag t))
end_tag_refines c log tag t r (inr (absent, room, short, fits)) =
    let l = looped c log r tag t (inl absent) in
    let same = touch_absent c tag t log absent in
    let w = with_data c (elements log ++ behind log) in
    let l' : end_loop c.profile_count c 0 tag t ≡ some (false, w) =
      l ∙ ap₂ (λ b log'. some (b, with_data c (elements log' ++ behind log))) absent same in
    let log' = longer log tag t in
    let c' : ProfileThreadContext = record c {
      profile_data = elements log' ++ behind log';
      profile_count = c.profile_count + 1;
    } in
    let e : log' ≡ record_time tag t log = ground (arith, absent) in
    let u = ap (λ n. update w n tag t) r.count_is ∙ update_unused c log tag t room short fits in
    let r' : Represents c' log' = record {
      few = omega (arith, length-snoc log (tag, t ∷ []));
      data_is = refl;
      count_is = omega (arith, length-snoc log (tag, t ∷ []), r.count_is);
      distinct = snoc-AllDistinct tag (t ∷ []) log absent r.distinct;
    } in
    (c', ground (arith, l', u), subst (Represents c') e r')

-- Past the end of the array there is no element to read.
beyond :
    (n : ℕ) (c : ProfileThreadContext) (i : ℕ) (tag : List ℕ) (t : ℕ)
    → i ≤ profile_max
    → profile_max < i + n
    → end_loop n c i tag t ≡ none
unfolding end_loop end_step
beyond zero c i tag t inside outside = absurd (omega arith)
beyond (suc n) c i tag t inside outside = elim (Option-cases (end_step c i tag t)) [
  | inl stuck ↦ ground (arith, stuck)
  | inr ((hit, c'), stepped) ↦
      let more : i < profile_max = elim (dec_lt i profile_max) [
        | yes lt ↦ lt
        | no ge ↦ ground (arith, stepped)
      ] in
      ground (arith, stepped, beyond n c' (suc i) tag t (omega arith) (omega arith))
]

-- On a full array `End` of a new tag changes nothing but the count, which is then greater than the
-- array is long, and from there on `End` of any tag reads past the array.
pub end_tag-overflow :
    (c : ProfileThreadContext) (log : Log) (tag : List ℕ) (t : ℕ)
    → Represents c log
    → length log ≡ profile_max
    → has tag log ≡ false
    → (c' : ProfileThreadContext) × (end_tag c tag t ≡ some c')
      × (c'.profile_count ≡ profile_max + 1)
      × (c'.profile_data ≡ c.profile_data)
      × ((tag' : List ℕ) (t' : ℕ) → end_tag c' tag' t' ≡ none)
unfolding end_tag update
end_tag-overflow c log tag t r full absent =
    let l = looped c log r tag t (inl absent) in
    let same = touch_absent c tag t log absent in
    let w = with_data c (elements log ++ behind log) in
    let l' : end_loop c.profile_count c 0 tag t ≡ some (false, w) =
      l ∙ ap₂ (λ b log'. some (b, with_data c (elements log' ++ behind log))) absent same in
    let c' : ProfileThreadContext = record w { profile_count = c.profile_count + 1 } in
    let many : c'.profile_count ≡ profile_max + 1 = omega (arith, r.count_is) in
    (
      c',
      ground (arith, l', r.count_is, full),
      many,
      sym r.data_is,
      λ tag' t'. ground (arith, beyond c'.profile_count c' 0 tag' t' (omega arith) (omega arith)),
    )
