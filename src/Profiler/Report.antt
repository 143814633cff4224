-- ===== src/Profiler/Report.antt =====
-- Util/Profiler.h: the report on a thread whose scopes have been measured.
use game_server_portfolio.Base.{
  ℕ, zero, suc, ◌-◌, ◌≡◌, refl, sym, ap, ◌∙◌, Option-cases, inl, inr, List, [], ◌∷◌, ◌++◌, Option,
  none, some, length, get_or, replicate, arith, Bool,
}
use game_server_portfolio.Profiler.{
  profile_max, llong_max, ProfileData, ProfileThreadContext, Row, unused, update, end_step,
  end_loop, end_tag, check_init, initialize, construct, destroy, write_rows, write_profile_data,
}
use game_server_portfolio.Profiler.Summary.{summary, sort, lasts, average, get_avg-summary}
use game_server_portfolio.Profiler.End.{
  Log, elements, record_time, Represents, get_or-append, length-snoc, append-snoc,
}
use game_server_portfolio.Profiler.Recorded.{check_init-Represents, Fits, end_tag_refines}

-- Scopes that are measured one after the other: a tag, and when it begins and ends.
abbrev pub Scopes : Type 0
Scopes = List (List ℕ × ℕ × ℕ)

abbrev pub measure_all : List ℕ → Scopes → ProfileThreadContext → Option ProfileThreadContext
measure_all thread_id [] c = some c
measure_all thread_id ((tag, begins, ends) ∷ scopes) c =
    let (p, c₁) = construct thread_id (some c) tag begins in
    elim (destroy p c₁ ends) [ none ↦ none | some c₂ ↦ measure_all thread_id scopes c₂ ]

-- The log of these scopes: the tags in the order in which they first ended, each with its times.
abbrev pub log_of : Scopes → Log → Log
log_of [] log = log
log_of ((tag, begins, ends) ∷ scopes) log = log_of scopes (record_time tag (ends - begins) log)

-- Each time fits into the sum of its tag, and each new tag into the array and into a name.
abbrev pub AllFit : Scopes → Log → Type 0
AllFit [] log = Unit {0}
AllFit ((tag, begins, ends) ∷ scopes) log =
    Fits tag (ends - begins) log × AllFit scopes (record_time tag (ends - begins) log)

-- The lines of a log: of each tag the average, the least and the greatest time and their number.
abbrev pub rows : List ℕ → Log → List Row
rows thread_id [] = []
rows thread_id (e ∷ log) =
    record {
      thread_id = thread_id;
      name = e.0;
      average = average e.1;
      least = (get_or (sort e.1) 0 llong_max, 1000);
      greatest = ((lasts 0 0 (sort e.1)).0, 1000);
      calls = length e.1;
    }
    ∷ rows thread_id log

write_rows_lem :
    (log : Log) (before behind : List ProfileData) (c : ProfileThreadContext)
    → c.profile_data ≡ before ++ (elements log ++ behind)
    → write_rows (length log) (length before) c ≡ rows c.thread_id log
unfolding write_rows
write_rows_lem [] before behind c e = refl
write_rows_lem ((tag, times) ∷ log) before behind c e =
    let x = summary tag times in
    let at : c.profile_data ≡ before ++ x ∷ (elements log ++ behind) = e in
    let here : get_or c.profile_data (length before) unused ≡ x =
      ap (λ ps. get_or ps (length before) unused) at
      ∙ get_or-append before (elements log ++ behind) x unused in
    let rest : write_rows (length log) (suc (length before)) c ≡ rows c.thread_id log =
      ap (λ n. write_rows (length log) n c) (sym (length-snoc before x))
      ∙ write_rows_lem log (before ++ x ∷ []) behind c
          (at ∙ sym (append-snoc before (elements log ++ behind) x)) in
    ground (arith, here, rest, get_avg-summary tag times)

-- No operation of a thread changes its id.
update-thread_id :
    (c c' : ProfileThreadContext) (i : ℕ) (tag : List ℕ) (t : ℕ)
    → update c i tag t ≡ some c'
    → c'.thread_id ≡ c.thread_id
unfolding update
update-thread_id c c' i tag t e = ground (arith, e)

end_step-thread_id :
    (c c' : ProfileThreadContext) (i : ℕ) (tag : List ℕ) (t : ℕ) (hit : Bool)
    → end_step c i tag t ≡ some (hit, c')
    → c'.thread_id ≡ c.thread_id
unfolding end_step
end_step-thread_id c c' i tag t hit e = elim (Option-cases (update c i tag t)) [
  | inl stuck ↦ ground (arith, e, stuck)
  | inr (w, updated) ↦ ground (arith, e, updated, update-thread_id c w i tag t updated)
]

end_loop-thread_id :
    (n : ℕ) (c c' : ProfileThreadContext) (i : ℕ) (tag : List ℕ) (t : ℕ) (hit : Bool)
    → end_loop n c i tag t ≡ some (hit, c')
    → c'.thread_id ≡ c.thread_id
unfolding end_loop
end_loop-thread_id zero c c' i tag t hit e = ground (arith, e)
end_loop-thread_id (suc n) c c' i tag t hit e = elim (Option-cases (end_step c i tag t)) [
  | inl stuck ↦ ground (arith, e, stuck)
  | inr ((b, w), stepped) ↦ elim (Option-cases (end_loop n w (suc i) tag t)) [
    | inl stuck ↦ ground (arith, e, stepped, stuck)
    | inr ((b', w'), looped) ↦ ground (
      arith,
      e,
      stepped,
      looped,
      end_step-thread_id c w i tag t b stepped,
      end_loop-thread_id n w w' (suc i) tag t b' looped,
    )
  ]
]

end_tag-thread_id :
    (c c' : ProfileThreadContext) (tag : List ℕ) (t : ℕ)
    → end_tag c tag t ≡ some c'
    → c'.thread_id ≡ c.thread_id
unfolding end_tag
end_tag-thread_id c c' tag t e = elim (Option-cases (end_loop c.profile_count c 0 tag t)) [
  | inl stuck ↦ ground (arith, e, stuck)
  | inr ((b, w), looped) ↦
      let same = end_loop-thread_id c.profile_count c w 0 tag t b looped in
      elim (Option-cases (update w w.profile_count tag t)) [
        | inl stuck ↦ ground (arith, e, looped, same, stuck)
        | inr (w', updated) ↦
            ground
              (arith, e, looped, same, updated, update-thread_id w w' w.profile_count tag t updated)
      ]
]

measure_all_lem :
    (thread_id : List ℕ) (scopes : Scopes) (c : ProfileThreadContext) (log : Log)
    → Represents c log
    → c.thread_id ≡ thread_id
    → AllFit scopes log
    → (c' : ProfileThreadContext) × (measure_all thread_id scopes c ≡ some c')
      × Represents c' (log_of scopes log)
      × (c'.thread_id ≡ thread_id)
unfolding construct destroy check_init
measure_all_lem thread_id [] c log r same fit = (c, refl, r, same)
measure_all_lem thread_id ((tag, begins, ends) ∷ scopes) c log r same (fits, fit) =
    let (w, ended, r') = end_tag_refines c log tag (ends - begins) r fits in
    let (c', ran, r'', same') =
      measure_all_lem thread_id scopes w (record_time tag (ends - begins) log) r'
        (end_tag-thread_id c w tag (ends - begins) ended ∙ same) fit in
    (c', ground (arith, ended, ran), r'', same')

-- When a new thread has measured any scopes, one after the other, of which each time fits into the sum
-- of its tag, and each new tag into the array and into a name, every step has returned, and so does
-- the report on the thread. It has one line for each tag, in the order in which they first ended, with
-- the thread's id, the tag, the number of its times, the least and the greatest of them, and their
-- average: of all of them, or, if there are more than four, of all but the two least and the two
-- greatest. All times in it are in microseconds.
pub measure_all-rows :
    (thread_id : List ℕ) (scopes : Scopes)
    → AllFit scopes []
    → (c : ProfileThreadContext) × (measure_all thread_id scopes (check_init thread_id none)
        ≡ some c)
      × (write_profile_data c ≡ some (rows thread_id (log_of scopes [])))
unfolding write_profile_data check_init initialize
measure_all-rows thread_id scopes fit =
    let (c, ran, r, same) =
      measure_all_lem thread_id scopes (check_init thread_id none) []
        (check_init-Represents thread_id) refl fit in
    let log = log_of scopes [] in
    let written : write_rows c.profile_count 0 c ≡ rows thread_id log =
      ap (λ n. write_rows n 0 c) r.count_is
      ∙ write_rows_lem log [] (replicate (profile_max - length log) unused) c r.data_is
      ∙ ap (λ id. rows id log) same in
    (c, ran, ground (arith, written, r.few, r.count_is))
