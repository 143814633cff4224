-- ===== src/Profiler/Tests.antt =====
-- The profiler on small inputs, and the theorems at inputs that meet their hypotheses.
use game_server_portfolio.Base.{
  ℕ, zero, suc, ◌+◌, ◌-◌, ◌≤◌, ◌≡◌, refl, inl, inr, false, ◌∷◌, List, [], ◌++◌, none, some, length,
  replicate, arith,
}
use game_server_portfolio.Profiler.{
  profile_max, ProfileThreadContext, unused, check_init, end_tag, write_profile_data,
}
use game_server_portfolio.Profiler.Report.{Scopes, measure_all, measure_all-rows}
use game_server_portfolio.Profiler.End.{Log, elements, has, AllDistinct, Represents}
use game_server_portfolio.Profiler.Recorded.{
  check_init-Represents, end_tag_refines, end_tag-overflow,
}

-- six times of one tag, and one of another between them
abbrev scopes_A : Scopes
scopes_A =
    (65 ∷ [], 0, 5)
    ∷ (65 ∷ [], 10, 19)
    ∷ (65 ∷ [], 20, 21)
    ∷ (66 ∷ [], 20, 23)
    ∷ (65 ∷ [], 30, 37)
    ∷ (65 ∷ [], 40, 43)
    ∷ (65 ∷ [], 50, 58)
    ∷ []

measure_all-rows_example :
    (c : ProfileThreadContext) × (measure_all (49 ∷ []) scopes_A (check_init (49 ∷ []) none)
      ≡ some c)
    × (write_profile_data c
        ≡ some (
            record {
              thread_id = 49 ∷ [];
              name = 65 ∷ [];
              average = (12, 2000);
              least = (1, 1000);
              greatest = (9, 1000);
              calls = 6;
            }
            ∷ record {
              thread_id = 49 ∷ [];
              name = 66 ∷ [];
              average = (3, 1000);
              least = (3, 1000);
              greatest = (3, 1000);
              calls = 1;
            }
            ∷ []))
measure_all-rows_example = measure_all-rows (49 ∷ []) scopes_A (
  inr (refl, omega arith, omega arith, omega arith),
  (
    inl (refl, omega arith),
    (
      inl (refl, omega arith),
      (
        inr (refl, omega arith, omega arith, omega arith),
        (inl (refl, omega arith), (inl (refl, omega arith), (inl (refl, omega arith), tt))),
      ),
    ),
  ),
)

-- the first time that a thread measures
end_tag_refines_example :
    (c' : ProfileThreadContext) × (end_tag (check_init (49 ∷ []) none) (65 ∷ 66 ∷ []) 250 ≡ some c')
    × Represents c' ((65 ∷ 66 ∷ [], 250 ∷ []) ∷ [])
end_tag_refines_example =
    end_tag_refines (check_init (49 ∷ []) none) [] (65 ∷ 66 ∷ []) 250
      (check_init-Represents (49 ∷ [])) (inr (refl, omega arith, omega arith, omega arith))

-- as many tags, of one character each
abbrev numbered : ℕ → Log
numbered zero = []
numbered (suc n) = (n ∷ [], 0 ∷ []) ∷ numbered n

has-numbered : (n m : ℕ) → n ≤ m → has (m ∷ []) (numbered n) ≡ false
has-numbered zero m h = refl
has-numbered (suc n) m h = ground (arith, h, has-numbered n m (omega arith))

numbered-AllDistinct : (n : ℕ) → AllDistinct (numbered n)
numbered-AllDistinct zero = tt
numbered-AllDistinct (suc n) = (has-numbered n n (omega arith), numbered-AllDistinct n)

abbrev full : ProfileThreadContext
full = record {
  profile_data = elements (numbered 128) ++ replicate (profile_max - length (numbered 128)) unused;
  thread_id = 49 ∷ [];
  profile_count = 128;
}

end_tag-overflow_example :
    (c' : ProfileThreadContext) × (end_tag full (200 ∷ []) 7 ≡ some c')
    × (c'.profile_count ≡ profile_max + 1)
    × (c'.profile_data ≡ full.profile_data)
    × ((tag' : List ℕ) (t' : ℕ) → end_tag c' tag' t' ≡ none)
end_tag-overflow_example =
    end_tag-overflow full (numbered 128) (200 ∷ []) 7
      (record {
        few = omega arith;
        data_is = refl;
        count_is = refl;
        distinct = numbered-AllDistinct 128;
      })
      refl (has-numbered 128 200 (omega arith))
