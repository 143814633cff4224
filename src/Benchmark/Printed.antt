-- ===== src/Benchmark/Printed.antt =====
-- What a run of the benchmark leaves: the tags timed, the files and the lines printed.
use game_server_portfolio.Base.{
  ap, sym, ◌∙◌, refl, ℕ, zero, suc, ◌+◌, ◌≡◌, List, [], ◌∷◌, ◌++◌, append-nil, append_assoc, map,
  some, arith,
}
use game_server_portfolio.Benchmark.{
  Tag, bst_insert_sorted, rbt_insert_sorted, bst_insert_random, rbt_insert_random,
  bst_search_sorted, rbt_search_sorted, bst_search_random, rbt_search_random, Report, Output,
  insert_bst, insert_rbt, search_bst, search_rbt, get_sorted_vector, get_random_vector, timed,
  measure, measure_loop, warm_up, rounds_per_size, run_size, run_sizes, main,
}
use game_server_portfolio.Benchmark.Trees.{insert_all-alike}

insert_bst_lem :
    (tag : Tag) (keys : List ℕ) (out : Output) → insert_bst tag keys out ≡ some (timed tag out)
unfolding insert_bst
insert_bst_lem tag keys out = refl

insert_rbt_lem :
    (tag : Tag) (keys : List ℕ) (out : Output) → insert_rbt tag keys out ≡ some (timed tag out)
unfolding insert_rbt
insert_rbt_lem tag keys out =
    let (_, made, _, _, _, _) = insert_all-alike keys in ground (arith, made)

search_bst_lem :
    (tag : Tag) (keys : List ℕ) (out : Output) → search_bst tag keys out ≡ some (timed tag out)
unfolding search_bst
search_bst_lem tag keys out =
    let (_, _, _, _, _, zeroed) = insert_all-alike keys in
    ap (λ n. some (record (timed tag out) { not_find = n }))
      (ap (λ n. out.not_find + n) zeroed ∙ omega arith)

search_rbt_lem :
    (tag : Tag) (keys : List ℕ) (out : Output) → search_rbt tag keys out ≡ some (timed tag out)
unfolding search_rbt
search_rbt_lem tag keys out =
    let (rbt, made, _, _, zeroed, _) = insert_all-alike keys in ground (arith, made, zeroed)

-- the tags in the order in which a round times them
abbrev pub all_tags : List Tag
all_tags =
    bst_insert_sorted ∷ rbt_insert_sorted ∷ bst_insert_random ∷ rbt_insert_random
    ∷ bst_search_sorted ∷ rbt_search_sorted ∷ bst_search_random ∷ rbt_search_random ∷ []

abbrev pub repeated : ℕ → List Tag → List Tag
repeated zero tags = []
repeated (suc n) tags = tags ++ repeated n tags

-- the tags timed behind those before
abbrev with_tags : Output → List Tag → Output
with_tags out tags = record out { tags = out.tags ++ tags }

measure_lem :
    (sorted_set random_set : List ℕ) (out : Output)
    → measure sorted_set random_set out ≡ some (with_tags out all_tags)
unfolding measure
measure_lem sorted_set random_set out =
    simp (insert_bst_lem, insert_rbt_lem, search_bst_lem, search_rbt_lem, append_assoc)

measure_loop_lem :
    (n : ℕ) (sorted_set random_set : List ℕ) (out : Output)
    → measure_loop n sorted_set random_set out ≡ some (with_tags out (repeated n all_tags))
unfolding measure_loop
measure_loop_lem zero sorted_set random_set out =
    ap (λ tags. some (record out { tags = tags })) (sym (append-nil out.tags))
measure_loop_lem (suc n) sorted_set random_set out = rw (measure_lem sorted_set random_set out) (
    measure_loop_lem n sorted_set random_set (with_tags out all_tags)
    ∙ ap (λ tags. some (record out { tags = tags }))
        (append_assoc out.tags all_tags (repeated n all_tags)))

warm_up_lem : (keys : List ℕ) (out : Output) → warm_up keys out ≡ some out
unfolding warm_up
warm_up_lem keys out = let (_, made, _, _, _, _) = insert_all-alike keys in ground (arith, made)

abbrev pub report : ℕ → Report
report data_size = record { data_size = data_size; tags = repeated rounds_per_size all_tags }

module _ (shuffle : ℕ → List ℕ → List ℕ) where
  run_size_lem :
      (data_size : ℕ) (reports : List Report) (n : ℕ)
      → run_size shuffle data_size (record { tags = []; reports = reports; not_find = n })
        ≡ some (record { tags = []; reports = reports ++ report data_size ∷ []; not_find = n })
  unfolding run_size
  run_size_lem data_size reports n =
      let sorted_set = get_sorted_vector data_size in
      let random_set = get_random_vector shuffle data_size 10 in
      let out : Output = record { tags = []; reports = reports; not_find = n } in
      rw (warm_up_lem sorted_set out)
        (rw (measure_loop_lem rounds_per_size sorted_set random_set out) refl)

  run_sizes_lem :
      (sizes : List ℕ) (reports : List Report) (n : ℕ)
      → run_sizes shuffle sizes (record { tags = []; reports = reports; not_find = n })
        ≡ some (record { tags = []; reports = reports ++ map report sizes; not_find = n })
  unfolding run_sizes
  run_sizes_lem [] reports n =
      ap (λ rs. some (record { tags = []; reports = rs; not_find = n })) (sym (append-nil reports))
  run_sizes_lem (data_size ∷ sizes) reports n = rw (run_size_lem data_size reports n) (
      run_sizes_lem sizes (reports ++ report data_size ∷ []) n
      ∙ ap (λ rs. some (record { tags = []; reports = rs; not_find = n }))
          (append_assoc reports (report data_size ∷ []) (map report sizes)))

  -- Whatever `std::shuffle` makes of the vectors, `main` returns: for each of the five sizes it writes
  -- one file, in which each of the eight tags has been timed twenty times, and it prints "not find"
  -- never.
  pub main_lem :
      main shuffle
      ≡ some (record {
        tags = [];
        reports = map report (100 ∷ 500 ∷ 1000 ∷ 5000 ∷ 10000 ∷ []);
        not_find = 0;
      })
  unfolding main
  main_lem = run_sizes_lem (100 ∷ 500 ∷ 1000 ∷ 5000 ∷ 10000 ∷ []) [] 0
