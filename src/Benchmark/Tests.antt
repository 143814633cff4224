-- ===== src/Benchmark/Tests.antt =====
-- The benchmark's loops on a few keys, one of them twice; and a run whose shuffle turns the vectors
-- round.
use game_server_portfolio.Base.{ℕ, ◌*◌, ◌^◌, ◌≤◌, ◌≡◌, refl, List, [], ◌∷◌, ◌++◌, map, some}
use game_server_portfolio.Entries.{int}
use game_server_portfolio.BinaryTree
use game_server_portfolio.BinaryTree.Order.{entries, depth}
use game_server_portfolio.RbTree.{RbTree}
use game_server_portfolio.RbTree
use game_server_portfolio.RbTree.Balance.Depth
use game_server_portfolio.RbTree.Read.{empty, find}
use game_server_portfolio.Benchmark.{
  get_sorted_vector, insert_all_bst, insert_all_rbt, search_all, main,
}
use game_server_portfolio.Benchmark.Trees.{insert_all-alike}
use game_server_portfolio.Benchmark.Sorted.{sorted-depth}
use game_server_portfolio.Benchmark.Printed.{report, main_lem}

abbrev sample : List ℕ
sample = int 3 ∷ int 1 ∷ int 2 ∷ int 3 ∷ []

insert_all-alike_example :
    let bst = insert_all_bst sample BinaryTree.empty in
    (rbt : RbTree ℕ) × (insert_all_rbt sample empty ≡ some rbt)
    × (RbTree.Order.entries rbt.root ≡ entries bst.root)
    × ((key : ℕ) → find rbt key ≡ BinaryTree.find bst key)
    × (search_all (find rbt) sample ≡ 0)
    × (search_all (BinaryTree.find bst) sample ≡ 0)
insert_all-alike_example = insert_all-alike sample

sorted-depth_example :
    let keys = get_sorted_vector 100 in
    (depth (insert_all_bst keys BinaryTree.empty).root ≡ 100)
    × (rbt : RbTree ℕ) × (insert_all_rbt keys empty ≡ some rbt)
    × (h : ℕ) × (RbTree.Balance.Depth.depth rbt.root ≤ 2 * h)
    × (2 ^ h ≤ 101)
sorted-depth_example = sorted-depth 100

-- the vector turned round, whatever the seed
abbrev turned : ℕ → List ℕ → List ℕ
turned seed [] = []
turned seed (key ∷ keys) = turned seed keys ++ key ∷ []

main_lem_example :
    main turned
    ≡ some (record {
      tags = [];
      reports = map report (100 ∷ 500 ∷ 1000 ∷ 5000 ∷ 10000 ∷ []);
      not_find = 0;
    })
main_lem_example = main_lem turned

-- A key that has not been inserted is printed as not found.
search_all_misses :
    search_all (BinaryTree.find (insert_all_bst sample BinaryTree.empty)) (int 2 ∷ int 4 ∷ []) ≡ 1
unfolding search_all BinaryTree.find insert_all_bst BinaryTree.empty BinaryTree.insert
search_all_misses = refl
