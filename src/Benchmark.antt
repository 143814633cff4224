-- ===== src/Benchmark.antt =====
-- rb-tree-binary-tree/BST-vs-RBT-benchmark/: main.cpp and DataSetMaker.h. The copies of the two trees
-- beside them are taken as `BinaryTree` and `RbTree`, whose vectors for debugging the copy of RBtree.h
-- does not have. A key, an `int`, is taken by its distance from INT_MIN. Of the profiler only the
-- order is kept in which its tags are timed, written out and cleared. `shuffle` is what `std::shuffle`
-- makes of a vector with the generator of a seed.
pub mod Trees
pub mod Sorted
pub mod Printed
mod Tests
use game_server_portfolio.Base.{
  ℕ, zero, suc, ◌+◌, List, [], ◌∷◌, ◌++◌, Bool, Option, none, some, if◌then◌else◌,
}
use game_server_portfolio.Entries.{int}
use game_server_portfolio.BinaryTree.{BinaryTree}
use game_server_portfolio.RbTree.{RbTree}
use game_server_portfolio.RbTree.Read.{empty, find}
use game_server_portfolio.RbTree.Insert.{insert}
use game_server_portfolio.BinaryTree

pub data Tag : Type 0 where
  bst_insert_sorted rbt_insert_sorted bst_insert_random rbt_insert_random : Tag
  bst_search_sorted rbt_search_sorted bst_search_random rbt_search_random : Tag

-- A file written: the size in its name, and the tags timed, oldest first.
pub record Report : Type 0 where
  pub data_size : ℕ
  pub tags : List Tag

-- What the program has left: the tags timed since the last `Clear`, the files, and how many lines
-- "not find" it has printed.
pub record Output : Type 0 where
  pub tags : List Tag
  pub reports : List Report
  pub not_find : ℕ

-- `std::iota` over as many elements
abbrev pub iota : ℕ → ℕ → List ℕ
iota zero value = []
iota (suc size) value = value ∷ iota size (value + 1)

unfoldable pub get_sorted_vector : ℕ → List ℕ
get_sorted_vector size = iota size (int 1)

unfoldable pub get_random_vector : (ℕ → List ℕ → List ℕ) → ℕ → ℕ → List ℕ
unfolding get_sorted_vector
get_random_vector shuffle size seed = shuffle seed (get_sorted_vector size)

-- The loops that insert a set.
unfoldable pub insert_all_bst : List ℕ → BinaryTree ℕ → BinaryTree ℕ
insert_all_bst [] bst = bst
insert_all_bst (key ∷ keys) bst = insert_all_bst keys (BinaryTree.insert bst key 0)

unfoldable pub insert_all_rbt : List ℕ → RbTree ℕ → Option (RbTree ℕ)
insert_all_rbt [] rbt = some rbt
insert_all_rbt (key ∷ keys) rbt = elim (insert rbt key 0) [
  | none ↦ none
  | some rbt' ↦ insert_all_rbt keys rbt'
]

-- The loops that search a set: the lines "not find".
unfoldable pub search_all : (ℕ → Bool) → List ℕ → ℕ
search_all find [] = 0
search_all find (key ∷ keys) =
    let rest = search_all find keys in if find key then rest else rest + 1

abbrev timed : Tag → Output → Output
timed tag out = record out { tags = out.tags ++ tag ∷ [] }

infixl 1 ◌>>=◌
-- a null pointer read ends the program
abbrev pub ◌>>=◌ : {A B : Type 0} → Option A → (A → Option B) → Option B
none >>= f = none
some a >>= f = f a

-- The blocks of the loop's body, each over a set: the trees are their own.
unfoldable pub insert_bst : Tag → List ℕ → Output → Option Output
unfolding insert_all_bst
insert_bst tag keys out = let bst = insert_all_bst keys BinaryTree.empty in some (timed tag out)

unfoldable pub insert_rbt : Tag → List ℕ → Output → Option Output
unfolding insert_all_rbt
insert_rbt tag keys out = elim (insert_all_rbt keys empty) [
  | none ↦ none
  | some rbt ↦ some (timed tag out)
]

unfoldable pub search_bst : Tag → List ℕ → Output → Option Output
unfolding insert_all_bst search_all
search_bst tag keys out =
    let bst = insert_all_bst keys BinaryTree.empty in
    some
      (record (timed tag out) { not_find = out.not_find + search_all (BinaryTree.find bst) keys })

unfoldable pub search_rbt : Tag → List ℕ → Output → Option Output
unfolding insert_all_rbt search_all
search_rbt tag keys out = elim (insert_all_rbt keys empty) [
  | none ↦ none
  | some rbt ↦
      some (record (timed tag out) { not_find = out.not_find + search_all (find rbt) keys })
]

-- The body of the loop over the rounds.
unfoldable pub measure : List ℕ → List ℕ → Output → Option Output
measure sorted_set random_set out = do
  out₁ ← insert_bst bst_insert_sorted sorted_set out
  out₂ ← insert_rbt rbt_insert_sorted sorted_set out₁
  out₃ ← insert_bst bst_insert_random random_set out₂
  out₄ ← insert_rbt rbt_insert_random random_set out₃
  out₅ ← search_bst bst_search_sorted sorted_set out₄
  out₆ ← search_rbt rbt_search_sorted sorted_set out₅
  out₇ ← search_bst bst_search_random random_set out₆
  search_rbt rbt_search_random random_set out₇

unfoldable pub measure_loop : ℕ → List ℕ → List ℕ → Output → Option Output
measure_loop zero sorted_set random_set out = some out
measure_loop (suc rounds) sorted_set random_set out = do
  out' ← measure sorted_set random_set out
  measure_loop rounds sorted_set random_set out'

-- "memory warmup": the two trees take the keys in turns.
unfoldable pub warm_up : List ℕ → Output → Option Output
unfolding insert_all_bst insert_all_rbt
warm_up keys out = elim (insert_all_rbt keys empty) [
  | none ↦ none
  | some rbt ↦ let bst = insert_all_bst keys BinaryTree.empty in some out
]

abbrev pub rounds_per_size : ℕ
rounds_per_size = 20

-- `DataOutText` and `Clear`
abbrev pub written : ℕ → Output → Output
written data_size out = record out {
  tags = [];
  reports = out.reports ++ record { data_size = data_size; tags = out.tags } ∷ [];
}

module _ (shuffle : ℕ → List ℕ → List ℕ) where
  unfoldable pub run_size : ℕ → Output → Option Output
  run_size data_size out = do
    let sorted_set = get_sorted_vector data_size
    let random_set = get_random_vector shuffle data_size 10
    warm ← warm_up sorted_set out
    out' ← measure_loop rounds_per_size sorted_set random_set warm
    some (written data_size out')

  unfoldable pub run_sizes : List ℕ → Output → Option Output
  run_sizes [] out = some out
  run_sizes (data_size ∷ sizes) out = do out' ← run_size data_size out; run_sizes sizes out'

  unfoldable pub main : Option Output
  main =
      run_sizes (100 ∷ 500 ∷ 1000 ∷ 5000 ∷ 10000 ∷ [])
        (record { tags = []; reports = []; not_find = 0 })
