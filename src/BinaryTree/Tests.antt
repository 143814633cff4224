-- ===== src/BinaryTree/Tests.antt =====
-- The search tree on small inputs, and the theorems at inputs that meet their hypotheses.
use game_server_portfolio.Base.{ℕ, ◌≡◌, ◌≢◌, ◌⊎◌, refl, true, [], ◌∷◌, some, arith}
use game_server_portfolio.Entries.{add, remove, lookup}
use game_server_portfolio.BinaryTree.{
  Node, null, node, BinaryTree, empty, insert, delete, find, get_value, get_count,
  get_sorted_key_array, search_for_print, destroy_tree,
}
use game_server_portfolio.BinaryTree.Order.{entry, entries}
use game_server_portfolio.BinaryTree.Count.{IsValid, insert_refines, delete_refines}
use game_server_portfolio.BinaryTree.Returned.{at_key, first_count, delete_returns}

abbrev leaf : ℕ → ℕ → ℕ → Node ℕ
leaf k v c = node null k v c null

-- 2 and 6 below 5; the key 5 has been inserted twice, the key 6 four times
abbrev sample : BinaryTree ℕ
sample = record { root = node (leaf 2 20 1) 5 50 2 (leaf 6 60 4); count = 3 }

sample-IsValid : IsValid sample
sample-IsValid = record { ordered = omega arith; counted = refl }

insert_runs :
    insert (insert (insert empty 5 50) 2 20) 5 51
    ≡ record sample { root = node (leaf 2 20 1) 5 50 2 null; count = 2 }
unfolding insert empty
insert_runs = refl

delete_runs :
    (delete sample 5 ≡ (4, record { root = node (leaf 2 20 1) 6 60 4 null; count = 2 }))
    × (delete sample 7 ≡ (0, sample))
unfolding delete
delete_runs = (refl, refl)

reads_run :
    (find sample 6 ≡ true)
    × (get_value sample 7 0 ≡ 0)
    × (get_sorted_key_array sample (9 ∷ []) ≡ 9 ∷ 2 ∷ 5 ∷ 6 ∷ [])
    × (search_for_print sample.root [] ≡ 20 ∷ 50 ∷ 60 ∷ [])
    × (destroy_tree sample.root ≡ 2 ∷ 6 ∷ 5 ∷ [])
    × (get_count sample ≡ 3)
unfolding find get_value get_sorted_key_array search_for_print destroy_tree get_count
reads_run = (refl, refl, refl, refl, refl, refl)

insert_refines_example :
    IsValid (insert sample 3 30)
    × (entries (insert sample 3 30).root ≡ add 3 30 (entries sample.root))
insert_refines_example = insert_refines sample 3 30 sample-IsValid

delete_refines_example :
    let (_, t') = delete sample 5 in IsValid t' × (entries t'.root ≡ remove 5 (entries sample.root))
delete_refines_example = delete_refines sample 5 sample-IsValid

delete_returns_example :
    (lookup 5 (entries sample.root) ≡ some (entry 5 50 2))
    × (((leaf 2 20 1 ≡ null) ⊎ (leaf 6 60 4 ≡ null)) × ((delete sample 5).0 ≡ 2)
        ⊎ (leaf 2 20 1 ≢ null)
          × (leaf 6 60 4 ≢ null)
          × ((delete sample 5).0 ≡ first_count (entries (leaf 6 60 4))))
unfolding at_key
delete_returns_example =
    delete_returns sample 5 (leaf 2 20 1) 5 50 2 (leaf 6 60 4) sample-IsValid refl
