-- ===== src/RbTree/Tests.antt =====
-- The red-black tree on small inputs, and the theorems at inputs that meet their hypotheses.
use game_server_portfolio.Base.{
  ℕ, ◌≡◌, ◌≤◌, ◌*◌, ◌+◌, ◌^◌, length, refl, true, false, [], ◌∷◌, none, some, arith,
}
use game_server_portfolio.Entries.{Entry, add, remove, lookup}
use game_server_portfolio.RbTree.{NodeColor, black, red, Node, nil, node, RbTree}
use game_server_portfolio.RbTree.Insert.{insert}
use game_server_portfolio.RbTree.Delete.{delete}
use game_server_portfolio.RbTree.Read.{
  find_node, get_value_node, get_node_count_node, empty, find, get_value, get_node_count, get_count,
  get_sorted_key_array, print, destroy_tree, toggle_color, clear_debug_vector,
}
use game_server_portfolio.RbTree.Order.{entries}
use game_server_portfolio.RbTree.Balance.{IsRedBlack}
use game_server_portfolio.RbTree.Balance.Inserted.{insert-IsRedBlack}
use game_server_portfolio.RbTree.Balance.Unlinked.{delete-IsRedBlack}
use game_server_portfolio.RbTree.Balance.Depth.{depth, insert-depth}
use game_server_portfolio.RbTree.Lookup.{answers, reads-lookup}

abbrev leaf : NodeColor → ℕ → ℕ → ℕ → Node ℕ
leaf c k v n = node c nil (record { key = k; value = v; count = n }) nil

abbrev entry : ℕ → ℕ → Entry ℕ
entry k v = record { key = k; value = v; count = 1 }

-- 5 and 8 red below the black 6
abbrev sample : RbTree ℕ
sample = record {
  root = node black (leaf red 5 50 2) (entry 6 60) (leaf red 8 80 1);
  count = 3;
  insert_vec = [];
  delete_vec = [];
}

sample-IsRedBlack : IsRedBlack sample.root
sample-IsRedBlack = record {
  rules = ((tt, tt, refl, (refl, refl)), (tt, tt, refl, (refl, refl)), refl, tt);
  root_black = refl;
}

-- A key below a red parent with a red uncle, and one on the inner side of a red parent.
insert_runs :
    (insert sample 3 30
      ≡ some (record sample {
        root =
            node black
              (node black (leaf red 3 30 1) (record { key = 5; value = 50; count = 2 }) nil)
              (entry 6 60)
              (leaf black 8 80 1);
        count = 4;
        insert_vec = 3 ∷ [];
      }))
    × (elim (insert {T = ℕ} empty 5 50) [
      | none ↦ none
      | some t ↦ elim (insert t 9 90) [
        | none ↦ none
        | some t' ↦ elim (insert t' 7 70) [ none ↦ none | some t'' ↦ some t''.root ]
      ]
    ]
        ≡ some (node black (leaf red 5 50 1) (entry 7 70) (leaf red 9 90 1)))
unfolding insert empty
insert_runs = (refl, refl)

-- The root has two children: its successor's fields come up, and the count is the successor's.
delete_runs :
    (delete sample 6
      ≡ some (
        1,
        record sample {
          root = node black (leaf red 5 50 2) (entry 8 80) nil;
          count = 2;
          delete_vec = 6 ∷ [];
        },
      ))
    × (delete sample 7 ≡ some (0, record sample { delete_vec = 7 ∷ [] }))
unfolding delete
delete_runs = (refl, refl)

reads_run :
    (find sample 8 ≡ true)
    × (find sample 7 ≡ false)
    × (get_value sample 5 0 ≡ 50)
    × (get_node_count sample 5 ≡ 2)
    × (get_count sample ≡ 3)
    × (get_sorted_key_array sample (1 ∷ []) ≡ 1 ∷ 5 ∷ 6 ∷ 8 ∷ [])
    × (print sample 0 ≡ 0 ∷ 50 ∷ 0 ∷ 60 ∷ 0 ∷ 80 ∷ 0 ∷ [])
    × (destroy_tree sample.root ≡ 5 ∷ 8 ∷ 6 ∷ [])
    × (toggle_color (leaf red 5 50 2) ≡ leaf black 5 50 2)
    × (clear_debug_vector (record sample { insert_vec = 1 ∷ [] }) ≡ sample)
unfolding find get_value get_node_count get_count get_sorted_key_array print destroy_tree
    toggle_color clear_debug_vector
reads_run = (refl, refl, refl, refl, refl, refl, refl, refl, refl, refl)

insert-IsRedBlack_example :
    (t' : RbTree ℕ) × (insert sample 7 70 ≡ some t')
    × IsRedBlack t'.root
    × (entries t'.root ≡ add 7 70 (entries sample.root))
insert-IsRedBlack_example = insert-IsRedBlack sample 7 70 sample-IsRedBlack (omega arith)

delete-IsRedBlack_example :
    (n : ℕ) × (t' : RbTree ℕ) × (delete sample 6 ≡ some (n, t'))
    × IsRedBlack t'.root
    × (entries t'.root ≡ remove 6 (entries sample.root))
delete-IsRedBlack_example = delete-IsRedBlack sample 6 sample-IsRedBlack (omega arith)

insert-depth_example :
    (h : ℕ) × (depth (node black (leaf red 5 50 2) (entry 6 60) (leaf red 8 80 2)) ≤ 2 * h)
    × (2 ^ h ≤ length (entries (node black (leaf red 5 50 2) (entry 6 60) (leaf red 8 80 2))) + 1)
unfolding insert
insert-depth_example =
    insert-depth sample
      (record sample {
        root = node black (leaf red 5 50 2) (entry 6 60) (leaf red 8 80 2);
        insert_vec = 8 ∷ [];
      })
      8 80 sample-IsRedBlack (omega arith) refl

reads-lookup_example :
    (find_node sample.root 8, get_value_node sample.root 8 0, get_node_count_node sample.root 8)
    ≡ answers 0 (lookup 8 (entries sample.root))
reads-lookup_example = reads-lookup sample.root 8 0 (omega arith)
