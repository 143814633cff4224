-- ===== src/RbTree/Lookup.antt =====
-- The reading methods of the red-black tree, against its entries.
use native.Mathlib.Decide.{dec_lt}
use game_server_portfolio.Base.{
  ℕ, ◌≡◌, refl, sym, ◌∙◌, Bool, true, false, List, [], ◌∷◌, ◌++◌, Option, none, some, map,
  append_assoc, append-nil, arith, lt→ltb, ltb-false,
}
use mathlib.Core.List.{map-append}
use game_server_portfolio.Entries.{Entry, lookup}
use game_server_portfolio.Entries.Sorted.{AllGt-mono, AllLt-mono}
use game_server_portfolio.Entries.Split.{IsSorted-split, lookup_left, lookup_right}
use game_server_portfolio.RbTree.{Node, nil, node}
use game_server_portfolio.RbTree.Read.{
  find_node, get_value_node, get_node_count_node, search_for_vector,
}
use game_server_portfolio.RbTree.Order.{entries, IsOrdered}

module _ {ℓ} {T : Type ℓ} where
  -- what the three methods answer for an entry that is looked up
  abbrev pub answers : T → Option (Entry T) → Bool × T × ℕ
  answers init none = (false, init, 0)
  answers init (some e) = (true, e.value, e.count)

  -- In a search tree `Find`, `GetValue` and `GetNodeCount` answer from the entry of the key: that it
  -- is there, its value and its count; if there is none, they give false, `T{}` and 0.
  pub reads-lookup :
      (t : Node T) (key : ℕ) (init : T)
      → IsOrdered t
      → (find_node t key, get_value_node t key init, get_node_count_node t key)
        ≡ answers init (lookup key (entries t))
  unfolding find_node get_value_node get_node_count_node lookup
  reads-lookup nil key init s = refl
  reads-lookup (node c l e r) key init s =
      let (lt, gt, sl, sr) = IsSorted-split (entries l) e (entries r) s in
      elim (dec_lt key e.key) [
        | yes h ↦
            let found =
              lookup_left key (entries l) (e ∷ entries r)
                (h, AllGt-mono key e.key (entries r) h gt) in
            rw (found, lt→ltb key e.key h) (reads-lookup l key init sl)
        | no nlt ↦ elim (dec_lt e.key key) [
          | yes h ↦
              let found =
                lookup_right key (entries l) (e ∷ entries r)
                  (AllLt-mono e.key key (entries l) h lt) in
              let behind : lookup key (e ∷ entries r) ≡ lookup key (entries r) = ground arith in
              rw (found, behind, ltb-false key e.key nlt, lt→ltb e.key key h)
                (reads-lookup r key init sr)
          | no ngt ↦
              let same : key ≡ e.key = omega arith in
              let found = lookup_right key (entries l) (e ∷ entries r) (rw same lt) in
              let here : lookup key (e ∷ entries r) ≡ some e = ground arith in
              rw (found, here, ltb-false key e.key nlt, ltb-false e.key key ngt) refl
        ]
      ]

  -- `GetSortedKeyArray` pushes the keys of the entries, in their order, behind what the vector holds.
  pub search_for_vector-keys :
      (t : Node T) (dest_vec : List ℕ)
      → search_for_vector t dest_vec ≡ dest_vec ++ map (λ e. e.key) (entries t)
  unfolding search_for_vector
  search_for_vector-keys nil dest_vec = sym (append-nil dest_vec)
  search_for_vector-keys (node c l e r) dest_vec =
      let rest = search_for_vector-keys r (search_for_vector l dest_vec ++ e.key ∷ []) in
      rest ∙ simp (search_for_vector-keys l dest_vec, map-append, append_assoc)
