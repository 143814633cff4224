-- ===== src/BinaryTree/Lookup.antt =====
-- The reading methods, against the entries of the tree.
use native.Mathlib.Decide.{dec_lt}
use game_server_portfolio.Base.{
  ℕ, ◌<◌, ◌≡◌, refl, sym, ◌∙◌, Bool, true, false, List, [], ◌∷◌, ◌++◌, Option, none, some, map,
  append_assoc, append-nil, arith,
}
use mathlib.Core.List.{map-append}
use game_server_portfolio.Entries.{Entry, lookup}
use game_server_portfolio.Entries.Sorted.{AllGt-mono, AllLt-mono}
use game_server_portfolio.Entries.Split.{IsSorted-split, lookup_left, lookup_right}
use game_server_portfolio.BinaryTree.{
  Node, null, node, find_node, get_value_node, search_for_vector, search_for_print, BinaryTree,
  get_sorted_key_array,
}
use game_server_portfolio.BinaryTree.Order.{entry, entries, IsOrdered}

module _ {ℓ} {T : Type ℓ} where
  abbrev pub is_some : Option (Entry T) → Bool
  is_some none = false
  is_some (some e) = true

  abbrev pub value_or : T → Option (Entry T) → T
  value_or init none = init
  value_or init (some e) = e.value

  -- The three ways in which the search for a key goes at a node of a search tree.
  pub data Way (l : Node T) (k : ℕ) (v : T) (c : ℕ) (r : Node T) (key : ℕ) : Type ℓ where
    left :
        key < k → lookup key (entries (node l k v c r)) ≡ lookup key (entries l) → Way l k v c r key
    right :
        k < key → lookup key (entries (node l k v c r)) ≡ lookup key (entries r) → Way l k v c r key
    here : key ≡ k → lookup key (entries (node l k v c r)) ≡ some (entry k v c) → Way l k v c r key

  pub way :
      (l : Node T) (k : ℕ) (v : T) (c : ℕ) (r : Node T) (key : ℕ)
      → IsOrdered (node l k v c r)
      → Way l k v c r key
  unfolding lookup
  way l k v c r key s =
      let (lt, gt, _, _) = IsSorted-split (entries l) (entry k v c) (entries r) s in
      elim (dec_lt key k) [
        | yes h ↦ left h (
            lookup_left key (entries l) (entry k v c ∷ entries r)
              (h, AllGt-mono key k (entries r) h gt))
        | no nlt ↦ elim (dec_lt k key) [
          | yes h ↦ right h (
              lookup_right key (entries l) (entry k v c ∷ entries r)
                (AllLt-mono k key (entries l) h lt)
              ∙ ground arith)
          | no ngt ↦
              let same : key ≡ k = omega arith in
              here same
                (lookup_right key (entries l) (entry k v c ∷ entries r) (rw same lt) ∙ ground arith)
        ]
      ]

  -- In a search tree `Find` answers whether some entry has the key, and `GetValue` gives the value
  -- of that entry, or `T{}` if there is none.
  pub find-get_value :
      (t : Node T) (key : ℕ) (init : T)
      → IsOrdered t
      → (find_node t key ≡ is_some (lookup key (entries t)))
        × (get_value_node t key init ≡ value_or init (lookup key (entries t)))
  unfolding find_node get_value_node lookup
  find-get_value null key init s = (refl, refl)
  find-get_value (node l k v c r) key init s =
      let (_, _, sl, sr) = IsSorted-split (entries l) (entry k v c) (entries r) s in
      elim (way l k v c r key s) [
        | left h e ↦ rw e (ground (arith, find-get_value l key init sl))
        | right h e ↦ rw e (ground (arith, find-get_value r key init sr))
        | here h e ↦ rw e (ground arith)
      ]

  search_for_vector-entries :
      (t : Node T) (dest_vec : List ℕ)
      → search_for_vector t dest_vec ≡ dest_vec ++ map (λ e. e.key) (entries t)
  unfolding search_for_vector
  search_for_vector-entries null dest_vec = sym (append-nil dest_vec)
  search_for_vector-entries (node l k v c r) dest_vec =
      let rest = search_for_vector-entries r (search_for_vector l dest_vec ++ k ∷ []) in
      rest ∙ simp (search_for_vector-entries l dest_vec, map-append, append_assoc)

  -- `GetSortedKeyArray` pushes the keys of the entries, in their order, behind what the vector holds.
  pub get_sorted_key_array-entries :
      (t : BinaryTree T) (dest_vec : List ℕ)
      → get_sorted_key_array t dest_vec ≡ dest_vec ++ map (λ e. e.key) (entries t.root)
  unfolding get_sorted_key_array
  get_sorted_key_array-entries t dest_vec = search_for_vector-entries t.root dest_vec

  pub search_for_print-entries :
      (t : Node T) (out : List T) → search_for_print t out ≡ out ++ map (λ e. e.value) (entries t)
  unfolding search_for_print
  search_for_print-entries null out = sym (append-nil out)
  search_for_print-entries (node l k v c r) out =
      let rest = search_for_print-entries r (search_for_print l out ++ v ∷ []) in
      rest ∙ simp (search_for_print-entries l out, map-append, append_assoc)
