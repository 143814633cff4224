-- ===== src/BinaryTree/Returned.antt =====
-- What `Delete` returns, by the node that holds the key.
use game_server_portfolio.Base.{
  ℕ, ◌≡◌, ◌≢◌, ◌⊎◌, inl, inr, refl, sym, ap, ◌∙◌, false, List, [], ◌∷◌, Option, none, some, arith,
  ltb, if◌then◌else◌,
}
use game_server_portfolio.Entries.{Entry, lookup}
use game_server_portfolio.Entries.Split.{IsSorted-split}
use game_server_portfolio.BinaryTree.{Node, null, node, BinaryTree, unlink, delete_node, delete}
use game_server_portfolio.BinaryTree.Order.{entry, entries, IsOrdered, entries-take_leftmost}
use game_server_portfolio.BinaryTree.Lookup.{left, right, here, way}
use game_server_portfolio.BinaryTree.Count.{IsValid}

module _ {ℓ} {T : Type ℓ} where
  -- the node that holds a key, with what hangs below it
  unfoldable pub at_key : Node T → ℕ → Node T
  at_key null key = null
  at_key (node l k v c r) key =
      let in_left = at_key l key in
      let in_right = at_key r key in
      if ltb key k then in_left else if ltb k key then in_right else node l k v c r

  abbrev pub entry_of : Node T → Option (Entry T)
  entry_of null = none
  entry_of (node l k v c r) = some (entry k v c)

  abbrev pub first_count : List (Entry T) → ℕ
  first_count [] = 0
  first_count (e ∷ es) = e.count

  entry_of-none : (t : Node T) → entry_of t ≡ none → t ≡ null
  entry_of-none null e = refl
  entry_of-none (node l k v c r) e = cc

  -- In a search tree that node holds the entry of the key.
  at_key-lookup :
      (t : Node T) (key : ℕ) → IsOrdered t → lookup key (entries t) ≡ entry_of (at_key t key)
  unfolding at_key lookup
  at_key-lookup null key s = refl
  at_key-lookup (node l k v c r) key s =
      let (_, _, sl, sr) = IsSorted-split (entries l) (entry k v c) (entries r) s in
      elim (way l k v c r key s) [
        | left h e ↦ rw e (ground (arith, at_key-lookup l key sl))
        | right h e ↦ rw e (ground (arith, at_key-lookup r key sr))
        | here h e ↦ rw e (ground arith)
      ]

  abbrev ret_of : Node T → ℕ
  ret_of null = 0
  ret_of (node l k v c r) = (unlink l c r).ret_count

  delete_node-ret : (t : Node T) (key : ℕ) → (delete_node t key).ret_count ≡ ret_of (at_key t key)
  unfolding delete_node at_key
  delete_node-ret null key = refl
  delete_node-ret (node l k v c r) key =
      ground (arith, delete_node-ret l key, delete_node-ret r key)

  delete_node_absent :
      (t : Node T) (key : ℕ)
      → at_key t key ≡ null
      → delete_node t key ≡ record { ret_count = 0; unlinked = false; tree = t }
  unfolding delete_node at_key
  delete_node_absent null key e = refl
  delete_node_absent (node l k v c r) key e =
      ground (arith, delete_node_absent l key, delete_node_absent r key)

  unlink_one :
      (l : Node T) (c : ℕ) (r : Node T) → (l ≡ null) ⊎ (r ≡ null) → (unlink l c r).ret_count ≡ c
  unfolding unlink
  unlink_one null c r h = refl
  unlink_one (node _ _ _ _ _) c null h = refl
  unlink_one (node _ _ _ _ _) c (node _ _ _ _ _) (inl h) = cc
  unlink_one (node _ _ _ _ _) c (node _ _ _ _ _) (inr h) = cc

  unlink_two :
      (l : Node T) (c : ℕ) (r : Node T)
      → l ≢ null
      → r ≢ null
      → (unlink l c r).ret_count ≡ first_count (entries r)
  unfolding unlink
  unlink_two null c r h h' = absurd (h refl)
  unlink_two (node _ _ _ _ _) c null h h' = absurd (h' refl)
  unlink_two (node _ _ _ _ _) c (node rl rk rv rc rr) h h' =
      ap first_count (entries-take_leftmost rl rk rv rc rr)

  -- On a valid tree `Delete` of an absent key returns 0 and changes nothing.
  pub delete_absent :
      (t : BinaryTree T) (key : ℕ)
      → IsValid t
      → lookup key (entries t.root) ≡ none
      → delete t key ≡ (0, t)
  unfolding delete
  delete_absent t key valid e =
      let gone =
        delete_node_absent t.root key
          (entry_of-none (at_key t.root key) (sym (at_key-lookup t.root key valid.ordered) ∙ e)) in
      ground (arith, gone)

  null-cases : (t : Node T) → (t ≡ null) ⊎ (t ≢ null)
  null-cases null = inl refl
  null-cases (node l k v c r) = inr (λ e. cc)

  -- On a valid tree a node that holds the key has its entry, and `Delete` of the key returns the
  -- count of that entry if the node has at most one child; if it has two, `Delete` returns the
  -- count of the next key's entry.
  pub delete_returns :
      (t : BinaryTree T) (key : ℕ) (l : Node T) (k : ℕ) (v : T) (c : ℕ) (r : Node T)
      → IsValid t
      → at_key t.root key ≡ node l k v c r
      → (lookup key (entries t.root) ≡ some (entry k v c))
        × (((l ≡ null) ⊎ (r ≡ null)) × ((delete t key).0 ≡ c)
            ⊎ (l ≢ null) × (r ≢ null) × ((delete t key).0 ≡ first_count (entries r)))
  unfolding delete
  delete_returns t key l k v c r valid e =
      let ret = delete_node-ret t.root key ∙ ap ret_of e in
      (
        at_key-lookup t.root key valid.ordered ∙ ap entry_of e,
        elim (null-cases l) [
          | inl hl ↦ inl (inl hl, ret ∙ unlink_one l c r (inl hl))
          | inr hl ↦ elim (null-cases r) [
            | inl hr ↦ inl (inr hr, ret ∙ unlink_one l c r (inr hr))
            | inr hr ↦ inr (hl, hr, ret ∙ unlink_two l c r hl hr)
          ]
        ],
      )
