-- ===== src/BinaryTree/Order.antt =====
-- The entries of a tree in order, and what `Insert` and `Delete` do to them.
use game_server_portfolio.Base.{
  suc, larger, ℕ, ◌≡◌, refl, sym, ap, List, [], ◌∷◌, ◌++◌, append-nil, arith,
}
use native.Mathlib.Decide.{dec_lt}
use game_server_portfolio.Entries.{Entry, add, remove}
use game_server_portfolio.Entries.Sorted.{IsSorted, AllGt-mono, AllLt-mono}
use game_server_portfolio.Entries.Split.{
  IsSorted-split, add_left, add_right, remove_left, remove_right,
}
use game_server_portfolio.BinaryTree.{
  Node, null, node, insert_node, take_leftmost, unlink, delete_node,
}

module _ {ℓ} {T : Type ℓ} where
  abbrev pub entry : ℕ → T → ℕ → Entry T
  entry k v c = record { key = k; value = v; count = c }

  -- the entries from left to right
  abbrev pub entries : Node T → List (Entry T)
  entries null = []
  entries (node l k v c r) = entries l ++ entry k v c ∷ entries r

  -- A search tree: its entries ascend.
  abbrev pub IsOrdered : Node T → Type 0
  IsOrdered t = IsSorted (entries t)

  -- the number of nodes on the longest way down
  abbrev pub depth : Node T → ℕ
  depth null = 0
  depth (node l k v c r) = suc (larger (depth l) (depth r))

  -- `Insert` is `add` on the entries.
  pub entries-insert_node :
      (t : Node T) (key : ℕ) (value : T)
      → IsOrdered t
      → entries (insert_node t key value).1 ≡ add key value (entries t)
  unfolding insert_node add
  entries-insert_node null key value s = refl
  entries-insert_node (node l k v c r) key value s =
      let (lt, gt, sl, sr) = IsSorted-split (entries l) (entry k v c) (entries r) s in
      elim (dec_lt key k) [
        | yes h ↦ ground (
          arith,
          entries-insert_node l key value sl,
          add_left key value (entries l) (entry k v c) (entries r) h,
        )
        | no nlt ↦ elim (dec_lt k key) [
          | yes h ↦ ground (
            arith,
            entries-insert_node r key value sr,
            add_right key value (entries l) (entry k v c ∷ entries r)
                (AllLt-mono k key (entries l) h lt),
          )
          | no ngt ↦
              let same : key ≡ k = omega arith in
              ground (arith, add_right key value (entries l) (entry k v c ∷ entries r) (rw same lt))
        ]
      ]

  pub entries-take_leftmost :
      (l : Node T) (k : ℕ) (v : T) (c : ℕ) (r : Node T)
      → let (key, value, count, rest) = take_leftmost l k v c r in
        entry key value count ∷ entries rest ≡ entries (node l k v c r)
  unfolding take_leftmost
  entries-take_leftmost null k v c r = refl
  entries-take_leftmost (node ll lk lv lc lr) k v c r =
      ap (λ es. es ++ entry k v c ∷ entries r) (entries-take_leftmost ll lk lv lc lr)

  -- Unlinking a node leaves what is left and right of it.
  pub entries-unlink :
      (l : Node T) (c : ℕ) (r : Node T) → entries (unlink l c r).tree ≡ entries l ++ entries r
  unfolding unlink
  entries-unlink null c r = refl
  entries-unlink (node ll lk lv lc lr) c null = sym (append-nil _)
  entries-unlink (node ll lk lv lc lr) c (node rl rk rv rc rr) =
      ap (λ es. entries (node ll lk lv lc lr) ++ es) (entries-take_leftmost rl rk rv rc rr)

  -- `Delete` is `remove` on the entries.
  pub entries-delete_node :
      (t : Node T) (key : ℕ)
      → IsOrdered t
      → entries (delete_node t key).tree ≡ remove key (entries t)
  unfolding delete_node remove
  entries-delete_node null key s = refl
  entries-delete_node (node l k v c r) key s =
      let (lt, gt, sl, sr) = IsSorted-split (entries l) (entry k v c) (entries r) s in
      elim (dec_lt key k) [
        | yes h ↦ ground (
          arith,
          entries-delete_node l key sl,
          remove_left key (entries l) (entry k v c ∷ entries r)
              (h, AllGt-mono key k (entries r) h gt),
        )
        | no nlt ↦ elim (dec_lt k key) [
          | yes h ↦ ground (
            arith,
            entries-delete_node r key sr,
            remove_right key (entries l) (entry k v c ∷ entries r)
                (AllLt-mono k key (entries l) h lt),
          )
          | no ngt ↦
              let same : key ≡ k = omega arith in
              ground (
                arith,
                entries-unlink l c r,
                remove_right key (entries l) (entry k v c ∷ entries r) (rw same lt),
              )
        ]
      ]
