-- ===== src/BinaryTree/Count.antt =====
-- `count_` and what `Delete` returns; the invariant of the whole tree.
use game_server_portfolio.Base.{
  ℕ, ◌+◌, ◌≡◌, refl, sym, ap, subst, true, ◌∷◌, ◌++◌, map, length, length-append, arith,
  if◌then◌else◌,
}
use mathlib.Core.List.{Perm, map-append, perm_append_singleton, perm_middle}
use mathlib.Core.List.Perm
use game_server_portfolio.Entries.{add, remove}
use game_server_portfolio.Entries.Sorted.{IsSorted, add-IsSorted, remove-IsSorted}
use game_server_portfolio.BinaryTree.{
  Node, null, node, BinaryTree, empty, insert_node, insert, unlink, delete_node, delete,
  destroy_tree,
}
use game_server_portfolio.BinaryTree.Order.{
  entry, entries, IsOrdered, entries-insert_node, entries-delete_node, entries-unlink,
}

module _ {ℓ} {T : Type ℓ} where
  pub record IsValid (t : BinaryTree T) : Type 0 where
    pub ordered : IsOrdered t.root
    pub counted : t.count ≡ length (entries t.root)

  pub empty-IsValid : IsValid empty
  unfolding empty
  empty-IsValid = record { ordered = tt; counted = refl }

  insert_node-length :
      (t : Node T) (key : ℕ) (value : T)
      → length (entries (insert_node t key value).1)
        ≡ (if (insert_node t key value).0 then length (entries t) + 1 else length (entries t))
  unfolding insert_node
  insert_node-length null key value = refl
  insert_node-length (node l k v c r) key value = ground (
    arith,
    insert_node-length l key value,
    insert_node-length r key value,
    length-append (entries l) (entry k v c ∷ entries r),
    length-append (entries l) (entry k v (c + 1) ∷ entries r),
    length-append (entries (insert_node l key value).1) (entry k v c ∷ entries r),
    length-append (entries l) (entry k v c ∷ entries (insert_node r key value).1),
  )

  -- `Insert` keeps a tree valid, and on its entries it is `add`: a new key gets an entry of count 1
  -- with the value given, a key that is there keeps its value and is counted once more.
  pub insert_refines :
      (t : BinaryTree T) (key : ℕ) (value : T)
      → IsValid t
      → IsValid (insert t key value)
        × (entries (insert t key value).root ≡ add key value (entries t.root))
  unfolding insert
  insert_refines t key value v =
      let e = entries-insert_node t.root key value v.ordered in
      (
        record {
          ordered = subst IsSorted (sym e) (add-IsSorted key value (entries t.root) v.ordered);
          counted = ground (arith, insert_node-length t.root key value, v.counted);
        },
        e,
      )

  unlink-unlinked : (l : Node T) (c : ℕ) (r : Node T) → (unlink l c r).unlinked ≡ true
  unfolding unlink
  unlink-unlinked null c r = refl
  unlink-unlinked (node _ _ _ _ _) c null = refl
  unlink-unlinked (node _ _ _ _ _) c (node _ _ _ _ _) = refl

  delete_node-length :
      (t : Node T) (key : ℕ)
      → length (entries t)
        ≡ length (entries (delete_node t key).tree)
          + (if (delete_node t key).unlinked then 1 else 0)
  unfolding delete_node
  delete_node-length null key = refl
  delete_node-length (node l k v c r) key = ground (
    arith,
    delete_node-length l key,
    delete_node-length r key,
    length-append (entries l) (entry k v c ∷ entries r),
    length-append (entries (delete_node l key).tree) (entry k v c ∷ entries r),
    length-append (entries l) (entry k v c ∷ entries (delete_node r key).tree),
    ap length (entries-unlink l c r),
    length-append (entries l) (entries r),
    unlink-unlinked l c r,
  )

  -- `Delete` keeps a tree valid, and on its entries it is `remove`: the entry of the key goes, if
  -- there is one, and no other changes.
  pub delete_refines :
      (t : BinaryTree T) (key : ℕ)
      → IsValid t
      → let (_, t') = delete t key in IsValid t' × (entries t'.root ≡ remove key (entries t.root))
  unfolding delete
  delete_refines t key v =
      let e = entries-delete_node t.root key v.ordered in
      (
        record {
          ordered = subst IsSorted (sym e) (remove-IsSorted key (entries t.root) v.ordered);
          counted = ground (arith, delete_node-length t.root key, v.counted);
        },
        e,
      )

  -- The destructor frees each node once.
  pub destroy_tree-perm : (t : Node T) → Perm (destroy_tree t) (map (λ e. e.key) (entries t))
  unfolding destroy_tree
  destroy_tree-perm null = Perm.nil
  destroy_tree-perm (node l k v c r) =
      rw (map-append (λ e. e.key) (entries l) (entry k v c ∷ entries r)) (
        Perm.trans (perm_append_singleton k (destroy_tree l ++ destroy_tree r)) (
          Perm.trans (Perm.cons k (Perm.append (destroy_tree-perm l) (destroy_tree-perm r))) (
            Perm.symm (perm_middle (map (λ e. e.key) (entries l)) (map (λ e. e.key) (entries r))))))
