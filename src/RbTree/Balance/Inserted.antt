-- ===== src/RbTree/Balance/Inserted.antt =====
-- `RBtree::Insert` on a red-black tree: the search, the new node, and the whole method.
use native.Mathlib.Decide.{dec_lt}
use game_server_portfolio.Base.{
  ℕ, suc, ◌+◌, ◌≡◌, refl, sym, Bool, true, false, some, List, [], ◌∷◌, arith, ◌++◌, if◌then◌else◌,
  length, lt→ltb, ltb-false,
}
use game_server_portfolio.Entries.{add}
use game_server_portfolio.RbTree.{black, red, Node, nil, node, left, right, Frame, RbTree, color_of}
use game_server_portfolio.RbTree.Insert.{
  Search, counted, place, search_place, insert_at, insert, new_node,
}
use game_server_portfolio.RbTree.Balance.{
  MayBe, MayBe-flip, height, IsRb, IsRedBlack, above, PathRb, plug-IsRedBlack, ColorsOk-MayBe,
}
use game_server_portfolio.RbTree.Balance.Loop.{loop-Good}
use game_server_portfolio.RbTree.Order.{entries, IsOrdered}
use game_server_portfolio.RbTree.Order.Inserted.{entries-insert}

module _ {ℓ} {T : Type ℓ} where
  -- The rules at the place that a search has found, or in the tree with its key counted.
  abbrev Lands : Search T → Type 0
  Lands (counted root) = IsRedBlack root
  Lands (place path) = PathRb path 0

  search_place-Lands :
      (t : Node T) (key : ℕ) (path : List (Frame T))
      → IsRb t
      → MayBe (color_of t) (above path)
      → PathRb path (height t)
      → Lands (search_place t key path)
  unfolding search_place
  search_place-Lands nil key path a m o = o
  search_place-Lands (node c l e r) key path (rl, rr, h, ok) m o =
      let (ml, mr) = ColorsOk-MayBe c l r ok in
      let go_left =
        search_place-Lands l key (record { side = left; color = c; fields = e; sibling = r } ∷ path)
          rl (MayBe-flip c (color_of l) ml) (rr, sym h, mr, m, o) in
      let go_right =
        search_place-Lands r key
          (record { side = right; color = c; fields = e; sibling = l } ∷ path) rr
          (MayBe-flip c (color_of r) mr) (rl, h, ml, m, rw (sym h) o) in
      elim (dec_lt key e.key) [
        | yes lt ↦ rw (lt→ltb key e.key lt) go_left
        | no nlt ↦ elim (dec_lt e.key key) [
          | yes gt ↦ rw (ltb-false key e.key nlt, lt→ltb e.key key gt) go_right
          | no ngt ↦
              rw (ltb-false key e.key nlt, ltb-false e.key key ngt)
                (plug-IsRedBlack (node c l (record e { count = e.count + 1 }) r) path
                  (rl, rr, h, ok) m o)
        ]
      ]

  insert_at-Good :
      (found : Search T) (key : ℕ) (value : T)
      → Lands found
      → (made : Bool) × (root : Node T) × (insert_at found key value ≡ some (made, root))
        × IsRedBlack root
  insert_at-Good (counted t) key value h = (false, t, refl, h)
  insert_at-Good (place []) key value h = (
    true,
    new_node black key value,
    refl,
    record { rules = (tt, tt, refl, tt); root_black = refl },
  )
  insert_at-Good (place (f ∷ path)) key value h =
      let (root, runs, good) =
        loop-Good (suc (suc (length (f ∷ path)))) (new_node red key value) (f ∷ path) (omega arith)
          (tt, tt, refl, (refl, refl)) refl h in
      (true, root, ground (arith, runs), good)

  -- On a red-black tree that is a search tree, `Insert` returns, what it leaves is a red-black tree,
  -- and its entries are those before with the key added: a new key gets an entry of count 1 with the
  -- value given, a key that is there is counted once more.
  pub insert-IsRedBlack :
      (t : RbTree T) (key : ℕ) (value : T)
      → IsRedBlack t.root
      → IsOrdered t.root
      → (t' : RbTree T) × (insert t key value ≡ some t')
        × IsRedBlack t'.root
        × (entries t'.root ≡ add key value (entries t.root))
  unfolding insert
  insert-IsRedBlack t key value good ordered =
      let (made, root, runs, kept) =
        insert_at-Good (search_place t.root key []) key value
          (search_place-Lands t.root key [] good.rules (rw good.root_black tt) tt) in
      let t' = record t {
        root = root;
        count = if made then t.count + 1 else t.count;
        insert_vec = t.insert_vec ++ key ∷ [];
      } in
      let e : insert t key value ≡ some t' = ground (arith, runs) in
      (t', e, kept, entries-insert t t' key value ordered e)
