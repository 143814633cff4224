-- ===== src/RbTree/Balance/Unlinked.antt =====
-- `RBtree::Delete` on a red-black tree: the search, the node unlinked, and the whole method.
use native.Mathlib.Decide.{dec_lt}
use game_server_portfolio.Base.{
  ◌++◌, lt→ltb, ltb-false, ◌-◌, ℕ, ◌+◌, ◌*◌, ◌≡◌, refl, sym, some, List, [], ◌∷◌, arith, length,
}
use game_server_portfolio.Entries.{Entry, remove}
use game_server_portfolio.RbTree.{
  NodeColor, black, red, Node, nil, node, left, right, Frame, RbTree, color_of, blacken, plug,
}
use game_server_portfolio.RbTree.Delete.{
  locate, leftmost, replace, unlink_at, delete, balance, red_black_balancing,
}
use game_server_portfolio.RbTree.Order.{entries, IsOrdered}
use game_server_portfolio.RbTree.Balance.{
  plus_black, MayBe, MayBe-flip, height, IsRb, IsRedBlack, above, PathRb, plug-IsRedBlack,
  ColorsOk-MayBe,
}
use game_server_portfolio.RbTree.Order.Deleted.{entries-delete}
use game_server_portfolio.RbTree.Balance.Deleted.{Rooted, balance-Mends}

module _ {ℓ} {T : Type ℓ} where
  blacken-IsRb : (t : Node T) → IsRb t → IsRb (blacken t) × (color_of (blacken t) ≡ black)
  blacken-IsRb nil a = (tt, refl)
  blacken-IsRb (node c l e r) a = ((a.0, a.1, a.2, tt), refl)

  Rooted-append :
      (bs : List (Frame T)) (f : Frame T) (fs : List (Frame T)) (c : NodeColor)
      → Rooted (bs ++ f ∷ fs) c
  Rooted-append [] f fs c = tt
  Rooted-append (b ∷ bs) f fs c = tt

  -- A place below which a node of this colour has been taken out, its child now standing there.
  abbrev Gap : NodeColor → Node T → List (Frame T) → Type 0
  Gap c child path =
      IsRb child
      × MayBe c (color_of child)
      × MayBe c (above path)
      × PathRb path (plus_black c (height child))

  red_black_balancing-Good :
      (c : NodeColor) (child : Node T) (path : List (Frame T))
      → Rooted path (color_of child)
      → Gap c child path
      → (root : Node T) × (red_black_balancing c child path ≡ some root) × IsRedBlack root
  unfolding red_black_balancing
  red_black_balancing-Good red child path k (a, m, n, o) =
      (plug child path, refl, plug-IsRedBlack child path a (rw m tt) o)
  red_black_balancing-Good black child path k (a, m, n, o) =
      balance-Mends (3 * length path + 5) child path (omega arith) (blacken-IsRb child a).0 k o

  replace-Good :
      (c : NodeColor) (child : Node T) (path : List (Frame T))
      → Gap c child path
      → (root : Node T) × (replace c child path ≡ some root) × IsRedBlack root
  unfolding replace red_black_balancing balance
  replace-Good black child [] (a, m, n, o) =
      let (rules, colour) = blacken-IsRb child a in
      (blacken child, refl, record { rules = rules; root_black = colour })
  replace-Good red child [] (a, m, n, o) = cc
  replace-Good c child (f ∷ path) g = red_black_balancing-Good c child (f ∷ path) tt g

  leftmost-Gap :
      (l : Node T) (c : NodeColor) (e : Entry T) (r : Node T) (path rest : List (Frame T))
      → IsRb (node c l e r)
      → MayBe c (above (path ++ rest))
      → PathRb (path ++ rest) (height (node c l e r))
      → let (tc, te, tr, below) = leftmost l c e r path in Gap tc tr (below ++ rest)
  unfolding leftmost
  leftmost-Gap nil c e r path rest (a, b, h, ok) m o =
      (b, (ColorsOk-MayBe c nil r ok).1, m, rw⁻¹ h o)
  leftmost-Gap (node lc ll le lr) c e r path rest (a, b, h, ok) m o =
      let (ml, mr) = ColorsOk-MayBe c (node lc ll le lr) r ok in
      leftmost-Gap ll lc le lr (record { side = left; color = c; fields = e; sibling = r } ∷ path)
        rest a (MayBe-flip c lc ml) (b, sym h, mr, m, o)

  -- The node found by a search, under the rules of its place.
  abbrev Lands : Node T × List (Frame T) → Type 0
  Lands (nil, path) = Unit {0}
  Lands (node c l e r, path) =
      IsRb (node c l e r) × MayBe c (above path) × PathRb path (height (node c l e r))

  locate-Lands :
      (t : Node T) (key : ℕ) (path : List (Frame T))
      → IsRb t
      → MayBe (color_of t) (above path)
      → PathRb path (height t)
      → Lands (locate t key path)
  unfolding locate
  locate-Lands nil key path a m o = tt
  locate-Lands (node c l e r) key path (rl, rr, h, ok) m o =
      let (ml, mr) = ColorsOk-MayBe c l r ok in
      let go_left =
        locate-Lands l key (record { side = left; color = c; fields = e; sibling = r } ∷ path) rl
          (MayBe-flip c (color_of l) ml) (rr, sym h, mr, m, o) in
      let go_right =
        locate-Lands r key (record { side = right; color = c; fields = e; sibling = l } ∷ path) rr
          (MayBe-flip c (color_of r) mr) (rl, h, ml, m, rw (sym h) o) in
      elim (dec_lt key e.key) [
        | yes lt ↦ rw (lt→ltb key e.key lt) go_left
        | no nlt ↦ elim (dec_lt e.key key) [
          | yes gt ↦ rw (ltb-false key e.key nlt, lt→ltb e.key key gt) go_right
          | no ngt ↦ rw (ltb-false key e.key nlt, ltb-false e.key key ngt) ((rl, rr, h, ok), m, o)
        ]
      ]

  unlink_at-Good :
      (c : NodeColor) (l : Node T) (e : Entry T) (r : Node T) (path : List (Frame T))
      → Lands (node c l e r, path)
      → (n : ℕ) × (root : Node T) × (unlink_at (node c l e r) path ≡ some (n, root))
        × IsRedBlack root
  unfolding unlink_at
  unlink_at-Good c nil e r path ((a, b, h, ok), m, o) =
      let (root, runs, good) =
        replace-Good c r path (b, (ColorsOk-MayBe c nil r ok).1, m, rw⁻¹ h o) in
      (e.count, root, ground (arith, runs), good)
  unlink_at-Good c (node lc ll le lr) e nil path ((a, b, h, ok), m, o) =
      let l = node lc ll le lr in
      let (root, runs, good) = replace-Good c l path (a, (ColorsOk-MayBe c l nil ok).0, m, o) in
      (e.count, root, ground (arith, runs), good)
  unlink_at-Good c (node lc ll le lr) e (node rc rl re rr) path ((a, b, h, ok), m, o) =
      let (ml, mr) = ColorsOk-MayBe c (node lc ll le lr) (node rc rl re rr) ok in
      let (tc, te, tr, below) = leftmost rl rc re rr [] in
      let f : Frame T = record {
        side = right;
        color = c;
        fields = te;
        sibling = node lc ll le lr;
      } in
      let gap =
        leftmost-Gap rl rc re rr [] (f ∷ path) b (MayBe-flip c rc mr) (a, h, ml, m, rw⁻¹ h o) in
      let (root, runs, good) =
        red_black_balancing-Good tc tr (below ++ f ∷ path)
          (Rooted-append below f path (color_of tr)) gap in
      (te.count, root, ground (arith, runs), good)

  -- On a red-black tree that is a search tree, `Delete` returns, what it leaves is a red-black tree,
  -- and its entries are those before without the key's.
  pub delete-IsRedBlack :
      (t : RbTree T) (key : ℕ)
      → IsRedBlack t.root
      → IsOrdered t.root
      → (n : ℕ) × (t' : RbTree T) × (delete t key ≡ some (n, t'))
        × IsRedBlack t'.root
        × (entries t'.root ≡ remove key (entries t.root))
  unfolding delete
  delete-IsRedBlack t key good ordered =
      unlinked (locate t.root key []) refl
        (locate-Lands t.root key [] good.rules (rw good.root_black tt) tt)
    where
      unlinked :
          (place : Node T × List (Frame T))
          → locate t.root key [] ≡ place
          → Lands place
          → (n : ℕ) × (t' : RbTree T) × (delete t key ≡ some (n, t'))
            × IsRedBlack t'.root
            × (entries t'.root ≡ remove key (entries t.root))
      unlinked (nil, path) e lands =
          let t' = record t { delete_vec = t.delete_vec ++ key ∷ [] } in
          let runs : delete t key ≡ some (0, t') = ground (arith, e) in
          (0, t', runs, good, entries-delete t t' key 0 ordered runs)
      unlinked (node c l x r, path) e lands =
          let (n, root, k, kept) = unlink_at-Good c l x r path lands in
          let t' = record t {
            delete_vec = t.delete_vec ++ key ∷ [];
            root = root;
            count = t.count - 1;
          } in
          let runs : delete t key ≡ some (n, t') = ground (arith, e, k) in
          (n, t', runs, kept, entries-delete t t' key n ordered runs)
