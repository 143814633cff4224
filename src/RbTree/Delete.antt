-- ===== src/RbTree/Delete.antt =====
-- `RBtree::Delete` and `RBtree::RedBlackBalancing`. `none` is also a read through the null pointers
-- of `Nil_`, the sibling of a place where too few black nodes are left.
use game_server_portfolio.Base.{
  ℕ, zero, suc, ◌+◌, ◌*◌, ◌-◌, Bool, true, false, List, [], ◌∷◌, Option, none, some, length, ◌++◌,
  ltb, if◌then◌else◌,
}
use game_server_portfolio.Entries.{Entry}
use game_server_portfolio.RbTree.{
  NodeColor, black, red, Node, nil, node, Side, left, right, Frame, RbTree, other, color_of,
  blacken, make, up, plug, rotate, rotate_left, rotate_right, down,
}

module _ {ℓ} {T : Type ℓ} where
  -- The search: the node with the key, or `nil`, and its place.
  unfoldable pub locate : Node T → ℕ → List (Frame T) → Node T × List (Frame T)
  locate nil key path = (nil, path)
  locate (node c l e r) key path =
      let go_left =
        locate l key (record { side = left; color = c; fields = e; sibling = r } ∷ path) in
      let go_right =
        locate r key (record { side = right; color = c; fields = e; sibling = l } ∷ path) in
      if ltb key e.key then go_left else if ltb e.key key then go_right else (node c l e r, path)

  -- the leftmost node of the tree with these fields: its colour, fields and right child, and the
  -- frames above it within that tree
  unfoldable pub leftmost :
      Node T
      → NodeColor
      → Entry T
      → Node T
      → List (Frame T)
      → NodeColor × Entry T × Node T × List (Frame T)
  leftmost nil c e r path = (c, e, r, path)
  leftmost (node lc ll le lr) c e r path =
      leftmost ll lc le lr (record { side = left; color = c; fields = e; sibling = r } ∷ path)

  -- the children of a sibling: the one inside, nearer to `child`, and the one outside
  abbrev pub inside : Side → Node T → Node T → Node T
  inside left l r = l
  inside right l r = r

  abbrev pub outside : Side → Node T → Node T → Node T
  outside left l r = r
  outside right l r = l

  -- case 3: the red sibling turns black, the parent red, and is rotated down with `child` below it.
  unfoldable pub red_sibling : Node T → Frame T → Option (Node T × Frame T × Frame T)
  unfolding rotate_left rotate_right
  red_sibling child p = elim (rotate p.side (make p.side child red p.fields (blacken p.sibling))) [
    | none ↦ none
    | some t ↦ elim (down p.side t) [
      | none ↦ none
      | some (parent, f) ↦ elim (down p.side parent) [
        | none ↦ none
        | some (again, g) ↦ some (again, g, f)
      ]
    ]
  ]

  -- case 5: the child inside turns black, the sibling red, and is rotated away from `child`.
  unfoldable pub red_inside : Side → Node T → Entry T → Node T → Option (Node T)
  unfolding rotate_left rotate_right
  red_inside s inner e outer = rotate (other s) (make s (blacken inner) red e outer)

  -- case 6: the sibling takes the parent's colour, the parent and the child outside turn black, and
  -- the parent is rotated.
  unfoldable pub red_outside : Node T → Frame T → Node T → Entry T → Node T → Option (Node T)
  unfolding rotate_left rotate_right
  red_outside child p inner e outer =
      rotate p.side (make p.side child black p.fields (make p.side inner p.color e (blacken outer)))

  -- The loop of `RedBlackBalancing`, on fuel.
  unfoldable pub balance : ℕ → Node T → List (Frame T) → Option (Node T)
  unfolding red_sibling red_inside red_outside plug
  balance zero child path = none
  balance (suc fuel) child [] = some child
  balance (suc fuel) child (p ∷ path) = elim (color_of child) [
    | red ↦ some (plug (blacken child) (p ∷ path))
    | black ↦ elim p.sibling [
      | nil ↦ none
      | node red l e r ↦ elim (red_sibling child p) [
        | none ↦ none
        | some (again, g, f) ↦ balance fuel again (g ∷ f ∷ path)
      ]
      | node black l e r ↦ elim (color_of (outside p.side l r)) [
        | red ↦ elim (red_outside child p (inside p.side l r) e (outside p.side l r)) [
          | none ↦ none
          | some t ↦ some (plug t path)
        ]
        | black ↦ elim (color_of (inside p.side l r)) [
          | black ↦ balance fuel (up child (record p { sibling = node red l e r })) path
          | red ↦ elim (red_inside p.side (inside p.side l r) e (outside p.side l r)) [
            | none ↦ none
            | some t ↦ balance fuel child (record p { sibling = t } ∷ path)
          ]
        ]
      ]
    ]
  ]

  -- `RedBlackBalancing`, for a node of this colour that `child` replaces. The fuel is enough for
  -- three rounds at each node on the way up.
  unfoldable pub red_black_balancing : NodeColor → Node T → List (Frame T) → Option (Node T)
  unfolding balance plug
  red_black_balancing red child path = some (plug child path)
  red_black_balancing black child path = balance (3 * length path + 5) child path

  -- case 2: the node with one child at most, which takes its place
  unfoldable pub replace : NodeColor → Node T → List (Frame T) → Option (Node T)
  unfolding red_black_balancing
  replace c child [] = red_black_balancing c (blacken child) []
  replace c child (f ∷ path) = red_black_balancing c child (f ∷ path)

  -- The node that is found: the count returned, and the tree.
  unfoldable pub unlink_at : Node T → List (Frame T) → Option (ℕ × Node T)
  unfolding replace leftmost
  unlink_at nil path = none
  unlink_at (node c nil e r) path = elim (replace c r path) [
    | none ↦ none
    | some root ↦ some (e.count, root)
  ]
  unlink_at (node c (node lc ll le lr) e nil) path = elim (replace c (node lc ll le lr) path) [
    | none ↦ none
    | some root ↦ some (e.count, root)
  ]
  unlink_at (node c (node lc ll le lr) e (node rc rl re rr)) path =
      let (tc, te, tr, below) = leftmost rl rc re rr [] in
      let above =
        record { side = right; color = c; fields = te; sibling = node lc ll le lr } ∷ path in
      elim (red_black_balancing tc tr (below ++ above)) [
        | none ↦ none
        | some root ↦ some (te.count, root)
      ]

  abbrev is_nil : Node T → Bool
  is_nil nil = true
  is_nil (node c l e r) = false

  unfoldable pub delete : RbTree T → ℕ → Option (ℕ × RbTree T)
  unfolding locate unlink_at
  delete t key =
      let t₁ = record t { delete_vec = t.delete_vec ++ key ∷ [] } in
      let (curr, path) = locate t.root key [] in
      if is_nil curr then some (0, t₁) else elim (unlink_at curr path) [
        | none ↦ none
        | some (ret_count, root) ↦ some (ret_count, record t₁ { root = root; count = t.count - 1 })
      ]
