-- ===== src/RbTree/Insert.antt =====
-- `RBtree::Insert`.
use game_server_portfolio.Base.{
  ℕ, zero, suc, ◌+◌, Bool, true, false, List, [], ◌∷◌, Option, none, some, length, ◌++◌, ltb,
  if◌then◌else◌,
}
use game_server_portfolio.RbTree.{
  NodeColor, black, red, Node, nil, node, Side, left, right, Frame, RbTree, other, color_of,
  blacken, make, up, plug, rotate, rotate_left, rotate_right, down,
}

abbrev pub same_side : Side → Side → Bool
same_side left left = true
same_side right right = true
same_side _ _ = false

-- The search: the tree with the key counted once more, or the place of a new node.
pub data Search {ℓ} (T : Type ℓ) : Type ℓ where
  counted : Node T → Search T
  place : List (Frame T) → Search T

module _ {ℓ} {T : Type ℓ} where
  unfoldable pub search_place : Node T → ℕ → List (Frame T) → Search T
  unfolding plug
  search_place nil key path = place path
  search_place (node c l e r) key path =
      let go_left =
        search_place l key (record { side = left; color = c; fields = e; sibling = r } ∷ path) in
      let go_right =
        search_place r key (record { side = right; color = c; fields = e; sibling = l } ∷ path) in
      if ltb key e.key
      then go_left
      else if ltb e.key key
      then go_right
      else counted (plug (node c l (record e { count = e.count + 1 }) r) path)

  -- case 3: the parent turns black, the grandparent red, and the grandparent is rotated.
  unfoldable pub insert_outer : Node T → Frame T → Frame T → List (Frame T) → Option (Node T)
  unfolding plug rotate_left rotate_right
  insert_outer curr p g path =
      elim (rotate (other g.side)
        (up (up curr (record p { color = black })) (record g { color = red }))) [
          | none ↦ none
          | some t ↦ some (plug t path)
        ]

  -- case 2: the parent is rotated, and `curr` is the node that it was.
  unfoldable pub insert_inner : Node T → Frame T → Side → Option (Node T × Frame T)
  unfolding rotate_left rotate_right
  insert_inner curr p s = elim (rotate s (up curr p)) [ none ↦ none | some t ↦ down s t ]

  -- The loop after the new node has been attached, on fuel.
  unfoldable pub insert_loop : ℕ → Node T → List (Frame T) → Option (Node T)
  unfolding insert_outer insert_inner
  insert_loop zero curr path = none
  insert_loop (suc fuel) curr [] = some (blacken curr)
  insert_loop (suc fuel) curr (p ∷ []) = elim p.color [
    | black ↦ some (plug curr (p ∷ []))
    | red ↦ none
  ]
  insert_loop (suc fuel) curr (p ∷ g ∷ path) = elim p.color [
    | black ↦ some (plug curr (p ∷ g ∷ path))
    | red ↦ elim (color_of g.sibling) [
      | red ↦
          insert_loop fuel
            (make g.side (up curr (record p { color = black })) red g.fields (blacken g.sibling))
            path
      | black ↦ elim (same_side p.side g.side) [
        | true ↦ insert_outer curr p g path
        | false ↦ elim (insert_inner curr p g.side) [
          | none ↦ none
          | some (curr', p') ↦ insert_loop fuel curr' (p' ∷ g ∷ path)
        ]
      ]
    ]
  ]

  abbrev pub new_node : NodeColor → ℕ → T → Node T
  new_node c key value = node c nil (record { key = key; value = value; count = 1 }) nil

  abbrev pub insert_at : Search T → ℕ → T → Option (Bool × Node T)
  insert_at (counted root) key value = some (false, root)
  insert_at (place []) key value = some (true, new_node black key value)
  insert_at (place (f ∷ path)) key value =
      elim (insert_loop (suc (suc (length (f ∷ path)))) (new_node red key value) (f ∷ path)) [
        | none ↦ none
        | some root ↦ some (true, root)
      ]

  unfoldable pub insert : RbTree T → ℕ → T → Option (RbTree T)
  unfolding search_place insert_loop
  insert t key value = elim (insert_at (search_place t.root key []) key value) [
    | none ↦ none
    | some (made, root) ↦ some (record t {
      root = root;
      count = if made then t.count + 1 else t.count;
      insert_vec = t.insert_vec ++ key ∷ [];
    })
  ]
