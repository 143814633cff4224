-- ===== src/RbTree/Balance/Deleted.antt =====
-- `RBtree::RedBlackBalancing` at a place with one black node too few: case 3, and the loop.
use game_server_portfolio.Base.{
  ℕ, zero, suc, ◌+◌, ◌≤◌, ◌≡◌, refl, sym, ◌∙◌, some, List, [], ◌∷◌, arith, inl, inr, length, subst,
}
use game_server_portfolio.Entries.{Entry}
use game_server_portfolio.RbTree.{
  NodeColor, black, red, Node, nil, node, Side, left, right, Frame, color_of, blacken, rotate_left,
  rotate_right,
}
use game_server_portfolio.RbTree.Delete.{inside, outside, red_sibling, balance}
use game_server_portfolio.RbTree.Order.{color_cases}
use game_server_portfolio.RbTree.Balance.{MayBe, MayBe-root, height, IsRb, above, PathRb}
use game_server_portfolio.RbTree.Balance.Rebalanced.{
  children-IsRb, Mends, red-Mends, black_sibling-Mends,
}

module _ {ℓ} {T : Type ℓ} where
  -- At the root, the child must be black.
  abbrev pub Rooted : List (Frame T) → NodeColor → Type 0
  Rooted [] c = c ≡ black
  Rooted (f ∷ fs) c = Unit {0}

  Rooted-above : (path : List (Frame T)) (c : NodeColor) → MayBe c (above path) → Rooted path c
  Rooted-above [] c m = MayBe-root c m
  Rooted-above (f ∷ fs) c m = tt

  blacken_black : (t : Node T) → color_of t ≡ black → blacken t ≡ t
  blacken_black nil h = refl
  blacken_black (node black l e r) h = refl
  blacken_black (node red l e r) h = cc

  children_black :
      (s : Side) (l r : Node T)
      → color_of l ≡ black
      → color_of r ≡ black
      → (color_of (inside s l r) ≡ black) × (color_of (outside s l r) ≡ black)
  children_black left l r h k = (h, k)
  children_black right l r h k = (k, h)

  red_sibling_lem :
      (child : Node T) (s : Side) (c : NodeColor) (x e : Entry T) (l r : Node T)
      → red_sibling child (record { side = s; color = c; fields = x; sibling = node red l e r })
        ≡ some (
          child,
          record { side = s; color = red; fields = x; sibling = inside s l r },
          record { side = s; color = black; fields = e; sibling = outside s l r },
        )
  unfolding red_sibling rotate_left rotate_right
  red_sibling_lem child left c x e l r = refl
  red_sibling_lem child right c x e l r = refl

  -- The round behind case 3: the parent is red, and the new sibling black.
  near-Mends :
      (fuel : ℕ) (child : Node T) (s : Side) (x : Entry T) (u : Node T) (f : Frame T)
      (path : List (Frame T))
      → color_of child ≡ black
      → IsRb child
      → IsRb u
      → color_of u ≡ black
      → height u ≡ suc (height child)
      → f.color ≡ black
      → PathRb (f ∷ path) (suc (height child))
      → Mends
          (suc (suc fuel))
          child
          (record { side = s; color = red; fields = x; sibling = u } ∷ f ∷ path)
  near-Mends fuel child s x nil f path k a b m h q w = absurd (omega arith)
  near-Mends fuel child s x (node red l e r) f path k a b m h q w = cc
  near-Mends fuel child s x (node black l e r) f path k a b m h q w =
      black_sibling-Mends fuel child s red x e l r (f ∷ path)
        (λ v kv rv o. red-Mends fuel v f path kv rv o) k a b (omega arith) q w

  red_sibling-Mends :
      (fuel : ℕ) (child : Node T) (s : Side) (x e : Entry T) (l r : Node T) (path : List (Frame T))
      → color_of child ≡ black
      → IsRb child
      → IsRb (node red l e r)
      → height l ≡ suc (height child)
      → PathRb path (suc (suc (height child)))
      → Mends
          (suc (suc (suc fuel)))
          child
          (record { side = s; color = black; fields = x; sibling = node red l e r } ∷ path)
  unfolding balance
  red_sibling-Mends fuel child s x e l r path k a (b, d, i, ok) h w =
      let (ri, ro, hi, ho) = children-IsRb s l r b d i in
      let (ki, ko) = children_black s l r ok.0 ok.1 in
      let f : Frame T = record { side = s; color = black; fields = e; sibling = outside s l r } in
      let (root, runs, good) =
        near-Mends fuel child s x (inside s l r) f path k a ri ki (hi ∙ h) refl
          (ro, ho ∙ h, tt, tt, w) in
      (root, ground (arith, k, red_sibling_lem child s black x e l r, runs), good)

  round-Mends :
      (fuel : ℕ) (child : Node T) (s : Side) (c : NodeColor) (x : Entry T) (u : Node T)
      (path : List (Frame T))
      → ((v : Node T)
          → color_of v ≡ c
          → IsRb (blacken v)
          → PathRb path (suc (height v))
          → Mends (suc (suc fuel)) v path)
      → color_of child ≡ black
      → IsRb child
      → PathRb (record { side = s; color = c; fields = x; sibling = u } ∷ path) (suc (height child))
      → Mends
          (suc (suc (suc fuel)))
          child
          (record { side = s; color = c; fields = x; sibling = u } ∷ path)
  round-Mends fuel child s c x nil path next k a (b, h, m, q, w) = absurd (omega arith)
  round-Mends fuel child s c x (node black l e r) path next k a (b, h, m, q, w) =
      black_sibling-Mends (suc fuel) child s c x e l r path next k a b (omega arith) q w
  round-Mends fuel child s black x (node red l e r) path next k a (b, h, m, q, w) =
      red_sibling-Mends fuel child s x e l r path k a b h w
  round-Mends fuel child s red x (node red l e r) path next k a (b, h, m, q, w) = cc

  -- The loop of `RedBlackBalancing`, from a place that lacks one black node: it returns a
  -- red-black tree.
  pub balance-Mends :
      (fuel : ℕ) (child : Node T) (path : List (Frame T))
      → length path + 4 ≤ fuel
      → IsRb (blacken child)
      → Rooted path (color_of child)
      → PathRb path (suc (height child))
      → Mends fuel child path
  unfolding balance
  balance-Mends zero child path n a k o = absurd (omega arith)
  balance-Mends (suc fuel) child [] n a k o =
      (child, refl, record { rules = subst IsRb (blacken_black child k) a; root_black = k })
  balance-Mends (suc zero) child (p ∷ path) n a k o = absurd (omega arith)
  balance-Mends (suc (suc zero)) child (p ∷ path) n a k o = absurd (omega arith)
  balance-Mends (suc (suc (suc fuel))) child (p ∷ path) n a k o =
      elim (color_cases (color_of child)) [
        | inr is_red ↦ red-Mends (suc (suc fuel)) child p path is_red a o
        | inl is_black ↦
            round-Mends fuel child p.side p.color p.fields p.sibling path
              (λ u ku ru w.
                balance-Mends (suc (suc fuel)) u path (omega arith) ru
                  (subst (Rooted path) (sym ku) (Rooted-above path p.color o.3)) w)
              is_black (subst IsRb (blacken_black child is_black) a) o
      ]
