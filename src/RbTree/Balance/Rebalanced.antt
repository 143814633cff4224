-- ===== src/RbTree/Balance/Rebalanced.antt =====
-- `RBtree::RedBlackBalancing` at a place with one black node too few: cases 2 and 4 to 6.
use game_server_portfolio.Base.{ℕ, suc, ◌≡◌, refl, sym, ◌∙◌, some, List, ◌∷◌, arith, inl, inr}
use game_server_portfolio.Entries.{Entry}
use game_server_portfolio.RbTree.{
  NodeColor, black, red, Node, nil, node, Side, left, right, Frame, color_of, blacken, make, plug,
  rotate, rotate_left, rotate_right,
}
use game_server_portfolio.RbTree.Delete.{inside, outside, red_inside, red_outside, balance}
use game_server_portfolio.RbTree.Order.{color_cases}
use game_server_portfolio.RbTree.Balance.{
  plus_black, MayBe, height, IsRb, ColorsOk, IsRedBlack, above, PathRb, color_of-make,
  plug-IsRedBlack,
}

plus_black-suc : (c : NodeColor) (h : ℕ) → plus_black c (suc h) ≡ suc (plus_black c h)
plus_black-suc black h = refl
plus_black-suc red h = refl

module _ {ℓ} {T : Type ℓ} where
  -- What a run of the loop gives.
  abbrev pub Mends : ℕ → Node T → List (Frame T) → Type ℓ
  Mends fuel child path = (root : Node T) × (balance fuel child path ≡ some root) × IsRedBlack root

  -- A red child turns black, and its place has what it lacks.
  pub red-Mends :
      (fuel : ℕ) (child : Node T) (p : Frame T) (path : List (Frame T))
      → color_of child ≡ red
      → IsRb (blacken child)
      → PathRb (p ∷ path) (suc (height child))
      → Mends (suc fuel) child (p ∷ path)
  unfolding balance
  red-Mends fuel nil p path k a o = cc
  red-Mends fuel (node black l e r) p path k a o = cc
  red-Mends fuel (node red l e r) p path k a o = (
    plug (node black l e r) (p ∷ path),
    refl,
    plug-IsRedBlack (node black l e r) (p ∷ path) a tt o,
  )

  black_children :
      (c : NodeColor) (l r : Node T) → color_of l ≡ black → color_of r ≡ black → ColorsOk c l r
  black_children black l r h k = tt
  black_children red l r h k = (h, k)

  -- case 6: what comes into the parent's place
  outside-IsRb :
      (s : Side) (child : Node T) (c : NodeColor) (x e : Entry T) (l r : Node T)
      → IsRb child
      → IsRb (inside s l r)
      → IsRb (outside s l r)
      → color_of (outside s l r) ≡ red
      → height (inside s l r) ≡ height child
      → height (outside s l r) ≡ height child
      → (t : Node T) × (rotate s
            (make s child black x (make s (inside s l r) c e (blacken (outside s l r))))
          ≡ some t)
        × IsRb t
        × (color_of t ≡ c)
        × (height t ≡ plus_black c (suc (height child)))
  unfolding rotate_left rotate_right
  outside-IsRb left child c x e l nil a b d k h i = cc
  outside-IsRb left child c x e l (node black rl re rr) a b d k h i = cc
  outside-IsRb left child c x e l (node red rl re rr) a b d k h i =
      let ok = black_children c (node black child x l) (node black rl re rr) refl refl in
      (node c (node black child x l) e (node black rl re rr), refl, ground arith, refl, refl)
  outside-IsRb right child c x e nil r a b d k h i = cc
  outside-IsRb right child c x e (node black ll le lr) r a b d k h i = cc
  outside-IsRb right child c x e (node red ll le lr) r a b d k h i =
      let ok = black_children c (node black ll le lr) (node black r x child) refl refl in
      (
        node c (node black ll le lr) e (node black r x child),
        refl,
        ground arith,
        refl,
        ground arith,
      )

  -- case 5: what comes into the sibling's place
  inside-IsRb :
      (s : Side) (e : Entry T) (l r : Node T)
      → IsRb (inside s l r)
      → IsRb (outside s l r)
      → color_of (inside s l r) ≡ red
      → color_of (outside s l r) ≡ black
      → height (inside s l r) ≡ height (outside s l r)
      → (tl : Node T) × (te : Entry T) × (tr : Node T) × (red_inside s
            (inside s l r)
            e
            (outside s l r)
          ≡ some (node black tl te tr))
        × IsRb (node black tl te tr)
        × (color_of (outside s tl tr) ≡ red)
        × (height tl ≡ height (outside s l r))
  unfolding red_inside rotate_left rotate_right
  inside-IsRb left e nil r a b k m h = cc
  inside-IsRb left e (node black ll le lr) r a b k m h = cc
  inside-IsRb left e (node red ll le lr) r a b k m h =
      (ll, le, node red lr e r, refl, ground arith, refl, ground arith)
  inside-IsRb right e l nil a b k m h = cc
  inside-IsRb right e l (node black rl re rr) a b k m h = cc
  inside-IsRb right e l (node red rl re rr) a b k m h =
      (node red l e rl, re, rr, refl, ground arith, refl, ground arith)

  pub children-IsRb :
      (s : Side) (l r : Node T)
      → IsRb l
      → IsRb r
      → height l ≡ height r
      → IsRb (inside s l r)
        × IsRb (outside s l r)
        × (height (inside s l r) ≡ height l)
        × (height (outside s l r) ≡ height l)
  children-IsRb left l r a b h = ground arith
  children-IsRb right l r a b h = ground arith

  -- case 4: the parent, once its other child has turned red
  parent-IsRb :
      (s : Side) (child : Node T) (c : NodeColor) (x e : Entry T) (l r : Node T)
      → IsRb child
      → IsRb l
      → IsRb r
      → height l ≡ height r
      → height l ≡ height child
      → color_of (inside s l r) ≡ black
      → color_of (outside s l r) ≡ black
      → IsRb (blacken (make s child c x (node red l e r)))
        × (height (make s child c x (node red l e r)) ≡ plus_black c (height child))
  parent-IsRb left child black x e l r a b d h i k m = ground arith
  parent-IsRb left child red x e l r a b d h i k m = ground arith
  parent-IsRb right child black x e l r a b d h i k m = ground arith
  parent-IsRb right child red x e l r a b d h i k m = ground arith

  six-Mends :
      (fuel : ℕ) (child : Node T) (s : Side) (c : NodeColor) (x e : Entry T) (l r : Node T)
      (path : List (Frame T))
      → color_of child ≡ black
      → IsRb child
      → IsRb (node black l e r)
      → height l ≡ height child
      → color_of (outside s l r) ≡ red
      → MayBe c (above path)
      → PathRb path (plus_black c (suc (height child)))
      → Mends
          (suc fuel)
          child
          (record { side = s; color = c; fields = x; sibling = node black l e r } ∷ path)
  unfolding balance red_outside
  six-Mends fuel child s c x e l r path k a (b, d, h, _) i o m w =
      let (ri, ro, hi, ho) = children-IsRb s l r b d h in
      let (t, turned, rt, kt, ht) = outside-IsRb s child c x e l r a ri ro o (hi ∙ i) (ho ∙ i) in
      (plug t path, ground (arith, k, o, turned), plug-IsRedBlack t path rt (rw kt m) (rw ht w))

  five-Mends :
      (fuel : ℕ) (child : Node T) (s : Side) (c : NodeColor) (x e : Entry T) (l r : Node T)
      (path : List (Frame T))
      → color_of child ≡ black
      → IsRb child
      → IsRb (node black l e r)
      → height l ≡ height child
      → color_of (inside s l r) ≡ red
      → color_of (outside s l r) ≡ black
      → MayBe c (above path)
      → PathRb path (plus_black c (suc (height child)))
      → Mends
          (suc (suc fuel))
          child
          (record { side = s; color = c; fields = x; sibling = node black l e r } ∷ path)
  unfolding balance
  five-Mends fuel child s c x e l r path k a (b, d, h, _) i n o m w =
      let (ri, ro, hi, ho) = children-IsRb s l r b d h in
      let (tl, te, tr, turned, rt, kt, ht) = inside-IsRb s e l r ri ro n o (hi ∙ sym ho) in
      let (root, runs, good) =
        six-Mends fuel child s c x te tl tr path k a rt (ht ∙ ho ∙ i) kt m w in
      (root, ground (arith, k, n, o, turned, runs), good)

  -- A round with a black sibling, where a mended parent is enough.
  pub black_sibling-Mends :
      (fuel : ℕ) (child : Node T) (s : Side) (c : NodeColor) (x e : Entry T) (l r : Node T)
      (path : List (Frame T))
      → ((u : Node T)
          → color_of u ≡ c
          → IsRb (blacken u)
          → PathRb path (suc (height u))
          → Mends (suc fuel) u path)
      → color_of child ≡ black
      → IsRb child
      → IsRb (node black l e r)
      → height l ≡ height child
      → MayBe c (above path)
      → PathRb path (plus_black c (suc (height child)))
      → Mends
          (suc (suc fuel))
          child
          (record { side = s; color = c; fields = x; sibling = node black l e r } ∷ path)
  unfolding balance
  black_sibling-Mends fuel child s c x e l r path next k a sib i m w =
      elim (color_cases (color_of (outside s l r))) [
        | inr o ↦ six-Mends (suc fuel) child s c x e l r path k a sib i o m w
        | inl o ↦ elim (color_cases (color_of (inside s l r))) [
          | inr n ↦ five-Mends fuel child s c x e l r path k a sib i n o m w
          | inl n ↦
              let (rp, hp) = parent-IsRb s child c x e l r a sib.0 sib.1 sib.2 i n o in
              let (root, runs, good) =
                next (make s child c x (node red l e r))
                  (color_of-make s child c x (node red l e r)) rp
                  (rw hp (rw⁻¹ (plus_black-suc c (height child)) w)) in
              (root, ground (arith, k, n, o, runs), good)
        ]
      ]
