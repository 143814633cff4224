-- ===== src/RbTree/Balance.antt =====
-- The rules of a red-black tree, below a place and above it.
pub mod Loop
pub mod Inserted
pub mod Rebalanced
pub mod Deleted
pub mod Unlinked
pub mod Depth
use game_server_portfolio.Base.{ℕ, suc, ◌≡◌, refl, List, [], ◌∷◌, arith}
use game_server_portfolio.Entries.{Entry}
use game_server_portfolio.RbTree.{
  NodeColor, black, red, Node, nil, node, Side, left, right, Frame, color_of, make, up, plug,
}

abbrev pub plus_black : NodeColor → ℕ → ℕ
plus_black black h = suc h
plus_black red h = h

-- whether a node of the first colour may be next to one of the second
abbrev pub MayBe : NodeColor → NodeColor → Type 0
MayBe black c = Unit {0}
MayBe red c = c ≡ black

pub MayBe-flip : (c d : NodeColor) → MayBe c d → MayBe d c
MayBe-flip black black m = tt
MayBe-flip black red m = refl
MayBe-flip red black m = tt
MayBe-flip red red m = m

pub MayBe-root : (c : NodeColor) → MayBe c red → c ≡ black
MayBe-root black m = refl
MayBe-root red m = m

module _ {ℓ} {T : Type ℓ} where
  -- the number of black nodes on the way down
  abbrev pub height : Node T → ℕ
  height nil = 0
  height (node c l e r) = plus_black c (height l)

  -- A red node has black children.
  abbrev pub ColorsOk : NodeColor → Node T → Node T → Type 0
  ColorsOk black l r = Unit {0}
  ColorsOk red l r = (color_of l ≡ black) × (color_of r ≡ black)

  abbrev pub IsRb : Node T → Type 0
  IsRb nil = Unit {0}
  IsRb (node c l e r) = IsRb l × IsRb r × (height l ≡ height r) × ColorsOk c l r

  -- A red-black tree: no red node has a red child, every way down meets as many black nodes, and
  -- the root is black.
  pub record IsRedBlack (t : Node T) : Type 0 where
    pub rules : IsRb t
    pub root_black : color_of t ≡ black

  -- the colour above a place; what stands in the root's place must be black
  abbrev pub above : List (Frame T) → NodeColor
  above [] = red
  above (f ∷ fs) = f.color

  -- The rules above a place of height `h`, but for the place's own colour.
  abbrev pub PathRb : List (Frame T) → ℕ → Type 0
  PathRb [] h = Unit {0}
  PathRb (f ∷ fs) h =
      IsRb f.sibling
      × (height f.sibling ≡ h)
      × MayBe f.color (color_of f.sibling)
      × MayBe f.color (above fs)
      × PathRb fs (plus_black f.color h)

  make-IsRb :
      (s : Side) (t : Node T) (c : NodeColor) (e : Entry T) (u : Node T)
      → IsRb t
      → IsRb u
      → height u ≡ height t
      → MayBe c (color_of u)
      → MayBe c (color_of t)
      → IsRb (make s t c e u) × (height (make s t c e u) ≡ plus_black c (height t))
  make-IsRb left t black e u a b h m n = ground arith
  make-IsRb left t red e u a b h m n = ground arith
  make-IsRb right t black e u a b h m n = ground arith
  make-IsRb right t red e u a b h m n = ground arith

  pub color_of-make :
      (s : Side) (t : Node T) (c : NodeColor) (e : Entry T) (u : Node T)
      → color_of (make s t c e u) ≡ c
  color_of-make left t c e u = refl
  color_of-make right t c e u = refl

  -- A place that keeps the rules fits under a path that does.
  pub plug-IsRedBlack :
      (t : Node T) (fs : List (Frame T))
      → IsRb t
      → MayBe (color_of t) (above fs)
      → PathRb fs (height t)
      → IsRedBlack (plug t fs)
  unfolding plug
  plug-IsRedBlack t [] a m p = record { rules = a; root_black = MayBe-root (color_of t) m }
  plug-IsRedBlack t (f ∷ fs) a m p =
      let (rules, h) =
        make-IsRb f.side t f.color f.fields f.sibling a p.0 p.1 p.2
          (MayBe-flip (color_of t) f.color m) in
      let c = color_of-make f.side t f.color f.fields f.sibling in
      plug-IsRedBlack (up t f) fs rules (rw c p.3) (rw h p.4)

  pub ColorsOk-MayBe :
      (c : NodeColor) (l r : Node T) → ColorsOk c l r → MayBe c (color_of l) × MayBe c (color_of r)
  ColorsOk-MayBe black l r h = (tt, tt)
  ColorsOk-MayBe red l r h = h
