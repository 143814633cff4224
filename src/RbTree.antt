-- ===== src/RbTree.antt =====
-- rb-tree-binary-tree/Tree-RB-tree/Tree-RB-tree/RBtree.h: the red-black tree. A node with its
-- `Parent` links is a place in the tree: what hangs below it, and the frames on the way up to the
-- root. `Nil_` is `nil`, which is black. `none` is a read through a null pointer, or the end of the
-- fuel of a loop.
pub mod Insert
pub mod Delete
pub mod Read
pub mod Order
pub mod Balance
pub mod Lookup
mod Tests
use game_server_portfolio.Base.{ℕ, List, [], ◌∷◌, Option, none, some}
use game_server_portfolio.Entries.{Entry}

pub data NodeColor : Type 0 where
  black red : NodeColor

pub data Node {ℓ} (T : Type ℓ) : Type ℓ where
  nil : Node T
  node : NodeColor → Node T → Entry T → Node T → Node T

pub data Side : Type 0 where
  left right : Side

-- A parent: on which side of it the walk went down, its colour and fields, and its other child.
pub record Frame {ℓ} (T : Type ℓ) : Type ℓ where
  pub side : Side
  pub color : NodeColor
  pub fields : Entry T
  pub sibling : Node T

pub record RbTree {ℓ} (T : Type ℓ) : Type ℓ where
  pub root : Node T
  pub count : ℕ
  pub insert_vec : List ℕ
  pub delete_vec : List ℕ

abbrev pub other : Side → Side
other left = right
other right = left

module _ {ℓ} {T : Type ℓ} where
  abbrev pub color_of : Node T → NodeColor
  color_of nil = black
  color_of (node c l e r) = c

  -- `node->Color = BLACK`
  abbrev pub blacken : Node T → Node T
  blacken nil = nil
  blacken (node c l e r) = node black l e r

  -- the node with this child on this side, and that one on the other
  abbrev pub make : Side → Node T → NodeColor → Entry T → Node T → Node T
  make left child c e sibling = node c child e sibling
  make right child c e sibling = node c sibling e child

  -- the node above a child, under which it hangs
  abbrev pub up : Node T → Frame T → Node T
  up child f = make f.side child f.color f.fields f.sibling

  -- the whole tree around a place
  unfoldable pub plug : Node T → List (Frame T) → Node T
  plug t [] = t
  plug t (f ∷ fs) = plug (up t f) fs

  unfoldable pub rotate_right : Node T → Option (Node T)
  rotate_right nil = none
  rotate_right (node c nil e r) = none
  rotate_right (node c (node lc ll le lr) e r) = some (node lc ll le (node c lr e r))

  unfoldable pub rotate_left : Node T → Option (Node T)
  rotate_left nil = none
  rotate_left (node c l e nil) = none
  rotate_left (node c l e (node rc rl re rr)) = some (node rc (node c l e rl) re rr)

  -- Down to that side, as `RotateLeft` takes a node down to its left.
  abbrev pub rotate : Side → Node T → Option (Node T)
  rotate left t = rotate_left t
  rotate right t = rotate_right t

  -- the child on a side, and the frame that leads back
  abbrev pub down : Side → Node T → Option (Node T × Frame T)
  down s nil = none
  down left (node c l e r) = some (l, record { side = left; color = c; fields = e; sibling = r })
  down right (node c l e r) = some (r, record { side = right; color = c; fields = e; sibling = l })
