-- ===== src/RbTree/Order.antt =====
-- The entries of a red-black tree in order, round a place in it.
pub mod Inserted
pub mod Balanced
pub mod Deleted
use game_server_portfolio.Base.{
  ◌⊎◌, inl, inr, ◌≡◌, refl, ap, ◌∙◌, some, List, [], ◌∷◌, ◌++◌, append_assoc, arith,
}
use game_server_portfolio.Entries.{Entry}
use game_server_portfolio.Entries.Sorted.{IsSorted}
use game_server_portfolio.RbTree.{
  NodeColor, black, red, Node, nil, node, Side, left, right, Frame, blacken, make, up, plug, rotate,
  rotate_left, rotate_right, down,
}

pub color_cases : (c : NodeColor) → (c ≡ black) ⊎ (c ≡ red)
color_cases black = inl refl
color_cases red = inr refl

module _ {ℓ} {T : Type ℓ} where
  abbrev pub entries : Node T → List (Entry T)
  entries nil = []
  entries (node c l e r) = entries l ++ e ∷ entries r

  abbrev pub IsOrdered : Node T → Type 0
  IsOrdered t = IsSorted (entries t)

  -- a list of entries within those of a parent
  abbrev pub beside : Side → List (Entry T) → Entry T → List (Entry T) → List (Entry T)
  beside left es e sibling = es ++ e ∷ sibling
  beside right es e sibling = sibling ++ e ∷ es

  -- a list of entries within those of the whole tree
  abbrev pub around : List (Frame T) → List (Entry T) → List (Entry T)
  around [] es = es
  around (f ∷ fs) es = around fs (beside f.side es f.fields (entries f.sibling))

  pub entries-make :
      (s : Side) (t : Node T) (c : NodeColor) (e : Entry T) (u : Node T)
      → entries (make s t c e u) ≡ beside s (entries t) e (entries u)
  entries-make left t c e u = refl
  entries-make right t c e u = refl

  pub entries-plug :
      (t : Node T) (fs : List (Frame T)) → entries (plug t fs) ≡ around fs (entries t)
  unfolding plug
  entries-plug t [] = refl
  entries-plug t (f ∷ fs) =
      entries-plug (up t f) fs ∙ ap (around fs) (entries-make f.side t f.color f.fields f.sibling)

  pub entries-blacken : (t : Node T) → entries (blacken t) ≡ entries t
  entries-blacken nil = refl
  entries-blacken (node c l e r) = refl

  -- A rotation keeps the order of the entries.
  pub entries-rotate : (s : Side) (t u : Node T) → rotate s t ≡ some u → entries u ≡ entries t
  unfolding rotate_left rotate_right
  entries-rotate left nil u h = cc
  entries-rotate left (node c l e nil) u h = cc
  entries-rotate left (node c l e (node rc rl re rr)) u h =
      ground (arith, append_assoc (entries l) (e ∷ entries rl) (re ∷ entries rr))
  entries-rotate right nil u h = cc
  entries-rotate right (node c nil e r) u h = cc
  entries-rotate right (node c (node lc ll le lr) e r) u h =
      ground (arith, append_assoc (entries ll) (le ∷ entries lr) (e ∷ entries r))

  pub entries-down :
      (s : Side) (t u : Node T) (f : Frame T)
      → down s t ≡ some (u, f)
      → beside f.side (entries u) f.fields (entries f.sibling) ≡ entries t
  entries-down s nil u f h = cc
  entries-down left (node c l e r) u f h = ground arith
  entries-down right (node c l e r) u f h = ground arith
