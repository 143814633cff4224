-- ===== src/RbTree/Balance/Depth.antt =====
-- The depth of a red-black tree.
use game_server_portfolio.Base.{
  larger, larger_le, ℕ, suc, ◌+◌, ◌*◌, ◌^◌, ◌≤◌, ◌≡◌, sym, ◌∙◌, ◌∷◌, arith, length, length-append,
  some, subst, of-some,
}
use native.Mathlib.Nat.{pow-suc}
use game_server_portfolio.RbTree.{NodeColor, black, red, Node, nil, node, RbTree, color_of}
use game_server_portfolio.RbTree.Order.{entries, IsOrdered}
use game_server_portfolio.RbTree.Insert.{insert}
use game_server_portfolio.RbTree.Balance.Inserted.{insert-IsRedBlack}
use game_server_portfolio.RbTree.Balance.{plus_black, height, IsRb, IsRedBlack}

-- one more for a red root
abbrev extra : NodeColor → ℕ
extra black = 0
extra red = 1

extra_le : (c : NodeColor) → extra c ≤ 1
extra_le black = omega arith
extra_le red = omega arith

pow-plus_black : (c : NodeColor) (h : ℕ) → 2 ^ plus_black c h ≤ 2 * 2 ^ h
pow-plus_black black h = rw pow-suc (omega arith)
pow-plus_black red h = omega arith

module _ {ℓ} {T : Type ℓ} where
  -- the number of nodes on the longest way down
  abbrev pub depth : Node T → ℕ
  depth nil = 0
  depth (node c l e r) = suc (larger (depth l) (depth r))

  depth-height : (t : Node T) → IsRb t → depth t ≤ 2 * height t + extra (color_of t)
  depth-height nil a = omega arith
  depth-height (node black l e r) (a, b, h, ok) =
      let dl = depth-height l a in
      let dr = depth-height r b in
      let xl = extra_le (color_of l) in
      let xr = extra_le (color_of r) in
      let most = larger_le (depth l) (depth r) (2 * height l + 1) (omega arith) (omega arith) in
      omega arith
  depth-height (node red l e r) (a, b, h, (kl, kr)) =
      let dl : depth l ≤ 2 * height l + 0 =
        subst (λ k. depth l ≤ 2 * height l + extra k) kl (depth-height l a) in
      let dr : depth r ≤ 2 * height r + 0 =
        subst (λ k. depth r ≤ 2 * height r + extra k) kr (depth-height r b) in
      let most = larger_le (depth l) (depth r) (2 * height l) (omega arith) (omega arith) in
      omega arith

  height-length : (t : Node T) → IsRb t → 2 ^ height t ≤ length (entries t) + 1
  height-length nil a = omega arith
  height-length (node c l e r) (a, b, h, ok) =
      let nl = height-length l a in
      let nr : 2 ^ height l ≤ length (entries r) + 1 = rw h (height-length r b) in
      let all = length-append (entries l) (e ∷ entries r) in
      let grown = pow-plus_black c (height l) in omega arith

  pub IsRedBlack-depth :
      (t : Node T) → IsRedBlack t → (h : ℕ) × (depth t ≤ 2 * h) × (2 ^ h ≤ length (entries t) + 1)
  IsRedBlack-depth t balanced =
      let deep : depth t ≤ 2 * height t + 0 =
        subst (λ c. depth t ≤ 2 * height t + extra c) balanced.root_black
          (depth-height t balanced.rules) in
      (height t, omega arith, height-length t balanced.rules)

  -- After an insertion into a red-black search tree, no way down from the root meets more than
  -- `2 * h` nodes, for some `h` with `2 ^ h` at most the number of entries and one.
  pub insert-depth :
      (t t' : RbTree T) (key : ℕ) (value : T)
      → IsRedBlack t.root
      → IsOrdered t.root
      → insert t key value ≡ some t'
      → (h : ℕ) × (depth t'.root ≤ 2 * h) × (2 ^ h ≤ length (entries t'.root) + 1)
  insert-depth t t' key value good ordered runs =
      let (u, made, kept, _) = insert-IsRedBlack t key value good ordered in
      let same : u ≡ t' = of-some (sym made ∙ runs) in
      let balanced : IsRedBlack t'.root = subst (λ w. IsRedBlack w.root) same kept in
      IsRedBlack-depth t'.root balanced
