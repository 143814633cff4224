-- ===== src/BinaryViewer/Drawn.antt =====
-- rb-tree-binary-tree/Tree-binary-tree/Tree-binary-tree/Tree-binary-tree.cpp: what `CalculateTree` draws.
use mathlib.Core.List.{Perm, map-append, perm_middle}
use mathlib.Core.List.Perm
use game_server_portfolio.Base.{
  sym, subst, ℕ, ◌+◌, ◌-◌, ◌/◌, ◌≡◌, [], ◌∷◌, ◌++◌, length, length-append, map, arith,
}
use game_server_portfolio.Entries.{int}
use game_server_portfolio.BinaryTree.{Node, null, node}
use game_server_portfolio.BinaryTree.Order.{entry, entries}
use game_server_portfolio.BinaryViewer.{Drawing, Viewer, push_line, calculate_tree, paint}
use game_server_portfolio.BinaryViewer.Layout.{drawn, calculate_tree-nodes}

drawn-perm :
    (t : Node ℕ) (x y width : ℕ)
    → Perm (map (λ n. n.key) (drawn t x y width)) (map (λ e. e.key) (entries t))
drawn-perm null x y width = Perm.nil
drawn-perm (node l k v c r) x y width =
    let dl = drawn l (x - width) (y + 75) (width / 2) in
    let dr = drawn r (x + width) (y + 75) (width / 2) in
    rw
      (map-append (λ e. e.key) (entries l) (entry k v c ∷ entries r), map-append (λ n. n.key) dl dr)
      (Perm.trans
        (Perm.cons k (
          Perm.append (drawn-perm l (x - width) (y + 75) (width / 2))
            (drawn-perm r (x + width) (y + 75) (width / 2))))
        (Perm.symm (perm_middle (map (λ e. e.key) (entries l)) (map (λ e. e.key) (entries r)))))

length-push_line :
    (l r : Node ℕ) (k v c x y child_x child_y : ℕ) (d : Drawing)
    → length (push_line (node l k v c r) x y child_x child_y d).lines ≡ length d.lines + 1
length-push_line l r k v c x y child_x child_y d =
    length-append d.lines
      (record { start_x = x; start_y = y; end_x = child_x; end_y = child_y } ∷ [])

-- As many lines as nodes: one to each, and those below it.
child-lines :
    (t : Node ℕ) (x y child_x child_y width : ℕ) (d : Drawing)
    → length (push_line t x y child_x child_y (calculate_tree t child_x child_y width d)).lines
      ≡ length d.lines + length (entries t)
unfolding calculate_tree
child-lines null x y child_x child_y width d = omega arith
child-lines (node l k v c r) x y child_x child_y width d =
    let d' = calculate_tree (node l k v c r) child_x child_y width d in
    let one = length-push_line l r k v c x y child_x child_y d' in
    let d₁ : Drawing = record d {
      nodes = d.nodes ++ record { x = child_x; y = child_y; key = k } ∷ [];
    } in
    let left_x = child_x - width in
    let d₂ =
      push_line l child_x child_y left_x (child_y + 75)
        (calculate_tree l left_x (child_y + 75) (width / 2) d₁) in
    let lefts = child-lines l child_x child_y left_x (child_y + 75) (width / 2) d₁ in
    let rights = child-lines r child_x child_y (child_x + width) (child_y + 75) (width / 2) d₂ in
    let both = length-append (entries l) (entry k v c ∷ entries r) in
    let all : length d'.lines ≡ length d₂.lines + length (entries r) = rights in
    omega (arith, one, lefts, all, both)

-- Painting a tree that has a node draws the key of each entry once, and one line fewer than it has
-- entries.
pub paint-draws :
    (v : Viewer) (window_width : ℕ) (l : Node ℕ) (k value c : ℕ) (r : Node ℕ)
    → v.tree.root ≡ node l k value c r
    → let d = (paint v window_width).drawing in
      Perm (map (λ n. n.key) d.nodes) (map (λ e. e.key) (entries v.tree.root))
      × (length d.lines + 1 ≡ length (entries v.tree.root))
unfolding paint
paint-draws v window_width l k value c r e =
    let x = int (window_width / 2) in
    let t = node l k value c r in
    let blank : Drawing = record { nodes = []; lines = [] } in
    let drawing = calculate_tree t x 50 330 blank in
    let lines = child-lines t x 50 x 50 330 blank in
    let one = length-push_line l r k value c x 50 x 50 drawing in
    rw e (
      subst (λ ns. Perm (map (λ n. n.key) ns) (map (λ e. e.key) (entries t)))
          (sym (calculate_tree-nodes t x 50 330 blank)) (drawn-perm t x 50 330),
      omega (arith, lines, one),
    )
