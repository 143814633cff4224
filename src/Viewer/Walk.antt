-- ===== src/Viewer/Walk.antt =====
-- rb-tree-binary-tree/Tree-RB-tree/Tree-RB-tree/Tree-RB-tree.cpp: what a walk of `CalculateTree` adds to
-- the drawing.
use game_server_portfolio.Base.{
  ℕ, ◌+◌, ◌*◌, ◌≡◌, refl, sym, ap, ap₂, subst, ◌∙◌, Bool, true, false, List, [], ◌∷◌, ◌++◌,
  append_assoc, append-nil, Option, none, some, length, length-append, arith,
}
use game_server_portfolio.RbTree.{NodeColor, Node, nil, node}
use game_server_portfolio.Viewer.{
  LineSegment, Drawing, x_width, level, push_node, draw_child, push_line, calculate_tree,
}
use game_server_portfolio.Viewer.Lines.{
  leaf, drawn_keys, places, row, places-append, row-append, root_x, segment, links, links_at,
}

-- What a walk adds to a drawing: these keys at the next places, and these lines.
pub record Adds (d : Drawing) (keys : List (Option ℕ)) (lines : List LineSegment) (d' : Drawing)
    : Type 0 where
  pub nodes_are : places d'.nodes ≡ places d.nodes ++ row d.node_pos_x keys
  pub next_is : d'.node_pos_x ≡ d.node_pos_x + x_width * length keys
  pub lines_are : d'.lines ≡ d.lines ++ lines

Adds-refl : (d : Drawing) → Adds d [] [] d
Adds-refl d = record {
  nodes_are = sym (append-nil (places d.nodes));
  next_is = omega arith;
  lines_are = sym (append-nil d.lines);
}

Adds-trans :
    (d d' d'' : Drawing) (ks ls : List (Option ℕ)) (m n : List LineSegment)
    → Adds d ks m d'
    → Adds d' ls n d''
    → Adds d (ks ++ ls) (m ++ n) d''
Adds-trans d d' d'' ks ls m n a b = record {
  nodes_are =
      b.nodes_are
      ∙ ap₂ (λ xs x. xs ++ row x ls) a.nodes_are a.next_is
      ∙ append_assoc (places d.nodes) (row d.node_pos_x ks)
          (row (d.node_pos_x + x_width * length ks) ls)
      ∙ ap (λ zs. places d.nodes ++ zs) (sym (row-append d.node_pos_x ks ls));
  next_is = omega (arith, a.next_is, b.next_is, length-append ks ls);
  lines_are = b.lines_are ∙ ap (λ xs. xs ++ n) a.lines_are ∙ append_assoc d.lines m n;
}

push_node-Adds :
    (y : ℕ) (k : Option ℕ) (c : Option NodeColor) (d : Drawing)
    → Adds d (k ∷ []) [] (push_node y k c d)
unfolding push_node
push_node-Adds y k c d = record {
  nodes_are = places-append d.nodes (record { x = d.node_pos_x; y = y; key = k; color = c } ∷ []);
  next_is = omega arith;
  lines_are = sym (append-nil d.lines);
}

push_line-Adds :
    (o : Option ℕ) (child_y x y : ℕ) (d : Drawing)
    → Adds d [] (segment o child_y x y) (push_line o child_y x y d)
unfolding push_line
push_line-Adds none child_y x y d = Adds-refl d
push_line-Adds (some k) child_y x y d = record {
  nodes_are = sym (append-nil (places d.nodes));
  next_is = omega arith;
  lines_are = refl;
}

Adds-more :
    (d d' d'' : Drawing) (ks : List (Option ℕ)) (m n : List LineSegment)
    → Adds d ks m d'
    → Adds d' [] n d''
    → Adds d ks (m ++ n) d''
Adds-more d d' d'' ks m n a b =
    subst (λ ls. Adds d ls (m ++ n) d'') (append-nil ks) (Adds-trans d d' d'' ks [] m n a b)

-- What a walk adds at a node, and the place that it returns.
abbrev pub Walked : Bool → Node ℕ → ℕ → Drawing → Option ℕ × Drawing → Type 0
Walked show nil y d r = Unit {0}
Walked show (node c l e u) y d (o, d') =
    let t : Node ℕ = node c l e u in
    Adds d (drawn_keys show t) (links show t d.node_pos_x y) d' × (o ≡ root_x show t d.node_pos_x)

-- And at a child.
draw_child_lem :
    (show : Bool) (t : Node ℕ) (y : ℕ) (d : Drawing) (r : Option ℕ × Drawing)
    → Walked show t y d r
    → let (o, d') = draw_child show t y d r in
      Adds d (leaf show t (drawn_keys show t)) (links show t d.node_pos_x y) d'
      × (o ≡ root_x show t d.node_pos_x)
unfolding draw_child
draw_child_lem true nil y d r w = (push_node-Adds y none none d, refl)
draw_child_lem false nil y d r w = (Adds-refl d, refl)
draw_child_lem show (node c l e u) y d r w = w

pub calculate_tree-Walked :
    (show : Bool) (t : Node ℕ) (y : ℕ) (d : Drawing) → Walked show t y d (calculate_tree show t y d)
unfolding calculate_tree
calculate_tree-Walked show nil y d = tt
calculate_tree-Walked show (node c l e r) y d =
    let child_y = y + level in
    let left = draw_child show l child_y d (calculate_tree show l child_y d) in
    let (a₁, left_is) =
      draw_child_lem show l child_y d (calculate_tree show l child_y d)
        (calculate_tree-Walked show l child_y d) in
    let d₁ = left.1 in
    let d₂ = push_node y (some e.key) (some c) d₁ in
    let a₂ = push_node-Adds y (some e.key) (some c) d₁ in
    let right = draw_child show r child_y d₂ (calculate_tree show r child_y d₂) in
    let (a₃, right_is) =
      draw_child_lem show r child_y d₂ (calculate_tree show r child_y d₂)
        (calculate_tree-Walked show r child_y d₂) in
    let d₃ = right.1 in
    let d₄ = push_line left.0 child_y d₁.node_pos_x y d₃ in
    let d₅ = push_line right.0 child_y d₁.node_pos_x y d₄ in
    let lk = leaf show l (drawn_keys show l) in
    let rk = leaf show r (drawn_keys show r) in
    let k = some e.key in
    let lm = links show l d.node_pos_x child_y in
    let rm = links show r d₂.node_pos_x child_y in
    let ls = segment left.0 child_y d₁.node_pos_x y in
    let rs = segment right.0 child_y d₁.node_pos_x y in
    let own : Adds d₃ [] (ls ++ rs) d₅ =
      Adds-trans d₃ d₄ d₅ [] [] ls rs (push_line-Adds left.0 child_y d₁.node_pos_x y d₃)
        (push_line-Adds right.0 child_y d₁.node_pos_x y d₄) in
    let all : Adds d (lk ++ k ∷ rk) (lm ++ (rm ++ (ls ++ rs))) d₅ =
      Adds-trans d d₁ d₅ lk (k ∷ rk) lm (rm ++ (ls ++ rs)) a₁ (
        Adds-trans d₁ d₂ d₅ (k ∷ []) rk [] (rm ++ (ls ++ rs)) a₂
          (Adds-more d₂ d₃ d₅ rk rm (ls ++ rs) a₃ own)) in
    let next : d₂.node_pos_x ≡ d₁.node_pos_x + x_width = omega (arith, a₂.next_is) in
    let same =
      links_at show c l r e d.node_pos_x d₁.node_pos_x d₂.node_pos_x y left.0 right.0 a₁.next_is
        next left_is right_is in
    (subst (λ q. Adds d (lk ++ k ∷ rk) q d₅) same all, ap some a₁.next_is)
