-- ===== src/BinaryViewer/Layout.antt =====
-- rb-tree-binary-tree/Tree-binary-tree/Tree-binary-tree/Tree-binary-tree.cpp: where `CalculateTree` puts
-- the nodes.
use native.Mathlib.Nat.{pow-le-pow_right, two-pow-succ}
use game_server_portfolio.Base.{
  larger, le_larger, ap, sym, ◌∙◌, refl, subst, ℕ, zero, suc, ◌+◌, ◌-◌, ◌*◌, ◌/◌, ◌^◌, ◌<◌, ◌≤◌,
  ◌≡◌, ◌⊎◌, inl, inr, List, [], ◌∷◌, ◌++◌, append_assoc, append-nil, get_elem?, some, of-some,
  arith,
}
use game_server_portfolio.Entries.{Entry, int}
use game_server_portfolio.Entries.Sorted.{AllLt, AllGt}
use game_server_portfolio.Entries.Split.{IsSorted-split, AllGt-append}
use game_server_portfolio.BinaryTree.{Node, null, node}
use game_server_portfolio.BinaryTree.Order.{entry, entries, IsOrdered, depth}
use game_server_portfolio.BinaryViewer.{NodeInfo, Drawing, Viewer, push_line, calculate_tree, paint}

-- The nodes drawn below a place, a parent before its children.
abbrev pub drawn : Node ℕ → ℕ → ℕ → ℕ → List NodeInfo
drawn null x y width = []
drawn (node l key v c r) x y width =
    record { x = x; y = y; key = key } ∷ drawn l (x - width) (y + 75) (width / 2)
    ++ drawn r (x + width) (y + 75) (width / 2)

push_line-nodes :
    (t : Node ℕ) (x y child_x child_y : ℕ) (d : Drawing)
    → (push_line t x y child_x child_y d).nodes ≡ d.nodes
push_line-nodes null x y child_x child_y d = refl
push_line-nodes (node l k v c r) x y child_x child_y d = refl

pub calculate_tree-nodes :
    (t : Node ℕ) (x y width : ℕ) (d : Drawing)
    → (calculate_tree t x y width d).nodes ≡ d.nodes ++ drawn t x y width
unfolding calculate_tree
calculate_tree-nodes null x y width d = sym (append-nil d.nodes)
calculate_tree-nodes (node l key v c r) x y width d =
    simp (push_line-nodes, calculate_tree-nodes l, calculate_tree-nodes r, append_assoc)

-- A node is drawn below a place: there, or below a child.
abbrev IsDrawn : NodeInfo → Node ℕ → ℕ → ℕ → Type 0
IsDrawn a null x width = ⊥
IsDrawn a (node l key v c r) x width =
    (a.x ≡ x) × (a.key ≡ key)
    ⊎ IsDrawn a l (x - width) (width / 2)
    ⊎ IsDrawn a r (x + width) (width / 2)

get_elem?-append_cases :
    (xs ys : List NodeInfo) (i : ℕ) (a : NodeInfo)
    → get_elem? (xs ++ ys) i ≡ some a
    → (get_elem? xs i ≡ some a) ⊎ (j : ℕ) × (get_elem? ys j ≡ some a)
get_elem?-append_cases [] ys i a e = inr (i, e)
get_elem?-append_cases (x ∷ xs) ys zero a e = inl e
get_elem?-append_cases (x ∷ xs) ys (suc i) a e = get_elem?-append_cases xs ys i a e

drawn-IsDrawn :
    (t : Node ℕ) (x y width i : ℕ) (a : NodeInfo)
    → get_elem? (drawn t x y width) i ≡ some a
    → IsDrawn a t x width
drawn-IsDrawn null x y width i a e = cc
drawn-IsDrawn (node l key v c r) x y width zero a e =
    let at = of-some e in inl (ap (λ n. n.x) (sym at), ap (λ n. n.key) (sym at))
drawn-IsDrawn (node l key v c r) x y width (suc i) a e =
    let left = drawn l (x - width) (y + 75) (width / 2) in
    elim (get_elem?-append_cases left (drawn r (x + width) (y + 75) (width / 2)) i a e) [
      | inl e' ↦ inr (inl (drawn-IsDrawn l (x - width) (y + 75) (width / 2) i a e'))
      | inr (j, e') ↦ inr (inr (drawn-IsDrawn r (x + width) (y + 75) (width / 2) j a e'))
    ]

-- How far a tree of this width reaches to the left and to the right.
IsDrawn-near :
    (t : Node ℕ) (x width : ℕ) (a : NodeInfo)
    → 2 * width ≤ x
    → IsDrawn a t x width
    → (x ≤ a.x + (2 * width - 1)) × (a.x ≤ x + (2 * width - 1))
IsDrawn-near null x width a room h = absurd h
IsDrawn-near (node l key v c r) x width a room (inl (at, _)) = (omega arith, omega arith)
IsDrawn-near (node l key v c r) x width a room (inr (inl h)) =
    let near = IsDrawn-near l (x - width) (width / 2) a (omega arith) h in
    (omega arith, omega arith)
IsDrawn-near (node l key v c r) x width a room (inr (inr h)) =
    let near = IsDrawn-near r (x + width) (width / 2) a (omega arith) h in
    (omega arith, omega arith)

AllLt-append : (k : ℕ) (ls rs : List (Entry ℕ)) → AllLt k (ls ++ rs) → AllLt k ls × AllLt k rs
AllLt-append k [] rs a = (tt, a)
AllLt-append k (e ∷ ls) rs a = let (l, r) = AllLt-append k ls rs a.1 in ((a.0, l), r)

IsDrawn-below :
    (t : Node ℕ) (x width k : ℕ) (a : NodeInfo)
    → AllLt k (entries t)
    → IsDrawn a t x width
    → a.key < k
IsDrawn-below null x width k a below h = absurd h
IsDrawn-below (node l key v c r) x width k a below h =
    let (lefts, (here, rights)) = AllLt-append k (entries l) (entry key v c ∷ entries r) below in
    elim h [
      | inl (_, at) ↦ omega arith
      | inr (inl h') ↦ IsDrawn-below l (x - width) (width / 2) k a lefts h'
      | inr (inr h') ↦ IsDrawn-below r (x + width) (width / 2) k a rights h'
    ]

IsDrawn-above :
    (t : Node ℕ) (x width k : ℕ) (a : NodeInfo)
    → AllGt k (entries t)
    → IsDrawn a t x width
    → k < a.key
IsDrawn-above null x width k a above h = absurd h
IsDrawn-above (node l key v c r) x width k a above h =
    let (lefts, (here, rights)) = AllGt-append k (entries l) (entry key v c ∷ entries r) above in
    elim h [
      | inl (_, at) ↦ omega arith
      | inr (inl h') ↦ IsDrawn-above l (x - width) (width / 2) k a lefts h'
      | inr (inr h') ↦ IsDrawn-above r (x + width) (width / 2) k a rights h'
    ]

-- The width is enough for a tree of this depth.
abbrev Suffices : ℕ → ℕ → Type 0
Suffices n width = 2 ^ n ≤ 4 * width + 3

Suffices-child : (n m width : ℕ) → m ≤ n → Suffices (suc n) width → Suffices m (width / 2)
Suffices-child n m width h s =
    let less = pow-le-pow_right {n = 2} (omega arith) h in
    let doubled = two-pow-succ n in omega arith

-- A node with a child has some width then.
Suffices-width :
    (t : Node ℕ) (x n width : ℕ) (a : NodeInfo)
    → depth t ≤ n
    → Suffices (suc n) width
    → IsDrawn a t x (width / 2)
    → 0 < width
Suffices-width null x n width a h s d = absurd d
Suffices-width (node l k v c r) x n width a h s d =
    let one : 1 ≤ n = omega (arith, h) in
    let less = pow-le-pow_right {n = 2} (omega arith) one in
    let doubled = two-pow-succ n in omega arith

IsDrawn-order :
    (t : Node ℕ) (x width : ℕ) (a b : NodeInfo)
    → IsOrdered t
    → Suffices (depth t) width
    → 2 * width ≤ x
    → IsDrawn a t x width
    → IsDrawn b t x width
    → a.key < b.key
    → a.x < b.x
IsDrawn-order null x width a b ordered s room h h' lt = absurd h
IsDrawn-order (node l key v c r) x width a b ordered s room h h' lt =
    let (below, above, sl, sr) = IsSorted-split (entries l) (entry key v c) (entries r) ordered in
    let (dl, dr) = le_larger (depth l) (depth r) in
    let w = width / 2 in
    let x_l = x - width in
    let x_r = x + width in
    let fits_l = Suffices-child (larger (depth l) (depth r)) (depth l) width dl s in
    let fits_r = Suffices-child (larger (depth l) (depth r)) (depth r) width dr s in
    elim h [
      | inl (at, is) ↦ elim h' [
        | inl (at', is') ↦ absurd (omega arith)
        | inr (inl g') ↦ let k = IsDrawn-below l x_l w key b below g' in absurd (omega arith)
        | inr (inr g') ↦
            let near = IsDrawn-near r x_r w b (omega arith) g' in
            let wide = Suffices-width r x_r (larger (depth l) (depth r)) width b dr s g' in
            omega arith
      ]
      | inr (inl g) ↦
          let near = IsDrawn-near l x_l w a (omega arith) g in
          let wide = Suffices-width l x_l (larger (depth l) (depth r)) width a dl s g in
          elim h' [
            | inl (at', is') ↦ omega arith
            | inr (inl g') ↦ IsDrawn-order l x_l w a b sl fits_l (omega arith) g g' lt
            | inr (inr g') ↦ let near' = IsDrawn-near r x_r w b (omega arith) g' in omega arith
          ]
      | inr (inr g) ↦
          let k = IsDrawn-above r x_r w key a above g in
          elim h' [
            | inl (at', is') ↦ absurd (omega arith)
            | inr (inl g') ↦ let k' = IsDrawn-below l x_l w key b below g' in absurd (omega arith)
            | inr (inr g') ↦ IsDrawn-order r x_r w a b sr fits_r (omega arith) g g' lt
          ]
    ]

pub paint-order :
    (v : Viewer) (window_width : ℕ) (l : Node ℕ) (k value c : ℕ) (r : Node ℕ) (i j : ℕ)
    (a b : NodeInfo)
    → v.tree.root ≡ node l k value c r
    → IsOrdered v.tree.root
    → depth v.tree.root ≤ 10
    → get_elem? (paint v window_width).drawing.nodes i ≡ some a
    → get_elem? (paint v window_width).drawing.nodes j ≡ some b
    → a.key < b.key
    → a.x < b.x
unfolding paint
paint-order v window_width l k value c r i j a b e ordered few at_i at_j lt =
    let x = int (window_width / 2) in
    let t = node l k value c r in
    let shown : (paint v window_width).drawing.nodes ≡ drawn t x 50 330 =
      rw e (calculate_tree-nodes t x 50 330 (record { nodes = []; lines = [] })) in
    let d = drawn-IsDrawn t x 50 330 i a (ap (λ ns. get_elem? ns i) (sym shown) ∙ at_i) in
    let d' = drawn-IsDrawn t x 50 330 j b (ap (λ ns. get_elem? ns j) (sym shown) ∙ at_j) in
    let less = pow-le-pow_right {n = 2} (omega arith) few in
    let fits : Suffices (depth t) 330 = subst (λ u. Suffices (depth u) 330) e (omega arith) in
    IsDrawn-order t x 330 a b (subst IsOrdered e ordered) fits (omega arith) d d' lt
