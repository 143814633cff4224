-- ===== src/Viewer/Lines.antt =====
-- rb-tree-binary-tree/Tree-RB-tree/Tree-RB-tree/Tree-RB-tree.cpp: the keys and the lines that the window
-- shows, read off the tree.
use game_server_portfolio.Base.{
  ℕ, suc, ◌+◌, ◌*◌, ◌≡◌, refl, ap, ap₂, ◌∙◌, Bool, true, false, List, [], ◌∷◌, ◌++◌, Option, none,
  some, if◌then◌else◌, length, length-append, arith,
}
use game_server_portfolio.Entries.{Entry}
use game_server_portfolio.RbTree.{NodeColor, Node, nil, node}
use game_server_portfolio.Viewer.{NodeInfo, LineSegment, x_width, level}

-- The keys drawn below a node, from left to right, and `none` for a leaf.
abbrev pub leaf : Bool → Node ℕ → List (Option ℕ) → List (Option ℕ)
leaf show nil keys = if show then none ∷ [] else []
leaf show (node c l e r) keys = keys

abbrev pub drawn_keys : Bool → Node ℕ → List (Option ℕ)
drawn_keys show nil = []
drawn_keys show (node c l e r) =
    leaf show l (drawn_keys show l) ++ some e.key ∷ leaf show r (drawn_keys show r)

-- the nodes drawn, as places and keys
abbrev pub places : List NodeInfo → List (ℕ × Option ℕ)
places [] = []
places (n ∷ ns) = (n.x, n.key) ∷ places ns

-- Keys at every `x_width` from a place on.
abbrev pub row : ℕ → List (Option ℕ) → List (ℕ × Option ℕ)
row x [] = []
row x (k ∷ ks) = (x, k) ∷ row (x + x_width) ks

pub places-append : (xs ys : List NodeInfo) → places (xs ++ ys) ≡ places xs ++ places ys
places-append [] ys = refl
places-append (x ∷ xs) ys = ap (◌∷◌ (x.x, x.key)) (places-append xs ys)

pub row-append :
    (x : ℕ) (ks ls : List (Option ℕ))
    → row x (ks ++ ls) ≡ row x ks ++ row (x + x_width * length ks) ls
row-append x [] ls = ap (λ y. row y ls) (let e : x ≡ x + x_width * 0 = omega arith in e)
row-append x (k ∷ ks) ls =
    ap (◌∷◌ (x, k)) (row-append (x + x_width) ks ls)
    ∙ ap (λ y. (x, k) ∷ row (x + x_width) ks ++ row y ls)
        (let e : x + x_width + x_width * length ks ≡ x + x_width * suc (length ks) = omega arith in
          e)

-- How far the nodes drawn below a node reach.
abbrev pub width : Bool → Node ℕ → ℕ
width show t = x_width * length (leaf show t (drawn_keys show t))

-- Where the node itself is drawn, if it is, when those below it start at a place.
abbrev pub root_x : Bool → Node ℕ → ℕ → Option ℕ
root_x show nil x = if show then some x else none
root_x show (node c l e r) x = some (x + width show l)

-- the line from a child that is drawn to its parent
abbrev pub segment : Option ℕ → ℕ → ℕ → ℕ → List LineSegment
segment none child_y x y = []
segment (some child_x) child_y x y =
    record { start_x = child_x; start_y = child_y; end_x = x; end_y = y } ∷ []

-- The lines below a node, from each child to its parent, when the nodes start at a place.
abbrev pub links : Bool → Node ℕ → ℕ → ℕ → List LineSegment
links show nil x y = []
links show (node c l e r) x y =
    links show l x (y + level)
    ++ (links show r (x + width show l + x_width) (y + level)
        ++ (segment (root_x show l x) (y + level) (x + width show l) y
            ++ segment (root_x show r (x + width show l + x_width)) (y + level) (x + width show l)
                y))

-- The lines at a node, once its place and those of its children are known.
pub links_at :
    (show : Bool) (c : NodeColor) (l r : Node ℕ) (e : Entry ℕ) (x p q y : ℕ) (lo ro : Option ℕ)
    → p ≡ x + width show l
    → q ≡ p + x_width
    → lo ≡ root_x show l x
    → ro ≡ root_x show r q
    → links show l x (y + level)
        ++ (links show r q (y + level)
            ++ (segment lo (y + level) p y ++ segment ro (y + level) p y))
      ≡ links show (node c l e r) x y
links_at show c l r e x p q y lo ro at_p at_q at_l at_r =
    let at_q' : q ≡ x + width show l + x_width = at_q ∙ ap (λ z. z + x_width) at_p in
    let f : ℕ → ℕ → Option ℕ → List LineSegment = λ p q ro.
      links show l x (y + level)
      ++ (links show r q (y + level)
          ++ (segment (root_x show l x) (y + level) p y ++ segment ro (y + level) p y)) in
    ap
      (λ o.
        links show l x (y + level)
        ++ (links show r q (y + level)
            ++ (segment o (y + level) p y ++ segment ro (y + level) p y)))
      at_l
    ∙ ap (f p q) at_r
    ∙ ap₂ (λ p q. f p q (root_x show r q)) at_p at_q'

-- One line from each node drawn but the uppermost.
pub length-links :
    (show : Bool) (t : Node ℕ) (x y child_y px py : ℕ)
    → length (links show t x y) + length (segment (root_x show t x) child_y px py)
      ≡ length (leaf show t (drawn_keys show t))
length-links true nil x y child_y px py = refl
length-links false nil x y child_y px py = refl
length-links show (node c l e r) x y child_y px py =
    let cy = y + level in
    let p = x + width show l in
    let q = p + x_width in
    let lm = links show l x cy in
    let rm = links show r q cy in
    let ls = segment (root_x show l x) cy p y in
    let rs = segment (root_x show r q) cy p y in
    let lk = leaf show l (drawn_keys show l) in
    let rk = leaf show r (drawn_keys show r) in
    let counted : length (lm ++ (rm ++ (ls ++ rs))) + 1 ≡ length (lk ++ some e.key ∷ rk) = omega (
      arith,
      length-links show l x cy cy p y,
      length-links show r q cy cy p y,
      length-append lm (rm ++ (ls ++ rs)),
      length-append rm (ls ++ rs),
      length-append ls rs,
      length-append lk (some e.key ∷ rk),
    ) in
    counted
