-- ===== src/Viewer.antt =====
-- rb-tree-binary-tree/Tree-RB-tree/Tree-RB-tree/Tree-RB-tree.cpp: the window's commands on its tree,
-- and where the nodes and lines of the tree are drawn.
pub mod Lines
pub mod Walk
pub mod Layout
mod Tests
use game_server_portfolio.Base.{
  ℕ, ◌+◌, ◌%◌, Bool, false, List, [], ◌∷◌, ◌++◌, Option, none, some, if◌then◌else◌,
}
use game_server_portfolio.Entries.{int}
use game_server_portfolio.RbTree.{NodeColor, Node, nil, node, RbTree}
use game_server_portfolio.RbTree.Insert.{insert}
use game_server_portfolio.RbTree.Delete.{delete}
use game_server_portfolio.RbTree.Read.{find}

-- A node drawn: `none` is a leaf, which has no key, and `nil_check_color`.
pub record NodeInfo : Type 0 where
  pub x : ℕ
  pub y : ℕ
  pub key : Option ℕ
  pub color : Option NodeColor

pub record LineSegment : Type 0 where
  pub start_x : ℕ
  pub start_y : ℕ
  pub end_x : ℕ
  pub end_y : ℕ

-- The globals: what `CalculateTree` writes, and the rest.
pub record Drawing : Type 0 where
  pub node_pos_x : ℕ
  pub nodes : List NodeInfo
  pub lines : List LineSegment

pub record Viewer : Type 0 where
  pub tree : RbTree ℕ
  pub is_duplicate_node : Bool
  pub show_nil_nodes : Bool
  pub drawing : Drawing

abbrev pub x_width : ℕ
x_width = 25

abbrev pub level : ℕ
level = 75

-- a node drawn at the next place
unfoldable pub push_node : ℕ → Option ℕ → Option NodeColor → Drawing → Drawing
push_node y key color d = record d {
  nodes = d.nodes ++ record { x = d.node_pos_x; y = y; key = key; color = color } ∷ [];
  node_pos_x = d.node_pos_x + x_width;
}

-- The place of a child, if it is drawn: a leaf is if leaves are shown, and `drawn` is what the walk
-- makes of another child.
unfoldable pub draw_child : Bool → Node ℕ → ℕ → Drawing → Option ℕ × Drawing → Option ℕ × Drawing
unfolding push_node
draw_child show nil y d drawn =
    if show then (some d.node_pos_x, push_node y none none d) else (none, d)
draw_child show (node c l e r) y d drawn = drawn

-- a line from a child that is drawn to its parent
unfoldable pub push_line : Option ℕ → ℕ → ℕ → ℕ → Drawing → Drawing
push_line none child_y x y d = d
push_line (some child_x) child_y x y d = record d {
  lines = d.lines ++ record { start_x = child_x; start_y = child_y; end_x = x; end_y = y } ∷ [];
}

-- The place of the node, and `none` for -1.
unfoldable pub calculate_tree : Bool → Node ℕ → ℕ → Drawing → Option ℕ × Drawing
unfolding draw_child push_line
calculate_tree show nil y d = (none, d)
calculate_tree show (node c l e r) y d =
    let (left_x, d₁) = draw_child show l (y + level) d (calculate_tree show l (y + level) d) in
    let d₂ = push_node y (some e.key) (some c) d₁ in
    let (right_x, d₃) = draw_child show r (y + level) d₂ (calculate_tree show r (y + level) d₂) in
    (
      some d₁.node_pos_x,
      push_line right_x (y + level) d₁.node_pos_x y
          (push_line left_x (y + level) d₁.node_pos_x y d₃),
    )

-- `WM_PAINT`: the drawing is made anew.
unfoldable pub paint : Viewer → Viewer
unfolding calculate_tree
paint v = record v {
  drawing =
      (calculate_tree v.show_nil_nodes v.tree.root 120
        (record { node_pos_x = 100; nodes = []; lines = [] })).1;
}

-- The commands, with the key in the window's text, or whether the box is checked.
pub data Command : Type 0 where
  insert_btn delete_btn : ℕ → Command
  check_shownil : Bool → Command
  other_command : Command

unfoldable pub switch_command : Viewer → Command → Option Viewer
switch_command v (insert_btn key) = elim (insert v.tree key 0) [
  | none ↦ none
  | some tree ↦ some (record v { tree = tree; is_duplicate_node = find v.tree key })
]
switch_command v (delete_btn key) = elim (delete v.tree key) [
  | none ↦ none
  | some (_, tree) ↦ some (record v { tree = tree })
]
switch_command v (check_shownil state) = some (record v { show_nil_nodes = state })
switch_command v other_command = some v

-- The loop of `InsertRandomValue`, over what `rand` returns: the key that it ends with, at first
-- what the variable holds.
unfoldable pub random_key : RbTree ℕ → ℕ → ℕ → List ℕ → ℕ
random_key tree range key [] = key
random_key tree range key (r ∷ rs) =
    let later = random_key tree range (int (r % range)) rs in
    if find tree (int (r % range)) then later else int (r % range)

-- `rands` has as many numbers as `range` says.
unfoldable pub insert_random_value : Viewer → ℕ → ℕ → List ℕ → Option Viewer
unfolding random_key
insert_random_value v range garbage rands =
    elim (insert v.tree (random_key v.tree range garbage rands) 0) [
      | none ↦ none
      | some tree ↦ some (record v { tree = tree; is_duplicate_node = false })
    ]
