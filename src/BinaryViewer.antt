-- ===== src/BinaryViewer.antt =====
-- rb-tree-binary-tree/Tree-binary-tree/Tree-binary-tree/Tree-binary-tree.cpp: the window's commands on
-- its tree, and where the nodes and lines of the tree are drawn. A place `x`, an `int`, is taken by its
-- distance from INT_MIN, as a key is; the colour of a node, which is always -1, is left out.
pub mod Layout
pub mod Drawn
pub mod Messages
mod Tests
use game_server_portfolio.Base.{ℕ, ◌+◌, ◌-◌, ◌/◌, ◌%◌, List, [], ◌∷◌, ◌++◌, if◌then◌else◌}
use game_server_portfolio.Entries.{int}
use game_server_portfolio.BinaryTree.{Node, null, node, BinaryTree, insert, delete, find}

pub record LineSegment : Type 0 where
  pub start_x : ℕ
  pub start_y : ℕ
  pub end_x : ℕ
  pub end_y : ℕ

pub record NodeInfo : Type 0 where
  pub x : ℕ
  pub y : ℕ
  pub key : ℕ

pub record Drawing : Type 0 where
  pub nodes : List NodeInfo
  pub lines : List LineSegment

pub record Viewer : Type 0 where
  pub tree : BinaryTree ℕ
  pub drawing : Drawing

abbrev push_node : ℕ → ℕ → ℕ → Drawing → Drawing
push_node x y key d = record d { nodes = d.nodes ++ record { x = x; y = y; key = key } ∷ [] }

-- a line to a child that there is
abbrev pub push_line : Node ℕ → ℕ → ℕ → ℕ → ℕ → Drawing → Drawing
push_line null x y child_x child_y d = d
push_line (node l k v c r) x y child_x child_y d = record d {
  lines = d.lines ++ record { start_x = x; start_y = y; end_x = child_x; end_y = child_y } ∷ [];
}

unfoldable pub calculate_tree : Node ℕ → ℕ → ℕ → ℕ → Drawing → Drawing
calculate_tree null x y width d = d
calculate_tree (node l key v c r) x y width d =
    let child_y = y + 75 in
    let child_width = width / 2 in
    let left_x = x - width in
    let right_x = x + width in
    let d₁ = push_node x y key d in
    let d₂ = push_line l x y left_x child_y (calculate_tree l left_x child_y child_width d₁) in
    push_line r x y right_x child_y (calculate_tree r right_x child_y child_width d₂)

-- `WM_PAINT` in a window of this width: a tree without a node is not drawn, and what was drawn last is
-- kept.
unfoldable pub paint : Viewer → ℕ → Viewer
unfolding calculate_tree
paint v window_width = elim v.tree.root [
  | null ↦ v
  | node l key value c r ↦ record v {
    drawing =
        calculate_tree v.tree.root (int (window_width / 2)) 50 330
          (record { nodes = []; lines = [] });
  }
]

-- The commands, with the key in the window's text.
pub data Command : Type 0 where
  insert_btn delete_btn : ℕ → Command
  other_command : Command

unfoldable pub switch_command : Viewer → Command → Viewer
switch_command v (insert_btn key) = record v { tree = insert v.tree key 0 }
switch_command v (delete_btn key) = record v { tree = (delete v.tree key).1 }
switch_command v other_command = v

-- The loop of `InsertRandomValue`, over what `rand` returns: the key that it ends with.
unfoldable pub random_key : BinaryTree ℕ → ℕ → ℕ → List ℕ → ℕ
random_key tree range key [] = key
random_key tree range key (r ∷ rs) =
    let later = random_key tree range (int (r % range)) rs in
    if find tree (int (r % range)) then later else int (r % range)

-- `rands` has as many numbers as `range` says.
unfoldable pub insert_random_value : Viewer → ℕ → List ℕ → Viewer
insert_random_value v range rands = record v {
  tree = insert v.tree (random_key v.tree range (int 0) rands) 0;
}

-- The window's messages that change something: the space bar, with what `rand` returns then, a command,
-- and painting, with the window's width then.
pub data WindowMessage : Type 0 where
  wm_keydown_space : List ℕ → WindowMessage
  wm_command : Command → WindowMessage
  wm_paint : ℕ → WindowMessage
  wm_other : WindowMessage

unfoldable pub wnd_proc : Viewer → WindowMessage → Viewer
wnd_proc v (wm_keydown_space rands) = insert_random_value v 100 rands
wnd_proc v (wm_command command) = switch_command v command
wnd_proc v (wm_paint window_width) = paint v window_width
wnd_proc v wm_other = v

-- the messages one after the other
unfoldable pub handle_messages : List WindowMessage → Viewer → Viewer
unfolding wnd_proc
handle_messages [] v = v
handle_messages (message ∷ messages) v = handle_messages messages (wnd_proc v message)
