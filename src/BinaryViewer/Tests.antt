-- ===== src/BinaryViewer/Tests.antt =====
-- A tree of three nodes drawn in a window of 800; and one of eleven levels, whose last two nodes stand
-- in one place.
use mathlib.Core.List.{Perm}
use game_server_portfolio.Base.{
  ℕ, ◌+◌, ◌-◌, ◌<◌, ◌≡◌, refl, List, [], ◌∷◌, map, some, length, get_elem?, arith,
}
use game_server_portfolio.Entries.{int}
use game_server_portfolio.BinaryTree.{Node, null, node}
use game_server_portfolio.BinaryTree.Order.{entries}
use game_server_portfolio.BinaryViewer.{
  Viewer, WindowMessage, wm_command, wm_keydown_space, wm_paint, insert_btn, paint, calculate_tree,
  handle_messages, switch_command, insert_random_value, random_key,
}
use game_server_portfolio.BinaryViewer.Messages.{handle_messages-order}
use game_server_portfolio.BinaryViewer.Drawn.{paint-draws}

abbrev leaf : ℕ → Node ℕ
leaf k = node null (int k) 0 1 null

abbrev window : Viewer
window = record {
  tree = record { root = node (leaf 1) (int 2) 0 1 (leaf 3); count = 3 };
  drawing = record { nodes = []; lines = [] };
}

-- the key 2 inserted by a command, the keys 3 and 1 by the space bar, where `rand` first returns 2 and
-- 102, which are there
abbrev inserted : List WindowMessage
inserted =
    wm_command (insert_btn (int 2))
    ∷ wm_keydown_space (2 ∷ 3 ∷ [])
    ∷ wm_paint 700
    ∷ wm_keydown_space (102 ∷ 1 ∷ [])
    ∷ []

handle_messages-order_example : int 400 - 330 < int 400 + 330
unfolding paint calculate_tree handle_messages switch_command insert_random_value random_key
    game_server_portfolio.BinaryTree.insert game_server_portfolio.BinaryTree.insert_node
    game_server_portfolio.BinaryTree.find game_server_portfolio.BinaryTree.find_node
    game_server_portfolio.BinaryTree.empty
handle_messages-order_example =
    handle_messages-order inserted (record { nodes = []; lines = [] }) 800 (leaf 1) (int 2) 0 1
      (leaf 3) 1 2 (record { x = int 400 - 330; y = 125; key = int 1 })
      (record { x = int 400 + 330; y = 125; key = int 3 }) refl (omega arith) refl refl
      (omega arith)

paint-draws_example :
    let d = (paint window 800).drawing in
    Perm (map (λ n. n.key) d.nodes) (map (λ e. e.key) (entries window.tree.root))
    × (length d.lines + 1 ≡ 3)
paint-draws_example = paint-draws window 800 (leaf 1) (int 2) 0 1 (leaf 3) refl

-- a node with two children below as many nodes
abbrev deep : List ℕ → Node ℕ
deep [] = node (leaf 15) (int 20) 0 1 (leaf 25)
deep (k ∷ ks) = node null (int k) 0 1 (deep ks)

-- Below ten levels the nodes of the keys 15 and 25 stand in one place.
deep_overlap :
    let nodes =
      (calculate_tree
        (deep (1 ∷ 2 ∷ 3 ∷ 4 ∷ 5 ∷ 6 ∷ 7 ∷ 8 ∷ 9 ∷ []))
        (int 400)
        50
        330
        (record { nodes = []; lines = [] })).nodes in
    (get_elem? nodes 10 ≡ some (record { x = int 1056; y = 800; key = int 15 }))
    × (get_elem? nodes 11 ≡ some (record { x = int 1056; y = 800; key = int 25 }))
unfolding calculate_tree
deep_overlap = (refl, refl)
