-- ===== src/BinaryViewer/Messages.antt =====
-- rb-tree-binary-tree/Tree-binary-tree/Tree-binary-tree/Tree-binary-tree.cpp: the window's tree along its
-- messages.
use game_server_portfolio.Base.{ℕ, ◌<◌, ◌≤◌, ◌≡◌, refl, subst, sym, List, [], ◌∷◌, get_elem?, some}
use game_server_portfolio.Entries.{int}
use game_server_portfolio.BinaryTree.{Node, null, node, empty}
use game_server_portfolio.BinaryTree.Order.{depth}
use game_server_portfolio.BinaryTree.Count.{IsValid, empty-IsValid, insert_refines, delete_refines}
use game_server_portfolio.BinaryViewer.{
  NodeInfo, Drawing, Viewer, insert_btn, delete_btn, other_command, switch_command, random_key,
  insert_random_value, paint, WindowMessage, wm_keydown_space, wm_command, wm_paint, wm_other,
  wnd_proc, handle_messages,
}
use game_server_portfolio.BinaryViewer.Layout.{paint-order}

paint-tree : (v : Viewer) (window_width : ℕ) → (paint v window_width).tree ≡ v.tree
unfolding paint
paint-tree v window_width = by_root v.tree.root refl
  where
    by_root : (t : Node ℕ) → v.tree.root ≡ t → (paint v window_width).tree ≡ v.tree
    by_root null e = rw e refl
    by_root (node l k value c r) e = rw e refl

wnd_proc-IsValid :
    (v : Viewer) (message : WindowMessage) → IsValid v.tree → IsValid (wnd_proc v message).tree
unfolding wnd_proc switch_command insert_random_value
wnd_proc-IsValid v (wm_keydown_space rands) s =
    (insert_refines v.tree (random_key v.tree 100 (int 0) rands) 0 s).0
wnd_proc-IsValid v (wm_command (insert_btn key)) s = (insert_refines v.tree key 0 s).0
wnd_proc-IsValid v (wm_command (delete_btn key)) s = (delete_refines v.tree key s).0
wnd_proc-IsValid v (wm_command other_command) s = s
wnd_proc-IsValid v (wm_paint window_width) s = subst IsValid (sym (paint-tree v window_width)) s
wnd_proc-IsValid v wm_other s = s

handle_messages-IsValid :
    (messages : List WindowMessage) (v : Viewer)
    → IsValid v.tree
    → IsValid (handle_messages messages v).tree
unfolding handle_messages
handle_messages-IsValid [] v s = s
handle_messages-IsValid (message ∷ messages) v s =
    handle_messages-IsValid messages (wnd_proc v message) (wnd_proc-IsValid v message s)

-- Whatever messages a window with an empty tree has handled: when its tree is at most ten nodes deep,
-- painting it puts each node to the left of the nodes with greater keys.
pub handle_messages-order :
    (messages : List WindowMessage) (drawing : Drawing) (window_width : ℕ) (l : Node ℕ)
    (k value c : ℕ) (r : Node ℕ) (i j : ℕ) (a b : NodeInfo)
    → let v = handle_messages messages (record { tree = empty; drawing = drawing }) in
      v.tree.root ≡ node l k value c r
      → depth v.tree.root ≤ 10
      → get_elem? (paint v window_width).drawing.nodes i ≡ some a
      → get_elem? (paint v window_width).drawing.nodes j ≡ some b
      → a.key < b.key
      → a.x < b.x
handle_messages-order messages drawing window_width l k value c r i j a b e few at_i at_j lt =
    let v = handle_messages messages (record { tree = empty; drawing = drawing }) in
    let s =
      handle_messages-IsValid messages (record { tree = empty; drawing = drawing }) empty-IsValid in
    paint-order v window_width l k value c r i j a b e s.ordered few at_i at_j lt
