-- ===== src/BinaryTree.antt =====
-- rb-tree-binary-tree/Tree-binary-tree/Tree-binary-tree/BinaryTree.h: the unbalanced search tree.
-- A walk by `Node**` that changes the tree in place is a recursion that returns the tree; the field
-- `Parent`, which no method reads, is left out. An `int` key is taken by its distance from INT_MIN.
pub mod Order
pub mod Lookup
pub mod Count
pub mod Returned
mod Tests
use game_server_portfolio.Base.{
  ℕ, ◌+◌, ◌-◌, Bool, true, false, List, [], ◌∷◌, ◌++◌, ltb, if◌then◌else◌,
}

pub data Node {ℓ} (T : Type ℓ) : Type ℓ where
  null : Node T
  node : Node T → ℕ → T → ℕ → Node T → Node T

pub record BinaryTree {ℓ} (T : Type ℓ) : Type ℓ where
  pub root : Node T
  pub count : ℕ

-- What `Delete` does to the tree below a link: the count it returns, whether it unlinked a node,
-- and the tree.
pub record Deleted {ℓ} (T : Type ℓ) : Type ℓ where
  pub ret_count : ℕ
  pub unlinked : Bool
  pub tree : Node T

module _ {ℓ} {T : Type ℓ} where
  unfoldable pub empty : BinaryTree T
  empty = record { root = null; count = 0 }

  -- whether a node was made, and the tree
  unfoldable pub insert_node : Node T → ℕ → T → Bool × Node T
  insert_node null key value = (true, node null key value 1 null)
  insert_node (node l k v c r) key value =
      let (made_l, l') = insert_node l key value in
      let (made_r, r') = insert_node r key value in
      if ltb key k
      then (made_l, node l' k v c r)
      else if ltb k key
      then (made_r, node l k v c r')
      else (false, node l k v (c + 1) r)

  unfoldable pub insert : BinaryTree T → ℕ → T → BinaryTree T
  unfolding insert_node
  insert t key value =
      let (made, root) = insert_node t.root key value in
      record { root = root; count = if made then t.count + 1 else t.count }

  -- The walk to the leftmost node of the tree with these fields, which it unlinks: its key, value
  -- and count, and the rest.
  pub take_leftmost : Node T → ℕ → T → ℕ → Node T → ℕ × T × ℕ × Node T
  take_leftmost null k v c r = (k, v, c, r)
  take_leftmost (node ll lk lv lc lr) k v c r =
      let (key, value, count, rest) = take_leftmost ll lk lv lc lr in
      (key, value, count, node rest k v c r)

  -- the node that is found, by the number of its children
  pub unlink : Node T → ℕ → Node T → Deleted T
  unlink null c r = record { ret_count = c; unlinked = true; tree = r }
  unlink (node ll lk lv lc lr) c null = record {
    ret_count = c;
    unlinked = true;
    tree = node ll lk lv lc lr;
  }
  unlink (node ll lk lv lc lr) c (node rl rk rv rc rr) =
      let (key, value, count, rest) = take_leftmost rl rk rv rc rr in
      record {
        ret_count = count;
        unlinked = true;
        tree = node (node ll lk lv lc lr) key value count rest;
      }

  pub delete_node : Node T → ℕ → Deleted T
  unfolding unlink take_leftmost
  delete_node null key = record { ret_count = 0; unlinked = false; tree = null }
  delete_node (node l k v c r) key =
      let left = delete_node l key in
      let right = delete_node r key in
      if ltb key k
      then record left { tree = node left.tree k v c r }
      else if ltb k key
      then record right { tree = node l k v c right.tree }
      else unlink l c r

  pub delete : BinaryTree T → ℕ → ℕ × BinaryTree T
  unfolding delete_node
  delete t key =
      let d = delete_node t.root key in
      (d.ret_count, record { root = d.tree; count = if d.unlinked then t.count - 1 else t.count })

  -- `init` is `T{}`.
  pub get_value_node : Node T → ℕ → T → T
  get_value_node null key init = init
  get_value_node (node l k v c r) key init =
      let left = get_value_node l key init in
      let right = get_value_node r key init in
      if ltb key k then left else if ltb k key then right else v

  pub get_value : BinaryTree T → ℕ → T → T
  unfolding get_value_node
  get_value t key init = get_value_node t.root key init

  unfoldable pub find_node : Node T → ℕ → Bool
  find_node null key = false
  find_node (node l k v c r) key =
      let left = find_node l key in
      let right = find_node r key in if ltb key k then left else if ltb k key then right else true

  unfoldable pub find : BinaryTree T → ℕ → Bool
  unfolding find_node
  find t key = find_node t.root key

  -- what is pushed behind `dest_vec`
  pub search_for_vector : Node T → List ℕ → List ℕ
  search_for_vector null dest_vec = dest_vec
  search_for_vector (node l k v c r) dest_vec =
      search_for_vector r (search_for_vector l dest_vec ++ k ∷ [])

  pub get_sorted_key_array : BinaryTree T → List ℕ → List ℕ
  unfolding search_for_vector
  get_sorted_key_array t dest_vec = search_for_vector t.root dest_vec

  -- the values in the order in which they are printed
  pub search_for_print : Node T → List T → List T
  search_for_print null out = out
  search_for_print (node l k v c r) out = search_for_print r (search_for_print l out ++ v ∷ [])

  -- the keys of the nodes in the order in which they are freed
  pub destroy_tree : Node T → List ℕ
  destroy_tree null = []
  destroy_tree (node l k v c r) = destroy_tree l ++ destroy_tree r ++ k ∷ []

  pub get_count : BinaryTree T → ℕ
  get_count t = t.count
