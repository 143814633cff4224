-- ===== src/RbTree/Read.antt =====
-- The methods of `RBtree` that read the tree, and its destructor.
use game_server_portfolio.Base.{ℕ, Bool, true, false, List, [], ◌∷◌, ◌++◌, ltb, if◌then◌else◌}
use game_server_portfolio.RbTree.{black, red, Node, nil, node, RbTree}

module _ {ℓ} {T : Type ℓ} where
  unfoldable pub empty : RbTree T
  empty = record { root = nil; count = 0; insert_vec = []; delete_vec = [] }

  -- `init` is `T{}`.
  unfoldable pub get_value_node : Node T → ℕ → T → T
  get_value_node nil key init = init
  get_value_node (node c l e r) key init =
      let go_left = get_value_node l key init in
      let go_right = get_value_node r key init in
      if ltb key e.key then go_left else if ltb e.key key then go_right else e.value

  unfoldable pub get_value : RbTree T → ℕ → T → T
  unfolding get_value_node
  get_value t key init = get_value_node t.root key init

  unfoldable pub find_node : Node T → ℕ → Bool
  find_node nil key = false
  find_node (node c l e r) key =
      let go_left = find_node l key in
      let go_right = find_node r key in
      if ltb key e.key then go_left else if ltb e.key key then go_right else true

  unfoldable pub find : RbTree T → ℕ → Bool
  unfolding find_node
  find t key = find_node t.root key

  unfoldable pub get_node_count_node : Node T → ℕ → ℕ
  get_node_count_node nil key = 0
  get_node_count_node (node c l e r) key =
      let go_left = get_node_count_node l key in
      let go_right = get_node_count_node r key in
      if ltb key e.key then go_left else if ltb e.key key then go_right else e.count

  unfoldable pub get_node_count : RbTree T → ℕ → ℕ
  unfolding get_node_count_node
  get_node_count t key = get_node_count_node t.root key

  unfoldable pub get_count : RbTree T → ℕ
  get_count t = t.count

  -- what is pushed behind `dest_vec`
  unfoldable pub search_for_vector : Node T → List ℕ → List ℕ
  search_for_vector nil dest_vec = dest_vec
  search_for_vector (node c l e r) dest_vec =
      search_for_vector r (search_for_vector l dest_vec ++ e.key ∷ [])

  unfoldable pub get_sorted_key_array : RbTree T → List ℕ → List ℕ
  unfolding search_for_vector
  get_sorted_key_array t dest_vec = search_for_vector t.root dest_vec

  -- The values in the order in which they are printed. The walk ends at null pointers, so that it
  -- prints the value of `Nil_`, here `init`, wherever it meets it.
  unfoldable pub search_for_print : Node T → T → List T → List T
  search_for_print nil init out = out ++ init ∷ []
  search_for_print (node c l e r) init out =
      search_for_print r init (search_for_print l init out ++ e.value ∷ [])

  unfoldable pub print : RbTree T → T → List T
  unfolding search_for_print
  print t init = search_for_print t.root init []

  -- the keys of the nodes in the order in which they are freed
  unfoldable pub destroy_tree : Node T → List ℕ
  destroy_tree nil = []
  destroy_tree (node c l e r) = destroy_tree l ++ destroy_tree r ++ e.key ∷ []

  unfoldable pub toggle_color : Node T → Node T
  toggle_color nil = nil
  toggle_color (node black l e r) = node red l e r
  toggle_color (node red l e r) = node black l e r

  unfoldable pub clear_debug_vector : RbTree T → RbTree T
  clear_debug_vector t = record t { insert_vec = []; delete_vec = [] }
