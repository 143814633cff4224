-- ===== src/ObjectPool.antt =====
-- util/Util/ObjectPool.h, on a heap of nodes. A `T*` stands for the node that it lies in. `none` is
-- undefined behaviour: an address that is not a node's, or a destructor run twice.
pub mod Heap
pub mod Alloc
pub mod Free
mod Tests
use game_server_portfolio.Base.{
  ℕ, zero, suc, ◌+◌, ◌-◌, ◌*◌, ◌/◌, ◌%◌, ◌^◌, Bool, true, false, not, List, [], ◌∷◌, Option, none,
  some, ◌==◌, if◌then◌else◌, ◌&&◌,
}

-- `alive` says whether the `Data` is constructed and not destroyed.
pub record Node : Type 0 where
  pub id : ℕ
  pub alive : Bool
  pub pool_next : ℕ
  pub stack_next : ℕ

-- the pool's fields, and the nodes by their addresses
pub record ObjectPool : Type 0 where
  pub stack_top : ℕ
  pub alloc_head : ℕ
  pub alloc_count : ℕ
  pub stack_count : ℕ
  pub object_pool_id : ℕ
  pub placement_new : Bool
  pub nodes : List (ℕ × Node)

abbrev pub find : ℕ → List (ℕ × Node) → Option Node
find a [] = none
find a ((b, n) ∷ ns) = if b == a then some n else find a ns

-- the node at an address changed, and deleted
abbrev pub put : ℕ → Node → List (ℕ × Node) → List (ℕ × Node)
put a n [] = []
put a n ((b, m) ∷ ns) = if b == a then (b, n) ∷ ns else (b, m) ∷ put a n ns

abbrev pub delete : ℕ → List (ℕ × Node) → List (ℕ × Node)
delete a [] = []
delete a ((b, m) ∷ ns) = if b == a then ns else (b, m) ∷ delete a ns

-- the pool and the next value of `objectPoolId_count_`
unfoldable pub construct : ℕ → Bool → List (ℕ × Node) → ObjectPool × ℕ
construct object_pool_id_count placement_new nodes = (
  record {
    stack_top = 0;
    alloc_head = 0;
    alloc_count = 0;
    stack_count = 0;
    object_pool_id = object_pool_id_count;
    placement_new = placement_new;
    nodes = nodes;
  },
  object_pool_id_count + 1,
)

-- `*reinterpret_cast<unsigned int*>(&node->StackNext)`: the lower half of the pointer, written and
-- read
unfoldable pub write_cookie : ℕ → ℕ → ℕ
write_cookie pointer id = pointer / 2 ^ 32 * 2 ^ 32 + id

unfoldable pub read_cookie : ℕ → ℕ
read_cookie pointer = pointer % 2 ^ 32

-- `fresh` is the address that `new Node` returns.
unfoldable pub alloc_new : ObjectPool → ℕ → ℕ × ObjectPool
unfolding write_cookie
alloc_new v fresh =
    let new_node : Node = record {
      id = v.object_pool_id;
      alive = true;
      pool_next = v.alloc_head;
      stack_next = write_cookie 0 v.object_pool_id;
    } in
    (
      fresh,
      record v {
        nodes = (fresh, new_node) ∷ v.nodes;
        alloc_head = fresh;
        alloc_count = (v.alloc_count + 1) % 2 ^ 32;
      },
    )

-- the node on the top of the stack taken from it
unfoldable pub alloc_used : ObjectPool → Node → ℕ × ObjectPool
unfolding write_cookie
alloc_used v used_node =
    let handed : Node = record used_node {
      alive = if v.placement_new then true else used_node.alive;
      stack_next = write_cookie used_node.stack_next v.object_pool_id;
    } in
    (
      v.stack_top,
      record v {
        nodes = put v.stack_top handed v.nodes;
        stack_top = used_node.stack_next;
        stack_count = (v.stack_count + 2 ^ 32 - 1) % 2 ^ 32;
      },
    )

unfoldable pub alloc : ObjectPool → ℕ → Option (ℕ × ObjectPool)
unfolding alloc_new alloc_used
alloc v fresh =
    if v.stack_top == 0 then some (alloc_new v fresh) else elim (find v.stack_top v.nodes) [
      | none ↦ none
      | some used_node ↦ some (alloc_used v used_node)
    ]

-- a node put on the stack
unfoldable pub push : ObjectPool → ℕ → Node → ObjectPool
push v p_data free_node =
    let pushed : Node = record free_node {
      alive = if v.placement_new then false else free_node.alive;
      stack_next = v.stack_top;
    } in
    record v {
      nodes = put p_data pushed v.nodes;
      stack_top = p_data;
      stack_count = (v.stack_count + 1) % 2 ^ 32;
    }

-- Whether it returned: `false` is a `runtime_error`.
unfoldable pub free : ObjectPool → ℕ → Option (Bool × ObjectPool)
unfolding read_cookie push
free v p_data = elim (find p_data v.nodes) [
  | none ↦ none
  | some free_node ↦
      if not (free_node.id == v.object_pool_id)
      then some (false, v)
      else if not (read_cookie free_node.stack_next == v.object_pool_id)
      then some (false, v)
      else if v.placement_new && not free_node.alive
      then none
      else some (true, push v p_data free_node)
]

-- The destructor's loop, on fuel: it deletes the nodes on the stack, and their `Data` with them.
unfoldable pub free_stack_memory : ℕ → ObjectPool → Option ObjectPool
free_stack_memory zero v = some v
free_stack_memory (suc fuel) v =
    if v.stack_top == 0 then some v else elim (find v.stack_top v.nodes) [
      | none ↦ none
      | some node ↦
          if node.alive
          then free_stack_memory fuel
              (record v { nodes = delete v.stack_top v.nodes; stack_top = node.stack_next })
          else none
    ]
