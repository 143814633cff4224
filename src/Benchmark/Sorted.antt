-- ===== src/Benchmark/Sorted.antt =====
-- How deep the two trees of the benchmark are after the sorted keys, the worst case of the binary tree.
use game_server_portfolio.Base.{
  ap, sym, ◌∙◌, refl, subst, ℕ, zero, suc, ◌+◌, ◌<◌, ◌≤◌, ◌*◌, ◌^◌, ◌≡◌, true, List, [], ◌∷◌, ◌++◌,
  append_assoc, append-nil, length, some, arith,
}
use game_server_portfolio.Entries.{int}
use game_server_portfolio.BinaryTree.{Node, null, node, BinaryTree, insert_node}
use game_server_portfolio.BinaryTree
use game_server_portfolio.BinaryTree.Order.{entries, depth}
use game_server_portfolio.RbTree.{RbTree}
use game_server_portfolio.RbTree
use game_server_portfolio.RbTree.Read.{empty}
use game_server_portfolio.RbTree.Balance.Depth.{IsRedBlack-depth}
use game_server_portfolio.RbTree.Balance.Depth
use game_server_portfolio.BinaryTree.Count.{empty-IsValid}
use game_server_portfolio.Benchmark.{iota, get_sorted_vector, insert_all_bst, insert_all_rbt}
use game_server_portfolio.Benchmark.Trees.{insert_all_rbt_refines, insert_all_bst_refines}

-- A tree with no left child.
abbrev chain : List ℕ → Node ℕ
chain [] = null
chain (key ∷ keys) = node null key 0 1 (chain keys)

abbrev AllBelow : ℕ → List ℕ → Type 0
AllBelow n [] = Unit {0}
AllBelow n (key ∷ keys) = (key < n) × AllBelow n keys

AllBelow-append : (n : ℕ) (keys : List ℕ) → AllBelow n keys → AllBelow (n + 1) (keys ++ n ∷ [])
AllBelow-append n [] h = (omega arith, tt)
AllBelow-append n (key ∷ keys) (h, rest) = (omega arith, AllBelow-append n keys rest)

insert_node-chain :
    (keys : List ℕ) (key : ℕ)
    → AllBelow key keys
    → insert_node (chain keys) key 0 ≡ (true, chain (keys ++ key ∷ []))
unfolding insert_node
insert_node-chain [] key h = refl
insert_node-chain (k ∷ keys) key (h, rest) = ground (arith, insert_node-chain keys key rest)

insert_all_bst-chain :
    (n value : ℕ) (keys : List ℕ) (t : BinaryTree ℕ)
    → AllBelow value keys
    → t.root ≡ chain keys
    → (insert_all_bst (iota n value) t).root ≡ chain (keys ++ iota n value)
unfolding insert_all_bst BinaryTree.insert
insert_all_bst-chain zero value keys t h e = e ∙ ap chain (sym (append-nil keys))
insert_all_bst-chain (suc n) value keys t h e =
    let root =
      ap (λ r. (insert_node r value 0).1) e ∙ ap (λ x. x.1) (insert_node-chain keys value h) in
    insert_all_bst-chain n (value + 1) (keys ++ value ∷ []) (BinaryTree.insert t value 0)
      (AllBelow-append value keys h) root
    ∙ ap chain (append_assoc keys (value ∷ []) (iota n (value + 1)))

depth-chain : (keys : List ℕ) → depth (chain keys) ≡ length keys
depth-chain [] = refl
depth-chain (key ∷ keys) = ap suc (ground (arith, depth-chain keys))

entries-chain : (keys : List ℕ) → length (entries (chain keys)) ≡ length keys
entries-chain [] = refl
entries-chain (key ∷ keys) = ap suc (entries-chain keys)

length-iota : (n value : ℕ) → length (iota n value) ≡ n
length-iota zero value = refl
length-iota (suc n) value = ap suc (length-iota n (value + 1))

-- When the keys `1 .. size` have been inserted in their order, the binary tree is `size` nodes deep; the
-- insertions into the red-black tree return, and it is at most `2 * h` nodes deep, for some `h` with
-- `2 ^ h` at most `size + 1`.
pub sorted-depth :
    (size : ℕ)
    → let keys = get_sorted_vector size in
      (depth (insert_all_bst keys BinaryTree.empty).root ≡ size)
      × (rbt : RbTree ℕ) × (insert_all_rbt keys empty ≡ some rbt)
      × (h : ℕ) × (RbTree.Balance.Depth.depth rbt.root ≤ 2 * h)
      × (2 ^ h ≤ size + 1)
unfolding get_sorted_vector BinaryTree.empty empty
sorted-depth size =
    let keys = iota size (int 1) in
    let grown = insert_all_bst-chain size (int 1) [] BinaryTree.empty tt refl in
    let (_, e) = insert_all_bst_refines keys BinaryTree.empty empty-IsValid in
    let (rbt, (made, good, e')) =
      insert_all_rbt_refines keys empty (record { rules = tt; root_black = refl }) tt in
    let (h, deep, few) = IsRedBlack-depth rbt.root good in
    let many : length (RbTree.Order.entries rbt.root) ≡ size =
      ap length (e' ∙ sym e ∙ ap entries grown) ∙ entries-chain keys ∙ length-iota size (int 1) in
    (
      ap depth grown ∙ depth-chain keys ∙ length-iota size (int 1),
      rbt,
      made,
      h,
      deep,
      subst (λ n. 2 ^ h ≤ n + 1) many few,
    )
