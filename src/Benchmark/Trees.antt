-- ===== src/Benchmark/Trees.antt =====
-- The two trees of the benchmark after the same insertions.
use game_server_portfolio.Base.{
  ap, sym, ◌∙◌, refl, subst, ℕ, ◌≡◌, ◌⊎◌, inl, inr, Bool, true, List, [], ◌∷◌, Option, none, some,
  arith,
}
use game_server_portfolio.Entries.{Entry, add, lookup}
use game_server_portfolio.Entries.Sorted.{IsSorted, lookup-add, add-IsSorted}
use game_server_portfolio.BinaryTree.{BinaryTree}
use game_server_portfolio.BinaryTree
use game_server_portfolio.BinaryTree.Order.{entries}
use game_server_portfolio.BinaryTree.Lookup.{is_some, find-get_value}
use game_server_portfolio.BinaryTree.Count.{IsValid, empty-IsValid, insert_refines}
use game_server_portfolio.RbTree.{RbTree}
use game_server_portfolio.RbTree
use game_server_portfolio.RbTree.Read.{empty, find}
use game_server_portfolio.RbTree.Lookup.{reads-lookup}
use game_server_portfolio.RbTree.Order
use game_server_portfolio.RbTree.Balance.{IsRedBlack}
use game_server_portfolio.RbTree.Balance.Inserted.{insert-IsRedBlack}
use game_server_portfolio.Benchmark.{insert_all_bst, insert_all_rbt, search_all}

-- the entries after these insertions
abbrev pub add_all : List ℕ → List (Entry ℕ) → List (Entry ℕ)
add_all [] es = es
add_all (key ∷ keys) es = add_all keys (add key 0 es)

abbrev IsIn : List (Entry ℕ) → ℕ → Type 0
IsIn es key = is_some (lookup key es) ≡ true

abbrev AllIn : List (Entry ℕ) → List ℕ → Type 0
AllIn es [] = Unit {0}
AllIn es (key ∷ keys) = IsIn es key × AllIn es keys

add-IsIn : (j k : ℕ) (es : List (Entry ℕ)) → IsSorted es → (j ≡ k) ⊎ IsIn es j → IsIn (add k 0 es) j
add-IsIn j k es s h = ground (arith, h, lookup-add j k 0 es s)

add_all-IsIn :
    (j : ℕ) (keys : List ℕ) (es : List (Entry ℕ))
    → IsSorted es
    → IsIn es j
    → IsIn (add_all keys es) j
add_all-IsIn j [] es s h = h
add_all-IsIn j (k ∷ keys) es s h =
    add_all-IsIn j keys (add k 0 es) (add-IsSorted k 0 es s) (add-IsIn j k es s (inr h))

add_all-AllIn : (keys : List ℕ) (es : List (Entry ℕ)) → IsSorted es → AllIn (add_all keys es) keys
add_all-AllIn [] es s = tt
add_all-AllIn (k ∷ keys) es s =
    let s' = add-IsSorted k 0 es s in
    (
      add_all-IsIn k keys (add k 0 es) s' (add-IsIn k k es s (inl refl)),
      add_all-AllIn keys (add k 0 es) s',
    )

-- A search of keys that are there prints nothing.
search_all-AllIn :
    (find_key : ℕ → Bool) (es : List (Entry ℕ)) (keys : List ℕ)
    → ((key : ℕ) → find_key key ≡ is_some (lookup key es))
    → AllIn es keys
    → search_all find_key keys ≡ 0
unfolding search_all
search_all-AllIn find_key es [] found h = refl
search_all-AllIn find_key es (k ∷ keys) found (h, rest) =
    ground (arith, found k, h, search_all-AllIn find_key es keys found rest)

pub insert_all_bst_refines :
    (keys : List ℕ) (t : BinaryTree ℕ)
    → IsValid t
    → IsValid (insert_all_bst keys t)
      × (entries (insert_all_bst keys t).root ≡ add_all keys (entries t.root))
unfolding insert_all_bst
insert_all_bst_refines [] t v = (v, refl)
insert_all_bst_refines (k ∷ keys) t v =
    let (v', e) = insert_refines t k 0 v in
    let (v'', e') = insert_all_bst_refines keys (BinaryTree.insert t k 0) v' in
    (v'', e' ∙ ap (add_all keys) e)

-- What the insertions into the red-black tree return.
abbrev pub Inserted : List ℕ → RbTree ℕ → RbTree ℕ → Type 0
Inserted keys t t' =
    (insert_all_rbt keys t ≡ some t')
    × IsRedBlack t'.root
    × (RbTree.Order.entries t'.root ≡ add_all keys (RbTree.Order.entries t.root))

pub insert_all_rbt_refines :
    (keys : List ℕ) (t : RbTree ℕ)
    → IsRedBlack t.root
    → RbTree.Order.IsOrdered t.root
    → (t' : RbTree ℕ) × Inserted keys t t'
unfolding insert_all_rbt
insert_all_rbt_refines [] t good ordered = (t, (refl, good, refl))
insert_all_rbt_refines (k ∷ keys) t good ordered =
    let (u, made, good', e) = insert-IsRedBlack t k 0 good ordered in
    let ordered' : RbTree.Order.IsOrdered u.root =
      subst IsSorted (sym e) (add-IsSorted k 0 (RbTree.Order.entries t.root) ordered) in
    let (t', (rest, good'', e')) = insert_all_rbt_refines keys u good' ordered' in
    (t', (ground (arith, made, rest), good'', e' ∙ ap (add_all keys) e))

find-is_some :
    (t : RbTree ℕ) (key : ℕ)
    → RbTree.Order.IsOrdered t.root
    → find t key ≡ is_some (lookup key (RbTree.Order.entries t.root))
unfolding find
find-is_some t key ordered =
    ap (λ x. x.0) (reads-lookup t.root key 0 ordered)
    ∙ by_entry (lookup key (RbTree.Order.entries t.root))
  where
    by_entry : (o : Option (Entry ℕ)) → (RbTree.Lookup.answers 0 o).0 ≡ is_some o
    by_entry none = refl
    by_entry (some e) = refl

add_all-IsSorted : (keys : List ℕ) (es : List (Entry ℕ)) → IsSorted es → IsSorted (add_all keys es)
add_all-IsSorted [] es s = s
add_all-IsSorted (k ∷ keys) es s = add_all-IsSorted keys (add k 0 es) (add-IsSorted k 0 es s)

-- Whatever keys are inserted one after the other, the insertions into the red-black tree return, and
-- the two trees then have the same entries: `Find` answers the same in both for every key, and a search
-- of all keys that were inserted prints "not find" for none of them.
pub insert_all-alike :
    (keys : List ℕ)
    → let bst = insert_all_bst keys BinaryTree.empty in
      (rbt : RbTree ℕ) × (insert_all_rbt keys empty ≡ some rbt)
      × (RbTree.Order.entries rbt.root ≡ entries bst.root)
      × ((key : ℕ) → find rbt key ≡ BinaryTree.find bst key)
      × (search_all (find rbt) keys ≡ 0)
      × (search_all (BinaryTree.find bst) keys ≡ 0)
unfolding BinaryTree.empty BinaryTree.find empty
insert_all-alike keys =
    let bst = insert_all_bst keys BinaryTree.empty in
    let (v, e) = insert_all_bst_refines keys BinaryTree.empty empty-IsValid in
    let (rbt, (made, good, e')) =
      insert_all_rbt_refines keys empty (record { rules = tt; root_black = refl }) tt in
    let alike : RbTree.Order.entries rbt.root ≡ entries bst.root = e' ∙ sym e in
    let ordered : RbTree.Order.IsOrdered rbt.root =
      subst IsSorted (sym e') (add_all-IsSorted keys [] tt) in
    let found : (key : ℕ) → find rbt key ≡ is_some (lookup key (entries bst.root)) =
      λ key. find-is_some rbt key ordered ∙ ap (λ es. is_some (lookup key es)) alike in
    let found' : (key : ℕ) → BinaryTree.find bst key ≡ is_some (lookup key (entries bst.root)) =
      λ key. (find-get_value bst.root key 0 v.ordered).0 in
    let held : AllIn (entries bst.root) keys =
      subst (λ es. AllIn es keys) (sym e) (add_all-AllIn keys [] tt) in
    (
      rbt,
      made,
      alike,
      λ key. found key ∙ sym (found' key),
      search_all-AllIn (find rbt) (entries bst.root) keys found held,
      search_all-AllIn (BinaryTree.find bst) (entries bst.root) keys found' held,
    )
