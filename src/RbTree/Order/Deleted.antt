-- ===== src/RbTree/Order/Deleted.antt =====
-- `RBtree::Delete` and the entries of the tree.
use native.Mathlib.Decide.{dec_lt}
use game_server_portfolio.Base.{
  ℕ, ◌<◌, ◌≡◌, refl, sym, ap, ◌∙◌, some, List, [], ◌∷◌, ◌++◌, append-nil, arith, Option-cases,
  of-some, bind-some, lt→ltb, ltb-false, inl, inr,
}
use game_server_portfolio.Entries.{Entry, remove}
use game_server_portfolio.Entries.Sorted.{AllLt, AllGt, AllLt-mono, AllGt-mono}
use game_server_portfolio.Entries.Split.{IsSorted-split, remove_left, remove_right}
use game_server_portfolio.RbTree.{NodeColor, Node, nil, node, Side, left, right, Frame, RbTree}
use game_server_portfolio.RbTree.Delete.{
  locate, leftmost, red_black_balancing, replace, unlink_at, delete,
}
use game_server_portfolio.RbTree.Order.{entries, beside, around, IsOrdered}
use game_server_portfolio.RbTree.Order.Balanced.{red_black_balancing-around, replace-around}

module _ {ℓ} {T : Type ℓ} where
  around-append :
      (below above : List (Frame T)) (es : List (Entry T))
      → around (below ++ above) es ≡ around above (around below es)
  around-append [] above es = refl
  around-append (f ∷ below) above es = around-append below above _

  -- Every frame leads down to the left.
  abbrev AllLeft : List (Frame T) → Type 0
  AllLeft [] = Unit {0}
  AllLeft (f ∷ fs) = (f.side ≡ left) × AllLeft fs

  beside-first :
      (s : Side) (e : Entry T) (es : List (Entry T)) (x : Entry T) (rest : List (Entry T))
      → s ≡ left
      → beside s (e ∷ es) x rest ≡ e ∷ beside s es x rest
  beside-first left e es x rest h = refl
  beside-first right e es x rest h = cc

  around-first :
      (fs : List (Frame T)) (e : Entry T) (es : List (Entry T))
      → AllLeft fs
      → around fs (e ∷ es) ≡ e ∷ around fs es
  around-first [] e es a = refl
  around-first (f ∷ fs) e es (a, b) =
      ap (around fs) (beside-first f.side e es f.fields (entries f.sibling) a)
      ∙ around-first fs e (beside f.side es f.fields (entries f.sibling)) b

  -- The leftmost node is the first entry, and the others are what is left without it.
  leftmost-around :
      (l : Node T) (c : NodeColor) (e : Entry T) (r : Node T) (path : List (Frame T))
      → AllLeft path
      → let (tc, te, tr, below) = leftmost l c e r path in
        around path (entries l ++ e ∷ entries r) ≡ te ∷ around below (entries tr)
  unfolding leftmost
  leftmost-around nil c e r path a = around-first path e (entries r) a
  leftmost-around (node lc ll le lr) c e r path a =
      leftmost-around ll lc le lr
        (record { side = left; color = c; fields = e; sibling = r } ∷ path) (refl, a)

  -- The node that is unlinked goes, and the entries of its subtrees stay.
  unlink_at-around :
      (c : NodeColor) (l : Node T) (e : Entry T) (r : Node T) (path : List (Frame T)) (n : ℕ)
      (root : Node T)
      → unlink_at (node c l e r) path ≡ some (n, root)
      → entries root ≡ around path (entries l ++ entries r)
  unfolding unlink_at
  unlink_at-around c nil e r path n root h =
      let (t, found, k) = bind-some (replace c r path) (λ t. some (e.count, t)) h in
      ap (λ x. entries x.1) (of-some (sym k)) ∙ replace-around c r path t found
  unlink_at-around c (node lc ll le lr) e nil path n root h =
      let l = node lc ll le lr in
      let (t, found, k) = bind-some (replace c l path) (λ t. some (e.count, t)) h in
      ap (λ x. entries x.1) (of-some (sym k))
      ∙ replace-around c l path t found
      ∙ ap (around path) (sym (append-nil (entries l)))
  unlink_at-around c (node lc ll le lr) e (node rc rl re rr) path n root h =
      let (tc, te, tr, below) = leftmost rl rc re rr [] in
      let above : List (Frame T) =
        record { side = right; color = c; fields = te; sibling = node lc ll le lr } ∷ path in
      let (t, found, k) =
        bind-some (red_black_balancing tc tr (below ++ above)) (λ t. some (te.count, t)) h in
      ap (λ x. entries x.1) (of-some (sym k))
      ∙ red_black_balancing-around tc tr (below ++ above) t found
      ∙ around-append below above (entries tr)
      ∙ ap (λ es. around path (entries (node lc ll le lr) ++ es))
          (sym (leftmost-around rl rc re rr [] tt))

  -- Removing a key round a place can be done at the place.
  abbrev Fits : ℕ → List (Frame T) → Type ℓ
  Fits key path = (es : List (Entry T)) → remove key (around path es) ≡ around path (remove key es)

  Fits-left :
      (key : ℕ) (path : List (Frame T)) (c : NodeColor) (e : Entry T) (r : Node T)
      → key < e.key
      → AllGt e.key (entries r)
      → Fits key path
      → Fits key (record { side = left; color = c; fields = e; sibling = r } ∷ path)
  Fits-left key path c e r h gt fits es =
      fits (es ++ e ∷ entries r)
      ∙ ap (around path)
          (remove_left key es (e ∷ entries r) (h, AllGt-mono key e.key (entries r) h gt))

  Fits-right :
      (key : ℕ) (path : List (Frame T)) (c : NodeColor) (e : Entry T) (l : Node T)
      → e.key < key
      → AllLt e.key (entries l)
      → Fits key path
      → Fits key (record { side = right; color = c; fields = e; sibling = l } ∷ path)
  unfolding remove
  Fits-right key path c e l h lt fits es =
      fits (entries l ++ e ∷ es)
      ∙ ap (around path) (
          remove_right key (entries l) (e ∷ es) (AllLt-mono e.key key (entries l) h lt)
          ∙ ground arith)

  -- What a search has found: the whole tree round its place, and the key's node there, if any.
  abbrev Found : ℕ → List (Entry T) → Node T × List (Frame T) → Type ℓ
  Found key es (nil, path) = (around path [] ≡ es) × Fits key path
  Found key es (node c l e r, path) = remove key es ≡ around path (entries l ++ entries r)

  locate-Found :
      (t : Node T) (key : ℕ) (path : List (Frame T))
      → IsOrdered t
      → Fits key path
      → Found key (around path (entries t)) (locate t key path)
  unfolding locate remove
  locate-Found nil key path s fits = (refl, fits)
  locate-Found (node c l e r) key path s fits =
      let (lt, gt, sl, sr) = IsSorted-split (entries l) e (entries r) s in
      elim (dec_lt key e.key) [
        | yes h ↦
            let deeper =
              locate-Found l key (record { side = left; color = c; fields = e; sibling = r } ∷ path)
                sl (Fits-left key path c e r h gt fits) in
            rw (lt→ltb key e.key h) deeper
        | no nlt ↦ elim (dec_lt e.key key) [
          | yes h ↦
              let deeper =
                locate-Found r key
                  (record { side = right; color = c; fields = e; sibling = l } ∷ path) sr
                  (Fits-right key path c e l h lt fits) in
              rw (ltb-false key e.key nlt, lt→ltb e.key key h) deeper
          | no ngt ↦
              let same : key ≡ e.key = omega arith in
              rw (ltb-false key e.key nlt, ltb-false e.key key ngt)
                (fits (entries l ++ e ∷ entries r)
                  ∙ ap (around path)
                      (remove_right key (entries l) (e ∷ entries r) (rw same lt) ∙ ground arith))
        ]
      ]

  -- If the tree is a search tree and `Delete` returns, then the key's entry is gone, and the others
  -- stay.
  pub entries-delete :
      (t t' : RbTree T) (key n : ℕ)
      → IsOrdered t.root
      → delete t key ≡ some (n, t')
      → entries t'.root ≡ remove key (entries t.root)
  unfolding delete remove
  entries-delete t t' key n s h =
      let found = locate-Found t.root key [] s (λ es. refl) in
      deleted (locate t.root key []) refl found
    where
      deleted :
          (place : Node T × List (Frame T))
          → locate t.root key [] ≡ place
          → Found key (entries t.root) place
          → entries t'.root ≡ remove key (entries t.root)
      deleted (nil, path) e (same, fits) =
          let got : some t.root ≡ some t'.root = ground (arith, h, e) in
          ap entries (of-some (sym got)) ∙ sym (ap (remove key) (sym same) ∙ fits [] ∙ same)
      deleted (node c l x r, path) e gone = elim (Option-cases (unlink_at (node c l x r) path)) [
        | inl none_left ↦ ground (arith, h, e, none_left)
        | inr ((m, root), k) ↦
            let got : some root ≡ some t'.root = ground (arith, h, e, k) in
            ap entries (of-some (sym got)) ∙ unlink_at-around c l x r path m root k ∙ sym gone
      ]
