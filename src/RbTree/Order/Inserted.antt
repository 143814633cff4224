-- ===== src/RbTree/Order/Inserted.antt =====
-- `RBtree::Insert` and the entries of the tree.
use native.Mathlib.Decide.{dec_lt}
use game_server_portfolio.Base.{
  ℕ, zero, suc, ◌+◌, ◌<◌, ◌≡◌, refl, sym, ap, ◌∙◌, Bool, true, some, List, [], ◌∷◌, ◌++◌, arith,
  length, Option-cases, of-some, bind-some, lt→ltb, ltb-false, inl, inr,
}
use game_server_portfolio.Entries.{Entry, add}
use game_server_portfolio.Entries.Sorted.{AllLt, AllLt-mono}
use game_server_portfolio.Entries.Split.{IsSorted-split, add_left, add_right}
use game_server_portfolio.RbTree.{
  NodeColor, black, red, Node, nil, node, Side, left, right, Frame, RbTree, other, blacken, make,
  up, plug, rotate, down,
}
use game_server_portfolio.RbTree.Insert.{
  Search, counted, place, search_place, insert_outer, insert_inner, insert_loop, insert_at, insert,
  new_node,
}
use game_server_portfolio.RbTree.Order.{
  entries, beside, around, IsOrdered, entries-make, entries-plug, entries-blacken, entries-rotate,
  entries-down,
}

module _ {ℓ} {T : Type ℓ} where
  -- the entries of a node with a child, its colour being of no account
  entries-up :
      (t u : Node T) (f : Frame T) (c : NodeColor)
      → entries t ≡ entries u
      → entries (up t (record f { color = c }))
        ≡ beside f.side (entries u) f.fields (entries f.sibling)
  entries-up t u f c h =
      entries-make f.side t c f.fields f.sibling
      ∙ ap (λ es. beside f.side es f.fields (entries f.sibling)) h

  insert_outer-around :
      (curr : Node T) (p g : Frame T) (path : List (Frame T)) (root : Node T)
      → insert_outer curr p g path ≡ some root
      → entries root ≡ around (p ∷ g ∷ path) (entries curr)
  unfolding insert_outer
  insert_outer-around curr p g path root h =
      let parent = up curr (record p { color = black }) in
      let grand = up parent (record g { color = red }) in
      let (t, turned, e) = bind-some (rotate (other g.side) grand) (λ t. some (plug t path)) h in
      ap entries (of-some (sym e))
      ∙ entries-plug t path
      ∙ ap (around path) (
          entries-rotate (other g.side) grand t turned
          ∙ entries-up parent (up curr p) g red (
              entries-make p.side curr black p.fields p.sibling
              ∙ sym (entries-make p.side curr p.color p.fields p.sibling))
          ∙ ap (λ es. beside g.side es g.fields (entries g.sibling))
              (entries-make p.side curr p.color p.fields p.sibling))

  insert_inner-around :
      (curr u : Node T) (p f : Frame T) (s : Side)
      → insert_inner curr p s ≡ some (u, f)
      → beside f.side (entries u) f.fields (entries f.sibling)
        ≡ beside p.side (entries curr) p.fields (entries p.sibling)
  unfolding insert_inner
  insert_inner-around curr u p f s h =
      let (t, turned, e) = bind-some (rotate s (up curr p)) (down s) h in
      entries-down s t u f e
      ∙ entries-rotate s (up curr p) t turned
      ∙ entries-make p.side curr p.color p.fields p.sibling

  -- What the loop returns has the entries of the tree that it was given.
  insert_loop-around :
      (fuel : ℕ) (curr : Node T) (path : List (Frame T)) (root : Node T)
      → insert_loop fuel curr path ≡ some root
      → entries root ≡ around path (entries curr)
  unfolding insert_loop
  insert_loop-around zero curr path root h = cc
  insert_loop-around (suc fuel) curr [] root h = ap entries (of-some (sym h)) ∙ entries-blacken curr
  insert_loop-around (suc fuel) curr (p ∷ []) root h = ground (arith, entries-plug curr (p ∷ []))
  insert_loop-around (suc fuel) curr (p ∷ g ∷ path) root h =
      let black_parent = up curr (record p { color = black }) in
      let parent = entries-make p.side curr black p.fields p.sibling in
      let raised = make g.side black_parent red g.fields (blacken g.sibling) in
      let kept = entries-plug curr (p ∷ g ∷ path) in
      let recoloured = insert_loop-around fuel raised path root in
      let outer = insert_outer-around curr p g path root in
      let grand = entries-make g.side black_parent red g.fields (blacken g.sibling) in
      let uncle = entries-blacken g.sibling in
      elim (Option-cases (insert_inner curr p g.side)) [
        | inl e ↦ ground (arith, kept, recoloured, outer, grand, parent, uncle)
        | inr ((c, f), e) ↦ ground (
          arith,
          kept,
          recoloured,
          outer,
          grand,
          parent,
          uncle,
          insert_inner-around curr c p f g.side e,
          insert_loop-around fuel c (f ∷ g ∷ path) root,
        )
      ]

  -- Adding a key round a place can be done at the place.
  abbrev Fits : ℕ → T → List (Frame T) → Type ℓ
  Fits key value path =
      (es : List (Entry T)) → add key value (around path es) ≡ around path (add key value es)

  Fits-left :
      (key : ℕ) (value : T) (path : List (Frame T)) (c : NodeColor) (e : Entry T) (r : Node T)
      → key < e.key
      → Fits key value path
      → Fits key value (record { side = left; color = c; fields = e; sibling = r } ∷ path)
  Fits-left key value path c e r h fits es =
      fits (es ++ e ∷ entries r) ∙ ap (around path) (add_left key value es e (entries r) h)

  Fits-right :
      (key : ℕ) (value : T) (path : List (Frame T)) (c : NodeColor) (e : Entry T) (l : Node T)
      → e.key < key
      → AllLt e.key (entries l)
      → Fits key value path
      → Fits key value (record { side = right; color = c; fields = e; sibling = l } ∷ path)
  unfolding add
  Fits-right key value path c e l h lt fits es =
      fits (entries l ++ e ∷ es)
      ∙ ap (around path) (
          add_right key value (entries l) (e ∷ es) (AllLt-mono e.key key (entries l) h lt)
          ∙ ground arith)

  -- What a search has found, against the entries before the insertion.
  abbrev Found : ℕ → T → List (Entry T) → Search T → Type ℓ
  Found key value es (counted root) = entries root ≡ add key value es
  Found key value es (place path) =
      around path (record { key = key; value = value; count = 1 } ∷ []) ≡ add key value es

  search_place-Found :
      (t : Node T) (key : ℕ) (value : T) (path : List (Frame T))
      → IsOrdered t
      → Fits key value path
      → Found key value (around path (entries t)) (search_place t key path)
  unfolding search_place add
  search_place-Found nil key value path s fits = sym (fits [])
  search_place-Found (node c l e r) key value path s fits =
      let (lt, gt, sl, sr) = IsSorted-split (entries l) e (entries r) s in
      elim (dec_lt key e.key) [
        | yes h ↦
            let deeper =
              search_place-Found l key value
                (record { side = left; color = c; fields = e; sibling = r } ∷ path) sl
                (Fits-left key value path c e r h fits) in
            rw (lt→ltb key e.key h) deeper
        | no nlt ↦ elim (dec_lt e.key key) [
          | yes h ↦
              let deeper =
                search_place-Found r key value
                  (record { side = right; color = c; fields = e; sibling = l } ∷ path) sr
                  (Fits-right key value path c e l h lt fits) in
              rw (ltb-false key e.key nlt, lt→ltb e.key key h) deeper
          | no ngt ↦
              let same : key ≡ e.key = omega arith in
              rw (ltb-false key e.key nlt, ltb-false e.key key ngt)
                (entries-plug (node c l (record e { count = e.count + 1 }) r) path
                  ∙ sym (
                      fits (entries l ++ e ∷ entries r)
                      ∙ ap (around path) (
                          add_right key value (entries l) (e ∷ entries r) (rw same lt)
                          ∙ ground arith)))
        ]
      ]

  insert_at-entries :
      (found : Search T) (key : ℕ) (value : T) (es : List (Entry T)) (made : Bool) (root : Node T)
      → Found key value es found
      → insert_at found key value ≡ some (made, root)
      → entries root ≡ add key value es
  insert_at-entries (counted t) key value es made root f h = ground arith
  insert_at-entries (place []) key value es made root f h = ground arith
  insert_at-entries (place (p ∷ path)) key value es made root f h =
      let fuel = suc (suc (length (p ∷ path))) in
      let (t, looped, e) =
        bind-some (insert_loop fuel (new_node red key value) (p ∷ path)) (λ t. some (true, t)) h in
      ground (arith, e, insert_loop-around fuel (new_node red key value) (p ∷ path) t looped)

  -- If the tree is a search tree and `Insert` returns, then on the entries it was `add`: a new key
  -- gets an entry of count 1 with the value given, a key that is there is counted once more.
  pub entries-insert :
      (t t' : RbTree T) (key : ℕ) (value : T)
      → IsOrdered t.root
      → insert t key value ≡ some t'
      → entries t'.root ≡ add key value (entries t.root)
  unfolding insert
  entries-insert t t' key value s h =
      elim (Option-cases (insert_at (search_place t.root key []) key value)) [
        | inl e ↦ ground (arith, e)
        | inr ((made, root), e) ↦ ground (
          arith,
          e,
          insert_at-entries (search_place t.root key []) key value (entries t.root) made root
              (search_place-Found t.root key value [] s (λ es. refl)) e,
        )
      ]
