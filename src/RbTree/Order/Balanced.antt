-- ===== src/RbTree/Order/Balanced.antt =====
-- `RBtree::RedBlackBalancing` and the entries of the tree.
use game_server_portfolio.Base.{
  ℕ, zero, suc, ◌+◌, ◌*◌, ◌≡◌, refl, sym, ap, ◌∙◌, some, List, [], ◌∷◌, ◌++◌, arith, length,
  Option-cases, of-some, inl, inr,
}
use game_server_portfolio.Entries.{Entry}
use game_server_portfolio.RbTree.{
  NodeColor, black, red, Node, nil, node, Side, left, right, Frame, other, color_of, blacken, make,
  plug, rotate, down,
}
use game_server_portfolio.RbTree.Delete.{
  inside, outside, red_sibling, red_inside, red_outside, balance, red_black_balancing, replace,
}
use game_server_portfolio.RbTree.Order.{
  color_cases, entries, beside, around, entries-make, entries-plug, entries-blacken, entries-rotate,
  entries-down,
}

module _ {ℓ} {T : Type ℓ} where
  -- a sibling, by its inner and outer child
  entries-inside :
      (s : Side) (c : NodeColor) (l r u w : Node T) (e : Entry T)
      → entries u ≡ entries (inside s l r)
      → entries w ≡ entries (outside s l r)
      → entries (make s u c e w) ≡ entries l ++ e ∷ entries r
  entries-inside left c l r u w e h k = ground (arith, h, k)
  entries-inside right c l r u w e h k = ground (arith, h, k)

  red_sibling-around :
      (child again : Node T) (p g f : Frame T)
      → red_sibling child p ≡ some (again, g, f)
      → beside f.side
          (beside g.side (entries again) g.fields (entries g.sibling))
          f.fields
          (entries f.sibling)
        ≡ beside p.side (entries child) p.fields (entries p.sibling)
  unfolding red_sibling
  red_sibling-around child again p g f h =
      let turned = make p.side child red p.fields (blacken p.sibling) in
      elim (Option-cases (rotate p.side turned)) [
        | inl e ↦ ground (arith, e)
        | inr (t, e) ↦ elim (Option-cases (down p.side t)) [
          | inl e' ↦ ground (arith, e, e')
          | inr ((parent, f'), e') ↦ elim (Option-cases (down p.side parent)) [
            | inl e'' ↦ ground (arith, e, e', e'')
            | inr ((a, g'), e'') ↦
                let outer = entries-down p.side t parent f' e' in
                let inner = entries-down p.side parent a g' e'' in
                let rot = entries-rotate p.side turned t e in
                let made = entries-make p.side child red p.fields (blacken p.sibling) in
                let same = entries-blacken p.sibling in
                let got : red_sibling child p ≡ some (a, g', f') = ground (arith, e, e', e'') in
                ap
                  (λ x.
                    beside x.2.side (beside x.1.side (entries x.0) x.1.fields (entries x.1.sibling))
                      x.2.fields (entries x.2.sibling))
                  (of-some (sym h ∙ got))
                ∙ ap (λ es. beside f'.side es f'.fields (entries f'.sibling)) inner
                ∙ outer
                ∙ rot
                ∙ made
                ∙ ap (beside p.side (entries child) p.fields) same
          ]
        ]
      ]

  red_outside-around :
      (child t : Node T) (p : Frame T) (e : Entry T) (l r : Node T)
      → red_outside child p (inside p.side l r) e (outside p.side l r) ≡ some t
      → entries t ≡ beside p.side (entries child) p.fields (entries l ++ e ∷ entries r)
  unfolding red_outside
  red_outside-around child t p e l r h =
      let sibling = make p.side (inside p.side l r) p.color e (blacken (outside p.side l r)) in
      entries-rotate p.side (make p.side child black p.fields sibling) t h
      ∙ entries-make p.side child black p.fields sibling
      ∙ ap (beside p.side (entries child) p.fields) (
          entries-inside p.side p.color l r (inside p.side l r) (blacken (outside p.side l r)) e
            refl (entries-blacken (outside p.side l r)))

  red_inside-entries :
      (s : Side) (t : Node T) (e : Entry T) (l r : Node T)
      → red_inside s (inside s l r) e (outside s l r) ≡ some t
      → entries t ≡ entries l ++ e ∷ entries r
  unfolding red_inside
  red_inside-entries s t e l r h =
      entries-rotate (other s) (make s (blacken (inside s l r)) red e (outside s l r)) t h
      ∙ entries-inside s red l r (blacken (inside s l r)) (outside s l r) e
          (entries-blacken (inside s l r)) refl

  -- One round of the loop of `RedBlackBalancing`, where the next ones keep the entries.
  round-around :
      (fuel : ℕ) (child : Node T) (s : Side) (c : NodeColor) (x : Entry T) (sibling : Node T)
      (path : List (Frame T)) (root : Node T)
      → ((u : Node T) (up_path : List (Frame T))
          → balance fuel u up_path ≡ some root
          → entries root ≡ around up_path (entries u))
      → color_of child ≡ black
      → balance
          (suc fuel)
          child
          (record { side = s; color = c; fields = x; sibling = sibling } ∷ path)
        ≡ some root
      → entries root ≡ around path (beside s (entries child) x (entries sibling))
  unfolding balance
  round-around fuel child s c x nil path root next k h = ground (arith, k)
  round-around fuel child s c x (node red l e r) path root next k h =
      let p : Frame T = record { side = s; color = c; fields = x; sibling = node red l e r } in
      elim (Option-cases (red_sibling child p)) [
        | inl none_left ↦ ground (arith, k, none_left)
        | inr ((again, g, f), found) ↦
            next again (g ∷ f ∷ path) (ground (arith, k, found, h))
            ∙ ap (around path) (red_sibling-around child again p g f found)
      ]
  round-around fuel child s c x (node black l e r) path root next k h =
      let p : Frame T = record { side = s; color = c; fields = x; sibling = node black l e r } in
      elim (color_cases (color_of (outside s l r))) [
        | inr out_red ↦ elim (Option-cases (red_outside child p (inside s l r) e (outside s l r))) [
          | inl none_left ↦ ground (arith, k, out_red, none_left)
          | inr (t, found) ↦
              let got : some (plug t path) ≡ some root = ground (arith, k, out_red, found, h) in
              ap entries (of-some (sym got))
              ∙ entries-plug t path
              ∙ ap (around path) (red_outside-around child t p e l r found)
        ]
        | inl out_black ↦ elim (color_cases (color_of (inside s l r))) [
          | inl in_black ↦
              next (make s child c x (node red l e r)) path
                (ground (arith, k, out_black, in_black, h))
              ∙ ap (around path) (entries-make s child c x (node red l e r))
          | inr in_red ↦ elim (Option-cases (red_inside s (inside s l r) e (outside s l r))) [
            | inl none_left ↦ ground (arith, k, out_black, in_red, none_left)
            | inr (t, found) ↦
                next child (record { side = s; color = c; fields = x; sibling = t } ∷ path)
                  (ground (arith, k, out_black, in_red, found, h))
                ∙ ap (λ es. around path (beside s (entries child) x es))
                    (red_inside-entries s t e l r found)
          ]
        ]
      ]

  -- The loop of `RedBlackBalancing` keeps the entries.
  balance-around :
      (fuel : ℕ) (child : Node T) (path : List (Frame T)) (root : Node T)
      → balance fuel child path ≡ some root
      → entries root ≡ around path (entries child)
  unfolding balance
  balance-around zero child path root h = cc
  balance-around (suc fuel) child [] root h = ap entries (of-some (sym h))
  balance-around (suc fuel) child (p ∷ path) root h = elim (color_cases (color_of child)) [
    | inl k ↦
        round-around fuel child p.side p.color p.fields p.sibling path root
          (λ u ps. balance-around fuel u ps root) k h
    | inr k ↦
        let got : some (plug (blacken child) (p ∷ path)) ≡ some root = ground (arith, k, h) in
        ap entries (of-some (sym got))
        ∙ entries-plug (blacken child) (p ∷ path)
        ∙ ap (around (p ∷ path)) (entries-blacken child)
  ]

  pub red_black_balancing-around :
      (c : NodeColor) (child : Node T) (path : List (Frame T)) (root : Node T)
      → red_black_balancing c child path ≡ some root
      → entries root ≡ around path (entries child)
  unfolding red_black_balancing
  red_black_balancing-around red child path root h =
      ap entries (of-some (sym h)) ∙ entries-plug child path
  red_black_balancing-around black child path root h =
      balance-around (3 * length path + 5) child path root h

  pub replace-around :
      (c : NodeColor) (child : Node T) (path : List (Frame T)) (root : Node T)
      → replace c child path ≡ some root
      → entries root ≡ around path (entries child)
  unfolding replace
  replace-around c child [] root h =
      red_black_balancing-around c (blacken child) [] root h ∙ entries-blacken child
  replace-around c child (f ∷ path) root h = red_black_balancing-around c child (f ∷ path) root h
