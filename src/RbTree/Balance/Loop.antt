-- ===== src/RbTree/Balance/Loop.antt =====
-- The loop of `RBtree::Insert`, by the cases of the source.
use game_server_portfolio.Base.{
  ℕ, zero, suc, ◌+◌, ◌≤◌, ◌≡◌, refl, sym, ap, ◌∙◌, true, false, none, some, List, [], ◌∷◌, arith,
  ◌⊎◌, inl, inr, length, subst,
}
use game_server_portfolio.Entries.{Entry}
use game_server_portfolio.RbTree.{
  NodeColor, black, red, Node, nil, node, Side, left, right, Frame, other, color_of, blacken, make,
  plug, rotate, rotate_left, rotate_right,
}
use game_server_portfolio.RbTree.Insert.{insert_outer, insert_inner, insert_loop, same_side}
use game_server_portfolio.RbTree.Order.{color_cases}
use game_server_portfolio.RbTree.Balance.{
  plus_black, MayBe-root, height, IsRb, IsRedBlack, PathRb, color_of-make, plug-IsRedBlack,
}

same_side_cases : (s g : Side) → (s ≡ g) × (same_side s g ≡ true) ⊎ (same_side s g ≡ false)
same_side_cases left left = inl (refl, refl)
same_side_cases left right = inr refl
same_side_cases right left = inr refl
same_side_cases right right = inl (refl, refl)

same_side_refl : (s g : Side) → s ≡ g → same_side s g ≡ true
same_side_refl left left h = refl
same_side_refl left right h = cc
same_side_refl right left h = cc
same_side_refl right right h = refl

module _ {ℓ} {T : Type ℓ} where
  -- Case 3, on the grandparent: the parent comes up, black, over `curr` and the grandparent.
  turn_outer :
      (s : Side) (curr : Node T) (pe ge : Entry T) (psib gsib : Node T)
      → rotate (other s) (make s (make s curr black pe psib) red ge gsib)
        ≡ some (make s curr black pe (make s psib red ge gsib))
  unfolding rotate_left rotate_right
  turn_outer left curr pe ge psib gsib = refl
  turn_outer right curr pe ge psib gsib = refl

  -- Case 3 leaves a black node of the same height in the grandparent's place.
  outer-IsRb :
      (s : Side) (curr : Node T) (pe ge : Entry T) (psib gsib : Node T)
      → IsRb curr
      → IsRb psib
      → IsRb gsib
      → height psib ≡ height curr
      → height gsib ≡ height curr
      → color_of psib ≡ black
      → color_of gsib ≡ black
      → IsRb (make s curr black pe (make s psib red ge gsib))
        × (height (make s curr black pe (make s psib red ge gsib)) ≡ suc (height curr))
  outer-IsRb left curr pe ge psib gsib a b c h k m n = ground arith
  outer-IsRb right curr pe ge psib gsib a b c h k m n = ground arith

  -- Case 1 leaves a red node of the same height in the grandparent's place.
  recoloured-IsRb :
      (s g : Side) (curr : Node T) (pe ge : Entry T) (psib gsib : Node T)
      → IsRb curr
      → IsRb psib
      → IsRb gsib
      → height psib ≡ height curr
      → height gsib ≡ height curr
      → color_of gsib ≡ red
      → IsRb (make g (make s curr black pe psib) red ge (blacken gsib))
        × (height (make g (make s curr black pe psib) red ge (blacken gsib)) ≡ suc (height curr))
  recoloured-IsRb s g curr pe ge psib nil a b c h k m = cc
  recoloured-IsRb left left curr pe ge psib (node d l e r) a b c h k m = ground arith
  recoloured-IsRb left right curr pe ge psib (node d l e r) a b c h k m = ground arith
  recoloured-IsRb right left curr pe ge psib (node d l e r) a b c h k m = ground arith
  recoloured-IsRb right right curr pe ge psib (node d l e r) a b c h k m = ground arith

  -- A red node under a red parent on one side of it, the parent on the other side of its own: what
  -- case 2 makes of the two.
  abbrev Straight : Side → Node T → Frame T → Node T → Frame T → Type ℓ
  Straight s curr p u f =
      (insert_inner curr p s ≡ some (u, f))
      × IsRb u
      × (color_of u ≡ red)
      × (height u ≡ height curr)
      × IsRb f.sibling
      × (height f.sibling ≡ height curr)
      × (color_of f.sibling ≡ black)
      × (f.color ≡ red)
      × (f.side ≡ s)

  inner-Straight :
      (s g : Side) (e : Entry T) (psib curr : Node T)
      → same_side s g ≡ false
      → IsRb curr
      → color_of curr ≡ red
      → IsRb psib
      → height psib ≡ height curr
      → color_of psib ≡ black
      → (u : Node T) × (f : Frame T) × Straight g curr
          (record { side = s; color = red; fields = e; sibling = psib })
          u
          f
  unfolding insert_inner rotate_left rotate_right
  inner-Straight s g e psib nil x a k b h m = cc
  inner-Straight left left e psib (node c l ce r) x a k b h m = cc
  inner-Straight left right e psib (node black l ce r) x a k b h m = cc
  inner-Straight left right e psib (node red l ce r) x a k b h m = (
    node red r e psib,
    record { side = right; color = red; fields = ce; sibling = l },
    (refl, ground arith, refl, ground arith, ground arith, ground arith, ground arith, refl, refl),
  )
  inner-Straight right left e psib (node black l ce r) x a k b h m = cc
  inner-Straight right left e psib (node red l ce r) x a k b h m = (
    node red psib e l,
    record { side = left; color = red; fields = ce; sibling = r },
    (refl, ground arith, refl, ground arith, ground arith, ground arith, ground arith, refl, refl),
  )
  inner-Straight right right e psib (node c l ce r) x a k b h m = cc

  -- What case 3 puts in the grandparent's place keeps the rules of the whole tree.
  outer-Good :
      (curr : Node T) (p g : Frame T) (path : List (Frame T))
      → p.side ≡ g.side
      → IsRb curr
      → IsRb p.sibling
      → IsRb g.sibling
      → height p.sibling ≡ height curr
      → height g.sibling ≡ height curr
      → color_of p.sibling ≡ black
      → color_of g.sibling ≡ black
      → PathRb path (suc (height curr))
      → (root : Node T) × (insert_outer curr p g path ≡ some root) × IsRedBlack root
  unfolding insert_outer
  outer-Good curr p g path same a b c h k m n o =
      let (rules, high) =
        outer-IsRb g.side curr p.fields g.fields p.sibling g.sibling a b c h k m n in
      let colour =
        color_of-make g.side curr black p.fields (make g.side p.sibling red g.fields g.sibling) in
      let turned = make g.side curr black p.fields (make g.side p.sibling red g.fields g.sibling) in
      (
        plug turned path,
        ap (λ x. elim x [ none ↦ none | some t ↦ some (plug t path) ])
            (ap
                (λ s.
                  rotate (other g.side)
                    (make g.side (make s curr black p.fields p.sibling) red g.fields g.sibling))
                same
              ∙ turn_outer g.side curr p.fields g.fields p.sibling g.sibling),
        plug-IsRedBlack turned path rules (rw colour tt) (rw high o),
      )

  -- Below a black parent, a red node keeps the rules.
  attached-Good :
      (curr : Node T) (p : Frame T) (path : List (Frame T))
      → IsRb curr
      → color_of curr ≡ red
      → p.color ≡ black
      → PathRb (p ∷ path) (height curr)
      → IsRedBlack (plug curr (p ∷ path))
  attached-Good curr p path a k e o = plug-IsRedBlack curr (p ∷ path) a (rw (k, e) refl) o

  abbrev pub Loops : ℕ → Node T → List (Frame T) → Type ℓ
  Loops fuel curr path =
      (root : Node T) × (insert_loop fuel curr path ≡ some root) × IsRedBlack root

  blacken-Good : (t : Node T) → IsRb t → IsRedBlack (blacken t)
  blacken-Good nil a = record { rules = tt; root_black = refl }
  blacken-Good (node c l e r) a = record { rules = (a.0, a.1, a.2, tt); root_black = refl }

  -- One round of the loop under a parent of this colour, the next ones being good.
  round-Good :
      (fuel : ℕ) (curr : Node T) (s : Side) (c : NodeColor) (e : Entry T) (psib : Node T)
      (g : Frame T) (path : List (Frame T))
      → ((u : Node T)
          → IsRb u
          → color_of u ≡ red
          → PathRb path (height u)
          → Loops (suc fuel) u path)
      → IsRb curr
      → color_of curr ≡ red
      → PathRb (record { side = s; color = c; fields = e; sibling = psib } ∷ g ∷ path) (height curr)
      → Loops
          (suc (suc fuel))
          curr
          (record { side = s; color = c; fields = e; sibling = psib } ∷ g ∷ path)
  unfolding insert_loop
  round-Good fuel curr s black e psib g path next a k o = (
    plug curr (record { side = s; color = black; fields = e; sibling = psib } ∷ g ∷ path),
    refl,
    attached-Good curr (record { side = s; color = black; fields = e; sibling = psib }) (g ∷ path) a
        k refl o,
  )
  round-Good fuel curr s red e psib g path next a k (b, h, m, black_grand, (d, i, j, q, w)) =
      let higher : PathRb path (suc (height curr)) =
        subst (λ c. PathRb path (plus_black c (height curr))) black_grand w in
      elim (color_cases (color_of g.sibling)) [
        | inl uncle ↦ elim (same_side_cases s g.side) [
          | inl (same, yes_same) ↦
              let (root, runs, good) =
                outer-Good curr (record { side = s; color = red; fields = e; sibling = psib }) g
                  path same a b d h i m uncle higher in
              (root, ground (arith, uncle, yes_same, runs), good)
          | inr differ ↦
              let (u, f, step) = inner-Straight s g.side e psib curr differ a k b h m in
              let (straight, ru, ku, hu, rf, hf, mf, redf, sf) = step in
              let (root, runs, good) =
                outer-Good u f g path sf ru rf d (hf ∙ sym hu) (i ∙ sym hu) mf uncle
                  (rw hu higher) in
              (
                root,
                ground
                    (arith, uncle, differ, straight, runs, redf, same_side_refl f.side g.side sf),
                good,
              )
        ]
        | inr uncle ↦
            let (rules, high) =
              recoloured-IsRb s g.side curr e g.fields psib g.sibling a b d h i uncle in
            let raised = make g.side (make s curr black e psib) red g.fields (blacken g.sibling) in
            let (root, runs, good) =
              next raised rules
                (color_of-make g.side (make s curr black e psib) red g.fields (blacken g.sibling))
                (rw high higher) in
            (root, ground (arith, uncle, runs), good)
      ]

  -- The loop, from a red node whose place keeps the rules: it returns a red-black tree.
  pub loop-Good :
      (fuel : ℕ) (curr : Node T) (path : List (Frame T))
      → length path + 2 ≤ fuel
      → IsRb curr
      → color_of curr ≡ red
      → PathRb path (height curr)
      → Loops fuel curr path
  unfolding insert_loop
  loop-Good zero curr path h a k o = absurd (omega arith)
  loop-Good (suc fuel) curr [] h a k o = (blacken curr, refl, blacken-Good curr a)
  loop-Good (suc fuel) curr (p ∷ []) h a k o =
      let e = MayBe-root p.color o.3 in
      (plug curr (p ∷ []), ground (arith, e), attached-Good curr p [] a k e o)
  loop-Good (suc zero) curr (p ∷ g ∷ path) h a k o = absurd (omega arith)
  loop-Good (suc (suc fuel)) curr (p ∷ g ∷ path) h a k o =
      round-Good fuel curr p.side p.color p.fields p.sibling g path
        (λ u b c d. loop-Good (suc fuel) u path (omega arith) b c d) a k o
