-- ===== src/ObjectPool/Free.antt =====
-- util/Util/ObjectPool.h: `Free`, and the destructor.
use native.Mathlib.Decide.{ℕ_discrete}
use game_server_portfolio.Base.{
  ℕ, zero, suc, ◌+◌, ◌<◌, ◌≤◌, ◌≡◌, ◌≢◌, refl, sym, ap, subst, ◌∙◌, ◌⊎◌, inl, inr, true, false, not,
  List, [], ◌∷◌, none, some, ◌==◌, if◌then◌else◌, length, count, remove_first, count-remove_first,
  Bool-cases, arith,
}
use game_server_portfolio.ObjectPool.{
  Node, ObjectPool, find, put, delete, read_cookie, push, free, free_stack_memory,
}
use game_server_portfolio.ObjectPool.Heap.{
  find-put_self, find-put_ne, find-delete_ne, NodeAt, Chain, Live, Represents, Keeps, Keeps-Chain,
  Keeps-Live,
}

count-Live :
    (v : ObjectPool) (stacked live : List ℕ) (a : ℕ)
    → Represents v stacked live
    → 0 < count a live
    → Live v.nodes v.object_pool_id a
count-Live v stacked live a r h = elim (r.live_ok a) [
  | inl absent ↦ absurd (omega arith)
  | inr l ↦ l
]

push-Represents :
    (v : ObjectPool) (stacked live : List ℕ) (a : ℕ) (x : NodeAt v.nodes v.object_pool_id a)
    → Represents v stacked live
    → 0 < count a live
    → x.node.alive ≡ true
    → Represents (push v a x.node) (a ∷ stacked) (remove_first a live)
unfolding push
push-Represents v stacked live a x r h alive =
    let id = v.object_pool_id in
    let node : Node = record (x.node) {
      alive = if v.placement_new then false else x.node.alive;
      stack_next = v.stack_top;
    } in
    let ns : List (ℕ × Node) = put a node v.nodes in
    let others : (b : ℕ) → a ≢ b → find b ns ≡ find b v.nodes =
      λ b ne. find-put_ne b a node v.nodes (λ e. ne (sym e)) in
    let left : (b : ℕ) → count b (remove_first a live) + (if a == b then 1 else 0) ≡ count b live =
      λ b. count-remove_first b a live h in
    let kept : Keeps stacked v.nodes ns = λ b. elim (ℕ_discrete a b) [
      | yes e ↦ inl (ground (arith, e, r.once b, h))
      | no ne ↦ inr (others b ne)
    ] in
    let here : NodeAt ns id a = record {
      node = node;
      found = find-put_self a node x.node v.nodes x.found;
      of_pool = x.of_pool;
      not_null = x.not_null;
    } in
    let dead : node.alive ≡ not v.placement_new = elim (Bool-cases v.placement_new) [
      | inl anew ↦ ground (arith, anew)
      | inr kept ↦ ground (arith, kept, alive)
    ] in
    record {
      id_in = r.id_in;
      chain = (
        refl,
        v.stack_top,
        (here, refl, dead),
        Keeps-Chain v.nodes ns id v.placement_new v.stack_top stacked kept r.chain,
      );
      live_ok = λ b. elim (ℕ_discrete a b) [
        | yes e ↦ inl (ground (arith, e, left b, r.once b))
        | no ne ↦ elim (r.live_ok b) [
          | inl absent ↦ inl (ground (arith, absent, left b))
          | inr l ↦ inr (Keeps-Live v.nodes ns id b (others b ne) l)
        ]
      ];
      once = λ b. ground (arith, r.once b, left b);
      counted = omega (arith, r.counted);
    }

-- `Free` of a node that is handed out returns and puts it on the top of the stack. If it is freed
-- again at once, that is refused, unless the lower half of the pointer to the node below it is the
-- pool's id.
pub free_refines :
    (v : ObjectPool) (stacked live : List ℕ) (a : ℕ)
    → Represents v stacked live
    → 0 < count a live
    → (v' : ObjectPool) × (free v a ≡ some (true, v'))
      × Represents v' (a ∷ stacked) (remove_first a live)
      × ((free v' a ≡ some (false, v')) ⊎ (read_cookie v.stack_top ≡ v.object_pool_id))
unfolding free push
free_refines v stacked live a r h =
    let (x, cookie, alive) = count-Live v stacked live a r h in
    let v' = push v a x.node in
    let r' = push-Represents v stacked live a x r h alive in
    let node : Node = record (x.node) {
      alive = if v.placement_new then false else x.node.alive;
      stack_next = v.stack_top;
    } in
    let below : find a v'.nodes ≡ some node = find-put_self a node x.node v.nodes x.found in
    let again : (free v' a ≡ some (false, v')) ⊎ (read_cookie v.stack_top ≡ v.object_pool_id) =
      elim (ℕ_discrete (read_cookie v.stack_top) v.object_pool_id) [
        | yes e ↦ inr e
        | no ne ↦ inl (ground (arith, below, x.of_pool, ne))
      ] in
    (v', ground (arith, x.found, x.of_pool, cookie, alive), r', again)

-- The loop of the destructor needs one round more than there are nodes on the stack.
destroy_lem :
    (fuel : ℕ) (v : ObjectPool) (stacked : List ℕ)
    → length stacked < fuel
    → v.placement_new ≡ false
    → ((a : ℕ) → count a stacked ≤ 1)
    → Chain v.nodes v.object_pool_id v.placement_new v.stack_top stacked
    → (v' : ObjectPool) × (free_stack_memory fuel v ≡ some v')
      × (v'.stack_top ≡ 0)
      × ((a : ℕ) → (find a v'.nodes ≡ find a v.nodes) ⊎ (count a stacked ≡ 1))
unfolding free_stack_memory
destroy_lem zero v stacked enough kept once c = absurd (omega arith)
destroy_lem (suc fuel) v [] enough kept once c = (v, ground (arith, c), c, λ a. inl refl)
destroy_lem (suc fuel) v (b ∷ bs) enough kept once (top, next, (x, links, alive), c) =
    let w : ObjectPool = record v {
      nodes = delete v.stack_top v.nodes;
      stack_top = x.node.stack_next;
    } in
    let others : (a : ℕ) → b ≢ a → find a w.nodes ≡ find a v.nodes = λ a ne.
      ap (λ k. find a (delete k v.nodes)) top ∙ find-delete_ne a b v.nodes (λ e. ne (sym e)) in
    let same : Keeps bs v.nodes w.nodes = λ a. elim (ℕ_discrete b a) [
      | yes e ↦ inl (ground (arith, e, once a))
      | no ne ↦ inr (others a ne)
    ] in
    let c' =
      subst (λ k. Chain w.nodes v.object_pool_id v.placement_new k bs) (sym links)
        (Keeps-Chain v.nodes w.nodes v.object_pool_id v.placement_new next bs same c) in
    let (v', ran, done, untouched) =
      destroy_lem fuel w bs (omega arith) kept (λ a. ground (arith, once a)) c' in
    let found : find v.stack_top v.nodes ≡ some x.node = ap (λ k. find k v.nodes) top ∙ x.found in
    let living : x.node.alive ≡ true = alive ∙ ap not kept in
    (
      v',
      ground (arith, top, x.not_null, found, living, ran),
      done,
      λ a. elim (ℕ_discrete b a) [
        | yes e ↦ inr (ground (arith, e, once a))
        | no ne ↦ ground (arith, ne, others a ne, untouched a)
      ],
    )

-- Without `placementNew` the destructor of a pool returns, on a round more than there are nodes on
-- the stack, and leaves every node that is not on the stack: those still handed out, too.
pub free_stack_memory_refines :
    (v : ObjectPool) (stacked live : List ℕ)
    → Represents v stacked live
    → v.placement_new ≡ false
    → (v' : ObjectPool) × (free_stack_memory (suc (length stacked)) v ≡ some v')
      × (v'.stack_top ≡ 0)
      × ((a : ℕ) → (find a v'.nodes ≡ find a v.nodes) ⊎ (count a stacked ≡ 1))
free_stack_memory_refines v stacked live r kept =
    destroy_lem (suc (length stacked)) v stacked (omega arith) kept (λ a. omega (arith, r.once a))
      r.chain

-- A node on the stack whose `Data` is destroyed ends the destructor.
free_stack_memory-twice :
    (v : ObjectPool) (a : ℕ) (stacked live : List ℕ) (fuel : ℕ)
    → Represents v (a ∷ stacked) live
    → v.placement_new ≡ true
    → free_stack_memory (suc fuel) v ≡ none
unfolding free_stack_memory
free_stack_memory-twice v a stacked live fuel r anew =
    let (top, next, (x, links, dead), c) = r.chain in
    let found : find v.stack_top v.nodes ≡ some x.node = ap (λ k. find k v.nodes) top ∙ x.found in
    let gone : x.node.alive ≡ false = dead ∙ ap not anew in
    ground (arith, top, x.not_null, found, gone)

-- With `placementNew`, `Free` of a node that is handed out, whose `Data` has been constructed and not
-- destroyed, returns and has destroyed it; the node is the top of the stack then, and the destructor of the
-- pool, which deletes it first, runs into undefined behaviour: it destroys the `Data` once more.
pub free-free_stack_memory :
    (v : ObjectPool) (stacked live : List ℕ) (a fuel : ℕ)
    → Represents v stacked live
    → 0 < count a live
    → v.placement_new ≡ true
    → (x y : Node) × (v' : ObjectPool) × (find a v.nodes ≡ some x)
      × (x.alive ≡ true)
      × (free v a ≡ some (true, v'))
      × (v'.stack_top ≡ a)
      × (find a v'.nodes ≡ some y)
      × (y.alive ≡ false)
      × (free_stack_memory (suc fuel) v' ≡ none)
unfolding free push
free-free_stack_memory v stacked live a fuel r h anew =
    let (x, cookie, alive) = count-Live v stacked live a r h in
    let v' = push v a x.node in
    let y : Node = record (x.node) {
      alive = if v.placement_new then false else x.node.alive;
      stack_next = v.stack_top;
    } in
    (
      x.node,
      y,
      v',
      x.found,
      alive,
      ground (arith, x.found, x.of_pool, cookie, alive),
      refl,
      find-put_self a y x.node v.nodes x.found,
      ground (arith, anew),
      free_stack_memory-twice v' a stacked (remove_first a live) fuel
          (push-Represents v stacked live a x r h alive) anew,
    )
