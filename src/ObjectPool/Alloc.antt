-- ===== src/ObjectPool/Alloc.antt =====
-- util/Util/ObjectPool.h: `Alloc`.
use native.Mathlib.Decide.{ℕ_discrete}
use game_server_portfolio.Base.{
  ℕ, ◌<◌, ◌≡◌, ◌≢◌, refl, sym, ap, subst, ◌∙◌, inl, inr, true, not, List, [], ◌∷◌, none, some,
  if◌then◌else◌, count, Bool-cases, arith,
}
use game_server_portfolio.ObjectPool.{
  Node, ObjectPool, find, put, write_cookie, alloc_new, alloc_used, alloc,
}
use game_server_portfolio.ObjectPool.Heap.{
  find-put_self, find-put_ne, NodeAt, Chain, Live, Represents, Keeps, Keeps-Chain, Keeps-Live,
  write_cookie-read_cookie,
}

-- What `Alloc` hands out: the top of the stack, or a new node if it is empty.
abbrev pub handed : List ℕ → ℕ → ℕ
handed [] fresh = fresh
handed (a ∷ as') fresh = a

abbrev pub rest : List ℕ → List ℕ
rest [] = []
rest (a ∷ as') = as'

live_found :
    (v : ObjectPool) (stacked live : List ℕ) (a : ℕ)
    → Represents v stacked live
    → find a v.nodes ≡ none
    → count a live ≡ 0
live_found v stacked live a r e = elim (r.live_ok a) [
  | inl absent ↦ absent
  | inr (x, _, _) ↦ absurd (let h = x.found in ground (arith, e, h))
]

alloc_new-Represents :
    (v : ObjectPool) (live : List ℕ) (fresh : ℕ)
    → Represents v [] live
    → 0 < fresh
    → find fresh v.nodes ≡ none
    → Represents (alloc_new v fresh).1 [] (fresh ∷ live)
unfolding alloc_new
alloc_new-Represents v live fresh r not_null unused =
    let none_live = live_found v [] live fresh r unused in
    let id = v.object_pool_id in
    let node : Node = record {
      id = id;
      alive = true;
      pool_next = v.alloc_head;
      stack_next = write_cookie 0 id;
    } in
    let ns : List (ℕ × Node) = (fresh, node) ∷ v.nodes in
    let here : Live ns id fresh = (
      record { node = node; found = ground arith; of_pool = refl; not_null = not_null },
      write_cookie-read_cookie 0 id r.id_in,
      refl,
    ) in
    record {
      id_in = r.id_in;
      chain = r.chain;
      live_ok = λ a. elim (ℕ_discrete fresh a) [
        | yes e ↦ inr (subst (Live ns id) e here)
        | no ne ↦ elim (r.live_ok a) [
          | inl absent ↦ inl (ground (arith, absent, ne))
          | inr l ↦ inr (Keeps-Live v.nodes ns id a (ground (arith, ne)) l)
        ]
      ];
      once = λ a. ground (arith, r.once a, none_live);
      counted = r.counted;
    }

alloc_used-Represents :
    (v : ObjectPool) (a next : ℕ) (stacked live : List ℕ) (x : NodeAt v.nodes v.object_pool_id a)
    → Represents v (a ∷ stacked) live
    → v.stack_top ≡ a
    → x.node.stack_next ≡ next
    → x.node.alive ≡ not v.placement_new
    → Chain v.nodes v.object_pool_id v.placement_new next stacked
    → Represents (alloc_used v x.node).1 stacked (a ∷ live)
unfolding alloc_used
alloc_used-Represents v a next stacked live x r top links dead c =
    let id = v.object_pool_id in
    let node : Node = record (x.node) {
      alive = if v.placement_new then true else x.node.alive;
      stack_next = write_cookie x.node.stack_next id;
    } in
    let ns : List (ℕ × Node) = put v.stack_top node v.nodes in
    let here : Live ns id a = (
      record {
        node = node;
        found = ground (arith, top, find-put_self a node x.node v.nodes x.found);
        of_pool = x.of_pool;
        not_null = x.not_null;
      },
      write_cookie-read_cookie x.node.stack_next id r.id_in,
      elim (Bool-cases v.placement_new) [
        | inl anew ↦ ground (arith, anew)
        | inr kept ↦ ground (arith, kept, dead)
      ],
    ) in
    let others : (b : ℕ) → a ≢ b → find b ns ≡ find b v.nodes =
      λ b ne. ground (arith, top, find-put_ne b a node v.nodes (λ e. ne (sym e))) in
    let kept : Keeps stacked v.nodes ns = λ b. elim (ℕ_discrete a b) [
      | yes e ↦ inl (ground (arith, e, r.once b))
      | no ne ↦ inr (others b ne)
    ] in
    record {
      id_in = r.id_in;
      chain =
          subst (λ k. Chain ns id v.placement_new k stacked) (sym links)
            (Keeps-Chain v.nodes ns id v.placement_new next stacked kept c);
      live_ok = λ b. elim (ℕ_discrete a b) [
        | yes e ↦ inr (subst (Live ns id) e here)
        | no ne ↦ elim (r.live_ok b) [
          | inl absent ↦ inl (ground (arith, absent, ne))
          | inr l ↦ inr (Keeps-Live v.nodes ns id b (others b ne) l)
        ]
      ];
      once = λ b. ground (arith, r.once b);
      counted = omega (arith, r.counted);
    }

-- `Alloc` on a pool hands out the node on the top of its stack, or a new one if the stack is empty,
-- which must not be null nor at the address of another node. A node that it hands out is none of
-- those that are handed out, and is now one of them; the rest of the stack stays.
pub alloc_refines :
    (v : ObjectPool) (stacked live : List ℕ) (fresh : ℕ)
    → Represents v stacked live
    → 0 < fresh
    → find fresh v.nodes ≡ none
    → (v' : ObjectPool) × (alloc v fresh ≡ some (handed stacked fresh, v'))
      × (count (handed stacked fresh) live ≡ 0)
      × Represents v' (rest stacked) (handed stacked fresh ∷ live)
unfolding alloc alloc_new alloc_used
alloc_refines v [] live fresh r not_null unused = (
  (alloc_new v fresh).1,
  ground (arith, r.chain),
  live_found v [] live fresh r unused,
  alloc_new-Represents v live fresh r not_null unused,
)
alloc_refines v (a ∷ stacked) live fresh r not_null unused =
    let (top, next, (x, links, dead), c) = r.chain in
    let found : find v.stack_top v.nodes ≡ some x.node = ap (λ k. find k v.nodes) top ∙ x.found in
    (
      (alloc_used v x.node).1,
      ground (arith, top, x.not_null, found),
      ground (arith, r.once a),
      alloc_used-Represents v a next stacked live x r top links dead c,
    )
