-- ===== src/ObjectPool/Heap.antt =====
-- util/Util/ObjectPool.h: the nodes of a pool, those on its stack and those handed out.
use game_server_portfolio.Base.{
  ℕ, ◌+◌, ◌%◌, ◌^◌, ◌<◌, ◌≤◌, ◌≡◌, ◌≢◌, refl, ap, ◌∙◌, ◌⊎◌, inl, inr, Bool, true, not, List, [],
  ◌∷◌, some, ◌==◌, length, count, Bool-cases, arith,
}
use game_server_portfolio.ObjectPool.{
  Node, ObjectPool, find, put, delete, write_cookie, read_cookie,
}

pub find-put_self :
    (a : ℕ) (n m : Node) (ns : List (ℕ × Node)) → find a ns ≡ some m → find a (put a n ns) ≡ some n
find-put_self a n m [] e = ground (arith, e)
find-put_self a n m ((b, k) ∷ ns) e = elim (Bool-cases (b == a)) [
  | inl same ↦ ground (arith, same)
  | inr differ ↦
      let later : find a ns ≡ some m = ground (arith, e, differ) in
      ground (arith, differ, find-put_self a n m ns later)
]

pub find-put_ne :
    (a b : ℕ) (n : Node) (ns : List (ℕ × Node)) → a ≢ b → find a (put b n ns) ≡ find a ns
find-put_ne a b n [] ne = refl
find-put_ne a b n ((c, k) ∷ ns) ne = ground (arith, ne, find-put_ne a b n ns ne)

pub find-delete_ne : (a b : ℕ) (ns : List (ℕ × Node)) → a ≢ b → find a (delete b ns) ≡ find a ns
find-delete_ne a b [] ne = refl
find-delete_ne a b ((c, k) ∷ ns) ne = ground (arith, ne, find-delete_ne a b ns ne)

-- A node of this pool at an address: `nullptr` is none.
pub record NodeAt (ns : List (ℕ × Node)) (id a : ℕ) : Type 0 where
  pub node : Node
  pub found : find a ns ≡ some node
  pub of_pool : node.id ≡ id
  pub not_null : 0 < a

-- a node on the stack, whose `Data` is destroyed if the pool constructs it anew
abbrev pub Stacked : List (ℕ × Node) → ℕ → Bool → ℕ → ℕ → Type 0
Stacked ns id placement_new a next =
    (x : NodeAt ns id a) × (x.node.stack_next ≡ next) × (x.node.alive ≡ not placement_new)

-- The stack from an address on.
abbrev pub Chain : List (ℕ × Node) → ℕ → Bool → ℕ → List ℕ → Type 0
Chain ns id p a [] = a ≡ 0
Chain ns id p a (b ∷ bs) = (a ≡ b) × (next : ℕ) × Stacked ns id p b next × Chain ns id p next bs

-- a node handed out
abbrev pub Live : List (ℕ × Node) → ℕ → ℕ → Type 0
Live ns id a = (x : NodeAt ns id a) × (read_cookie x.node.stack_next ≡ id) × (x.node.alive ≡ true)

-- A pool with these nodes on its stack, top first, and these handed out.
pub record Represents (v : ObjectPool) (stacked live : List ℕ) : Type 0 where
  pub id_in : v.object_pool_id < 2 ^ 32
  pub chain : Chain v.nodes v.object_pool_id v.placement_new v.stack_top stacked
  pub live_ok : (a : ℕ) → (count a live ≡ 0) ⊎ Live v.nodes v.object_pool_id a
  pub once : (a : ℕ) → count a stacked + count a live ≤ 1
  pub counted : v.stack_count ≡ length stacked % 2 ^ 32

-- Nodes at other addresses may change.
abbrev pub Keeps : List ℕ → List (ℕ × Node) → List (ℕ × Node) → Type 0
Keeps as' ns ns' = (a : ℕ) → (count a as' ≡ 0) ⊎ (find a ns' ≡ find a ns)

Keeps-NodeAt :
    {ns ns' : List (ℕ × Node)} {id a : ℕ}
    → find a ns' ≡ find a ns
    → (x : NodeAt ns id a) → (y : NodeAt ns' id a) × (y.node ≡ x.node)
Keeps-NodeAt e x = (
  record { node = x.node; found = e ∙ x.found; of_pool = x.of_pool; not_null = x.not_null },
  refl,
)

pub Keeps-Chain :
    (ns ns' : List (ℕ × Node)) (id : ℕ) (p : Bool) (a : ℕ) (bs : List ℕ)
    → Keeps bs ns ns'
    → Chain ns id p a bs
    → Chain ns' id p a bs
Keeps-Chain ns ns' id p a [] k c = c
Keeps-Chain ns ns' id p a (b ∷ bs) k (same, next, (x, links, dead), c) =
    let here : find b ns' ≡ find b ns = ground (arith, k b) in
    let (y, e) = Keeps-NodeAt here x in
    (
      same,
      next,
      (y, ap (λ n. n.stack_next) e ∙ links, ap (λ n. n.alive) e ∙ dead),
      Keeps-Chain ns ns' id p next bs (λ d. ground (arith, k d)) c,
    )

pub Keeps-Live :
    (ns ns' : List (ℕ × Node)) (id a : ℕ) → find a ns' ≡ find a ns → Live ns id a → Live ns' id a
Keeps-Live ns ns' id a e (x, cookie, alive) =
    let (y, same) = Keeps-NodeAt e x in
    (y, ap (λ n. read_cookie n.stack_next) same ∙ cookie, ap (λ n. n.alive) same ∙ alive)

-- The cookie read is the one that was written.
pub write_cookie-read_cookie :
    (pointer id : ℕ) → id < 2 ^ 32 → read_cookie (write_cookie pointer id) ≡ id
unfolding read_cookie write_cookie
write_cookie-read_cookie pointer id h = omega arith
