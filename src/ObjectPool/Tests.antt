-- ===== src/ObjectPool/Tests.antt =====
-- Pools on small heaps, and the theorems at inputs that meet their hypotheses.
use native.Mathlib.Decide.{ℕ_discrete}
use game_server_portfolio.Base.{
  ℕ, ◌≡◌, refl, ◌⊎◌, inl, inr, Bool, true, false, not, [], ◌∷◌, none, some, count, arith, subst,
}
use game_server_portfolio.ObjectPool.{
  Node, ObjectPool, find, read_cookie, alloc, free, free_stack_memory,
}
use game_server_portfolio.ObjectPool.Heap.{Live, Represents}
use game_server_portfolio.ObjectPool.Alloc.{alloc_refines}
use game_server_portfolio.ObjectPool.Free.{
  free_refines, free_stack_memory_refines, free-free_stack_memory,
}

-- a pool with a node on its stack and one handed out
abbrev pool_of : Bool → ObjectPool
pool_of anew = record {
  stack_top = 4096;
  alloc_head = 8192;
  alloc_count = 2;
  stack_count = 1;
  object_pool_id = 1;
  placement_new = anew;
  nodes =
      (8192, record { id = 1; alive = true; pool_next = 4096; stack_next = 1 })
      ∷ (4096, record { id = 1; alive = not anew; pool_next = 0; stack_next = 0 })
      ∷ [];
}

pool_of-Represents : (anew : Bool) → Represents (pool_of anew) (4096 ∷ []) (8192 ∷ [])
unfolding read_cookie
pool_of-Represents anew = record {
  id_in = omega arith;
  chain = (
    refl,
    0,
    (
      record {
        node = record { id = 1; alive = not anew; pool_next = 0; stack_next = 0 };
        found = refl;
        of_pool = refl;
        not_null = omega arith;
      },
      refl,
      refl,
    ),
    refl,
  );
  live_ok = λ a. elim (ℕ_discrete 8192 a) [
    | yes e ↦ inr (
        subst (Live (pool_of anew).nodes 1) e (
          record {
            node = record { id = 1; alive = true; pool_next = 4096; stack_next = 1 };
            found = refl;
            of_pool = refl;
            not_null = omega arith;
          },
          refl,
          refl,
        ))
    | no ne ↦ inl (ground (arith, ne))
  ];
  once = λ a. ground arith;
  counted = refl;
}

alloc_refines_example :
    (v' : ObjectPool) × (alloc (pool_of true) 12288 ≡ some (4096, v'))
    × (count 4096 (8192 ∷ []) ≡ 0)
    × Represents v' [] (4096 ∷ 8192 ∷ [])
alloc_refines_example =
    alloc_refines (pool_of true) (4096 ∷ []) (8192 ∷ []) 12288 (pool_of-Represents true)
      (omega arith) refl

free_refines_example :
    (v' : ObjectPool) × (free (pool_of false) 8192 ≡ some (true, v'))
    × Represents v' (8192 ∷ 4096 ∷ []) []
    × ((free v' 8192 ≡ some (false, v')) ⊎ (read_cookie 4096 ≡ 1))
free_refines_example =
    free_refines (pool_of false) (4096 ∷ []) (8192 ∷ []) 8192 (pool_of-Represents false)
      (omega arith)

free_stack_memory_refines_example :
    (v' : ObjectPool) × (free_stack_memory 2 (pool_of false) ≡ some v')
    × (v'.stack_top ≡ 0)
    × ((a : ℕ) → (find a v'.nodes ≡ find a (pool_of false).nodes) ⊎ (count a (4096 ∷ []) ≡ 1))
free_stack_memory_refines_example =
    free_stack_memory_refines (pool_of false) (4096 ∷ []) (8192 ∷ []) (pool_of-Represents false)
      refl

free-free_stack_memory_example :
    (x y : Node) × (v' : ObjectPool) × (find 8192 (pool_of true).nodes ≡ some x)
    × (x.alive ≡ true)
    × (free (pool_of true) 8192 ≡ some (true, v'))
    × (v'.stack_top ≡ 8192)
    × (find 8192 v'.nodes ≡ some y)
    × (y.alive ≡ false)
    × (free_stack_memory 3 v' ≡ none)
free-free_stack_memory_example =
    free-free_stack_memory (pool_of true) (4096 ∷ []) (8192 ∷ []) 8192 2 (pool_of-Represents true)
      (omega arith) refl
