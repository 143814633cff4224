-- ===== src/Entries/Sorted.antt =====
-- The order of the entries, and that `add` and `remove` keep it.
use native.Mathlib.Decide.{ℕ_discrete, dec_lt}
use game_server_portfolio.Base.{
  ℕ, ◌+◌, ◌<◌, ◌≡◌, ◌≢◌, refl, List, [], ◌∷◌, Option, none, some, arith, if◌then◌else◌, ◌==◌,
  ==_refl, ==-ne,
}
use game_server_portfolio.Entries.{Entry, add, remove, lookup}

module _ {ℓ} {V : Type ℓ} where
  abbrev pub AllLt : ℕ → List (Entry V) → Type 0
  AllLt k [] = Unit {0}
  AllLt k (e ∷ es) = (e.key < k) × AllLt k es

  abbrev pub AllGt : ℕ → List (Entry V) → Type 0
  AllGt k [] = Unit {0}
  AllGt k (e ∷ es) = (k < e.key) × AllGt k es

  abbrev pub IsSorted : List (Entry V) → Type 0
  IsSorted [] = Unit {0}
  IsSorted (e ∷ es) = AllGt e.key es × IsSorted es

  pub AllGt-mono : (j k : ℕ) (es : List (Entry V)) → j < k → AllGt k es → AllGt j es
  AllGt-mono j k [] h a = tt
  AllGt-mono j k (e ∷ es) h a = (omega arith, AllGt-mono j k es h a.1)

  pub AllLt-mono : (j k : ℕ) (es : List (Entry V)) → j < k → AllLt j es → AllLt k es
  AllLt-mono j k [] h a = tt
  AllLt-mono j k (e ∷ es) h a = (omega arith, AllLt-mono j k es h a.1)

  AllGt-add : (j k : ℕ) (v : V) (es : List (Entry V)) → j < k → AllGt j es → AllGt j (add k v es)
  unfolding add
  AllGt-add j k v [] h a = (h, tt)
  AllGt-add j k v (e ∷ es) h a = ground (arith, AllGt-add j k v es h)

  AllGt-remove : (j k : ℕ) (es : List (Entry V)) → AllGt j es → AllGt j (remove k es)
  unfolding remove
  AllGt-remove j k [] a = tt
  AllGt-remove j k (e ∷ es) a = ground (arith, AllGt-remove j k es)

  -- `add` keeps the order.
  pub add-IsSorted : (k : ℕ) (v : V) (es : List (Entry V)) → IsSorted es → IsSorted (add k v es)
  unfolding add
  add-IsSorted k v [] s = (tt, tt)
  add-IsSorted k v (e ∷ es) s =
      ground (arith, add-IsSorted k v es, AllGt-add e.key k v es, AllGt-mono k e.key es)

  -- `remove` keeps the order.
  pub remove-IsSorted : (k : ℕ) (es : List (Entry V)) → IsSorted es → IsSorted (remove k es)
  unfolding remove
  remove-IsSorted k [] s = tt
  remove-IsSorted k (e ∷ es) s = ground (arith, remove-IsSorted k es, AllGt-remove e.key k es)

  pub lookup_above : (k : ℕ) (es : List (Entry V)) → AllGt k es → lookup k es ≡ none
  unfolding lookup
  lookup_above k [] a = refl
  lookup_above k (e ∷ es) a = ground (arith, lookup_above k es)

  pub remove_above : (k : ℕ) (es : List (Entry V)) → AllGt k es → remove k es ≡ es
  unfolding remove
  remove_above k [] a = refl
  remove_above k (e ∷ es) a = ground (arith, remove_above k es)

  -- An entry as a key leaves it after one more insertion of value `v`.
  abbrev pub bumped : ℕ → V → Option (Entry V) → Option (Entry V)
  bumped k v none = some (record { key = k; value = v; count = 1 })
  bumped k v (some e) = some (record e { count = e.count + 1 })

  lookup-add_self :
      (k : ℕ) (v : V) (es : List (Entry V))
      → IsSorted es
      → lookup k (add k v es) ≡ bumped k v (lookup k es)
  unfolding lookup add
  lookup-add_self k v [] s = ground arith
  lookup-add_self k v (e ∷ es) s = elim (dec_lt k e.key) [
    | yes lt ↦ ground (arith, lookup_above k es (AllGt-mono k e.key es lt s.0))
    | no ge ↦ elim (dec_lt e.key k) [
      | yes gt ↦ ground (arith, lookup-add_self k v es s.1)
      | no le ↦ ground arith
    ]
  ]

  lookup-add_ne :
      (j k : ℕ) (v : V) (es : List (Entry V)) → j ≢ k → lookup j (add k v es) ≡ lookup j es
  unfolding lookup add
  lookup-add_ne j k v [] h = ground arith
  lookup-add_ne j k v (e ∷ es) h = ground (arith, lookup-add_ne j k v es)

  lookup-remove_self : (k : ℕ) (es : List (Entry V)) → IsSorted es → lookup k (remove k es) ≡ none
  unfolding lookup remove
  lookup-remove_self k [] s = refl
  lookup-remove_self k (e ∷ es) s =
      ground (arith, lookup-remove_self k es, lookup_above k es, AllGt-mono k e.key es)

  lookup-remove_ne : (j k : ℕ) (es : List (Entry V)) → j ≢ k → lookup j (remove k es) ≡ lookup j es
  unfolding lookup remove
  lookup-remove_ne j k [] h = refl
  lookup-remove_ne j k (e ∷ es) h = ground (arith, lookup-remove_ne j k es)

  -- `add` is an update of the map that the list stands for.
  pub lookup-add :
      (j k : ℕ) (v : V) (es : List (Entry V))
      → IsSorted es
      → lookup j (add k v es) ≡ (if j == k then bumped k v (lookup k es) else lookup j es)
  lookup-add j k v es s = elim (ℕ_discrete j k) [
    | yes e ↦ rw (e, ==_refl k) (lookup-add_self k v es s)
    | no ne ↦ rw (==-ne j k ne) (lookup-add_ne j k v es ne)
  ]

  -- `remove` takes its key out of that map.
  pub lookup-remove :
      (j k : ℕ) (es : List (Entry V))
      → IsSorted es
      → lookup j (remove k es) ≡ (if j == k then none else lookup j es)
  lookup-remove j k es s = elim (ℕ_discrete j k) [
    | yes e ↦ rw (e, ==_refl k) (lookup-remove_self k es s)
    | no ne ↦ rw (==-ne j k ne) (lookup-remove_ne j k es ne)
  ]
