-- ===== src/Entries/Split.antt =====
-- Operations on a list of entries that is split at one of them, as a tree splits it at its root.
use game_server_portfolio.Base.{ℕ, ◌<◌, ◌≡◌, refl, List, [], ◌∷◌, ◌++◌, arith}
use game_server_portfolio.Entries.{Entry, add, remove, lookup}
use game_server_portfolio.Entries.Sorted.{AllLt, AllGt, IsSorted, remove_above, lookup_above}

module _ {ℓ} {V : Type ℓ} where
  pub AllGt-append : (k : ℕ) (ls rs : List (Entry V)) → AllGt k (ls ++ rs) → AllGt k ls × AllGt k rs
  AllGt-append k [] rs a = (tt, a)
  AllGt-append k (e ∷ ls) rs a = let (l, r) = AllGt-append k ls rs a.1 in ((a.0, l), r)

  -- In a sorted list what stands before an entry is less, and what stands behind it greater.
  pub IsSorted-split :
      (ls : List (Entry V)) (e : Entry V) (rs : List (Entry V))
      → IsSorted (ls ++ e ∷ rs)
      → AllLt e.key ls × AllGt e.key rs × IsSorted ls × IsSorted rs
  IsSorted-split [] e rs s = (tt, s.0, tt, s.1)
  IsSorted-split (x ∷ ls) e rs s =
      let (lt, gt, sl, sr) = IsSorted-split ls e rs s.1 in
      let (al, ar) = AllGt-append x.key ls (e ∷ rs) s.0 in ((ar.0, lt), gt, (al, sl), sr)

  module _ (k : ℕ) where
    pub add_left :
        (v : V) (ls : List (Entry V)) (e : Entry V) (rs : List (Entry V))
        → k < e.key
        → add k v (ls ++ e ∷ rs) ≡ add k v ls ++ e ∷ rs
    unfolding add
    add_left v [] e rs h = ground arith
    add_left v (x ∷ ls) e rs h = ground (arith, add_left v ls e rs h)

    pub add_right :
        (v : V) (ls rs : List (Entry V)) → AllLt k ls → add k v (ls ++ rs) ≡ ls ++ add k v rs
    unfolding add
    add_right v [] rs a = refl
    add_right v (x ∷ ls) rs a = ground (arith, add_right v ls rs a.1)

    pub remove_left :
        (ls rs : List (Entry V)) → AllGt k rs → remove k (ls ++ rs) ≡ remove k ls ++ rs
    unfolding remove
    remove_left [] rs a = remove_above k rs a
    remove_left (x ∷ ls) rs a = ground (arith, remove_left ls rs a)

    pub remove_right :
        (ls rs : List (Entry V)) → AllLt k ls → remove k (ls ++ rs) ≡ ls ++ remove k rs
    unfolding remove
    remove_right [] rs a = refl
    remove_right (x ∷ ls) rs a = ground (arith, remove_right ls rs a.1)

    pub lookup_left : (ls rs : List (Entry V)) → AllGt k rs → lookup k (ls ++ rs) ≡ lookup k ls
    unfolding lookup
    lookup_left [] rs a = lookup_above k rs a
    lookup_left (x ∷ ls) rs a = ground (arith, lookup_left ls rs a)

    pub lookup_right : (ls rs : List (Entry V)) → AllLt k ls → lookup k (ls ++ rs) ≡ lookup k rs
    unfolding lookup
    lookup_right [] rs a = refl
    lookup_right (x ∷ ls) rs a = ground (arith, lookup_right ls rs a.1)
