-- ===== src/Entries.antt =====
-- What a tree of rb-tree-binary-tree/ promises: a list of entries in ascending order of their keys.
-- A key, an `int` of which the trees only compare, is taken by its distance from INT_MIN.
pub mod Sorted
pub mod Split
use game_server_portfolio.Base.{
  ℕ, ◌+◌, ◌^◌, List, [], ◌∷◌, Option, none, some, ltb, ◌==◌, if◌then◌else◌,
}

-- the `int` that is this number
abbrev pub int : ℕ → ℕ
int n = 2 ^ 31 + n

pub record Entry {ℓ} (V : Type ℓ) : Type ℓ where
  pub key : ℕ
  pub value : V
  pub count : ℕ

module _ {ℓ} {V : Type ℓ} where
  -- A key that is there already keeps its value, and is counted once more.
  unfoldable pub add : ℕ → V → List (Entry V) → List (Entry V)
  add k v [] = record { key = k; value = v; count = 1 } ∷ []
  add k v (e ∷ es) =
      if ltb k e.key
      then record { key = k; value = v; count = 1 } ∷ e ∷ es
      else if ltb e.key k
      then e ∷ add k v es
      else record e { count = e.count + 1 } ∷ es

  unfoldable pub remove : ℕ → List (Entry V) → List (Entry V)
  remove k [] = []
  remove k (e ∷ es) = if e.key == k then es else e ∷ remove k es

  unfoldable pub lookup : ℕ → List (Entry V) → Option (Entry V)
  lookup k [] = none
  lookup k (e ∷ es) = if e.key == k then some e else lookup k es
