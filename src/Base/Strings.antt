-- ===== src/Base/Strings.antt =====
-- Strings of C, without the `'\0'` that ends them.
use Prim.Native.Nat.{ℕ}
use mathlib.Core.Path.{◌≡◌, refl, ap₂}
use mathlib.Core.Bool.{Bool, true, false, ◌&&◌}
use mathlib.Core.List.{List, [], ◌∷◌}
use native.Mathlib.Omega.{arith}
use game_server_portfolio.Base.Tests.{◌==◌}

-- `strcmp(a, b) == 0`
abbrev pub strcmp_equal : List ℕ → List ℕ → Bool
strcmp_equal [] [] = true
strcmp_equal [] (b ∷ bs) = false
strcmp_equal (a ∷ as') [] = false
strcmp_equal (a ∷ as') (b ∷ bs) = (a == b) && strcmp_equal as' bs

pub strcmp_equal_refl : (a : List ℕ) → strcmp_equal a a ≡ true
strcmp_equal_refl [] = refl
strcmp_equal_refl (x ∷ xs) = ground (arith, strcmp_equal_refl xs)

pub strcmp_equal→eq : (a b : List ℕ) → strcmp_equal a b ≡ true → a ≡ b
strcmp_equal→eq [] [] h = refl
strcmp_equal→eq [] (y ∷ ys) h = ground (arith, h)
strcmp_equal→eq (x ∷ xs) [] h = ground (arith, h)
strcmp_equal→eq (x ∷ xs) (y ∷ ys) h =
    let e : x ≡ y = ground (arith, h) in
    let e' : strcmp_equal xs ys ≡ true = ground (arith, h) in ap₂ (◌∷◌) e (strcmp_equal→eq xs ys e')

pub strcmp_equal_sym : (a b : List ℕ) → strcmp_equal a b ≡ strcmp_equal b a
strcmp_equal_sym [] [] = refl
strcmp_equal_sym [] (y ∷ ys) = refl
strcmp_equal_sym (x ∷ xs) [] = refl
strcmp_equal_sym (x ∷ xs) (y ∷ ys) = ground (arith, strcmp_equal_sym xs ys)
