-- ===== src/Base/Sets.antt =====
-- Lists of numbers as sets.
use Prim.Native.Nat.{ℕ}
use mathlib.Core.Path.{◌≡◌, refl}
use mathlib.Core.Bool.{Bool, false, ◌||◌}
use mathlib.Core.List.{List, [], ◌∷◌}
use native.Mathlib.Omega.{arith}
use iotop_cpp.Base.Tests.{◌==◌, if◌then◌else◌}

abbrev pub elem : ℕ → List ℕ → Bool
elem k [] = false
elem k (x ∷ xs) = x == k || elem k xs

-- The list without a number.
abbrev pub remove : ℕ → List ℕ → List ℕ
remove k [] = []
remove k (x ∷ xs) = let rest = remove k xs in if x == k then rest else x ∷ rest

pub remove-absent : (k : ℕ) (xs : List ℕ) → elem k xs ≡ false → remove k xs ≡ xs
remove-absent k [] h = refl
remove-absent k (x ∷ xs) h = ground (arith, h, remove-absent k xs)

-- A number that was not there before is taken out again.
pub remove-head : (k : ℕ) (xs : List ℕ) → elem k xs ≡ false → remove k (k ∷ xs) ≡ xs
remove-head k xs h = ground (arith, remove-absent k xs h)
