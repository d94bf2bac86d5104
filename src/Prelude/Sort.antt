-- ===== src/Prelude/Sort.antt =====
-- `Array.prototype.sort`, which is stable: an element goes before those that it may precede.
use Prim.Native.Nat.{ℕ}
use mathlib.Core.Path.{◌≡◌, refl}
use mathlib.Core.Bool.{Bool, ◌||◌}
use mathlib.Core.List.{List, [], ◌∷◌}
use native.Mathlib.Omega.{arith}
use wood_fired_tasks.Prelude.Tests.{leb, ◌==◌, if◌then◌else◌}
use wood_fired_tasks.Prelude.Lists.{has}

module _ {ℓ} {A : Type ℓ} (before : A → A → Bool) where
  unfoldable pub place : A → List A → List A
  place x [] = x ∷ []
  place x (y ∷ ys) = if before x y then x ∷ y ∷ ys else y ∷ place x ys

  unfoldable pub sort : List A → List A
  sort [] = []
  sort (x ∷ xs) = place x (sort xs)

-- The numbers, least first.
abbrev pub ascending : List ℕ → List ℕ
ascending = sort leb

has-place : (x : ℕ) (xs : List ℕ) (a : ℕ) → has (place leb x xs) a ≡ (x == a || has xs a)
unfolding place has
has-place x [] a = ground arith
has-place x (y ∷ ys) a = ground (arith, has-place x ys a)

pub has-ascending : (xs : List ℕ) (a : ℕ) → has (ascending xs) a ≡ has xs a
unfolding sort has
has-ascending [] a = refl
has-ascending (x ∷ xs) a = ground (arith, has-place x (ascending xs) a, has-ascending xs a)
