-- ===== src/Prelude/Lists.antt =====
-- Lists measured by native numbers, and lists that stand for JavaScript's Set.
use Prim.Native.Nat.{ℕ, suc, ◌+◌}
use mathlib.Core.Path.{◌≡◌, refl}
use mathlib.Core.Bool.{Bool, true, false, ◌&&◌, ◌||◌, not}
use mathlib.Core.List.{List, [], ◌∷◌, ◌++◌}
use native.Mathlib.Omega.{arith}
use wood_fired_tasks.Prelude.Tests.{◌==◌, if◌then◌else◌}

module _ {ℓ} {A : Type ℓ} where
  abbrev pub length : List A → ℕ
  length [] = 0
  length (x ∷ xs) = suc (length xs)

  abbrev pub all : (A → Bool) → List A → Bool
  all p [] = true
  all p (x ∷ xs) = p x && all p xs

  abbrev pub All {κ} : (A → Type κ) → List A → Type κ
  All P [] = Unit
  All P (x ∷ xs) = P x × All P xs

  abbrev pub keep : (A → Bool) → List A → List A
  keep p [] = []
  keep p (x ∷ xs) = if p x then x ∷ keep p xs else keep p xs

  pub length-append : (xs ys : List A) → length (xs ++ ys) ≡ length xs + length ys
  length-append [] ys = omega arith
  length-append (x ∷ xs) ys = omega (arith, length-append xs ys)

-- `Set.has`, `Set.add` and `Set.delete` on numbers; a list holds a Set in insertion order.
unfoldable pub has : List ℕ → ℕ → Bool
has [] a = false
has (x ∷ xs) a = x == a || has xs a

unfoldable pub add : List ℕ → ℕ → List ℕ
add xs a = if has xs a then xs else xs ++ a ∷ []

unfoldable pub delete : List ℕ → ℕ → List ℕ
delete [] a = []
delete (x ∷ xs) a = if x == a then delete xs a else x ∷ delete xs a

pub has-append : (xs ys : List ℕ) (a : ℕ) → has (xs ++ ys) a ≡ (has xs a || has ys a)
unfolding has
has-append [] ys a = refl
has-append (x ∷ xs) ys a = ground (arith, has-append xs ys a)

pub has-add : (xs : List ℕ) (b a : ℕ) → has (add xs b) a ≡ (b == a || has xs a)
unfolding add has
has-add xs b a = ground (arith, has-append xs (b ∷ []) a)

pub has-delete : (xs : List ℕ) (b a : ℕ) → has (delete xs b) a ≡ (not (b == a) && has xs a)
unfolding delete has
has-delete [] b a = ground arith
has-delete (x ∷ xs) b a = ground (arith, has-delete xs b a)
