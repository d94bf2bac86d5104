-- ===== src/Prelude/Outcome.antt =====
-- A value or the error that ended its computation, for code that throws.
use mathlib.Core.Path.{◌≡◌, refl, ap}
use mathlib.Core.Logic.{◌⊎◌, inl, inr}
use mathlib.Core.Bool.{Bool, true, false}

pub data Result {ℓ} (E : Type 0) (A : Type ℓ) : Type ℓ where
  err : E → Result E A
  ok : A → Result E A

module _ {E : Type 0} where
  -- `throw` unless the condition holds.
  abbrev pub require : E → Bool → Result E (Unit {0})
  require reason false = err reason
  require reason true = ok tt

  abbrev pub and_then {ℓ κ} : {A : Type ℓ} {B : Type κ} → (A → Result E B) → Result E A → Result E B
  and_then next (err e) = err e
  and_then next (ok a) = next a

  infixl 5 ◌>>=◌
  abbrev pub ◌>>=◌ {ℓ κ} : {A : Type ℓ} {B : Type κ} → Result E A → (A → Result E B) → Result E B
  result >>= next = and_then next result

  infixl 5 ◌>>◌
  abbrev pub ◌>>◌ {κ} : {B : Type κ} → Result E (Unit {0}) → Result E B → Result E B
  check >> rest = and_then (λ _. rest) check

  pub Result-cases {ℓ} :
      {A : Type ℓ} (result : Result E A)
      → ((e : E) × (result ≡ err e)) ⊎ ((a : A) × (result ≡ ok a))
  Result-cases (err e) = inl (e, refl)
  Result-cases (ok a) = inr (a, refl)

  pub ok-injective {ℓ} : {A : Type ℓ} (a b : A) → Path (Result E A) (ok a) (ok b) → a ≡ b
  ok-injective a b h = ap (λ r. elim r [ err e ↦ a | ok c ↦ c ]) h
