-- ===== src/Router/Debounce/Keys.antt =====
-- The Map of buckets by its keys.
use mathlib.Core.List.{tail}
use wood_fired_tasks.Prelude.{
  ℕ, ◌≡◌, ◌↔◌, refl, ap, subst, inl, inr, true, false, none, some, [], ◌∷◌, arith, has, Bool-cases,
  if◌then◌else◌,
}
use wood_fired_tasks.Prelude.Text.{Text, text_eq}
use wood_fired_tasks.Router.Debounce.{Bucket, Buckets, get, set, remove_key, compound_key}

text_eq_refl : (s : Text) → text_eq s s ≡ true
text_eq_refl [] = refl
text_eq_refl (c ∷ s) = ground (arith, text_eq_refl s)

text_eq-eq : (s t : Text) → text_eq s t ≡ true → s ≡ t
text_eq-eq [] [] h = refl
text_eq-eq [] (d ∷ t) h = absurd (ground (arith, h))
text_eq-eq (c ∷ s) [] h = absurd (ground (arith, h))
text_eq-eq (c ∷ s) (d ∷ t) h =
    let same : c ≡ d = ground (arith, h) in
    let rest : s ≡ t = text_eq-eq s t (ground (arith, h)) in cc (same, rest)

pub text_eq_iff : (s t : Text) → (text_eq s t ≡ true) ↔ (s ≡ t)
text_eq_iff s t = (text_eq-eq s t, λ e. subst (λ u. text_eq s u ≡ true) e (text_eq_refl s))

-- Two keys compare with a third alike if they are equal.
text_eq_trans : (s t u : Text) → text_eq s t ≡ true → text_eq s u ≡ text_eq t u
text_eq_trans s t u h = ap (λ x. text_eq x u) (text_eq-eq s t h)

pub get-set :
    (m : Buckets) (k j : Text) (b : Bucket)
    → get (set m k b) j ≡ (if text_eq k j then some b else get m j)
unfolding get set
get-set [] k j b = refl
get-set ((i, c) ∷ m) k j b = elim (Bool-cases (text_eq i k)) [
  | inl same ↦ ground (arith, same, text_eq_trans i k j same)
  | inr other ↦ elim (Bool-cases (text_eq k j)) [
    | inl is ↦
        let apart : text_eq i j ≡ false =
          subst (λ x. text_eq i x ≡ false) (text_eq-eq k j is) other in
        ground (arith, other, is, apart, get-set m k j b)
    | inr not_j ↦ ground (arith, other, not_j, get-set m k j b)
  ]
]

pub get-remove_key :
    (m : Buckets) (k j : Text) → get (remove_key m k) j ≡ (if text_eq k j then none else get m j)
unfolding get remove_key
get-remove_key [] k j = ground arith
get-remove_key ((i, c) ∷ m) k j = elim (Bool-cases (text_eq i k)) [
  | inl same ↦ ground (arith, same, text_eq_trans i k j same, get-remove_key m k j)
  | inr other ↦ elim (Bool-cases (text_eq k j)) [
    | inl is ↦
        let apart : text_eq i j ≡ false =
          subst (λ x. text_eq i x ≡ false) (text_eq-eq k j is) other in
        ground (arith, other, is, apart, get-remove_key m k j)
    | inr not_j ↦ ground (arith, other, not_j, get-remove_key m k j)
  ]
]

first : Text → ℕ
first [] = 0
first (c ∷ s) = c

-- Two pairs have the same key only if they are the same, for rules without NUL.
compound_key-injective :
    (r s e f : Text)
    → has r 0 ≡ false
    → has s 0 ≡ false
    → compound_key r e ≡ compound_key s f
    → (r ≡ s) × (e ≡ f)
unfolding compound_key has first
compound_key-injective [] [] e f nr ns h = (refl, ap tail h)
compound_key-injective [] (d ∷ s) e f nr ns h =
    let same : 0 ≡ d = ap first h in absurd (ground (arith, ns, same))
compound_key-injective (c ∷ r) [] e f nr ns h =
    let same : c ≡ 0 = ap first h in absurd (ground (arith, nr, same))
compound_key-injective (c ∷ r) (d ∷ s) e f nr ns h =
    let same : c ≡ d = ap first h in
    let (rules, events) =
      compound_key-injective r s e f (ground (arith, nr)) (ground (arith, ns)) (ap tail h) in
    (cc (same, rules), events)
