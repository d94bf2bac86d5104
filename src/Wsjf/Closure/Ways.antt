-- ===== src/Wsjf/Closure/Ways.antt =====
-- Ways through the graph, and the entries of the Map of distances when it grows.
use mathlib.Core.Option.{some-injective}
use wood_fired_tasks.Prelude.{
  ℕ, suc, ◌≤◌, ◌≡◌, refl, sym, ◌∙◌, ◌⊎◌, inl, inr, true, false, none, some, List, [], ◌∷◌, ◌++◌,
  arith, has, has-append, ◌==◌, ==_iff, Bool-cases, Option-cases, if◌then◌else◌,
}
use wood_fired_tasks.Dependencies.Degrees.{uniq}
use wood_fired_tasks.Wsjf.Closure.{Distances, distance_of}

-- The ways of so many steps.
pub data Way (downstream : ℕ → List ℕ) (from : ℕ) : ℕ → ℕ → Type 0 where
  here : Way downstream from from 0
  go :
      {u v d : ℕ}
      → Way downstream from u d
      → has (downstream u) v ≡ true
      → Way downstream from v (suc d)

-- The length of a shortest way.
pub record IsShortest (downstream : ℕ → List ℕ) (from to d : ℕ) : Type 0 where
  pub way : Way downstream from to d
  pub least : (e : ℕ) → Way downstream from to e → d ≤ e

distance_of-snoc :
    (xs : Distances) (n k id : ℕ)
    → distance_of (xs ++ (n, k) ∷ []) id
      ≡ elim (distance_of xs id) [ none ↦ if n == id then some k else none | some d ↦ some d ]
unfolding distance_of
distance_of-snoc [] n k id = refl
distance_of-snoc ((m, d) ∷ xs) n k id = elim (Bool-cases (m == id)) [
  | inl same ↦ rw (distance_of, same) refl
  | inr other ↦ rw (distance_of, other) (distance_of-snoc xs n k id)
]

-- A node that is there keeps its distance.
pub distance_of-kept :
    (xs : Distances) (n k id d : ℕ)
    → distance_of xs id ≡ some d
    → distance_of (xs ++ (n, k) ∷ []) id ≡ some d
distance_of-kept xs n k id d h = distance_of-snoc xs n k id ∙ rw (h) refl

pub distance_of-new :
    (xs : Distances) (n k : ℕ)
    → distance_of xs n ≡ none
    → distance_of (xs ++ (n, k) ∷ []) n ≡ some k
distance_of-new xs n k h = distance_of-snoc xs n k n ∙ rw (h) (ground arith)

-- What is found is old, or the new node.
pub distance_of-cases :
    (xs : Distances) (n k id d : ℕ)
    → distance_of (xs ++ (n, k) ∷ []) id ≡ some d
    → (distance_of xs id ≡ some d) ⊎ (n ≡ id) × (k ≡ d)
distance_of-cases xs n k id d h = elim (Option-cases (distance_of xs id)) [
  | inr (e, found) ↦ inl (found ∙ sym (distance_of-snoc xs n k id ∙ rw (found) refl) ∙ h)
  | inl absent ↦
      let step : (if n == id then some k else none) ≡ some d =
        sym (distance_of-snoc xs n k id ∙ rw (absent) refl) ∙ h in
      elim (Bool-cases (n == id)) [
        | inl same ↦ inr ((==_iff n id).0 same, some-injective k d (sym (rw (same) refl) ∙ step))
        | inr other ↦ absurd (ground (arith, step, other))
      ]
]

pub uniq-snoc :
    (xs : List ℕ) (n : ℕ) → uniq xs ≡ true → has xs n ≡ false → uniq (xs ++ n ∷ []) ≡ true
unfolding uniq has
uniq-snoc [] n u h = refl
uniq-snoc (x ∷ xs) n u h = ground (arith, u, h, uniq-snoc xs n, has-append xs (n ∷ []) x)
