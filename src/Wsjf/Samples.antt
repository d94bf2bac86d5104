-- ===== src/Wsjf/Samples.antt =====
-- The redundant scoring of src/services/wsjf.service.ts. Samples and the verifier's answer come from
-- outside; `none` is the error on an empty sample. A tier that is no member of FIB, which the type Fib
-- rules out, has the position after its end.
pub mod Median
use wood_fired_tasks.Prelude.{
  ℕ, zero, suc, ◌-◌, ◌/◌, max, Bool, true, false, not, ◌&&◌, ◌||◌, Option, none, some, List, [],
  ◌∷◌, ◌++◌, map, keep, length, min, ltb, ◌==◌, if◌then◌else◌,
}
use wood_fired_tasks.Prelude.Options.{◌>>=◌}
use wood_fired_tasks.Prelude.Sort.{ascending}
use wood_fired_tasks.Wsjf.Tiers.{Components, contradicts}

abbrev pub fib_table : List ℕ
fib_table = 1 ∷ 2 ∷ 3 ∷ 5 ∷ 8 ∷ 13 ∷ []

unfoldable pub index_of : List ℕ → ℕ → ℕ
index_of [] x = 0
index_of (y ∷ ys) x = if y == x then 0 else suc (index_of ys x)

unfoldable pub nth : List ℕ → ℕ → Option ℕ
nth [] i = none
nth (x ∷ xs) zero = some x
nth (x ∷ xs) (suc i) = nth xs i

abbrev pub fib_ordinal : ℕ → ℕ
fib_ordinal f = index_of fib_table f

abbrev pub tier_at : Option ℕ → Option ℕ
tier_at none = none
tier_at (some ordinal) = nth fib_table ordinal

-- The lower median over the positions in FIB.
unfoldable pub fib_median_bucket : List ℕ → Option ℕ
fib_median_bucket samples =
    tier_at (nth (ascending (map fib_ordinal samples)) ((length samples - 1) / 2))

unfoldable pub aggregate_samples : List Components → Option Components
aggregate_samples samples = do
  value ← fib_median_bucket (map (λ c. c.value) samples)
  time_criticality ← fib_median_bucket (map (λ c. c.time_criticality) samples)
  risk_opportunity ← fib_median_bucket (map (λ c. c.risk_opportunity) samples)
  job_size ← fib_median_bucket (map (λ c. c.job_size) samples)
  some (record {
    value = value;
    time_criticality = time_criticality;
    risk_opportunity = risk_opportunity;
    job_size = job_size;
  })

pub data ComponentKey : Type 0 where
  of_value of_time_criticality of_risk_opportunity of_job_size : ComponentKey

abbrev pub at_key : ComponentKey → Components → ℕ
at_key of_value c = c.value
at_key of_time_criticality c = c.time_criticality
at_key of_risk_opportunity c = c.risk_opportunity
at_key of_job_size c = c.job_size

abbrev pub component_keys : List ComponentKey
component_keys = of_value ∷ of_time_criticality ∷ of_risk_opportunity ∷ of_job_size ∷ []

abbrev pub greatest : List ℕ → ℕ
greatest [] = 0
greatest (x ∷ xs) = max x (greatest xs)

abbrev pub least : List ℕ → ℕ
least [] = 0
least (x ∷ []) = x
least (x ∷ y ∷ ys) = min x (least (y ∷ ys))

unfoldable pub component_spread : List Components → ComponentKey → ℕ
component_spread samples key =
    let ordinals = map (λ c. fib_ordinal (at_key key c)) samples in
    greatest ordinals - least ordinals

unfoldable pub disagreeing_components : List Components → ℕ → List ComponentKey
disagreeing_components samples tolerance =
    keep (λ key. ltb tolerance (component_spread samples key)) component_keys

pub record RedundantScore : Type 0 where
  pub components : Components
  pub escalated : Bool
  pub low_confidence : List ComponentKey

abbrev pub distance : ℕ → ℕ → ℕ
distance a b = if ltb a b then b - a else a - b

abbrev pub is_empty {ℓ} : {A : Type ℓ} → List A → Bool
is_empty [] = true
is_empty (x ∷ xs) = false

-- The keys under review on which the verifier is too far from the aggregate.
unfoldable pub still_apart : ℕ → Components → Components → List ComponentKey → List ComponentKey
still_apart tolerance verified aggregate under_review =
    keep
      (λ key.
        ltb tolerance
          (distance (fib_ordinal (at_key key verified)) (fib_ordinal (at_key key aggregate))))
      under_review

-- The decision on an aggregate.
unfoldable pub decide : List Components → ℕ → Option Components → Components → RedundantScore
decide samples tolerance verifier aggregate =
    let disagree = disagreeing_components samples tolerance in
    if is_empty disagree && not (contradicts aggregate)
    then record { components = aggregate; escalated = false; low_confidence = [] }
    else elim verifier [
      | none ↦ record { components = aggregate; escalated = false; low_confidence = disagree }
      | some verified ↦ record {
        components = aggregate;
        escalated = true;
        low_confidence =
            still_apart tolerance verified aggregate
              (if contradicts aggregate then component_keys else disagree);
      }
    ]

-- `redundantScore`, from the samples that were drawn, at least one.
unfoldable pub redundant_score : List Components → ℕ → Option Components → Option RedundantScore
redundant_score samples tolerance verifier = elim (aggregate_samples samples) [
  | none ↦ none
  | some aggregate ↦ some (decide samples tolerance verifier aggregate)
]
