-- ===== src/Wsjf/Examples.antt =====
-- The tiers at some points, and a submission.
use wood_fired_tasks.Prelude.{
  ℕ, ◌*◌, has, ltb, ◌≤◌, ◌≡◌, ◌↔◌, refl, true, none, some, [], ◌∷◌, arith,
}
use wood_fired_tasks.Wsjf.Tiers.{
  contradicts, ubv_from_theme_alignment, job_size_band, core, security, Components,
}
use wood_fired_tasks.Prelude.Sort.{sort, place}
use wood_fired_tasks.Wsjf.Samples.{
  index_of, nth, fib_median_bucket, aggregate_samples, of_value, component_spread,
  disagreeing_components, still_apart, decide, redundant_score,
}
use wood_fired_tasks.Wsjf.Samples.Median.{how_many, fib_median_bucket-balanced}
use wood_fired_tasks.Wsjf.Submission.{
  Classification, Features, Theme, Context, validate_score_submission, well_shaped, check_theme,
  check_evidence, check_band, check_batch, low_spread, source_of, charter_text, join_lines,
  theme_texts, components_of, ubv_for, time_criticality_of, sum,
}
use wood_fired_tasks.Prelude.Text.{includes, lower}
use wood_fired_tasks.Wsjf.Submission.Accepted.{validate_score_submission_iff}
use wood_fired_tasks.Wsjf.Submission.Rules.{BatchApart, IsAcceptable}

abbrev growth : Theme
growth = record { name = 1 ∷ []; description = 7 ∷ []; weight = 8 }

abbrev submission : Classification
submission = record {
  theme_name = some (1 ∷ []);
  alignment = core;
  severity = security;
  decay = none;
  job_size_tier = 3;
  evidence = record {
    of_value = 2 ∷ [];
    of_time_criticality = 3 ∷ [];
    of_risk_opportunity = 2 ∷ 3 ∷ [];
    of_job_size = 7 ∷ [];
  };
}

abbrev features : Features
features = record { days_until_deadline = none; transitive_dependents = 2; files_touched = none }

abbrev context : Context
context = record {
  charter =
      some
        (record { mission = []; time_context = []; risk_posture = []; value_themes = growth ∷ [] });
  source_text = 2 ∷ 3 ∷ [];
  batch = some (
      record { value = 1; time_criticality = 1; risk_opportunity = 2; job_size = 2 }
      ∷ record { value = 13; time_criticality = 3; risk_opportunity = 1; job_size = 3 }
      ∷ record { value = 5; time_criticality = 8; risk_opportunity = 5; job_size = 1 }
      ∷ []);
}

context-BatchApart : BatchApart context.batch
unfolding sum
context-BatchApart = (λ h. ground (arith, h), λ h. ground (arith, h), λ h. ground (arith, h))

passes : (validate_score_submission submission features context).1 ≡ []
unfolding validate_score_submission well_shaped check_theme check_evidence check_band check_batch
    low_spread source_of charter_text join_lines theme_texts includes components_of ubv_for
    time_criticality_of ubv_from_theme_alignment contradicts job_size_band sum lower
passes = refl

validate_score_submission_iff_example :
    ((validate_score_submission submission features context).1 ≡ [])
    ↔ IsAcceptable submission features context
validate_score_submission_iff_example =
    validate_score_submission_iff submission features context context-BatchApart

median_runs :
    (fib_median_bucket (8 ∷ 8 ∷ 3 ∷ []) ≡ some 8) × (fib_median_bucket (2 ∷ 5 ∷ []) ≡ some 2)
unfolding fib_median_bucket sort place index_of nth
median_runs = (refl, refl)

abbrev sample : ℕ → Components
sample value = record { value = value; time_criticality = 3; risk_opportunity = 5; job_size = 2 }

-- The values differ by more than one step, and the verifier is again too far away.
redundant_runs :
    redundant_score (sample 2 ∷ sample 8 ∷ sample 3 ∷ []) 1 (some (sample 13))
    ≡ some (record { components = sample 3; escalated = true; low_confidence = of_value ∷ [] })
unfolding redundant_score aggregate_samples decide still_apart disagreeing_components
    component_spread contradicts fib_median_bucket sort place index_of nth
redundant_runs = refl

fib_median_bucket-balanced_example :
    (t : ℕ) × (fib_median_bucket (2 ∷ 8 ∷ 3 ∷ []) ≡ some t)
    × (has (2 ∷ 8 ∷ 3 ∷ []) t ≡ true)
    × (2 * how_many (λ x. ltb x t) (2 ∷ 8 ∷ 3 ∷ []) ≤ 3)
    × (2 * how_many (λ x. ltb t x) (2 ∷ 8 ∷ 3 ∷ []) ≤ 3)
fib_median_bucket-balanced_example =
    fib_median_bucket-balanced (2 ∷ 8 ∷ 3 ∷ []) (refl, (refl, (refl, tt))) (omega arith)
