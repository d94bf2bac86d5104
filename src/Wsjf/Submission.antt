-- ===== src/Wsjf/Submission.antt =====
-- The gate of src/services/wsjf.service.ts: validateScoreSubmission and what a subtask inherits. Texts
-- are lists of code units, days may be negative, counts are natural numbers. The variance is compared
-- exactly, where the source computes it with doubles, so they may differ where it is one half.
pub mod Accepted
pub mod Rules
use wood_fired_tasks.Prelude.{
  ℕ, ◌+◌, ◌*◌, ◌<◌, Bool, true, false, not, ◌&&◌, ◌||◌, Option, none, some, List, [], ◌∷◌, ◌++◌,
  map, length, max, ltb, leb, ◌==◌, if◌then◌else◌,
}
use wood_fired_tasks.Prelude.Text.{Text, text_eq, includes}
use wood_fired_tasks.Wsjf.Tiers.{
  ℤ, AlignmentClass, SeverityClass, DecayClass, flat, Components, Band, tc_from_days_until,
  tc_from_decay_class, rr_from_fanout, rr_from_severity, ubv_from_theme_alignment, job_size_band,
  contradicts,
}
use wood_fired_tasks.Wsjf.Tiers.Bounds.{is_fib}

pub record Evidence : Type 0 where
  pub of_value : Text
  pub of_time_criticality : Text
  pub of_risk_opportunity : Text
  pub of_job_size : Text

pub record Classification : Type 0 where
  pub theme_name : Option Text
  pub alignment : AlignmentClass
  pub severity : SeverityClass
  pub decay : Option DecayClass
  pub job_size_tier : ℕ
  pub evidence : Evidence

pub record Features : Type 0 where
  pub days_until_deadline : Option ℤ
  pub transitive_dependents : ℕ
  pub files_touched : Option ℕ

pub record Theme : Type 0 where
  pub name : Text
  pub description : Text
  pub weight : ℕ

pub record Charter : Type 0 where
  pub mission : Text
  pub time_context : Text
  pub risk_posture : Text
  pub value_themes : List Theme

pub record Context : Type 0 where
  pub charter : Option Charter
  pub source_text : Text
  pub batch : Option (List Components)

-- One constructor for each message, with the column that it is about.
pub data Fault : Type 0 where
  bad_shape theme_without_charter no_theme unknown_theme outside_band contradiction : Fault
  not_verbatim no_anchor low_variance : ℕ → Fault

abbrev pub report : Bool → Fault → List Fault
report true fault = fault ∷ []
report false fault = []

abbrev pub is_empty : Text → Bool
is_empty [] = true
is_empty (c ∷ cs) = false

-- ScoreSubmissionSchema, on values of the right types.
unfoldable pub well_shaped : Classification → Bool
well_shaped c =
    is_fib c.job_size_tier
    && not (is_empty c.evidence.of_value)
    && not (is_empty c.evidence.of_time_criticality)
    && not (is_empty c.evidence.of_risk_opportunity)
    && not (is_empty c.evidence.of_job_size)

abbrev pub find_theme : List Theme → Text → Option Theme
find_theme [] name = none
find_theme (t ∷ ts) name = if text_eq t.name name then some t else find_theme ts name

abbrev pub is_none {ℓ} : {A : Type ℓ} → Option A → Bool
is_none none = true
is_none (some a) = false

unfoldable pub check_theme : Option Charter → Option Text → List Fault
check_theme none none = []
check_theme none (some name) = theme_without_charter ∷ []
check_theme (some charter) none = no_theme ∷ []
check_theme (some charter) (some name) =
    report (is_none (find_theme charter.value_themes name)) unknown_theme

-- `.join('\n')`.
unfoldable pub join_lines : List Text → Text
join_lines [] = []
join_lines (line ∷ []) = line
join_lines (line ∷ next ∷ lines) = line ++ 10 ∷ join_lines (next ∷ lines)

unfoldable pub theme_texts : List Theme → List Text
theme_texts [] = []
theme_texts (t ∷ ts) = t.name ∷ t.description ∷ theme_texts ts

unfoldable pub charter_text : Option Charter → Text
charter_text none = []
charter_text (some charter) = join_lines (
    charter.mission
    ∷ charter.time_context
    ∷ charter.risk_posture
    ∷ theme_texts charter.value_themes)

unfoldable pub source_of : Context → Text
source_of ctx = ctx.source_text ++ 10 ∷ charter_text ctx.charter

unfoldable pub check_evidence : Text → Evidence → List Fault
check_evidence source e =
    report (not (includes source e.of_value)) (not_verbatim 0)
    ++ report (not (includes source e.of_time_criticality)) (not_verbatim 1)
    ++ report (not (includes source e.of_risk_opportunity)) (not_verbatim 2)
    ++ report (not (includes source e.of_job_size)) (not_verbatim 3)

unfoldable pub check_band : Band → ℕ → List Fault
check_band band tier = report (ltb tier band.band_low || ltb band.band_high tier) outside_band

abbrev pub weight_of : Option Theme → ℕ
weight_of none = 1
weight_of (some theme) = theme.weight

-- `ubvFor`.
unfoldable pub ubv_for : Classification → Option Charter → ℕ
ubv_for c none = ubv_from_theme_alignment 1 c.alignment
ubv_for c (some charter) = elim c.theme_name [
  | none ↦ ubv_from_theme_alignment 1 c.alignment
  | some name ↦
      ubv_from_theme_alignment (weight_of (find_theme charter.value_themes name)) c.alignment
]

abbrev or_flat : Option DecayClass → DecayClass
or_flat none = flat
or_flat (some d) = d

unfoldable pub time_criticality_of : Features → Option DecayClass → ℕ
time_criticality_of f decay = elim f.days_until_deadline [
  | none ↦ tc_from_decay_class (or_flat decay)
  | some days ↦ tc_from_days_until days
]

-- The components that the server computes.
unfoldable pub components_of : Classification → Features → Context → Components
components_of c f ctx = record {
  value = ubv_for c ctx.charter;
  time_criticality = time_criticality_of f c.decay;
  risk_opportunity = max (rr_from_fanout f.transitive_dependents) (rr_from_severity c.severity);
  job_size = c.job_size_tier;
}

unfoldable pub sum : List ℕ → ℕ
sum [] = 0
sum (x ∷ xs) = x + sum xs

abbrev pub squares : List ℕ → List ℕ
squares xs = map (λ x. x * x) xs

-- Population variance below a half: with n numbers, n * (sum of squares) - (sum)^2 over n^2.
unfoldable pub low_spread : List ℕ → Bool
low_spread [] = true
low_spread (x ∷ xs) =
    let n = length (x ∷ xs) in
    ltb (2 * (n * sum (squares (x ∷ xs)))) (n * n + 2 * (sum (x ∷ xs) * sum (x ∷ xs)))

abbrev pub has_one : List ℕ → Bool
has_one [] = false
has_one (x ∷ xs) = x == 1 || has_one xs

abbrev pub column_faults : ℕ → List ℕ → List Fault
column_faults col xs =
    report (not (has_one xs)) (no_anchor col) ++ report (low_spread xs) (low_variance col)

unfoldable pub check_batch : Option (List Components) → List Fault
check_batch none = []
check_batch (some batch) =
    column_faults 0 (map (λ c. c.value) batch)
    ++ column_faults 1 (map (λ c. c.time_criticality) batch)
    ++ column_faults 2 (map (λ c. c.risk_opportunity) batch)

-- `validateScoreSubmission`: the components, with the faults that reject them.
unfoldable pub validate_score_submission :
    Classification → Features → Context → Components × List Fault
validate_score_submission c f ctx =
    let components = components_of c f ctx in
    (
      components,
      if well_shaped c
          then check_theme ctx.charter c.theme_name
            ++ check_evidence (source_of ctx) c.evidence
            ++ check_band (job_size_band f.files_touched ctx.source_text) c.job_size_tier
            ++ report (contradicts components) contradiction
            ++ check_batch ctx.batch
          else bad_shape ∷ [],
    )

-- `validateManualScore`, on values of the right types.
unfoldable pub validate_manual_score : Components → Components × List Fault
validate_manual_score components = (
  components,
  if is_fib components.value
        && is_fib components.time_criticality
        && is_fib components.risk_opportunity
        && is_fib components.job_size
      then report (contradicts components) contradiction
      else bad_shape ∷ [],
)

-- What a subtask inherits from its parent, `derivePropagatedValuePrior`.
pub record Prior : Type 0 where
  pub prior_value : ℕ
  pub prior_theme : Option Text
  pub human_anchored : Bool

unfoldable pub derive_propagated_value_prior :
    Option ℕ → Option Classification → Option Bool → Option Prior
derive_propagated_value_prior none classification manual = none
derive_propagated_value_prior (some value) classification manual = some (record {
  prior_value = value;
  prior_theme = elim classification [ none ↦ none | some c ↦ c.theme_name ];
  human_anchored = elim manual [ none ↦ false | some b ↦ b ];
})
