-- ===== src/Wsjf/Submission/Rules.antt =====
-- What a submission must be, said apart from the gate of src/services/wsjf.service.ts.
use wood_fired_tasks.Prelude.{
  ℕ, ◌+◌, ◌*◌, ◌≤◌, ◌<◌, ◌≡◌, ◌≢◌, ◌⊎◌, true, false, Option, none, some, List, [], ◌∷◌, ◌++◌, map,
  length, has,
}
use wood_fired_tasks.Prelude.Text.{Text, includes, lower}
use wood_fired_tasks.Wsjf.Tiers.{Components, any_keyword, typo_keywords, heavy_keywords}
use wood_fired_tasks.Wsjf.Submission.{
  Classification, Features, Theme, Charter, Context, find_theme, components_of, sum, squares,
}

-- A theme of the charter, or none where there is no charter.
abbrev pub ThemeFits : Option Charter → Option Text → Type 0
ThemeFits none none = Unit
ThemeFits none (some name) = ⊥
ThemeFits (some charter) none = ⊥
ThemeFits (some charter) (some name) =
    (theme : Theme) × (find_theme charter.value_themes name ≡ some theme)

-- The names and the descriptions of the themes, each on a line of its own.
unfoldable pub theme_lines : List Theme → Text
theme_lines [] = []
theme_lines (t ∷ ts) = 10 ∷ (t.name ++ 10 ∷ (t.description ++ theme_lines ts))

abbrev pub charter_lines : Option Charter → Text
charter_lines none = []
charter_lines (some charter) =
    charter.mission
    ++ 10
      ∷ (charter.time_context ++ 10 ∷ (charter.risk_posture ++ theme_lines charter.value_themes))

-- A span of evidence: not empty, and verbatim in the text of the task or on the lines of the charter.
abbrev pub IsEvident : Context → Text → Type 0
IsEvident ctx span =
    (span ≢ []) × (includes (ctx.source_text ++ 10 ∷ charter_lines ctx.charter) span ≡ true)

abbrev pub Between : ℕ → ℕ → ℕ → Type 0
Between low high tier = (low ≤ tier) × (tier ≤ high)

-- The band of a job: by the number of files, or by what the text says where that is not known.
abbrev pub SizeFits : Option ℕ → Text → ℕ → Type 0
SizeFits (some files) text tier =
    ((files ≤ 1) × Between 1 2 tier)
    ⊎ ((1 < files) × (files ≤ 3) × Between 2 5 tier)
    ⊎ ((3 < files) × (files ≤ 8) × Between 5 8 tier)
    ⊎ ((8 < files) × Between 8 13 tier)
SizeFits none text tier =
    ((any_keyword typo_keywords (lower text) ≡ true) × Between 1 3 tier)
    ⊎ ((any_keyword typo_keywords (lower text) ≡ false)
        × (any_keyword heavy_keywords (lower text) ≡ true)
        × Between 8 13 tier)
    ⊎ ((any_keyword typo_keywords (lower text) ≡ false)
        × (any_keyword heavy_keywords (lower text) ≡ false)
        × Between 1 13 tier)

-- A column has a 1 to be measured against, and the variance of its n numbers is at least one half:
-- (sum of squares) / n - (sum / n)^2, times 2 * n^2.
abbrev pub IsAnchored : List ℕ → Type 0
IsAnchored xs =
    (has xs 1 ≡ true)
    × (length xs * length xs + 2 * (sum xs * sum xs) ≤ 2 * (length xs * sum (squares xs)))

abbrev pub BatchFits : Option (List Components) → Type 0
BatchFits none = Unit
BatchFits (some batch) =
    IsAnchored (map (λ c. c.value) batch)
    × IsAnchored (map (λ c. c.time_criticality) batch)
    × IsAnchored (map (λ c. c.risk_opportunity) batch)

-- The variance is not one half, where rounding would decide.
abbrev pub IsApart : List ℕ → Type 0
IsApart xs = length xs * length xs + 2 * (sum xs * sum xs) ≢ 2 * (length xs * sum (squares xs))

abbrev pub BatchApart : Option (List Components) → Type 0
BatchApart none = Unit
BatchApart (some batch) =
    IsApart (map (λ c. c.value) batch)
    × IsApart (map (λ c. c.time_criticality) batch)
    × IsApart (map (λ c. c.risk_opportunity) batch)

pub record IsAcceptable (c : Classification) (f : Features) (ctx : Context) : Type 0 where
  pub tier : has (1 ∷ 2 ∷ 3 ∷ 5 ∷ 8 ∷ 13 ∷ []) c.job_size_tier ≡ true
  pub theme : ThemeFits ctx.charter c.theme_name
  pub value_span : IsEvident ctx c.evidence.of_value
  pub time_span : IsEvident ctx c.evidence.of_time_criticality
  pub risk_span : IsEvident ctx c.evidence.of_risk_opportunity
  pub size_span : IsEvident ctx c.evidence.of_job_size
  pub size : SizeFits f.files_touched ctx.source_text c.job_size_tier
  -- A trivial job is not worth the most.
  pub consistent : (c.job_size_tier ≢ 1) ⊎ ((components_of c f ctx).value ≢ 13)
  pub batch : BatchFits ctx.batch
