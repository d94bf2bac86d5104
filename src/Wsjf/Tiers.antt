-- ===== src/Wsjf/Tiers.antt =====
-- The tables of src/services/wsjf.service.ts from features to Fibonacci tiers. A tier is the
-- number that it is in the source; the day count may be negative.
pub mod Bounds
use wood_fired_tasks.Prelude.{
  ℕ, ◌+◌, ◌≡◌, ◌⊎◌, Bool, true, false, ◌||◌, Option, none, some, List, [], ◌∷◌, ltb, leb, ◌==◌,
  if◌then◌else◌, max,
}
use wood_fired_tasks.Prelude.Text.{Text, codes, includes, lower}

-- `Fib`, the closed set of tiers.
abbrev pub fib : List ℕ
fib = 1 ∷ 2 ∷ 3 ∷ 5 ∷ 8 ∷ 13 ∷ []

pub data AlignmentClass : Type 0 where
  none_aligned weak direct core : AlignmentClass

pub data SeverityClass : Type 0 where
  no_severity tech_debt security data_loss compliance : SeverityClass

pub data DecayClass : Type 0 where
  flat slow fast : DecayClass

pub data Priority : Type 0 where
  low medium high urgent : Priority

-- `negsuc n` is -(n + 1).
pub data ℤ : Type 0 where
  pos : ℕ → ℤ
  negsuc : ℕ → ℤ

clamp_from : List ℕ → ℕ → ℕ
clamp_from [] n = 13
clamp_from (tier ∷ tiers) n = if leb n tier then tier else clamp_from tiers n

unfoldable pub fib_clamp : ℕ → ℕ
unfolding clamp_from
fib_clamp n = clamp_from fib n

unfoldable pub tc_from_days_until : ℤ → ℕ
tc_from_days_until (negsuc n) = 13
tc_from_days_until (pos days) =
    if leb days 0
    then 13
    else if leb days 7
    then 8
    else if leb days 90
    then 5
    else if leb days 180
    then 3
    else if leb days 365
    then 2
    else 1

unfoldable pub tc_from_decay_class : DecayClass → ℕ
tc_from_decay_class flat = 1
tc_from_decay_class slow = 3
tc_from_decay_class fast = 5

unfoldable pub rr_from_fanout : ℕ → ℕ
rr_from_fanout n =
    if leb n 0 then 1 else if n == 1 then 3 else if leb n 3 then 5 else if leb n 7 then 8 else 13

unfoldable pub rr_from_severity : SeverityClass → ℕ
rr_from_severity no_severity = 1
rr_from_severity tech_debt = 3
rr_from_severity security = 8
rr_from_severity data_loss = 8
rr_from_severity compliance = 8

minutes_band : ℕ → ℕ
minutes_band minutes =
    if leb minutes 15
    then 1
    else if leb minutes 30
    then 2
    else if leb minutes 60
    then 3
    else if leb minutes 240
    then 5
    else if leb minutes 960
    then 8
    else 13

unfoldable pub minutes_to_tier : Option ℕ → ℕ
unfolding minutes_band
minutes_to_tier none = 3
minutes_to_tier (some minutes) = minutes_band minutes

pub typo_keywords : List Text
typo_keywords = codes "typo" ∷ codes "config" ∷ codes "copy" ∷ []

pub heavy_keywords : List Text
heavy_keywords = codes "refactor" ∷ codes "migrate" ∷ codes "rewrite" ∷ codes "new subsystem" ∷ []

pub any_keyword : List Text → Text → Bool
any_keyword [] text = false
any_keyword (k ∷ ks) text = includes text k || any_keyword ks text

pub record Band : Type 0 where
  pub band_low : ℕ
  pub band_high : ℕ

abbrev band : ℕ → ℕ → Band
band lo hi = record { band_low = lo; band_high = hi }

unfoldable pub job_size_band : Option ℕ → Text → Band
unfolding any_keyword typo_keywords heavy_keywords
job_size_band (some files) text =
    if leb files 1
    then band 1 2
    else if leb files 3
    then band 2 5
    else if leb files 8
    then band 5 8
    else band 8 13
job_size_band none text =
    if any_keyword typo_keywords (lower text)
    then band 1 3
    else if any_keyword heavy_keywords (lower text)
    then band 8 13
    else band 1 13

-- `FIB[FIB.indexOf(weight) - 1]`, and 1 for the first tier and for what is no tier.
step_from : ℕ → List ℕ → ℕ → ℕ
step_from below [] weight = 1
step_from below (tier ∷ tiers) weight =
    if tier == weight then below else step_from tier tiers weight

unfoldable pub one_step_down : ℕ → ℕ
unfolding step_from
one_step_down weight = step_from 1 fib weight

unfoldable pub ubv_from_theme_alignment : ℕ → AlignmentClass → ℕ
unfolding one_step_down
ubv_from_theme_alignment weight core = weight
ubv_from_theme_alignment weight direct = one_step_down weight
ubv_from_theme_alignment weight weak = one_step_down (one_step_down weight)
ubv_from_theme_alignment weight none_aligned = 1

pub record Components : Type 0 where
  pub value : ℕ
  pub time_criticality : ℕ
  pub risk_opportunity : ℕ
  pub job_size : ℕ

-- A quotient of numbers, which the source computes as a double.
pub record Ratio : Type 0 where
  pub numerator : ℕ
  pub denominator : ℕ

unfoldable pub compute_wsjf : Components → Ratio
compute_wsjf c = record {
  numerator = c.value + c.time_criticality + c.risk_opportunity;
  denominator = max c.job_size 1;
}

unfoldable pub priority_fallback_score : Priority → ℕ
priority_fallback_score urgent = 9
priority_fallback_score high = 6
priority_fallback_score medium = 3
priority_fallback_score low = 1

-- Whether the components contradict each other: one error at most.
unfoldable pub contradicts : Components → Bool
contradicts c = if c.job_size == 1 then c.value == 13 else false
