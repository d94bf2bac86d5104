-- ===== src/Wsjf/Ranking/Rows.antt =====
-- What a row says of its task.
use native.Mathlib.Nat.{mul-le-mul_right, mul_assoc}
use wood_fired_tasks.Prelude.{
  ℕ, ◌*◌, ◌≤◌, ◌≡◌, refl, sym, subst, inl, inr, true, Option, none, some, List, arith, has, leb→le,
  Bool-cases, Option-cases, max,
}
use wood_fired_tasks.Dependencies.CycleDetector.{Edge}
use wood_fired_tasks.Dependencies.Degrees.{uniq}
use wood_fired_tasks.Dependencies.Kahn.{adjacent}
use wood_fired_tasks.Wsjf.Tiers.{Components, Ratio, compute_wsjf}
use wood_fired_tasks.Wsjf.Ranking.{
  ScoredTask, Contribution, RankedTask, task_ids, task_by_id, has_components, cost_of_delay,
  contributions, dependent_ids, add_ratio, ratio_leb, sum_from, whole, effective_cod, over,
  scored_row, fallback_row, ranked_task,
}
use wood_fired_tasks.Wsjf.Ranking.Sorted.{IsPositive}
use wood_fired_tasks.Wsjf.Ranking.Positive.{effective-positive}
use wood_fired_tasks.Wsjf.Ranking.Shares.{IsShared, contributions-IsShared}

-- The order of quotients.
abbrev pub AtMost : Ratio → Ratio → Type 0
AtMost a b = a.numerator * b.denominator ≤ b.numerator * a.denominator

abbrev pub thrice : Ratio → Ratio
thrice r = record { numerator = r.numerator * 3; denominator = r.denominator }

effective_cod-bounds :
    (base : ℕ) (cs : List Contribution)
    → AtMost (whole base) (effective_cod base cs)
      × AtMost (effective_cod base cs) (whole (base * 3))
unfolding effective_cod
effective_cod-bounds base cs =
    let sum = add_ratio (whole base) (sum_from (whole 0) cs) in
    elim (Bool-cases (ratio_leb sum (whole (base * 3)))) [
      | inl fits ↦
          rw (effective_cod, fits)
            (omega arith, leb→le (sum.numerator * 1) (base * 3 * sum.denominator) fits)
      | inr much ↦ rw (effective_cod, much) (omega arith, omega arith)
    ]

-- The job size divides both sides.
over-bounds :
    (base : ℕ) (e : Ratio) (size : ℕ)
    → AtMost (whole base) e × AtMost e (whole (base * 3))
    → (base * (e.denominator * size) ≤ e.numerator * size)
      × (e.numerator * size ≤ base * 3 * (e.denominator * size))
over-bounds base e size (low, high) = (
  omega (
    arith,
    mul-le-mul_right {m = base * e.denominator} {n = e.numerator * 1} size low,
    mul_assoc base e.denominator size,
    mul_assoc e.numerator 1 size,
  ),
  omega (
    arith,
    mul-le-mul_right {m = e.numerator * 1} {n = base * 3 * e.denominator} size high,
    mul_assoc (base * 3) e.denominator size,
    mul_assoc e.numerator 1 size,
  ),
)

-- The row of a task that is scored.
pub record IsScored (tasks : List ScoredTask) (edges : List Edge) (t : ScoredTask) (c : Components)
    (r : RankedTask) : Type 0 where
  pub is_scored : r.scored ≡ true
  pub of_components : r.components ≡ some c
  pub of_base : r.base_wsjf ≡ some (compute_wsjf c)
  pub shared : IsShared tasks (adjacent (task_ids tasks) edges) t.id r.propagation
  pub capped_sum :
      r.effective_wsjf ≡ over (effective_cod (cost_of_delay c) r.propagation) (max c.job_size 1)
  pub at_least : AtMost (compute_wsjf c) r.effective_wsjf
  pub at_most : AtMost r.effective_wsjf (thrice (compute_wsjf c))

abbrev pub Fits : List ScoredTask → List Edge → ScoredTask → RankedTask → Option Components → Type 0
Fits tasks edges t r none = r ≡ fallback_row t
Fits tasks edges t r (some c) = IsScored tasks edges t c r

-- A row has the id of its task and fits it.
pub record IsRanked (tasks : List ScoredTask) (edges : List Edge) (r : RankedTask) : Type 0 where
  pub task : ScoredTask
  pub by_id : task_by_id tasks r.task_id ≡ some task
  pub fits : Fits tasks edges task r (has_components task)
  pub positive : IsPositive r

scored_row-IsScored :
    (tasks : List ScoredTask) (edges : List Edge) (t : ScoredTask) (c : Components)
    (cs : List Contribution)
    → IsShared tasks (adjacent (task_ids tasks) edges) t.id cs
    → IsScored tasks edges t c (scored_row t c cs)
unfolding compute_wsjf
scored_row-IsScored tasks edges t c cs shared =
    let base = cost_of_delay c in
    let bounds =
      over-bounds base (effective_cod base cs) (max c.job_size 1) (effective_cod-bounds base cs) in
    record {
      is_scored = refl;
      of_components = refl;
      of_base = refl;
      shared = shared;
      capped_sum = refl;
      at_least = bounds.0;
      at_most = bounds.1;
    }

-- Every task has a row.
pub ranked_task-IsRanked :
    (tasks : List ScoredTask) (edges : List Edge)
    → uniq (task_ids tasks) ≡ true
    → ((v w : ℕ) → has (adjacent (task_ids tasks) edges v) w ≡ true → has (task_ids tasks) w ≡ true)
    → (t : ScoredTask) → has (task_ids tasks) t.id ≡ true
    → task_by_id tasks t.id ≡ some t
    → (r : RankedTask) × (ranked_task tasks edges t ≡ some r)
      × (r.task_id ≡ t.id)
      × IsRanked tasks edges r
unfolding ranked_task
ranked_task-IsRanked tasks edges distinct inside t there by_id =
    elim (Option-cases (has_components t)) [
      | inl unscored ↦ (
        fallback_row t,
        rw (ranked_task, unscored) refl,
        refl,
        record {
          task = t;
          by_id = by_id;
          fits = subst (Fits tasks edges t (fallback_row t)) (sym unscored) refl;
          positive = omega arith;
        },
      )
      | inr (c, scored) ↦
          let (found, ends, shared) =
            contributions-IsShared tasks (task_ids tasks) (adjacent (task_ids tasks) edges) t.id
              distinct inside there in
          let row = scored_row t c (contributions tasks found (dependent_ids t.id found)) in
          (
            row,
            rw (ranked_task, scored, ends) refl,
            refl,
            record {
              task = t;
              by_id = by_id;
              fits = subst (Fits tasks edges t row) (sym scored) (
                  scored_row-IsScored tasks edges t c
                    (contributions tasks found (dependent_ids t.id found)) shared);
              positive =
                  effective-positive tasks found (dependent_ids t.id found) (cost_of_delay c)
                    c.job_size;
            },
          )
    ]
