-- ===== src/Wsjf/Ranking.antt =====
-- src/services/wsjf.service.ts: rankFrontier, on the tasks of a project and all rows of the
-- dependencies. The Maps effectiveCoD and propagationOf are read once for each task, so here each
-- task computes its entries. Quotients are exact, where the source has doubles. A time is a number, and
-- so is the evidence, which is only passed on.
pub mod Distinct
pub mod Shares
pub mod Order
pub mod Rows
pub mod Positive
pub mod Sorted
mod Examples
pub mod Own
pub mod InScope
pub mod Whole
use wood_fired_tasks.Prelude.{
  ℕ, ◌+◌, ◌-◌, ◌*◌, ◌^◌, Bool, true, false, not, ◌&&◌, ◌||◌, Option, none, some, List, [], ◌∷◌,
  keep, length, ltb, leb, ◌==◌, if◌then◌else◌, max,
}
use wood_fired_tasks.Prelude.Options.{◌>>=◌}
use wood_fired_tasks.Prelude.Outcome.{Result, err, ok}
use wood_fired_tasks.Prelude.Sort.{sort, ascending}
use wood_fired_tasks.Errors.{ServiceError, business_error, diverged}
use wood_fired_tasks.Tasks.Status.{TaskStatus, done, closed, blocked, same}
use wood_fired_tasks.Dependencies.CycleDetector.{Edge}
use wood_fired_tasks.Dependencies.Degrees.{keys}
use wood_fired_tasks.Dependencies.Kahn.{adjacent}
use wood_fired_tasks.Dependencies.Topology.{Report, dag_cyclic, Topology, flat, dag, classify}
use wood_fired_tasks.Wsjf.Tiers.{Priority, Components, Ratio, compute_wsjf, priority_fallback_score}
use wood_fired_tasks.Wsjf.Closure.{Distances, distance_of, closure}

pub record ScoredTask : Type 0 where
  pub id : ℕ
  pub status : TaskStatus
  pub priority : Priority
  pub created_at : ℕ
  pub wsjf_value : Option ℕ
  pub wsjf_time_criticality : Option ℕ
  pub wsjf_risk_opportunity : Option ℕ
  pub wsjf_job_size : Option ℕ
  pub wsjf_evidence : Option ℕ

pub record Contribution : Type 0 where
  pub dependent_id : ℕ
  pub contribution : Ratio

pub record RankedTask : Type 0 where
  pub task_id : ℕ
  pub scored : Bool
  pub base_wsjf : Option Ratio
  pub effective_wsjf : Ratio
  pub components : Option Components
  pub propagation : List Contribution
  pub evidence : Option ℕ

-- 'frontier' and 'all'.
pub data Scope : Type 0 where
  frontier_only every_task : Scope

unfoldable pub task_ids : List ScoredTask → List ℕ
task_ids [] = []
task_ids (t ∷ ts) = t.id ∷ task_ids ts

-- `taskById.get(id)`.
unfoldable pub task_by_id : List ScoredTask → ℕ → Option ScoredTask
task_by_id [] id = none
task_by_id (t ∷ ts) id = if t.id == id then some t else task_by_id ts id

-- The four components, where hasComponents holds.
unfoldable pub has_components : ScoredTask → Option Components
has_components t = do
  value ← t.wsjf_value
  time ← t.wsjf_time_criticality
  risk ← t.wsjf_risk_opportunity
  size ← t.wsjf_job_size
  some (record { value = value; time_criticality = time; risk_opportunity = risk; job_size = size })

abbrev pub cost_of_delay : Components → ℕ
cost_of_delay c = c.value + c.time_criticality + c.risk_opportunity

-- `baseCoD.get(id)`.
unfoldable pub base_cod : List ScoredTask → ℕ → Option ℕ
base_cod tasks id = do t ← task_by_id tasks id; c ← has_components t; some (cost_of_delay c)

-- The base times 0.5 to the power of the distance less one.
abbrev pub halved : ℕ → ℕ → Ratio
halved base dist = record { numerator = base; denominator = 2 ^ (dist - 1) }

unfoldable pub contribution_of : List ScoredTask → Distances → ℕ → Option Contribution
contribution_of tasks distance id = do
  base ← base_cod tasks id
  dist ← distance_of distance id
  if base == 0 then none else some (record { dependent_id = id; contribution = halved base dist })

unfoldable pub contributions : List ScoredTask → Distances → List ℕ → List Contribution
contributions tasks distance [] = []
contributions tasks distance (id ∷ rest) =
    let later = contributions tasks distance rest in
    elim (contribution_of tasks distance id) [ none ↦ later | some c ↦ c ∷ later ]

abbrev pub dependent_ids : ℕ → Distances → List ℕ
dependent_ids id distance = ascending (keep (λ v. not (v == id)) (keys distance))

abbrev pub add_ratio : Ratio → Ratio → Ratio
add_ratio a b = record {
  numerator = a.numerator * b.denominator + b.numerator * a.denominator;
  denominator = a.denominator * b.denominator;
}

abbrev pub ratio_leb : Ratio → Ratio → Bool
ratio_leb a b = leb (a.numerator * b.denominator) (b.numerator * a.denominator)

unfoldable pub sum_from : Ratio → List Contribution → Ratio
sum_from sum [] = sum
sum_from sum (c ∷ cs) = sum_from (add_ratio sum c.contribution) cs

abbrev pub whole : ℕ → Ratio
whole n = record { numerator = n; denominator = 1 }

-- The base and the sum, not above three times the base.
unfoldable pub effective_cod : ℕ → List Contribution → Ratio
effective_cod base cs =
    let uncapped = add_ratio (whole base) (sum_from (whole 0) cs) in
    let cap = whole (base * 3) in if ratio_leb uncapped cap then uncapped else cap

abbrev pub over : Ratio → ℕ → Ratio
over r n = record { numerator = r.numerator; denominator = r.denominator * n }

abbrev pub scored_row : ScoredTask → Components → List Contribution → RankedTask
scored_row t c cs = record {
  task_id = t.id;
  scored = true;
  base_wsjf = some (compute_wsjf c);
  effective_wsjf = over (effective_cod (cost_of_delay c) cs) (max c.job_size 1);
  components = some c;
  propagation = cs;
  evidence = t.wsjf_evidence;
}

abbrev pub fallback_row : ScoredTask → RankedTask
fallback_row t = record {
  task_id = t.id;
  scored = false;
  base_wsjf = none;
  effective_wsjf = whole (priority_fallback_score t.priority);
  components = none;
  propagation = [];
  evidence = none;
}

-- The row of a task; `none` where the closure is `none`.
unfoldable pub ranked_task : List ScoredTask → List Edge → ScoredTask → Option RankedTask
ranked_task tasks edges t = elim (has_components t) [
  | none ↦ some (fallback_row t)
  | some c ↦ do
    distance ← closure (length (task_ids tasks)) (adjacent (task_ids tasks) edges) t.id
    some (scored_row t c (contributions tasks distance (dependent_ids t.id distance)))
]

unfoldable pub rank_each : List ScoredTask → List Edge → List ScoredTask → Option (List RankedTask)
rank_each tasks edges [] = some []
rank_each tasks edges (t ∷ ts) = do
  row ← ranked_task tasks edges t
  rows ← rank_each tasks edges ts
  some (row ∷ rows)

abbrev pub is_ranked_done : TaskStatus → Bool
is_ranked_done s = same s done || same s closed

unfoldable pub blocker_done : List ScoredTask → ℕ → Bool
blocker_done tasks id = elim (task_by_id tasks id) [
  | none ↦ true
  | some blocker ↦ is_ranked_done blocker.status
]

-- The loop over `blockersOf.get(t.id)`.
unfoldable pub blockers_all_done : List ScoredTask → List Edge → ℕ → Bool
blockers_all_done tasks [] id = true
blockers_all_done tasks (e ∷ es) id =
    (if e.blocks_task_id == id then blocker_done tasks e.task_id else true)
    && blockers_all_done tasks es id

unfoldable pub is_ready : List ScoredTask → List Edge → ScoredTask → Bool
is_ready tasks edges t = not (same t.status blocked) && blockers_all_done tasks edges t.id

unfoldable pub scoped : Scope → List ScoredTask → List Edge → List ScoredTask
scoped frontier_only tasks edges = keep (is_ready tasks edges) tasks
scoped every_task tasks edges = tasks

-- `taskById.get(id)!.created_at`; every row has its task.
abbrev pub created_of : List ScoredTask → ℕ → ℕ
created_of tasks id = elim (task_by_id tasks id) [ none ↦ 0 | some t ↦ t.created_at ]

-- The comparison of two rows, not above 0.
unfoldable pub rank_before : List ScoredTask → RankedTask → RankedTask → Bool
rank_before tasks a b =
    let created_a = created_of tasks a.task_id in
    let created_b = created_of tasks b.task_id in
    not (ratio_leb a.effective_wsjf b.effective_wsjf)
    || (ratio_leb b.effective_wsjf a.effective_wsjf
        && (ltb created_a created_b || (created_a == created_b && leb a.task_id b.task_id)))

unfoldable pub rank_report :
    Scope → List ScoredTask → Report → Topology → Result ServiceError (List RankedTask)
rank_report scope tasks report dag_cyclic = err business_error
rank_report scope tasks report _ =
    elim (rank_each tasks report.edges (scoped scope tasks report.edges)) [
      | none ↦ err diverged
      | some rows ↦ ok (sort (rank_before tasks) rows)
    ]

unfoldable pub rank_frontier :
    Scope → List ScoredTask → List Edge → Result ServiceError (List RankedTask)
rank_frontier scope tasks deps = elim (classify (task_ids tasks) deps) [
  | none ↦ err diverged
  | some report ↦ rank_report scope tasks report report.topology
]
