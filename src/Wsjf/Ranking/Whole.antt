-- ===== src/Wsjf/Ranking/Whole.antt =====
-- The ranking of a project.
use wood_fired_tasks.Prelude.{
  ℕ, ◌≡◌, ◌↔◌, refl, sym, ap, subst, ◌∙◌, ◌⊎◌, inl, inr, true, some, List, [], ◌∷◌, All, arith, has,
}
use wood_fired_tasks.Prelude.Outcome.{Result, err, ok}
use wood_fired_tasks.Prelude.Sort.{sort}
use wood_fired_tasks.Errors.{ServiceError, business_error}
use wood_fired_tasks.Dependencies.Trails.{Trail, one, more, IsAcyclic}
use wood_fired_tasks.Dependencies.CycleDetector.{Edge}
use wood_fired_tasks.Dependencies.CycleDetector.Answers.{Blocks}
use wood_fired_tasks.Dependencies.CycleDetector.Edges.{holds}
use wood_fired_tasks.Dependencies.Degrees.{uniq, project_edges}
use wood_fired_tasks.Dependencies.Kahn.{adjacent}
use wood_fired_tasks.Dependencies.Kahn.Labels.{project_edges-Inside}
use wood_fired_tasks.Dependencies.Topology.{Topology, flat, dag, dag_cyclic, Report, classify}
use wood_fired_tasks.Dependencies.Topology.Classes.{HasCycle, IsClass, classify_correct}
use wood_fired_tasks.Wsjf.Ranking.{
  ScoredTask, RankedTask, Scope, task_ids, task_by_id, scoped, rank_each, rank_before, rank_report,
  rank_frontier,
}
use wood_fired_tasks.Wsjf.Ranking.Order.{
  Ordered-sort, All-sort, rank_before-total, row_ids, has-row_ids-sort, uniq-row_ids-sort,
}
use wood_fired_tasks.Wsjf.Ranking.Sorted.{IsPositive, InOrder, Sorted-InOrder, Ordered-rows}
use wood_fired_tasks.Wsjf.Ranking.InScope.{IsInScope, classify_edges-holds, has-adjacent}
use wood_fired_tasks.Wsjf.Ranking.Own.{Own, All-Own-scoped, uniq-scoped, has-scoped}
use wood_fired_tasks.Wsjf.Ranking.Rows.{IsRanked, ranked_task-IsRanked}

rank_each-IsRanked :
    (tasks : List ScoredTask) (edges : List Edge)
    → uniq (task_ids tasks) ≡ true
    → ((v w : ℕ) → has (adjacent (task_ids tasks) edges v) w ≡ true → has (task_ids tasks) w ≡ true)
    → (ts : List ScoredTask) → All (Own tasks) ts
    → (rows : List RankedTask) × (rank_each tasks edges ts ≡ some rows)
      × (row_ids rows ≡ task_ids ts)
      × All (IsRanked tasks edges) rows
unfolding rank_each row_ids task_ids
rank_each-IsRanked tasks edges distinct inside [] own = ([], refl, refl, tt)
rank_each-IsRanked tasks edges distinct inside (t ∷ ts) ((there, found), own) =
    let (row, answer, named, ranked) =
      ranked_task-IsRanked tasks edges distinct inside t there found in
    let (rows, answers, names, all_ranked) =
      rank_each-IsRanked tasks edges distinct inside ts own in
    (row ∷ rows, rw (rank_each, answer, answers) refl, cc (named, names), (ranked, all_ranked))

-- What the answer is for: the rows of the tasks in scope, each once, each before all later ones.
pub record IsRanking (scope : Scope) (tasks : List ScoredTask) (deps : List Edge)
    (rows : List RankedTask) : Type 0 where
  pub edges : List Edge
  pub same_edges : (u v : ℕ) → holds edges u v ≡ holds (project_edges (task_ids tasks) deps) u v
  pub ranked : All (IsRanked tasks edges) rows
  pub ordered : InOrder tasks rows
  pub distinct : uniq (row_ids rows) ≡ true
  pub in_scope :
      (x : ℕ)
      → (has (row_ids rows) x ≡ true)
        ↔ ((t : ScoredTask) × (task_by_id tasks x ≡ some t) × IsInScope scope tasks edges t)

rows-IsPositive :
    (tasks : List ScoredTask) (edges : List Edge) (rows : List RankedTask)
    → All (IsRanked tasks edges) rows
    → All IsPositive rows
rows-IsPositive tasks edges [] h = tt
rows-IsPositive tasks edges (r ∷ rows) (is, h) = (is.positive, rows-IsPositive tasks edges rows h)

ranking :
    (scope : Scope) (tasks : List ScoredTask) (deps edges : List Edge)
    → uniq (task_ids tasks) ≡ true
    → ((u v : ℕ) → holds edges u v ≡ holds (project_edges (task_ids tasks) deps) u v)
    → (rows : List RankedTask) × (rank_each tasks edges (scoped scope tasks edges) ≡ some rows)
      × IsRanking scope tasks deps (sort (rank_before tasks) rows)
ranking scope tasks deps edges distinct same_edges =
    let inside : (v w : ℕ)
        → has (adjacent (task_ids tasks) edges v) w ≡ true
        → has (task_ids tasks) w ≡ true =
      λ v w h.
        (project_edges-Inside (task_ids tasks) deps v w
          (sym (same_edges v w) ∙ has-adjacent (task_ids tasks) edges v w h)).1 in
    let (rows, answer, names, all_ranked) =
      rank_each-IsRanked tasks edges distinct inside (scoped scope tasks edges)
        (All-Own-scoped scope tasks edges distinct) in
    let before = rank_before tasks in
    (
      rows,
      answer,
      record {
        edges = edges;
        same_edges = same_edges;
        ranked = All-sort before (IsRanked tasks edges) rows all_ranked;
        ordered = Sorted-InOrder tasks (sort before rows) (
            Ordered-rows tasks (sort before rows)
              (All-sort before IsPositive rows (rows-IsPositive tasks edges rows all_ranked))
              (Ordered-sort before (rank_before-total tasks) rows));
        distinct =
            uniq-row_ids-sort before rows ∙ ap uniq names ∙ uniq-scoped scope tasks edges distinct;
        in_scope = λ x.
            let e = has-row_ids-sort before rows x ∙ ap (λ l. has l x) names in
            let iff = has-scoped scope tasks edges x distinct in
            (λ h. iff.0 (sym e ∙ h), λ h. e ∙ iff.1 h);
      },
    )

no_first_edge : {u v : ℕ} → ¬ Trail (Blocks []) u v
no_first_edge (one e) = ground (arith, e)
no_first_edge (more e t) = ground (arith, e)

Trail-empty : IsAcyclic (Blocks [])
Trail-empty u t = no_first_edge t

rank_report-cases :
    (scope : Scope) (tasks : List ScoredTask) (deps : List Edge) (report : Report)
    (class : Topology)
    → uniq (task_ids tasks) ≡ true
    → IsClass (project_edges (task_ids tasks) deps) class
    → ((u v : ℕ) → holds report.edges u v ≡ holds (project_edges (task_ids tasks) deps) u v)
    → HasCycle (project_edges (task_ids tasks) deps)
        × (rank_report scope tasks report class ≡ err business_error)
      ⊎ IsAcyclic (Blocks (project_edges (task_ids tasks) deps))
        × (rows : List RankedTask) × (rank_report scope tasks report class ≡ ok rows)
        × IsRanking scope tasks deps rows
unfolding rank_report
rank_report-cases scope tasks deps report dag_cyclic distinct cycle same_edges = inl (cycle, refl)
rank_report-cases scope tasks deps report dag distinct (_, acyclic) same_edges =
    let (rows, answer, is) = ranking scope tasks deps report.edges distinct same_edges in
    inr (acyclic, sort (rank_before tasks) rows, rw (rank_report, answer) refl, is)
rank_report-cases scope tasks deps report flat distinct empty same_edges =
    let (rows, answer, is) = ranking scope tasks deps report.edges distinct same_edges in
    inr (
      subst (λ es. IsAcyclic (Blocks es)) (sym empty) Trail-empty,
      sort (rank_before tasks) rows,
      rw (rank_report, answer) refl,
      is,
    )

rank_frontier-report :
    (scope : Scope) (tasks : List ScoredTask) (deps : List Edge) (report : Report)
    → classify (task_ids tasks) deps ≡ some report
    → rank_frontier scope tasks deps ≡ rank_report scope tasks report report.topology
unfolding rank_frontier
rank_frontier-report scope tasks deps report h = rw (rank_frontier, h) refl

-- On tasks with distinct ids the ranking is refused exactly where the rows of the project have a
-- cycle. Otherwise it holds one row for each task in scope, by falling score, then time of creation,
-- then id. An unscored task has the fallback row. A scored one lists each scored task behind it, with the base of
-- that halved for each step of a shortest way after the first, and ranks with the capped sum, from
-- once to three times its own base.
pub rank_frontier_correct :
    (scope : Scope) (tasks : List ScoredTask) (deps : List Edge)
    → uniq (task_ids tasks) ≡ true
    → HasCycle (project_edges (task_ids tasks) deps)
        × (rank_frontier scope tasks deps ≡ err business_error)
      ⊎ IsAcyclic (Blocks (project_edges (task_ids tasks) deps))
        × (rows : List RankedTask) × (rank_frontier scope tasks deps ≡ ok rows)
        × IsRanking scope tasks deps rows
unfolding rank_frontier classify
rank_frontier_correct scope tasks deps distinct =
    let (report, answer, class, _) = classify_correct (task_ids tasks) deps in
    let same_edges = λ (u v : ℕ).
      classify_edges-holds (task_ids tasks) (project_edges (task_ids tasks) deps) report u v
        answer in
    subst
      (λ (result : Result ServiceError (List RankedTask)).
        HasCycle (project_edges (task_ids tasks) deps) × (result ≡ err business_error)
        ⊎ IsAcyclic (Blocks (project_edges (task_ids tasks) deps))
          × (rows : List RankedTask) × (result ≡ ok rows)
          × IsRanking scope tasks deps rows)
      (sym (rank_frontier-report scope tasks deps report answer))
      (rank_report-cases scope tasks deps report report.topology distinct class same_edges)
