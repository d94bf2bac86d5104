-- ===== src/Wsjf/Ranking/Examples.antt =====
-- A task that blocks two others, which block a fourth.
use wood_fired_tasks.Prelude.{ℕ, ◌≡◌, ◌↔◌, ◌⊎◌, refl, true, none, some, List, [], ◌∷◌, length, has}
use wood_fired_tasks.Prelude.Outcome.{err, ok}
use wood_fired_tasks.Errors.{business_error}
use wood_fired_tasks.Tasks.Status.{opened, done}
use wood_fired_tasks.Dependencies.Trails.{IsAcyclic}
use wood_fired_tasks.Dependencies.CycleDetector.{Edge}
use wood_fired_tasks.Dependencies.CycleDetector.Answers.{Blocks}
use wood_fired_tasks.Dependencies.Degrees.{uniq, project_edges}
use wood_fired_tasks.Dependencies.Kahn.{adjacent, targets}
use wood_fired_tasks.Dependencies.Kahn.Labels.{project_edges-Inside}
use wood_fired_tasks.Dependencies.Topology.Classes.{HasCycle}
use wood_fired_tasks.Wsjf.Tiers.{high}
use wood_fired_tasks.Wsjf.Closure.{Distances, distance_of, reach_each, search, closure}
use wood_fired_tasks.Wsjf.Closure.Ways.{IsShortest}
use wood_fired_tasks.Wsjf.Closure.Shortest.{closure-IsShortest}
use wood_fired_tasks.Wsjf.Ranking.{ScoredTask, RankedTask, frontier_only, task_ids, rank_frontier}
use wood_fired_tasks.Wsjf.Ranking.InScope.{has-adjacent}
use wood_fired_tasks.Wsjf.Ranking.Whole.{IsRanking, rank_frontier_correct}

abbrev edge : ℕ → ℕ → Edge
edge from to = record { task_id = from; blocks_task_id = to }

abbrev diamond : List Edge
diamond = edge 1 2 ∷ edge 1 3 ∷ edge 2 4 ∷ edge 3 4 ∷ edge 1 4 ∷ []

abbrev nodes : List ℕ
nodes = 1 ∷ 2 ∷ 3 ∷ 4 ∷ []

diamond-inside : (v w : ℕ) → has (adjacent nodes diamond v) w ≡ true → has nodes w ≡ true
unfolding project_edges has
diamond-inside v w h = (project_edges-Inside nodes diamond v w (has-adjacent nodes diamond v w h)).1

nodes-uniq : uniq nodes ≡ true
unfolding uniq has
nodes-uniq = refl

root-inside : has nodes 1 ≡ true
unfolding has
root-inside = refl

diamond-closure :
    closure 4 (adjacent nodes diamond) 1 ≡ some ((1, 0) ∷ (2, 1) ∷ (3, 1) ∷ (4, 1) ∷ [])
unfolding closure search reach_each distance_of adjacent targets has
diamond-closure = refl

closure-IsShortest_example :
    (found : Distances) × (closure (length nodes) (adjacent nodes diamond) 1 ≡ some found)
    × ((v d : ℕ) → (distance_of found v ≡ some d) ↔ IsShortest (adjacent nodes diamond) 1 v d)
closure-IsShortest_example =
    closure-IsShortest nodes (adjacent nodes diamond) 1 nodes-uniq diamond-inside root-inside

-- A task with its base in one component, or none.
abbrev scored_task : ℕ → ℕ → ScoredTask
scored_task id value = record {
  id = id;
  status = opened;
  priority = high;
  created_at = id;
  wsjf_value = some value;
  wsjf_time_criticality = some 1;
  wsjf_risk_opportunity = some 1;
  wsjf_job_size = some 2;
  wsjf_evidence = none;
}

abbrev tasks : List ScoredTask
tasks =
    scored_task 1 1
    ∷ scored_task 2 3
    ∷ scored_task 3 5
    ∷ record (scored_task 4 8) { wsjf_value = none; status = done }
    ∷ []

tasks-uniq : uniq (task_ids tasks) ≡ true
unfolding uniq has task_ids
tasks-uniq = refl

rank_frontier_correct_example :
    HasCycle (project_edges (task_ids tasks) diamond)
      × (rank_frontier frontier_only tasks diamond ≡ err business_error)
    ⊎ IsAcyclic (Blocks (project_edges (task_ids tasks) diamond))
      × (rows : List RankedTask) × (rank_frontier frontier_only tasks diamond ≡ ok rows)
      × IsRanking frontier_only tasks diamond rows
rank_frontier_correct_example = rank_frontier_correct frontier_only tasks diamond tasks-uniq
