-- ===== src/Dependencies/Topology.antt =====
-- src/services/topology.service.ts: classify, from the ids of the tasks of a project, each once, and
-- all rows of the dependencies. `none` says that the fuel of the cycle detector ran out.
pub mod Classes
pub mod Ends
use wood_fired_tasks.Prelude.{
  ℕ, Bool, true, false, ◌||◌, ◌&&◌, Option, none, some, List, [], ◌∷◌, ◌++◌, keep, ltb, leb, ◌==◌,
  if◌then◌else◌,
}
use wood_fired_tasks.Prelude.Sort.{sort, ascending}
use wood_fired_tasks.Dependencies.CycleDetector.{Edge, detector, would_create_cycle}
use wood_fired_tasks.Dependencies.Degrees.{project_edges, Table, degree, degrees, source, target}

pub data Topology : Type 0 where
  flat dag dag_cyclic : Topology

-- What to run: `/tasks:loop`, `/tasks:loop-dag`, or nothing.
pub data Advisory : Type 0 where
  run_loop run_loop_dag refuse : Advisory

pub record Report : Type 0 where
  pub topology : Topology
  pub edges : List Edge
  pub roots : List ℕ
  pub leaves : List ℕ
  pub advisory : Advisory

-- The loop over the edges: each is held out and asked about.
unfoldable pub probe_each : List Edge → List Edge → Option Bool
probe_each done [] = some false
probe_each done (held ∷ rest) =
    elim (would_create_cycle (detector (done ++ rest)) held.task_id held.blocks_task_id).0 [
      | none ↦ none
      | some true ↦ some true
      | some false ↦ probe_each (done ++ held ∷ []) rest
    ]

-- `a.from - b.from || a.to - b.to`, not above 0.
unfoldable pub edge_before : Edge → Edge → Bool
edge_before a b =
    ltb a.task_id b.task_id || (a.task_id == b.task_id && leb a.blocks_task_id b.blocks_task_id)

-- The nodes that have degree 0, in ascending order.
unfoldable pub without_degree : Table → List ℕ → List ℕ
without_degree t nodes = keep (λ id. degree t id == 0) (ascending nodes)

-- The report on a project that has edges.
abbrev pub report_on : List ℕ → List Edge → Bool → Report
report_on nodes edges has_cycle = record {
  topology = if has_cycle then dag_cyclic else dag;
  edges = sort edge_before edges;
  roots = without_degree (degrees target nodes edges) nodes;
  leaves = without_degree (degrees source nodes edges) nodes;
  advisory = if has_cycle then refuse else run_loop_dag;
}

unfoldable pub classify_edges : List ℕ → List Edge → Option Report
classify_edges nodes [] = some (record {
  topology = flat;
  edges = [];
  roots = ascending nodes;
  leaves = ascending nodes;
  advisory = run_loop;
})
classify_edges nodes (e ∷ es) = elim (probe_each [] (e ∷ es)) [
  | none ↦ none
  | some has_cycle ↦ some (report_on nodes (e ∷ es) has_cycle)
]

unfoldable pub classify : List ℕ → List Edge → Option Report
classify nodes deps = classify_edges nodes (project_edges nodes deps)
