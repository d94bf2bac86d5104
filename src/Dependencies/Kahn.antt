-- ===== src/Dependencies/Kahn.antt =====
-- src/services/dependency-graph.service.ts: classifyTopologyInline and classifyFromInDegree, Kahn's
-- drain of a graph, from the ids of the tasks, each once. The array `frontier` is a stack, its end
-- first. `none` says that the fuel ran out; one more than the number of tasks is enough.
pub mod Counts
mod Examples
pub mod Loop
mod Drained
pub mod Labels
use wood_fired_tasks.Prelude.{
  ℕ, zero, suc, ◌-◌, Option, none, some, List, [], ◌∷◌, length, has, ◌==◌, if◌then◌else◌,
}
use wood_fired_tasks.Dependencies.CycleDetector.{Edge}
use wood_fired_tasks.Dependencies.Degrees.{Table, degree, set_degree, degrees, target}
use wood_fired_tasks.Dependencies.Topology.{Topology, flat, dag, dag_cyclic}

-- The ends of the edges that leave the node, in order.
unfoldable pub targets : List Edge → ℕ → List ℕ
targets [] id = []
targets (e ∷ es) id = if e.task_id == id then e.blocks_task_id ∷ targets es id else targets es id

-- `adj.get(id) ?? []`; the Map has an entry for each task.
unfoldable pub adjacent : List ℕ → List Edge → ℕ → List ℕ
adjacent nodes edges id = if has nodes id then targets edges id else []

unfoldable pub push_zeros : Table → List ℕ → List ℕ
push_zeros [] stack = stack
push_zeros ((id, d) ∷ t) stack = push_zeros t (if d == 0 then id ∷ stack else stack)

-- The loop over the neighbours. A degree of 0 would go negative and never be 0 again; here it stays
-- 0, and in both nothing is pushed.
unfoldable pub relax : List ℕ → Table → List ℕ → Table × List ℕ
relax [] t stack = (t, stack)
relax (n ∷ ns) t stack =
    relax ns (set_degree t n (degree t n - 1)) (if degree t n == 1 then n ∷ stack else stack)

unfoldable pub drain : ℕ → (ℕ → List ℕ) → Table → List ℕ → ℕ → Option ℕ
drain zero adj t stack drained = none
drain (suc fuel) adj t [] drained = some drained
drain (suc fuel) adj t (id ∷ stack) drained =
    let (t', stack') = relax (adj id) t stack in drain fuel adj t' stack' (suc drained)

abbrev pub label : ℕ → Option ℕ → Option Topology
label total none = none
label total (some drained) = some (if drained == total then dag else dag_cyclic)

unfoldable pub classify_from_in_degree : List ℕ → List Edge → Table → Option Topology
classify_from_in_degree nodes [] t = some flat
classify_from_in_degree nodes (e ∷ es) t =
    label (length nodes)
      (drain (suc (length nodes)) (adjacent nodes (e ∷ es)) t (push_zeros t []) 0)

unfoldable pub classify_topology_inline : List ℕ → List Edge → Option Topology
classify_topology_inline nodes [] = some flat
classify_topology_inline nodes (e ∷ es) =
    classify_from_in_degree nodes (e ∷ es) (degrees target nodes (e ∷ es))
