-- ===== src/Dependencies/Kahn/Examples.antt =====
-- Two small projects: a chain, and a loop with a row that leaves the project.
use wood_fired_tasks.Prelude.{ℕ, ◌≡◌, refl, some, true, List, [], ◌∷◌, has}
use wood_fired_tasks.Dependencies.CycleDetector.{Edge}
use wood_fired_tasks.Dependencies.Service.Acyclic.{row}
use wood_fired_tasks.Dependencies.Degrees.{
  degree, set_degree, zeros, bump_all, degrees, uniq, project_edges,
}
use wood_fired_tasks.Dependencies.Topology.{flat, dag, dag_cyclic, Report, classify}
use wood_fired_tasks.Dependencies.Topology.Classes.{IsClass, advice, classify_correct}
use wood_fired_tasks.Dependencies.Kahn.{
  targets, adjacent, push_zeros, relax, drain, classify_from_in_degree, classify_topology_inline,
}
use wood_fired_tasks.Dependencies.Kahn.Labels.{classify_iff_inline}

abbrev nodes : List ℕ
nodes = 3 ∷ 1 ∷ 2 ∷ []

abbrev chain : List Edge
chain = row 1 2 ∷ row 2 3 ∷ []

abbrev looped : List Edge
looped = row 2 3 ∷ row 1 2 ∷ row 3 1 ∷ row 3 9 ∷ []

runs : Unit {0}
unfolding classify_topology_inline classify_from_in_degree drain relax push_zeros adjacent targets
    degrees bump_all zeros set_degree degree project_edges has
runs = tt

labels :
    (classify_topology_inline nodes [] ≡ some flat)
    × (classify_topology_inline nodes chain ≡ some dag)
    × (classify_topology_inline nodes (project_edges nodes looped) ≡ some dag_cyclic)
unfolding runs
labels = (refl, refl, refl)

nodes-uniq : uniq nodes ≡ true
unfolding uniq has
nodes-uniq = refl

classify_correct_example :
    (r : Report) × (classify nodes looped ≡ some r)
    × IsClass (project_edges nodes looped) r.topology
    × (r.advisory ≡ advice r.topology)
classify_correct_example = classify_correct nodes looped

classify_iff_inline_example :
    (r : Report) × (classify nodes looped ≡ some r)
    × (classify_topology_inline nodes (project_edges nodes looped) ≡ some r.topology)
classify_iff_inline_example = classify_iff_inline nodes looped nodes-uniq
