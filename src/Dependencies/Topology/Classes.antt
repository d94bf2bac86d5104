-- ===== src/Dependencies/Topology/Classes.antt =====
-- The class that a project is given, against the trails of its edges.
use wood_fired_tasks.Prelude.{
  ℕ, ◌≡◌, ◌≢◌, refl, sym, subst, ◌∙◌, true, false, ◌⊎◌, inl, inr, some, List, [], ◌∷◌, ◌++◌, arith,
}
use mathlib.Core.List.{append_assoc}
use wood_fired_tasks.Dependencies.Trails.{Trail, IsAcyclic, Trail-map}
use wood_fired_tasks.Dependencies.CycleDetector.{Edge, detector, would_create_cycle}
use wood_fired_tasks.Dependencies.CycleDetector.Edges.{holds}
use wood_fired_tasks.Dependencies.CycleDetector.Answers.{
  Blocks, with_edge, would_create_cycle_correct,
}
use wood_fired_tasks.Dependencies.Service.Acyclic.{holds-append}
use wood_fired_tasks.Dependencies.Degrees.{project_edges}
use wood_fired_tasks.Dependencies.Topology.{
  Topology, flat, dag, dag_cyclic, Advisory, run_loop, run_loop_dag, refuse, Report, report_on,
  probe_each, classify_edges, classify,
}

abbrev pub HasCycle : List Edge → Type 0
HasCycle es = (w : ℕ) × Trail (Blocks es) w w

-- The edge that is held out, asked about, gives the edges back.
holds-held :
    (done rest : List Edge) (e : Edge) (u v : ℕ)
    → holds (with_edge (done ++ rest) e.task_id e.blocks_task_id) u v ≡ holds (done ++ e ∷ rest) u v
holds-held done rest e u v =
    ground (arith, holds-append done rest u v, holds-append done (e ∷ rest) u v)

-- One question settles it.
probe_correct :
    (done rest : List Edge) (e : Edge)
    → ((would_create_cycle (detector (done ++ rest)) e.task_id e.blocks_task_id).0 ≡ some true)
        × HasCycle (done ++ e ∷ rest)
      ⊎ ((would_create_cycle (detector (done ++ rest)) e.task_id e.blocks_task_id).0 ≡ some false)
        × IsAcyclic (Blocks (done ++ e ∷ rest))
probe_correct done rest e =
    elim (would_create_cycle_correct (done ++ rest) e.task_id e.blocks_task_id) [
      | inl (answer, (w, t)) ↦
          inl (answer, (w, Trail-map (λ a b h. sym (holds-held done rest e a b) ∙ h) t))
      | inr (answer, acyclic) ↦
          inr (answer, λ u t. acyclic u (Trail-map (λ a b h. holds-held done rest e a b ∙ h) t))
    ]

probe_each_correct :
    (done rest : List Edge)
    → (probe_each done rest ≡ some true) × HasCycle (done ++ rest)
      ⊎ (probe_each done rest ≡ some false) × ((rest ≡ []) ⊎ IsAcyclic (Blocks (done ++ rest)))
unfolding probe_each
probe_each_correct done [] = inr (refl, inl refl)
probe_each_correct done (e ∷ rest) = elim (probe_correct done rest e) [
  | inl (answer, cycle) ↦ inl (rw (probe_each, answer) refl, cycle)
  | inr (answer, acyclic) ↦ elim (probe_each_correct (done ++ e ∷ []) rest) [
    | inl (_, cycle) ↦
        let (w, t) = subst HasCycle (append_assoc done (e ∷ []) rest) cycle in absurd (acyclic w t)
    | inr (r, _) ↦ inr (rw (probe_each, answer) r, inr acyclic)
  ]
]

-- What a class says of the edges.
abbrev pub IsClass : List Edge → Topology → Type 0
IsClass es flat = es ≡ []
IsClass es dag = (es ≢ []) × IsAcyclic (Blocks es)
IsClass es dag_cyclic = HasCycle es

abbrev pub advice : Topology → Advisory
advice flat = run_loop
advice dag = run_loop_dag
advice dag_cyclic = refuse

classify_edges_correct :
    (nodes : List ℕ) (es : List Edge)
    → (r : Report) × (classify_edges nodes es ≡ some r)
      × IsClass es r.topology
      × (r.advisory ≡ advice r.topology)
unfolding classify_edges
classify_edges_correct nodes [] = (_, refl, refl, refl)
classify_edges_correct nodes (e ∷ es) = elim (probe_each_correct [] (e ∷ es)) [
  | inl (answer, cycle) ↦
      (report_on nodes (e ∷ es) true, rw (classify_edges, answer) refl, cycle, refl)
  | inr (answer, inl h) ↦ absurd (ground (arith, h))
  | inr (answer, inr acyclic) ↦ (
    report_on nodes (e ∷ es) false,
    rw (classify_edges, answer) refl,
    (λ h. ground (arith, h), acyclic),
    refl,
  )
]

-- A project is always classified: as flat without edges, as a graph without cycles where it has edges
-- and no task leads back to itself, and as cyclic where one does; the advice follows the class.
pub classify_correct :
    (nodes : List ℕ) (deps : List Edge)
    → (r : Report) × (classify nodes deps ≡ some r)
      × IsClass (project_edges nodes deps) r.topology
      × (r.advisory ≡ advice r.topology)
unfolding classify
classify_correct nodes deps = classify_edges_correct nodes (project_edges nodes deps)
