-- ===== src/Dependencies/Kahn/Labels.antt =====
-- The label that Kahn's drain gives, against the trails of the edges and against TopologyService.
use wood_fired_tasks.Prelude.{
  ℕ, suc, ◌≡◌, refl, sym, ap, subst, ◌∙◌, inl, inr, true, ◌&&◌, some, List, [], ◌∷◌, arith, has,
  length, ◌==◌, ==_iff, Bool-cases,
}
use wood_fired_tasks.Dependencies.Trails.{Trail, one, more}
use wood_fired_tasks.Dependencies.CycleDetector.{Edge}
use wood_fired_tasks.Dependencies.CycleDetector.Answers.{Blocks}
use wood_fired_tasks.Dependencies.CycleDetector.Finite.{cycle-or_not}
use wood_fired_tasks.Dependencies.Degrees.{Table, degrees, uniq, target, project_edges}
use wood_fired_tasks.Dependencies.Topology.{Topology, flat, dag, dag_cyclic, Report, classify}
use wood_fired_tasks.Dependencies.Topology.Classes.{IsClass, classify_correct}
use wood_fired_tasks.Dependencies.Kahn.{
  adjacent, push_zeros, drain, label, classify_from_in_degree, classify_topology_inline,
}
use wood_fired_tasks.Dependencies.Kahn.Counts.{count_in}
use wood_fired_tasks.Dependencies.Kahn.Loop.{Inside, Drained, drain-Drained}
use wood_fired_tasks.Dependencies.Kahn.Drained.{
  start-IsDraining, drained_all, drained_all-IsAcyclic, count_in-nil,
}

no-Trail : {u v : ℕ} → ¬ Trail (Blocks []) u v
no-Trail (one e) = ground (arith, e)
no-Trail (more e t) = ground (arith, e)

-- Both classes can only be one.
IsClass-unique : (es : List Edge) (a b : Topology) → IsClass es a → IsClass es b → a ≡ b
IsClass-unique es flat flat h k = refl
IsClass-unique es dag dag h k = refl
IsClass-unique es dag_cyclic dag_cyclic h k = refl
IsClass-unique es flat dag h (k, _) = absurd (k h)
IsClass-unique es dag flat (h, _) k = absurd (h k)
IsClass-unique es dag dag_cyclic (_, h) (w, t) = absurd (h w t)
IsClass-unique es dag_cyclic dag (w, t) (_, k) = absurd (k w t)
IsClass-unique es flat dag_cyclic h (w, t) =
    absurd (no-Trail (subst (λ fs. Trail (Blocks fs) w w) h t))
IsClass-unique es dag_cyclic flat (w, t) k =
    absurd (no-Trail (subst (λ fs. Trail (Blocks fs) w w) k t))

-- On tasks that are named once and edges between them, Kahn's drain ends, and its label is right: flat
-- without edges, a graph without cycles where no task leads back to itself, cyclic where one does.
pub classify_topology_inline_correct :
    (nodes : List ℕ) (es : List Edge)
    → Inside nodes es
    → uniq nodes ≡ true
    → (c : Topology) × (classify_topology_inline nodes es ≡ some c) × IsClass es c
unfolding classify_topology_inline classify_from_in_degree
classify_topology_inline_correct nodes [] inside u = (flat, refl, refl)
classify_topology_inline_correct nodes (e ∷ es) inside u =
    elim (Bool-cases (count_in nodes d.last == length nodes)) [
      | inl full ↦ (
        dag,
        ap (label (length nodes)) answer ∙ rw (full) refl,
        (
          λ h. ground (arith, h),
          drained_all-IsAcyclic nodes (e ∷ es) inside d.last d.table d.draining
              ((==_iff _ _).0 full),
        ),
      )
      | inr short ↦ (
        dag_cyclic,
        ap (label (length nodes)) answer ∙ rw (short) refl,
        elim (cycle-or_not (e ∷ es)) [
          | inl cycle ↦ cycle
          | inr acyclic ↦ absurd (
              ground
                (arith, short, drained_all nodes (e ∷ es) inside d.last d.table d.draining acyclic))
        ],
      )
    ]
  where
    t : Table
    t = degrees target nodes (e ∷ es)

    d : Drained nodes (e ∷ es) (suc (length nodes)) t (push_zeros t []) (count_in nodes [])
    d =
        drain-Drained nodes (e ∷ es) (suc (length nodes)) [] t (push_zeros t []) inside u
          (start-IsDraining nodes (e ∷ es) inside) (omega arith)

    answer :
        drain (suc (length nodes)) (adjacent nodes (e ∷ es)) t (push_zeros t []) 0
        ≡ some (count_in nodes d.last)
    answer =
        ap (drain (suc (length nodes)) (adjacent nodes (e ∷ es)) t (push_zeros t []))
          (sym (count_in-nil nodes))
        ∙ d.result

pub project_edges-Inside :
    (nodes : List ℕ) (deps : List Edge) → Inside nodes (project_edges nodes deps)
unfolding project_edges
project_edges-Inside nodes [] u v h = absurd (ground (arith, h))
project_edges-Inside nodes (e ∷ deps) u v h =
    elim (Bool-cases (has nodes e.task_id && has nodes e.blocks_task_id)) [
      | inl keeps ↦ elim (Bool-cases (e.task_id == u && e.blocks_task_id == v)) [
        | inl here ↦ (
          subst (λ x. has nodes x ≡ true) ((==_iff e.task_id u).0 (ground (arith, here)))
              (ground (arith, keeps)),
          subst (λ x. has nodes x ≡ true) ((==_iff e.blocks_task_id v).0 (ground (arith, here)))
              (ground (arith, keeps)),
        )
        | inr later ↦ project_edges-Inside nodes deps u v (ground (arith, h, keeps, later))
      ]
      | inr drops ↦ project_edges-Inside nodes deps u v (ground (arith, h, drops))
    ]

-- On the tasks of a project, each named once, TopologyService, which asks the depth-first search about
-- each edge, and DependencyGraphService, which drains the graph, give the same class.
pub classify_iff_inline :
    (nodes : List ℕ) (deps : List Edge)
    → uniq nodes ≡ true
    → (r : Report) × (classify nodes deps ≡ some r)
      × (classify_topology_inline nodes (project_edges nodes deps) ≡ some r.topology)
classify_iff_inline nodes deps u =
    let (r, answer, class, _) = classify_correct nodes deps in
    let (c, label_is, class') =
      classify_topology_inline_correct nodes (project_edges nodes deps)
        (project_edges-Inside nodes deps) u in
    (
      r,
      answer,
      label_is ∙ ap some (IsClass-unique (project_edges nodes deps) c r.topology class' class),
    )
