-- ===== src/Wsjf/Ranking/InScope.antt =====
-- Which tasks have a row, and the edges of the report.
use wood_fired_tasks.Prelude.{
  ℕ, ◌≡◌, ◌≢◌, ◌↔◌, refl, sym, ap, subst, ◌∙◌, ◌⊎◌, inl, inr, true, false, ◌&&◌, some, List, [],
  ◌∷◌, arith, has, ◌==◌, ==_iff, Bool-cases, Option-cases,
}
use mathlib.Core.Option.{some-injective}
use wood_fired_tasks.Prelude.Sort.{place, sort}
use wood_fired_tasks.Tasks.Status.{TaskStatus, done, closed, blocked, same, same-eq}
use wood_fired_tasks.Dependencies.CycleDetector.{Edge}
use wood_fired_tasks.Dependencies.CycleDetector.Edges.{holds}
use wood_fired_tasks.Dependencies.Kahn.{targets, adjacent}
use wood_fired_tasks.Dependencies.Topology.{
  Report, edge_before, probe_each, report_on, classify_edges,
}
use wood_fired_tasks.Wsjf.Ranking.{
  ScoredTask, Scope, frontier_only, every_task, task_by_id, is_ranked_done, blocker_done,
  blockers_all_done, is_ready,
}

holds-place :
    (e : Edge) (es : List Edge) (u v : ℕ) → holds (place edge_before e es) u v ≡ holds (e ∷ es) u v
unfolding place
holds-place e [] u v = refl
holds-place e (f ∷ es) u v = elim (Bool-cases (edge_before e f)) [
  | inl first ↦ rw (place, first) refl
  | inr later ↦ rw (place, later) (ground (arith, holds-place e es u v))
]

holds-sort : (es : List Edge) (u v : ℕ) → holds (sort edge_before es) u v ≡ holds es u v
unfolding sort
holds-sort [] u v = refl
holds-sort (e ∷ es) u v =
    holds-place e (sort edge_before es) u v ∙ ground (arith, holds-sort es u v)

-- The edges of a report are those of the project.
pub classify_edges-holds :
    (nodes : List ℕ) (es : List Edge) (r : Report) (u v : ℕ)
    → classify_edges nodes es ≡ some r
    → holds r.edges u v ≡ holds es u v
unfolding classify_edges
classify_edges-holds nodes [] r u v h =
    sym (ap (λ (e : Report). holds e.edges u v) (some-injective _ r h))
classify_edges-holds nodes (e ∷ es) r u v h = elim (Option-cases (probe_each [] (e ∷ es))) [
  | inl out ↦ absurd (ground (arith, h, out))
  | inr (b, answer) ↦
      let step : classify_edges nodes (e ∷ es) ≡ some (report_on nodes (e ∷ es) b) =
        rw (classify_edges, answer) refl in
      sym (
        ap (λ (f : Report). holds f.edges u v)
          (some-injective (report_on nodes (e ∷ es) b) r (sym step ∙ h)))
      ∙ holds-sort (e ∷ es) u v
]

has-targets : (es : List Edge) (u v : ℕ) → has (targets es u) v ≡ holds es u v
unfolding targets has
has-targets [] u v = refl
has-targets (e ∷ es) u v = ground (arith, has-targets es u v)

pub has-adjacent :
    (nodes : List ℕ) (es : List Edge) (u v : ℕ)
    → has (adjacent nodes es u) v ≡ true
    → holds es u v ≡ true
unfolding adjacent has
has-adjacent nodes es u v h = ground (arith, h, has-targets es u v)

-- What a scope asks of a task.
abbrev pub IsReady : List ScoredTask → List Edge → ScoredTask → Type 0
IsReady tasks es t =
    (t.status ≢ blocked)
    × ((u : ℕ) (b : ScoredTask)
        → holds es u t.id ≡ true
        → task_by_id tasks u ≡ some b
        → (b.status ≡ done) ⊎ (b.status ≡ closed))

abbrev pub IsInScope : Scope → List ScoredTask → List Edge → ScoredTask → Type 0
IsInScope frontier_only tasks es t = IsReady tasks es t
IsInScope every_task tasks es t = Unit

is_ranked_done_iff : (s : TaskStatus) → (is_ranked_done s ≡ true) ↔ ((s ≡ done) ⊎ (s ≡ closed))
is_ranked_done_iff s = (
  λ h. elim (Bool-cases (same s done)) [
    | inl is ↦ inl (same-eq s done is)
    | inr not_done ↦ inr (same-eq s closed (ground (arith, h, not_done)))
  ],
  λ h. elim h [ inl is ↦ ap is_ranked_done is | inr is ↦ ap is_ranked_done is ],
)

blockers_all_done_sound :
    (tasks : List ScoredTask) (es : List Edge) (id u : ℕ)
    → blockers_all_done tasks es id ≡ true
    → holds es u id ≡ true
    → blocker_done tasks u ≡ true
unfolding blockers_all_done
blockers_all_done_sound tasks [] id u h edge = absurd (ground (arith, edge))
blockers_all_done_sound tasks (e ∷ es) id u h edge =
    elim (Bool-cases (e.task_id == u && e.blocks_task_id == id)) [
      | inl here ↦
          subst (λ i. blocker_done tasks i ≡ true) ((==_iff e.task_id u).0 (ground (arith, here)))
            (ground (arith, h, here))
      | inr later ↦
          blockers_all_done_sound tasks es id u (ground (arith, h)) (ground (arith, edge, later))
    ]

blockers_all_done_complete :
    (tasks : List ScoredTask) (es : List Edge) (id : ℕ)
    → ((u : ℕ) → holds es u id ≡ true → blocker_done tasks u ≡ true)
    → blockers_all_done tasks es id ≡ true
unfolding blockers_all_done
blockers_all_done_complete tasks [] id h = refl
blockers_all_done_complete tasks (e ∷ es) id h = ground (
  arith,
  h e.task_id,
  blockers_all_done_complete tasks es id (λ u edge. h u (ground (arith, edge))),
)

blocker_done_iff :
    (tasks : List ScoredTask) (u : ℕ)
    → (blocker_done tasks u ≡ true)
      ↔ ((b : ScoredTask) → task_by_id tasks u ≡ some b → is_ranked_done b.status ≡ true)
unfolding blocker_done
blocker_done_iff tasks u = (
  λ h b found.
      let step : blocker_done tasks u ≡ is_ranked_done b.status = rw (blocker_done, found) refl in
      sym step ∙ h,
  λ h. elim (Option-cases (task_by_id tasks u)) [
    | inl absent ↦ rw (blocker_done, absent) refl
    | inr (b, found) ↦ rw (blocker_done, found) (h b found)
  ],
)

pub is_ready_iff :
    (tasks : List ScoredTask) (es : List Edge) (t : ScoredTask)
    → (is_ready tasks es t ≡ true) ↔ IsReady tasks es t
unfolding is_ready
is_ready_iff tasks es t = (
  λ h. (
    λ is. ground (arith, h, ap (λ s. same s blocked) is),
    λ u b edge found. (is_ranked_done_iff b.status).0 (
        (blocker_done_iff tasks u).0
          (blockers_all_done_sound tasks es t.id u (ground (arith, h)) edge) b found),
  ),
  λ (free, blockers).
      let unblocked : same t.status blocked ≡ false = elim (Bool-cases (same t.status blocked)) [
        | inl is ↦ absurd (free (same-eq t.status blocked is))
        | inr other ↦ other
      ] in
      let all_done = blockers_all_done_complete tasks es t.id (λ u edge.
        (blocker_done_iff tasks u).1
          (λ b found. (is_ranked_done_iff b.status).1 (blockers u b edge found))) in
      ground (arith, unblocked, all_done),
)
