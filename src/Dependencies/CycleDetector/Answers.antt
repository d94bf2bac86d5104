-- ===== src/Dependencies/CycleDetector/Answers.antt =====
-- `would_create_cycle` always answers, and its answer is right.
use wood_fired_tasks.Prelude.{
  ℕ, ◌≡◌, true, false, some, List, ◌∷◌, arith, Option-cases, inl, inr, ◌⊎◌,
}
use wood_fired_tasks.Dependencies.Trails.{Trail, IsAcyclic, Trail-map}
use wood_fired_tasks.Dependencies.CycleDetector.{
  Edge, Adjacency, insert, detector, detect_cycle, would_create_cycle,
}
use wood_fired_tasks.Dependencies.CycleDetector.Edges.{holds, neighbors-insert, detector-holds}
use wood_fired_tasks.Dependencies.CycleDetector.Walks.{Next}
use wood_fired_tasks.Dependencies.CycleDetector.Search.{detect_cycle-true, detect_cycle-false}
use wood_fired_tasks.Dependencies.CycleDetector.Fuel.{detect_cycle-ne-none}

-- `u` blocks `v` by one of the rows.
abbrev pub Blocks : List Edge → ℕ → ℕ → Type 0
Blocks es u v = holds es u v ≡ true

abbrev pub with_edge : List Edge → ℕ → ℕ → List Edge
with_edge es from to = record { task_id = from; blocks_task_id = to } ∷ es

module _ (es : List Edge) (from to : ℕ) where
  abbrev added : Adjacency
  added = insert (detector es) from to

  to_rows : (u v : ℕ) → Next added u v → Blocks (with_edge es from to) u v
  to_rows u v h = ground (arith, neighbors-insert (detector es) from to u v, detector-holds es u v)

  of_rows : (u v : ℕ) → Blocks (with_edge es from to) u v → Next added u v
  of_rows u v h = ground (arith, neighbors-insert (detector es) from to u v, detector-holds es u v)

  -- The question "would the edge close a cycle?" is always answered, with yes exactly if the rows
  -- with the new edge have a trail from some task back to itself.
  pub would_create_cycle_correct :
      ((would_create_cycle (detector es) from to).0 ≡ some true)
        × ((w : ℕ) × Trail (Blocks (with_edge es from to)) w w)
      ⊎ ((would_create_cycle (detector es) from to).0 ≡ some false)
        × IsAcyclic (Blocks (with_edge es from to))
  unfolding would_create_cycle
  would_create_cycle_correct = elim (Option-cases (detect_cycle added)) [
    | inl out ↦ absurd (detect_cycle-ne-none added out)
    | inr (true, e) ↦ let (w, t) = detect_cycle-true added e in inl (e, (w, Trail-map to_rows t))
    | inr (false, e) ↦ inr (e, λ u t. detect_cycle-false added e u (Trail-map of_rows t))
  ]
