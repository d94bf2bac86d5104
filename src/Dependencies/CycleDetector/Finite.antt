-- ===== src/Dependencies/CycleDetector/Finite.antt =====
-- Rows without a cycle have no endless trails, forwards or backwards; the detector's search shows it.
use wood_fired_tasks.Prelude.{
  ℕ, ◌≡◌, refl, sym, ◌∙◌, ◌⊎◌, inl, inr, true, false, List, [], ◌∷◌, arith, Option-cases,
}
use wood_fired_tasks.Dependencies.Trails.{
  Trail, IsSafe, safe, IsAcyclic, Trail-map, IsSafe-map, Trail-reverse,
}
use wood_fired_tasks.Dependencies.CycleDetector.{Edge, detector, detect_cycle}
use wood_fired_tasks.Dependencies.CycleDetector.Edges.{holds, detector-holds}
use wood_fired_tasks.Dependencies.CycleDetector.Walks.{Next}
use wood_fired_tasks.Dependencies.CycleDetector.Search.{
  detect_cycle-true, detect_cycle-false, detect_cycle-safe,
}
use wood_fired_tasks.Dependencies.CycleDetector.Fuel.{detect_cycle-ne-none}
use wood_fired_tasks.Dependencies.CycleDetector.Answers.{Blocks}

module _ (es : List Edge) where
  pub to_rows : (u v : ℕ) → Next (detector es) u v → Blocks es u v
  to_rows u v h = sym (detector-holds es u v) ∙ h

  pub of_rows : (u v : ℕ) → Blocks es u v → Next (detector es) u v
  of_rows u v h = detector-holds es u v ∙ h

  after_edge : {u v : ℕ} → IsSafe (Blocks es) u → Blocks es u v → IsSafe (Blocks es) v
  after_edge (safe h) e = h _ e

  pub IsAcyclic-IsSafe : IsAcyclic (Blocks es) → (u : ℕ) → IsSafe (Blocks es) u
  IsAcyclic-IsSafe acyclic u = elim (Option-cases (detect_cycle (detector es))) [
    | inl out ↦ absurd (detect_cycle-ne-none (detector es) out)
    | inr (true, e) ↦
        let (w, t) = detect_cycle-true (detector es) e in absurd (acyclic w (Trail-map to_rows t))
    | inr (false, e) ↦ safe (λ v r.
        after_edge (IsSafe-map of_rows (detect_cycle-safe (detector es) e u v (of_rows u v r))) r)
  ]

turned : List Edge → List Edge
turned [] = []
turned (e ∷ es) = record { task_id = e.blocks_task_id; blocks_task_id = e.task_id } ∷ turned es

holds-turned : (es : List Edge) (u v : ℕ) → holds (turned es) u v ≡ holds es v u
unfolding turned
holds-turned [] u v = refl
holds-turned (e ∷ es) u v = ground (arith, holds-turned es u v)

-- From every task, the chain of what blocks it ends.
pub IsAcyclic-IsSafe-back :
    (es : List Edge) → IsAcyclic (Blocks es) → (u : ℕ) → IsSafe (λ a b. Blocks es b a) u
IsAcyclic-IsSafe-back es acyclic u =
    IsSafe-map (λ a b h. holds-turned es a b ∙ h)
      (IsAcyclic-IsSafe (turned es)
        (λ w t.
          acyclic w
            (Trail-reverse (Blocks es) (Trail-map (λ a b h. sym (holds-turned es a b) ∙ h) t)))
        u)

pub cycle-or_not : (es : List Edge) → ((w : ℕ) × Trail (Blocks es) w w) ⊎ IsAcyclic (Blocks es)
cycle-or_not es = elim (Option-cases (detect_cycle (detector es))) [
  | inl out ↦ absurd (detect_cycle-ne-none (detector es) out)
  | inr (true, e) ↦
      let (w, t) = detect_cycle-true (detector es) e in inl (w, Trail-map (to_rows es) t)
  | inr (false, e) ↦ inr (λ u t. detect_cycle-false (detector es) e u (Trail-map (of_rows es) t))
]
