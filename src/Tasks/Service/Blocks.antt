-- ===== src/Tasks/Service/Blocks.antt =====
-- Blocking a task by others leaves the dependencies free of cycles.
use wood_fired_tasks.Prelude.{
  ℕ, ◌≡◌, inl, inr, subst, Option, none, some, List, [], ◌∷◌, has, arith, Bool-cases,
}
use wood_fired_tasks.Prelude.Outcome.{ok, Result-cases, ok-injective}
use wood_fired_tasks.Dependencies.Trails.{IsAcyclic}
use wood_fired_tasks.Dependencies.CycleDetector.Answers.{Blocks}
use wood_fired_tasks.Dependencies.Service.{Store, add_dependency}
use wood_fired_tasks.Dependencies.Service.Acyclic.{add_dependency-IsAcyclic}
use wood_fired_tasks.Tasks.Service.{add_blockers, block_by}

pub add_blockers-IsAcyclic :
    (already ids : List ℕ) (s s' : Store) (id : ℕ)
    → add_blockers already ids s id ≡ ok s'
    → IsAcyclic (Blocks s.dependencies)
    → IsAcyclic (Blocks s'.dependencies)
unfolding add_blockers
add_blockers-IsAcyclic already [] s s' id e h =
    subst (λ t. IsAcyclic (Blocks t.dependencies)) (ok-injective s s' e) h
add_blockers-IsAcyclic already (b ∷ ids) s s' id e h = elim (Bool-cases (has already b)) [
  | inl there ↦ add_blockers-IsAcyclic already ids s s' id (ground (arith, e, there)) h
  | inr new ↦ elim (Result-cases (add_dependency s b id)) [
    | inl (failure, failed) ↦ absurd (ground (arith, e, new, failed))
    | inr (t, added) ↦
        add_blockers-IsAcyclic already ids t s' id (ground (arith, e, new, added))
          (add_dependency-IsAcyclic s t b id added)
  ]
]

pub block_by-IsAcyclic :
    (ids : Option (List ℕ)) (s s' : Store) (id : ℕ)
    → block_by ids s id ≡ ok s'
    → IsAcyclic (Blocks s.dependencies)
    → IsAcyclic (Blocks s'.dependencies)
unfolding block_by
block_by-IsAcyclic none s s' id e h =
    subst (λ t. IsAcyclic (Blocks t.dependencies)) (ok-injective s s' e) h
block_by-IsAcyclic (some ids) s s' id e h = add_blockers-IsAcyclic _ _ s s' id e h
