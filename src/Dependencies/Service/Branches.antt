-- ===== src/Dependencies/Service/Branches.antt =====
-- When DependencyService accepts a row, and the error on every other branch.
use wood_fired_tasks.Prelude.{ℕ, ◌<◌, ◌≡◌, ◌≢◌, inl, inr, true, false, [], ◌∷◌, ◌++◌, arith, has}
use wood_fired_tasks.Dependencies.Trails.{Trail, more, IsAcyclic, Trail-map}
use wood_fired_tasks.Dependencies.CycleDetector.Answers.{
  Blocks, with_edge, would_create_cycle_correct,
}
use wood_fired_tasks.Dependencies.Service.Acyclic.{row}
use wood_fired_tasks.Prelude.Outcome.{ok, err}
use wood_fired_tasks.Errors.{business_error}
use wood_fired_tasks.Dependencies.Service.{Store, any_edge, create, add_dependency}

module _ (s : Store) (from to : ℕ) where
  -- The checks before the search for a cycle.
  pub record IsEligible : Type 0 where
    pub source_positive : 0 < from
    pub target_positive : 0 < to
    pub different : from ≢ to
    pub source : has s.tasks from ≡ true
    pub target : has s.tasks to ≡ true

  -- An eligible row that is not there yet is accepted if it closes no cycle: it is put behind the
  -- others, and nothing else changes.
  pub add_dependency_accepts :
      IsEligible
      → any_edge from to s.dependencies ≡ false
      → IsAcyclic (Blocks (with_edge s.dependencies from to))
      → add_dependency s from to
        ≡ ok (record s { dependencies = s.dependencies ++ row from to ∷ [] })
  unfolding add_dependency create
  add_dependency_accepts fits fresh acyclic =
      elim (would_create_cycle_correct s.dependencies from to) [
        | inl (_, (w, t)) ↦ absurd (acyclic w t)
        | inr (free, _) ↦ ground (arith, fits.source_positive, fits.target_positive, fits.different)
      ]

  -- An eligible row is refused with a business error if its target already leads to its source.
  pub add_dependency_refuses :
      IsEligible
      → Trail (Blocks s.dependencies) to from
      → add_dependency s from to ≡ err business_error
  unfolding add_dependency
  add_dependency_refuses fits back = elim (would_create_cycle_correct s.dependencies from to) [
    | inl (found, _) ↦ ground (arith, fits.source_positive, fits.target_positive, fits.different)
    | inr (_, acyclic) ↦
        absurd (acyclic from (more (ground arith) (Trail-map (λ a b h. ground arith) back)))
  ]
