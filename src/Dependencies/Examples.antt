-- ===== src/Dependencies/Examples.antt =====
-- The dependency modules on small inputs.
use wood_fired_tasks.Prelude.{
  ℕ, ◌≡◌, refl, ◌⊎◌, some, true, false, List, [], ◌∷◌, arith, has, add, delete,
}
use wood_fired_tasks.Dependencies.Trails.{Trail, one, more, IsAcyclic, Trail-map}
use wood_fired_tasks.Dependencies.CycleDetector.{Edge, detector, would_create_cycle}
use wood_fired_tasks.Dependencies.CycleDetector.Answers.{
  Blocks, with_edge, would_create_cycle_correct,
}
use wood_fired_tasks.Prelude.Outcome.{ok, err}
use wood_fired_tasks.Errors.{business_error, not_found, validation_error, constraint_failed}
use wood_fired_tasks.Dependencies.Service.{Store, add_dependency, remove_dependency}
use wood_fired_tasks.Dependencies.Service.Acyclic.{
  row, add_task, add_row, Reach, here, next, empty, add_dependency-IsAcyclic, Reach-IsAcyclic,
}
use wood_fired_tasks.Dependencies.Service.Branches.{
  IsEligible, add_dependency_accepts, add_dependency_refuses,
}

abbrev chain : List Edge
chain = row 1 2 ∷ row 2 3 ∷ []

abbrev store : Store
store = record { tasks = 1 ∷ 2 ∷ 3 ∷ 4 ∷ []; dependencies = chain }

abbrev longer : Store
longer = record store { dependencies = row 1 2 ∷ row 2 3 ∷ row 3 4 ∷ [] }

runs : Unit {0}
unfolding add_dependency remove_dependency detector would_create_cycle has add delete
runs = tt

would_create_cycle_runs :
    ((would_create_cycle (detector chain) 3 1).0 ≡ some true)
    × ((would_create_cycle (detector chain) 1 3).0 ≡ some false)
    × ((would_create_cycle (detector chain) 2 2).0 ≡ some true)
unfolding runs
would_create_cycle_runs = (refl, refl, refl)

-- Asking about a row that is there takes it out of the detector.
would_create_cycle_forgets : (would_create_cycle (detector chain) 1 2).1 ≡ (2, 3 ∷ []) ∷ []
unfolding runs
would_create_cycle_forgets = refl

add_dependency_runs :
    (add_dependency store 3 4 ≡ ok longer)
    × (add_dependency store 3 1 ≡ err business_error)
    × (add_dependency store 9 1 ≡ err (not_found 9))
    × (add_dependency store 2 2 ≡ err validation_error)
    × (add_dependency store 1 2 ≡ err constraint_failed)
    × (remove_dependency longer 3 4 ≡ ok store)
    × (remove_dependency store 3 4 ≡ err (not_found 3))
unfolding runs
add_dependency_runs = (refl, refl, refl, refl, refl, refl, refl)

would_create_cycle_correct_example :
    ((would_create_cycle (detector chain) 3 1).0 ≡ some true)
      × ((w : ℕ) × Trail (Blocks (with_edge chain 3 1)) w w)
    ⊎ ((would_create_cycle (detector chain) 3 1).0 ≡ some false)
      × IsAcyclic (Blocks (with_edge chain 3 1))
would_create_cycle_correct_example = would_create_cycle_correct chain 3 1

eligible : IsEligible store 3 1
unfolding has
eligible = record {
  source_positive = omega arith;
  target_positive = omega arith;
  different = omega arith;
  source = refl;
  target = refl;
}

add_dependency_refuses_example : add_dependency store 3 1 ≡ err business_error
add_dependency_refuses_example =
    add_dependency_refuses store 3 1 eligible (more {v = 2} refl (one refl))

eligible_row : IsEligible store 3 4
unfolding has
eligible_row = record {
  source_positive = omega arith;
  target_positive = omega arith;
  different = omega arith;
  source = refl;
  target = refl;
}

add_dependency_accepts_example : add_dependency store 3 4 ≡ ok longer
add_dependency_accepts_example = add_dependency_accepts store 3 4 eligible_row refl (λ u t.
    add_dependency-IsAcyclic store longer 3 4 add_dependency_runs.0 u
      (Trail-map (λ a b h. ground arith) t))

abbrev two_tasks : Store
two_tasks = record { tasks = 1 ∷ 2 ∷ []; dependencies = [] }

abbrev linked : Store
linked = record two_tasks { dependencies = row 1 2 ∷ [] }

Reach-linked : Reach empty linked
unfolding runs
Reach-linked = next (next (next here (add_task empty 1)) (add_task _ 2)) (add_row 1 2 refl)

Reach-IsAcyclic_example : IsAcyclic (Blocks linked.dependencies)
Reach-IsAcyclic_example = Reach-IsAcyclic Reach-linked
