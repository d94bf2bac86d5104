-- ===== src/Dependencies/Service/Acyclic.antt =====
-- The dependency rows never form a cycle.
use wood_fired_tasks.Prelude.{
  ℕ, ◌≡◌, refl, ap, subst, inl, inr, Bool, true, false, not, ◌&&◌, ◌||◌, Option, some, List, [],
  ◌∷◌, ◌++◌, arith, has, keep, ◌==◌,
}
use wood_fired_tasks.Dependencies.Trails.{one, more, IsAcyclic, Trail-map}
use wood_fired_tasks.Dependencies.CycleDetector.{Edge, detector, would_create_cycle}
use wood_fired_tasks.Dependencies.CycleDetector.Edges.{holds}
use wood_fired_tasks.Dependencies.CycleDetector.Answers.{
  Blocks, with_edge, would_create_cycle_correct,
}
use wood_fired_tasks.Prelude.Outcome.{ok}
use wood_fired_tasks.Dependencies.Service.{
  Store, is_edge, any_edge, valid_input, check_cycle, create, add_dependency, remove_dependency,
  delete_task,
}

pub holds-append :
    (es fs : List Edge) (u v : ℕ) → holds (es ++ fs) u v ≡ (holds es u v || holds fs u v)
holds-append [] fs u v = refl
holds-append (e ∷ es) fs u v = ground (arith, holds-append es fs u v)

holds-keep-not :
    (es : List Edge) (a b u v : ℕ)
    → holds (keep (λ e. not (is_edge a b e)) es) u v ≡ (not (a == u && b == v) && holds es u v)
holds-keep-not [] a b u v = ground arith
holds-keep-not (e ∷ es) a b u v = ground (arith, holds-keep-not es a b u v)

abbrev pub row : ℕ → ℕ → Edge
row from to = record { task_id = from; blocks_task_id = to }

-- What an accepted row has passed.
pub record Accepted (s s' : Store) (from to : ℕ) : Type 0 where
  pub valid : valid_input from to ≡ true
  pub source : has s.tasks from ≡ true
  pub target : has s.tasks to ≡ true
  pub free : (would_create_cycle (detector s.dependencies) from to).0 ≡ some false
  pub fresh : any_edge from to s.dependencies ≡ false
  pub appended : s'.dependencies ≡ s.dependencies ++ row from to ∷ []
  pub same_tasks : s'.tasks ≡ s.tasks

check_cycle-eq-ok : (o : Option Bool) → check_cycle o ≡ ok tt → o ≡ some false
check_cycle-eq-ok o e = ground arith

pub add_dependency-Accepted :
    (s s' : Store) (from to : ℕ) → add_dependency s from to ≡ ok s' → Accepted s s' from to
unfolding add_dependency create
add_dependency-Accepted s s' from to e = record {
  valid = ground arith;
  source = ground arith;
  target = ground arith;
  free = ground arith;
  fresh = ground arith;
  appended = ground arith;
  same_tasks = ground arith;
}

-- An accepted row leaves the rows free of cycles, whatever they were before.
pub add_dependency-IsAcyclic :
    (s s' : Store) (from to : ℕ)
    → add_dependency s from to ≡ ok s'
    → IsAcyclic (Blocks s'.dependencies)
add_dependency-IsAcyclic s s' from to e = elim (would_create_cycle_correct s.dependencies from to) [
  | inl (cyclic, _) ↦ absurd (ground (arith, accepted))
  | inr (_, acyclic) ↦ λ u t. acyclic u (Trail-map of_appended t)
]
  where
    accepted : Accepted s s' from to
    accepted = add_dependency-Accepted s s' from to e

    of_appended :
        (a b : ℕ) → Blocks s'.dependencies a b → Blocks (with_edge s.dependencies from to) a b
    of_appended a b h = ground (
      arith,
      accepted.appended,
      ap (λ es. holds es a b) accepted.appended,
      holds-append s.dependencies (row from to ∷ []) a b,
    )

-- What the surfaces can do to the two tables.
pub data Step : Store → Store → Type 0 where
  add_task : (s : Store) (id : ℕ) → Step s (record s { tasks = s.tasks ++ id ∷ [] })
  drop_task : (s : Store) (id : ℕ) → Step s (delete_task s id)
  add_row : {s t : Store} (a b : ℕ) → add_dependency s a b ≡ ok t → Step s t
  drop_row : {s t : Store} (a b : ℕ) → remove_dependency s a b ≡ ok t → Step s t

pub data Reach (s : Store) : Store → Type 0 where
  here : Reach s s
  next : {t u : Store} → Reach s t → Step t u → Reach s u

abbrev pub empty : Store
empty = record { tasks = []; dependencies = [] }

holds-keep : (p : Edge → Bool) (es : List Edge) (u v : ℕ) → Blocks (keep p es) u v → Blocks es u v
holds-keep p [] u v h = h
holds-keep p (e ∷ es) u v h = ground (arith, holds-keep p es u v)

pub IsAcyclic-keep :
    (p : Edge → Bool) (es : List Edge) → IsAcyclic (Blocks es) → IsAcyclic (Blocks (keep p es))
IsAcyclic-keep p es acyclic u t = acyclic u (Trail-map (λ a b. holds-keep p es a b) t)

remove_dependency-eq-ok :
    (s t : Store) (a b : ℕ)
    → remove_dependency s a b ≡ ok t
    → keep (λ e. not (is_edge a b e)) s.dependencies ≡ t.dependencies
unfolding remove_dependency
remove_dependency-eq-ok s t a b e = ground arith

Step-IsAcyclic :
    {s t : Store} → Step s t → IsAcyclic (Blocks s.dependencies) → IsAcyclic (Blocks t.dependencies)
unfolding delete_task
Step-IsAcyclic (add_task s id) h = h
Step-IsAcyclic (drop_task s id) h = IsAcyclic-keep _ s.dependencies h
Step-IsAcyclic (add_row {s} {t} a b e) h = add_dependency-IsAcyclic s t a b e
Step-IsAcyclic (drop_row {s} {t} a b e) h =
    subst (λ es. IsAcyclic (Blocks es)) (remove_dependency-eq-ok s t a b e)
      (IsAcyclic-keep _ s.dependencies h)

pub empty-IsAcyclic : IsAcyclic (Blocks [])
empty-IsAcyclic u (one e) = cc
empty-IsAcyclic u (more e t) = cc

-- Whatever sequence of tasks and rows is added and deleted, starting from empty tables, the rows
-- never form a cycle.
pub Reach-IsAcyclic : {s : Store} → Reach empty s → IsAcyclic (Blocks s.dependencies)
Reach-IsAcyclic here = empty-IsAcyclic
Reach-IsAcyclic (next r st) = Step-IsAcyclic st (Reach-IsAcyclic r)
