-- ===== src/Dependencies/Service.antt =====
-- src/services/dependency.service.ts over src/repositories/dependency.repository.ts: the table of
-- dependency rows, and the operations of DependencyService. The table `tasks` is seen here through
-- the ids of its rows. Input that is no natural number never passes the schema and is left out.
pub mod Acyclic
pub mod Branches
use wood_fired_tasks.Prelude.{
  ℕ, Bool, true, false, not, ◌&&◌, ◌||◌, Option, none, some, List, [], ◌∷◌, ◌++◌, has, delete, keep,
  ltb, ◌==◌, if◌then◌else◌,
}
use wood_fired_tasks.Prelude.Outcome.{Result, ok, err, require, and_then, ◌>>=◌, ◌>>◌}
use wood_fired_tasks.Errors.{
  ServiceError, validation_error, business_error, constraint_failed, diverged, not_found,
}
use wood_fired_tasks.Dependencies.CycleDetector.{Edge, detector, would_create_cycle}

pub record Store : Type 0 where
  pub tasks : List ℕ
  pub dependencies : List Edge

-- CreateDependencySchema: both ids are positive, and they differ.
abbrev pub valid_input : ℕ → ℕ → Bool
valid_input task_id blocks_task_id =
    ltb 0 task_id && ltb 0 blocks_task_id && not (task_id == blocks_task_id)

abbrev pub is_edge : ℕ → ℕ → Edge → Bool
is_edge task_id blocks_task_id e = e.task_id == task_id && e.blocks_task_id == blocks_task_id

abbrev pub any_edge : ℕ → ℕ → List Edge → Bool
any_edge task_id blocks_task_id [] = false
any_edge task_id blocks_task_id (e ∷ es) =
    is_edge task_id blocks_task_id e || any_edge task_id blocks_task_id es

-- `DependencyRepository.create`, under the table's UNIQUE and CHECK constraints.
pub create : Store → ℕ → ℕ → Result ServiceError Store
create s task_id blocks_task_id =
    if any_edge task_id blocks_task_id s.dependencies || task_id == blocks_task_id
    then err constraint_failed
    else ok (record s {
      dependencies =
          s.dependencies ++ record { task_id = task_id; blocks_task_id = blocks_task_id } ∷ [];
    })

-- The answer of the cycle detector as a check.
abbrev pub check_cycle : Option Bool → Result ServiceError (Unit {0})
check_cycle none = err diverged
check_cycle (some true) = err business_error
check_cycle (some false) = ok tt

unfoldable pub add_dependency : Store → ℕ → ℕ → Result ServiceError Store
unfolding create
add_dependency s task_id blocks_task_id = do
  require validation_error (valid_input task_id blocks_task_id)
  require (not_found task_id) (has s.tasks task_id)
  require (not_found blocks_task_id) (has s.tasks blocks_task_id)
  check_cycle (would_create_cycle (detector s.dependencies) task_id blocks_task_id).0
  create s task_id blocks_task_id

-- `DependencyRepository.delete`, with whether a row was deleted.
pub delete_row : Store → ℕ → ℕ → Store × Bool
delete_row s task_id blocks_task_id = (
  record s { dependencies = keep (λ e. not (is_edge task_id blocks_task_id e)) s.dependencies },
  any_edge task_id blocks_task_id s.dependencies,
)

unfoldable pub remove_dependency : Store → ℕ → ℕ → Result ServiceError Store
unfolding delete_row
remove_dependency s task_id blocks_task_id =
    let (s', deleted) = delete_row s task_id blocks_task_id in
    if deleted then ok s' else err (not_found task_id)

-- `getBlockedBy` and `getBlockers`, the repository's findByTaskId and findBlockingTask.
unfoldable pub blocked_by : Store → ℕ → List Edge
blocked_by s task_id = keep (λ e. e.task_id == task_id) s.dependencies

unfoldable pub blockers : Store → ℕ → List Edge
blockers s task_id = keep (λ e. e.blocks_task_id == task_id) s.dependencies

-- Deleting a task deletes the rows that name it (`ON DELETE CASCADE`).
unfoldable pub delete_task : Store → ℕ → Store
delete_task s id = record {
  tasks = delete s.tasks id;
  dependencies = keep (λ e. not (e.task_id == id || e.blocks_task_id == id)) s.dependencies;
}
