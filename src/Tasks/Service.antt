-- ===== src/Tasks/Service.antt =====
-- src/services/task.service.ts: TaskService over its database. An operation gives the database and
-- the events that it emits, or the error that it throws; a transaction that throws leaves no trace,
-- so an error carries no database. The texts of a task, its tags and the history of its scores are
-- left out. `strict` is WFT_STRICT_EVIDENCE.
pub mod Accepted
pub mod Blocks
pub mod Claiming
pub mod Exclusive
pub mod Moves
use mathlib.Core.Option
use wood_fired_tasks.Prelude.{
  ℕ, zero, suc, Bool, true, false, not, ◌&&◌, ◌||◌, Option, none, some, List, [], ◌∷◌, ◌++◌, map,
  length, all, keep, has, add, ltb, leb, ◌==◌, if◌then◌else◌,
}
use wood_fired_tasks.Prelude.Text.{Text, codes, starts_with, text_eq}
use wood_fired_tasks.Prelude.Outcome.{Result, ok, err, require, and_then, ◌>>=◌, ◌>>◌}
use wood_fired_tasks.Errors.{ServiceError, validation_error, business_error, not_found}
use wood_fired_tasks.Dependencies.CycleDetector.{Edge}
use wood_fired_tasks.Dependencies.Service.{Store, add_dependency, blockers}
use wood_fired_tasks.Tasks.Status.{
  TaskStatus, opened, in_progress, done, closed, blocked, same, can_move,
}
use wood_fired_tasks.Tasks.Evidence.{
  Evidence, Context, Identity, word, number, Violation, not_verified,
  validate_verification_evidence,
}
use wood_fired_tasks.Tasks.Table.{Task, SizeSource, auto, find_by_id, update_row}
use wood_fired_tasks.Tasks.Repository.{
  Field, absent, null, value, WsjfWrite, UpdateTask, CreateTask, updated, auto_sized, created,
  claim_task, renew_claim, has_parent, is_assigned_to, is_none,
}
use wood_fired_tasks.Tasks.Checks.{
  any_tag, evidence_passes, field_of, is_assigned, manual_passes, minutes_consistent, next_status,
  transition_allowed, valid_create, valid_update, written, UpdateInput,
}
use wood_fired_tasks.Wsjf.Tiers.{minutes_to_tier}

pub record Database : Type 0 where
  pub projects : List ℕ
  pub tasks : List Task
  pub dependencies : List Edge
  pub next_id : ℕ

pub data Event : Type 0 where
  task_created task_updated task_claimed task_deleted task_claim_released : Task → Event
  task_status_changed : Task → TaskStatus → TaskStatus → Event

unfoldable pub fetch : Database → ℕ → Result ServiceError Task
fetch db id = elim (find_by_id db.tasks id) [ none ↦ err (not_found id) | some task ↦ ok task ]

-- The service of the dependencies sees the same tables.
abbrev pub store_of : Database → Store
store_of db = record { tasks = map (λ t. t.id) db.tasks; dependencies = db.dependencies }

-- The blockers that are not there yet become rows, one after the other.
pub add_blockers : List ℕ → List ℕ → Store → ℕ → Result ServiceError Store
add_blockers already [] s id = ok s
add_blockers already (blocker ∷ blockers) s id =
    if has already blocker
    then add_blockers already blockers s id
    else (add_dependency s blocker id >>= λ s'. add_blockers already blockers s' id)

-- `new Set(parsedBlockedBy)` in its order.
abbrev distinct : List ℕ → List ℕ → List ℕ
distinct seen [] = seen
distinct seen (id ∷ ids) = distinct (add seen id) ids

unfoldable pub block_by : Option (List ℕ) → Store → ℕ → Result ServiceError Store
block_by none s id = ok s
block_by (some ids) s id =
    add_blockers (map (λ e. e.task_id) (blockers s id)) (distinct [] ids) s id

abbrev pub events_of : Task → Task → Option TaskStatus → List Event
events_of task row none = task_updated row ∷ []
events_of task row (some status) =
    task_updated row ∷ task_status_changed row task.status status ∷ []

-- `updateTask`, without the subscribers of its events.
unfoldable pub update_task :
    Bool
    → ℕ
    → Database
    → ℕ
    → UpdateInput
    → Option Identity
    → Result ServiceError (Database × List Event)
unfolding fetch add_blockers block_by
update_task strict now db id input caller = do
  let c = input.columns
  require validation_error (valid_update input)
  task ← fetch db id
  require validation_error (evidence_passes strict task c.verification_evidence caller)
  require business_error (transition_allowed task (next_status task c.status))
  require validation_error (minutes_consistent c.estimated_minutes c.wsjf)
  require validation_error (manual_passes c.wsjf)
  store ← block_by input.blocked_by (store_of db) id
  ok (
    record db {
      tasks = update_row db.tasks id (λ t. written now t c);
      dependencies = store.dependencies;
    },
    events_of task (written now task c) (next_status task c.status),
  )

-- A parent is a task of the same project.
unfoldable pub parent_fits : Database → CreateTask → Bool
parent_fits db dto = elim dto.parent_task_id [
  | none ↦ true
  | some parent ↦ elim (find_by_id db.tasks parent) [
    | none ↦ false
    | some task ↦ task.project_id == dto.project_id
  ]
]

-- `createTask`: a task without a score is sized by its minutes.
unfoldable pub create_task : ℕ → Database → CreateTask → Result ServiceError (Database × List Event)
create_task now db dto = do
  require validation_error (valid_create dto)
  require validation_error
      (not (any_tag (λ t. starts_with t (codes "decomp-")) dto.tags && is_none dto.wsjf))
  require business_error (has db.projects dto.project_id)
  require business_error (parent_fits db dto)
  require validation_error (minutes_consistent (field_of dto.estimated_minutes) (field_of dto.wsjf))
  require validation_error (manual_passes (field_of dto.wsjf))
  let inserted = created now db.next_id dto
  let row =
      if is_none dto.wsjf
      then auto_sized now (minutes_to_tier dto.estimated_minutes) inserted
      else inserted
  ok (record db { tasks = db.tasks ++ row ∷ []; next_id = suc db.next_id }, task_created row ∷ [])

-- `ON DELETE CASCADE` on the parent: one round adds the tasks whose parent is in the set, and as many
-- rounds as there are tasks find them all.
abbrev has_parent_in : List ℕ → Task → Bool
has_parent_in ids task = elim task.parent_task_id [ none ↦ false | some parent ↦ has ids parent ]

pub descendants : ℕ → List Task → List ℕ → List ℕ
descendants zero ts ids = ids
descendants (suc rounds) ts ids =
    descendants rounds ts (ids ++ map (λ t. t.id) (keep (has_parent_in ids) ts))

-- `deleteTask`: the event comes first; the dependencies of a deleted task go with it.
unfoldable pub delete_task : Database → ℕ → Result ServiceError (Database × List Event)
unfolding fetch descendants
delete_task db id = do
  task ← fetch db id
  let gone = descendants (length db.tasks) db.tasks (id ∷ [])
  ok (
    record db {
      tasks = keep (λ t. not (has gone t.id)) db.tasks;
      dependencies =
          keep (λ e. not (has gone e.task_id || has gone e.blocks_task_id)) db.dependencies;
    },
    task_deleted task ∷ [],
  )

-- The row after a claim, or the error where the write found no row.
abbrev claim_result :
    Database → ℕ → Option (List Task) → Result ServiceError (Database × List Event)
claim_result db id none = err business_error
claim_result db id (some tasks) = elim (find_by_id tasks id) [
  | none ↦ err (not_found id)
  | some row ↦ ok (record db { tasks = tasks }, task_claimed row ∷ [])
]

-- `claimTask`: the holder renews, anyone else needs a free open task.
unfoldable pub claim :
    ℕ → Database → ℕ → Text → Option ℕ → Result ServiceError (Database × List Event)
unfolding fetch
claim now db id assignee user = fetch db id >>= λ task.
    if same task.status in_progress && is_assigned_to assignee task.assignee
    then claim_result db id (renew_claim now db.tasks id assignee)
    else if same task.status opened && not (is_assigned task.assignee)
    then claim_result db id (claim_task now db.tasks id assignee user)
    else err business_error
