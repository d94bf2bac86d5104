-- ===== src/Workflow.antt =====
-- src/services/workflow-engine.ts: WorkflowEngine. It hears every `task.status_changed` inside the
-- call that emits it, so a reaction is a function of the database after the write, and a reaction to
-- a write of its own is the recursion. `remaining` is MAX_CASCADE_DEPTH less `cascadeDepth`. An error
-- anywhere below rolls the whole cascade back, and so ends it here. The other subscribers get the
-- events of a committed cascade, the ones of a cascade that is rolled back are discarded.
mod Examples
pub mod Steps
pub mod Reactions
pub mod Effects
pub mod Unblocks
pub mod Whole
use wood_fired_tasks.Prelude.{
  ℕ, zero, suc, Bool, true, false, not, Option, none, some, List, [], ◌∷◌, ◌++◌, all, keep, ◌==◌,
  if◌then◌else◌,
}
use wood_fired_tasks.Prelude.Outcome.{Result, ok, err, and_then, ◌>>=◌}
use wood_fired_tasks.Errors.{ServiceError}
use wood_fired_tasks.Dependencies.CycleDetector.{Edge}
use wood_fired_tasks.Dependencies.Service.{blocked_by, blockers}
use wood_fired_tasks.Tasks.Status.{
  TaskStatus, opened, in_progress, done, closed, blocked, backlogged, same,
}
use wood_fired_tasks.Tasks.Evidence.{Identity}
use wood_fired_tasks.Tasks.Evidence.{Identity}
use wood_fired_tasks.Tasks.Table.{Task, find_by_id}
use wood_fired_tasks.Tasks.Repository.{UpdateTask, absent, find_children}
use wood_fired_tasks.Tasks.Checks.{UpdateInput}
use wood_fired_tasks.Tasks.Service.{
  Database, Event, task_created, task_updated, task_claimed, task_deleted, task_claim_released,
  task_status_changed, update_task, store_of,
}

-- The update `{ status }`.
abbrev pub status_only : TaskStatus → UpdateInput
status_only status = record {
  columns = record {
    status = some status;
    assignee = absent;
    assignee_user_id = absent;
    parent_task_id = absent;
    estimated_minutes = absent;
    verification_evidence = absent;
    wsjf = absent;
  };
  blocked_by = none;
}

abbrev pub Cascade : Type 0
Cascade = Result ServiceError (Database × List Event)

abbrev pub unchanged : Database → Cascade
unchanged db = ok (db, [])

-- One action after the other, the events of both.
abbrev pub then_do : Cascade → (Database → Cascade) → Cascade
then_do first second = first >>= λ r. second r.0 >>= λ q. ok (q.0, r.1 ++ q.1)

abbrev pub is_done : Task → Bool
is_done task = same task.status done

-- `blockerTask && blockerTask.status === 'done'`.
abbrev pub done_row : Option Task → Bool
done_row none = false
done_row (some task) = is_done task

abbrev pub max_cascade_depth : ℕ
max_cascade_depth = 5

-- `strict` and `now` are those of the service, `react` is what the engine does at the next depth.
module _ (strict : Bool) (now : ℕ) where
  module _ (react : Database → Task → Cascade) where
    -- The engine's subscription sees the changes of status.
    abbrev pub hear : Event → Database → Cascade
    hear (task_status_changed task from to) db = react db task
    hear (task_created task) db = unchanged db
    hear (task_updated task) db = unchanged db
    hear (task_claimed task) db = unchanged db
    hear (task_deleted task) db = unchanged db
    hear (task_claim_released task) db = unchanged db

    -- The emits of a service inside a transaction: what the engine does comes before the event itself
    -- goes into the buffer.
    unfoldable pub deliver : Database → List Event → Cascade
    deliver db [] = unchanged db
    deliver db (event ∷ events) =
        then_do (hear event db) (λ d. deliver d events >>= λ q. ok (q.0, event ∷ q.1))

    -- `taskService.updateTask(id, { status }, 'workflow')`.
    unfoldable pub set_status : ℕ → TaskStatus → Database → Cascade
    set_status id status db =
        update_task strict now db id (status_only status) none >>= λ r. deliver r.0 r.1

    -- The parent's way to done.
    unfoldable pub complete : ℕ → TaskStatus → Database → Cascade
    complete parent_id opened db =
        then_do (set_status parent_id in_progress db) (set_status parent_id done)
    complete parent_id in_progress db = set_status parent_id done db
    complete parent_id done db = unchanged db
    complete parent_id closed db = unchanged db
    complete parent_id blocked db = unchanged db
    complete parent_id backlogged db = unchanged db

    unfoldable pub handle_parent_auto_complete : Task → Database → Cascade
    handle_parent_auto_complete task db = elim task.parent_task_id [
      | none ↦ unchanged db
      | some parent_id ↦
          if all is_done (find_children db.tasks parent_id)
          then (elim (find_by_id db.tasks parent_id) [
            | none ↦ unchanged db
            | some parent ↦ complete parent_id parent.status db
          ])
          else unchanged db
    ]

    abbrev pub all_blockers_done : ℕ → Database → Bool
    all_blockers_done id db =
        all (λ e. done_row (find_by_id db.tasks e.task_id)) (blockers (store_of db) id)

    unfoldable pub unblock : ℕ → Database → Cascade
    unblock id db = elim (find_by_id db.tasks id) [
      | none ↦ unchanged db
      | some task ↦
          if same task.status blocked
          then (if all_blockers_done id db then set_status id opened db else unchanged db)
          else unchanged db
    ]

    unfoldable pub unblock_each : List Edge → Database → Cascade
    unblock_each [] db = unchanged db
    unblock_each (e ∷ es) db = then_do (unblock e.blocks_task_id db) (unblock_each es)

    unfoldable pub handle_dependency_auto_unblock : Task → Database → Cascade
    handle_dependency_auto_unblock task db = unblock_each (blocked_by (store_of db) task.id) db

  unfoldable pub process_cascade : ℕ → Database → Task → Cascade
  process_cascade zero db task = unchanged db
  process_cascade (suc remaining) db task =
      if is_done task
      then then_do (handle_parent_auto_complete (process_cascade remaining) task db)
          (handle_dependency_auto_unblock (process_cascade remaining) task)
      else unchanged db

  -- `handleStatusChanged` on its way in: a cascade that fails leaves the database as it was.
  unfoldable pub handle_status_changed : Database → Task → Database × List Event
  handle_status_changed db task = elim (process_cascade max_cascade_depth db task) [
    | err e ↦ (db, [])
    | ok r ↦ r
  ]

  -- The engine's share of the events of a call at depth 0.
  unfoldable pub settle : Database → List Event → Database × List Event
  settle db [] = (db, [])
  settle db (task_status_changed task from to ∷ events) =
      let (after, own) = handle_status_changed db task in
      let (last, others) = settle after events in (last, own ++ others)
  settle db (event ∷ events) = settle db events

  -- `updateTask` as a caller sees it, with the engine started. The events of the engine are listed
  -- behind those of the call; a subscriber that comes after the engine hears them before the change of
  -- status.
  unfoldable pub perform :
      Database → ℕ → UpdateInput → Option Identity → Result ServiceError (Database × List Event)
  perform db id input caller = update_task strict now db id input caller >>= λ r.
      let (after, own) = settle r.0 r.1 in ok (after, r.1 ++ own)
