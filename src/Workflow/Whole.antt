-- ===== src/Workflow/Whole.antt =====
-- An update together with all that the engine does about it.
use wood_fired_tasks.Prelude.{ℕ, ◌≡◌, refl, Bool, Option, List, [], ◌∷◌, ◌++◌}
use wood_fired_tasks.Prelude.Outcome.{ok}
use wood_fired_tasks.Tasks.Evidence.{Identity}
use wood_fired_tasks.Tasks.Checks.{UpdateInput}
use wood_fired_tasks.Tasks.Service.{
  Database, Event, task_created, task_updated, task_claimed, task_deleted, task_claim_released,
  task_status_changed, update_task,
}
use wood_fired_tasks.Tasks.Valid.{IsValid, next, here, update}
use wood_fired_tasks.Tasks.Valid.Kept.{Reach-keeps}
use wood_fired_tasks.Workflow.{handle_status_changed, settle, perform}
use wood_fired_tasks.Workflow.Steps.{Forward, Forward-refl, Forward-trans}
use wood_fired_tasks.Workflow.Effects.{handle_status_changed-Forward}

module _ (strict : Bool) (now : ℕ) where
  settle-Forward :
      (db : Database) (events : List Event) → Forward db (settle strict now db events).0
  unfolding settle
  settle-Forward db [] = Forward-refl db
  settle-Forward db (task_status_changed task from to ∷ events) =
      Forward-trans (handle_status_changed-Forward strict now db task).1
        (settle-Forward (handle_status_changed strict now db task).0 events)
  settle-Forward db (task_created task ∷ events) = settle-Forward db events
  settle-Forward db (task_updated task ∷ events) = settle-Forward db events
  settle-Forward db (task_claimed task ∷ events) = settle-Forward db events
  settle-Forward db (task_deleted task ∷ events) = settle-Forward db events
  settle-Forward db (task_claim_released task ∷ events) = settle-Forward db events

  -- An update of a valid database that succeeds on its own also succeeds with the engine started; the
  -- database with all that the engine has done is valid, and has only moved forward from the caller's
  -- write.
  pub perform-IsValid :
      (db written : Database) (id : ℕ) (input : UpdateInput) (caller : Option Identity)
      (events : List Event)
      → update_task strict now db id input caller ≡ ok (written, events)
      → IsValid db
      → (r : Database × List Event) × (perform strict now db id input caller ≡ ok r)
        × IsValid r.0
        × Forward written r.0
  unfolding perform
  perform-IsValid db written id input caller events e h =
      let f = settle-Forward written events in
      let after = settle strict now written events in
      (
        (after.0, events ++ after.1),
        rw (e) refl,
        Reach-keeps f.steps
            (Reach-keeps (next here (update strict now id input caller events e)) h),
        f,
      )
