-- ===== src/Workflow/Reactions.antt =====
-- The engine's reactions never fail, and only go forward.
use wood_fired_tasks.Prelude.{
  ℕ, zero, suc, ◌≡◌, refl, inl, inr, Bool, true, false, some, List, [], ◌∷◌, ◌++◌, all, Bool-cases,
  Option-cases,
}
use wood_fired_tasks.Prelude.Outcome.{ok}
use wood_fired_tasks.Dependencies.CycleDetector.{Edge}
use wood_fired_tasks.Tasks.Status.{
  TaskStatus, opened, in_progress, done, closed, blocked, backlogged, same, same-eq,
}
use wood_fired_tasks.Tasks.Table.{Task, find_by_id}
use wood_fired_tasks.Tasks.Checks.{written}
use wood_fired_tasks.Tasks.Service.{
  Database, Event, events_of, store_of, task_status_changed, task_updated, task_created,
  task_claimed, task_deleted, task_claim_released,
}
use wood_fired_tasks.Tasks.Service.Moves.{written-status}
use wood_fired_tasks.Dependencies.Service.{blocked_by}
use wood_fired_tasks.Tasks.Repository.{find_children}
use wood_fired_tasks.Workflow.{
  Cascade, status_only, unchanged, is_done, hear, deliver, set_status, complete, unblock,
  unblock_each, handle_parent_auto_complete, handle_dependency_auto_unblock, process_cascade,
  all_blockers_done,
}
use wood_fired_tasks.Workflow.Steps.{
  Forward, Forward-refl, Forward-trans, pushes, Succeeds, then_do-Succeeds, pushed,
  update_task-pushes, find_by_id-pushed, pushed-Forward,
}

module _ (strict : Bool) (now : ℕ) where
  -- What the engine does at the next depth: it succeeds, and only a task that is done makes it act.
  pub record IsReaction (react : Database → Task → Cascade) : Type 0 where
    pub succeeds : (db : Database) (task : Task) → Succeeds db (react db task)
    pub idle : (db : Database) (task : Task) → is_done task ≡ false → react db task ≡ unchanged db

  module _ (react : Database → Task → Cascade) (reaction : IsReaction react) where
    hear-Succeeds : (event : Event) (db : Database) → Succeeds db (hear strict now react event db)
    hear-Succeeds (task_status_changed task from to) db = reaction.succeeds db task
    hear-Succeeds (task_created task) db = ((db, []), refl, Forward-refl db)
    hear-Succeeds (task_updated task) db = ((db, []), refl, Forward-refl db)
    hear-Succeeds (task_claimed task) db = ((db, []), refl, Forward-refl db)
    hear-Succeeds (task_deleted task) db = ((db, []), refl, Forward-refl db)
    hear-Succeeds (task_claim_released task) db = ((db, []), refl, Forward-refl db)

    deliver-Succeeds :
        (db : Database) (events : List Event) → Succeeds db (deliver strict now react db events)
    unfolding deliver
    deliver-Succeeds db [] = ((db, []), refl, Forward-refl db)
    deliver-Succeeds db (event ∷ events) =
        then_do-Succeeds db _ _ (hear-Succeeds event db)
          (λ d. let (q, e, f) = deliver-Succeeds d events in ((q.0, event ∷ q.1), rw (e) refl, f))

    stay : (db : Database) → Succeeds db (unchanged db)
    stay db = ((db, []), refl, Forward-refl db)

    -- One write of the engine, with all that it sets off.
    pub set_status-pushed :
        (db : Database) (id : ℕ) (status : TaskStatus) (task : Task)
        → find_by_id db.tasks id ≡ some task
        → pushes task.status status ≡ true
        → (r : Database × List Event) × (set_status strict now react id status db ≡ ok r)
          × Forward (pushed now db id status) r.0
    unfolding set_status
    set_status-pushed db id status task found push =
        let row = written now task (status_only status).columns in
        let events = events_of task row (some status) in
        let (q, e, f) = deliver-Succeeds (pushed now db id status) events in
        (q, rw (update_task-pushes strict now db id status task found push, e) refl, f)

    pub set_status-Succeeds :
        (db : Database) (id : ℕ) (status : TaskStatus) (task : Task)
        → find_by_id db.tasks id ≡ some task
        → pushes task.status status ≡ true
        → Succeeds db (set_status strict now react id status db)
    set_status-Succeeds db id status task found push =
        let (r, e, f) = set_status-pushed db id status task found push in
        (r, e, Forward-trans (pushed-Forward strict now db id status task found push) f)

    -- A write that does not finish the task sets nothing off.
    pub set_status-quiet :
        (db : Database) (id : ℕ) (status : TaskStatus) (task : Task)
        → find_by_id db.tasks id ≡ some task
        → pushes task.status status ≡ true
        → same status done ≡ false
        → set_status strict now react id status db
          ≡ ok (
            pushed now db id status,
            events_of task (written now task (status_only status).columns) (some status),
          )
    unfolding set_status deliver
    set_status-quiet db id status task found push going =
        let row = written now task (status_only status).columns in
        rw
          (
            update_task-pushes strict now db id status task found push,
            reaction.idle (pushed now db id status) row
                (rw (written-status now task (status_only status).columns) going),
          )
          refl

    pub complete-Succeeds :
        (db : Database) (id : ℕ) (status : TaskStatus) (task : Task)
        → find_by_id db.tasks id ≡ some task
        → task.status ≡ status
        → Succeeds db (complete strict now react id status db)
    unfolding complete
    complete-Succeeds db id opened task found e =
        let row = written now task (status_only in_progress).columns in
        let quiet = set_status-quiet db id in_progress task found (rw (e) refl) refl in
        let (q, e', f) =
          set_status-Succeeds (pushed now db id in_progress) id done row
            (find_by_id-pushed strict now db id in_progress task found)
            (rw (written-status now task (status_only in_progress).columns) refl) in
        (
          (q.0, events_of task row (some in_progress) ++ q.1),
          rw (quiet, e') refl,
          Forward-trans (pushed-Forward strict now db id in_progress task found (rw (e) refl)) f,
        )
    complete-Succeeds db id in_progress task found e =
        set_status-Succeeds db id done task found (rw (e) refl)
    complete-Succeeds db id done task found e = stay db
    complete-Succeeds db id closed task found e = stay db
    complete-Succeeds db id blocked task found e = stay db
    complete-Succeeds db id backlogged task found e = stay db

    pub parent-Succeeds :
        (task : Task) (db : Database)
        → Succeeds db (handle_parent_auto_complete strict now react task db)
    unfolding handle_parent_auto_complete
    parent-Succeeds task db = elim (Option-cases task.parent_task_id) [
      | inl e ↦ rw (e) (stay db)
      | inr (id, e) ↦ elim (Bool-cases (all is_done (find_children db.tasks id))) [
        | inr going ↦ rw (e, going) (stay db)
        | inl finished ↦ elim (Option-cases (find_by_id db.tasks id)) [
          | inl missing ↦ rw (e, finished, missing) (stay db)
          | inr (parent, found) ↦
              rw (e, finished, found) (complete-Succeeds db id parent.status parent found refl)
        ]
      ]
    ]

    pub unblock-Succeeds : (id : ℕ) (db : Database) → Succeeds db (unblock strict now react id db)
    unfolding unblock
    unblock-Succeeds id db = elim (Option-cases (find_by_id db.tasks id)) [
      | inl missing ↦ rw (unblock, missing) (stay db)
      | inr (task, found) ↦ elim (Bool-cases (same task.status blocked)) [
        | inr free ↦ rw (unblock, found, free) (stay db)
        | inl held ↦ elim (Bool-cases (all_blockers_done strict now react id db)) [
          | inr waits ↦ rw (unblock, found, held, waits) (stay db)
          | inl ready ↦
              rw (unblock, found, held, ready)
                (set_status-Succeeds db id opened task found
                  (rw (same-eq task.status blocked held) refl))
        ]
      ]
    ]

    pub unblock_each-Succeeds :
        (es : List Edge) (db : Database) → Succeeds db (unblock_each strict now react es db)
    unfolding unblock_each
    unblock_each-Succeeds [] db = stay db
    unblock_each-Succeeds (e ∷ es) db =
        then_do-Succeeds db _ (unblock_each strict now react es)
          (unblock-Succeeds e.blocks_task_id db) (unblock_each-Succeeds es)

  pub process_cascade-IsReaction :
      (remaining : ℕ) → IsReaction (process_cascade strict now remaining)
  unfolding process_cascade handle_dependency_auto_unblock
  process_cascade-IsReaction zero = record {
    succeeds = λ db task. ((db, []), refl, Forward-refl db);
    idle = λ db task e. refl;
  }
  process_cascade-IsReaction (suc remaining) =
      let react = process_cascade strict now remaining in
      let below = process_cascade-IsReaction remaining in
      record {
        succeeds = λ db task. elim (Bool-cases (is_done task)) [
          | inl over ↦ rw (over) (
              then_do-Succeeds db _ (handle_dependency_auto_unblock strict now react task)
                (parent-Succeeds react below task db)
                (λ d. unblock_each-Succeeds react below (blocked_by (store_of d) task.id) d))
          | inr going ↦ rw (going) (stay react below db)
        ];
        idle = λ db task e. rw (e) refl;
      }
