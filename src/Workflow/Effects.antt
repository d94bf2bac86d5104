-- ===== src/Workflow/Effects.antt =====
-- What a finished task sets off.
use wood_fired_tasks.Prelude.{
  ℕ, ◌≡◌, refl, sym, subst, ap, ◌∙◌, ◌⊎◌, Bool, true, some, List, ◌++◌, all, arith,
}
use wood_fired_tasks.Prelude.Outcome.{ok}
use wood_fired_tasks.Dependencies.Service.{blocked_by}
use wood_fired_tasks.Tasks.Status.{
  TaskStatus, opened, in_progress, done, closed, blocked, backlogged, same,
}
use wood_fired_tasks.Tasks.Table.{Task, find_by_id}
use wood_fired_tasks.Tasks.Repository.{find_children}
use wood_fired_tasks.Tasks.Checks.{written}
use wood_fired_tasks.Tasks.Service.{Database, Event, store_of, events_of}
use wood_fired_tasks.Tasks.Service.Moves.{written-status}
use wood_fired_tasks.Workflow.{
  Cascade, status_only, is_done, set_status, complete, handle_parent_auto_complete,
  handle_dependency_auto_unblock, process_cascade, max_cascade_depth, handle_status_changed,
}
use wood_fired_tasks.Workflow.Steps.{Forward, forward, pushes, pushed, find_by_id-pushed}
use wood_fired_tasks.Workflow.Reactions.{
  IsReaction, set_status-pushed, set_status-quiet, unblock_each-Succeeds,
  process_cascade-IsReaction,
}

-- The row of the task, with its status.
abbrev pub Has : Database → ℕ → (TaskStatus → Bool) → Type 0
Has db id test = (row : Task) × (find_by_id db.tasks id ≡ some row) × (test row.status ≡ true)

abbrev pub finished : TaskStatus → Bool
finished s = same s done

pub Has-finished :
    {db after : Database} (id : ℕ) → Forward db after → Has db id finished → Has after id finished
Has-finished id f (row, found, over) =
    let (last, end, onward) = f.later id row found in
    (last, end, stays row.status last.status over onward)
  where
    stays : (a b : TaskStatus) → finished a ≡ true → forward a b ≡ true → finished b ≡ true
    stays a b over onward = ground arith

module _ (strict : Bool) (now : ℕ) where
  pub handle_status_changed-eq :
      (db : Database) (task : Task) (r : Database × List Event)
      → process_cascade strict now max_cascade_depth db task ≡ ok r
      → handle_status_changed strict now db task ≡ r
  unfolding handle_status_changed
  handle_status_changed-eq db task r e = rw (handle_status_changed, e) refl

  -- A cascade is never rolled back: it commits accepted updates, and a task only moves forward on the
  -- way from blocked over open and in progress to done; closed and backlogged tasks stay as they are.
  pub handle_status_changed-Forward :
      (db : Database) (task : Task)
      → (process_cascade strict now max_cascade_depth db task
          ≡ ok (handle_status_changed strict now db task))
        × Forward db (handle_status_changed strict now db task).0
  handle_status_changed-Forward db task =
      let (r, e, f) = (process_cascade-IsReaction strict now max_cascade_depth).succeeds db task in
      let same = handle_status_changed-eq db task r e in
      (e ∙ ap ok (sym same), subst (λ q. Forward db q.0) (sym same) f)

  module _ (react : Database → Task → Cascade) (reaction : IsReaction strict now react) where
    -- The action succeeds, and the task is done then.
    abbrev Finishes : ℕ → Cascade → Type 0
    Finishes id c = (r : Database × List Event) × (c ≡ ok r) × Has r.0 id finished

    set_status-Finishes :
        (db : Database) (id : ℕ) (task : Task)
        → find_by_id db.tasks id ≡ some task
        → pushes task.status done ≡ true
        → Finishes id (set_status strict now react id done db)
    set_status-Finishes db id task found push =
        let (r, e, f) = set_status-pushed strict now react reaction db id done task found push in
        (
          r,
          e,
          Has-finished id f (
            written now task (status_only done).columns,
            find_by_id-pushed strict now db id done task found,
            rw (written-status now task (status_only done).columns) refl,
          ),
        )

    complete-Finishes :
        (db : Database) (id : ℕ) (status : TaskStatus) (task : Task)
        → find_by_id db.tasks id ≡ some task
        → task.status ≡ status
        → (status ≡ opened) ⊎ (status ≡ in_progress)
        → Finishes id (complete strict now react id status db)
    unfolding complete
    complete-Finishes db id opened task found e ready =
        let row = written now task (status_only in_progress).columns in
        let quiet =
          set_status-quiet strict now react reaction db id in_progress task found (rw (e) refl)
            refl in
        let (q, e', h) =
          set_status-Finishes (pushed now db id in_progress) id row
            (find_by_id-pushed strict now db id in_progress task found)
            (rw (written-status now task (status_only in_progress).columns) refl) in
        ((q.0, events_of task row (some in_progress) ++ q.1), rw (quiet, e') refl, h)
    complete-Finishes db id in_progress task found e ready =
        set_status-Finishes db id task found (rw (e) refl)
    complete-Finishes db id done task found e ready = absurd (ground (arith, ready))
    complete-Finishes db id closed task found e ready = absurd (ground (arith, ready))
    complete-Finishes db id blocked task found e ready = absurd (ground (arith, ready))
    complete-Finishes db id backlogged task found e ready = absurd (ground (arith, ready))

    parent-Finishes :
        (task : Task) (db : Database) (id : ℕ) (parent : Task)
        → task.parent_task_id ≡ some id
        → all is_done (find_children db.tasks id) ≡ true
        → find_by_id db.tasks id ≡ some parent
        → (parent.status ≡ opened) ⊎ (parent.status ≡ in_progress)
        → Finishes id (handle_parent_auto_complete strict now react task db)
    unfolding handle_parent_auto_complete
    parent-Finishes task db id parent of children found ready =
        rw (of, children, found) (complete-Finishes db id parent.status parent found refl ready)

  -- When a task is done whose parent is open or in progress, and the children of the parent that the
  -- engine reads, the first fifty, are all done, then the parent is done after the cascade.
  pub handle_status_changed-completes :
      (db : Database) (task : Task) (id : ℕ) (parent : Task)
      → is_done task ≡ true
      → task.parent_task_id ≡ some id
      → all is_done (find_children db.tasks id) ≡ true
      → find_by_id db.tasks id ≡ some parent
      → (parent.status ≡ opened) ⊎ (parent.status ≡ in_progress)
      → Has (handle_status_changed strict now db task).0 id finished
  unfolding process_cascade handle_dependency_auto_unblock
  handle_status_changed-completes db task id parent over of children found ready =
      let react = process_cascade strict now 4 in
      let below = process_cascade-IsReaction strict now 4 in
      let (r, e, h) = parent-Finishes react below task db id parent of children found ready in
      let (q, e', f) =
        unblock_each-Succeeds strict now react below (blocked_by (store_of r.0) task.id) r.0 in
      subst (λ p. Has p.0 id finished)
        (sym (handle_status_changed-eq db task (q.0, r.1 ++ q.1) (rw (over, e, e') refl)))
        (Has-finished id f h)
