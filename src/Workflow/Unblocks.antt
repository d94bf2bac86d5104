-- ===== src/Workflow/Unblocks.antt =====
-- A finished task unblocks the tasks that wait for nothing else.
use wood_fired_tasks.Prelude.{
  ℕ, ◌≡◌, refl, sym, subst, inl, inr, Bool, true, false, some, List, [], ◌∷◌, ◌++◌, all, has, map,
  keep, arith, ◌==◌, ==_iff, Bool-cases, Option-cases,
}
use wood_fired_tasks.Prelude.Outcome.{ok}
use wood_fired_tasks.Dependencies.CycleDetector.{Edge}
use wood_fired_tasks.Dependencies.Service.{blocked_by, blockers}
use wood_fired_tasks.Tasks.Status.{TaskStatus, opened, blocked, same}
use wood_fired_tasks.Tasks.Table.{Task, find_by_id}
use wood_fired_tasks.Tasks.Checks.{written}
use wood_fired_tasks.Tasks.Service.{Database, Event, store_of}
use wood_fired_tasks.Tasks.Service.Moves.{written-status}
use wood_fired_tasks.Workflow.{
  Cascade, status_only, is_done, unblock, unblock_each, done_row, handle_dependency_auto_unblock,
  process_cascade, handle_status_changed,
}
use wood_fired_tasks.Workflow.Steps.{
  Forward, Forward-refl, Forward-trans, pushed-Forward, pushes, forward, find_by_id-pushed,
}
use wood_fired_tasks.Workflow.Reactions.{
  IsReaction, set_status-pushed, parent-Succeeds, unblock-Succeeds, unblock_each-Succeeds,
  process_cascade-IsReaction,
}
use wood_fired_tasks.Workflow.Effects.{handle_status_changed-eq}

pushes_blocked : (s : TaskStatus) → same s blocked ≡ true → pushes s opened ≡ true
pushes_blocked s h = ground arith

-- The task is there, and it is not blocked.
abbrev pub IsFree : Database → ℕ → Type 0
IsFree db id =
    (row : Task) × (find_by_id db.tasks id ≡ some row) × (same row.status blocked ≡ false)

IsFree-Forward : {db after : Database} (id : ℕ) → Forward db after → IsFree db id → IsFree after id
IsFree-Forward id f (row, found, free) =
    let (last, end, onward) = f.later id row found in
    (last, end, stays row.status last.status free onward)
  where
    stays :
        (a b : TaskStatus) → same a blocked ≡ false → forward a b ≡ true → same b blocked ≡ false
    stays a b free onward = ground arith

done_row-Forward :
    {db after : Database} (id : ℕ)
    → Forward db after
    → done_row (find_by_id db.tasks id) ≡ true
    → done_row (find_by_id after.tasks id) ≡ true
done_row-Forward {db} {after} id f h = elim (Option-cases (find_by_id db.tasks id)) [
  | inl missing ↦ absurd (ground (arith, h, missing))
  | inr (row, found) ↦
      let (last, end, onward) = f.later id row found in ground (arith, h, found, end, onward)
]

-- Every blocker of the task is done.
abbrev pub blockers_done : Database → ℕ → Bool
blockers_done db id =
    all (λ e. done_row (find_by_id db.tasks e.task_id)) (blockers (store_of db) id)

all_done-Forward :
    {db after : Database} (es : List Edge)
    → Forward db after
    → all (λ e. done_row (find_by_id db.tasks e.task_id)) es ≡ true
    → all (λ e. done_row (find_by_id after.tasks e.task_id)) es ≡ true
all_done-Forward [] f h = refl
all_done-Forward {db} {after} (e ∷ es) f h =
    rw
      (
        done_row-Forward {db = db} {after = after} e.task_id f (ground (arith, h)),
        all_done-Forward {db = db} {after = after} es f (ground (arith, h)),
      )
      refl

blockers_done-Forward :
    {db after : Database} (id : ℕ)
    → Forward db after
    → blockers_done db id ≡ true
    → blockers_done after id ≡ true
unfolding blockers
blockers_done-Forward {db} {after} id f h = rw (f.same_dependencies) (
    all_done-Forward {db = db} {after = after} (keep (λ e. e.blocks_task_id == id) db.dependencies)
      f h)

module _ (strict : Bool) (now : ℕ) (react : Database → Task → Cascade)
    (reaction : IsReaction strict now react) where
  -- The action succeeds, and the task is free then.
  abbrev Frees : Database → ℕ → Cascade → Type 0
  Frees db id c = (r : Database × List Event) × (c ≡ ok r) × Forward db r.0 × IsFree r.0 id

  unblock-Frees :
      (db : Database) (id : ℕ) (task : Task)
      → find_by_id db.tasks id ≡ some task
      → blockers_done db id ≡ true
      → Frees db id (unblock strict now react id db)
  unfolding unblock
  unblock-Frees db id task found ready = elim (Bool-cases (same task.status blocked)) [
    | inr free ↦ rw (unblock, found, free) ((db, []), refl, Forward-refl db, (task, found, free))
    | inl held ↦
        let pushes_open = pushes_blocked task.status held in
        let (r, e, f) =
          set_status-pushed strict now react reaction db id opened task found pushes_open in
        rw (unblock, found, held, ready)
          (
            r,
            e,
            Forward-trans (pushed-Forward strict now db id opened task found pushes_open) f,
            IsFree-Forward id f (
              written now task (status_only opened).columns,
              find_by_id-pushed strict now db id opened task found,
              rw (written-status now task (status_only opened).columns) refl,
            ),
          )
  ]

  unblock_each-Frees :
      (es : List Edge) (db : Database) (id : ℕ) (task : Task)
      → find_by_id db.tasks id ≡ some task
      → blockers_done db id ≡ true
      → has (map (λ e. e.blocks_task_id) es) id ≡ true
      → Frees db id (unblock_each strict now react es db)
  unfolding unblock_each has
  unblock_each-Frees [] db id task found ready there = absurd (ground (arith, there))
  unblock_each-Frees (e ∷ es) db id task found ready there =
      elim (Bool-cases (e.blocks_task_id == id)) [
        | inl hit ↦
            let p = (==_iff e.blocks_task_id id).0 hit in
            let (r, first, f, free) =
              subst (λ j. Frees db id (unblock strict now react j db)) (sym p)
                (unblock-Frees db id task found ready) in
            let (q, second, g) = unblock_each-Succeeds strict now react reaction es r.0 in
            (
              (q.0, r.1 ++ q.1),
              rw (first, second) refl,
              Forward-trans f g,
              IsFree-Forward id g free,
            )
        | inr miss ↦
            let (r, first, f) = unblock-Succeeds strict now react reaction e.blocks_task_id db in
            let (row, still, onward) = f.later id task found in
            let (q, second, g, free) =
              unblock_each-Frees es r.0 id row still (blockers_done-Forward id f ready)
                (ground (arith, there, miss)) in
            ((q.0, r.1 ++ q.1), rw (first, second) refl, Forward-trans f g, free)
      ]

-- When a task is done that blocks another one, and every blocker of that one is done, then it is not
-- blocked after the cascade.
pub handle_status_changed-unblocks :
    (strict : Bool) (now : ℕ) (db : Database) (task : Task) (id : ℕ) (waiting : Task)
    → is_done task ≡ true
    → has (map (λ e. e.blocks_task_id) (blocked_by (store_of db) task.id)) id ≡ true
    → find_by_id db.tasks id ≡ some waiting
    → blockers_done db id ≡ true
    → IsFree (handle_status_changed strict now db task).0 id
unfolding process_cascade handle_dependency_auto_unblock blocked_by
handle_status_changed-unblocks strict now db task id waiting over there found ready =
    let react = process_cascade strict now 4 in
    let below = process_cascade-IsReaction strict now 4 in
    let (r, e, f) = parent-Succeeds strict now react below task db in
    let (row, still, onward) = f.later id waiting found in
    let (q, e', g, free) =
      unblock_each-Frees strict now react below (blocked_by (store_of r.0) task.id) r.0 id row still
        (blockers_done-Forward id f ready) (rw (f.same_dependencies) there) in
    subst (λ p. IsFree p.0 id)
      (sym (handle_status_changed-eq strict now db task (q.0, r.1 ++ q.1) (rw (over, e, e') refl)))
      free
