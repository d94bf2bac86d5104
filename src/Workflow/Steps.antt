-- ===== src/Workflow/Steps.antt =====
-- What a cascade may do to the database: accepted updates that move tasks towards done.
use mathlib.Core.Option
use wood_fired_tasks.Prelude.{
  ℕ, ◌≡◌, refl, ◌∙◌, inl, inr, Bool, true, false, ◌&&◌, ◌||◌, none, some, List, ◌++◌, arith, ◌==◌,
  leb, if◌then◌else◌, Bool-cases,
}
use wood_fired_tasks.Prelude.Outcome.{ok}
use wood_fired_tasks.Tasks.Status.{
  TaskStatus, opened, in_progress, done, closed, blocked, backlogged, same, can_move, transitions,
}
use wood_fired_tasks.Tasks.Table.{Task, find_by_id, update_row, find_by_id-update_row}
use wood_fired_tasks.Tasks.Checks.{
  written, next_status, valid_update, evidence_passes, transition_allowed, minutes_consistent,
  manual_passes,
}
use wood_fired_tasks.Tasks.Service.{Database, Event, fetch, update_task, events_of, block_by}
use wood_fired_tasks.Tasks.Service.Moves.{written-id, written-status}
use wood_fired_tasks.Tasks.Valid.{Reach, here, next, update}
use wood_fired_tasks.Workflow.{Cascade, status_only, then_do}

-- Closed and backlogged tasks stay; the others go from blocked over open and in progress to done.
abbrev rank : TaskStatus → ℕ
rank blocked = 0
rank opened = 1
rank in_progress = 2
rank done = 3
rank closed = 4
rank backlogged = 4

abbrev on_path : TaskStatus → Bool
on_path s = leb (rank s) 3

abbrev pub forward : TaskStatus → TaskStatus → Bool
forward a b = same a b || on_path b && leb (rank a) (rank b)

forward_trans : (a b c : TaskStatus) → forward a b ≡ true → forward b c ≡ true → forward a c ≡ true
forward_trans a b c h k = ground arith

-- The moves that the engine makes.
abbrev pub pushes : TaskStatus → TaskStatus → Bool
pushes opened in_progress = true
pushes in_progress done = true
pushes blocked opened = true
pushes _ _ = false

pushes-can_move : (a b : TaskStatus) → pushes a b ≡ true → can_move a b ≡ true
unfolding transitions
pushes-can_move a b h = ground arith

forward_refl : (a : TaskStatus) → forward a a ≡ true
forward_refl a = ground arith

pushes-forward : (a b c : TaskStatus) → c ≡ b → pushes a b ≡ true → forward a c ≡ true
pushes-forward a b c e h = ground (arith, e, h)

-- What a cascade does to the database: accepted updates, and only moves forward.
pub record Forward (db after : Database) : Type 0 where
  pub steps : Reach db after
  pub later :
      (id : ℕ) (task : Task)
      → find_by_id db.tasks id ≡ some task
      → (row : Task) × (find_by_id after.tasks id ≡ some row)
        × (forward task.status row.status ≡ true)
  pub same_dependencies : after.dependencies ≡ db.dependencies

Reach-trans : {a b c : Database} → Reach a b → Reach b c → Reach a c
Reach-trans r here = r
Reach-trans r (next q step) = next (Reach-trans r q) step

pub Forward-refl : (db : Database) → Forward db db
Forward-refl db = record {
  steps = here;
  later = λ id task e. (task, e, ground arith);
  same_dependencies = refl;
}

pub Forward-trans : {a b c : Database} → Forward a b → Forward b c → Forward a c
Forward-trans f g = record {
  steps = Reach-trans f.steps g.steps;
  later = λ id task e.
      let (row, found, first) = f.later id task e in
      let (last, end, second) = g.later id row found in
      (last, end, forward_trans task.status row.status last.status first second);
  same_dependencies = g.same_dependencies ∙ f.same_dependencies;
}

-- The cascade succeeds, and goes forward from `db`.
abbrev pub Succeeds : Database → Cascade → Type 0
Succeeds db c = (r : Database × List Event) × (c ≡ ok r) × Forward db r.0

pub then_do-Succeeds :
    (db : Database) (first : Cascade) (second : Database → Cascade)
    → Succeeds db first
    → ((d : Database) → Succeeds d (second d))
    → Succeeds db (then_do first second)
then_do-Succeeds db first second (r, e, f) h =
    let (q, e', g) = h r.0 in ((q.0, r.1 ++ q.1), rw (e, e') refl, Forward-trans f g)

-- The database after the engine's write.
abbrev pub pushed : ℕ → Database → ℕ → TaskStatus → Database
pushed now db id status = record db {
  tasks = update_row db.tasks id (λ t. written now t (status_only status).columns);
}

module _ (strict : Bool) (now : ℕ) where
  pub update_task-pushes :
      (db : Database) (id : ℕ) (status : TaskStatus) (task : Task)
      → find_by_id db.tasks id ≡ some task
      → pushes task.status status ≡ true
      → update_task strict now db id (status_only status) none
        ≡ ok (
          pushed now db id status,
          events_of task (written now task (status_only status).columns) (some status),
        )
  unfolding update_task fetch valid_update evidence_passes transition_allowed minutes_consistent
      manual_passes block_by next_status
  update_task-pushes db id status task found push =
      ground (arith, found, push, pushes-can_move task.status status push)

  rows :
      (db : Database) (id : ℕ) (status : TaskStatus) (j : ℕ)
      → find_by_id (pushed now db id status).tasks j ≡ (
          if id == j
          then Option.map (λ t. written now t (status_only status).columns) (find_by_id db.tasks j)
          else find_by_id db.tasks j)
  rows db id status j =
      find_by_id-update_row db.tasks id j (λ t. written now t (status_only status).columns)
        (λ t. written-id now t (status_only status).columns)

  pub find_by_id-pushed :
      (db : Database) (id : ℕ) (status : TaskStatus) (task : Task)
      → find_by_id db.tasks id ≡ some task
      → find_by_id (pushed now db id status).tasks id
        ≡ some (written now task (status_only status).columns)
  find_by_id-pushed db id status task found = ground (arith, found, rows db id status id)

  pub pushed-Forward :
      (db : Database) (id : ℕ) (status : TaskStatus) (task : Task)
      → find_by_id db.tasks id ≡ some task
      → pushes task.status status ≡ true
      → Forward db (pushed now db id status)
  pushed-Forward db id status task found push = record {
    steps = next here (
        update strict now id (status_only status) none _
          (update_task-pushes db id status task found push));
    later = λ j t e. elim (Bool-cases (id == j)) [
      | inl hit ↦ (
        written now t (status_only status).columns,
        ground (arith, rows db id status j, hit, e),
        pushes-forward t.status status (written now t (status_only status).columns).status
            (written-status now t (status_only status).columns)
            (ground (arith, hit, e, found, push)),
      )
      | inr miss ↦ (t, ground (arith, rows db id status j, miss, e), forward_refl t.status)
    ];
    same_dependencies = refl;
  }
