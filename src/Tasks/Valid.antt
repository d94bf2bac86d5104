-- ===== src/Tasks/Valid.antt =====
-- The operations on the database as steps, and what holds of it after any sequence of them.
pub mod Kept
use wood_fired_tasks.Wsjf.Tiers.{minutes_to_tier}
use wood_fired_tasks.Prelude.{
  ℕ, suc, ◌+◌, ◌≤◌, ◌<◌, ◌≡◌, refl, sym, subst, inl, inr, ◌⊎◌, Bool, true, false, not, Option, none,
  some, List, [], ◌∷◌, ◌++◌, map, has, keep, length, arith, Bool-cases, Option-cases, All,
  if◌then◌else◌, ◌||◌,
}
use wood_fired_tasks.Prelude.Text.{Text}
use wood_fired_tasks.Prelude.Outcome.{ok, err}
use wood_fired_tasks.Dependencies.Trails.{IsAcyclic}
use wood_fired_tasks.Dependencies.CycleDetector.Answers.{Blocks}
use wood_fired_tasks.Dependencies.Service.Acyclic.{IsAcyclic-keep, empty-IsAcyclic}
use wood_fired_tasks.Tasks.Evidence.{Identity}
use wood_fired_tasks.Tasks.Status.{same, in_progress, opened}
use wood_fired_tasks.Tasks.Table.{Task, find_by_id, update_row, All-update_row, Unique}
use wood_fired_tasks.Tasks.Rows.{
  All-append, All-keep, All-map, All-update_found, Unique-append, Unique-keep, Unique-update_row,
}
use wood_fired_tasks.Tasks.Repository.{
  CreateTask, UpdateTask, claimable, claimed, renewed, created, auto_sized, updated, is_none,
}
use wood_fired_tasks.Tasks.Checks.{UpdateInput, written, stamp, resized}
use wood_fired_tasks.Tasks.Completion.{
  IsStamped, written-IsStamped, created-IsStamped, auto_sized-IsStamped, claimed-IsStamped,
  renewed-IsStamped, released-IsStamped,
}
use wood_fired_tasks.Tasks.Claims.{
  released, is_held, release_claim, release_all, sweep, find_stale_claims,
}
use wood_fired_tasks.Tasks.Service.{
  Database, Event, create_task, update_task, delete_task, claim, descendants, store_of, fetch,
}
use wood_fired_tasks.Tasks.Service.Accepted.{Accepted, update_task-Accepted}
use wood_fired_tasks.Tasks.Service.Blocks.{block_by-IsAcyclic}
use wood_fired_tasks.Tasks.Service.Claiming.{Written, claim-Written}

pub record IsValid (db : Database) : Type 0 where
  pub stamped : All IsStamped db.tasks
  pub unique : Unique db.tasks
  pub below : All (λ t. t.id < db.next_id) db.tasks
  pub acyclic : IsAcyclic (Blocks db.dependencies)

-- An operation of a caller that succeeds, or a sweep.
pub data Step : Database → Database → Type 0 where
  create :
      {s t : Database} (now : ℕ) (dto : CreateTask) (events : List Event)
      → create_task now s dto ≡ ok (t, events)
      → Step s t
  update :
      {s t : Database} (strict : Bool) (now id : ℕ) (input : UpdateInput) (caller : Option Identity)
      (events : List Event)
      → update_task strict now s id input caller ≡ ok (t, events)
      → Step s t
  remove :
      {s t : Database} (id : ℕ) (events : List Event) → delete_task s id ≡ ok (t, events) → Step s t
  take_claim :
      {s t : Database} (now id : ℕ) (assignee : Text) (user : Option ℕ) (events : List Event)
      → claim now s id assignee user ≡ ok (t, events)
      → Step s t
  lapse : (s : Database) (now : ℕ) → Step s (record s { tasks = (sweep now s.tasks).0 })

pub data Reach (s : Database) : Database → Type 0 where
  here : Reach s s
  next : {t u : Database} → Reach s t → Step t u → Reach s u

abbrev pub empty : List ℕ → Database
empty projects = record { projects = projects; tasks = []; dependencies = []; next_id = 1 }
