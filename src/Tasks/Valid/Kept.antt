-- ===== src/Tasks/Valid/Kept.antt =====
-- Every operation keeps the database valid.
use wood_fired_tasks.Wsjf.Tiers.{minutes_to_tier}
use wood_fired_tasks.Prelude.{
  ℕ, suc, ◌<◌, ◌≡◌, refl, sym, subst, inl, inr, Bool, not, Option, some, List, [], ◌∷◌, ◌++◌, has,
  keep, length, arith, Bool-cases, Option-cases, if◌then◌else◌, ◌||◌,
}
use wood_fired_tasks.Prelude.Text.{Text}
use wood_fired_tasks.Prelude.Outcome.{ok}
use wood_fired_tasks.Dependencies.Service.Acyclic.{IsAcyclic-keep, empty-IsAcyclic}
use wood_fired_tasks.Tasks.Evidence.{Identity}
use wood_fired_tasks.Tasks.Table.{Task, find_by_id, update_row, All-update_row}
use wood_fired_tasks.Tasks.Rows.{
  All-append, All-keep, All-map, All-update_found, Unique-append, Unique-keep, Unique-update_row,
}
use wood_fired_tasks.Tasks.Repository.{CreateTask, claimed, renewed, created, auto_sized, is_none}
use wood_fired_tasks.Tasks.Checks.{UpdateInput, written}
use wood_fired_tasks.Tasks.Completion.{
  IsStamped, written-IsStamped, claimed-IsStamped, renewed-IsStamped, released-IsStamped,
}
use wood_fired_tasks.Tasks.Claims.{
  released, is_held, release_claim, release_all, sweep, find_stale_claims,
}
use wood_fired_tasks.Tasks.Service.{
  Database, Event, create_task, update_task, delete_task, claim, descendants, store_of, fetch,
}
use wood_fired_tasks.Tasks.Service.Accepted.{Accepted, update_task-Accepted}
use wood_fired_tasks.Tasks.Service.Moves.{written-id}
use wood_fired_tasks.Tasks.Service.Blocks.{block_by-IsAcyclic}
use wood_fired_tasks.Tasks.Service.Claiming.{claim-Written}
use wood_fired_tasks.Tasks.Valid.{
  IsValid, Step, create, update, remove, take_claim, lapse, Reach, here, next, empty,
}

-- A write of one row that keeps its id and its stamp.
update_row-IsValid :
    (db : Database) (id : ℕ) (change : Task → Task) (u : Task)
    → find_by_id db.tasks id ≡ some u
    → ((t : Task) → (change t).id ≡ t.id)
    → (IsStamped u → IsStamped (change u))
    → IsValid db
    → IsValid (record db { tasks = update_row db.tasks id change })
update_row-IsValid db id change u found keeps stamps h = record {
  stamped = All-update_found IsStamped db.tasks id change u found stamps h.stamped;
  unique = Unique-update_row db.tasks id change keeps h.unique;
  below =
      All-update_row (λ t. t.id < db.next_id) db.tasks id change (λ t p. ground (arith, keeps t, p))
        h.below;
  acyclic = h.acyclic;
}

update-IsValid :
    (strict : Bool) (now : ℕ) (s t : Database) (id : ℕ) (input : UpdateInput)
    (caller : Option Identity) (events : List Event)
    → update_task strict now s id input caller ≡ ok (t, events)
    → IsValid s
    → IsValid t
update-IsValid strict now s t id input caller events e h = subst IsValid (sym a.database) record {
  stamped = rows.stamped;
  unique = rows.unique;
  below = rows.below;
  acyclic = block_by-IsAcyclic input.blocked_by (store_of s) a.store id a.linked h.acyclic;
}
  where
    a : Accepted strict now s id input caller t events
    a = update_task-Accepted strict now s id input caller t events e

    rows : IsValid (record s { tasks = update_row s.tasks id (λ u. written now u input.columns) })
    rows =
        update_row-IsValid s id (λ u. written now u input.columns) a.task a.found
          (λ u. written-id now u input.columns) (written-IsStamped now a.task input.columns) h

-- The row that a creation writes.
abbrev inserted : ℕ → ℕ → CreateTask → Task
inserted now id dto =
    if is_none dto.wsjf
    then auto_sized now (minutes_to_tier dto.estimated_minutes) (created now id dto)
    else created now id dto

inserted-id : (now id : ℕ) (dto : CreateTask) → (inserted now id dto).id ≡ id
unfolding auto_sized created
inserted-id now id dto = ground arith

inserted-IsStamped : (now id : ℕ) (dto : CreateTask) → IsStamped (inserted now id dto)
unfolding auto_sized created
inserted-IsStamped now id dto = ground arith

create_task-eq-ok :
    (now : ℕ) (s t : Database) (dto : CreateTask) (events : List Event)
    → create_task now s dto ≡ ok (t, events)
    → t ≡ record s { tasks = s.tasks ++ inserted now s.next_id dto ∷ []; next_id = suc s.next_id }
unfolding create_task
create_task-eq-ok now s t dto events e = ground (arith, e)

create-IsValid :
    (now : ℕ) (s t : Database) (dto : CreateTask) (events : List Event)
    → create_task now s dto ≡ ok (t, events)
    → IsValid s
    → IsValid t
create-IsValid now s t dto events e h =
    let row = inserted now s.next_id dto in
    let id_row = inserted-id now s.next_id dto in
    subst IsValid (sym (create_task-eq-ok now s t dto events e)) record {
      stamped =
          All-append IsStamped s.tasks (row ∷ []) h.stamped
            (inserted-IsStamped now s.next_id dto, tt);
      unique =
          Unique-append s.tasks row
            (All-map (λ u. u.id < s.next_id) (λ u. u.id < row.id) s.tasks
              (λ u p. ground (arith, p, id_row)) h.below)
            h.unique;
      below =
          All-append (λ u. u.id < suc s.next_id) s.tasks (row ∷ [])
            (All-map (λ u. u.id < s.next_id) (λ u. u.id < suc s.next_id) s.tasks
              (λ u p. omega (arith, p)) h.below)
            (omega (arith, id_row), tt);
      acyclic = h.acyclic;
    }

-- What a deletion leaves.
abbrev without : Database → ℕ → Database
without s id =
    let gone = descendants (length s.tasks) s.tasks (id ∷ []) in
    record s {
      tasks = keep (λ u. not (has gone u.id)) s.tasks;
      dependencies =
          keep (λ d. not (has gone d.task_id || has gone d.blocks_task_id)) s.dependencies;
    }

delete_task-eq-ok :
    (s t : Database) (id : ℕ) (events : List Event)
    → delete_task s id ≡ ok (t, events)
    → t ≡ without s id
unfolding delete_task fetch
delete_task-eq-ok s t id events e = ground (arith, e)

delete_task-IsValid :
    (s t : Database) (id : ℕ) (events : List Event)
    → delete_task s id ≡ ok (t, events)
    → IsValid s
    → IsValid t
delete_task-IsValid s t id events e h =
    subst IsValid (sym (delete_task-eq-ok s t id events e)) record {
      stamped = All-keep IsStamped _ s.tasks h.stamped;
      unique = Unique-keep _ s.tasks h.unique;
      below = All-keep (λ u. u.id < s.next_id) _ s.tasks h.below;
      acyclic = IsAcyclic-keep _ s.dependencies h.acyclic;
    }

claim-IsValid :
    (now : ℕ) (s t : Database) (id : ℕ) (assignee : Text) (user : Option ℕ) (events : List Event)
    → claim now s id assignee user ≡ ok (t, events)
    → IsValid s
    → IsValid t
unfolding renewed claimed
claim-IsValid now s t id assignee user events e h =
    let (task, found, w) = claim-Written now s id assignee user t events e in
    elim w [
      | inl (held, after) ↦ subst IsValid (sym after) (
          update_row-IsValid s id (renewed now) task found (λ u. refl) (renewed-IsStamped now task)
            h)
      | inr (free, after) ↦ subst IsValid (sym after) (
          update_row-IsValid s id (claimed now assignee user) task found (λ u. refl)
            (claimed-IsStamped now assignee user task free) h)
    ]

release_claim-IsValid :
    (now : ℕ) (s : Database) (id : ℕ)
    → IsValid s
    → IsValid (record s { tasks = (release_claim now s.tasks id).0 })
unfolding release_claim released
release_claim-IsValid now s id h = elim (Option-cases (find_by_id s.tasks id)) [
  | inl missing ↦ rw (release_claim, missing) h
  | inr (task, found) ↦ elim (Bool-cases (is_held task)) [
    | inl held ↦
        rw (release_claim, found, held)
          (update_row-IsValid s id (released now) task found (λ u. refl)
            (released-IsStamped now task held) h)
    | inr free ↦ rw (release_claim, found, free) h
  ]
]

release_all-IsValid :
    (now : ℕ) (s : Database) (ids : List ℕ)
    → IsValid s
    → IsValid (record s { tasks = (release_all now s.tasks ids).0 })
unfolding release_all
release_all-IsValid now s [] h = h
release_all-IsValid now s (id ∷ ids) h =
    release_all-IsValid now (record s { tasks = (release_claim now s.tasks id).0 }) ids
      (release_claim-IsValid now s id h)

Step-IsValid : {s t : Database} → Step s t → IsValid s → IsValid t
unfolding sweep
Step-IsValid (create {s} {t} now dto events e) h = create-IsValid now s t dto events e h
Step-IsValid (update {s} {t} strict now id input caller events e) h =
    update-IsValid strict now s t id input caller events e h
Step-IsValid (remove {s} {t} id events e) h = delete_task-IsValid s t id events e h
Step-IsValid (take_claim {s} {t} now id assignee user events e) h =
    claim-IsValid now s t id assignee user events e h
Step-IsValid (lapse s now) h = release_all-IsValid now s (find_stale_claims now s.tasks) h

pub Reach-keeps : {s t : Database} → Reach s t → IsValid s → IsValid t
Reach-keeps here h = h
Reach-keeps (next r step) h = Step-IsValid step (Reach-keeps r h)

-- Whatever operations of the task service succeed and whenever claims lapse, starting from no tasks: a
-- task has a time of completion exactly while it is done, ids are unique and below the next one, and
-- the dependencies have no cycle.
pub Reach-IsValid : {projects : List ℕ} {s : Database} → Reach (empty projects) s → IsValid s
Reach-IsValid r =
    Reach-keeps r record { stamped = tt; unique = tt; below = tt; acyclic = empty-IsAcyclic }
