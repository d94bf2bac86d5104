-- ===== src/Tasks/Service/Accepted.antt =====
-- What an accepted update has passed, and what it has written.
use wood_fired_tasks.Prelude.{ℕ, ◌≡◌, inl, inr, Bool, true, Option, some, List, arith, Option-cases}
use wood_fired_tasks.Prelude.Outcome.{ok, Result-cases}
use wood_fired_tasks.Dependencies.Service.{Store}
use wood_fired_tasks.Tasks.Evidence.{Identity}
use wood_fired_tasks.Tasks.Table.{Task, find_by_id, update_row}
use wood_fired_tasks.Tasks.Checks.{
  UpdateInput, valid_update, evidence_passes, next_status, transition_allowed, minutes_consistent,
  manual_passes, written,
}
use wood_fired_tasks.Tasks.Service.{
  Database, Event, fetch, store_of, block_by, events_of, update_task,
}

module _ (strict : Bool) (now : ℕ) (db : Database) (id : ℕ) (input : UpdateInput)
    (caller : Option Identity) where
  pub record Accepted (after : Database) (events : List Event) : Type 0 where
    pub task : Task
    pub store : Store
    pub found : find_by_id db.tasks id ≡ some task
    pub valid : valid_update input ≡ true
    pub evidence : evidence_passes strict task input.columns.verification_evidence caller ≡ true
    pub transition : transition_allowed task (next_status task input.columns.status) ≡ true
    pub minutes : minutes_consistent input.columns.estimated_minutes input.columns.wsjf ≡ true
    pub manual : manual_passes input.columns.wsjf ≡ true
    pub linked : block_by input.blocked_by (store_of db) id ≡ ok store
    pub database : after ≡ record db {
      tasks = update_row db.tasks id (λ t. written now t input.columns);
      dependencies = store.dependencies;
    }
    pub announced :
        events
        ≡ events_of task (written now task input.columns) (next_status task input.columns.status)

  pub update_task-Accepted :
      (after : Database) (events : List Event)
      → update_task strict now db id input caller ≡ ok (after, events)
      → Accepted after events
  unfolding update_task fetch
  update_task-Accepted after events h = elim (Option-cases (find_by_id db.tasks id)) [
    | inl missing ↦ absurd (ground (arith, h, missing))
    | inr (task, found) ↦ elim (Result-cases (block_by input.blocked_by (store_of db) id)) [
      | inl (e, failed) ↦ absurd (ground (arith, h, found, failed))
      | inr (store, linked) ↦ record {
        task = task;
        store = store;
        found = found;
        valid = ground (arith, h);
        evidence = ground (arith, h, found);
        transition = ground (arith, h, found);
        minutes = ground (arith, h, found);
        manual = ground (arith, h, found);
        linked = linked;
        database = ground (arith, h, found, linked);
        announced = ground (arith, h, found, linked);
      }
    ]
  ]
