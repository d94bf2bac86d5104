-- ===== src/Tasks/Service/Claiming.antt =====
-- What an accepted claim writes.
use wood_fired_tasks.Prelude.{
  ℕ, ◌≡◌, inl, inr, ◌⊎◌, true, Option, some, List, arith, Bool-cases, Option-cases,
}
use wood_fired_tasks.Prelude.Text.{Text}
use wood_fired_tasks.Prelude.Outcome.{ok}
use wood_fired_tasks.Tasks.Table.{Task, find_by_id, update_row}
use wood_fired_tasks.Tasks.Repository.{
  claimable, claimed, claim_task, held_by, renewed, renew_claim,
}
use wood_fired_tasks.Tasks.Service.{Database, Event, fetch, claim}

module _ (now : ℕ) (db : Database) (id : ℕ) (assignee : Text) (user : Option ℕ) where
  -- The holder's claim is renewed, or a free open task is claimed.
  abbrev pub Written : Database → Task → Type 0
  Written after task =
      (held_by assignee task ≡ true)
        × (after ≡ record db { tasks = update_row db.tasks id (renewed now) })
      ⊎ (claimable task.version task ≡ true)
        × (after ≡ record db { tasks = update_row db.tasks id (claimed now assignee user) })

  pub claim-Written :
      (after : Database) (events : List Event)
      → claim now db id assignee user ≡ ok (after, events)
      → (task : Task) × (find_by_id db.tasks id ≡ some task) × Written after task
  unfolding claim fetch claim_task renew_claim held_by
  claim-Written after events h = elim (Option-cases (find_by_id db.tasks id)) [
    | inl missing ↦ absurd (ground (arith, h, missing))
    | inr (task, found) ↦ (
      task,
      found,
      elim (Bool-cases (held_by assignee task)) [
        | inl held ↦ inl (held, ground (arith, h, found, held))
        | inr free ↦ inr (ground (arith, h, found, free), ground (arith, h, found, free))
      ],
    )
  ]
