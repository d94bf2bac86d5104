-- ===== src/Tasks/Service/Moves.antt =====
-- What a caller can rely on after an accepted update.
use mathlib.Core.Option
use wood_fired_tasks.Prelude.{
  ℕ, ◌≡◌, ◌≢◌, refl, ap, ◌∙◌, inl, inr, ◌⊎◌, Bool, true, false, Option, none, some, List, [], ◌∷◌,
  arith, ◌==◌, Bool-cases, if◌then◌else◌,
}
use wood_fired_tasks.Prelude.Outcome.{ok}
use wood_fired_tasks.Tasks.Status.{TaskStatus, same, can_move, same-eq}
use wood_fired_tasks.Tasks.Evidence.{Evidence, Identity, Violation, validate_verification_evidence}
use wood_fired_tasks.Tasks.Evidence.Rules.{IsSound, validate_iff}
use wood_fired_tasks.Tasks.Table.{Task, find_by_id, find_by_id-update_row}
use wood_fired_tasks.Tasks.Repository.{
  Field, null, value, updated, auto_sized, is_none, UpdateTask, or_else, patch,
}
use wood_fired_tasks.Tasks.Checks.{
  UpdateInput, written, stamp, next_status, transition_allowed, is_closing, evidence_passes,
  context_of, no_violations,
}
use wood_fired_tasks.Tasks.Service.{Database, Event, update_task}
use wood_fired_tasks.Tasks.Service.Accepted.{update_task-Accepted}

pub written-id : (now : ℕ) (task : Task) (c : UpdateTask) → (written now task c).id ≡ task.id
unfolding written auto_sized updated
written-id now task c = ground arith

pub written-status :
    (now : ℕ) (task : Task) (c : UpdateTask)
    → (written now task c).status ≡ or_else c.status task.status
unfolding written auto_sized updated stamp
written-status now task c = ground arith

written-evidence :
    (now : ℕ) (task : Task) (c : UpdateTask)
    → (written now task c).verification_evidence
      ≡ patch (stamp task c).verification_evidence task.verification_evidence
unfolding written auto_sized updated
written-evidence now task c = ground arith

no_violations-nil : (vs : List Violation) → no_violations vs ≡ true → vs ≡ []
no_violations-nil [] h = refl
no_violations-nil (v ∷ vs) h = ground arith

evidence_passes-value :
    (strict : Bool) (task : Task) (field : Field Evidence) (caller : Option Identity)
    (evidence : Evidence)
    → strict ≡ true
    → field ≡ value evidence
    → evidence_passes strict task field caller ≡ true
    → no_violations (validate_verification_evidence evidence (context_of task caller)) ≡ true
unfolding evidence_passes
evidence_passes-value strict task field caller evidence on given h = ground (arith, on, given, h)

-- A move that is allowed.
next_status-moves :
    (task : Task) (status : Option TaskStatus)
    → transition_allowed task (next_status task status) ≡ true
    → (or_else status task.status ≡ task.status)
      ⊎ (can_move task.status (or_else status task.status) ≡ true)
unfolding next_status transition_allowed
next_status-moves task none h = inl refl
next_status-moves task (some status) h = elim (Bool-cases (same status task.status)) [
  | inl e ↦ inl (same-eq status task.status e)
  | inr e ↦ inr (ground (arith, h, e))
]

-- Where the evidence of a closing update ends up.
closing-evidence :
    (task : Task) (c : UpdateTask)
    → is_closing (next_status task c.status) ≡ true
    → c.verification_evidence ≢ null
    → is_none (patch (stamp task c).verification_evidence task.verification_evidence) ≡ false
unfolding stamp
closing-evidence task c closing kept = ground (arith, closing, kept)

given-evidence :
    (task : Task) (c : UpdateTask) (evidence : Evidence)
    → c.verification_evidence ≡ value evidence
    → patch (stamp task c).verification_evidence task.verification_evidence ≡ some evidence
unfolding stamp
given-evidence task c evidence given = ground (arith, given)

module _ (strict : Bool) (now : ℕ) (s t : Database) (id : ℕ) (input : UpdateInput)
    (caller : Option Identity) (events : List Event)
    (accepted : update_task strict now s id input caller ≡ ok (t, events)) where
  rows :
      (j : ℕ)
      → find_by_id t.tasks j ≡ (
          if id == j
          then Option.map (λ u. written now u input.columns) (find_by_id s.tasks j)
          else find_by_id s.tasks j)
  rows j =
      let a = update_task-Accepted strict now s id input caller t events accepted in
      ap (λ db. find_by_id db.tasks j) a.database
      ∙ find_by_id-update_row s.tasks id j (λ u. written now u input.columns)
          (λ u. written-id now u input.columns)

  after :
      (task : Task)
      → find_by_id s.tasks id ≡ some task
      → find_by_id t.tasks id ≡ some (written now task input.columns)
  after task found = ground (arith, rows id, found)

  -- An accepted update finds its task and writes that row alone; the status stays, or it moves along
  -- the table of transitions.
  pub update_task-moves :
      (task : Task) × (find_by_id s.tasks id ≡ some task)
      × (row : Task) × (find_by_id t.tasks id ≡ some row)
      × ((row.status ≡ task.status) ⊎ (can_move task.status row.status ≡ true))
      × ((j : ℕ) → id ≢ j → find_by_id t.tasks j ≡ find_by_id s.tasks j)
  update_task-moves =
      let a = update_task-Accepted strict now s id input caller t events accepted in
      (
        a.task,
        a.found,
        written now a.task input.columns,
        after a.task a.found,
        rw (written-status now a.task input.columns)
            (next_status-moves a.task input.columns.status a.transition),
        λ j other. ground (arith, rows j, other),
      )

  -- Under strict evidence, the evidence that an accepted update is given is sound for the task and the
  -- caller, and it is what the row of the task then holds.
  pub update_task-IsSound :
      (evidence : Evidence)
      → strict ≡ true
      → input.columns.verification_evidence ≡ value evidence
      → (task : Task) × (find_by_id s.tasks id ≡ some task)
        × IsSound evidence (context_of task caller)
        × (row : Task) × (find_by_id t.tasks id ≡ some row)
        × (row.verification_evidence ≡ some evidence)
  update_task-IsSound evidence on given =
      let a = update_task-Accepted strict now s id input caller t events accepted in
      let passed = evidence_passes-value strict a.task _ caller evidence on given a.evidence in
      (
        a.task,
        a.found,
        (validate_iff evidence (context_of a.task caller)).0 (no_violations-nil _ passed),
        written now a.task input.columns,
        after a.task a.found,
        written-evidence now a.task input.columns
            ∙ given-evidence a.task input.columns evidence given,
      )

  -- A task that an accepted update closes has a verdict, unless the update takes it away.
  pub update_task-closing :
      (task : Task)
      → find_by_id s.tasks id ≡ some task
      → is_closing (next_status task input.columns.status) ≡ true
      → input.columns.verification_evidence ≢ null
      → (row : Task) × (find_by_id t.tasks id ≡ some row)
        × (is_none row.verification_evidence ≡ false)
  update_task-closing task found closing kept = (
    written now task input.columns,
    after task found,
    rw (written-evidence now task input.columns) (closing-evidence task input.columns closing kept),
  )
