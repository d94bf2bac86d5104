-- ===== src/Tasks/Checks.antt =====
-- src/services/task.service.ts and src/schemas/task.schema.ts: what the input of an operation on a
-- task is held against, and the row that an accepted update writes.
use mathlib.Core.Option
use wood_fired_tasks.Prelude.{
  ℕ, Bool, true, false, not, ◌&&◌, ◌||◌, Option, none, some, List, [], ◌∷◌, length, all, ltb, leb,
  ◌==◌, if◌then◌else◌,
}
use wood_fired_tasks.Prelude.Text.{Text}
use wood_fired_tasks.Tasks.Status.{TaskStatus, done, closed, blocked, same, can_move}
use wood_fired_tasks.Tasks.Evidence.{
  Evidence, Context, Identity, word, number, Violation, not_verified,
  validate_verification_evidence,
}
use wood_fired_tasks.Tasks.Table.{Task, SizeSource, auto}
use wood_fired_tasks.Tasks.Repository.{
  Field, absent, null, value, WsjfWrite, UpdateTask, CreateTask, updated, auto_sized, is_none,
}
use wood_fired_tasks.Wsjf.Tiers.{minutes_to_tier}

abbrev pub field_all {ℓ} : {A : Type ℓ} → (A → Bool) → Field A → Bool
field_all test absent = true
field_all test null = true
field_all test (value a) = test a

-- The input of `updateTask`: the columns, and the blockers of a block with dependencies.
pub record UpdateInput : Type 0 where
  pub columns : UpdateTask
  pub blocked_by : Option (List ℕ)

abbrev pub valid_blockers : Option TaskStatus → Option (List ℕ) → Bool
valid_blockers status none = true
valid_blockers none (some ids) = false
valid_blockers (some status) (some ids) =
    all (λ id. ltb 0 id) ids && ltb 0 (length ids) && leb (length ids) 50 && same status blocked

-- The Fibonacci tiers of WsjfComponentsSchema.
abbrev pub is_tier : ℕ → Bool
is_tier n = n == 1 || n == 2 || n == 3 || n == 5 || n == 8 || n == 13

abbrev pub valid_write : WsjfWrite → Bool
valid_write w =
    is_tier w.business_value
    && is_tier w.time_criticality
    && is_tier w.risk_opportunity
    && is_tier w.job_size

-- UpdateTaskSchema, and that blockers come with the status blocked only.
unfoldable pub valid_update : UpdateInput → Bool
valid_update input =
    let c = input.columns in
    field_all (λ id. ltb 0 id) c.parent_task_id
    && field_all (λ m. leb m 10080) c.estimated_minutes
    && field_all (λ a. leb (length a) 100) c.assignee
    && field_all (λ id. ltb 0 id) c.assignee_user_id
    && field_all valid_write c.wsjf
    && valid_blockers c.status input.blocked_by

abbrev pub no_violations : List Violation → Bool
no_violations [] = true
no_violations (v ∷ vs) = false

abbrev pub context_of : Task → Option Identity → Context
context_of task caller = record {
  task_assignee = Option.map word task.assignee;
  task_assignee_user_id = Option.map number task.assignee_user_id;
  caller_id = caller;
}

-- The test of the evidence that an update brings.
unfoldable pub evidence_passes : Bool → Task → Field Evidence → Option Identity → Bool
evidence_passes strict task absent caller = true
evidence_passes strict task null caller = true
evidence_passes strict task (value evidence) caller =
    not strict || no_violations (validate_verification_evidence evidence (context_of task caller))

-- `nextStatus`: the status of the update, if it is another one.
unfoldable pub next_status : Task → Option TaskStatus → Option TaskStatus
next_status task none = none
next_status task (some status) = if same status task.status then none else some status

unfoldable pub transition_allowed : Task → Option TaskStatus → Bool
transition_allowed task none = true
transition_allowed task (some status) = can_move task.status status

abbrev pub is_closing : Option TaskStatus → Bool
is_closing none = false
is_closing (some status) = same status done || same status closed

-- A closing move without a word on evidence, where there is none, is marked as not verified.
unfoldable pub stamp : Task → UpdateTask → UpdateTask
stamp task c = elim c.verification_evidence [
  | absent ↦
      if is_closing (next_status task c.status) && is_none task.verification_evidence
      then record c {
        verification_evidence =
            value record { verdict = not_verified; checks = none; verifier_session_id = none };
      }
      else c
  | null ↦ c
  | value evidence ↦ c
]

abbrev pub is_auto : Option SizeSource → Bool
is_auto (some auto) = true
is_auto _ = false

-- `assertMinutesTierConsistency`.
unfoldable pub minutes_consistent : Field ℕ → Field WsjfWrite → Bool
minutes_consistent (value minutes) (value w) =
    is_auto w.source || minutes_to_tier (some minutes) == w.job_size
minutes_consistent _ _ = true

-- `validateManualScore` on a score that the schema has accepted.
unfoldable pub manual_passes : Field WsjfWrite → Bool
manual_passes (value w) = not (w.manual_override && w.job_size == 1 && w.business_value == 13)
manual_passes _ = true

-- The minutes of the update, if they differ from those of the row.
unfoldable pub resized : Task → Field ℕ → Option ℕ
resized task absent = none
resized task null = elim task.estimated_minutes [
  | none ↦ none
  | some old ↦ some (minutes_to_tier none)
]
resized task (value minutes) = elim task.estimated_minutes [
  | none ↦ some (minutes_to_tier (some minutes))
  | some old ↦ if minutes == old then none else some (minutes_to_tier (some minutes))
]

-- The row after the write, and after its size is computed anew.
unfoldable pub written : ℕ → Task → UpdateTask → Task
written now task c =
    let row = updated now (stamp task c) task in
    if is_auto task.size_source
    then (elim (resized task c.estimated_minutes) [
      | none ↦ row
      | some size ↦ auto_sized now size row
    ])
    else row

abbrev pub option_all {ℓ} : {A : Type ℓ} → (A → Bool) → Option A → Bool
option_all test none = true
option_all test (some a) = test a

unfoldable pub valid_create : CreateTask → Bool
valid_create dto =
    ltb 0 dto.project_id
    && option_all (λ id. ltb 0 id) dto.parent_task_id
    && option_all (λ m. leb m 10080) dto.estimated_minutes
    && option_all (λ a. leb (length a) 100) dto.assignee
    && option_all (λ id. ltb 0 id) dto.assignee_user_id
    && option_all valid_write dto.wsjf

abbrev pub any_tag : (Text → Bool) → List Text → Bool
any_tag test [] = false
any_tag test (t ∷ ts) = test t || any_tag test ts

abbrev pub field_of {ℓ} : {A : Type ℓ} → Option A → Field A
field_of none = absent
field_of (some a) = value a

abbrev pub is_assigned : Option Text → Bool
is_assigned none = false
is_assigned (some []) = false
is_assigned (some (c ∷ cs)) = true
