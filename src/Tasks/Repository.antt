-- ===== src/Tasks/Repository.antt =====
-- src/repositories/task.repository.ts: the writes of a task. `now` is the time of SQLite's
-- `datetime('now')`. A read after a write finds the row that was written.
use wood_fired_tasks.Prelude.{
  ℕ, zero, suc, Bool, true, false, ◌&&◌, Option, none, some, List, [], ◌∷◌, ◌==◌, if◌then◌else◌,
  not, keep,
}
use wood_fired_tasks.Prelude.Text.{Text, text_eq}
use wood_fired_tasks.Tasks.Status.{TaskStatus, opened, in_progress, done, same}
use wood_fired_tasks.Tasks.Evidence.{Evidence}
use wood_fired_tasks.Tasks.Table.{Task, SizeSource, auto, find_by_id, update_row}

-- A field of a patch: absent, null, or a value.
pub data Field {ℓ} (A : Type ℓ) : Type ℓ where
  absent null : Field A
  value : A → Field A

-- WsjfWriteDTO, without the texts that it carries; `source` is that of the job size.
pub record WsjfWrite : Type 0 where
  pub business_value : ℕ
  pub time_criticality : ℕ
  pub risk_opportunity : ℕ
  pub job_size : ℕ
  pub source : Option SizeSource
  pub manual_override : Bool

-- UpdateTaskDTO, on the columns of the model.
pub record UpdateTask : Type 0 where
  pub status : Option TaskStatus
  pub assignee : Field Text
  pub assignee_user_id : Field ℕ
  pub parent_task_id : Field ℕ
  pub estimated_minutes : Field ℕ
  pub verification_evidence : Field Evidence
  pub wsjf : Field WsjfWrite

abbrev pub patch {ℓ} : {A : Type ℓ} → Field A → Option A → Option A
patch absent old = old
patch null old = none
patch (value new) old = some new

abbrev pub or_else {ℓ} : {A : Type ℓ} → Option A → A → A
or_else none old = old
or_else (some new) old = new

-- `completed_at` is set on the way into done and cleared on the way out.
unfoldable pub completion : ℕ → Option TaskStatus → Task → Option ℕ
completion now none task = task.completed_at
completion now (some status) task =
    if same status done && not (same task.status done)
    then some now
    else if same task.status done && not (same status done)
    then none
    else task.completed_at

-- One column of a score that is patched.
abbrev pub component {ℓ} :
    {A : Type ℓ} → Field WsjfWrite → (WsjfWrite → Option A) → Option A → Option A
component absent get old = old
component null get old = none
component (value w) get old = get w

-- The columns after `TaskRepository.update`.
unfoldable pub updated : ℕ → UpdateTask → Task → Task
updated now updates task = record task {
  status = or_else updates.status task.status;
  completed_at = completion now updates.status task;
  assignee = patch updates.assignee task.assignee;
  assignee_user_id = patch updates.assignee_user_id task.assignee_user_id;
  parent_task_id = patch updates.parent_task_id task.parent_task_id;
  estimated_minutes = patch updates.estimated_minutes task.estimated_minutes;
  verification_evidence = patch updates.verification_evidence task.verification_evidence;
  wsjf_value = component updates.wsjf (λ w. some w.business_value) task.wsjf_value;
  wsjf_time_criticality =
      component updates.wsjf (λ w. some w.time_criticality) task.wsjf_time_criticality;
  wsjf_risk_opportunity =
      component updates.wsjf (λ w. some w.risk_opportunity) task.wsjf_risk_opportunity;
  wsjf_job_size = component updates.wsjf (λ w. some w.job_size) task.wsjf_job_size;
  size_source = component updates.wsjf (λ w. w.source) task.size_source;
  updated_at = now;
}

-- `writeAutoJobSize` on the row.
unfoldable pub auto_sized : ℕ → ℕ → Task → Task
auto_sized now size task = record task {
  wsjf_job_size = some size;
  size_source = some auto;
  updated_at = now;
}

abbrev pub is_none {ℓ} : {A : Type ℓ} → Option A → Bool
is_none none = true
is_none (some a) = false

-- The WHERE clause of the compare-and-swap of `claimTask`.
unfoldable pub claimable : ℕ → Task → Bool
claimable version task = is_none task.assignee && same task.status opened && task.version == version

unfoldable pub claimed : ℕ → Text → Option ℕ → Task → Task
claimed now assignee user task = record task {
  assignee = some assignee;
  assignee_user_id = user;
  status = in_progress;
  version = suc task.version;
  claimed_at = some now;
  updated_at = now;
}

-- `claimTask`: the row is read and swapped in one transaction.
unfoldable pub claim_task : ℕ → List Task → ℕ → Text → Option ℕ → Option (List Task)
claim_task now ts id assignee user = elim (find_by_id ts id) [
  | none ↦ none
  | some task ↦
      if claimable task.version task
      then some (update_row ts id (claimed now assignee user))
      else none
]

abbrev pub is_assigned_to : Text → Option Text → Bool
is_assigned_to name none = false
is_assigned_to name (some other) = text_eq other name

-- The WHERE clause of `renewClaim`.
unfoldable pub held_by : Text → Task → Bool
held_by assignee task = is_assigned_to assignee task.assignee && same task.status in_progress

unfoldable pub renewed : ℕ → Task → Task
renewed now task = record task {
  claimed_at = some now;
  updated_at = now;
  version = suc task.version;
}

unfoldable pub renew_claim : ℕ → List Task → ℕ → Text → Option (List Task)
renew_claim now ts id assignee = elim (find_by_id ts id) [
  | none ↦ none
  | some task ↦ if held_by assignee task then some (update_row ts id (renewed now)) else none
]

-- `findChildren` without pagination: the first page, which has fifty rows.
abbrev pub default_page_limit : ℕ
default_page_limit = 50

unfoldable pub take : ℕ → List Task → List Task
take zero ts = []
take (suc n) [] = []
take (suc n) (t ∷ ts) = t ∷ take n ts

abbrev pub has_parent : ℕ → Task → Bool
has_parent id task = elim task.parent_task_id [ none ↦ false | some parent ↦ parent == id ]

unfoldable pub find_children : List Task → ℕ → List Task
find_children ts id = take default_page_limit (keep (has_parent id) ts)

-- CreateTaskDTO, on the columns of the model.
pub record CreateTask : Type 0 where
  pub project_id : ℕ
  pub parent_task_id : Option ℕ
  pub assignee : Option Text
  pub assignee_user_id : Option ℕ
  pub estimated_minutes : Option ℕ
  pub tags : List Text
  pub wsjf : Option WsjfWrite

abbrev pub write_of : Option WsjfWrite → Field WsjfWrite
write_of none = null
write_of (some w) = value w

-- `dto.assignee || null`: an empty name is no name.
abbrev if_named : Option Text → Option Text
if_named none = none
if_named (some []) = none
if_named (some (c ∷ name)) = some (c ∷ name)

-- The row that `create` inserts; the service has set its status to open.
unfoldable pub created : ℕ → ℕ → CreateTask → Task
created now id dto = record {
  id = id;
  project_id = dto.project_id;
  status = opened;
  parent_task_id = dto.parent_task_id;
  assignee = if_named dto.assignee;
  assignee_user_id = dto.assignee_user_id;
  claimed_at = none;
  updated_at = now;
  completed_at = none;
  estimated_minutes = dto.estimated_minutes;
  verification_evidence = none;
  wsjf_value = component (write_of dto.wsjf) (λ w. some w.business_value) none;
  wsjf_time_criticality = component (write_of dto.wsjf) (λ w. some w.time_criticality) none;
  wsjf_risk_opportunity = component (write_of dto.wsjf) (λ w. some w.risk_opportunity) none;
  wsjf_job_size = component (write_of dto.wsjf) (λ w. some w.job_size) none;
  size_source = component (write_of dto.wsjf) (λ w. w.source) none;
  version = 1;
}
