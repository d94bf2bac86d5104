-- ===== src/Tasks/Table.antt =====
-- src/repositories/task.repository.ts: the rows of the table `tasks`, in the order of their
-- creation, and the reads and writes of one row. The columns are those that the operations on
-- statuses, claims, sizes and evidence read or write; a time is a number of seconds.
use mathlib.Core.Option
use mathlib.Core.Option.{some-injective}
use wood_fired_tasks.Prelude.{
  ℕ, ◌≡◌, inl, inr, subst, Option, none, some, List, [], ◌∷◌, arith, Bool-cases, All, ◌==◌,
  if◌then◌else◌,
}
use wood_fired_tasks.Prelude.Text.{Text}
use wood_fired_tasks.Tasks.Status.{TaskStatus}
use wood_fired_tasks.Tasks.Evidence.{Evidence}

-- Where the job size of a task comes from: `wsjf_source.jobSize`.
pub data SizeSource : Type 0 where
  auto manual : SizeSource

pub record Task : Type 0 where
  pub id : ℕ
  pub project_id : ℕ
  pub status : TaskStatus
  pub parent_task_id : Option ℕ
  pub assignee : Option Text
  pub assignee_user_id : Option ℕ
  pub claimed_at : Option ℕ
  pub updated_at : ℕ
  pub completed_at : Option ℕ
  pub estimated_minutes : Option ℕ
  pub verification_evidence : Option Evidence
  pub wsjf_value : Option ℕ
  pub wsjf_time_criticality : Option ℕ
  pub wsjf_risk_opportunity : Option ℕ
  pub wsjf_job_size : Option ℕ
  pub size_source : Option SizeSource
  pub version : ℕ

-- `findById`.
unfoldable pub find_by_id : List Task → ℕ → Option Task
find_by_id [] id = none
find_by_id (t ∷ ts) id = if t.id == id then some t else find_by_id ts id

-- `UPDATE tasks SET ... WHERE id = ?`, the columns by `change`.
unfoldable pub update_row : List Task → ℕ → (Task → Task) → List Task
update_row [] id change = []
update_row (t ∷ ts) id change = if t.id == id then change t ∷ ts else t ∷ update_row ts id change

pub find_by_id-update_row :
    (ts : List Task) (id j : ℕ) (change : Task → Task)
    → ((t : Task) → (change t).id ≡ t.id)
    → find_by_id (update_row ts id change) j
      ≡ (if id == j then Option.map change (find_by_id ts j) else find_by_id ts j)
unfolding find_by_id update_row
find_by_id-update_row [] id j change keeps = ground arith
find_by_id-update_row (t ∷ ts) id j change keeps =
    ground (arith, keeps t, find_by_id-update_row ts id j change keeps)

-- A row that is found has the id that was asked for.
pub find_by_id-eq-some :
    (ts : List Task) (id : ℕ) (t : Task) → find_by_id ts id ≡ some t → t.id ≡ id
unfolding find_by_id
find_by_id-eq-some [] id t h = ground arith
find_by_id-eq-some (u ∷ ts) id t h = elim (Bool-cases (u.id == id)) [
  | inl e ↦ ground arith
  | inr e ↦ find_by_id-eq-some ts id t (ground arith)
]

-- An update keeps what holds of every row.
pub All-update_row {κ} :
    (P : Task → Type κ) (ts : List Task) (id : ℕ) (change : Task → Task)
    → ((t : Task) → P t → P (change t))
    → All P ts
    → All P (update_row ts id change)
unfolding update_row
All-update_row P [] id change keeps h = tt
All-update_row P (t ∷ ts) id change keeps (p, h) = elim (Bool-cases (t.id == id)) [
  | inl e ↦ rw (e) (keeps t p, h)
  | inr e ↦ rw (e) (p, All-update_row P ts id change keeps h)
]

pub All-find_by_id {κ} :
    (P : Task → Type κ) (ts : List Task) (id : ℕ) {t : Task}
    → All P ts
    → find_by_id ts id ≡ some t
    → P t
unfolding find_by_id
All-find_by_id P [] id h e = ground arith
All-find_by_id P (u ∷ ts) id {t} (p, h) e = elim (Bool-cases (u.id == id)) [
  | inl same ↦ subst P (some-injective _ _ (ground arith)) p
  | inr other ↦ All-find_by_id P ts id h (ground arith)
]

-- Every id stands in one row.
abbrev pub Unique : List Task → Type 0
Unique [] = Unit
Unique (t ∷ ts) = (find_by_id ts t.id ≡ none) × Unique ts
