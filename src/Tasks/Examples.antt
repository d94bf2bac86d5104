-- ===== src/Tasks/Examples.antt =====
-- The task modules on small inputs.
use wood_fired_tasks.Tasks.Paging.{load_project_tasks, load_project_tasks_complete}
use wood_fired_tasks.Prelude.{
  ℕ, ◌+◌, ◌/◌, ◌≤◌, ◌≡◌, ◌≢◌, ◌↔◌, ◌⊎◌, refl, true, false, none, some, List, [], ◌∷◌, ◌++◌, length,
  arith, has, if◌then◌else◌,
}
use mathlib.Core.Option
use wood_fired_tasks.Prelude.Text.{Text, codes, trim, lower}
use wood_fired_tasks.Prelude.Outcome.{ok, err}
use wood_fired_tasks.Errors.{business_error}
use wood_fired_tasks.Tasks.Status.{opened, in_progress, done, can_move, transitions}
use wood_fired_tasks.Tasks.Evidence.{
  Check, Evidence, pass, validate_verification_evidence, check_session, check_texts, check_pass,
  session_id, normalize_id, self_grading_session, is_placeholder, equals_id, show, decimal,
}
use wood_fired_tasks.Tasks.Evidence.Rules.{IsSound, validate_iff}
use wood_fired_tasks.Tasks.Table.{Task, find_by_id, update_row, auto, Unique}
use wood_fired_tasks.Tasks.Repository.{
  UpdateTask, CreateTask, absent, value, created, auto_sized, updated, completion, claim_task,
  claimed, claimable, renew_claim, renewed, held_by, is_none,
}
use wood_fired_tasks.Tasks.Checks.{
  UpdateInput, valid_create, valid_update, evidence_passes, next_status, transition_allowed, stamp,
  resized, written, minutes_consistent, manual_passes, is_closing, context_of,
}
use wood_fired_tasks.Tasks.Service.{
  Database, parent_fits, task_created, task_updated, task_status_changed, task_claimed, create_task,
  update_task, claim, fetch, block_by,
}
use wood_fired_tasks.Tasks.Service.Moves.{
  update_task-moves, update_task-IsSound, update_task-closing,
}
use wood_fired_tasks.Tasks.Service.Exclusive.{claim_excludes, claim_lasts}
use wood_fired_tasks.Tasks.Claims.{
  is_stale, find_stale_claims, released, release_claim, release_all, sweep, claim_remaining_seconds,
}
use wood_fired_tasks.Tasks.Claims.Lapse.{claim_remaining_iff_stale, find_by_id-sweep}
use wood_fired_tasks.Tasks.Valid.{IsValid, here, next, create, update, take_claim, empty}
use wood_fired_tasks.Tasks.Valid.Kept.{Reach-IsValid}
use wood_fired_tasks.Wsjf.Tiers.{minutes_to_tier}

runs : Unit {0}
unfolding create_task update_task claim fetch block_by valid_create parent_fits valid_update
    evidence_passes next_status transition_allowed stamp resized written minutes_consistent
    manual_passes minutes_to_tier created auto_sized updated completion claim_task claimed claimable
    renew_claim renewed held_by find_by_id update_row has is_stale find_stale_claims released
    release_claim release_all sweep transitions validate_verification_evidence check_session
    check_texts check_pass session_id normalize_id self_grading_session is_placeholder equals_id
    show decimal trim lower
runs = tt

abbrev plan : CreateTask
plan = record {
  project_id = 1;
  parent_task_id = none;
  assignee = none;
  assignee_user_id = none;
  estimated_minutes = some 45;
  tags = [];
  wsjf = none;
}

abbrev first : Task
first = record {
  id = 1;
  project_id = 1;
  status = opened;
  parent_task_id = none;
  assignee = none;
  assignee_user_id = none;
  claimed_at = none;
  updated_at = 10;
  completed_at = none;
  estimated_minutes = some 45;
  verification_evidence = none;
  wsjf_value = none;
  wsjf_time_criticality = none;
  wsjf_risk_opportunity = none;
  wsjf_job_size = some 3;
  size_source = some auto;
  version = 1;
}

abbrev one_task : Database
one_task = record { projects = 1 ∷ []; tasks = first ∷ []; dependencies = []; next_id = 2 }

create_task_runs : create_task 10 (empty (1 ∷ [])) plan ≡ ok (one_task, task_created first ∷ [])
unfolding runs
create_task_runs = refl

abbrev ann : Text
ann = codes "ann"

abbrev taken : Database
taken = record one_task { tasks = claimed 20 ann none first ∷ [] }

claim_runs :
    (claim 20 one_task 1 ann none ≡ ok (taken, task_claimed (claimed 20 ann none first) ∷ []))
    × (claim 25 taken 1 (codes "bob") none ≡ err business_error)
    × ((sweep 1819 taken.tasks).0 ≡ taken.tasks)
    × ((sweep 1820 taken.tasks).0 ≡ released 1820 (claimed 20 ann none first) ∷ [])
unfolding runs
claim_runs = (refl, refl, refl, refl)

abbrev seen : Check
seen = record { name = codes "tests"; evidence_url_or_text = codes "all 12 pass" }

abbrev proof : Evidence
proof = record {
  verdict = pass;
  checks = some (seen ∷ []);
  verifier_session_id = some (codes "critic-1");
}

abbrev silent : UpdateTask
silent = record {
  status = none;
  assignee = absent;
  assignee_user_id = absent;
  parent_task_id = absent;
  estimated_minutes = absent;
  verification_evidence = absent;
  wsjf = absent;
}

abbrev with_proof : UpdateInput
with_proof = record {
  columns = record silent { status = some done; verification_evidence = value proof };
  blocked_by = none;
}

abbrev finish : UpdateInput
finish = record { columns = record silent { status = some done }; blocked_by = none }

-- The database after an update of the claimed task.
abbrev after : UpdateInput → Database
after input = record taken { tasks = written 30 (claimed 20 ann none first) input.columns ∷ [] }

abbrev claimed_row : Task
claimed_row = claimed 20 ann none first

update_task_runs :
    (update_task true 30 taken 1 with_proof none
      ≡ ok (
        after with_proof,
        task_updated (written 30 claimed_row with_proof.columns)
            ∷ task_status_changed (written 30 claimed_row with_proof.columns) in_progress done
            ∷ [],
      ))
    × (update_task true 30 taken 1 finish none
        ≡ ok (
          after finish,
          task_updated (written 30 claimed_row finish.columns)
              ∷ task_status_changed (written 30 claimed_row finish.columns) in_progress done
              ∷ [],
        ))
    × (update_task true 30 one_task 1 finish none ≡ err business_error)
unfolding runs
update_task_runs = (refl, refl, refl)

validate_iff_example :
    (validate_verification_evidence proof (context_of first none) ≡ [])
    ↔ IsSound proof (context_of first none)
validate_iff_example = validate_iff proof (context_of first none)

Reach-IsValid_example : IsValid (after with_proof)
Reach-IsValid_example = Reach-IsValid (
    next
      (next (next {t = empty (1 ∷ [])} here (create 10 plan _ create_task_runs))
        (take_claim 20 1 ann none _ claim_runs.0))
      (update true 30 1 with_proof none _ update_task_runs.0))

update_task-moves_example :
    (task : Task) × (find_by_id taken.tasks 1 ≡ some task)
    × (row : Task) × (find_by_id (after with_proof).tasks 1 ≡ some row)
    × ((row.status ≡ task.status) ⊎ (can_move task.status row.status ≡ true))
    × ((j : ℕ) → 1 ≢ j → find_by_id (after with_proof).tasks j ≡ find_by_id taken.tasks j)
update_task-moves_example =
    update_task-moves true 30 taken (after with_proof) 1 with_proof none _ update_task_runs.0

update_task-IsSound_example :
    (task : Task) × (find_by_id taken.tasks 1 ≡ some task)
    × IsSound proof (context_of task none)
    × (row : Task) × (find_by_id (after with_proof).tasks 1 ≡ some row)
    × (row.verification_evidence ≡ some proof)
update_task-IsSound_example =
    update_task-IsSound true 30 taken (after with_proof) 1 with_proof none _ update_task_runs.0
      proof refl refl

claimed_found : find_by_id taken.tasks 1 ≡ some claimed_row
unfolding runs
claimed_found = refl

is_closing_finish : is_closing (next_status claimed_row (some done)) ≡ true
unfolding runs
is_closing_finish = refl

update_task-closing_example :
    (row : Task) × (find_by_id (after finish).tasks 1 ≡ some row)
    × (is_none row.verification_evidence ≡ false)
update_task-closing_example =
    update_task-closing true 30 taken (after finish) 1 finish none _ update_task_runs.1 claimed_row
      claimed_found is_closing_finish (λ e. ground arith)

claim_excludes_example : claim 25 taken 1 (codes "bob") none ≡ err business_error
claim_excludes_example =
    claim_excludes 20 one_task taken 1 ann none _ claim_runs.0 (codes "bob") 25 none refl

one_task-Unique : Unique one_task.tasks
unfolding find_by_id
one_task-Unique = (refl, tt)

claim_lasts_example :
    (row : Task) × (held_by ann row ≡ true) × (find_by_id (sweep 1819 taken.tasks).0 1 ≡ some row)
claim_lasts_example =
    claim_lasts 20 one_task taken 1 ann none _ claim_runs.0 1819 one_task-Unique (omega arith)

claim_remaining_iff_stale_example :
    (claim_remaining_seconds 1819001 claimed_row ≡ some 0)
    ↔ (is_stale ((1819001 + 999) / 1000) claimed_row ≡ true)
claim_remaining_iff_stale_example = claim_remaining_iff_stale 1819001 claimed_row

find_by_id-sweep_example :
    find_by_id (sweep 1820 one_task.tasks).0 1
    ≡ Option.map (λ t. if is_stale 1820 t then released 1820 t else t) (find_by_id one_task.tasks 1)
find_by_id-sweep_example = find_by_id-sweep 1820 one_task.tasks 1 one_task-Unique

load_project_tasks_complete_example :
    (loaded left : List ℕ) × (load_project_tasks (4 ∷ 7 ∷ 5 ∷ []) 3 ≡ some loaded)
    × (4 ∷ 7 ∷ 5 ∷ [] ≡ loaded ++ left)
    × ((3 ≤ length loaded) ⊎ (left ≡ []))
    × (3 ≤ 3 → loaded ≡ 4 ∷ 7 ∷ 5 ∷ [])
load_project_tasks_complete_example = load_project_tasks_complete (4 ∷ 7 ∷ 5 ∷ []) 3
