-- ===== src/Workflow/Examples.antt =====
-- The workflow engine on a small database.
use wood_fired_tasks.Prelude.{ℕ, ◌≡◌, inl, refl, true, Option, none, some, [], ◌∷◌, has, map}
use wood_fired_tasks.Prelude.Outcome.{ok}
use wood_fired_tasks.Dependencies.Service.{blocked_by, blockers}
use wood_fired_tasks.Tasks.Status.{TaskStatus, opened, done, blocked, transitions}
use wood_fired_tasks.Tasks.Table.{Task, find_by_id, update_row}
use wood_fired_tasks.Tasks.Repository.{updated, completion, find_children, take}
use wood_fired_tasks.Tasks.Checks.{
  valid_update, evidence_passes, next_status, transition_allowed, stamp, resized, written,
  minutes_consistent, manual_passes,
}
use wood_fired_tasks.Tasks.Service.{Database, update_task, fetch, block_by}
use wood_fired_tasks.Workflow.{
  deliver, set_status, complete, handle_parent_auto_complete, unblock, unblock_each,
  handle_dependency_auto_unblock, process_cascade, max_cascade_depth, handle_status_changed,
}
use wood_fired_tasks.Workflow.Steps.{Forward}
use wood_fired_tasks.Workflow.Effects.{
  Has, finished, handle_status_changed-Forward, handle_status_changed-completes,
}
use wood_fired_tasks.Workflow.Unblocks.{IsFree, handle_status_changed-unblocks}
use wood_fired_tasks.Prelude.{arith, List}
use wood_fired_tasks.Tasks.Status.{in_progress}
use wood_fired_tasks.Dependencies.Service.Acyclic.{empty-IsAcyclic}
use wood_fired_tasks.Tasks.Service.{Event}
use wood_fired_tasks.Tasks.Valid.{IsValid}
use wood_fired_tasks.Workflow.{perform, status_only}
use wood_fired_tasks.Workflow.Steps.{pushed, update_task-pushes}
use wood_fired_tasks.Workflow.Whole.{perform-IsValid}

abbrev task : ℕ → TaskStatus → Option ℕ → Task
task id status parent = record {
  id = id;
  project_id = 1;
  status = status;
  parent_task_id = parent;
  assignee = none;
  assignee_user_id = none;
  claimed_at = none;
  updated_at = 1;
  completed_at = none;
  estimated_minutes = none;
  verification_evidence = none;
  wsjf_value = none;
  wsjf_time_criticality = none;
  wsjf_risk_opportunity = none;
  wsjf_job_size = none;
  size_source = none;
  version = 1;
}

-- A parent, its only child, which is done, and a task that waits for the child and one that waits for
-- the parent.
abbrev child : Task
child = task 2 done (some 1)

abbrev db : Database
db = record {
  projects = 1 ∷ [];
  tasks = task 1 opened none ∷ child ∷ task 3 blocked none ∷ task 4 blocked none ∷ [];
  dependencies =
      record { task_id = 2; blocks_task_id = 3 } ∷ record { task_id = 1; blocks_task_id = 4 } ∷ [];
  next_id = 5;
}

runs : Unit {0}
unfolding deliver set_status complete handle_parent_auto_complete unblock unblock_each
    handle_dependency_auto_unblock process_cascade handle_status_changed update_task fetch block_by
    valid_update evidence_passes next_status transition_allowed stamp resized written
    minutes_consistent manual_passes updated completion find_children take find_by_id update_row
    blocked_by blockers transitions
runs = tt

-- The parent is done, and with it both of the waiting tasks are free.
handle_status_changed_runs :
    map (λ t. t.status) (handle_status_changed true 7 db child).0.tasks
    ≡ done ∷ done ∷ opened ∷ opened ∷ []
unfolding runs
handle_status_changed_runs = refl

handle_status_changed-Forward_example :
    (process_cascade true 7 max_cascade_depth db child ≡ ok (handle_status_changed true 7 db child))
    × Forward db (handle_status_changed true 7 db child).0
handle_status_changed-Forward_example = handle_status_changed-Forward true 7 db child

handle_status_changed-completes_example : Has (handle_status_changed true 7 db child).0 1 finished
unfolding find_children take find_by_id
handle_status_changed-completes_example =
    handle_status_changed-completes true 7 db child 1 (task 1 opened none) refl refl refl refl
      (inl refl)

handle_status_changed-unblocks_example : IsFree (handle_status_changed true 7 db child).0 3
unfolding find_by_id blocked_by blockers has
handle_status_changed-unblocks_example =
    handle_status_changed-unblocks true 7 db child 3 (task 3 blocked none) refl refl refl refl

abbrev lone : Database
lone = record {
  projects = 1 ∷ [];
  tasks = task 1 in_progress none ∷ [];
  dependencies = [];
  next_id = 2;
}

lone-IsValid : IsValid lone
unfolding find_by_id
lone-IsValid = record {
  stamped = (refl, tt);
  unique = (refl, tt);
  below = (omega arith, tt);
  acyclic = empty-IsAcyclic;
}

lone_found : find_by_id lone.tasks 1 ≡ some (task 1 in_progress none)
unfolding find_by_id
lone_found = refl

perform-IsValid_example :
    (r : Database × List Event) × (perform true 7 lone 1 (status_only done) none ≡ ok r)
    × IsValid r.0
    × Forward (pushed 7 lone 1 done) r.0
perform-IsValid_example =
    perform-IsValid true 7 lone (pushed 7 lone 1 done) 1 (status_only done) none _
      (update_task-pushes true 7 lone 1 done (task 1 in_progress none) lone_found refl) lone-IsValid
