-- ===== src/Tasks/Completion.antt =====
-- Invariants of the table of tasks, kept by every write of it.
use wood_fired_tasks.Prelude.{ℕ, ◌≡◌, refl, true, not, Option, arith}
use wood_fired_tasks.Prelude.Text.{Text}
use wood_fired_tasks.Tasks.Status.{done, same}
use wood_fired_tasks.Tasks.Table.{Task}
use wood_fired_tasks.Tasks.Repository.{
  UpdateTask, CreateTask, is_none, completion, updated, created, auto_sized, claimed, claimable,
  renewed,
}
use wood_fired_tasks.Tasks.Claims.{released, is_held}
use wood_fired_tasks.Tasks.Checks.{written, stamp}

-- A task has a time of completion exactly while it is done.
abbrev pub IsStamped : Task → Type 0
IsStamped task = same task.status done ≡ not (is_none task.completed_at)

pub updated-IsStamped :
    (now : ℕ) (c : UpdateTask) (task : Task) → IsStamped task → IsStamped (updated now c task)
unfolding updated completion
updated-IsStamped now c task h = ground arith

pub written-IsStamped :
    (now : ℕ) (task : Task) (c : UpdateTask) → IsStamped task → IsStamped (written now task c)
unfolding written auto_sized
written-IsStamped now task c h = ground (arith, updated-IsStamped now (stamp task c) task h)

pub created-IsStamped : (now id : ℕ) (dto : CreateTask) → IsStamped (created now id dto)
unfolding created
created-IsStamped now id dto = refl

pub auto_sized-IsStamped :
    (now size : ℕ) (task : Task) → IsStamped task → IsStamped (auto_sized now size task)
unfolding auto_sized
auto_sized-IsStamped now size task h = h

-- A claim starts from an open task.
pub claimed-IsStamped :
    (now : ℕ) (assignee : Text) (user : Option ℕ) (task : Task)
    → claimable task.version task ≡ true
    → IsStamped task
    → IsStamped (claimed now assignee user task)
unfolding claimed claimable
claimed-IsStamped now assignee user task free h = ground (arith, h, free)

pub renewed-IsStamped : (now : ℕ) (task : Task) → IsStamped task → IsStamped (renewed now task)
unfolding renewed
renewed-IsStamped now task h = h

pub released-IsStamped :
    (now : ℕ) (task : Task) → is_held task ≡ true → IsStamped task → IsStamped (released now task)
unfolding released
released-IsStamped now task held h = ground (arith, h, held)
