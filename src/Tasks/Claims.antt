-- ===== src/Tasks/Claims.antt =====
-- src/services/claim-release.service.ts, and `withClaimTtl` of src/services/task.service.ts: claims
-- that lapse. Times are whole seconds, and the timeout is the default of thirty minutes.
pub mod Lapse
use wood_fired_tasks.Prelude.{
  ℕ, suc, ◌+◌, ◌-◌, ◌*◌, ◌/◌, ◌≤◌, ◌<◌, ◌≡◌, ◌↔◌, refl, Bool, true, false, not, ◌&&◌, Option, none,
  some, List, [], ◌∷◌, ◌++◌, map, length, keep, arith, max, leb, if◌then◌else◌,
}
use wood_fired_tasks.Prelude.Text.{Text}
use wood_fired_tasks.Tasks.Status.{opened, in_progress, same}
use wood_fired_tasks.Tasks.Table.{Task, find_by_id, update_row}
use wood_fired_tasks.Tasks.Repository.{is_none}
use wood_fired_tasks.Tasks.Service.{Database, Event, task_updated, task_claim_released}

abbrev pub ttl_seconds : ℕ
ttl_seconds = 30 * 60

-- The WHERE clause of `findStaleClaims`; a time before the epoch never occurs, so the cutoff is on
-- the other side.
unfoldable pub is_stale : ℕ → Task → Bool
is_stale now task = elim task.claimed_at [
  | none ↦ false
  | some claimed_at ↦
      not (is_none task.assignee)
      && same task.status in_progress
      && leb (claimed_at + ttl_seconds) now
      && leb (task.updated_at + ttl_seconds) now
]

unfoldable pub find_stale_claims : ℕ → List Task → List ℕ
find_stale_claims now ts = map (λ t. t.id) (keep (is_stale now) ts)

abbrev pub is_held : Task → Bool
is_held task = not (is_none task.assignee) && same task.status in_progress

unfoldable pub released : ℕ → Task → Task
released now task = record task {
  assignee = none;
  status = opened;
  claimed_at = none;
  version = suc task.version;
  updated_at = now;
}

-- `releaseClaim`, with whether a row was changed.
unfoldable pub release_claim : ℕ → List Task → ℕ → List Task × Bool
release_claim now ts id = elim (find_by_id ts id) [
  | none ↦ (ts, false)
  | some task ↦ if is_held task then (update_row ts id (released now), true) else (ts, false)
]

-- The events of a released row.
abbrev pub announce : Option Task → List Event
announce none = []
announce (some task) = task_updated task ∷ task_claim_released task ∷ []

-- The loop of `sweep`, with the events in their order and the number of released claims.
unfoldable pub release_all : ℕ → List Task → List ℕ → List Task × (List Event × ℕ)
release_all now ts [] = (ts, ([], 0))
release_all now ts (id ∷ ids) =
    let (ts', changed) = release_claim now ts id in
    let (final, (events, count)) = release_all now ts' ids in
    (
      final,
      if changed then (announce (find_by_id ts' id) ++ events, suc count) else (events, count),
    )

unfoldable pub sweep : ℕ → List Task → List Task × (List Event × ℕ)
sweep now ts = release_all now ts (find_stale_claims now ts)

-- `claim_remaining_seconds`, where the task is claimed: the times of the row are whole seconds, the
-- clock of the reader has milliseconds, and the difference is rounded down.
unfoldable pub claim_remaining_seconds : ℕ → Task → Option ℕ
claim_remaining_seconds now_ms task = elim task.claimed_at [
  | none ↦ none
  | some claimed_at ↦
      if is_held task
      then some (((max claimed_at task.updated_at + ttl_seconds) * 1000 - now_ms) / 1000)
      else none
]
