-- ===== src/Router/IdempotencyStore.antt =====
-- packages/wft-router/src/dispatch/idempotency-store.ts: the log of dispatches that keeps a rule from
-- running twice for one event. The rows stand in the order of their insertion; `now` is the store's
-- clock in milliseconds. Opening and closing the file are left out.
pub mod AtMostOnce
pub mod Finished
use wood_fired_tasks.Prelude.{
  ℕ, ◌+◌, ◌/◌, Bool, true, false, not, ◌&&◌, Option, none, some, List, [], ◌∷◌, ◌++◌, map, keep,
  String, leb, ltb, ◌==◌, str_eq, if◌then◌else◌,
}

pub data DispatchStatus : Type 0 where
  pending succeeded failed permanently_failed superseded : DispatchStatus

pub record Row : Type 0 where
  pub rule_name : String
  pub event_id : String
  pub status : DispatchStatus
  pub rendered_with_json : String
  pub started_at_ms : ℕ
  pub completed_at_ms : Option ℕ
  pub task_id : Option ℕ
  pub to_status : Option String
  pub emitted_at_minute : Option ℕ

pub data ClaimResult : Type 0 where
  claimed already_pending : ClaimResult
  already_done : DispatchStatus → ClaimResult

-- What a dispatch brings besides its key.
pub record Dispatch : Type 0 where
  pub rendered : String
  pub about_task : Option ℕ
  pub new_status : Option String
  pub emitted_at_ms : Option ℕ

abbrev pub has_key : String → String → Row → Bool
has_key rule event row = str_eq row.rule_name rule && str_eq row.event_id event

-- `selectByPkStmt`.
unfoldable pub status_of : List Row → String → String → Option DispatchStatus
status_of [] rule event = none
status_of (row ∷ rows) rule event =
    if has_key rule event row then some row.status else status_of rows rule event

abbrev minute_bucket : Option ℕ → Option ℕ
minute_bucket none = none
minute_bucket (some ms) = some (ms / 60000)

abbrev pub is_pending : DispatchStatus → Bool
is_pending pending = true
is_pending succeeded = false
is_pending failed = false
is_pending permanently_failed = false
is_pending superseded = false

abbrev pub pending_row : ℕ → String → String → Dispatch → Row
pending_row now rule event d = record {
  rule_name = rule;
  event_id = event;
  status = pending;
  rendered_with_json = d.rendered;
  started_at_ms = now;
  completed_at_ms = none;
  task_id = d.about_task;
  to_status = d.new_status;
  emitted_at_minute = minute_bucket d.emitted_at_ms;
}

unfoldable pub claim : ℕ → List Row → String → String → Dispatch → List Row × ClaimResult
claim now rows rule event d = elim (status_of rows rule event) [
  | none ↦ (rows ++ pending_row now rule event d ∷ [], claimed)
  | some status ↦ (rows, if is_pending status then already_pending else already_done status)
]

abbrev pub finish : ℕ → DispatchStatus → Row → Row
finish now status row = record row { status = status; completed_at_ms = some now }

-- `updateToTerminalStmt`, with whether a row was changed.
unfoldable pub finish_row : ℕ → List Row → String → String → DispatchStatus → List Row × Bool
finish_row now [] rule event status = ([], false)
finish_row now (row ∷ rows) rule event status =
    let (rest, changed) = finish_row now rows rule event status in
    if has_key rule event row
    then (if is_pending row.status
        then (finish now status row ∷ rows, true)
        else (row ∷ rows, false))
    else (row ∷ rest, changed)

unfoldable pub complete : ℕ → List Row → String → String → DispatchStatus → List Row × Bool
complete now rows rule event status =
    if is_pending status then (rows, false) else finish_row now rows rule event status

-- `started_at_ms < cutoff`, where the cutoff is the window before now.
abbrev pub is_late : ℕ → ℕ → Row → Bool
is_late now window row = ltb (row.started_at_ms + window) now

abbrev pub abandon : ℕ → ℕ → Row → Row
abandon now window row =
    if is_pending row.status && is_late now window row
    then finish now permanently_failed row
    else row

-- `ORDER BY started_at_ms ASC`.
unfoldable pub insert_row : Row → List Row → List Row
insert_row row [] = row ∷ []
insert_row row (r ∷ rows) =
    if leb row.started_at_ms r.started_at_ms then row ∷ r ∷ rows else r ∷ insert_row row rows

unfoldable pub sort_rows : List Row → List Row
sort_rows [] = []
sort_rows (row ∷ rows) = insert_row row (sort_rows rows)

unfoldable pub abandon_late : ℕ → ℕ → List Row → List Row
abandon_late now window rows = map (abandon now window) rows

unfoldable pub replay_pending : ℕ → ℕ → List Row → List Row × List Row
replay_pending now window rows =
    let after = abandon_late now window rows in
    (after, sort_rows (keep (λ r. is_pending r.status && not (is_late now window r)) after))
