-- ===== src/Router/IdempotencyStore/Finished.antt =====
-- What the log hands out for dispatch, by claims and by replays.
use wood_fired_tasks.Prelude.{
  ℕ, ◌+◌, ◌≤◌, ◌≡◌, ◌&&◌, refl, inl, inr, Bool, true, false, not, Option, none, some, List, [], ◌∷◌,
  ◌++◌, String, keep, eq_iff, if◌then◌else◌, arith, Option-cases,
}
use wood_fired_tasks.Router.IdempotencyStore.{
  Row, Dispatch, DispatchStatus, has_key, status_of, is_pending, is_late, pending_row, claim,
  finish_row, complete, abandon_late, insert_row, sort_rows, replay_pending,
}
use wood_fired_tasks.Router.IdempotencyStore.AtMostOnce.{
  Access, to_claim, to_complete, to_replay, run, run_all, grant, grants, grant-there, grants-le_one,
  run_all-finished, is_there,
}

-- How many rows of a list are for the event under the rule, and how many of them are pending.
unfoldable pub rows_for : String → String → List Row → ℕ
rows_for rule event [] = 0
rows_for rule event (row ∷ rows) =
    (if has_key rule event row then 1 else 0) + rows_for rule event rows

unfoldable waiting : String → String → List Row → ℕ
waiting rule event [] = 0
waiting rule event (row ∷ rows) =
    (if has_key rule event row && is_pending row.status then 1 else 0) + waiting rule event rows

-- What a call hands out for dispatch: a claim that is granted, or the rows of a replay.
abbrev pub fired : List Row → String → String → Access → ℕ
fired rows rule event (to_claim now r e d) = grant rows rule event (to_claim now r e d)
fired rows rule event (to_complete now r e s) = 0
fired rows rule event (to_replay now window) =
    rows_for rule event (replay_pending now window rows).1

unfoldable pub fires : List Row → String → String → List Access → ℕ
fires rows rule event [] = 0
fires rows rule event (c ∷ cs) = fired rows rule event c + fires (run rows c) rule event cs

rows_for-none :
    (rule event : String) (rows : List Row)
    → status_of rows rule event ≡ none
    → rows_for rule event rows ≡ 0
unfolding status_of rows_for
rows_for-none rule event [] h = refl
rows_for-none rule event (x ∷ rows) h = ground (arith, h, rows_for-none rule event rows)

rows_for-append :
    (rule event : String) (rows : List Row) (x : Row)
    → rows_for rule event (rows ++ x ∷ [])
      ≡ rows_for rule event rows + (if has_key rule event x then 1 else 0)
unfolding rows_for
rows_for-append rule event [] x = omega arith
rows_for-append rule event (y ∷ rows) x = omega (arith, rows_for-append rule event rows x)

rows_for-finish_row :
    (rule event : String) (now : ℕ) (rows : List Row) (r e : String) (status : DispatchStatus)
    → rows_for rule event (finish_row now rows r e status).0 ≡ rows_for rule event rows
unfolding rows_for finish_row
rows_for-finish_row rule event now [] r e status = refl
rows_for-finish_row rule event now (x ∷ rows) r e status =
    ground (arith, rows_for-finish_row rule event now rows r e status)

rows_for-abandon_late :
    (rule event : String) (now window : ℕ) (rows : List Row)
    → rows_for rule event (abandon_late now window rows) ≡ rows_for rule event rows
unfolding rows_for abandon_late
rows_for-abandon_late rule event now window [] = refl
rows_for-abandon_late rule event now window (x ∷ rows) =
    ground (arith, rows_for-abandon_late rule event now window rows)

claim-once :
    (rule event : String) (now : ℕ) (rows : List Row) (r e : String) (d : Dispatch)
    → rows_for rule event rows ≤ 1
    → rows_for rule event (claim now rows r e d).0 ≤ 1
unfolding claim
claim-once rule event now rows r e d h = elim (Option-cases (status_of rows r e)) [
  | inr (status, found) ↦ rw (claim, found) h
  | inl missing ↦ ground (
    arith,
    missing,
    h,
    rows_for-append rule event rows (pending_row now r e d),
    rows_for-none rule event rows,
    eq_iff r rule,
    eq_iff e event,
  )
]

-- A log keeps at most one row for an event under a rule.
run-once :
    (rule event : String) (rows : List Row) (c : Access)
    → rows_for rule event rows ≤ 1
    → rows_for rule event (run rows c) ≤ 1
unfolding run complete replay_pending
run-once rule event rows (to_claim now r e d) h = claim-once rule event now rows r e d h
run-once rule event rows (to_complete now r e status) h =
    ground (arith, h, rows_for-finish_row rule event now rows r e status)
run-once rule event rows (to_replay now window) h =
    omega (arith, h, rows_for-abandon_late rule event now window rows)

run_all-once :
    (rule event : String) (rows : List Row) (cs : List Access)
    → rows_for rule event rows ≤ 1
    → rows_for rule event (run_all rows cs) ≤ 1
unfolding run_all
run_all-once rule event rows [] h = h
run_all-once rule event rows (c ∷ cs) h =
    run_all-once rule event (run rows c) cs (run-once rule event rows c h)

waiting-le_rows_for :
    (rule event : String) (rows : List Row) → waiting rule event rows ≤ rows_for rule event rows
unfolding waiting rows_for
waiting-le_rows_for rule event [] = omega arith
waiting-le_rows_for rule event (x ∷ rows) = ground (arith, waiting-le_rows_for rule event rows)

waiting-finished :
    (rule event : String) (rows : List Row) (status : DispatchStatus)
    → status_of rows rule event ≡ some status
    → is_pending status ≡ false
    → waiting rule event rows + 1 ≤ rows_for rule event rows
unfolding waiting rows_for status_of
waiting-finished rule event [] status found over = ground (arith, found)
waiting-finished rule event (x ∷ rows) status found over = ground (
  arith,
  found,
  over,
  waiting-le_rows_for rule event rows,
  waiting-finished rule event rows status,
)

rows_for-insert_row :
    (rule event : String) (x : Row) (rows : List Row)
    → rows_for rule event (insert_row x rows)
      ≡ (if has_key rule event x then 1 else 0) + rows_for rule event rows
unfolding rows_for insert_row
rows_for-insert_row rule event x [] = refl
rows_for-insert_row rule event x (y ∷ rows) = ground (arith, rows_for-insert_row rule event x rows)

rows_for-sort_rows :
    (rule event : String) (rows : List Row)
    → rows_for rule event (sort_rows rows) ≡ rows_for rule event rows
unfolding rows_for sort_rows
rows_for-sort_rows rule event [] = refl
rows_for-sort_rows rule event (x ∷ rows) =
    omega
      (arith, rows_for-insert_row rule event x (sort_rows rows), rows_for-sort_rows rule event rows)

rows_for-keep :
    (rule event : String) (test : Row → Bool) (rows : List Row)
    → rows_for rule event (keep (λ r. is_pending r.status && test r) rows) ≤ waiting rule event rows
unfolding rows_for waiting
rows_for-keep rule event test [] = omega arith
rows_for-keep rule event test (x ∷ rows) = ground (arith, rows_for-keep rule event test rows)

there-status :
    (o : Option DispatchStatus) (status : DispatchStatus) → o ≡ some status → is_there o ≡ true
there-status o status h = ground (arith, h)

fired-finished :
    (rule event : String) (rows : List Row) (c : Access) (status : DispatchStatus)
    → rows_for rule event rows ≤ 1
    → status_of rows rule event ≡ some status
    → is_pending status ≡ false
    → fired rows rule event c ≡ 0
unfolding replay_pending run_all run
fired-finished rule event rows (to_claim now r e d) status once found over =
    grant-there rows rule event (to_claim now r e d) (there-status _ status found)
fired-finished rule event rows (to_complete now r e s) status once found over = refl
fired-finished rule event rows (to_replay now window) status once found over =
    let after = abandon_late now window rows in
    let kept = run_all-finished rows rule event (to_replay now window ∷ []) status found over in
    let test = λ (r : Row). not (is_late now window r) in
    omega (
      arith,
      once,
      rows_for-abandon_late rule event now window rows,
      waiting-finished rule event after status kept over,
      rows_for-keep rule event test after,
      rows_for-sort_rows rule event (keep (λ r. is_pending r.status && test r) after),
    )

fires-finished :
    (rule event : String) (rows : List Row) (cs : List Access) (status : DispatchStatus)
    → rows_for rule event rows ≤ 1
    → status_of rows rule event ≡ some status
    → is_pending status ≡ false
    → fires rows rule event cs ≡ 0
unfolding fires run_all
fires-finished rule event rows [] status once found over = refl
fires-finished rule event rows (c ∷ cs) status once found over = omega (
  arith,
  fired-finished rule event rows c status once found over,
  fires-finished rule event (run rows c) cs status (run-once rule event rows c once)
      (run_all-finished rows rule event (c ∷ []) status found over) over,
)

-- From an empty log, any sequence of claims, completions and replays grants a rule at most one claim
-- for an event; once that dispatch is finished, no further sequence of calls hands it out again, by a
-- claim or among the rows of a replay.
pub finished_not_fired :
    (rule event : String) (cs ds : List Access) (status : DispatchStatus)
    → status_of (run_all [] cs) rule event ≡ some status
    → is_pending status ≡ false
    → (grants [] rule event cs ≤ 1) × (fires (run_all [] cs) rule event ds ≡ 0)
unfolding rows_for
finished_not_fired rule event cs ds status found over = (
  grants-le_one [] rule event cs,
  fires-finished rule event (run_all [] cs) ds status (run_all-once rule event [] cs (omega arith))
      found over,
)
