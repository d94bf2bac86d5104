-- ===== src/Router/IdempotencyStore/AtMostOnce.antt =====
-- The claims that the log grants for an event, and what becomes of the status of a dispatch.
use wood_fired_tasks.Prelude.{
  ℕ, ◌+◌, ◌≤◌, ◌≡◌, ◌||◌, ◌⊎◌, refl, inl, inr, Bool, true, false, ◌&&◌, Option, none, some, List,
  [], ◌∷◌, ◌++◌, String, ◌==◌, str_eq, eq_iff, eq_refl, if◌then◌else◌, arith, Bool-cases,
  Option-cases,
}
use wood_fired_tasks.Router.IdempotencyStore.{
  Row, DispatchStatus, pending, succeeded, failed, permanently_failed, superseded, ClaimResult,
  claimed, already_pending, already_done, Dispatch, has_key, status_of, is_pending, pending_row,
  claim, finish, finish_row, complete, abandon_late, replay_pending,
}

-- The calls that write the log.
pub data Access : Type 0 where
  to_claim : ℕ → String → String → Dispatch → Access
  to_complete : ℕ → String → String → DispatchStatus → Access
  to_replay : ℕ → ℕ → Access

unfoldable pub run : List Row → Access → List Row
run rows (to_claim now rule event d) = (claim now rows rule event d).0
run rows (to_complete now rule event status) = (complete now rows rule event status).0
run rows (to_replay now window) = (replay_pending now window rows).0

-- Whether a call is granted the dispatch of the rule for the event.
abbrev is_claimed : ClaimResult → ℕ
is_claimed claimed = 1
is_claimed already_pending = 0
is_claimed (already_done s) = 0

abbrev pub grant : List Row → String → String → Access → ℕ
grant rows rule event (to_claim now r e d) =
    if str_eq r rule && str_eq e event then is_claimed (claim now rows r e d).1 else 0
grant rows rule event (to_complete now r e s) = 0
grant rows rule event (to_replay now window) = 0

unfoldable pub grants : List Row → String → String → List Access → ℕ
grants rows rule event [] = 0
grants rows rule event (c ∷ cs) = grant rows rule event c + grants (run rows c) rule event cs

abbrev code : DispatchStatus → ℕ
code pending = 0
code succeeded = 1
code failed = 2
code permanently_failed = 3
code superseded = 4

-- What may become of the status of a row: a pending one may change, a finished one stays.
abbrev stays : Option DispatchStatus → Option DispatchStatus → Bool
stays none after = true
stays (some status) none = false
stays (some status) (some after) = is_pending status || code after == code status

stays_refl : (o : Option DispatchStatus) → stays o o ≡ true
stays_refl o = ground arith

append-stays :
    (rows : List Row) (row : Row) (r e : String)
    → stays (status_of rows r e) (status_of (rows ++ row ∷ []) r e) ≡ true
unfolding status_of
append-stays [] row r e = refl
append-stays (x ∷ rows) row r e = ground (arith, append-stays rows row r e)

finish_row-stays :
    (now : ℕ) (rows : List Row) (rule event : String) (status : DispatchStatus) (r e : String)
    → stays (status_of rows r e) (status_of (finish_row now rows rule event status).0 r e) ≡ true
unfolding status_of finish_row
finish_row-stays now [] rule event status r e = refl
finish_row-stays now (x ∷ rows) rule event status r e = elim (Bool-cases (has_key rule event x)) [
  | inr miss ↦ rw (miss) (kept (finish_row-stays now rows rule event status r e))
  | inl hit ↦ elim (Bool-cases (is_pending x.status)) [
    | inl going ↦ rw (hit, going) (started going)
    | inr over ↦ rw (hit, over) (stays_refl _)
  ]
]
  where
    kept :
        stays (status_of rows r e) (status_of (finish_row now rows rule event status).0 r e) ≡ true
        → stays
            (status_of (x ∷ rows) r e)
            (status_of (x ∷ (finish_row now rows rule event status).0) r e)
          ≡ true
    kept h = elim (Bool-cases (has_key r e x)) [
      | inl same ↦ rw (same) (stays_refl (some x.status))
      | inr other ↦ rw (other) h
    ]

    started :
        is_pending x.status ≡ true
        → stays (status_of (x ∷ rows) r e) (status_of (finish now status x ∷ rows) r e) ≡ true
    started going = elim (Bool-cases (has_key r e x)) [
      | inl same ↦ rw (same, going) refl
      | inr other ↦ rw (other) (stays_refl (status_of rows r e))
    ]

abandon_late-stays :
    (now window : ℕ) (rows : List Row) (r e : String)
    → stays (status_of rows r e) (status_of (abandon_late now window rows) r e) ≡ true
unfolding status_of abandon_late
abandon_late-stays now window [] r e = refl
abandon_late-stays now window (x ∷ rows) r e =
    ground (arith, abandon_late-stays now window rows r e)

pub run-stays :
    (rows : List Row) (c : Access) (r e : String)
    → stays (status_of rows r e) (status_of (run rows c) r e) ≡ true
unfolding run claim complete replay_pending
run-stays rows (to_claim now rule event d) r e =
    ground
      (arith, append-stays rows (pending_row now rule event d) r e, stays_refl (status_of rows r e))
run-stays rows (to_complete now rule event status) r e =
    ground (arith, finish_row-stays now rows rule event status r e, stays_refl (status_of rows r e))
run-stays rows (to_replay now window) r e = abandon_late-stays now window rows r e

abbrev pub is_there : Option DispatchStatus → Bool
is_there none = false
is_there (some status) = true

pub grant-there :
    (rows : List Row) (rule event : String) (c : Access)
    → is_there (status_of rows rule event) ≡ true
    → grant rows rule event c ≡ 0
unfolding claim
grant-there rows rule event (to_claim now r e d) h =
    ground (arith, h, eq_iff r rule, eq_iff e event)
grant-there rows rule event (to_complete now r e s) h = refl
grant-there rows rule event (to_replay now window) h = refl

append-there :
    (rows : List Row) (now : ℕ) (r e : String) (d : Dispatch)
    → is_there (status_of (rows ++ pending_row now r e d ∷ []) r e) ≡ true
unfolding status_of
append-there [] now r e d = rw (eq_refl r, eq_refl e) refl
append-there (x ∷ rows) now r e d = ground (arith, append-there rows now r e d)

grant-le_one :
    (rows : List Row) (rule event : String) (c : Access)
    → (grant rows rule event c ≡ 0)
      ⊎ (grant rows rule event c ≡ 1) × (is_there (status_of (run rows c) rule event) ≡ true)
unfolding claim run
grant-le_one rows rule event (to_claim now r e d) =
    elim (Bool-cases (str_eq r rule && str_eq e event)) [
      | inr other ↦ inl (ground (arith, other))
      | inl same ↦ elim (Option-cases (status_of rows r e)) [
        | inr (status, found) ↦ inl (ground (arith, found))
        | inl missing ↦ inr (
          ground (arith, same, missing),
          ground (arith, same, missing, eq_iff r rule, eq_iff e event, append-there rows now r e d),
        )
      ]
    ]
grant-le_one rows rule event (to_complete now r e s) = inl refl
grant-le_one rows rule event (to_replay now window) = inl refl

grants-there :
    (rows : List Row) (rule event : String) (cs : List Access)
    → is_there (status_of rows rule event) ≡ true
    → grants rows rule event cs ≡ 0
unfolding grants
grants-there rows rule event [] h = refl
grants-there rows rule event (c ∷ cs) h =
    let later =
      grants-there (run rows c) rule event cs (ground (arith, h, run-stays rows c rule event)) in
    ground (arith, later, grant-there rows rule event c h)

pub grants-le_one :
    (rows : List Row) (rule event : String) (cs : List Access) → grants rows rule event cs ≤ 1
unfolding grants
grants-le_one rows rule event [] = omega arith
grants-le_one rows rule event (c ∷ cs) = elim (grant-le_one rows rule event c) [
  | inl refused ↦ omega (arith, refused, grants-le_one (run rows c) rule event cs)
  | inr (granted, there) ↦ omega (arith, granted, grants-there (run rows c) rule event cs there)
]

unfoldable pub run_all : List Row → List Access → List Row
run_all rows [] = rows
run_all rows (c ∷ cs) = run_all (run rows c) cs

-- A dispatch that is finished keeps its status over any sequence of calls.
pub run_all-finished :
    (rows : List Row) (rule event : String) (cs : List Access) (status : DispatchStatus)
    → status_of rows rule event ≡ some status
    → is_pending status ≡ false
    → status_of (run_all rows cs) rule event ≡ some status
unfolding run_all
run_all-finished rows rule event [] status found over = found
run_all-finished rows rule event (c ∷ cs) status found over =
    run_all-finished (run rows c) rule event cs status
      (ground (arith, found, over, run-stays rows c rule event)) over
