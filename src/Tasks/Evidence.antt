-- ===== src/Tasks/Evidence.antt =====
-- src/services/evidence-validation.ts: what counts as evidence that a task is done. A missing
-- optional text is `none`; a number that is compared with a text is written in decimal.
pub mod Rules
use wood_fired_tasks.Prelude.{
  ℕ, suc, zero, ◌+◌, ◌/◌, ◌%◌, Bool, true, false, ◌||◌, Option, none, some, List, [], ◌∷◌, ◌++◌,
  ◌==◌, if◌then◌else◌, ltb,
}
use wood_fired_tasks.Prelude.Text.{Text, codes, text_eq, starts_with, trim, lower}

pub data Verdict : Type 0 where
  pass fail partial not_verified : Verdict

pub record Check : Type 0 where
  pub name : Text
  pub evidence_url_or_text : Text

-- VerificationEvidence; its request id and its time are not looked at.
pub record Evidence : Type 0 where
  pub verdict : Verdict
  pub checks : Option (List Check)
  pub verifier_session_id : Option Text

pub data Identity : Type 0 where
  word : Text → Identity
  number : ℕ → Identity

pub record Context : Type 0 where
  pub task_assignee : Option Identity
  pub task_assignee_user_id : Option Identity
  pub caller_id : Option Identity

-- One constructor for each message, with the label of the check that it is about.
pub data Violation : Type 0 where
  no_session self_grading is_assignee is_assignee_user is_caller bare_pass : Violation
  empty_check placeholder_check : ℕ → Violation

-- `String(value)`; a number has fewer digits than itself and one.
unfoldable pub decimal : ℕ → ℕ → Text
decimal zero n = []
decimal (suc fuel) n =
    let rest = decimal fuel (n / 10) in
    if ltb n 10 then (48 + n) ∷ [] else rest ++ (48 + n % 10) ∷ []

unfoldable pub show : Identity → Text
show (word text) = text
show (number n) = decimal (suc n) n

abbrev pub is_blank : Text → Bool
is_blank [] = true
is_blank (c ∷ cs) = false

-- `normalizeId`.
unfoldable pub normalize_id : Option Identity → Option Text
normalize_id none = none
normalize_id (some value) =
    let text = trim (show value) in if is_blank text then none else some text

-- SELF_GRADING_SESSION_PATTERN, tested on the session.
unfoldable pub self_grading_session : Text → Bool
self_grading_session session =
    starts_with (lower session) (codes "orchestrator")
    || starts_with (lower session) (codes "self")
    || starts_with (lower session) (codes "main-loop")

-- PLACEHOLDER_EVIDENCE_DENYLIST.
abbrev denylist : List Text
denylist = codes "ok" ∷ codes "pass" ∷ codes "done" ∷ codes "n/a" ∷ codes "na" ∷ codes "tbd" ∷ []

abbrev pub includes_text : List Text → Text → Bool
includes_text [] t = false
includes_text (d ∷ ds) t = text_eq d t || includes_text ds t

unfoldable pub is_placeholder : Text → Bool
is_placeholder text = includes_text denylist (lower text)

abbrev pub report : Bool → Violation → List Violation
report true v = v ∷ []
report false v = []

-- `id !== null && sessionKey === id.toLowerCase()`.
unfoldable pub equals_id : Text → Option Text → Bool
equals_id session none = false
equals_id session (some id) = text_eq (lower session) (lower id)

-- The trimmed session id, blank if there is none.
unfoldable pub session_id : Evidence → Text
session_id evidence = elim evidence.verifier_session_id [ none ↦ [] | some id ↦ trim id ]

unfoldable pub check_session : Text → Context → List Violation
check_session session ctx =
    if is_blank session
    then no_session ∷ []
    else report (self_grading_session session) self_grading
      ++ report (equals_id session (normalize_id ctx.task_assignee)) is_assignee
      ++ report (equals_id session (normalize_id ctx.task_assignee_user_id)) is_assignee_user
      ++ report (equals_id session (normalize_id ctx.caller_id)) is_caller

-- The loop over `evidence.checks`, from the index on.
unfoldable pub check_texts : ℕ → List Check → List Violation
check_texts index [] = []
check_texts index (check ∷ checks) =
    let text = trim check.evidence_url_or_text in
    (if is_blank text
      then empty_check index ∷ []
      else report (is_placeholder text) (placeholder_check index))
    ++ check_texts (suc index) checks

abbrev pub listed : Option (List Check) → List Check
listed none = []
listed (some checks) = checks

unfoldable pub check_pass : Verdict → List Check → List Violation
check_pass pass [] = bare_pass ∷ []
check_pass verdict checks = []

unfoldable pub validate_verification_evidence : Evidence → Context → List Violation
validate_verification_evidence evidence ctx =
    check_session (session_id evidence) ctx
    ++ check_texts 0 (listed evidence.checks)
    ++ check_pass evidence.verdict (listed evidence.checks)
