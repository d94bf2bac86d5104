-- ===== src/Tasks/Evidence/Rules.antt =====
-- Which evidence is accepted.
use wood_fired_tasks.Prelude.{
  ℕ, suc, inl, inr, Option-cases, ◌≡◌, ◌↔◌, refl, Bool, true, false, Option, some, List, [], ◌∷◌,
  ◌++◌, All, arith,
}
use wood_fired_tasks.Prelude.Text.{Text, text_eq, trim, lower}
use wood_fired_tasks.Tasks.Evidence.{
  Check, Evidence, Identity, Context, Violation, Verdict, pass, fail, partial, not_verified,
  is_blank, is_placeholder, listed, normalize_id, equals_id, session_id, self_grading_session,
  check_session, check_texts, check_pass, report, validate_verification_evidence,
}

-- The identity, where there is one, is another one than the session.
abbrev pub Differs : Text → Option Identity → Type 0
Differs session id =
    (text : Text) → normalize_id id ≡ some text → text_eq (lower session) (lower text) ≡ false

abbrev pub IsConcrete : Check → Type 0
IsConcrete check =
    (is_blank (trim check.evidence_url_or_text) ≡ false)
    × (is_placeholder (trim check.evidence_url_or_text) ≡ false)

abbrev is_empty : List Check → Bool
is_empty [] = true
is_empty (check ∷ checks) = false

-- What the rules ask for, without the order of the code.
pub record IsSound (evidence : Evidence) (ctx : Context) : Type 0 where
  pub named : is_blank (session_id evidence) ≡ false
  pub distinct : self_grading_session (session_id evidence) ≡ false
  pub not_assignee : Differs (session_id evidence) ctx.task_assignee
  pub not_assignee_user : Differs (session_id evidence) ctx.task_assignee_user_id
  pub not_caller : Differs (session_id evidence) ctx.caller_id
  pub concrete : All IsConcrete (listed evidence.checks)
  pub checked : evidence.verdict ≡ pass → is_empty (listed evidence.checks) ≡ false

append-eq-nil : (xs ys : List Violation) → (xs ++ ys) ≡ [] → (xs ≡ []) × (ys ≡ [])
append-eq-nil [] ys h = (refl, h)
append-eq-nil (x ∷ xs) ys h = ground arith

report-eq-nil : (b : Bool) (v : Violation) → report b v ≡ [] → b ≡ false
report-eq-nil b v h = ground arith

equals_id-Differs :
    (session : Text) (id : Option Identity)
    → equals_id session (normalize_id id) ≡ false
    → Differs session id
unfolding equals_id
equals_id-Differs session id h text e = ground (arith, h, e)

Differs-equals_id :
    (session : Text) (id : Option Identity)
    → Differs session id
    → equals_id session (normalize_id id) ≡ false
unfolding equals_id
Differs-equals_id session id h = elim (Option-cases (normalize_id id)) [
  | inl e ↦ ground (arith, e)
  | inr (text, e) ↦ ground (arith, e, h text e)
]

check_texts-IsConcrete :
    (n : ℕ) (checks : List Check) → check_texts n checks ≡ [] → All IsConcrete checks
unfolding check_texts
check_texts-IsConcrete n [] h = tt
check_texts-IsConcrete n (check ∷ checks) h =
    ((ground arith, ground arith), check_texts-IsConcrete (suc n) checks (append-eq-nil _ _ h).1)

All-check_texts : (n : ℕ) (checks : List Check) → All IsConcrete checks → check_texts n checks ≡ []
unfolding check_texts
All-check_texts n [] h = refl
All-check_texts n (check ∷ checks) ((blank, placeholder), rest) =
    rw (blank, placeholder, All-check_texts (suc n) checks rest)

-- The tests of a session as Booleans.
record IsForeign (session : Text) (ctx : Context) : Type 0 where
  named : is_blank session ≡ false
  distinct : self_grading_session session ≡ false
  other_assignee : equals_id session (normalize_id ctx.task_assignee) ≡ false
  other_user : equals_id session (normalize_id ctx.task_assignee_user_id) ≡ false
  other_caller : equals_id session (normalize_id ctx.caller_id) ≡ false

check_session-IsForeign :
    (session : Text) (ctx : Context) → check_session session ctx ≡ [] → IsForeign session ctx
unfolding check_session
check_session-IsForeign session ctx h = record {
  named = ground arith;
  distinct = ground arith;
  other_assignee = ground arith;
  other_user = ground arith;
  other_caller = ground arith;
}

IsForeign-check_session :
    (session : Text) (ctx : Context) → IsForeign session ctx → check_session session ctx ≡ []
unfolding check_session
IsForeign-check_session session ctx f =
    rw (f.named, f.distinct, f.other_assignee, f.other_user, f.other_caller)

check_pass_iff :
    (verdict : Verdict) (checks : List Check)
    → (check_pass verdict checks ≡ []) ↔ (verdict ≡ pass → is_empty checks ≡ false)
unfolding check_pass
check_pass_iff pass [] = (λ h. ground arith, λ h. ground (arith, h refl))
check_pass_iff pass (check ∷ checks) = (λ h e. refl, λ h. refl)
check_pass_iff fail checks = (λ h e. ground arith, λ h. refl)
check_pass_iff partial checks = (λ h e. ground arith, λ h. refl)
check_pass_iff not_verified checks = (λ h e. ground arith, λ h. refl)

-- Evidence passes exactly if it is sound: a session that names someone else than the driver, the
-- assignee, the assignee's user and the caller, checks that all say what was seen, and at least one
-- check behind PASS.
pub validate_iff :
    (evidence : Evidence) (ctx : Context)
    → (validate_verification_evidence evidence ctx ≡ []) ↔ IsSound evidence ctx
unfolding validate_verification_evidence
validate_iff evidence ctx = (
  λ h.
      let checks = listed evidence.checks in
      let before = check_session (session_id evidence) ctx ++ check_texts 0 checks in
      let (front, bare) = append-eq-nil before (check_pass evidence.verdict checks) h in
      let (session, texts) = append-eq-nil _ _ front in
      let f = check_session-IsForeign (session_id evidence) ctx session in
      record {
        named = f.named;
        distinct = f.distinct;
        not_assignee = equals_id-Differs _ ctx.task_assignee f.other_assignee;
        not_assignee_user = equals_id-Differs _ ctx.task_assignee_user_id f.other_user;
        not_caller = equals_id-Differs _ ctx.caller_id f.other_caller;
        concrete = check_texts-IsConcrete 0 _ texts;
        checked = (check_pass_iff _ _).0 bare;
      },
  λ s.
      let session = IsForeign-check_session (session_id evidence) ctx record {
        named = s.named;
        distinct = s.distinct;
        other_assignee = Differs-equals_id _ ctx.task_assignee s.not_assignee;
        other_user = Differs-equals_id _ ctx.task_assignee_user_id s.not_assignee_user;
        other_caller = Differs-equals_id _ ctx.caller_id s.not_caller;
      } in
      rw (session, All-check_texts 0 _ s.concrete, (check_pass_iff _ _).1 s.checked),
)
