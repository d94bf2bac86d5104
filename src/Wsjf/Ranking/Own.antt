-- ===== src/Wsjf/Ranking/Own.antt =====
-- Tasks and their ids, where no id stands twice.
use wood_fired_tasks.Prelude.{
  ℕ, ◌≡◌, ◌↔◌, refl, sym, subst, ◌∙◌, inl, inr, Bool, true, false, Option, none, some, List, [],
  ◌∷◌, All, arith, has, keep, ◌==◌, ==_iff, Bool-cases,
}
use mathlib.Core.Option.{some-injective}
use wood_fired_tasks.Dependencies.Degrees.{uniq}
use wood_fired_tasks.Dependencies.CycleDetector.{Edge}
use wood_fired_tasks.Wsjf.Ranking.{
  ScoredTask, Scope, frontier_only, every_task, task_ids, task_by_id, is_ready, scoped,
}
use wood_fired_tasks.Wsjf.Ranking.InScope.{IsInScope, is_ready_iff}

-- A task stands in the list under its id.
abbrev pub Own : List ScoredTask → ScoredTask → Type 0
Own tasks t = (has (task_ids tasks) t.id ≡ true) × (task_by_id tasks t.id ≡ some t)

All-widen :
    (ts : List ScoredTask) (t : ScoredTask)
    → has (task_ids ts) t.id ≡ false
    → (us : List ScoredTask) → All (Own ts) us
    → All (Own (t ∷ ts)) us
unfolding task_ids has task_by_id
All-widen ts t fresh [] h = tt
All-widen ts t fresh (u ∷ us) ((inside, found), h) =
    let other : (t.id == u.id) ≡ false = elim (Bool-cases (t.id == u.id)) [
      | inl same_id ↦
          let out = subst (λ i. has (task_ids ts) i ≡ false) ((==_iff t.id u.id).0 same_id) fresh in
          absurd (ground (arith, out, inside))
      | inr apart ↦ apart
    ] in
    ((ground (arith, inside), rw (task_by_id, other) found), All-widen ts t fresh us h)

All-Own : (ts : List ScoredTask) → uniq (task_ids ts) ≡ true → All (Own ts) ts
unfolding task_ids has task_by_id uniq
All-Own [] u = tt
All-Own (t ∷ ts) u = (
  (ground arith, ground arith),
  All-widen ts t (ground (arith, u)) ts (All-Own ts (ground (arith, u))),
)

All-keep :
    (P : ScoredTask → Type 0) (p : ScoredTask → Bool) (ts : List ScoredTask)
    → All P ts
    → All P (keep p ts)
All-keep P p [] h = tt
All-keep P p (t ∷ ts) (own, h) = elim (Bool-cases (p t)) [
  | inl in_it ↦ rw (in_it) (own, All-keep P p ts h)
  | inr out ↦ rw (out) (All-keep P p ts h)
]

passes : (ScoredTask → Bool) → Option ScoredTask → Bool
passes p none = false
passes p (some t) = p t

has-task_ids-keep-false :
    (p : ScoredTask → Bool) (ts : List ScoredTask) (x : ℕ)
    → has (task_ids ts) x ≡ false
    → has (task_ids (keep p ts)) x ≡ false
unfolding task_ids has
has-task_ids-keep-false p [] x h = refl
has-task_ids-keep-false p (t ∷ ts) x h = ground (arith, h, has-task_ids-keep-false p ts x)

has-task_ids-keep :
    (p : ScoredTask → Bool) (ts : List ScoredTask) (x : ℕ)
    → uniq (task_ids ts) ≡ true
    → has (task_ids (keep p ts)) x ≡ passes p (task_by_id ts x)
unfolding task_ids has task_by_id uniq passes
has-task_ids-keep p [] x u = refl
has-task_ids-keep p (t ∷ ts) x u = elim (Bool-cases (t.id == x)) [
  | inl same_id ↦
      let out =
        subst (λ i. has (task_ids ts) i ≡ false) ((==_iff t.id x).0 same_id) (ground (arith, u)) in
      ground (arith, same_id, has-task_ids-keep-false p ts x out)
  | inr other ↦ ground (arith, other, has-task_ids-keep p ts x (ground (arith, u)))
]

uniq-task_ids-keep :
    (p : ScoredTask → Bool) (ts : List ScoredTask)
    → uniq (task_ids ts) ≡ true
    → uniq (task_ids (keep p ts)) ≡ true
unfolding task_ids has uniq
uniq-task_ids-keep p [] u = refl
uniq-task_ids-keep p (t ∷ ts) u =
    ground (arith, u, uniq-task_ids-keep p ts, has-task_ids-keep-false p ts t.id)

-- A task of the list, by its id.
task_by_id-has :
    (ts : List ScoredTask) (x : ℕ)
    → has (task_ids ts) x ≡ true
    → (t : ScoredTask) × (task_by_id ts x ≡ some t) × (t.id ≡ x)
unfolding task_by_id task_ids has
task_by_id-has [] x h = absurd (ground (arith, h))
task_by_id-has (t ∷ ts) x h = elim (Bool-cases (t.id == x)) [
  | inl same_id ↦ (t, rw (task_by_id, same_id) refl, (==_iff t.id x).0 same_id)
  | inr other ↦
      let (b, found, is) = task_by_id-has ts x (ground (arith, h, other)) in
      (b, rw (task_by_id, other) found, is)
]

has-task_by_id :
    (ts : List ScoredTask) (x : ℕ) (t : ScoredTask)
    → task_by_id ts x ≡ some t
    → has (task_ids ts) x ≡ true
unfolding task_by_id task_ids has
has-task_by_id [] x t h = absurd (ground (arith, h))
has-task_by_id (s ∷ ts) x t h = elim (Bool-cases (s.id == x)) [
  | inl same_id ↦ ground (arith, same_id)
  | inr other ↦
      let later : task_by_id ts x ≡ some t = ground (arith, h, other) in
      ground (arith, has-task_by_id ts x t later)
]

-- The tasks of a scope, each once, under their ids.
pub uniq-scoped :
    (scope : Scope) (tasks : List ScoredTask) (es : List Edge)
    → uniq (task_ids tasks) ≡ true
    → uniq (task_ids (scoped scope tasks es)) ≡ true
unfolding scoped
uniq-scoped frontier_only tasks es u = uniq-task_ids-keep (is_ready tasks es) tasks u
uniq-scoped every_task tasks es u = u

pub All-Own-scoped :
    (scope : Scope) (tasks : List ScoredTask) (es : List Edge)
    → uniq (task_ids tasks) ≡ true
    → All (Own tasks) (scoped scope tasks es)
unfolding scoped
All-Own-scoped frontier_only tasks es u =
    All-keep (Own tasks) (is_ready tasks es) tasks (All-Own tasks u)
All-Own-scoped every_task tasks es u = All-Own tasks u

passes_iff :
    (p : ScoredTask → Bool) (o : Option ScoredTask)
    → (passes p o ≡ true) ↔ ((t : ScoredTask) × (o ≡ some t) × (p t ≡ true))
unfolding passes
passes_iff p none = (λ h. absurd (ground (arith, h)), λ (t, h, _). absurd (ground (arith, h)))
passes_iff p (some s) =
    (λ h. (s, refl, h), λ (t, h, ok). subst (λ x. p x ≡ true) (sym (some-injective s t h)) ok)

pub has-scoped :
    (scope : Scope) (tasks : List ScoredTask) (es : List Edge) (x : ℕ)
    → uniq (task_ids tasks) ≡ true
    → (has (task_ids (scoped scope tasks es)) x ≡ true)
      ↔ ((t : ScoredTask) × (task_by_id tasks x ≡ some t) × IsInScope scope tasks es t)
unfolding scoped
has-scoped frontier_only tasks es x u =
    let e = has-task_ids-keep (is_ready tasks es) tasks x u in
    let iff = passes_iff (is_ready tasks es) (task_by_id tasks x) in
    (
      λ h. let (t, found, is) = iff.0 (sym e ∙ h) in (t, found, (is_ready_iff tasks es t).0 is),
      λ (t, found, ready). e ∙ iff.1 (t, found, (is_ready_iff tasks es t).1 ready),
    )
has-scoped every_task tasks es x u = (
  λ h. let (t, found, _) = task_by_id-has tasks x h in (t, found, tt),
  λ (t, found, _). has-task_by_id tasks x t found,
)
