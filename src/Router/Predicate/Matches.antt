-- ===== src/Router/Predicate/Matches.antt =====
-- A rule matches exactly if every operator that is given finds its field, with a value it accepts.
use wood_fired_tasks.Prelude.{
  ℕ, ◌≡◌, ◌↔◌, refl, sym, ap, subst, inl, inr, Bool, true, ◌&&◌, Option, none, some, List, [], ◌∷◌,
  arith, has, ◌==◌, ==_iff, Bool-cases,
}
use mathlib.Core.Option.{some-injective}
use wood_fired_tasks.Router.Predicate.{
  EventPayload, ProjectFilter, by_slug, by_id, Where, given, present, is_field, match_project,
  all_in, any_in, evaluate_where,
}

-- Each operator on its own.
abbrev pub Given {ℓ} : {A : Type ℓ} → (A → Type 0) → Option A → Type 0
Given P none = Unit
Given P (some a) = P a

abbrev pub InProject : EventPayload → ProjectFilter → Type 0
InProject event (by_slug slug) = event.project_slug ≡ some slug
InProject event (by_id id) = event.project_id ≡ some id

pub record IsMatch (w : Where) (event : EventPayload) : Type 0 where
  pub of_project : Given (InProject event) w.project
  pub of_status : Given (λ s. event.status ≡ some s) w.status
  pub of_status_in :
      Given (λ allowed. (s : ℕ) × (event.status ≡ some s) × (has allowed s ≡ true)) w.status_in
  pub of_from : Given (λ s. event.from_status ≡ some s) w.from_status
  pub of_to : Given (λ s. event.to_status ≡ some s) w.to_status
  pub of_all :
      Given
        (λ required.
          (tags : List ℕ) × (event.tags ≡ some tags)
          × ((t : ℕ) → has required t ≡ true → has tags t ≡ true))
        w.tags_contains_all
  pub of_any :
      Given
        (λ candidates.
          (tags : List ℕ) × (event.tags ≡ some tags)
          × ((t : ℕ) × (has candidates t ≡ true) × (has tags t ≡ true)))
        w.tags_contains_any
  pub of_task : Given (λ i. event.id ≡ some i) w.task_id
  pub of_parent : Given (λ i. event.parent_task_id ≡ some i) w.parent_id
  pub of_assignee : Given (λ a. event.assignee ≡ some a) w.assignee
  pub of_source : Given (λ s. event.source ≡ some s) w.source
  pub of_type : Given (λ t. event.type_name ≡ t) w.event_type

given_iff {ℓ} :
    {A : Type ℓ} (test : A → Bool) (P : A → Type 0)
    → ((a : A) → (test a ≡ true) ↔ P a)
    → (o : Option A) → (given test o ≡ true) ↔ Given P o
given_iff test P h none = (λ _. tt, λ _. refl)
given_iff test P h (some a) = h a

present_iff {ℓ} :
    {A : Type ℓ} (test : A → Bool) (o : Option A)
    → (present test o ≡ true) ↔ ((a : A) × (o ≡ some a) × (test a ≡ true))
present_iff test none = (λ h. absurd (ground (arith, h)), λ (a, h, _). absurd (ground (arith, h)))
present_iff test (some b) =
    (λ h. (b, refl, h), λ (a, is, h). subst (λ x. test x ≡ true) (sym (some-injective b a is)) h)

is_field_iff : (field : Option ℕ) (v : ℕ) → (is_field field v ≡ true) ↔ (field ≡ some v)
is_field_iff none v = (λ h. absurd (ground (arith, h)), λ h. absurd (ground (arith, h)))
is_field_iff (some x) v =
    (λ h. ap some ((==_iff x v).0 h), λ h. (==_iff x v).1 (some-injective x v h))

match_project_iff :
    (event : EventPayload) (p : ProjectFilter) → (match_project event p ≡ true) ↔ InProject event p
unfolding match_project
match_project_iff event (by_slug slug) = is_field_iff event.project_slug slug
match_project_iff event (by_id id) = is_field_iff event.project_id id

all_in_iff :
    (tags required : List ℕ)
    → (all_in tags required ≡ true) ↔ ((t : ℕ) → has required t ≡ true → has tags t ≡ true)
unfolding all_in has
all_in_iff tags [] = (λ _ t h. absurd (ground (arith, h)), λ _. refl)
all_in_iff tags (r ∷ rs) =
    let rest = all_in_iff tags rs in
    (
      λ h t in_it. elim (Bool-cases (r == t)) [
        | inl same ↦ subst (λ x. has tags x ≡ true) ((==_iff r t).0 same) (ground (arith, h))
        | inr other ↦ rest.0 (ground (arith, h)) t (ground (arith, in_it, other))
      ],
      λ h. ground (arith, h r, rest.1 (λ t in_it. h t (ground (arith, in_it)))),
    )

any_in_iff :
    (tags candidates : List ℕ)
    → (any_in tags candidates ≡ true) ↔ ((t : ℕ) × (has candidates t ≡ true) × (has tags t ≡ true))
unfolding any_in has
any_in_iff tags [] = (λ h. absurd (ground (arith, h)), λ (t, h, _). absurd (ground (arith, h)))
any_in_iff tags (c ∷ cs) =
    let rest = any_in_iff tags cs in
    (
      λ h. elim (Bool-cases (has tags c)) [
        | inl hit ↦ (c, ground arith, hit)
        | inr miss ↦
            let (t, in_it, found) = rest.0 (ground (arith, h, miss)) in
            (t, ground (arith, in_it), found)
      ],
      λ (t, in_it, found). elim (Bool-cases (c == t)) [
        | inl same ↦
            let hit = subst (λ x. has tags x ≡ true) (sym ((==_iff c t).0 same)) found in
            ground (arith, hit)
        | inr other ↦ ground (arith, rest.1 (t, ground (arith, in_it, other), found))
      ],
    )

and_elim : (a b : Bool) → (a && b) ≡ true → (a ≡ true) × (b ≡ true)
and_elim a b h = (ground (arith, h), ground (arith, h))

and_intro : (a b : Bool) → a ≡ true → b ≡ true → (a && b) ≡ true
and_intro a b h k = ground (arith, h, k)

module _ (event : EventPayload) where
  field_iff :
      (field o : Option ℕ) → (given (is_field field) o ≡ true) ↔ Given (λ v. field ≡ some v) o
  field_iff field o = given_iff (is_field field) (λ v. field ≡ some v) (is_field_iff field) o

  project_iff :
      (o : Option ProjectFilter)
      → (given (match_project event) o ≡ true) ↔ Given (InProject event) o
  project_iff o = given_iff (match_project event) (InProject event) (match_project_iff event) o

  status_in_iff :
      (o : Option (List ℕ))
      → (given (λ allowed. present (has allowed) event.status) o ≡ true)
        ↔ Given (λ allowed. (s : ℕ) × (event.status ≡ some s) × (has allowed s ≡ true)) o
  status_in_iff o =
      given_iff (λ allowed. present (has allowed) event.status)
        (λ allowed. (s : ℕ) × (event.status ≡ some s) × (has allowed s ≡ true))
        (λ allowed. present_iff (has allowed) event.status) o

  tags_iff :
      (test : List ℕ → List ℕ → Bool) (P : List ℕ → List ℕ → Type 0)
      → ((tags asked : List ℕ) → (test tags asked ≡ true) ↔ P tags asked)
      → (o : Option (List ℕ))
      → (given (λ asked. present (λ tags. test tags asked) event.tags) o ≡ true)
        ↔ Given (λ asked. (tags : List ℕ) × (event.tags ≡ some tags) × P tags asked) o
  tags_iff test P h o =
      given_iff (λ asked. present (λ tags. test tags asked) event.tags)
        (λ asked. (tags : List ℕ) × (event.tags ≡ some tags) × P tags asked)
        (λ asked.
          let both = present_iff (λ tags. test tags asked) event.tags in
          (
            λ t. let (tags, is, ok) = both.0 t in (tags, is, (h tags asked).0 ok),
            λ (tags, is, ok). both.1 (tags, is, (h tags asked).1 ok),
          ))
        o

  type_iff :
      (o : Option ℕ)
      → (given (λ t. event.type_name == t) o ≡ true) ↔ Given (λ t. event.type_name ≡ t) o
  type_iff o =
      given_iff (λ t. event.type_name == t) (λ t. event.type_name ≡ t) (==_iff event.type_name) o

  -- A rule matches exactly if every operator that it gives finds its field on the event, with a value
  -- that it accepts: a field that is missing fails its operator, and no operators match every event.
  pub evaluate_where_iff : (w : Where) → (evaluate_where w event ≡ true) ↔ IsMatch w event
  unfolding evaluate_where
  evaluate_where_iff w =
      let all_tags =
        tags_iff all_in (λ tags asked. (t : ℕ) → has asked t ≡ true → has tags t ≡ true) all_in_iff
          w.tags_contains_all in
      let any_tag =
        tags_iff any_in (λ tags asked. (t : ℕ) × (has asked t ≡ true) × (has tags t ≡ true))
          any_in_iff w.tags_contains_any in
      (
        λ h.
            let (project, h) = and_elim _ _ h in
            let (status, h) = and_elim _ _ h in
            let (status_in, h) = and_elim _ _ h in
            let (from, h) = and_elim _ _ h in
            let (to, h) = and_elim _ _ h in
            let (all_of, h) = and_elim _ _ h in
            let (any_of, h) = and_elim _ _ h in
            let (task, h) = and_elim _ _ h in
            let (parent, h) = and_elim _ _ h in
            let (assignee, h) = and_elim _ _ h in
            let (source, type) = and_elim _ _ h in
            record {
              of_project = (project_iff w.project).0 project;
              of_status = (field_iff event.status w.status).0 status;
              of_status_in = (status_in_iff w.status_in).0 status_in;
              of_from = (field_iff event.from_status w.from_status).0 from;
              of_to = (field_iff event.to_status w.to_status).0 to;
              of_all = all_tags.0 all_of;
              of_any = any_tag.0 any_of;
              of_task = (field_iff event.id w.task_id).0 task;
              of_parent = (field_iff event.parent_task_id w.parent_id).0 parent;
              of_assignee = (field_iff event.assignee w.assignee).0 assignee;
              of_source = (field_iff event.source w.source).0 source;
              of_type = (type_iff w.event_type).0 type;
            },
        λ m. and_intro _ _ ((project_iff w.project).1 m.of_project) (
            and_intro _ _ ((field_iff event.status w.status).1 m.of_status) (
              and_intro _ _ ((status_in_iff w.status_in).1 m.of_status_in) (
                and_intro _ _ ((field_iff event.from_status w.from_status).1 m.of_from) (
                  and_intro _ _ ((field_iff event.to_status w.to_status).1 m.of_to) (
                    and_intro _ _ (all_tags.1 m.of_all) (
                      and_intro _ _ (any_tag.1 m.of_any) (
                        and_intro _ _ ((field_iff event.id w.task_id).1 m.of_task) (
                          and_intro _ _ ((field_iff event.parent_task_id w.parent_id).1 m.of_parent)
                            (and_intro _ _ ((field_iff event.assignee w.assignee).1 m.of_assignee) (
                              and_intro _ _ ((field_iff event.source w.source).1 m.of_source)
                                ((type_iff w.event_type).1 m.of_type))))))))))),
      )
