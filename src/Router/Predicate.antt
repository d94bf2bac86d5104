-- ===== src/Router/Predicate.antt =====
-- packages/wft-router/src/dispatch/predicate.ts: the `where:` block of a rule against an event. Texts
-- are only compared here, so they are numbers; `null` and a missing field are both `none`, since no
-- operator asks for `null`.
pub mod Matches
mod Examples
use wood_fired_tasks.Prelude.{
  ℕ, Bool, true, false, ◌&&◌, ◌||◌, Option, none, some, List, [], ◌∷◌, has, ◌==◌,
}

-- The fields of an event that are probed.
pub record EventPayload : Type 0 where
  pub type_name : ℕ
  pub id : Option ℕ
  pub project_id : Option ℕ
  pub project_slug : Option ℕ
  pub status : Option ℕ
  pub tags : Option (List ℕ)
  pub parent_task_id : Option ℕ
  pub assignee : Option ℕ
  pub from_status : Option ℕ
  pub to_status : Option ℕ
  pub source : Option ℕ

-- `project:` takes a slug or an id.
pub data ProjectFilter : Type 0 where
  by_slug by_id : ℕ → ProjectFilter

pub record Where : Type 0 where
  pub project : Option ProjectFilter
  pub status : Option ℕ
  pub status_in : Option (List ℕ)
  pub from_status : Option ℕ
  pub to_status : Option ℕ
  pub tags_contains_all : Option (List ℕ)
  pub tags_contains_any : Option (List ℕ)
  pub task_id : Option ℕ
  pub parent_id : Option ℕ
  pub assignee : Option ℕ
  pub source : Option ℕ
  pub event_type : Option ℕ

-- An operator that is absent passes.
abbrev pub given {ℓ} : {A : Type ℓ} → (A → Bool) → Option A → Bool
given test none = true
given test (some a) = test a

-- The probed field is there and passes.
abbrev pub present {ℓ} : {A : Type ℓ} → (A → Bool) → Option A → Bool
present test none = false
present test (some a) = test a

abbrev pub is_field : Option ℕ → ℕ → Bool
is_field field wanted = present (λ v. v == wanted) field

unfoldable pub match_project : EventPayload → ProjectFilter → Bool
match_project event (by_slug slug) = is_field event.project_slug slug
match_project event (by_id id) = is_field event.project_id id

unfoldable pub all_in : List ℕ → List ℕ → Bool
all_in tags [] = true
all_in tags (required ∷ rest) = has tags required && all_in tags rest

unfoldable pub any_in : List ℕ → List ℕ → Bool
any_in tags [] = false
any_in tags (candidate ∷ rest) = has tags candidate || any_in tags rest

unfoldable pub evaluate_where : Where → EventPayload → Bool
evaluate_where w event =
    given (match_project event) w.project
    && (given (is_field event.status) w.status
        && (given (λ allowed. present (has allowed) event.status) w.status_in
            && (given (is_field event.from_status) w.from_status
                && (given (is_field event.to_status) w.to_status
                    && (given (λ required. present (λ tags. all_in tags required) event.tags)
                          w.tags_contains_all
                        && (given
                              (λ candidates. present (λ tags. any_in tags candidates) event.tags)
                              w.tags_contains_any
                            && (given (is_field event.id) w.task_id
                                && (given (is_field event.parent_task_id) w.parent_id
                                    && (given (is_field event.assignee) w.assignee
                                        && (given (is_field event.source) w.source
                                            && given (λ t. event.type_name == t)
                                                w.event_type))))))))))
