-- ===== src/Router/Predicate/Examples.antt =====
-- A rule on the status and the tags of a task.
use wood_fired_tasks.Prelude.{◌≡◌, ◌↔◌, refl, true, none, some, [], ◌∷◌, has}
use wood_fired_tasks.Router.Predicate.{
  EventPayload, Where, match_project, all_in, any_in, evaluate_where,
}
use wood_fired_tasks.Router.Predicate.Matches.{IsMatch, evaluate_where_iff}

abbrev changed : EventPayload
changed = record {
  type_name = 1;
  id = some 7;
  project_id = some 3;
  project_slug = none;
  status = some 2;
  tags = some (4 ∷ 5 ∷ []);
  parent_task_id = none;
  assignee = none;
  from_status = some 1;
  to_status = some 2;
  source = none;
}

abbrev tagged : Where
tagged = record {
  project = none;
  status = some 2;
  status_in = none;
  from_status = none;
  to_status = none;
  tags_contains_all = some (5 ∷ []);
  tags_contains_any = some (6 ∷ 4 ∷ []);
  task_id = none;
  parent_id = none;
  assignee = none;
  source = none;
  event_type = some 1;
}

tagged_runs : evaluate_where tagged changed ≡ true
unfolding evaluate_where match_project all_in any_in has
tagged_runs = refl

evaluate_where_iff_example : (evaluate_where tagged changed ≡ true) ↔ IsMatch tagged changed
evaluate_where_iff_example = evaluate_where_iff changed tagged
