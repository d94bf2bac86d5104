-- ===== src/Router/Debounce/Examples.antt =====
-- Two pushes of one key and one of another, on a clock that starts at 0.
use wood_fired_tasks.Prelude.{ℕ, ◌+◌, ◌≤◌, ◌≡◌, refl, some, List, [], ◌∷◌, ◌++◌}
use wood_fired_tasks.Prelude.Text.{Text, codes}
use wood_fired_tasks.Router.Debounce.{
  new_debouncer, get, set, remove_key, compound_key, push, resolve_all, tick,
}
use wood_fired_tasks.Router.Debounce.Pending.{Push, group, latest, settle_group}
use wood_fired_tasks.Router.Debounce.Allowed.{Action, pushes, ticks, run, AllowedRun}
use wood_fired_tasks.Router.Debounce.Runs.{run_resolves}

-- The first timer is cleared by the second push, so its tick does nothing.
abbrev flapping : List Action
flapping =
    pushes (codes "r") (codes "1") 10 0
    ∷ pushes (codes "r") (codes "1") 20 3
    ∷ pushes (codes "r") (codes "2") 30 4
    ∷ ticks 0 9
    ∷ ticks 1 9
    ∷ []

flapping_runs :
    (run flapping (new_debouncer 5)).resolved
    ≡ record { promise = 0; payload = 20; count = 2 }
      ∷ record { promise = 1; payload = 20; count = 2 }
      ∷ []
unfolding get set remove_key compound_key push resolve_all tick
flapping_runs = refl

run_resolves_example :
    (left : List Push) × AllowedRun 5 0 [] [] flapping left
      (run flapping (new_debouncer 5)).resolved
    × ((k : Text) (last : Push)
        → latest (group k left) ≡ some last
        → (handle : ℕ) × ((now : ℕ)
            → last.at + 5 ≤ now
            → (tick handle now (run flapping (new_debouncer 5))).resolved
              ≡ (run flapping (new_debouncer 5)).resolved ++ settle_group (group k left)))
run_resolves_example = run_resolves 5 flapping
