-- ===== src/Router/Shutdown/Examples.antt =====
-- A drain that hangs after one of its two callbacks.
use wood_fired_tasks.Prelude.{◌≡◌, refl, ◌⊎◌, true, false, has, List, [], ◌∷◌}
use wood_fired_tasks.Router.Shutdown.{
  draining, done, grace_timeout, told, new_shutdown, finish, handle_signal, deliver_signal,
  grace_tick, settle_callback, on_drain, wait_for_shutdown,
}
use wood_fired_tasks.Router.Shutdown.Events.{
  ShutdownEvent, signals, ticks, settles, registers, waits, run, IsSane,
}
use wood_fired_tasks.Router.Shutdown.Outcome.{Keeps, run_tells_once}

abbrev hanging : List ShutdownEvent
hanging = registers ∷ registers ∷ waits ∷ signals 15 ∷ settles ∷ ticks ∷ []

hanging_runs :
    (run hanging (new_shutdown (15 ∷ 2 ∷ []) true)).waiter
    ≡ told (record { cause = grace_timeout; drained_cleanly = false })
unfolding finish handle_signal deliver_signal grace_tick settle_callback on_drain wait_for_shutdown
    has
hanging_runs = refl

run_tells_once_example :
    IsSane (run hanging (new_shutdown (15 ∷ 2 ∷ []) true))
    × ((run hanging (new_shutdown (15 ∷ 2 ∷ []) true)).phase ≡ done
        → Keeps
            (run hanging (new_shutdown (15 ∷ 2 ∷ []) true))
            (run hanging (run hanging (new_shutdown (15 ∷ 2 ∷ []) true))))
    × ((run hanging (new_shutdown (15 ∷ 2 ∷ []) true)).phase ≡ draining
        → ((grace_tick (run hanging (new_shutdown (15 ∷ 2 ∷ []) true))).phase ≡ done)
          ⊎ ((run hanging (new_shutdown (15 ∷ 2 ∷ []) true)).registered ≡ []))
run_tells_once_example = run_tells_once (15 ∷ 2 ∷ []) true hanging hanging
