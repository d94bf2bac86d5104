-- ===== src/Events/Examples.antt =====
-- Tests and runs of the bus and the manager.
use wood_fired_tasks.Prelude.{
  ℕ, ◌≡◌, ◌≢◌, refl, subst, length, true, false, none, some, List, [], ◌∷◌, ◌++◌, arith,
  if◌then◌else◌,
}
use wood_fired_tasks.Prelude.Dict.{put}
use wood_fired_tasks.Events.EventBus.{
  Entry, Listener, emits, transaction, Script, done, then_next, quiet, reacts, push_active, finish,
  flush, act, run, waits,
}
use wood_fired_tasks.Events.EventBus.Heard.{committed, of_kind, all_calls, all_heard}
use wood_fired_tasks.Events.EventBus.Transactions.{bus_of, run_delivers}
use wood_fired_tasks.Events.SseManager.{
  Payload, Filters, Limits, Manager, new_manager, Request, Route, admit, register, of_ip,
  denied_per_ip, can_accept, gap, count, add_connection, broadcast, prune_event_buffer, keep_last,
  drop_first, missed,
}
use wood_fired_tasks.Events.SseManager.Caps.{
  IsWithin, Reach, start, next, checks, registers, Reach-IsWithin,
}
use wood_fired_tasks.Events.SseManager.Replay.{broadcast_all, history, missed_complete}

abbrev created : Entry
created = record { event = "task.created"; payload = 1 }

abbrev updated : Entry
updated = record { event = "task.updated"; payload = 2 }

abbrev ordinary : Listener
ordinary = record { id = 0; subscribed = "task.updated"; bypass = false }

abbrev eager : Listener
eager = record { id = 1; subscribed = "task.updated"; bypass = true }

abbrev new_tasks : Listener
new_tasks = record { id = 2; subscribed = "task.created"; bypass = false }

-- The eager listener emits something itself, in a transaction of its own.
abbrev reaction : Script
reaction = then_next (transaction (then_next (emits created quiet) done) false) done

-- An update that the eager listener reacts to, and an inner transaction that throws.
abbrev body : Script
body =
    then_next (emits updated (reacts reaction quiet))
      (then_next (transaction (then_next (emits updated quiet) done) true) done)

abbrev nested : Script
nested = then_next (transaction body false) (then_next (emits created quiet) done)

abbrev listeners : List Listener
listeners = ordinary ∷ eager ∷ new_tasks ∷ []

-- What the eager listener emits is delivered before the update.
nested_log :
    (run (bus_of listeners [] []) nested).log
    ≡ (eager, updated)
      ∷ (eager, updated)
      ∷ (new_tasks, created)
      ∷ (ordinary, updated)
      ∷ (new_tasks, created)
      ∷ []
unfolding run push_active finish flush
nested_log = refl

run_delivers_example :
    (run (bus_of listeners [] []) nested ≡ bus_of listeners [] ([] ++ all_heard listeners nested))
    × (of_kind waits (act (bus_of listeners [] []) (transaction body false)).log
        ≡ (if false then [] else all_calls waits listeners (committed listeners body)))
run_delivers_example = run_delivers listeners [] nested body false

abbrev limits : Limits
limits = record {
  max_buffer_size = 2;
  buffer_ttl_ms = 1000;
  max_connection_age_ms = 5000;
  max_connections_per_key = 3;
  max_connections_per_ip = 1;
  max_connections = 4;
}

abbrev everything : Filters
everything = record { project_id = none; event_types = none }

abbrev request : Request
request = record { filters = everything; last = none; fingerprint = "key"; ip = "ip" }

abbrev nobody : Route
nobody = record { manager = new_manager; admitted = [] }

abbrev first_client : Manager
first_client = (register 10 new_manager "a" request).0

second_client_denied : can_accept limits first_client "key" "ip" ≡ denied_per_ip
unfolding can_accept register add_connection count put
second_client_denied = refl

abbrev one_admitted : Route
one_admitted = (admit limits nobody request).0

-- Two requests of one address, both checked before either is registered.
abbrev two_admitted : Route
two_admitted = (admit limits one_admitted request).0

abbrev two_clients : Manager
two_clients = (register 11 first_client "b" request).0

-- The cap of an address is one.
two_clients_pass : count (of_ip "ip") two_clients.connections ≡ 2
unfolding register add_connection count put
two_clients_pass = refl

both_on_way : two_admitted ≡ record { manager = new_manager; admitted = request ∷ request ∷ [] }
unfolding admit can_accept count
both_on_way = refl

one_on_way : length one_admitted.admitted ≡ 1
unfolding admit can_accept count
one_on_way = refl

two_clients_reached : Reach limits 2 (record { manager = two_clients; admitted = [] })
two_clients_reached =
    let checked = next start (checks nobody request (omega arith)) in
    let both =
      subst (Reach limits 2) both_on_way
        (next checked (checks one_admitted request (omega (arith, one_on_way)))) in
    next (next both (registers new_manager [] request (request ∷ []) 10 "a"))
      (registers first_client [] request [] 11 "b")

Reach-IsWithin_example : IsWithin limits 2 two_clients
Reach-IsWithin_example = Reach-IsWithin (omega arith) two_clients_reached

abbrev event_at : ℕ → Payload
event_at t = record { event_type = "task.created"; timestamp = t; about_project = some 1 }

-- The buffer holds the last two of three.
abbrev three : List (ℕ × Payload)
three = (5, event_at 5) ∷ (6, event_at 6) ∷ (7, event_at 7) ∷ []

three-nonempty : (broadcast_all limits new_manager three).event_buffer ≢ []
unfolding broadcast_all broadcast prune_event_buffer keep_last drop_first
three-nonempty h = ground (arith, h)

no_gap_after_one : gap "a" 1 (broadcast_all limits new_manager three).event_buffer ≡ []
unfolding broadcast_all gap broadcast prune_event_buffer keep_last drop_first
no_gap_after_one = refl

missed_complete_example :
    missed 1 everything (broadcast_all limits new_manager three).event_buffer
    ≡ missed 1 everything (history 1 three)
missed_complete_example =
    missed_complete limits three "a" 1 everything (omega arith, (omega arith, (omega arith, tt)))
      (omega arith) three-nonempty no_gap_after_one
