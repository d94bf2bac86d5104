-- ===== src/Router/Examples.antt =====
-- The router's modules on small inputs.
use wood_fired_tasks.Prelude.{
  ◌+◌, ◌-◌, ◌*◌, ◌≤◌, ◌≡◌, refl, none, some, true, false, List, [], ◌∷◌, ◌++◌, arith,
}
use wood_fired_tasks.Prelude.Text.{Text, codes}
use wood_fired_tasks.Router.IdempotencyStore.{
  Dispatch, succeeded, status_of, claim, complete, finish_row,
}
use wood_fired_tasks.Router.IdempotencyStore.AtMostOnce.{
  Access, to_claim, to_complete, to_replay, grants, run, run_all,
}
use wood_fired_tasks.Router.IdempotencyStore.Finished.{fires, finished_not_fired}
use wood_fired_tasks.Router.SseParser.{newline, fresh, feed, flush, feed_all, parser_runs}
use wood_fired_tasks.Router.SseParser.Chunks.{feed_all_chunking}
use wood_fired_tasks.Router.SseParser.Frames.{
  Message, message_lines, wire, IsSendable, received, feed-wire,
}
use wood_fired_tasks.Router.RateLimit.{RateLimiter, parts, new_limiter, try_acquire, limiter_runs}
use wood_fired_tasks.Router.RateLimit.Bounds.{
  Call, granted, granted-le_rate, try_acquire_after_wait,
}

abbrev hello : Message
hello = record {
  id = some (codes "7");
  event = some (codes "task.created");
  first = codes "{";
  others = codes "}" ∷ [];
}

hello-IsSendable : IsSendable hello
unfolding parser_runs
hello-IsSendable = record {
  plain_id = ground arith;
  id_without_nul = refl;
  plain_event = ground arith;
  plain_data = ground arith;
}

feed-wire_example : feed fresh (wire (message_lines hello)) ≡ (fresh, received hello ∷ [])
feed-wire_example = feed-wire hello hello-IsSendable

abbrev stream : Text
stream = codes "data: a" ++ newline ∷ newline ∷ []

feed_all_chunking_example :
    feed_all fresh (codes "da" ∷ codes "ta: a" ∷ (newline ∷ newline ∷ []) ∷ [])
    ≡ feed_all fresh (stream ∷ [])
feed_all_chunking_example =
    feed_all_chunking (codes "da" ∷ codes "ta: a" ∷ (newline ∷ newline ∷ []) ∷ []) (stream ∷ [])
      refl

retry_runs :
    ((feed fresh (codes "retry: 30" ++ newline ∷ newline ∷ [])).1
      ≡ record { id = none; event = none; payload = []; retry = some 30 } ∷ [])
    × ((feed fresh (codes "retry: 3x" ++ newline ∷ newline ∷ [])).1 ≡ [])
    × ((feed fresh (codes ": ping" ++ newline ∷ newline ∷ [])).1 ≡ [])
    × ((flush (feed fresh (codes "data:x")).0).1
        ≡ record { id = none; event = none; payload = codes "x"; retry = none } ∷ [])
unfolding parser_runs
retry_runs = (refl, refl, refl, refl)

abbrev calls : List Call
calls =
    record { rule_id = "a"; now = 0 }
    ∷ record { rule_id = "b"; now = 0 }
    ∷ record { rule_id = "a"; now = 10 }
    ∷ record { rule_id = "a"; now = 30000 }
    ∷ []

granted-le_rate_example :
    granted (new_limiter (some 2) (some 1)) calls "a" * parts ≤ 1 * parts + 2 * (30000 - 0)
granted-le_rate_example = granted-le_rate 2 1 calls "a" 0 30000 (omega arith)

abbrev spent : RateLimiter
spent = record {
  tokens_per_minute = 2;
  burst_capacity = 1;
  buckets = ("a", record { tokens = 0; last_refill_ms = 0 }) ∷ [];
}

try_acquire_runs :
    (try_acquire (new_limiter (some 2) (some 1)) 0 "a" ≡ (spent, true))
    × ((try_acquire spent 10 "a").1 ≡ false)
    × ((try_acquire spent 10 "b").1 ≡ true)
unfolding limiter_runs
try_acquire_runs = (refl, refl, refl)

try_acquire_after_wait_example : (try_acquire spent 30000 "a").1 ≡ true
unfolding limiter_runs
try_acquire_after_wait_example =
    try_acquire_after_wait spent 30000 "a" (record { tokens = 0; last_refill_ms = 0 }) refl
      (omega arith) (omega arith)

abbrev dispatch : Dispatch
dispatch = record {
  rendered = "{}";
  about_task = some 7;
  new_status = some "done";
  emitted_at_ms = some 90000;
}

abbrev accesses : List Access
accesses =
    to_claim 5 "notify" "e1" dispatch
    ∷ to_claim 6 "notify" "e1" dispatch
    ∷ to_complete 9 "notify" "e1" succeeded
    ∷ to_claim 12 "notify" "e1" dispatch
    ∷ []

accesses_finish : status_of (run_all [] accesses) "notify" "e1" ≡ some succeeded
unfolding run_all run claim complete finish_row status_of
accesses_finish = refl

finished_not_fired_example :
    (grants [] "notify" "e1" accesses ≤ 1)
    × (fires (run_all [] accesses) "notify" "e1" (to_replay 20 100 ∷ accesses) ≡ 0)
finished_not_fired_example =
    finished_not_fired "notify" "e1" accesses (to_replay 20 100 ∷ accesses) succeeded
      accesses_finish refl
