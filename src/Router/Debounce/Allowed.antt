-- ===== src/Router/Debounce/Allowed.antt =====
-- What a sequence of calls and ticks may do to the pushes that wait and to what is resolved.
use wood_fired_tasks.Prelude.{ℕ, suc, ◌+◌, ◌≤◌, ◌≡◌, some, List, [], ◌∷◌, ◌++◌}
use wood_fired_tasks.Prelude.Text.{Text}
use wood_fired_tasks.Router.Debounce.{
  Debouncer, Resolved, compound_key, push, tick, flush_all, cancel_all,
}
use wood_fired_tasks.Router.Debounce.Pending.{Push, group, others, latest, settle_group, Settles}

pub data Action : Type 0 where
  pushes : Text → Text → ℕ → ℕ → Action
  ticks : ℕ → ℕ → Action
  flushes cancels : Action

abbrev pub do_action : Action → Debouncer → Debouncer
do_action (pushes rule event payload now) s = push rule event payload now s
do_action (ticks handle now) s = tick handle now s
do_action flushes s = flush_all s
do_action cancels s = cancel_all s

abbrev pub run : List Action → Debouncer → Debouncer
run [] s = s
run (a ∷ acts) s = run acts (do_action a s)

-- What an action may do to the pushes that wait and to what is resolved. The promise of a push is
-- named by a number that no push has had before.
pub data Allowed (window issued : ℕ) (ps : List Push) (out : List Resolved)
    : Action → ℕ → List Push → List Resolved → Type 0 where
  joins :
      (rule event : Text) (payload now : ℕ)
      → Allowed window issued ps out
          (pushes rule event payload now)
          (suc issued)
          (ps
            ++ record {
              key = compound_key rule event;
              payload = payload;
              promise = issued;
              at = now;
            }
              ∷ [])
          out
  expires :
      (handle now : ℕ) (k : Text) (last : Push)
      → latest (group k ps) ≡ some last
      → last.at + window ≤ now
      → Allowed window issued ps out
          (ticks handle now)
          issued
          (others k ps)
          (out ++ settle_group (group k ps))
  stays : (handle now : ℕ) → Allowed window issued ps out (ticks handle now) issued ps out
  flushed :
      {more : List Resolved}
      → Settles ps more
      → Allowed window issued ps out flushes issued [] (out ++ more)
  cancelled : Allowed window issued ps out cancels issued [] out

pub data AllowedRun (window : ℕ)
    : ℕ → List Push → List Resolved → List Action → List Push → List Resolved → Type 0 where
  ends : {n : ℕ} {ps : List Push} {out : List Resolved} → AllowedRun window n ps out [] ps out
  steps :
      {n m : ℕ} {ps qs rs : List Push} {out mid end : List Resolved} {a : Action}
      {acts : List Action}
      → Allowed window n ps out a m qs mid
      → AllowedRun window m qs mid acts rs end
      → AllowedRun window n ps out (a ∷ acts) rs end
