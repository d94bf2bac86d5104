-- ===== src/Router/Debounce/Runs.antt =====
-- Any sequence of pushes, ticks, flushes and cancellations.
use wood_fired_tasks.Prelude.{
  ℕ, suc, ◌+◌, ◌≤◌, ◌≡◌, refl, sym, ap, subst, ◌∙◌, inl, inr, true, Option, none, some, List, [],
  ◌∷◌, ◌++◌, arith, leb, Bool-cases,
}
use wood_fired_tasks.Prelude.Text.{Text}
use wood_fired_tasks.Router.Debounce.{
  Bucket, Buckets, Timer, Debouncer, get, compound_key, push_at, push, tick_timer, tick, flush_all,
  clear_each, cancel_all, new_debouncer,
}
use wood_fired_tasks.Router.Debounce.Allowed.{
  Action, pushes, ticks, flushes, cancels, do_action, run, Allowed, joins, expires, stays, flushed,
  cancelled, AllowedRun, ends, steps,
}
use wood_fired_tasks.Router.Debounce.Pending.{Push, group, others, latest, settle_group}
use wood_fired_tasks.Router.Debounce.Pushes.{push_at-IsHolding}
use wood_fired_tasks.Router.Debounce.Distinct.{uniq_keys, uniq_keys-set}
use wood_fired_tasks.Router.Debounce.Actions.{
  IsSound, tick_timer-Expires, flush_each-Settles, clear_each-on, clear_each-off, armed-resolves,
}

record IsStep (s after : Debouncer) (pending : List Push) (a : Action) : Type 0 where
  left : List Push
  issued : ℕ
  allowed : Allowed s.window_ms s.next pending s.resolved a issued left after.resolved
  sound : IsSound after left
  same_window : after.window_ms ≡ s.window_ms
  same_next : after.next ≡ issued

-- No timer is armed once all are cleared.
cancel-off :
    (s : Debouncer) (pending : List Push) (i : ℕ) (t : Timer)
    → IsSound s pending
    → ¬ ((clear_each s.buckets s).timers i ≡ some t)
cancel-off s pending i t sound on =
    let was_on = clear_each-on s.buckets s i t on in
    let (b, at, is) = sound.holding.armed_of i t was_on in
    clear_each-off s.buckets s t.key b t at (ap (clear_each s.buckets s).timers is ∙ on)

cancel-fields :
    (m : Buckets) (s : Debouncer)
    → ((clear_each m s).resolved ≡ s.resolved)
      × ((clear_each m s).window_ms ≡ s.window_ms)
      × ((clear_each m s).next ≡ s.next)
unfolding clear_each
cancel-fields [] s = (refl, refl, refl)
cancel-fields ((k, b) ∷ m) s = cancel-fields m _

cancel-IsSound :
    (s : Debouncer) (pending : List Push) → IsSound s pending → IsSound (cancel_all s) []
unfolding cancel_all get uniq_keys group
cancel-IsSound s pending sound = record {
  holding = record {
    held = λ k b at. absurd (ground (arith, at));
    free = λ k at. refl;
    armed_of = λ i t on. absurd (cancel-off s pending i t sound on);
    bounded = λ i t on. absurd (cancel-off s pending i t sound on);
  };
  distinct = refl;
}

push-fields :
    (k : Text) (payload now : ℕ) (o : Option Bucket) (s : Debouncer)
    → ((push_at k payload now o s).resolved ≡ s.resolved)
      × ((push_at k payload now o s).window_ms ≡ s.window_ms)
      × ((push_at k payload now o s).next ≡ suc s.next)
      × (uniq_keys s.buckets ≡ true → uniq_keys (push_at k payload now o s).buckets ≡ true)
push-fields k payload now none s = (refl, refl, refl, uniq_keys-set s.buckets k _)
push-fields k payload now (some b) s = (refl, refl, refl, uniq_keys-set s.buckets k _)

tick-IsStep :
    (s : Debouncer) (pending : List Push) (handle now : ℕ) (o : Option Timer)
    → IsSound s pending
    → s.timers handle ≡ o
    → IsStep s (tick_timer o handle now s) pending (ticks handle now)
tick-IsStep s pending handle now none sound is = record {
  left = pending;
  issued = s.next;
  allowed = stays handle now;
  sound = sound;
  same_window = refl;
  same_next = refl;
}
tick-IsStep s pending handle now (some t) sound is = elim (Bool-cases (leb t.due now)) [
  | inl due ↦
      let e = tick_timer-Expires s pending handle now t sound is due in
      record {
        left = others t.key pending;
        issued = s.next;
        allowed =
            subst
              (Allowed s.window_ms s.next pending s.resolved (ticks handle now) s.next
                (others t.key pending))
              (sym e.resolves) (expires handle now t.key e.last e.is_last e.in_time);
        sound = e.sound;
        same_window = e.same_window;
        same_next = e.same_next;
      }
  | inr early ↦
      let same : tick_timer (some t) handle now s ≡ s = rw (early) refl in
      subst (λ after. IsStep s after pending (ticks handle now)) (sym same)
        (record {
          left = pending;
          issued = s.next;
          allowed = stays handle now;
          sound = sound;
          same_window = refl;
          same_next = refl;
        })
]

do_action-IsStep :
    (a : Action) (s : Debouncer) (pending : List Push)
    → IsSound s pending
    → IsStep s (do_action a s) pending a
unfolding push tick flush_all cancel_all
do_action-IsStep (pushes rule event payload now) s pending sound =
    let key = compound_key rule event in
    let (resolved, window, next, distinct) = push-fields key payload now (get s.buckets key) s in
    record {
      left = pending ++ record { key = key; payload = payload; promise = s.next; at = now } ∷ [];
      issued = suc s.next;
      allowed =
          subst
            (Allowed s.window_ms s.next pending s.resolved (pushes rule event payload now)
              (suc s.next)
              (pending ++ record { key = key; payload = payload; promise = s.next; at = now } ∷ []))
            (sym resolved) (joins rule event payload now);
      sound = record {
        holding = push_at-IsHolding s pending key payload now sound.holding;
        distinct = distinct sound.distinct;
      };
      same_window = window;
      same_next = next;
    }
do_action-IsStep (ticks handle now) s pending sound =
    tick-IsStep s pending handle now (s.timers handle) sound refl
do_action-IsStep flushes s pending sound =
    let (more, order, resolved, sound', window, next) =
      flush_each-Settles s.buckets s pending refl sound in
    record {
      left = [];
      issued = s.next;
      allowed =
          subst (Allowed s.window_ms s.next pending s.resolved flushes s.next []) (sym resolved)
            (flushed order);
      sound = sound';
      same_window = window;
      same_next = next;
    }
do_action-IsStep cancels s pending sound = record {
  left = [];
  issued = s.next;
  allowed =
      subst (Allowed s.window_ms s.next pending s.resolved cancels s.next [])
        (sym (cancel-fields s.buckets s).0) cancelled;
  sound = cancel-IsSound s pending sound;
  same_window = (cancel-fields s.buckets s).1;
  same_next = (cancel-fields s.buckets s).2;
}

run-AllowedRun :
    (acts : List Action) (s : Debouncer) (pending : List Push)
    → IsSound s pending
    → (left : List Push) × AllowedRun s.window_ms s.next pending s.resolved acts left
        (run acts s).resolved
      × IsSound (run acts s) left
      × ((run acts s).window_ms ≡ s.window_ms)
run-AllowedRun [] s pending sound = (pending, ends, sound, refl)
run-AllowedRun (a ∷ acts) s pending sound =
    let step = do_action-IsStep a s pending sound in
    let (left, rest, sound', window) = run-AllowedRun acts (do_action a s) step.left step.sound in
    (
      left,
      steps step.allowed (
          subst
            (λ w.
              AllowedRun w step.issued step.left (do_action a s).resolved acts left
                (run acts (do_action a s)).resolved)
            step.same_window
            (subst
              (λ n.
                AllowedRun (do_action a s).window_ms n step.left (do_action a s).resolved acts left
                  (run acts (do_action a s)).resolved)
              step.same_next rest)),
      sound',
      window ∙ step.same_window,
    )

new-IsSound : (window : ℕ) → IsSound (new_debouncer window) []
unfolding get group uniq_keys
new-IsSound window = record {
  holding = record {
    held = λ k b at. absurd (ground (arith, at));
    free = λ k at. refl;
    armed_of = λ i t on. absurd (ground (arith, on));
    bounded = λ i t on. absurd (ground (arith, on));
  };
  distinct = refl;
}

-- Over any sequence of pushes, ticks of timers, flushes and cancellations, what is resolved is what
-- the pushes that wait allow: a tick resolves all pushes of one key at once, with the payload of the
-- last and their number, no earlier than a window after the last, or nothing; a flush resolves every
-- key so; a cancellation drops the pushes. And for each key that waits there is a timer whose tick, a
-- window after the last push or later, does resolve its pushes. Each push has its own promise.
pub run_resolves :
    (window : ℕ) (acts : List Action)
    → (left : List Push) × AllowedRun window 0 [] [] acts left
        (run acts (new_debouncer window)).resolved
      × ((k : Text) (last : Push)
          → latest (group k left) ≡ some last
          → (handle : ℕ) × ((now : ℕ)
              → last.at + window ≤ now
              → (tick handle now (run acts (new_debouncer window))).resolved
                ≡ (run acts (new_debouncer window)).resolved ++ settle_group (group k left)))
run_resolves window acts =
    let end = run acts (new_debouncer window) in
    let (left, allowed, sound, same) =
      run-AllowedRun acts (new_debouncer window) [] (new-IsSound window) in
    (
      left,
      allowed,
      λ k last is_last.
          let (handle, resolves) = armed-resolves end left k last sound is_last in
          (handle, λ now late. resolves now (subst (λ w. last.at + w ≤ now) (sym same) late)),
    )
