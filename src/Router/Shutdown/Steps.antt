-- ===== src/Router/Shutdown/Steps.antt =====
-- Each event keeps what holds in each phase.
use wood_fired_tasks.Prelude.{
  ℕ, zero, suc, ◌≡◌, refl, sym, ap, subst, ◌∙◌, inl, inr, ◌⊎◌, Bool, true, false, Option, none,
  some, List, [], ◌∷◌, ◌++◌, arith, has, Bool-cases, if◌then◌else◌,
}
use wood_fired_tasks.Router.Shutdown.{
  Phase, idle, draining, done, grace_timeout, signal, ShutdownResult, Waiter, nobody, waiting, told,
  Shutdown, exit_code, finish_from, finish, signal_from, handle_signal, deliver_signal, grace_tick,
  tell, ask, drain_cause, settle_from, settle_callback, on_drain, wait_for_shutdown, dispose,
}
use wood_fired_tasks.Router.Shutdown.Events.{
  ShutdownEvent, signals, ticks, settles, registers, waits, disposes, handle, run, IsOpen, IsTold,
  Agrees, IsSane,
}

-- The state with a phase.
abbrev pub at : Phase → Shutdown → Shutdown
at p s = record s { phase = p }

open-told : (w : Waiter) (r : ShutdownResult) → (w ≡ nobody) ⊎ (w ≡ waiting) → tell r w ≡ told r
open-told w r (inl is) = ap (tell r) is
open-told w r (inr is) = ap (tell r) is

exit-once :
    (has_exit : Bool) (exits : List ℕ) (code : ℕ)
    → exits ≡ []
    → (if has_exit then exits ++ code ∷ [] else exits) ≡ (if has_exit then code ∷ [] else [])
exit-once true exits code h = ap (λ l. l ++ code ∷ []) h
exit-once false exits code h = h

-- Whoever finishes first tells its result.
finish-IsTold :
    (s : Shutdown) (r : ShutdownResult)
    → IsOpen s
    → (r.drained_cleanly ≡ true
        → (s.running ≡ none) × ((sig : ℕ) × (s.first_signal ≡ some sig) × (r.cause ≡ signal sig)))
    → IsTold (finish_from draining r (at draining s))
finish-IsTold s r (untold, no_exit) clean = record {
  result = r;
  is_told = open-told s.waiter r untold;
  exited = exit-once s.has_exit s.exits (exit_code r) no_exit;
  disarmed = refl;
  clean = clean;
}

signal_from-IsSane :
    (p : Phase) (s : Shutdown) (sig : ℕ) → Agrees p (at p s) → IsSane (signal_from p sig (at p s))
signal_from-IsSane idle s sig (open_now, _, _) =
    (open_now, ((sig, s.drain_callbacks, refl, refl), inl refl))
signal_from-IsSane draining s sig (open_now, _) =
    finish-IsTold s (record { cause = signal sig; drained_cleanly = false }) open_now
      (λ h. absurd (ground (arith, h)))
signal_from-IsSane done s sig h = h

deliver_signal-IsSane :
    (p : Phase) (s : Shutdown) (sig : ℕ) → Agrees p (at p s) → IsSane (deliver_signal sig (at p s))
unfolding deliver_signal handle_signal
deliver_signal-IsSane p s sig h = elim (Bool-cases (has s.registered sig)) [
  | inr out ↦ rw (out) h
  | inl heard ↦ rw (heard) (signal_from-IsSane p s sig h)
]

abbrev pub timed_out : ShutdownResult
timed_out = record { cause = grace_timeout; drained_cleanly = false }

pub grace_tick-off : (s : Shutdown) → s.grace_timer ≡ false → grace_tick s ≡ s
unfolding grace_tick
grace_tick-off s h =
    ap (λ b. if b then finish timed_out (record s { grace_timer = false }) else s) h

pub grace_tick-on :
    (s : Shutdown)
    → s.grace_timer ≡ true
    → grace_tick s ≡ finish timed_out (record s { grace_timer = false })
unfolding grace_tick
grace_tick-on s h = ap (λ b. if b then finish timed_out (record s { grace_timer = false }) else s) h

tick-IsSane : (p : Phase) (s : Shutdown) → Agrees p (at p s) → IsSane (grace_tick (at p s))
unfolding finish
tick-IsSane idle s h = subst IsSane (sym (grace_tick-off (at idle s) h.2)) h
tick-IsSane draining s (open_now, h) = elim (Bool-cases s.grace_timer) [
  | inl on ↦ subst IsSane (sym (grace_tick-on (at draining s) on)) (
      finish-IsTold (record s { grace_timer = false }) timed_out open_now
        (λ c. absurd (ground (arith, c))))
  | inr off ↦ subst IsSane (sym (grace_tick-off (at draining s) off)) (open_now, h)
]
tick-IsSane done s h = subst IsSane (sym (grace_tick-off (at done s) h.disarmed)) h

settle-IsSane :
    (p : Phase) (u : Option ℕ) (s : Shutdown)
    → s.running ≡ u
    → Agrees p (at p s)
    → IsSane (settle_from u (at p s))
settle-IsSane p none s is h = h
settle-IsSane idle (some n) s is (_, off, _) = absurd (ground (arith, sym off ∙ is))
settle-IsSane draining (some (suc n)) s is (open_now, ((sig, m, named, _), armed)) =
    (open_now, ((sig, n, named, refl), armed))
settle-IsSane draining (some zero) s is (open_now, ((sig, m, named, _), armed)) =
    finish-IsTold (record s { running = none })
      (record { cause = drain_cause s.first_signal; drained_cleanly = true }) open_now
      (λ _. (refl, (sig, named, ap drain_cause named)))
settle-IsSane done (some zero) s is h = record {
  result = h.result;
  is_told = h.is_told;
  exited = h.exited;
  disarmed = h.disarmed;
  clean = λ c. (refl, (h.clean c).1);
}
settle-IsSane done (some (suc n)) s is h = record {
  result = h.result;
  is_told = h.is_told;
  exited = h.exited;
  disarmed = h.disarmed;
  clean = λ c. absurd (ground (arith, sym (h.clean c).0 ∙ is));
}

ask-open : (w : Waiter) → (w ≡ nobody) ⊎ (w ≡ waiting) → (ask w ≡ nobody) ⊎ (ask w ≡ waiting)
ask-open w (inl is) = inr (ap ask is)
ask-open w (inr is) = inr (ap ask is)

wait-IsSane : (p : Phase) (s : Shutdown) → Agrees p (at p s) → IsSane (wait_for_shutdown (at p s))
unfolding wait_for_shutdown
wait-IsSane idle s ((untold, no_exit), off, unarmed) =
    ((ask-open s.waiter untold, no_exit), off, unarmed)
wait-IsSane draining s ((untold, no_exit), h) = ((ask-open s.waiter untold, no_exit), h)
wait-IsSane done s h = record {
  result = h.result;
  is_told = ap ask h.is_told;
  exited = h.exited;
  disarmed = h.disarmed;
  clean = h.clean;
}

register-IsSane : (p : Phase) (s : Shutdown) → Agrees p (at p s) → IsSane (on_drain (at p s))
unfolding on_drain
register-IsSane idle s h = h
register-IsSane draining s h = h
register-IsSane done s h = record {
  result = h.result;
  is_told = h.is_told;
  exited = h.exited;
  disarmed = h.disarmed;
  clean = h.clean;
}

dispose-IsSane : (p : Phase) (s : Shutdown) → Agrees p (at p s) → IsSane (dispose (at p s))
unfolding dispose
dispose-IsSane idle s h = (h.0, h.1, refl)
dispose-IsSane draining s h = (h.0, (h.1.0, inr refl))
dispose-IsSane done s h = record {
  result = h.result;
  is_told = h.is_told;
  exited = h.exited;
  disarmed = refl;
  clean = h.clean;
}

pub handle-IsSane : (e : ShutdownEvent) (s : Shutdown) → IsSane s → IsSane (handle e s)
unfolding settle_callback
handle-IsSane (signals sig) s h = deliver_signal-IsSane s.phase s sig h
handle-IsSane ticks s h = tick-IsSane s.phase s h
handle-IsSane settles s h = settle-IsSane s.phase s.running s refl h
handle-IsSane registers s h = register-IsSane s.phase s h
handle-IsSane waits s h = wait-IsSane s.phase s h
handle-IsSane disposes s h = dispose-IsSane s.phase s h

pub run-IsSane : (es : List ShutdownEvent) (s : Shutdown) → IsSane s → IsSane (run es s)
run-IsSane [] s h = h
run-IsSane (e ∷ es) s h = run-IsSane es (handle e s) (handle-IsSane e s h)
