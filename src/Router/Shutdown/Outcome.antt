-- ===== src/Router/Shutdown/Outcome.antt =====
-- A shutdown comes to one result, once.
use wood_fired_tasks.Prelude.{
  ℕ, zero, suc, ◌≡◌, refl, sym, ap, subst, ◌∙◌, inl, inr, ◌⊎◌, Bool, Option, none, some, List, [],
  ◌∷◌, arith, has, Bool-cases,
}
use wood_fired_tasks.Router.Shutdown.{
  Phase, idle, draining, done, Shutdown, new_shutdown, finish, handle_signal, deliver_signal,
  grace_tick, ask, settle_from, settle_callback, on_drain, wait_for_shutdown, dispose,
}
use wood_fired_tasks.Router.Shutdown.Events.{
  ShutdownEvent, signals, ticks, settles, registers, waits, disposes, handle, run, IsTold, Agrees,
  IsSane,
}
use wood_fired_tasks.Router.Shutdown.Steps.{
  at, grace_tick-off, grace_tick-on, handle-IsSane, run-IsSane,
}

-- What is told does not change.
abbrev pub Keeps : Shutdown → Shutdown → Type 0
Keeps s after = (after.phase ≡ done) × (after.waiter ≡ s.waiter) × (after.exits ≡ s.exits)

settle-Keeps : (u : Option ℕ) (s : Shutdown) → Keeps s (settle_from u (at done s))
settle-Keeps none s = (refl, refl, refl)
settle-Keeps (some zero) s = (refl, refl, refl)
settle-Keeps (some (suc n)) s = (refl, refl, refl)

handle-Keeps :
    (e : ShutdownEvent) (s : Shutdown) → IsTold (at done s) → Keeps s (handle e (at done s))
unfolding deliver_signal handle_signal settle_callback on_drain wait_for_shutdown dispose
handle-Keeps (signals sig) s h = elim (Bool-cases (has s.registered sig)) [
  | inl heard ↦ rw (heard) (refl, refl, refl)
  | inr out ↦ rw (out) (refl, refl, refl)
]
handle-Keeps ticks s h =
    subst (Keeps s) (sym (grace_tick-off (at done s) h.disarmed)) (refl, refl, refl)
handle-Keeps settles s h = settle-Keeps s.running s
handle-Keeps registers s h = (refl, refl, refl)
handle-Keeps waits s h = (refl, ap ask h.is_told ∙ sym h.is_told, refl)
handle-Keeps disposes s h = (refl, refl, refl)

run-Keeps :
    (es : List ShutdownEvent) (s : Shutdown) → IsSane s → s.phase ≡ done → Keeps s (run es s)
run-Keeps [] s h is = (is, refl, refl)
run-Keeps (e ∷ es) s h is =
    let same : at done s ≡ s = ap (λ p. at p s) (sym is) in
    let told_now = subst IsTold (sym same) (subst (λ p. Agrees p s) is h) in
    let (ended, waiter, exits) =
      subst (λ x. Keeps s (handle e x)) same (handle-Keeps e s told_now) in
    let (ended', waiter', exits') = run-Keeps es (handle e s) (handle-IsSane e s h) ended in
    (ended', waiter' ∙ waiter, exits' ∙ exits)

-- The grace timer ends a drain that hangs.
grace-ends :
    (p : Phase) (s : Shutdown)
    → p ≡ draining
    → Agrees p (at p s)
    → ((grace_tick (at p s)).phase ≡ done) ⊎ (s.registered ≡ [])
unfolding finish
grace-ends idle s is h = absurd (ground (arith, is))
grace-ends draining s is (_, (_, inl on)) =
    inl (ap (λ (x : Shutdown). x.phase) (grace_tick-on (at draining s) on))
grace-ends draining s is (_, (_, inr gone)) = inr gone
grace-ends done s is h = absurd (ground (arith, is))

-- After any sequence of signals, ticks of the grace timer, settled callbacks and calls: until the
-- shutdown is done nobody is told and the process does not exit. Once it is done, a waiter is told one
-- result and the process exits once, with 0 exactly for a clean one, whatever comes after; a clean
-- result names the first signal, and all callbacks of the drain have settled. While it drains, the
-- grace timer ends it, unless the handlers were disposed of.
pub run_tells_once :
    (heard : List ℕ) (has_exit : Bool) (es more : List ShutdownEvent)
    → IsSane (run es (new_shutdown heard has_exit))
      × ((run es (new_shutdown heard has_exit)).phase ≡ done
          → Keeps
              (run es (new_shutdown heard has_exit))
              (run more (run es (new_shutdown heard has_exit))))
      × ((run es (new_shutdown heard has_exit)).phase ≡ draining
          → ((grace_tick (run es (new_shutdown heard has_exit))).phase ≡ done)
            ⊎ ((run es (new_shutdown heard has_exit)).registered ≡ []))
run_tells_once heard has_exit es more =
    let s = run es (new_shutdown heard has_exit) in
    let sane = run-IsSane es (new_shutdown heard has_exit) ((inl refl, refl), refl, refl) in
    (sane, run-Keeps more s sane, λ is. grace-ends s.phase s is sane)
