-- ===== src/Router/Shutdown/Events.antt =====
-- Sequences of events, and what holds in each phase.
use wood_fired_tasks.Prelude.{ℕ, ◌≡◌, ◌⊎◌, true, false, none, some, List, [], ◌∷◌, if◌then◌else◌}
use wood_fired_tasks.Router.Shutdown.{
  Phase, idle, draining, done, signal, ShutdownResult, nobody, waiting, told, Shutdown, exit_code,
  deliver_signal, grace_tick, settle_callback, on_drain, wait_for_shutdown, dispose,
}

pub data ShutdownEvent : Type 0 where
  signals : ℕ → ShutdownEvent
  ticks settles registers waits disposes : ShutdownEvent

abbrev pub handle : ShutdownEvent → Shutdown → Shutdown
handle (signals sig) s = deliver_signal sig s
handle ticks s = grace_tick s
handle settles s = settle_callback s
handle registers s = on_drain s
handle waits s = wait_for_shutdown s
handle disposes s = dispose s

abbrev pub run : List ShutdownEvent → Shutdown → Shutdown
run [] s = s
run (e ∷ es) s = run es (handle e s)

-- Nobody is told yet.
abbrev pub IsOpen : Shutdown → Type 0
IsOpen s = ((s.waiter ≡ nobody) ⊎ (s.waiter ≡ waiting)) × (s.exits ≡ [])

-- Whoever waits is told the result, and so is the process. It is clean only if all callbacks of the
-- drain have settled, and then it names the first signal.
pub record IsTold (s : Shutdown) : Type 0 where
  pub result : ShutdownResult
  pub is_told : s.waiter ≡ told result
  pub exited : s.exits ≡ (if s.has_exit then exit_code result ∷ [] else [])
  pub disarmed : s.grace_timer ≡ false
  pub clean :
      result.drained_cleanly ≡ true
      → (s.running ≡ none) × ((sig : ℕ) × (s.first_signal ≡ some sig) × (result.cause ≡ signal sig))

-- While it drains, the drain runs, and the timer is armed unless the handlers were disposed of.
abbrev pub IsDraining : Shutdown → Type 0
IsDraining s =
    ((sig n : ℕ) × (s.first_signal ≡ some sig) × (s.running ≡ some n))
    × ((s.grace_timer ≡ true) ⊎ (s.registered ≡ []))

abbrev pub Agrees : Phase → Shutdown → Type 0
Agrees idle s = IsOpen s × (s.running ≡ none) × (s.grace_timer ≡ false)
Agrees draining s = IsOpen s × IsDraining s
Agrees done s = IsTold s

abbrev pub IsSane : Shutdown → Type 0
IsSane s = Agrees s.phase s
