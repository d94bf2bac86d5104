-- ===== src/Router/Shutdown.antt =====
-- packages/wft-router/src/dispatch/graceful-shutdown.ts: GracefulShutdown. Signals are numbers. The
-- host gives a signal to the handler that is registered for it, runs the grace timer while it is
-- armed, and settles the callbacks of a drain one by one. The process has `off`, as Node's does, and
-- `exit` where `has_exit` says so.
pub mod Events
pub mod Steps
pub mod Outcome
mod Examples
use wood_fired_tasks.Prelude.{
  ℕ, zero, suc, Bool, true, false, Option, none, some, List, [], ◌∷◌, ◌++◌, has, if◌then◌else◌,
}

pub data Phase : Type 0 where
  idle draining done : Phase

pub data Cause : Type 0 where
  grace_timeout : Cause
  signal : ℕ → Cause

pub record ShutdownResult : Type 0 where
  pub cause : Cause
  pub drained_cleanly : Bool

-- shutdownPromise: null, not resolved, or resolved with the result.
pub data Waiter : Type 0 where
  nobody waiting : Waiter
  told : ShutdownResult → Waiter

-- `running` counts the callbacks of the drain that have not settled, once it runs.
pub record Shutdown : Type 0 where
  pub phase : Phase
  pub drain_callbacks : ℕ
  pub registered : List ℕ
  pub first_signal : Option ℕ
  pub grace_timer : Bool
  pub running : Option ℕ
  pub waiter : Waiter
  pub has_exit : Bool
  pub exits : List ℕ

abbrev pub new_shutdown : List ℕ → Bool → Shutdown
new_shutdown signals has_exit = record {
  phase = idle;
  drain_callbacks = 0;
  registered = signals;
  first_signal = none;
  grace_timer = false;
  running = none;
  waiter = nobody;
  has_exit = has_exit;
  exits = [];
}

-- A promise is resolved once.
abbrev pub tell : ShutdownResult → Waiter → Waiter
tell result (told before) = told before
tell result _ = told result

abbrev pub exit_code : ShutdownResult → ℕ
exit_code result = if result.drained_cleanly then 0 else 1

abbrev pub finish_from : Phase → ShutdownResult → Shutdown → Shutdown
finish_from done result s = s
finish_from _ result s = record s {
  phase = done;
  grace_timer = false;
  waiter = tell result s.waiter;
  exits = if s.has_exit then s.exits ++ exit_code result ∷ [] else s.exits;
}

unfoldable pub finish : ShutdownResult → Shutdown → Shutdown
finish result s = finish_from s.phase result s

abbrev pub signal_from : Phase → ℕ → Shutdown → Shutdown
signal_from done sig s = s
signal_from draining sig s =
    finish_from s.phase (record { cause = signal sig; drained_cleanly = false }) s
signal_from idle sig s = record s {
  phase = draining;
  first_signal = some sig;
  grace_timer = true;
  running = some s.drain_callbacks;
}

unfoldable pub handle_signal : ℕ → Shutdown → Shutdown
handle_signal sig s = signal_from s.phase sig s

-- The host's signal.
unfoldable pub deliver_signal : ℕ → Shutdown → Shutdown
deliver_signal sig s = if has s.registered sig then handle_signal sig s else s

-- The grace timer, where it is armed.
unfoldable pub grace_tick : Shutdown → Shutdown
grace_tick s =
    if s.grace_timer
    then finish (record { cause = grace_timeout; drained_cleanly = false })
        (record s { grace_timer = false })
    else s

-- `firstSignal ?? 'SIGTERM'`, which is number 15.
abbrev pub drain_cause : Option ℕ → Cause
drain_cause none = signal 15
drain_cause (some sig) = signal sig

-- A callback settles, or runDrain goes on after the last.
abbrev pub settle_from : Option ℕ → Shutdown → Shutdown
settle_from none s = s
settle_from (some (suc n)) s = record s { running = some n }
settle_from (some zero) s =
    finish_from s.phase (record { cause = drain_cause s.first_signal; drained_cleanly = true })
      (record s { running = none })

unfoldable pub settle_callback : Shutdown → Shutdown
settle_callback s = settle_from s.running s

unfoldable pub on_drain : Shutdown → Shutdown
on_drain s = record s { drain_callbacks = suc s.drain_callbacks }

abbrev pub ask : Waiter → Waiter
ask nobody = waiting
ask other = other

unfoldable pub wait_for_shutdown : Shutdown → Shutdown
wait_for_shutdown s = record s { waiter = ask s.waiter }

unfoldable pub dispose : Shutdown → Shutdown
dispose s = record s { registered = []; grace_timer = false }
