-- ===== src/Events/EventBus.antt =====
-- src/events/event-bus.ts: EventBus with its stack of buffers. A payload is only passed on, so a
-- number stands for it. What a body does between the start and the end of a transaction is a script,
-- and so is what a handler does on the bus when an emit calls it; a handler that throws is caught,
-- and so does not show. The handlers that the end of a transaction calls do not call the bus. The log
-- has every call of a handler.
pub mod Heard
pub mod Transactions
use wood_fired_tasks.Prelude.{
  ℕ, Bool, true, false, not, List, [], ◌∷◌, ◌++◌, map, keep, String, str_eq, ◌==◌, if◌then◌else◌,
}

pub record Entry : Type 0 where
  pub event : String
  pub payload : ℕ

-- A subscription; `bypass` is `ignoreTransaction`.
pub record Listener : Type 0 where
  pub id : ℕ
  pub subscribed : String
  pub bypass : Bool

pub record Bus : Type 0 where
  pub listeners : List Listener
  pub buffer_stack : List (List Entry)
  pub log : List (Listener × Entry)

-- `this.emitter.listeners(event)`, those that the test lets through.
abbrev pub matching : (Listener → Bool) → List Listener → Entry → List Listener
matching test ls entry = keep test (keep (λ l. str_eq l.subscribed entry.event) ls)

abbrev pub calls : (Listener → Bool) → List Listener → Entry → List (Listener × Entry)
calls test ls entry = map (λ l. (l, entry)) (matching test ls entry)

abbrev pub anyone : Listener → Bool
anyone l = true

abbrev pub bypasses : Listener → Bool
bypasses l = l.bypass

abbrev pub waits : Listener → Bool
waits l = not l.bypass

-- The push into the active buffer.
unfoldable pub push_active : Bus → Entry → Bus
push_active bus entry = elim bus.buffer_stack [
  | [] ↦ bus
  | active ∷ outer ↦ record bus { buffer_stack = (active ++ entry ∷ []) ∷ outer }
]

-- The delivery of a buffer that is popped off an empty stack.
unfoldable pub flush : List Listener → List Entry → List (Listener × Entry)
flush ls [] = []
flush ls (entry ∷ entries) = calls waits ls entry ++ flush ls entries

-- The `finally` of `runInTransaction`.
unfoldable pub finish : Bool → Bus → Bus
finish threw bus = elim bus.buffer_stack [
  | [] ↦ bus
  | popped ∷ rest ↦ if threw then record bus { buffer_stack = rest } else elim rest [
    | [] ↦ record bus { buffer_stack = []; log = bus.log ++ flush bus.listeners popped }
    | parent ∷ outer ↦ record bus { buffer_stack = (parent ++ popped) ∷ outer }
  ]
]

-- What runs on the bus: emits, with what the handlers that they call do, one script after the other,
-- and transactions whose body ends or throws; an error that leaves a transaction is caught behind it
-- or is the error of the transaction around it.
mutual
  pub data Action : Type 0 where
    emits : Entry → Reactions → Action
    transaction : Script → Bool → Action

  pub data Script : Type 0 where
    done : Script
    then_next : Action → Script → Script

  pub data Reactions : Type 0 where
    quiet : Reactions
    reacts : Script → Reactions → Reactions

-- `emit` and `runInTransaction`: an emit inside a transaction calls the handlers that bypass it, and
-- then the entry goes into the buffer.
unfoldable mutual
  -- Each handler is called and does what it does before the next one is called.
  pub call_each : Bus → List Listener → Entry → Reactions → Bus
  call_each bus ls entry quiet = record bus { log = bus.log ++ map (λ l. (l, entry)) ls }
  call_each bus [] entry (reacts s rs) = bus
  call_each bus (l ∷ ls) entry (reacts s rs) =
      call_each (run (record bus { log = bus.log ++ (l, entry) ∷ [] }) s) ls entry rs

  pub act : Bus → Action → Bus
  act bus (emits entry rs) = elim bus.buffer_stack [
    | [] ↦ call_each bus (matching anyone bus.listeners entry) entry rs
    | active ∷ outer ↦
        push_active (call_each bus (matching bypasses bus.listeners entry) entry rs) entry
  ]
  act bus (transaction body threw) =
      finish threw (run (record bus { buffer_stack = [] ∷ bus.buffer_stack }) body)

  pub run : Bus → Script → Bus
  run bus done = bus
  run bus (then_next action rest) = run (act bus action) rest

unfoldable pub subscribe : Bus → ℕ → String → Bool → Bus
subscribe bus id event bypass = record bus {
  listeners = bus.listeners ++ record { id = id; subscribed = event; bypass = bypass } ∷ [];
}

-- The cleanup that `subscribe` gives back.
unfoldable pub unsubscribe : Bus → ℕ → Bus
unsubscribe bus id = record bus { listeners = keep (λ l. not (l.id == id)) bus.listeners }
