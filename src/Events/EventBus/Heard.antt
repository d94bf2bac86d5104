-- ===== src/Events/EventBus/Heard.antt =====
-- What a script on the bus leaves to be delivered, and whom it calls, read off the script.
use wood_fired_tasks.Prelude.{Bool, List, [], ◌∷◌, ◌++◌, map, keep, if◌then◌else◌}
use wood_fired_tasks.Events.EventBus.{
  Entry, Listener, Action, emits, transaction, Script, done, then_next, Reactions, quiet, reacts,
  matching, calls, anyone, bypasses, waits,
}

-- The entries that a run inside a transaction leaves to be delivered, without those of transactions
-- that threw: what an emit makes the handlers emit that let the transaction pass comes before its own
-- entry.
unfoldable mutual
  pub kept : List Listener → Action → List Entry
  kept ls (emits entry rs) = kept_by ls (matching bypasses ls entry) rs ++ entry ∷ []
  kept ls (transaction body threw) = if threw then [] else committed ls body

  pub kept_by : List Listener → List Listener → Reactions → List Entry
  kept_by ls called quiet = []
  kept_by ls [] (reacts s rs) = []
  kept_by ls (l ∷ called) (reacts s rs) = committed ls s ++ kept_by ls called rs

  pub committed : List Listener → Script → List Entry
  committed ls done = []
  committed ls (then_next action rest) = kept ls action ++ committed ls rest

-- The calls at once of a run inside a transaction.
unfoldable mutual
  pub raised : List Listener → Action → List (Listener × Entry)
  raised ls (emits entry rs) = raised_by ls (matching bypasses ls entry) entry rs
  raised ls (transaction body threw) = emitted ls body

  pub raised_by : List Listener → List Listener → Entry → Reactions → List (Listener × Entry)
  raised_by ls called entry quiet = map (λ l. (l, entry)) called
  raised_by ls [] entry (reacts s rs) = []
  raised_by ls (l ∷ called) entry (reacts s rs) =
      (l, entry) ∷ emitted ls s ++ raised_by ls called entry rs

  pub emitted : List Listener → Script → List (Listener × Entry)
  emitted ls done = []
  emitted ls (then_next action rest) = raised ls action ++ emitted ls rest

-- The calls for a list of entries, one after the other.
abbrev pub all_calls : (Listener → Bool) → List Listener → List Entry → List (Listener × Entry)
all_calls test ls [] = []
all_calls test ls (entry ∷ entries) = calls test ls entry ++ all_calls test ls entries

-- The calls of a run outside of transactions: an emit calls every listener of its event, and a
-- transaction calls those that let it pass at once and, unless it throws, the others for each entry
-- that it keeps.
unfoldable mutual
  pub hears : List Listener → Action → List (Listener × Entry)
  hears ls (emits entry rs) = heard_by ls (matching anyone ls entry) entry rs
  hears ls (transaction body threw) =
      emitted ls body ++ (if threw then [] else all_calls waits ls (committed ls body))

  pub heard_by : List Listener → List Listener → Entry → Reactions → List (Listener × Entry)
  heard_by ls called entry quiet = map (λ l. (l, entry)) called
  heard_by ls [] entry (reacts s rs) = []
  heard_by ls (l ∷ called) entry (reacts s rs) =
      (l, entry) ∷ all_heard ls s ++ heard_by ls called entry rs

  pub all_heard : List Listener → Script → List (Listener × Entry)
  all_heard ls done = []
  all_heard ls (then_next action rest) = hears ls action ++ all_heard ls rest

-- The calls of those that the test picks.
abbrev pub of_kind : (Listener → Bool) → List (Listener × Entry) → List (Listener × Entry)
of_kind test log = keep (λ d. test d.0) log
