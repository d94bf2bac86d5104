-- ===== src/Events/EventBus/Transactions.antt =====
-- What the subscribers see of a run with transactions and with handlers that use the bus.
use wood_fired_tasks.Prelude.{
  ◌≡◌, refl, sym, ap, ◌∙◌, inl, inr, Bool, true, false, List, [], ◌∷◌, ◌++◌, map, keep, str_eq,
  if◌then◌else◌, arith, Bool-cases,
}
use mathlib.Core.List.{append-nil, append_assoc}
use wood_fired_tasks.Events.EventBus.Heard.{
  kept, kept_by, committed, raised, raised_by, emitted, all_calls, hears, heard_by, all_heard,
  of_kind,
}
use wood_fired_tasks.Events.EventBus.{
  Entry, Listener, Bus, Action, emits, transaction, Script, done, then_next, Reactions, quiet,
  reacts, matching, calls, anyone, bypasses, waits, push_active, call_each, flush, finish, act, run,
}

keep-append {ℓ} :
    {A : Type ℓ} (test : A → Bool) (xs ys : List A)
    → keep test (xs ++ ys) ≡ keep test xs ++ keep test ys
keep-append test [] ys = refl
keep-append test (x ∷ xs) ys = elim (Bool-cases (test x)) [
  | inl e ↦ rw (e) (ap (λ l. x ∷ l) (keep-append test xs ys))
  | inr e ↦ rw (e) (keep-append test xs ys)
]

flush-eq-all_calls :
    (ls : List Listener) (entries : List Entry) → flush ls entries ≡ all_calls waits ls entries
unfolding flush
flush-eq-all_calls ls [] = refl
flush-eq-all_calls ls (e ∷ entries) = rw (flush-eq-all_calls ls entries) refl

abbrev pub bus_of : List Listener → List (List Entry) → List (Listener × Entry) → Bus
bus_of ls stack log = record { listeners = ls; buffer_stack = stack; log = log }

-- Two steps on a log are one.
log_assoc :
    (log : List (Listener × Entry)) (d : Listener × Entry) (xs ys : List (Listener × Entry))
    → ((log ++ d ∷ []) ++ xs) ++ ys ≡ log ++ d ∷ (xs ++ ys)
log_assoc log d xs ys = append_assoc (log ++ d ∷ []) xs ys ∙ append_assoc log (d ∷ []) (xs ++ ys)

-- Inside a transaction the active buffer grows by what is kept.
mutual
  unfolding act kept raised call_each push_active finish

  act_inside :
      (ls : List Listener) (top : List Entry) (outer : List (List Entry))
      (log : List (Listener × Entry)) (a : Action)
      → act (bus_of ls (top ∷ outer) log) a
        ≡ bus_of ls ((top ++ kept ls a) ∷ outer) (log ++ raised ls a)
  act_inside ls top outer log (emits entry rs) =
      let called = matching bypasses ls entry in
      ap (λ b. push_active b entry) (call_each_inside ls top outer log called entry rs)
      ∙ ap (λ t. bus_of ls (t ∷ outer) (log ++ raised_by ls called entry rs))
          (append_assoc top (kept_by ls called rs) (entry ∷ []))
  act_inside ls top outer log (transaction body true) =
      ap (finish true) (run_inside ls [] (top ∷ outer) log body)
      ∙ ap (λ t. bus_of ls (t ∷ outer) (log ++ emitted ls body)) (sym (append-nil top))
  act_inside ls top outer log (transaction body false) =
      ap (finish false) (run_inside ls [] (top ∷ outer) log body)

  call_each_inside :
      (ls : List Listener) (top : List Entry) (outer : List (List Entry))
      (log : List (Listener × Entry)) (called : List Listener) (entry : Entry) (rs : Reactions)
      → call_each (bus_of ls (top ∷ outer) log) called entry rs
        ≡ bus_of ls ((top ++ kept_by ls called rs) ∷ outer) (log ++ raised_by ls called entry rs)
  call_each_inside ls top outer log called entry quiet =
      ap (λ t. bus_of ls (t ∷ outer) (log ++ map (λ l. (l, entry)) called)) (sym (append-nil top))
  call_each_inside ls top outer log [] entry (reacts s rs) =
      ap (λ t. bus_of ls (t ∷ outer) log) (sym (append-nil top))
      ∙ ap (bus_of ls ((top ++ []) ∷ outer)) (sym (append-nil log))
  call_each_inside ls top outer log (l ∷ called) entry (reacts s rs) =
      let now = log ++ (l, entry) ∷ [] in
      let others = raised_by ls called entry rs in
      ap (λ b. call_each b called entry rs) (run_inside ls top outer now s)
      ∙ call_each_inside ls (top ++ committed ls s) outer (now ++ emitted ls s) called entry rs
      ∙ ap (λ t. bus_of ls (t ∷ outer) ((now ++ emitted ls s) ++ others))
          (append_assoc top (committed ls s) (kept_by ls called rs))
      ∙ ap (bus_of ls ((top ++ kept_by ls (l ∷ called) (reacts s rs)) ∷ outer))
          (log_assoc log (l, entry) (emitted ls s) others)

  run_inside :
      (ls : List Listener) (top : List Entry) (outer : List (List Entry))
      (log : List (Listener × Entry)) (s : Script)
      → run (bus_of ls (top ∷ outer) log) s
        ≡ bus_of ls ((top ++ committed ls s) ∷ outer) (log ++ emitted ls s)
  run_inside ls top outer log done =
      ap (λ t. bus_of ls (t ∷ outer) log) (sym (append-nil top))
      ∙ ap (bus_of ls ((top ++ []) ∷ outer)) (sym (append-nil log))
  run_inside ls top outer log (then_next a rest) =
      let now = log ++ raised ls a in
      ap (λ b. run b rest) (act_inside ls top outer log a)
      ∙ run_inside ls (top ++ kept ls a) outer now rest
      ∙ ap (λ t. bus_of ls (t ∷ outer) (now ++ emitted ls rest))
          (append_assoc top (kept ls a) (committed ls rest))
      ∙ ap (bus_of ls ((top ++ committed ls (then_next a rest)) ∷ outer))
          (append_assoc log (raised ls a) (emitted ls rest))

-- Outside of transactions the stack stays empty.
mutual
  unfolding act hears call_each finish

  act_outside :
      (ls : List Listener) (log : List (Listener × Entry)) (a : Action)
      → act (bus_of ls [] log) a ≡ bus_of ls [] (log ++ hears ls a)
  act_outside ls log (emits entry rs) = call_each_outside ls log (matching anyone ls entry) entry rs
  act_outside ls log (transaction body true) =
      ap (finish true) (run_inside ls [] [] log body)
      ∙ ap (λ l. bus_of ls [] (log ++ l)) (sym (append-nil (emitted ls body)))
  act_outside ls log (transaction body false) =
      ap (finish false) (run_inside ls [] [] log body)
      ∙ ap (bus_of ls []) (
          append_assoc log (emitted ls body) (flush ls (committed ls body))
          ∙ ap (λ l. log ++ (emitted ls body ++ l)) (flush-eq-all_calls ls (committed ls body)))

  call_each_outside :
      (ls : List Listener) (log : List (Listener × Entry)) (called : List Listener) (entry : Entry)
      (rs : Reactions)
      → call_each (bus_of ls [] log) called entry rs
        ≡ bus_of ls [] (log ++ heard_by ls called entry rs)
  call_each_outside ls log called entry quiet = refl
  call_each_outside ls log [] entry (reacts s rs) = ap (bus_of ls []) (sym (append-nil log))
  call_each_outside ls log (l ∷ called) entry (reacts s rs) =
      let now = log ++ (l, entry) ∷ [] in
      ap (λ b. call_each b called entry rs) (run_outside ls now s)
      ∙ call_each_outside ls (now ++ all_heard ls s) called entry rs
      ∙ ap (bus_of ls []) (log_assoc log (l, entry) (all_heard ls s) (heard_by ls called entry rs))

  run_outside :
      (ls : List Listener) (log : List (Listener × Entry)) (s : Script)
      → run (bus_of ls [] log) s ≡ bus_of ls [] (log ++ all_heard ls s)
  run_outside ls log done = ap (bus_of ls []) (sym (append-nil log))
  run_outside ls log (then_next a rest) =
      ap (λ b. run b rest) (act_outside ls log a)
      ∙ run_outside ls (log ++ hears ls a) rest
      ∙ ap (bus_of ls []) (append_assoc log (hears ls a) (all_heard ls rest))

of_kind-map :
    (test : Listener → Bool) (called : List Listener) (entry : Entry)
    → of_kind test (map (λ l. (l, entry)) called) ≡ map (λ l. (l, entry)) (keep test called)
of_kind-map test [] entry = refl
of_kind-map test (l ∷ called) entry = elim (Bool-cases (test l)) [
  | inl e ↦ rw (e) (ap (λ x. (l, entry) ∷ x) (of_kind-map test called entry))
  | inr e ↦ rw (e) (of_kind-map test called entry)
]

keep-waits-bypasses : (ls : List Listener) → keep waits (keep bypasses ls) ≡ []
keep-waits-bypasses [] = refl
keep-waits-bypasses (l ∷ ls) = ground (arith, keep-waits-bypasses ls)

keep-waits : (ls : List Listener) → keep waits (keep waits ls) ≡ keep waits ls
keep-waits [] = refl
keep-waits (l ∷ ls) = ground (arith, keep-waits ls)

all_calls-waits :
    (ls : List Listener) (entries : List Entry)
    → of_kind waits (all_calls waits ls entries) ≡ all_calls waits ls entries
all_calls-waits ls [] = refl
all_calls-waits ls (e ∷ entries) =
    keep-append (λ d. waits d.0) (calls waits ls e) (all_calls waits ls entries)
    ∙ rw
        (
          of_kind-map waits (matching waits ls e) e,
          keep-waits (keep (λ l. str_eq l.subscribed e.event) ls),
          all_calls-waits ls entries,
        )
        refl

no_head :
    (l : Listener) (called : List Listener)
    → keep waits (l ∷ called) ≡ []
    → (waits l ≡ false) × (keep waits called ≡ [])
no_head l called h = elim (Bool-cases (waits l)) [
  | inl e ↦ absurd (ground (arith, h, e))
  | inr e ↦ (e, ground (arith, h, e))
]

-- While a transaction runs, nobody is called who does not let it pass.
mutual
  unfolding raised

  raised-silent : (ls : List Listener) (a : Action) → of_kind waits (raised ls a) ≡ []
  raised-silent ls (emits entry rs) =
      raised_by-silent ls (matching bypasses ls entry) entry rs
        (keep-waits-bypasses (keep (λ l. str_eq l.subscribed entry.event) ls))
  raised-silent ls (transaction body threw) = emitted-silent ls body

  raised_by-silent :
      (ls called : List Listener) (entry : Entry) (rs : Reactions)
      → keep waits called ≡ []
      → of_kind waits (raised_by ls called entry rs) ≡ []
  raised_by-silent ls called entry quiet none =
      of_kind-map waits called entry ∙ ap (map (λ l. (l, entry))) none
  raised_by-silent ls [] entry (reacts s rs) none = refl
  raised_by-silent ls (l ∷ called) entry (reacts s rs) none =
      let (apart, others) = no_head l called none in
      rw (apart) (
        keep-append (λ d. waits d.0) (emitted ls s) (raised_by ls called entry rs)
        ∙ rw (emitted-silent ls s, raised_by-silent ls called entry rs others) refl)

  emitted-silent : (ls : List Listener) (s : Script) → of_kind waits (emitted ls s) ≡ []
  emitted-silent ls done = refl
  emitted-silent ls (then_next a rest) =
      keep-append (λ d. waits d.0) (raised ls a) (emitted ls rest)
      ∙ rw (raised-silent ls a, emitted-silent ls rest) refl

waits-transaction :
    (ls : List Listener) (body : Script) (threw : Bool)
    → of_kind waits (hears ls (transaction body threw))
      ≡ (if threw then [] else all_calls waits ls (committed ls body))
unfolding hears
waits-transaction ls body true =
    keep-append (λ d. waits d.0) (emitted ls body) [] ∙ rw (emitted-silent ls body) refl
waits-transaction ls body false =
    keep-append (λ d. waits d.0) (emitted ls body) (all_calls waits ls (committed ls body))
    ∙ rw (emitted-silent ls body, all_calls-waits ls (committed ls body)) refl

-- A run on a bus that is in no transaction, with handlers that use the bus when an emit calls them,
-- leaves it in none, and its calls are those that its parts describe. An outermost transaction that
-- ends calls those that do not let it pass once for each entry that it keeps, in order, and one that
-- throws calls none of them: an entry comes behind those that its handlers made, and those of an inner
-- transaction that threw are left out.
pub run_delivers :
    (ls : List Listener) (log : List (Listener × Entry)) (s : Script) (body : Script) (threw : Bool)
    → (run (bus_of ls [] log) s ≡ bus_of ls [] (log ++ all_heard ls s))
      × (of_kind waits (act (bus_of ls [] []) (transaction body threw)).log
          ≡ (if threw then [] else all_calls waits ls (committed ls body)))
run_delivers ls log s body threw = (
  run_outside ls log s,
  ap (λ b. of_kind waits b.log) (act_outside ls [] (transaction body threw))
      ∙ waits-transaction ls body threw,
)
