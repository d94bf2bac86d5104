-- ===== src/Router/Debounce.antt =====
-- packages/wft-router/src/dispatch/debounce.ts: the Debouncer. A bucket is named by a number, its
-- identity; a promise by the number of its push. Timers are the host's: `set_timer` and `clear_timer`
-- keep which are armed, and an armed one is run by `tick` when it is due. Payloads are numbers.
pub mod Keys
pub mod Runs
pub mod Allowed
mod Examples
pub mod Distinct
pub mod Actions
pub mod Pushes
pub mod Held
pub mod Pending
use wood_fired_tasks.Prelude.{
  ℕ, suc, ◌+◌, Bool, Option, none, some, List, [], ◌∷◌, ◌++◌, leb, ◌==◌, if◌then◌else◌,
}
use wood_fired_tasks.Prelude.Text.{Text, text_eq}

pub record Bucket : Type 0 where
  pub identity : ℕ
  pub latest_payload : ℕ
  pub coalesced_count : ℕ
  pub timer_handle : ℕ
  pub subscribers : List ℕ

pub record Timer : Type 0 where
  pub key : Text
  pub of_bucket : ℕ
  pub due : ℕ

-- A promise that is resolved, with the DebouncedResult.
pub record Resolved : Type 0 where
  pub promise : ℕ
  pub payload : ℕ
  pub count : ℕ

abbrev pub Buckets : Type 0
Buckets = List (Text × Bucket)

pub record Debouncer : Type 0 where
  pub window_ms : ℕ
  pub buckets : Buckets
  pub timers : ℕ → Option Timer
  pub next : ℕ
  pub resolved : List Resolved

unfoldable pub get : Buckets → Text → Option Bucket
get [] key = none
get ((k, b) ∷ rest) key = if text_eq k key then some b else get rest key

unfoldable pub set : Buckets → Text → Bucket → Buckets
set [] key bucket = (key, bucket) ∷ []
set ((k, b) ∷ rest) key bucket =
    if text_eq k key then (key, bucket) ∷ rest else (k, b) ∷ set rest key bucket

unfoldable pub remove_key : Buckets → Text → Buckets
remove_key [] key = []
remove_key ((k, b) ∷ rest) key =
    if text_eq k key then remove_key rest key else (k, b) ∷ remove_key rest key

-- The key of a bucket: the rule, NUL and the event key.
unfoldable pub compound_key : Text → Text → Text
compound_key rule_id event_key = rule_id ++ 0 ∷ event_key

abbrev pub clear_timer : ℕ → Debouncer → Debouncer
clear_timer handle s = record s { timers = λ h. if h == handle then none else s.timers h }

-- `scheduleFire`; the handle is the number that is next.
abbrev pub set_timer : Timer → Debouncer → Debouncer
set_timer timer s = record s {
  timers = λ h. if h == s.next then some timer else s.timers h;
  next = suc s.next;
}

abbrev pub fresh_bucket : ℕ → ℕ → ℕ → Bucket
fresh_bucket name payload promise = record {
  identity = name;
  latest_payload = payload;
  coalesced_count = 1;
  timer_handle = name;
  subscribers = promise ∷ [];
}

abbrev pub joined : Bucket → ℕ → ℕ → ℕ → Bucket
joined existing handle payload promise = record {
  identity = existing.identity;
  latest_payload = payload;
  coalesced_count = suc existing.coalesced_count;
  timer_handle = handle;
  subscribers = existing.subscribers ++ promise ∷ [];
}

-- A push into the bucket of the key at the time; a promise bears the number of its timer.
abbrev pub push_at : Text → ℕ → ℕ → Option Bucket → Debouncer → Debouncer
push_at key payload now (some existing) s =
    let armed =
      set_timer (record { key = key; of_bucket = existing.identity; due = now + s.window_ms })
        (clear_timer existing.timer_handle s) in
    record armed { buckets = set s.buckets key (joined existing s.next payload s.next) }
push_at key payload now none s =
    let armed = set_timer (record { key = key; of_bucket = s.next; due = now + s.window_ms }) s in
    record armed { buckets = set s.buckets key (fresh_bucket s.next payload s.next) }

unfoldable pub push : Text → Text → ℕ → ℕ → Debouncer → Debouncer
push rule_id event_key payload now s =
    let key = compound_key rule_id event_key in push_at key payload now (get s.buckets key) s

unfoldable pub resolve_all : List ℕ → ℕ → ℕ → List Resolved
resolve_all [] payload count = []
resolve_all (p ∷ ps) payload count =
    record { promise = p; payload = payload; count = count } ∷ resolve_all ps payload count

abbrev pub fire_bucket : Text → Bucket → Debouncer → Debouncer
fire_bucket key bucket s = record s {
  buckets = remove_key s.buckets key;
  resolved =
      s.resolved ++ resolve_all bucket.subscribers bucket.latest_payload bucket.coalesced_count;
}

-- The callback of a timer: the bucket that is there now must be the one it was set for.
abbrev pub on_timer : Timer → Option Bucket → Debouncer → Debouncer
on_timer timer none s = s
on_timer timer (some current) s =
    if current.identity == timer.of_bucket then fire_bucket timer.key current s else s

-- The host runs a timer that is armed and due, and only then.
abbrev pub tick_timer : Option Timer → ℕ → ℕ → Debouncer → Debouncer
tick_timer none handle now s = s
tick_timer (some timer) handle now s =
    if leb timer.due now then on_timer timer (get s.buckets timer.key) (clear_timer handle s) else s

unfoldable pub tick : ℕ → ℕ → Debouncer → Debouncer
tick handle now s = tick_timer (s.timers handle) handle now s

unfoldable pub flush_each : Buckets → Debouncer → Debouncer
flush_each [] s = s
flush_each ((key, bucket) ∷ rest) s =
    flush_each rest (fire_bucket key bucket (clear_timer bucket.timer_handle s))

unfoldable pub flush_all : Debouncer → Debouncer
flush_all s = flush_each s.buckets s

unfoldable pub clear_each : Buckets → Debouncer → Debouncer
clear_each [] s = s
clear_each ((key, bucket) ∷ rest) s = clear_each rest (clear_timer bucket.timer_handle s)

unfoldable pub cancel_all : Debouncer → Debouncer
cancel_all s = record (clear_each s.buckets s) { buckets = [] }

abbrev pub new_debouncer : ℕ → Debouncer
new_debouncer window_ms = record {
  window_ms = window_ms;
  buckets = [];
  timers = λ h. none;
  next = 0;
  resolved = [];
}
