-- ===== src/Router/RateLimit.antt =====
-- packages/wft-router/src/dispatch/rate-limit.ts: the class RateLimiter. A token is counted as
-- 60_000 parts, so that the refill of `tokensPerMinute / 60_000` tokens per millisecond is a whole
-- number of parts; JavaScript's rounding of that fraction is left out.
pub mod Bounds
use wood_fired_tasks.Prelude.{
  ℕ, ◌+◌, ◌-◌, ◌*◌, Bool, true, false, Option, none, some, List, [], ◌∷◌, String, ltb, leb, str_eq,
  if◌then◌else◌,
}
use wood_fired_tasks.Prelude.Dict.{get, put}

abbrev pub parts : ℕ
parts = 60000

pub record Bucket : Type 0 where
  pub tokens : ℕ
  pub last_refill_ms : ℕ

pub record RateLimiter : Type 0 where
  pub tokens_per_minute : ℕ
  pub burst_capacity : ℕ
  pub buckets : List (String × Bucket)

-- The constructor, with the defaults of `defaults.ts`.
abbrev max_dispatches_per_minute : ℕ
max_dispatches_per_minute = 60

abbrev or_else : Option ℕ → ℕ → ℕ
or_else none d = d
or_else (some n) d = n

unfoldable pub new_limiter : Option ℕ → Option ℕ → RateLimiter
new_limiter tokens_per_minute burst_capacity =
    let rate = or_else tokens_per_minute max_dispatches_per_minute in
    record { tokens_per_minute = rate; burst_capacity = or_else burst_capacity rate; buckets = [] }

-- The refill of a bucket that exists.
pub refill : RateLimiter → ℕ → Bucket → Bucket
refill r now b =
    if ltb b.last_refill_ms now
    then (let refilled = b.tokens + (now - b.last_refill_ms) * r.tokens_per_minute in
        record {
          tokens =
              if ltb (r.burst_capacity * parts) refilled
              then r.burst_capacity * parts
              else refilled;
          last_refill_ms = now;
        })
    else b

-- `refillBucket`: the rule's bucket, which is made full on first use.
pub current : RateLimiter → ℕ → Option Bucket → Bucket
current r now none = record { tokens = r.burst_capacity * parts; last_refill_ms = now }
current r now (some b) = refill r now b

abbrev store : RateLimiter → String → Bucket → RateLimiter
store r rule_id b = record r { buckets = put r.buckets rule_id b }

abbrev spend : Bucket → Bucket
spend b = record b { tokens = b.tokens - parts }

unfoldable pub try_acquire : RateLimiter → ℕ → String → RateLimiter × Bool
try_acquire r now rule_id =
    let b = current r now (get r.buckets rule_id) in
    if leb parts b.tokens then (store r rule_id (spend b), true) else (store r rule_id b, false)

-- `remaining`, in parts.
unfoldable pub remaining : RateLimiter → ℕ → String → RateLimiter × ℕ
remaining r now rule_id =
    let b = current r now (get r.buckets rule_id) in (store r rule_id b, b.tokens)

unfoldable pub reset : RateLimiter → RateLimiter
reset r = record r { buckets = [] }

-- Opens what a run of the limiter computes with.
unfoldable pub limiter_runs : Unit {0}
unfolding new_limiter try_acquire remaining reset current refill get put
limiter_runs = tt
