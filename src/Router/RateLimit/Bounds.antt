-- ===== src/Router/RateLimit/Bounds.antt =====
-- How many dispatches the limiter lets through.
use wood_fired_tasks.Prelude.{
  ℕ, ◌+◌, ◌-◌, ◌*◌, ◌≤◌, ◌<◌, ◌≡◌, refl, inl, inr, Bool, true, false, Option, none, some, List, [],
  ◌∷◌, String, arith, All, str_eq, eq_iff, eq_refl, if◌then◌else◌, Bool-cases, ltb, ltb→lt, leb,
  leb→le, subst, ◌∙◌,
}
use wood_fired_tasks.Prelude.Dict.{get, get-put}
use wood_fired_tasks.Router.RateLimit.{
  parts, Bucket, RateLimiter, new_limiter, refill, current, try_acquire,
}

pub record Call : Type 0 where
  pub rule_id : String
  pub now : ℕ

-- How many of the calls for a rule are let through.
pub granted : RateLimiter → List Call → String → ℕ
granted r [] rule = 0
granted r (c ∷ cs) rule =
    let (r', yes_) = try_acquire r c.now c.rule_id in
    (if yes_ then (if str_eq c.rule_id rule then 1 else 0) else 0) + granted r' cs rule

-- The calls fall between two times.
abbrev pub During : ℕ → ℕ → List Call → Type 0
During lo hi = All (λ c. (lo ≤ c.now) × (c.now ≤ hi))

module _ (rate burst start : ℕ) where
  -- What the bucket of a rule allows until `stop`, in parts.
  abbrev budget : Option Bucket → ℕ → ℕ
  budget none stop = burst * parts + rate * (stop - start)
  budget (some b) stop = b.tokens + rate * (stop - b.last_refill_ms)

  refill-budget :
      (r : RateLimiter) (now : ℕ) (b : Bucket) (stop : ℕ)
      → r.tokens_per_minute ≡ rate
      → now ≤ stop
      → budget (some (refill r now b)) stop ≤ budget (some b) stop
  unfolding refill
  refill-budget r now b stop er hi = elim (Bool-cases (ltb b.last_refill_ms now)) [
    | inl later ↦
        let lt : b.last_refill_ms < now = ltb→lt b.last_refill_ms now later in
        let e : stop - b.last_refill_ms ≡ (stop - now) + (now - b.last_refill_ms) = omega arith in
        rw (later, e) (ground arith)
    | inr stays ↦ rw stays (omega arith)
  ]

  current-budget :
      (r : RateLimiter) (now : ℕ) (o : Option Bucket) (stop : ℕ)
      → r.tokens_per_minute ≡ rate
      → r.burst_capacity ≡ burst
      → start ≤ now
      → now ≤ stop
      → budget (some (current r now o)) stop ≤ budget o stop
  unfolding current
  current-budget r now none stop er eb lo hi =
      let e : stop - start ≡ (stop - now) + (now - start) = omega arith in rw (e, eb) (omega arith)
  current-budget r now (some b) stop er eb lo hi = refill-budget r now b stop er hi

  -- What a call spends for a rule.
  abbrev cost : Bool → Bool → ℕ
  cost let_through same = if let_through then (if same then parts else 0) else 0

  step-budget :
      (r : RateLimiter) (c : Call) (rule : String) (stop : ℕ)
      → r.tokens_per_minute ≡ rate
      → r.burst_capacity ≡ burst
      → start ≤ c.now
      → c.now ≤ stop
      → budget (get (try_acquire r c.now c.rule_id).0.buckets rule) stop
          + cost (try_acquire r c.now c.rule_id).1 (str_eq c.rule_id rule)
        ≤ budget (get r.buckets rule) stop
  unfolding try_acquire
  step-budget r c rule stop er eb lo hi = elim (Bool-cases (str_eq c.rule_id rule)) [
    | inl same ↦
        let e : c.rule_id ≡ rule = (eq_iff c.rule_id rule).0 same in
        let b = current r c.now (get r.buckets c.rule_id) in
        let le : budget (some b) stop ≤ budget (get r.buckets c.rule_id) stop =
          current-budget r c.now (get r.buckets c.rule_id) stop er eb lo hi in
        subst
          (λ q.
            budget (get (try_acquire r c.now c.rule_id).0.buckets q) stop
              + cost (try_acquire r c.now c.rule_id).1 (str_eq c.rule_id q)
            ≤ budget (get r.buckets q) stop)
          e
          (elim (Bool-cases (leb parts b.tokens)) [
            | inl full ↦ rw (full, get-put, eq_refl) (omega (arith, leb→le parts b.tokens full))
            | inr low ↦ rw (low, get-put, eq_refl) (omega arith)
          ])
    | inr other ↦ ground (
      arith,
      get-put r.buckets c.rule_id rule (current r c.now (get r.buckets c.rule_id)),
      get-put r.buckets c.rule_id rule (record (current r c.now (get r.buckets c.rule_id)) {
        tokens = (current r c.now (get r.buckets c.rule_id)).tokens - parts;
      }),
    )
  ]

  try_acquire-rate :
      (r : RateLimiter) (now : ℕ) (rule_id : String)
      → ((try_acquire r now rule_id).0.tokens_per_minute ≡ r.tokens_per_minute)
        × ((try_acquire r now rule_id).0.burst_capacity ≡ r.burst_capacity)
  unfolding try_acquire
  try_acquire-rate r now rule_id = ground arith

  granted-budget :
      (r : RateLimiter) (cs : List Call) (rule : String) (stop : ℕ)
      → r.tokens_per_minute ≡ rate
      → r.burst_capacity ≡ burst
      → During start stop cs
      → granted r cs rule * parts ≤ budget (get r.buckets rule) stop
  unfolding granted
  granted-budget r [] rule stop er eb h = omega arith
  granted-budget r (c ∷ cs) rule stop er eb h =
      let r' = (try_acquire r c.now c.rule_id).0 in
      let same = try_acquire-rate r c.now c.rule_id in
      let rest : granted r' cs rule * parts ≤ budget (get r'.buckets rule) stop =
        granted-budget r' cs rule stop (same.0 ∙ er) (same.1 ∙ eb) h.1 in
      let step = step-budget r c rule stop er eb h.0.0 h.0.1 in
      elim (Bool-cases (try_acquire r c.now c.rule_id).1) [
        | inl through ↦ elim (Bool-cases (str_eq c.rule_id rule)) [
          | inl same_rule ↦ rw (through, same_rule) (omega (arith, rw (through, same_rule) at step))
          | inr other ↦ rw (through, other) (omega (arith, rw (through, other) at step))
        ]
        | inr stopped ↦ rw stopped (omega (arith, rw stopped at step))
      ]

-- From an empty limiter, however the calls of all rules are mixed and whichever way the clock
-- jumps between `start` and `stop`, a rule gets no more tokens than the burst and the refill of
-- the time between the two.
pub granted-le_rate :
    (rate burst : ℕ) (cs : List Call) (rule : String) (start stop : ℕ)
    → During start stop cs
    → granted (new_limiter (some rate) (some burst)) cs rule * parts
      ≤ burst * parts + rate * (stop - start)
unfolding new_limiter get
granted-le_rate rate burst cs rule start stop h =
    granted-budget rate burst start (new_limiter (some rate) (some burst)) cs rule stop refl refl h

module _ (r : RateLimiter) (now : ℕ) (rule other : String) where
  -- A call for one rule leaves the buckets of the others as they are.
  pub try_acquire-other :
      str_eq rule other ≡ false → get (try_acquire r now rule).0.buckets other ≡ get r.buckets other
  unfolding try_acquire
  try_acquire-other differ = ground (
    arith,
    get-put r.buckets rule other (current r now (get r.buckets rule)),
    get-put r.buckets rule other (record (current r now (get r.buckets rule)) {
      tokens = (current r now (get r.buckets rule)).tokens - parts;
    }),
  )

refill_after_wait :
    (r : RateLimiter) (now : ℕ) (b : Bucket)
    → 0 < r.burst_capacity
    → parts ≤ (now - b.last_refill_ms) * r.tokens_per_minute
    → parts ≤ (refill r now b).tokens
unfolding refill
refill_after_wait r now b room waited = elim (Bool-cases (ltb b.last_refill_ms now)) [
  | inl later ↦ rw later (ground arith)
  | inr not_later ↦
      let e : now - b.last_refill_ms ≡ 0 = ground arith in absurd (omega (arith, rw e at waited))
]

-- A rule that waited for the time of one token gets one, if a bucket can hold one.
pub try_acquire_after_wait :
    (r : RateLimiter) (now : ℕ) (rule : String) (b : Bucket)
    → get r.buckets rule ≡ some b
    → 0 < r.burst_capacity
    → parts ≤ (now - b.last_refill_ms) * r.tokens_per_minute
    → (try_acquire r now rule).1 ≡ true
unfolding try_acquire current
try_acquire_after_wait r now rule b e room waited =
    rw (e, current) (ground (arith, refill_after_wait r now b room waited))
