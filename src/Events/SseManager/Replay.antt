-- ===== src/Events/SseManager/Replay.antt =====
-- A client that comes back gets every event that it missed, or is told that some are gone.
use mathlib.Core.List.{append_assoc, append-nil}
use wood_fired_tasks.Prelude.{
  ℕ, zero, suc, ◌+◌, ◌-◌, ◌≤◌, ◌<◌, ◌≡◌, ◌≢◌, refl, sym, ap, subst, ◌∙◌, inl, inr, Bool, List, [],
  ◌∷◌, ◌++◌, keep, length, All, String, ltb, ◌==◌, arith, Bool-cases,
}
use wood_fired_tasks.Events.SseManager.{
  Payload, Filters, Buffered, Limits, Manager, new_manager, matches_filters, gap, missed, numbered,
  drop_first, keep_last, prune_event_buffer, broadcast,
}

-- The broadcasts of a run, each with its time, and every event that they number.
unfoldable pub broadcast_all : Limits → Manager → List (ℕ × Payload) → Manager
broadcast_all limits m [] = m
broadcast_all limits m ((now, event) ∷ calls) =
    broadcast_all limits (broadcast now limits m event).0 calls

unfoldable pub history : ℕ → List (ℕ × Payload) → List Buffered
history id [] = []
history id ((now, event) ∷ calls) = numbered id event ∷ history (suc id) calls

-- Ids and times only grow.
abbrev Before : Buffered → Buffered → Type 0
Before a b = (a.id < b.id) × (a.event.timestamp ≤ b.event.timestamp)

abbrev Ordered : List Buffered → Type 0
Ordered [] = Unit
Ordered (e ∷ es) = All (Before e) es × Ordered es

-- The times of the events never go back.
abbrev pub Timely : ℕ → List (ℕ × Payload) → Type 0
Timely at [] = Unit
Timely at ((now, event) ∷ calls) = (at ≤ event.timestamp) × Timely event.timestamp calls

-- The buffer is what is left at the end of the events so far.
abbrev IsSuffix : List Buffered → List Buffered → Type 0
IsSuffix es all = (lost : List Buffered) × (all ≡ lost ++ es)

IsSuffix-trans : (xs ys zs : List Buffered) → IsSuffix xs ys → IsSuffix ys zs → IsSuffix xs zs
IsSuffix-trans xs ys zs (l, p) (k, q) = (k ++ l, q ∙ ap (λ t. k ++ t) p ∙ sym (append_assoc k l xs))

IsSuffix-append : (xs ys tail : List Buffered) → IsSuffix xs ys → IsSuffix (xs ++ tail) (ys ++ tail)
IsSuffix-append xs ys tail (l, p) = (l, ap (λ t. t ++ tail) p ∙ append_assoc l xs tail)

drop_first-IsSuffix : (n : ℕ) (es : List Buffered) → IsSuffix (drop_first n es) es
unfolding drop_first
drop_first-IsSuffix zero es = ([], refl)
drop_first-IsSuffix (suc n) [] = ([], refl)
drop_first-IsSuffix (suc n) (e ∷ es) =
    let (l, p) = drop_first-IsSuffix n es in (e ∷ l, ap (λ t. e ∷ t) p)

keep_last-IsSuffix : (n : ℕ) (es : List Buffered) → IsSuffix (keep_last n es) es
unfolding keep_last
keep_last-IsSuffix n es = elim (Bool-cases (ltb n (length es))) [
  | inr short ↦ rw (short) ([], refl)
  | inl long ↦ elim (Bool-cases (n == 0)) [
    | inl zero_max ↦ rw (long, zero_max) ([], refl)
    | inr some_max ↦ rw (long, some_max) (drop_first-IsSuffix (length es - n) es)
  ]
]

Ordered-IsSuffix :
    (xs ys : List Buffered) (lost : List Buffered) → ys ≡ lost ++ xs → Ordered ys → Ordered xs
Ordered-IsSuffix xs ys [] p h = subst Ordered p h
Ordered-IsSuffix xs ys (l ∷ lost) p h =
    Ordered-IsSuffix xs (lost ++ xs) lost refl (subst Ordered p h).1

All-map {κ λ'} :
    (P : Buffered → Type κ) (Q : Buffered → Type λ') (es : List Buffered)
    → ((e : Buffered) → P e → Q e)
    → All P es
    → All Q es
All-map P Q [] f h = tt
All-map P Q (e ∷ es) f (p, h) = (f e p, All-map P Q es f h)

All-append {κ} :
    (P : Buffered → Type κ) (xs ys : List Buffered) → All P xs → All P ys → All P (xs ++ ys)
All-append P [] ys h k = k
All-append P (x ∷ xs) ys (p, h) k = (p, All-append P xs ys h k)

All-last {κ} :
    (P : Buffered → Type κ) (xs : List Buffered) (e : Buffered) (es : List Buffered)
    → All P (xs ++ e ∷ es)
    → P e
All-last P [] e es (p, h) = p
All-last P (x ∷ xs) e es (p, h) = All-last P xs e es h

-- In the order of time, those that are too old stand in front.
young : ℕ → ℕ → Buffered → Bool
young now ttl e = ltb now (e.event.timestamp + ttl)

keep-young :
    (now ttl : ℕ) (at : ℕ) (es : List Buffered)
    → now < at + ttl
    → All (λ e. at ≤ e.event.timestamp) es
    → keep (young now ttl) es ≡ es
unfolding young
keep-young now ttl at [] fresh h = refl
keep-young now ttl at (e ∷ es) fresh (p, h) =
    ground (arith, p, fresh, keep-young now ttl at es fresh h)

keep-IsSuffix :
    (now ttl : ℕ) (es : List Buffered) → Ordered es → IsSuffix (keep (young now ttl) es) es
unfolding young
keep-IsSuffix now ttl [] h = ([], refl)
keep-IsSuffix now ttl (e ∷ es) (p, h) = elim (Bool-cases (young now ttl e)) [
  | inl fresh ↦
      let whole =
        keep-young now ttl e.event.timestamp es (ground (arith, fresh))
          (All-map (Before e) (λ b. e.event.timestamp ≤ b.event.timestamp) es (λ b q. q.1) p) in
      rw (fresh) ([], ap (λ t. e ∷ t) (sym whole))
  | inr old ↦ let (l, q) = keep-IsSuffix now ttl es h in rw (old) (e ∷ l, ap (λ t. e ∷ t) q)
]

Ordered-append :
    (es : List Buffered) (e : Buffered)
    → All (λ b. Before b e) es
    → Ordered es
    → Ordered (es ++ e ∷ [])
Ordered-append [] e before h = (tt, tt)
Ordered-append (x ∷ es) e (b, before) (p, h) =
    (All-append (Before x) es (e ∷ []) p (b, tt), Ordered-append es e before h)

-- One broadcast.
Below : ℕ → ℕ → Buffered → Type 0
Below id at e = (e.id < id) × (e.event.timestamp ≤ at)

broadcast-IsSuffix :
    (now : ℕ) (limits : Limits) (m : Manager) (event : Payload) (all : List Buffered)
    → IsSuffix m.event_buffer all
    → Ordered (all ++ numbered m.next_event_id event ∷ [])
    → IsSuffix
        (broadcast now limits m event).0.event_buffer
        (all ++ numbered m.next_event_id event ∷ [])
unfolding broadcast prune_event_buffer young
broadcast-IsSuffix now limits m event all suffix ordered =
    let e = numbered m.next_event_id event ∷ [] in
    let pushed = IsSuffix-append m.event_buffer all e suffix in
    let short = keep_last-IsSuffix limits.max_buffer_size (m.event_buffer ++ e) in
    let first =
      IsSuffix-trans (keep_last limits.max_buffer_size (m.event_buffer ++ e)) (m.event_buffer ++ e)
        (all ++ e) short pushed in
    IsSuffix-trans (broadcast now limits m event).0.event_buffer
      (keep_last limits.max_buffer_size (m.event_buffer ++ e)) (all ++ e)
      (keep-IsSuffix now limits.buffer_ttl_ms
        (keep_last limits.max_buffer_size (m.event_buffer ++ e))
        (Ordered-IsSuffix (keep_last limits.max_buffer_size (m.event_buffer ++ e)) (all ++ e)
          first.0 first.1 ordered))
      first

broadcast_all-IsSuffix :
    (limits : Limits) (calls : List (ℕ × Payload)) (m : Manager) (at : ℕ) (all : List Buffered)
    → IsSuffix m.event_buffer all
    → Ordered all
    → All (Below m.next_event_id at) all
    → Timely at calls
    → IsSuffix (broadcast_all limits m calls).event_buffer (all ++ history m.next_event_id calls)
      × Ordered (all ++ history m.next_event_id calls)
unfolding broadcast_all history Below broadcast
broadcast_all-IsSuffix limits [] m at all suffix ordered below timely =
    rw (append-nil all) (suffix, ordered)
broadcast_all-IsSuffix limits ((now, event) ∷ calls) m at all suffix ordered below (later, timely) =
    let e = numbered m.next_event_id event in
    let longer =
      Ordered-append all e
        (All-map (Below m.next_event_id at) (λ b. Before b e) all
          (λ b q. (q.0, omega (arith, q.1, later))) below)
        ordered in
    let rest =
      broadcast_all-IsSuffix limits calls (broadcast now limits m event).0 event.timestamp
        (all ++ e ∷ []) (broadcast-IsSuffix now limits m event all suffix longer) longer
        (All-append (Below (suc m.next_event_id) event.timestamp) all (e ∷ [])
          (All-map (Below m.next_event_id at) (Below (suc m.next_event_id) event.timestamp) all
            (λ b q. (omega (arith, q.0), omega (arith, q.1, later))) below)
          ((omega arith, omega arith), tt))
        timely in
    subst
      (λ t.
        IsSuffix (broadcast_all limits (broadcast now limits m event).0 calls).event_buffer t
        × Ordered t)
      (append_assoc all (e ∷ []) (history (suc m.next_event_id) calls)) rest

-- What is lost has smaller ids than what is left.
lost_ids :
    (lost : List Buffered) (e : Buffered) (es : List Buffered) (from : ℕ)
    → Ordered (lost ++ e ∷ es)
    → e.id ≤ from + 1
    → keep (λ b. ltb from b.id) (lost ++ e ∷ es) ≡ keep (λ b. ltb from b.id) (e ∷ es)
lost_ids [] e es from h near = refl
lost_ids (l ∷ lost) e es from (p, h) near =
    let before = All-last (Before l) lost e es p in
    ground (arith, before, near, lost_ids lost e es from h near)

near :
    (id : String) (from : ℕ) (e : Buffered) (es : List Buffered)
    → 0 < from
    → gap id from (e ∷ es) ≡ []
    → e.id ≤ from + 1
unfolding gap
near id from e es seen quiet = ground (arith, seen, quiet)

-- After any broadcasts whose events are in the order of time, a client that has seen an event gets
-- from the buffer every later event that passes its filters, in order, unless it is told of a gap, or
-- the buffer is empty.
pub missed_complete :
    (limits : Limits) (calls : List (ℕ × Payload)) (id : String) (from : ℕ) (filters : Filters)
    → Timely 0 calls
    → 0 < from
    → (broadcast_all limits new_manager calls).event_buffer ≢ []
    → gap id from (broadcast_all limits new_manager calls).event_buffer ≡ []
    → missed from filters (broadcast_all limits new_manager calls).event_buffer
      ≡ missed from filters (history 1 calls)
unfolding missed
missed_complete limits calls id from filters timely seen nonempty no_gap =
    let ((lost, p), ordered) =
      broadcast_all-IsSuffix limits calls new_manager 0 [] ([], refl) tt tt timely in
    complete (broadcast_all limits new_manager calls).event_buffer lost p ordered nonempty no_gap
  where
    complete :
        (es lost : List Buffered)
        → history 1 calls ≡ lost ++ es
        → Ordered (history 1 calls)
        → es ≢ []
        → gap id from es ≡ []
        → keep (λ e. matches_filters e.event filters) (keep (λ e. ltb from e.id) es)
          ≡ keep
              (λ e. matches_filters e.event filters)
              (keep (λ e. ltb from e.id) (history 1 calls))
    complete [] lost p ordered some_left quiet = absurd (some_left refl)
    complete (e ∷ es) lost p ordered some_left quiet =
        ap (λ t. keep (λ b. matches_filters b.event filters) t)
          (sym (lost_ids lost e es from (subst Ordered p ordered) (near id from e es seen quiet))
            ∙ ap (λ t. keep (λ b. ltb from b.id) t) (sym p))
