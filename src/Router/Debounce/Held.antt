-- ===== src/Router/Debounce/Held.antt =====
-- The buckets and the armed timers of a debouncer against the pushes that wait.
use wood_fired_tasks.Prelude.{
  ℕ, suc, ◌+◌, ◌<◌, ◌≡◌, refl, sym, ap, subst, ◌∙◌, inl, inr, false, Option, none, some, List, [],
  ◌∷◌, ◌++◌, arith, length, ◌==◌, ==_iff, Bool-cases,
}
use mathlib.Core.Option.{some-injective}
use wood_fired_tasks.Prelude.Text.{Text, text_eq}
use wood_fired_tasks.Router.Debounce.{
  Bucket, Timer, Debouncer, get, clear_timer, fire_bucket, resolve_all,
}
use wood_fired_tasks.Router.Debounce.Keys.{text_eq_iff, get-remove_key}
use wood_fired_tasks.Router.Debounce.Pending.{
  Push, group, others, latest, promises, settle_group, latest-snoc, promises-snoc, length-snoc,
  group-others, group-others_apart,
}

-- A bucket holds the pushes of its key, and its timer is armed for the end of the last one's window.
pub record IsHeld (window : ℕ) (timers : ℕ → Option Timer) (k : Text) (b : Bucket) (g : List Push)
    : Type 0 where
  pub last : Push
  pub is_last : latest g ≡ some last
  pub payload : b.latest_payload ≡ last.payload
  pub count : b.coalesced_count ≡ length g
  pub waits : b.subscribers ≡ promises g
  pub armed :
      timers b.timer_handle
      ≡ some (record { key = k; of_bucket = b.identity; due = last.at + window })

pub record IsHolding (s : Debouncer) (pending : List Push) : Type 0 where
  pub held :
      (k : Text) (b : Bucket)
      → get s.buckets k ≡ some b
      → IsHeld s.window_ms s.timers k b (group k pending)
  pub free : (k : Text) → get s.buckets k ≡ none → group k pending ≡ []
  pub armed_of :
      (h : ℕ) (t : Timer)
      → s.timers h ≡ some t
      → (b : Bucket) × (get s.buckets t.key ≡ some b) × (b.timer_handle ≡ h)
  pub bounded : (h : ℕ) (t : Timer) → s.timers h ≡ some t → h < s.next

pub IsHeld-kept :
    (window : ℕ) (timers timers' : ℕ → Option Timer) (k : Text) (b : Bucket) (g g' : List Push)
    → timers' b.timer_handle ≡ timers b.timer_handle
    → g' ≡ g
    → IsHeld window timers k b g
    → IsHeld window timers' k b g'
IsHeld-kept window timers timers' k b g g' same same_g h = record {
  last = h.last;
  is_last = ap latest same_g ∙ h.is_last;
  payload = h.payload;
  count = h.count ∙ ap length (sym same_g);
  waits = h.waits ∙ ap promises (sym same_g);
  armed = same ∙ h.armed;
}

-- The bucket of a key that got a push.
pub IsHeld-push :
    (window now : ℕ) (timers : ℕ → Option Timer) (k : Text) (b : Bucket) (g : List Push) (p : Push)
    → b.latest_payload ≡ p.payload
    → b.coalesced_count ≡ suc (length g)
    → b.subscribers ≡ promises g ++ p.promise ∷ []
    → timers b.timer_handle ≡ some (record { key = k; of_bucket = b.identity; due = p.at + window })
    → IsHeld window timers k b (g ++ p ∷ [])
IsHeld-push window now timers k b g p same count subs armed = record {
  last = p;
  is_last = latest-snoc g p;
  payload = same;
  count = count ∙ sym (length-snoc g p);
  waits = subs ∙ sym (promises-snoc g p);
  armed = armed;
}

-- Two buckets with one timer are one.
same_handle :
    (s : Debouncer) (pending : List Push) (k j : Text) (b c : Bucket)
    → IsHolding s pending
    → get s.buckets k ≡ some b
    → get s.buckets j ≡ some c
    → b.timer_handle ≡ c.timer_handle
    → k ≡ j
same_handle s pending k j b c h at_k at_j same =
    let left = (h.held k b at_k).armed in
    let right = (h.held j c at_j).armed in
    ap (λ (o : Option Timer). elim o [ none ↦ k | some t ↦ t.key ])
      (sym left ∙ ap s.timers same ∙ right)

-- A bucket of another key has another timer.
pub other_handle :
    (s : Debouncer) (pending : List Push) (k j : Text) (b c : Bucket)
    → IsHolding s pending
    → get s.buckets k ≡ some b
    → get s.buckets j ≡ some c
    → text_eq k j ≡ false
    → (c.timer_handle == b.timer_handle) ≡ false
other_handle s pending k j b c h at_k at_j other =
    elim (Bool-cases (c.timer_handle == b.timer_handle)) [
      | inr apart ↦ apart
      | inl same ↦
          let is =
            same_handle s pending k j b c h at_k at_j
              (sym ((==_iff c.timer_handle b.timer_handle).0 same)) in
          absurd (ground (arith, other, (text_eq_iff k j).1 is))
    ]

-- The timer of another key is for another bucket.
pub other_key :
    (s : Debouncer) (pending : List Push) (k : Text) (b : Bucket) (i : ℕ) (t : Timer)
    → IsHolding s pending
    → get s.buckets k ≡ some b
    → s.timers i ≡ some t
    → (i == b.timer_handle) ≡ false
    → text_eq k t.key ≡ false
other_key s pending k b i t h at_k on other = elim (Bool-cases (text_eq k t.key)) [
  | inr apart ↦ apart
  | inl same ↦
      let (c, at, is) = h.armed_of i t on in
      let at_c : get s.buckets k ≡ some c =
        subst (λ x. get s.buckets x ≡ some c) (sym ((text_eq_iff k t.key).0 same)) at in
      let one : b ≡ c = some-injective b c (sym at_k ∙ at_c) in
      let handles : b.timer_handle ≡ i = ap (λ (x : Bucket). x.timer_handle) one ∙ is in
      absurd (ground (arith, other, sym handles))
]

pub clear-on :
    (s : Debouncer) (handle i : ℕ) (t : Timer)
    → (clear_timer handle s).timers i ≡ some t
    → ((i == handle) ≡ false) × (s.timers i ≡ some t)
clear-on s handle i t on = elim (Bool-cases (i == handle)) [
  | inl same ↦ absurd (ground (arith, on, same))
  | inr other ↦ (other, ground (arith, on, other))
]

pub fire-IsHolding :
    (s : Debouncer) (pending : List Push) (k : Text) (b : Bucket)
    → IsHolding s pending
    → get s.buckets k ≡ some b
    → IsHolding (fire_bucket k b (clear_timer b.timer_handle s)) (others k pending)
fire-IsHolding s pending k b h at_k = record {
  held = λ j c at. elim (Bool-cases (text_eq k j)) [
    | inl same ↦ absurd (ground (arith, at, get-remove_key s.buckets k j, same))
    | inr other ↦
        let at_j : get s.buckets j ≡ some c =
          ground (arith, at, get-remove_key s.buckets k j, other) in
        let apart = other_handle s pending k j b c h at_k at_j other in
        IsHeld-kept s.window_ms s.timers (clear_timer b.timer_handle s).timers j c (group j pending)
          (group j (others k pending)) (rw (apart) refl) (group-others_apart k j pending other)
          (h.held j c at_j)
  ];
  free = λ j gone. elim (Bool-cases (text_eq k j)) [
    | inl same ↦
        subst (λ x. group x (others k pending) ≡ []) ((text_eq_iff k j).0 same)
          (group-others k pending)
    | inr other ↦
        group-others_apart k j pending other
        ∙ h.free j (ground (arith, gone, get-remove_key s.buckets k j, other))
  ];
  armed_of = λ i t on.
      let (other, was_on) = clear-on s b.timer_handle i t on in
      let (c, at, is) = h.armed_of i t was_on in
      let apart = other_key s pending k b i t h at_k was_on other in
      (c, ground (arith, at, get-remove_key s.buckets k t.key, apart), is);
  bounded = λ i t on. h.bounded i t (clear-on s b.timer_handle i t on).1;
}

pub fire-resolved :
    (s : Debouncer) (pending : List Push) (k : Text) (b : Bucket)
    → IsHolding s pending
    → get s.buckets k ≡ some b
    → (fire_bucket k b (clear_timer b.timer_handle s)).resolved
      ≡ s.resolved ++ settle_group (group k pending)
unfolding settle_group
fire-resolved s pending k b h at_k =
    let held = h.held k b at_k in
    let g = group k pending in
    let same : resolve_all b.subscribers b.latest_payload b.coalesced_count
        ≡ resolve_all (promises g) held.last.payload (length g) =
      cc (held.payload, held.count, held.waits) in
    let unfolded : settle_group g ≡ resolve_all (promises g) held.last.payload (length g) =
      rw (settle_group, held.is_last) refl in
    ap (λ l. s.resolved ++ l) (same ∙ sym unfolded)
