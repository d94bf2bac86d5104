-- ===== src/Router/Debounce/Pushes.antt =====
-- A push joins the pushes of its key, and restarts their window.
use wood_fired_tasks.Prelude.{
  ℕ, suc, ◌+◌, ◌≡◌, refl, sym, ap, subst, ◌∙◌, inl, inr, false, Option, none, some, List, [], ◌∷◌,
  ◌++◌, arith, length, ◌==◌, ==_iff, ==-refl, Bool-cases, if◌then◌else◌,
}
use mathlib.Core.Option.{some-injective}
use wood_fired_tasks.Prelude.Text.{Text, text_eq}
use wood_fired_tasks.Router.Debounce.{
  Bucket, Timer, Debouncer, get, set, clear_timer, fresh_bucket, joined, push_at,
}
use wood_fired_tasks.Router.Debounce.Keys.{text_eq_iff, get-set}
use wood_fired_tasks.Router.Debounce.Pending.{Push, group, promises, group-snoc, group-snoc_other}
use wood_fired_tasks.Router.Debounce.Held.{
  IsHeld, IsHolding, IsHeld-kept, IsHeld-push, other_handle, other_key, clear-on,
}

module _ (s : Debouncer) (pending : List Push) (k : Text) (payload now : ℕ)
    (holds : IsHolding s pending) where
  abbrev pushed : Push
  pushed = record { key = k; payload = payload; promise = s.next; at = now }

  -- The state with a bucket for the key, and its timer beside those of the other keys.
  abbrev with_bucket : (ℕ → Option Timer) → Bucket → Debouncer
  with_bucket timers b = record s {
    buckets = set s.buckets k b;
    timers = λ h.
        if h == s.next
        then some (record { key = k; of_bucket = b.identity; due = now + s.window_ms })
        else timers h;
    next = suc s.next;
  }

  module _ (timers : ℕ → Option Timer)
      (keeps : (j : Text) (c : Bucket)
        → get s.buckets j ≡ some c
        → text_eq k j ≡ false
        → timers c.timer_handle ≡ s.timers c.timer_handle)
      (only : (i : ℕ) (t : Timer)
        → timers i ≡ some t
        → (s.timers i ≡ some t) × (text_eq k t.key ≡ false))
      (b : Bucket) (held_by : b.timer_handle ≡ s.next) (same_payload : b.latest_payload ≡ payload)
      (count : b.coalesced_count ≡ suc (length (group k pending)))
      (waits : b.subscribers ≡ promises (group k pending) ++ s.next ∷ []) where
    bucket-IsHeld :
        IsHeld s.window_ms (with_bucket timers b).timers k b (group k (pending ++ pushed ∷ []))
    bucket-IsHeld =
        let armed : (with_bucket timers b).timers b.timer_handle
            ≡ some (record { key = k; of_bucket = b.identity; due = now + s.window_ms }) =
          rw (held_by, ==-refl s.next) refl in
        subst (IsHeld s.window_ms (with_bucket timers b).timers k b)
          (sym (group-snoc k pending pushed ((text_eq_iff k k).1 refl)))
          (IsHeld-push s.window_ms now (with_bucket timers b).timers k b (group k pending) pushed
            same_payload count waits armed)

    IsHeld-other :
        (j : Text) (c : Bucket)
        → text_eq k j ≡ false
        → get s.buckets j ≡ some c
        → IsHeld s.window_ms (with_bucket timers b).timers j c (group j (pending ++ pushed ∷ []))
    IsHeld-other j c other at =
        let held = holds.held j c at in
        let low = holds.bounded c.timer_handle _ held.armed in
        let apart : (c.timer_handle == s.next) ≡ false = ground (arith, low) in
        IsHeld-kept s.window_ms s.timers (with_bucket timers b).timers j c (group j pending)
          (group j (pending ++ pushed ∷ [])) (rw (apart) (keeps j c at other))
          (group-snoc_other j pending pushed other) held

    with_bucket-IsHolding : IsHolding (with_bucket timers b) (pending ++ pushed ∷ [])
    with_bucket-IsHolding = record {
      held = λ j c at. elim (Bool-cases (text_eq k j)) [
        | inl same ↦
            let is : b ≡ c =
              some-injective b c (ground (arith, at, get-set s.buckets k j b, same)) in
            subst
              (λ x.
                IsHeld s.window_ms (with_bucket timers b).timers x c
                  (group x (pending ++ pushed ∷ [])))
              ((text_eq_iff k j).0 same)
              (subst
                (λ x.
                  IsHeld s.window_ms (with_bucket timers b).timers k x
                    (group k (pending ++ pushed ∷ [])))
                is bucket-IsHeld)
        | inr other ↦ IsHeld-other j c other (ground (arith, at, get-set s.buckets k j b, other))
      ];
      free = λ j gone. elim (Bool-cases (text_eq k j)) [
        | inl same ↦ absurd (ground (arith, gone, get-set s.buckets k j b, same))
        | inr other ↦
            group-snoc_other j pending pushed other
            ∙ holds.free j (ground (arith, gone, get-set s.buckets k j b, other))
      ];
      armed_of = λ i t on. elim (Bool-cases (i == s.next)) [
        | inl same ↦
            let mine : (with_bucket timers b).timers i
                ≡ some (record { key = k; of_bucket = b.identity; due = now + s.window_ms }) =
              rw (same) refl in
            let is =
              some-injective (record { key = k; of_bucket = b.identity; due = now + s.window_ms }) t
                (sym mine ∙ on) in
            let key_is : k ≡ t.key = ap (λ (x : Timer). x.key) is in
            (
              b,
              ground (arith, get-set s.buckets k t.key b, (text_eq_iff k t.key).1 key_is),
              held_by ∙ sym ((==_iff i s.next).0 same),
            )
        | inr other ↦
            let (was_on, apart) = only i t (ground (arith, on, other)) in
            let (c, at, is) = holds.armed_of i t was_on in
            (c, ground (arith, at, get-set s.buckets k t.key b, apart), is)
      ];
      bounded = λ i t on. elim (Bool-cases (i == s.next)) [
        | inl same ↦ ground (arith, same)
        | inr other ↦
            let low = holds.bounded i t (only i t (ground (arith, on, other))).0 in
            omega (arith, low)
      ];
    }

  push_at-cases :
      (o : Option Bucket)
      → get s.buckets k ≡ o
      → IsHolding (push_at k payload now o s) (pending ++ pushed ∷ [])
  unfolding promises
  push_at-cases (some b) at_k =
      let held = holds.held k b at_k in
      with_bucket-IsHolding (clear_timer b.timer_handle s).timers
        (λ j c at other.
          let apart = other_handle s pending k j b c holds at_k at other in rw (apart) refl)
        (λ i t on.
          let (other, was_on) = clear-on s b.timer_handle i t on in
          (was_on, other_key s pending k b i t holds at_k was_on other))
        (joined b s.next payload s.next) refl refl (ap suc held.count)
        (ap (λ l. l ++ s.next ∷ []) held.waits)
  push_at-cases none gone =
      let empty = holds.free k gone in
      with_bucket-IsHolding s.timers (λ j c at other. refl)
        (λ i t on.
          let (c, at, _) = holds.armed_of i t on in
          (
            on,
            elim (Bool-cases (text_eq k t.key)) [
              | inr apart ↦ apart
              | inl same ↦
                  let at_k =
                    subst (λ x. get s.buckets x ≡ some c) (sym ((text_eq_iff k t.key).0 same)) at in
                  absurd (ground (arith, sym gone ∙ at_k))
            ],
          ))
        (fresh_bucket s.next payload s.next) refl refl (ap (λ g. suc (length g)) (sym empty))
        (ap (λ g. promises g ++ s.next ∷ []) (sym empty))

  pub push_at-IsHolding :
      IsHolding (push_at k payload now (get s.buckets k) s) (pending ++ pushed ∷ [])
  push_at-IsHolding = push_at-cases (get s.buckets k) refl
