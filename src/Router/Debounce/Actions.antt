-- ===== src/Router/Debounce/Actions.antt =====
-- One call of a debouncer, or one tick of a timer, against what it promises.
use wood_fired_tasks.Prelude.{
  ℕ, ◌+◌, ◌≤◌, ◌≡◌, refl, sym, ap, subst, ◌∙◌, inl, inr, true, none, some, List, [], ◌∷◌, ◌++◌,
  arith, leb, leb→le, ◌==◌, Bool-cases, Option-cases,
}
use mathlib.Core.List.{append-nil, append_assoc}
use mathlib.Core.Option.{some-injective}
use wood_fired_tasks.Prelude.Text.{Text, text_eq}
use wood_fired_tasks.Router.Debounce.{
  Bucket, Buckets, Timer, Debouncer, Resolved, get, remove_key, clear_timer, fire_bucket,
  tick_timer, tick, flush_each, clear_each,
}
use wood_fired_tasks.Router.Debounce.Keys.{text_eq_iff}
use wood_fired_tasks.Router.Debounce.Pending.{
  Push, group, others, latest, settle_group, Settles, settled, settles, empty-groups,
}
use wood_fired_tasks.Router.Debounce.Held.{IsHolding, fire-IsHolding, fire-resolved, clear-on}
use wood_fired_tasks.Router.Debounce.Distinct.{
  has_key, uniq_keys, uniq_keys-remove_key, remove_key-absent,
}

-- The states that the proofs go through.
pub record IsSound (s : Debouncer) (pending : List Push) : Type 0 where
  pub holding : IsHolding s pending
  pub distinct : uniq_keys s.buckets ≡ true

-- A tick resolves the pushes of one key, no earlier than a window after the last of them.
pub record Expires (s after : Debouncer) (pending : List Push) (now : ℕ) (key : Text) : Type 0 where
  pub last : Push
  pub is_last : latest (group key pending) ≡ some last
  pub in_time : last.at + s.window_ms ≤ now
  pub sound : IsSound after (others key pending)
  pub resolves : after.resolved ≡ s.resolved ++ settle_group (group key pending)
  pub same_window : after.window_ms ≡ s.window_ms
  pub same_next : after.next ≡ s.next

-- An armed timer that is due resolves the pushes of its key.
pub tick_timer-Expires :
    (s : Debouncer) (pending : List Push) (handle now : ℕ) (t : Timer)
    → IsSound s pending
    → s.timers handle ≡ some t
    → leb t.due now ≡ true
    → Expires s (tick_timer (some t) handle now s) pending now t.key
tick_timer-Expires s pending handle now t sound on due =
    let (b, at, is) = sound.holding.armed_of handle t on in
    let held = sound.holding.held t.key b at in
    let timer_is : t
        ≡ record { key = t.key; of_bucket = b.identity; due = held.last.at + s.window_ms } =
      some-injective t
        (record { key = t.key; of_bucket = b.identity; due = held.last.at + s.window_ms })
        (sym on ∙ ap s.timers (sym is) ∙ held.armed) in
    let fires : tick_timer (some t) handle now s
        ≡ fire_bucket t.key b (clear_timer b.timer_handle s) =
      let identity : (b.identity == t.of_bucket) ≡ true =
        ground (arith, ap (λ (x : Timer). x.of_bucket) timer_is) in
      let step : tick_timer (some t) handle now s ≡ fire_bucket t.key b (clear_timer handle s) =
        rw (due, at, identity) refl in
      step ∙ ap (λ h. fire_bucket t.key b (clear_timer h s)) (sym is) in
    subst (λ after. Expires s after pending now t.key) (sym fires)
      (record {
        last = held.last;
        is_last = held.is_last;
        in_time = subst (λ d. d ≤ now) (ap (λ (x : Timer). x.due) timer_is) (leb→le t.due now due);
        sound = record {
          holding = fire-IsHolding s pending t.key b sound.holding at;
          distinct = uniq_keys-remove_key s.buckets t.key sound.distinct;
        };
        resolves = fire-resolved s pending t.key b sound.holding at;
        same_window = refl;
        same_next = refl;
      })

-- Flushing settles every group.
pub flush_each-Settles :
    (m : Buckets) (s : Debouncer) (pending : List Push)
    → s.buckets ≡ m
    → IsSound s pending
    → (more : List Resolved) × Settles pending more
      × ((flush_each m s).resolved ≡ s.resolved ++ more)
      × IsSound (flush_each m s) []
      × ((flush_each m s).window_ms ≡ s.window_ms)
      × ((flush_each m s).next ≡ s.next)
unfolding flush_each get uniq_keys has_key remove_key
flush_each-Settles [] s pending is sound =
    let nothing : pending ≡ [] =
      empty-groups pending (λ k. sound.holding.free k (ap (λ m. get m k) is)) in
    (
      [],
      subst (λ ps. Settles ps []) (sym nothing) settled,
      sym (append-nil s.resolved),
      subst (IsSound s) nothing sound,
      refl,
      refl,
    )
flush_each-Settles ((k, b) ∷ m) s pending is sound =
    let at : get s.buckets k ≡ some b =
      ap (λ m. get m k) is ∙ ground (arith, (text_eq_iff k k).1 refl) in
    let s' = fire_bucket k b (clear_timer b.timer_handle s) in
    let distinct = subst (λ m. uniq_keys m ≡ true) is sound.distinct in
    let left : s'.buckets ≡ m =
      ap (λ m. remove_key m k) is
      ∙ ground
          (arith, (text_eq_iff k k).1 refl, remove_key-absent m k (ground (arith, distinct))) in
    let (more, order, resolved, sound', window, next) =
      flush_each-Settles m s' (others k pending) left (record {
        holding = fire-IsHolding s pending k b sound.holding at;
        distinct = uniq_keys-remove_key s.buckets k sound.distinct;
      }) in
    (
      settle_group (group k pending) ++ more,
      settles k order,
      resolved
          ∙ ap (λ l. l ++ more) (fire-resolved s pending k b sound.holding at)
          ∙ append_assoc s.resolved (settle_group (group k pending)) more,
      sound',
      window,
      next,
    )

-- Clearing disarms the timers of the buckets and arms none.
pub clear_each-on :
    (m : Buckets) (s : Debouncer) (i : ℕ) (t : Timer)
    → (clear_each m s).timers i ≡ some t
    → s.timers i ≡ some t
unfolding clear_each
clear_each-on [] s i t on = on
clear_each-on ((k, b) ∷ m) s i t on =
    (clear-on s b.timer_handle i t (clear_each-on m (clear_timer b.timer_handle s) i t on)).1

pub clear_each-off :
    (m : Buckets) (s : Debouncer) (k : Text) (b : Bucket) (t : Timer)
    → get m k ≡ some b
    → ¬ ((clear_each m s).timers b.timer_handle ≡ some t)
unfolding clear_each get
clear_each-off [] s k b t at on = ground (arith, at)
clear_each-off ((j, c) ∷ m) s k b t at on = elim (Bool-cases (text_eq j k)) [
  | inl same ↦
      let is : c ≡ b = some-injective c b (ground (arith, at, same)) in
      let off =
        clear-on s c.timer_handle b.timer_handle t
          (clear_each-on m (clear_timer c.timer_handle s) b.timer_handle t on) in
      ground (arith, off.0, ap (λ (x : Bucket). x.timer_handle) is)
  | inr other ↦ clear_each-off m (clear_timer c.timer_handle s) k b t (ground (arith, at, other)) on
]

-- The timer that resolves a group.
pub armed-resolves :
    (s : Debouncer) (pending : List Push) (k : Text) (last : Push)
    → IsSound s pending
    → latest (group k pending) ≡ some last
    → (handle : ℕ) × ((now : ℕ)
        → last.at + s.window_ms ≤ now
        → (tick handle now s).resolved ≡ s.resolved ++ settle_group (group k pending))
unfolding tick latest
armed-resolves s pending k last sound is_last = elim (Option-cases (get s.buckets k)) [
  | inl gone ↦
      let empty : latest (group k pending) ≡ none = ap latest (sound.holding.free k gone) in
      absurd (ground (arith, sym empty ∙ is_last))
  | inr (b, at) ↦
      let held = sound.holding.held k b at in
      let timer : Timer = record {
        key = k;
        of_bucket = b.identity;
        due = held.last.at + s.window_ms;
      } in
      let same = some-injective last held.last (sym is_last ∙ held.is_last) in
      (
        b.timer_handle,
        λ now late.
            let due : leb (held.last.at + s.window_ms) now ≡ true =
              ground (arith, late, ap (λ (p : Push). p.at) same) in
            let e = tick_timer-Expires s pending b.timer_handle now timer sound held.armed due in
            ap (λ o. (tick_timer o b.timer_handle now s).resolved) held.armed ∙ e.resolves,
      )
]
