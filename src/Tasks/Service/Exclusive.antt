-- ===== src/Tasks/Service/Exclusive.antt =====
-- What a claim is worth.
use wood_fired_tasks.Prelude.{
  ℕ, ◌+◌, ◌<◌, ◌≡◌, refl, sym, subst, inl, inr, true, false, Option, some, List, [], ◌∷◌, arith,
  Option-cases,
}
use wood_fired_tasks.Prelude.Text.{Text, text_eq}
use wood_fired_tasks.Prelude.Outcome.{ok, err}
use wood_fired_tasks.Errors.{business_error}
use wood_fired_tasks.Tasks.Table.{Task, find_by_id, find_by_id-update_row, Unique}
use wood_fired_tasks.Tasks.Rows.{Unique-update_row}
use wood_fired_tasks.Tasks.Repository.{claimed, held_by, renewed}
use wood_fired_tasks.Tasks.Service.{Database, Event, fetch, claim}
use wood_fired_tasks.Tasks.Service.Claiming.{claim-Written}
use wood_fired_tasks.Tasks.Claims.{ttl_seconds, is_stale, sweep}
use wood_fired_tasks.Tasks.Claims.Lapse.{find_by_id-sweep}

text_eq_refl : (a : Text) → text_eq a a ≡ true
text_eq_refl [] = refl
text_eq_refl (c ∷ cs) = ground (arith, text_eq_refl cs)

text_eq-same : (a b c : Text) → text_eq a b ≡ true → text_eq b c ≡ false → text_eq a c ≡ false
text_eq-same [] [] c h k = k
text_eq-same [] (y ∷ b) c h k = ground (arith, h)
text_eq-same (x ∷ a) [] c h k = ground (arith, h)
text_eq-same (x ∷ a) (y ∷ b) [] h k = refl
text_eq-same (x ∷ a) (y ∷ b) (z ∷ c) h k = ground (arith, h, k, text_eq-same a b c)

module _ (now : ℕ) (s t : Database) (id : ℕ) (assignee : Text) (user : Option ℕ)
    (events : List Event) (accepted : claim now s id assignee user ≡ ok (t, events)) where
  -- The row that an accepted claim leaves.
  record IsTaken : Type 0 where
    row : Task
    found : find_by_id t.tasks id ≡ some row
    held : held_by assignee row ≡ true
    since : row.claimed_at ≡ some now
    fresh : row.updated_at ≡ now

  claim-IsTaken : IsTaken
  unfolding renewed claimed held_by
  claim-IsTaken =
      let (task, found, w) = claim-Written now s id assignee user t events accepted in
      elim w [
        | inl (held, after) ↦ record {
          row = renewed now task;
          found =
              ground (
                arith,
                found,
                after,
                find_by_id-update_row s.tasks id id (renewed now) (λ u. refl),
              );
          held = held;
          since = refl;
          fresh = refl;
        }
        | inr (free, after) ↦ record {
          row = claimed now assignee user task;
          found = ground (
            arith,
            found,
            after,
            find_by_id-update_row s.tasks id id (claimed now assignee user) (λ u. refl),
          );
          held = ground (arith, text_eq_refl assignee);
          since = refl;
          fresh = refl;
        }
      ]

  claim-Unique : Unique s.tasks → Unique t.tasks
  unfolding renewed claimed
  claim-Unique unique =
      let (task, found, w) = claim-Written now s id assignee user t events accepted in
      elim w [
        | inl (held, after) ↦
            subst (λ d. Unique d.tasks) (sym after)
              (Unique-update_row s.tasks id (renewed now) (λ u. refl) unique)
        | inr (free, after) ↦
            subst (λ d. Unique d.tasks) (sym after)
              (Unique-update_row s.tasks id (claimed now assignee user) (λ u. refl) unique)
      ]

  -- After an accepted claim, anyone else's claim of the task is refused.
  pub claim_excludes :
      (other : Text) (later : ℕ) (other_user : Option ℕ)
      → text_eq assignee other ≡ false
      → claim later t id other other_user ≡ err business_error
  unfolding claim fetch held_by
  claim_excludes other later other_user differs =
      let c = claim-IsTaken in
      elim (Option-cases c.row.assignee) [
        | inl nobody ↦ absurd (ground (arith, c.held, nobody))
        | inr (holder, e) ↦
            let refused = text_eq-same holder assignee other (ground (arith, c.held, e)) differs in
            ground (arith, c.found, c.held, e, refused)
      ]

  -- Where ids are unique, an accepted claim survives every sweep of the next thirty minutes.
  pub claim_lasts :
      (later : ℕ)
      → Unique s.tasks
      → later < now + ttl_seconds
      → (row : Task) × (held_by assignee row ≡ true)
        × (find_by_id (sweep later t.tasks).0 id ≡ some row)
  unfolding is_stale
  claim_lasts later unique soon =
      let c = claim-IsTaken in
      let swept = find_by_id-sweep later t.tasks id (claim-Unique unique) in
      (c.row, c.held, ground (arith, swept, c.found, c.since, c.fresh, soon))
