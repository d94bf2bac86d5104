-- ===== src/Tasks/Claims/Lapse.antt =====
-- When a claim lapses, and what a sweep leaves.
use mathlib.Core.Option
use wood_fired_tasks.Prelude.{
  ℕ, ◌+◌, ◌/◌, ◌<◌, ◌≡◌, ◌↔◌, refl, inl, inr, Bool, true, false, Option, none, some, List, [], ◌∷◌,
  has, ◌==◌, arith, if◌then◌else◌, Option-cases,
}
use wood_fired_tasks.Tasks.Table.{Task, find_by_id, find_by_id-update_row, Unique}
use wood_fired_tasks.Tasks.Repository.{renewed}
use wood_fired_tasks.Tasks.Claims.{
  ttl_seconds, is_stale, find_stale_claims, is_held, released, release_claim, release_all, sweep,
  claim_remaining_seconds,
}

-- At any millisecond, the remaining time that a reader of the task sees is 0 exactly if the claim is
-- stale for a sweep at that time rounded up to a whole second.
pub claim_remaining_iff_stale :
    (now_ms : ℕ) (task : Task)
    → (claim_remaining_seconds now_ms task ≡ some 0)
      ↔ (is_stale ((now_ms + 999) / 1000) task ≡ true)
unfolding claim_remaining_seconds is_stale
claim_remaining_iff_stale now_ms task = (λ h. ground arith, λ h. ground arith)

-- A claim or a renewal keeps the task from the sweep for the whole timeout.
pub renewed_not_stale :
    (at now : ℕ) (task : Task) → now < at + ttl_seconds → is_stale now (renewed at task) ≡ false
unfolding is_stale renewed
renewed_not_stale at now task soon = ground arith

abbrev release_if_held : ℕ → Task → Task
release_if_held now task = if is_held task then released now task else task

find_by_id-release_claim :
    (now : ℕ) (ts : List Task) (id j : ℕ)
    → find_by_id (release_claim now ts id).0 j
      ≡ (if id == j then Option.map (release_if_held now) (find_by_id ts j) else find_by_id ts j)
unfolding release_claim released
find_by_id-release_claim now ts id j =
    ground (arith, find_by_id-update_row ts id j (released now) (λ t. refl))

release_if_held-twice :
    (now : ℕ) (o : Option Task)
    → Option.map (release_if_held now) (Option.map (release_if_held now) o)
      ≡ Option.map (release_if_held now) o
unfolding released
release_if_held-twice now o = ground arith

find_by_id-release_all :
    (now : ℕ) (ts : List Task) (ids : List ℕ) (j : ℕ)
    → find_by_id (release_all now ts ids).0 j
      ≡ (if has ids j then Option.map (release_if_held now) (find_by_id ts j) else find_by_id ts j)
unfolding release_all has
find_by_id-release_all now ts [] j = refl
find_by_id-release_all now ts (id ∷ ids) j = ground (
  arith,
  find_by_id-release_all now (release_claim now ts id).0 ids j,
  find_by_id-release_claim now ts id j,
  release_if_held-twice now (find_by_id ts j),
)

abbrev is_stale_row : ℕ → Option Task → Bool
is_stale_row now none = false
is_stale_row now (some task) = is_stale now task

find_stale_claims-none :
    (now : ℕ) (ts : List Task) (j : ℕ)
    → find_by_id ts j ≡ none
    → has (find_stale_claims now ts) j ≡ false
unfolding find_stale_claims find_by_id has
find_stale_claims-none now [] j h = refl
find_stale_claims-none now (t ∷ ts) j h = ground (arith, find_stale_claims-none now ts j)

has-find_stale_claims :
    (now : ℕ) (ts : List Task) (j : ℕ)
    → Unique ts
    → has (find_stale_claims now ts) j ≡ is_stale_row now (find_by_id ts j)
unfolding find_stale_claims find_by_id has
has-find_stale_claims now [] j u = refl
has-find_stale_claims now (t ∷ ts) j (fresh, u) =
    ground (arith, has-find_stale_claims now ts j u, find_stale_claims-none now ts t.id fresh)

is_stale-is_held : (now : ℕ) (task : Task) → is_stale now task ≡ true → is_held task ≡ true
unfolding is_stale
is_stale-is_held now task h = ground arith

-- Where ids are unique, a sweep releases the tasks whose claim is stale, all of them, and leaves every
-- other row as it was.
pub find_by_id-sweep :
    (now : ℕ) (ts : List Task) (j : ℕ)
    → Unique ts
    → find_by_id (sweep now ts).0 j
      ≡ Option.map (λ t. if is_stale now t then released now t else t) (find_by_id ts j)
unfolding sweep
find_by_id-sweep now ts j u =
    let found = find_by_id-release_all now ts (find_stale_claims now ts) j in
    let stale = has-find_stale_claims now ts j u in
    elim (Option-cases (find_by_id ts j)) [
      | inl e ↦ ground (arith, found, stale, e)
      | inr (task, e) ↦ ground (arith, found, stale, e, is_stale-is_held now task)
    ]
