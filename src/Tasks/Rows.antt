-- ===== src/Tasks/Rows.antt =====
-- How the writes of the table keep what holds of all its rows, and the uniqueness of their ids.
use mathlib.Core.Option.{some-injective}
use wood_fired_tasks.Prelude.{
  ℕ, ◌<◌, ◌≡◌, refl, sym, subst, inl, inr, Bool, false, none, some, List, [], ◌∷◌, ◌++◌, keep,
  arith, ◌==◌, Bool-cases, All,
}
use wood_fired_tasks.Tasks.Table.{Task, find_by_id, update_row, find_by_id-update_row, Unique}

module _ {κ} (P : Task → Type κ) where
  pub All-append : (ts us : List Task) → All P ts → All P us → All P (ts ++ us)
  All-append [] us h k = k
  All-append (t ∷ ts) us (p, h) k = (p, All-append ts us h k)

  pub All-keep : (test : Task → Bool) (ts : List Task) → All P ts → All P (keep test ts)
  All-keep test [] h = tt
  All-keep test (t ∷ ts) (p, h) = elim (Bool-cases (test t)) [
    | inl e ↦ rw (e) (p, All-keep test ts h)
    | inr e ↦ rw (e) (All-keep test ts h)
  ]

  pub All-map {λ'} :
      (Q : Task → Type λ') (ts : List Task) → ((t : Task) → P t → Q t) → All P ts → All Q ts
  All-map Q [] f h = tt
  All-map Q (t ∷ ts) f (p, h) = (f t p, All-map Q ts f h)

pub find_by_id-above : (ts : List Task) (n : ℕ) → All (λ t. t.id < n) ts → find_by_id ts n ≡ none
unfolding find_by_id
find_by_id-above [] n h = refl
find_by_id-above (t ∷ ts) n (p, h) = ground (arith, p, find_by_id-above ts n h)

pub find_by_id-keep :
    (test : Task → Bool) (ts : List Task) (id : ℕ)
    → find_by_id ts id ≡ none
    → find_by_id (keep test ts) id ≡ none
unfolding find_by_id
find_by_id-keep test [] id h = refl
find_by_id-keep test (t ∷ ts) id h = ground (arith, h, find_by_id-keep test ts id)

pub find_by_id-append :
    (ts : List Task) (u : Task) (id : ℕ)
    → find_by_id ts id ≡ none
    → (u.id == id) ≡ false
    → find_by_id (ts ++ u ∷ []) id ≡ none
unfolding find_by_id
find_by_id-append [] u id h other = ground (arith, other)
find_by_id-append (t ∷ ts) u id h other = ground (arith, h, find_by_id-append ts u id)

pub Unique-append :
    (ts : List Task) (u : Task) → All (λ t. t.id < u.id) ts → Unique ts → Unique (ts ++ u ∷ [])
unfolding find_by_id
Unique-append [] u below h = (refl, tt)
Unique-append (t ∷ ts) u (p, below) (fresh, h) =
    (find_by_id-append ts u t.id fresh (ground arith), Unique-append ts u below h)

pub Unique-keep : (test : Task → Bool) (ts : List Task) → Unique ts → Unique (keep test ts)
Unique-keep test [] h = tt
Unique-keep test (t ∷ ts) (fresh, h) = elim (Bool-cases (test t)) [
  | inl e ↦ rw (e) (find_by_id-keep test ts t.id fresh, Unique-keep test ts h)
  | inr e ↦ rw (e) (Unique-keep test ts h)
]

pub Unique-update_row :
    (ts : List Task) (id : ℕ) (change : Task → Task)
    → ((t : Task) → (change t).id ≡ t.id)
    → Unique ts
    → Unique (update_row ts id change)
unfolding update_row
Unique-update_row [] id change keeps h = tt
Unique-update_row (t ∷ ts) id change keeps (fresh, h) = elim (Bool-cases (t.id == id)) [
  | inl e ↦ rw (e) (rw (keeps t) fresh, h)
  | inr e ↦ rw (e) (
    ground (arith, fresh, find_by_id-update_row ts id t.id change keeps),
    Unique-update_row ts id change keeps h,
  )
]

-- Only the row that is found has to keep the property.
pub All-update_found {κ} :
    (P : Task → Type κ) (ts : List Task) (id : ℕ) (change : Task → Task) (u : Task)
    → find_by_id ts id ≡ some u
    → (P u → P (change u))
    → All P ts
    → All P (update_row ts id change)
unfolding find_by_id update_row
All-update_found P [] id change u found keeps h = tt
All-update_found P (t ∷ ts) id change u found keeps (p, h) = elim (Bool-cases (t.id == id)) [
  | inl e ↦
      let same = some-injective t u (ground (arith, found, e)) in
      rw (e) (subst (λ r. P r → P (change r)) (sym same) keeps p, h)
  | inr e ↦ rw (e) (p, All-update_found P ts id change u (ground (arith, found, e)) keeps h)
]
