-- ===== src/Wsjf/Ranking/Order.antt =====
-- The order of the rows, and the tasks that have one.
use wood_fired_tasks.Prelude.{
  ℕ, ◌≡◌, refl, sym, ap, subst, ◌∙◌, inl, inr, Bool, true, false, ◌||◌, List, [], ◌∷◌, All, arith,
  has, ◌==◌, Bool-cases,
}
use wood_fired_tasks.Prelude.Sort.{place, sort}
use wood_fired_tasks.Dependencies.Degrees.{uniq}
use wood_fired_tasks.Wsjf.Ranking.{RankedTask, ScoredTask, rank_before}

module _ {ℓ} {A : Type ℓ} (before : A → A → Bool) where
  -- Each comes before the next.
  abbrev pub Ordered : List A → Type 0
  Ordered [] = Unit
  Ordered (x ∷ []) = Unit
  Ordered (x ∷ y ∷ ys) = (before x y ≡ true) × Ordered (y ∷ ys)

  module _ (total : (x y : A) → before x y ≡ false → before y x ≡ true) where
    Ordered-place-head :
        (x y : A) (ys : List A)
        → Ordered (y ∷ ys)
        → before y x ≡ true
        → Ordered (y ∷ place before x ys)
    unfolding place
    Ordered-place-head x y [] o h = (h, tt)
    Ordered-place-head x y (z ∷ ys) (yz, o) h = elim (Bool-cases (before x z)) [
      | inl first ↦ rw (place, first) (h, (first, o))
      | inr later ↦ rw (place, later) (yz, Ordered-place-head x z ys o (total x z later))
    ]

    Ordered-place : (x : A) (ys : List A) → Ordered ys → Ordered (place before x ys)
    unfolding place
    Ordered-place x [] o = tt
    Ordered-place x (y ∷ ys) o = elim (Bool-cases (before x y)) [
      | inl first ↦ rw (place, first) (first, o)
      | inr later ↦ rw (place, later) (Ordered-place-head x y ys o (total x y later))
    ]

    pub Ordered-sort : (xs : List A) → Ordered (sort before xs)
    unfolding sort
    Ordered-sort [] = tt
    Ordered-sort (x ∷ xs) = Ordered-place x (sort before xs) (Ordered-sort xs)

  place-first : (x y : A) (ys : List A) → before x y ≡ true → place before x (y ∷ ys) ≡ x ∷ y ∷ ys
  unfolding place
  place-first x y ys h = rw (place, h) refl

  place-later :
      (x y : A) (ys : List A) → before x y ≡ false → place before x (y ∷ ys) ≡ y ∷ place before x ys
  unfolding place
  place-later x y ys h = rw (place, h) refl

  All-place : (P : A → Type 0) (x : A) (ys : List A) → P x → All P ys → All P (place before x ys)
  unfolding place
  All-place P x [] p all_ys = (p, tt)
  All-place P x (y ∷ ys) p (q, all_ys) = elim (Bool-cases (before x y)) [
    | inl first ↦ subst (All P) (sym (place-first x y ys first)) (p, (q, all_ys))
    | inr later ↦ subst (All P) (sym (place-later x y ys later)) (q, All-place P x ys p all_ys)
  ]

  pub All-sort : (P : A → Type 0) (xs : List A) → All P xs → All P (sort before xs)
  unfolding sort
  All-sort P [] h = tt
  All-sort P (x ∷ xs) (p, h) = All-place P x (sort before xs) p (All-sort P xs h)

-- The order of the rows compares any two.
pub rank_before-total :
    (tasks : List ScoredTask) (a b : RankedTask)
    → rank_before tasks a b ≡ false
    → rank_before tasks b a ≡ true
unfolding rank_before
rank_before-total tasks a b h = ground (arith, h)

-- The ids of the rows.
unfoldable pub row_ids : List RankedTask → List ℕ
row_ids [] = []
row_ids (r ∷ rs) = r.task_id ∷ row_ids rs

module _ (before : RankedTask → RankedTask → Bool) where
  has-row_ids-place :
      (x : RankedTask) (ys : List RankedTask) (v : ℕ)
      → has (row_ids (place before x ys)) v ≡ has (row_ids (x ∷ ys)) v
  unfolding place row_ids has
  has-row_ids-place x [] v = refl
  has-row_ids-place x (y ∷ ys) v = elim (Bool-cases (before x y)) [
    | inl first ↦ rw (place, first) refl
    | inr later ↦ rw (place, later) (ground (arith, has-row_ids-place x ys v))
  ]

  uniq-row_ids-place :
      (x : RankedTask) (ys : List RankedTask)
      → uniq (row_ids (place before x ys)) ≡ uniq (row_ids (x ∷ ys))
  unfolding place row_ids has uniq
  uniq-row_ids-place x [] = refl
  uniq-row_ids-place x (y ∷ ys) = elim (Bool-cases (before x y)) [
    | inl first ↦ rw (place, first) refl
    | inr later ↦
        rw (place, later)
          (ground (arith, uniq-row_ids-place x ys, has-row_ids-place x ys y.task_id))
  ]

  -- Sorting loses none and doubles none.
  pub has-row_ids-sort :
      (xs : List RankedTask) (v : ℕ) → has (row_ids (sort before xs)) v ≡ has (row_ids xs) v
  unfolding sort row_ids has
  has-row_ids-sort [] v = refl
  has-row_ids-sort (x ∷ xs) v =
      has-row_ids-place x (sort before xs) v ∙ ap (λ b. x.task_id == v || b) (has-row_ids-sort xs v)

  pub uniq-row_ids-sort :
      (xs : List RankedTask) → uniq (row_ids (sort before xs)) ≡ uniq (row_ids xs)
  unfolding sort row_ids uniq
  uniq-row_ids-sort [] = refl
  uniq-row_ids-sort (x ∷ xs) =
      uniq-row_ids-place x (sort before xs)
      ∙ ground (arith, uniq-row_ids-sort xs, has-row_ids-sort xs x.task_id)
