-- ===== src/Wsjf/Samples/Median.antt =====
-- The median bucket is a sample with at most half of the samples on either side.
use wood_fired_tasks.Prelude.{
  ℕ, zero, suc, ◌+◌, ◌-◌, ◌*◌, ◌/◌, ◌≤◌, ◌<◌, ◌≡◌, refl, sym, ap, subst, ◌∙◌, inl, inr, Bool, true,
  some, List, [], ◌∷◌, map, All, arith, has, length, ltb, leb, ◌==◌, ==_iff, Bool-cases,
  if◌then◌else◌,
}
use mathlib.Core.Option.{some-injective}
use wood_fired_tasks.Prelude.Sort.{sort, place, ascending, has-ascending}
use wood_fired_tasks.Wsjf.Tiers.Bounds.{IsFib}
use wood_fired_tasks.Wsjf.Samples.{index_of, nth, fib_table, fib_ordinal, fib_median_bucket}

unfoldable pub how_many : (ℕ → Bool) → List ℕ → ℕ
how_many p [] = 0
how_many p (x ∷ xs) = (if p x then 1 else 0) + how_many p xs

how_many-place :
    (p : ℕ → Bool) (x : ℕ) (xs : List ℕ)
    → how_many p (place leb x xs) ≡ (if p x then 1 else 0) + how_many p xs
unfolding how_many place
how_many-place p x [] = refl
how_many-place p x (y ∷ ys) = elim (Bool-cases (leb x y)) [
  | inl here ↦ rw (place, here) refl
  | inr later ↦ rw (place, later) (omega (arith, how_many-place p x ys))
]

how_many-ascending : (p : ℕ → Bool) (xs : List ℕ) → how_many p (ascending xs) ≡ how_many p xs
unfolding how_many sort
how_many-ascending p [] = refl
how_many-ascending p (x ∷ xs) =
    how_many-place p x (ascending xs) ∙ rw (how_many-ascending p xs) refl

length-place : (x : ℕ) (xs : List ℕ) → length (place leb x xs) ≡ suc (length xs)
unfolding place
length-place x [] = refl
length-place x (y ∷ ys) = ground (arith, length-place x ys)

length-ascending : (xs : List ℕ) → length (ascending xs) ≡ length xs
unfolding sort
length-ascending [] = refl
length-ascending (x ∷ xs) = omega (arith, length-place x (ascending xs), length-ascending xs)

abbrev IsSorted : List ℕ → Type 0
IsSorted [] = Unit
IsSorted (x ∷ xs) = All (λ y. x ≤ y) xs × IsSorted xs

All-le_trans : (a b : ℕ) (xs : List ℕ) → a ≤ b → All (λ y. b ≤ y) xs → All (λ y. a ≤ y) xs
All-le_trans a b [] h all = tt
All-le_trans a b (x ∷ xs) h (first, all) = (omega arith, All-le_trans a b xs h all)

All-place :
    (a x : ℕ) (xs : List ℕ) → a ≤ x → All (λ y. a ≤ y) xs → All (λ y. a ≤ y) (place leb x xs)
unfolding place
All-place a x [] h all = (h, tt)
All-place a x (y ∷ ys) h (first, all) = elim (Bool-cases (leb x y)) [
  | inl here ↦ rw (place, here) (h, (first, all))
  | inr later ↦ rw (place, later) (first, All-place a x ys h all)
]

place-IsSorted : (x : ℕ) (xs : List ℕ) → IsSorted xs → IsSorted (place leb x xs)
unfolding place
place-IsSorted x [] s = (tt, tt)
place-IsSorted x (y ∷ ys) (all, s) = elim (Bool-cases (leb x y)) [
  | inl here ↦
      rw (place, here)
        ((ground (arith, here), All-le_trans x y ys (ground (arith, here)) all), (all, s))
  | inr later ↦
      rw (place, later) (All-place y x ys (ground (arith, later)) all, place-IsSorted x ys s)
]

ascending-IsSorted : (xs : List ℕ) → IsSorted (ascending xs)
unfolding sort
ascending-IsSorted [] = tt
ascending-IsSorted (x ∷ xs) = place-IsSorted x (ascending xs) (ascending-IsSorted xs)

how_many-none : (t : ℕ) (xs : List ℕ) → All (λ y. t ≤ y) xs → how_many (λ y. ltb y t) xs ≡ 0
unfolding how_many
how_many-none t [] all = refl
how_many-none t (x ∷ xs) (first, all) = ground (arith, first, how_many-none t xs all)

how_many-le_length : (p : ℕ → Bool) (xs : List ℕ) → how_many p xs ≤ length xs
unfolding how_many
how_many-le_length p [] = omega arith
how_many-le_length p (x ∷ xs) = ground (arith, how_many-le_length p xs)

nth-ge : (a : ℕ) (xs : List ℕ) (i t : ℕ) → All (λ y. a ≤ y) xs → nth xs i ≡ some t → a ≤ t
unfolding nth
nth-ge a [] i t all h = absurd (ground (arith, h))
nth-ge a (x ∷ xs) zero t (first, all) h = subst (λ y. a ≤ y) (some-injective x t h) first
nth-ge a (x ∷ xs) (suc i) t (first, all) h = nth-ge a xs i t all h

nth-below :
    (xs : List ℕ) (i t : ℕ) → IsSorted xs → nth xs i ≡ some t → how_many (λ y. ltb y t) xs ≤ i
unfolding how_many nth
nth-below [] i t s h = omega arith
nth-below (x ∷ xs) zero t (all, s) h =
    let e = some-injective x t h in
    ground (arith, e, how_many-none t xs (subst (λ y. All (λ z. y ≤ z) xs) e all))
nth-below (x ∷ xs) (suc i) t (all, s) h = ground (arith, nth-below xs i t s h)

nth-above :
    (xs : List ℕ) (i t : ℕ)
    → IsSorted xs
    → nth xs i ≡ some t
    → how_many (λ y. ltb t y) xs + i < length xs
unfolding how_many nth
nth-above [] i t s h = absurd (ground (arith, h))
nth-above (x ∷ xs) zero t (all, s) h =
    ground (arith, some-injective x t h, how_many-le_length (λ y. ltb t y) xs)
nth-above (x ∷ xs) (suc i) t (all, s) h =
    ground (arith, nth-ge x xs i t all h, nth-above xs i t s h)

nth-some : (xs : List ℕ) (i : ℕ) → i < length xs → (t : ℕ) × (nth xs i ≡ some t)
unfolding nth
nth-some [] i h = absurd (omega arith)
nth-some (x ∷ xs) zero h = (x, refl)
nth-some (x ∷ xs) (suc i) h = nth-some xs i (omega arith)

has-nth : (xs : List ℕ) (i t : ℕ) → nth xs i ≡ some t → has xs t ≡ true
unfolding nth has
has-nth [] i t h = absurd (ground (arith, h))
has-nth (x ∷ xs) zero t h = ground (arith, some-injective x t h)
has-nth (x ∷ xs) (suc i) t h = ground (arith, has-nth xs i t h)

-- The positions in the table keep the order of the tiers.
index_of-lt : (a b : ℕ) → IsFib a → IsFib b → ltb (fib_ordinal a) (fib_ordinal b) ≡ ltb a b
unfolding index_of
index_of-lt a b h k = ground (arith, h, k)

nth-index_of : (a : ℕ) → IsFib a → nth fib_table (fib_ordinal a) ≡ some a
unfolding index_of nth
nth-index_of a h = ground (arith, h)

how_many-ordinals_below :
    (xs : List ℕ) (t : ℕ)
    → All IsFib xs
    → IsFib t
    → how_many (λ o. ltb o (fib_ordinal t)) (map fib_ordinal xs) ≡ how_many (λ x. ltb x t) xs
unfolding how_many
how_many-ordinals_below [] t all h = refl
how_many-ordinals_below (x ∷ xs) t (first, all) h =
    rw (index_of-lt x t first h, how_many-ordinals_below xs t all h) refl

how_many-ordinals_above :
    (xs : List ℕ) (t : ℕ)
    → All IsFib xs
    → IsFib t
    → how_many (λ o. ltb (fib_ordinal t) o) (map fib_ordinal xs) ≡ how_many (λ x. ltb t x) xs
unfolding how_many
how_many-ordinals_above [] t all h = refl
how_many-ordinals_above (x ∷ xs) t (first, all) h =
    rw (index_of-lt t x h first, how_many-ordinals_above xs t all h) refl

length-map : (f : ℕ → ℕ) (xs : List ℕ) → length (map f xs) ≡ length xs
length-map f [] = refl
length-map f (x ∷ xs) = omega (arith, length-map f xs)

-- A position is that of a sample.
has-map :
    (xs : List ℕ) (o : ℕ)
    → All IsFib xs
    → has (map fib_ordinal xs) o ≡ true
    → (t : ℕ) × (has xs t ≡ true) × IsFib t × (fib_ordinal t ≡ o)
unfolding has
has-map [] o all h = absurd (ground (arith, h))
has-map (x ∷ xs) o (first, all) h = elim (Bool-cases (fib_ordinal x == o)) [
  | inl here ↦ (x, ground arith, first, (==_iff (fib_ordinal x) o).0 here)
  | inr later ↦
      let (t, member, fib, e) = has-map xs o all (ground (arith, h, later)) in
      (t, ground (arith, member), fib, e)
]

-- On tiers, at least one, the median bucket is one of them, and at most half of them are below it, and
-- at most half above.
pub fib_median_bucket-balanced :
    (xs : List ℕ)
    → All IsFib xs
    → 0 < length xs
    → (t : ℕ) × (fib_median_bucket xs ≡ some t)
      × (has xs t ≡ true)
      × (2 * how_many (λ x. ltb x t) xs ≤ length xs)
      × (2 * how_many (λ x. ltb t x) xs ≤ length xs)
unfolding fib_median_bucket
fib_median_bucket-balanced xs all nonempty =
    let (o, at) = nth-some (ascending ordinals) mid (omega (arith, long)) in
    let member : has ordinals o ≡ true =
      sym (has-ascending ordinals o) ∙ has-nth (ascending ordinals) mid o at in
    let (t, sample, fib, e) = has-map xs o all member in
    let below =
      how_many-ascending (λ x. ltb x o) ordinals
      ∙ subst (λ y. how_many (λ x. ltb x y) ordinals ≡ how_many (λ x. ltb x t) xs) e
          (how_many-ordinals_below xs t all fib) in
    let above =
      how_many-ascending (λ x. ltb o x) ordinals
      ∙ subst (λ y. how_many (λ x. ltb y x) ordinals ≡ how_many (λ x. ltb t x) xs) e
          (how_many-ordinals_above xs t all fib) in
    let sorted = ascending-IsSorted ordinals in
    (
      t,
      rw (at) (ap (nth fib_table) (sym e) ∙ nth-index_of t fib),
      sample,
      omega (arith, below, nth-below (ascending ordinals) mid o sorted at),
      omega (arith, above, long, nth-above (ascending ordinals) mid o sorted at),
    )
  where
    ordinals : List ℕ
    ordinals = map fib_ordinal xs

    mid : ℕ
    mid = (length xs - 1) / 2

    long : length (ascending ordinals) ≡ length xs
    long = length-ascending ordinals ∙ length-map fib_ordinal xs
