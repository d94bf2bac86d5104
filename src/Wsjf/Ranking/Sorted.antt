-- ===== src/Wsjf/Ranking/Sorted.antt =====
-- The order of the rows is a total preorder, so a sorted list has each row before all later ones.
use native.Mathlib.Nat.{mul-le-mul_right, le_of_mul-le-mul_right, mul_right_comm}
use wood_fired_tasks.Prelude.{
  ◌*◌, ◌<◌, ◌≤◌, ◌≡◌, ◌⊎◌, Bool, true, false, not, ◌&&◌, ◌||◌, List, [], ◌∷◌, All, arith, leb, ltb,
  leb→le, ◌==◌,
}
use wood_fired_tasks.Wsjf.Tiers.{Ratio}
use wood_fired_tasks.Wsjf.Ranking.{ScoredTask, RankedTask, ratio_leb, created_of, rank_before}
use wood_fired_tasks.Wsjf.Ranking.Order.{Ordered}

abbrev pub IsPositive : RankedTask → Type 0
IsPositive r = 0 < r.effective_wsjf.denominator

module _ {A : Type 0} (before : A → A → Bool) where
  -- Each before all later ones.
  abbrev pub Sorted : List A → Type 0
  Sorted [] = Unit
  Sorted (x ∷ xs) = All (λ y. before x y ≡ true) xs × Sorted xs

  module _ (P : A → Type 0)
      (trans : (x y z : A)
        → P x
        → P y
        → P z
        → before x y ≡ true
        → before y z ≡ true
        → before x z ≡ true) where
    All-trans :
        (x y : A) (zs : List A)
        → P x
        → P y
        → All P zs
        → before x y ≡ true
        → All (λ z. before y z ≡ true) zs
        → All (λ z. before x z ≡ true) zs
    All-trans x y [] px py ps xy h = tt
    All-trans x y (z ∷ zs) px py (pz, ps) xy (yz, h) =
        (trans x y z px py pz xy yz, All-trans x y zs px py ps xy h)

    pub Ordered-Sorted : (xs : List A) → All P xs → Ordered before xs → Sorted xs
    Ordered-Sorted [] ps o = tt
    Ordered-Sorted (x ∷ []) ps o = (tt, tt)
    Ordered-Sorted (x ∷ y ∷ ys) (px, (py, ps)) (xy, o) =
        let rest = Ordered-Sorted (y ∷ ys) (py, ps) o in
        ((xy, All-trans x y ys px py ps xy rest.0), rest)

ratio_leb_trans :
    (a b c : Ratio)
    → 0 < b.denominator
    → ratio_leb a b ≡ true
    → ratio_leb b c ≡ true
    → ratio_leb a c ≡ true
ratio_leb_trans a b c positive ab bc =
    let low =
      mul-le-mul_right {m = a.numerator * b.denominator} {n = b.numerator * a.denominator}
        c.denominator (leb→le _ _ ab) in
    let high =
      mul-le-mul_right {m = b.numerator * c.denominator} {n = c.numerator * b.denominator}
        a.denominator (leb→le _ _ bc) in
    let both : a.numerator * c.denominator * b.denominator
        ≤ c.numerator * a.denominator * b.denominator =
      omega (
        arith,
        low,
        high,
        mul_right_comm a.numerator b.denominator c.denominator,
        mul_right_comm b.numerator a.denominator c.denominator,
        mul_right_comm c.numerator b.denominator a.denominator,
      ) in
    ground (arith, le_of_mul-le-mul_right both positive)

-- Where the quotients are equal: the times, then the ids.
abbrev tie : List ScoredTask → RankedTask → RankedTask → Bool
tie tasks a b =
    let created_a = created_of tasks a.task_id in
    let created_b = created_of tasks b.task_id in
    ltb created_a created_b || (created_a == created_b && leb a.task_id b.task_id)

tie_trans :
    (tasks : List ScoredTask) (a b c : RankedTask)
    → tie tasks a b ≡ true
    → tie tasks b c ≡ true
    → tie tasks a c ≡ true
tie_trans tasks a b c h k = ground (arith, h, k)

-- Three rows: `ab` says that the quotient of the first is at most that of the second, and so on.
lexicographic :
    (ab ba bc cb ac ca tab tbc tac : Bool)
    → (ba ≡ true → cb ≡ true → ca ≡ true)
    → (ac ≡ true → cb ≡ true → ab ≡ true)
    → (ba ≡ true → ac ≡ true → bc ≡ true)
    → (tab ≡ true → tbc ≡ true → tac ≡ true)
    → (ab ≡ false → ba ≡ true)
    → (bc ≡ false → cb ≡ true)
    → (not ab || (ba && tab)) ≡ true
    → (not bc || (cb && tbc)) ≡ true
    → (not ac || (ca && tac)) ≡ true
lexicographic ab ba bc cb ac ca tab tbc tac h1 h2 h3 h4 h5 h6 h k =
    ground (arith, h, k, h1, h2, h3, h4, h5, h6)

ratio_leb_total : (a b : Ratio) → ratio_leb a b ≡ false → ratio_leb b a ≡ true
ratio_leb_total a b h = ground (arith, h)

rank_before_trans :
    (tasks : List ScoredTask) (a b c : RankedTask)
    → IsPositive a
    → IsPositive b
    → IsPositive c
    → rank_before tasks a b ≡ true
    → rank_before tasks b c ≡ true
    → rank_before tasks a c ≡ true
unfolding rank_before
rank_before_trans tasks a b c pa pb pc h k =
    let x = a.effective_wsjf in
    let y = b.effective_wsjf in
    let z = c.effective_wsjf in
    lexicographic (ratio_leb x y) (ratio_leb y x) (ratio_leb y z) (ratio_leb z y) (ratio_leb x z)
      (ratio_leb z x) (tie tasks a b) (tie tasks b c) (tie tasks a c)
      (λ yx zy. ratio_leb_trans z y x pb zy yx) (λ xz zy. ratio_leb_trans x z y pc xz zy)
      (λ yx xz. ratio_leb_trans y x z pa yx xz) (tie_trans tasks a b c) (ratio_leb_total x y)
      (ratio_leb_total y z) h k

-- Rows that each come before the next come before all later ones.
pub Ordered-rows :
    (tasks : List ScoredTask) (rows : List RankedTask)
    → All IsPositive rows
    → Ordered (rank_before tasks) rows
    → Sorted (rank_before tasks) rows
Ordered-rows tasks rows =
    Ordered-Sorted (rank_before tasks) IsPositive (rank_before_trans tasks) rows

-- A row may stand before another: its quotient is greater, or they are equal and its task was created
-- earlier, or at the same time and has no greater id.
abbrev pub MayPrecede : List ScoredTask → RankedTask → RankedTask → Type 0
MayPrecede tasks a b =
    (b.effective_wsjf.numerator * a.effective_wsjf.denominator
      < a.effective_wsjf.numerator * b.effective_wsjf.denominator)
    ⊎ (b.effective_wsjf.numerator * a.effective_wsjf.denominator
        ≡ a.effective_wsjf.numerator * b.effective_wsjf.denominator)
      × ((created_of tasks a.task_id < created_of tasks b.task_id)
          ⊎ (created_of tasks a.task_id ≡ created_of tasks b.task_id) × (a.task_id ≤ b.task_id))

-- Each row may stand before all later ones.
abbrev pub InOrder : List ScoredTask → List RankedTask → Type 0
InOrder tasks [] = Unit
InOrder tasks (r ∷ rows) = All (MayPrecede tasks r) rows × InOrder tasks rows

rank_before-MayPrecede :
    (tasks : List ScoredTask) (a b : RankedTask)
    → rank_before tasks a b ≡ true
    → MayPrecede tasks a b
unfolding rank_before
rank_before-MayPrecede tasks a b h = ground (arith, h)

All-MayPrecede :
    (tasks : List ScoredTask) (r : RankedTask) (rows : List RankedTask)
    → All (λ y. rank_before tasks r y ≡ true) rows
    → All (MayPrecede tasks r) rows
All-MayPrecede tasks r [] h = tt
All-MayPrecede tasks r (x ∷ rows) (first, h) =
    (rank_before-MayPrecede tasks r x first, All-MayPrecede tasks r rows h)

pub Sorted-InOrder :
    (tasks : List ScoredTask) (rows : List RankedTask)
    → Sorted (rank_before tasks) rows
    → InOrder tasks rows
Sorted-InOrder tasks [] h = tt
Sorted-InOrder tasks (r ∷ rows) (first, h) =
    (All-MayPrecede tasks r rows first, Sorted-InOrder tasks rows h)
