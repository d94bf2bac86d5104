-- ===== src/Wsjf/Ranking/Positive.antt =====
-- The denominators of the shares and of their sums are positive.
use native.Mathlib.Nat.{mul-pos, one-le-pow}
use wood_fired_tasks.Prelude.{
  ℕ, ◌-◌, ◌*◌, ◌<◌, sym, subst, inl, inr, List, [], ◌∷◌, All, arith, Bool-cases, Option-cases, max,
}
use wood_fired_tasks.Wsjf.Tiers.{Ratio}
use wood_fired_tasks.Wsjf.Closure.{Distances}
use wood_fired_tasks.Wsjf.Ranking.{
  ScoredTask, Contribution, contribution_of, contributions, add_ratio, ratio_leb, sum_from, whole,
  effective_cod,
}
use wood_fired_tasks.Wsjf.Ranking.Shares.{contribution_of-cases}

abbrev HasDenominator : Ratio → Type 0
HasDenominator r = 0 < r.denominator

abbrev HaveDenominators : List Contribution → Type 0
HaveDenominators cs = All (λ c. HasDenominator c.contribution) cs

contributions-HaveDenominators :
    (tasks : List ScoredTask) (distance : Distances) (vs : List ℕ)
    → HaveDenominators (contributions tasks distance vs)
unfolding contributions
contributions-HaveDenominators tasks distance [] = tt
contributions-HaveDenominators tasks distance (v ∷ vs) =
    let rest = contributions-HaveDenominators tasks distance vs in
    elim (Option-cases (contribution_of tasks distance v)) [
      | inl absent ↦ rw (contributions, absent) rest
      | inr (c, there) ↦
          let (base, d, _, _, _, is) = contribution_of-cases tasks distance v c there in
          let positive : HasDenominator c.contribution =
            subst (λ (x : Contribution). HasDenominator x.contribution) (sym is)
              (one-le-pow (d - 1) 2 (omega arith)) in
          rw (contributions, there) (positive, rest)
    ]

sum_from-HasDenominator :
    (sum : Ratio) (cs : List Contribution)
    → HasDenominator sum
    → HaveDenominators cs
    → HasDenominator (sum_from sum cs)
unfolding sum_from
sum_from-HasDenominator sum [] h hs = h
sum_from-HasDenominator sum (c ∷ cs) h (hc, hs) =
    sum_from-HasDenominator (add_ratio sum c.contribution) cs (mul-pos h hc) hs

effective_cod-HasDenominator :
    (base : ℕ) (cs : List Contribution)
    → HaveDenominators cs
    → HasDenominator (effective_cod base cs)
unfolding effective_cod
effective_cod-HasDenominator base cs hs =
    let positive = sum_from-HasDenominator (whole 0) cs (omega arith) hs in
    let sum = add_ratio (whole base) (sum_from (whole 0) cs) in
    elim (Bool-cases (ratio_leb sum (whole (base * 3)))) [
      | inl fits ↦ rw (effective_cod, fits) (omega (arith, positive))
      | inr much ↦ rw (effective_cod, much) (omega arith)
    ]

-- A row of contributions to a task has a quotient.
pub effective-positive :
    (tasks : List ScoredTask) (distance : Distances) (vs : List ℕ) (base size : ℕ)
    → 0 < (effective_cod base (contributions tasks distance vs)).denominator * max size 1
effective-positive tasks distance vs base size =
    mul-pos
      (effective_cod-HasDenominator base (contributions tasks distance vs)
        (contributions-HaveDenominators tasks distance vs))
      (omega arith)
