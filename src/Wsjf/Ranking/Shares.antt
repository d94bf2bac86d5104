-- ===== src/Wsjf/Ranking/Shares.antt =====
-- What the dependents of a task add to its rank.
use wood_fired_tasks.Prelude.{
  ℕ, ◌-◌, ◌^◌, ◌≡◌, ◌≢◌, ◌↔◌, refl, sym, subst, ap, ◌∙◌, inl, inr, true, false, Option, none, some,
  List, [], ◌∷◌, arith, has, length, ◌==◌, ==_iff, Bool-cases, Option-cases, if◌then◌else◌,
}
use mathlib.Core.Option.{some-injective}
use wood_fired_tasks.Dependencies.Degrees.{uniq}
use wood_fired_tasks.Wsjf.Tiers.{Ratio}
use wood_fired_tasks.Wsjf.Closure.{Distances, distance_of, closure}
use wood_fired_tasks.Wsjf.Closure.Ways.{IsShortest}
use wood_fired_tasks.Wsjf.Closure.Shortest.{closure-IsShortest}
use wood_fired_tasks.Wsjf.Ranking.{
  ScoredTask, Contribution, base_cod, halved, contribution_of, contributions, dependent_ids,
}
use wood_fired_tasks.Wsjf.Ranking.Distinct.{is_some, uniq-dependent_ids, has-dependent_ids}

abbrev pub dependents : List Contribution → List ℕ
dependents [] = []
dependents (c ∷ cs) = c.dependent_id ∷ dependents cs

-- What is listed for a dependent.
abbrev pub share_of : List Contribution → ℕ → Option Ratio
share_of [] v = none
share_of (c ∷ cs) v = if c.dependent_id == v then some c.contribution else share_of cs v

unfoldable share : List ScoredTask → Distances → ℕ → Option Ratio
share tasks distance v = elim (contribution_of tasks distance v) [
  | none ↦ none
  | some c ↦ some c.contribution
]

contribution_of-intro :
    (tasks : List ScoredTask) (distance : Distances) (v base d : ℕ)
    → base_cod tasks v ≡ some base
    → base ≢ 0
    → distance_of distance v ≡ some d
    → contribution_of tasks distance v
      ≡ some (record { dependent_id = v; contribution = halved base d })
unfolding contribution_of
contribution_of-intro tasks distance v base d b positive at =
    let other : (base == 0) ≡ false = ground (arith, positive) in
    rw (contribution_of, b, at, other) refl

-- What counts: a scored base that is not 0, and a distance.
pub contribution_of-cases :
    (tasks : List ScoredTask) (distance : Distances) (v : ℕ) (c : Contribution)
    → contribution_of tasks distance v ≡ some c
    → (base d : ℕ) × (base_cod tasks v ≡ some base)
      × (base ≢ 0)
      × (distance_of distance v ≡ some d)
      × (c ≡ record { dependent_id = v; contribution = halved base d })
unfolding contribution_of
contribution_of-cases tasks distance v c h = elim (Option-cases (base_cod tasks v)) [
  | inl absent ↦
      let stop : contribution_of tasks distance v ≡ none = rw (contribution_of, absent) refl in
      absurd (ground (arith, sym h ∙ stop))
  | inr (base, b) ↦ elim (Option-cases (distance_of distance v)) [
    | inl far ↦
        let stop : contribution_of tasks distance v ≡ none = rw (contribution_of, b, far) refl in
        absurd (ground (arith, sym h ∙ stop))
    | inr (d, at) ↦ elim (Bool-cases (base == 0)) [
      | inl zero_base ↦
          let stop : contribution_of tasks distance v ≡ none =
            rw (contribution_of, b, at, zero_base) refl in
          absurd (ground (arith, sym h ∙ stop))
      | inr positive ↦
          let step : contribution_of tasks distance v
              ≡ some (record { dependent_id = v; contribution = halved base d }) =
            contribution_of-intro tasks distance v base d b (λ z. ground (arith, positive, z)) at in
          (
            base,
            d,
            b,
            λ z. ground (arith, positive, z),
            at,
            some-injective c (record { dependent_id = v; contribution = halved base d })
                (sym h ∙ step),
          )
    ]
  ]
]

share_of-contributions :
    (tasks : List ScoredTask) (distance : Distances) (vs : List ℕ) (v : ℕ)
    → share_of (contributions tasks distance vs) v
      ≡ (if has vs v then share tasks distance v else none)
unfolding contributions has share
share_of-contributions tasks distance [] v = refl
share_of-contributions tasks distance (x ∷ vs) v =
    let ih = share_of-contributions tasks distance vs v in
    elim (Option-cases (contribution_of tasks distance x)) [
      | inl absent ↦
          let here : share tasks distance x ≡ none = rw (share, absent) refl in
          rw (contributions, absent)
            (elim (Bool-cases (x == v)) [
              | inl same ↦
                  let gone : share tasks distance v ≡ none =
                    subst (λ i. share tasks distance i ≡ none) ((==_iff x v).0 same) here in
                  ground (arith, ih, gone, same)
              | inr other ↦ ground (arith, ih, other)
            ])
      | inr (c, there) ↦
          let (_, _, _, _, _, is) = contribution_of-cases tasks distance x c there in
          let here : share tasks distance x ≡ some c.contribution = rw (share, there) refl in
          let named : c.dependent_id ≡ x = ap (λ (e : Contribution). e.dependent_id) is in
          rw (contributions, there)
            (elim (Bool-cases (x == v)) [
              | inl same ↦
                  let found =
                    subst (λ i. share tasks distance i ≡ some c.contribution) ((==_iff x v).0 same)
                      here in
                  ground (arith, found, same, named)
              | inr other ↦ ground (arith, ih, other, named)
            ])
    ]

has-dependents :
    (tasks : List ScoredTask) (distance : Distances) (vs : List ℕ) (v : ℕ)
    → has vs v ≡ false
    → has (dependents (contributions tasks distance vs)) v ≡ false
unfolding contributions has
has-dependents tasks distance [] v h = refl
has-dependents tasks distance (x ∷ vs) v h =
    elim (Option-cases (contribution_of tasks distance x)) [
      | inl absent ↦
          rw (contributions, absent) (has-dependents tasks distance vs v (ground (arith, h)))
      | inr (c, there) ↦
          let (_, _, _, _, _, is) = contribution_of-cases tasks distance x c there in
          rw (contributions, there)
            (ground (arith, h, ap (λ e. e.dependent_id) is, has-dependents tasks distance vs v))
    ]

uniq-dependents :
    (tasks : List ScoredTask) (distance : Distances) (vs : List ℕ)
    → uniq vs ≡ true
    → uniq (dependents (contributions tasks distance vs)) ≡ true
unfolding contributions uniq
uniq-dependents tasks distance [] u = refl
uniq-dependents tasks distance (x ∷ vs) u = elim (Option-cases (contribution_of tasks distance x)) [
  | inl absent ↦ rw (contributions, absent) (uniq-dependents tasks distance vs (ground (arith, u)))
  | inr (c, there) ↦
      let (_, _, _, _, _, is) = contribution_of-cases tasks distance x c there in
      let out : has (dependents (contributions tasks distance vs)) c.dependent_id ≡ false =
        subst (λ i. has (dependents (contributions tasks distance vs)) i ≡ false)
          (sym (ap (λ (e : Contribution). e.dependent_id) is))
          (has-dependents tasks distance vs x (ground (arith, u))) in
      rw (contributions, there) (ground (arith, u, out, uniq-dependents tasks distance vs))
]

share-cases :
    (tasks : List ScoredTask) (distance : Distances) (v : ℕ) (r : Ratio)
    → share tasks distance v ≡ some r
    → (c : Contribution) × (contribution_of tasks distance v ≡ some c) × (r ≡ c.contribution)
unfolding share
share-cases tasks distance v r h = elim (Option-cases (contribution_of tasks distance v)) [
  | inl absent ↦
      let stop : share tasks distance v ≡ none = rw (share, absent) refl in
      absurd (ground (arith, sym h ∙ stop))
  | inr (c, there) ↦
      let step : share tasks distance v ≡ some c.contribution = rw (share, there) refl in
      (c, there, some-injective r c.contribution (sym h ∙ step))
]

shared-cases :
    (tasks : List ScoredTask) (distance : Distances) (vs : List ℕ) (v : ℕ) (r : Ratio)
    → share_of (contributions tasks distance vs) v ≡ some r
    → (has vs v ≡ true) × (share tasks distance v ≡ some r)
shared-cases tasks distance vs v r h =
    let e = sym (share_of-contributions tasks distance vs v) ∙ h in
    elim (Bool-cases (has vs v)) [
      | inl inside ↦ (inside, ground (arith, e, inside))
      | inr out ↦ absurd (ground (arith, e, out))
    ]

-- The halves of the bases of the scored tasks behind a task.
pub record IsShared (tasks : List ScoredTask) (downstream : ℕ → List ℕ) (id : ℕ)
    (cs : List Contribution) : Type 0 where
  pub distinct : uniq (dependents cs) ≡ true
  pub listed :
      (v : ℕ) (r : Ratio)
      → (share_of cs v ≡ some r) ↔ (
          (base d : ℕ) × (v ≢ id)
          × (base_cod tasks v ≡ some base)
          × (base ≢ 0)
          × IsShortest downstream id v d
          × (r ≡ record { numerator = base; denominator = 2 ^ (d - 1) }))

pub contributions-IsShared :
    (tasks : List ScoredTask) (nodes : List ℕ) (downstream : ℕ → List ℕ) (id : ℕ)
    → uniq nodes ≡ true
    → ((v w : ℕ) → has (downstream v) w ≡ true → has nodes w ≡ true)
    → has nodes id ≡ true
    → (found : Distances) × (closure (length nodes) downstream id ≡ some found)
      × IsShared tasks downstream id (contributions tasks found (dependent_ids id found))
contributions-IsShared tasks nodes downstream id distinct inside root =
    let (found, ends, shortest) = closure-IsShortest nodes downstream id distinct inside root in
    let vs = dependent_ids id found in
    (
      found,
      ends,
      record {
        distinct =
            uniq-dependents tasks found vs
              (uniq-dependent_ids (length nodes) id downstream found ends);
        listed = λ v r. (
          λ h.
              let (inside', shared) = shared-cases tasks found vs v r h in
              let (c, there, is) = share-cases tasks found v r shared in
              let (base, d, b, positive, at, named) = contribution_of-cases tasks found v c there in
              let apart = sym (has-dependent_ids id found v) ∙ inside' in
              (
                base,
                d,
                λ e. ground (arith, apart, e),
                b,
                positive,
                (shortest v d).0 at,
                is ∙ ap (λ (e : Contribution). e.contribution) named,
              ),
          λ (base, d, other, b, positive, way, is).
              let at = (shortest v d).1 way in
              let inside' = has-dependent_ids id found v in
              let there = contribution_of-intro tasks found v base d b positive at in
              let shared : share tasks found v ≡ some (halved base d) =
                unfold share in rw (share, there) refl in
              let present : has vs v ≡ true = ground (arith, inside', other, ap is_some at) in
              ground
                (arith, share_of-contributions tasks found vs v, present, shared, ap some (sym is)),
        );
      },
    )
