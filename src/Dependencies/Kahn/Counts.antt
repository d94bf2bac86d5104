-- ===== src/Dependencies/Kahn/Counts.antt =====
-- Counts over the edges and the nodes of a drain: what still waits, and what is drained.
use wood_fired_tasks.Prelude.{
  ℕ, suc, ◌+◌, ◌≤◌, ◌<◌, ◌≡◌, refl, sym, subst, inl, inr, true, false, not, ◌&&◌, List, [], ◌∷◌,
  arith, has, length, ◌==◌, ==_iff, Bool-cases, if◌then◌else◌,
}
use wood_fired_tasks.Dependencies.CycleDetector.{Edge}
use wood_fired_tasks.Dependencies.CycleDetector.Edges.{holds}
use wood_fired_tasks.Dependencies.Degrees.{uniq}
use wood_fired_tasks.Dependencies.Kahn.{targets}

-- How many edges to the node come from one that is not drained.
unfoldable pub waiting : List Edge → List ℕ → ℕ → ℕ
waiting [] drained x = 0
waiting (e ∷ es) drained x =
    (if e.blocks_task_id == x && not (has drained e.task_id) then 1 else 0) + waiting es drained x

unfoldable pub times : List ℕ → ℕ → ℕ
times [] x = 0
times (n ∷ ns) x = (if n == x then 1 else 0) + times ns x

-- How many of the nodes are drained.
unfoldable pub count_in : List ℕ → List ℕ → ℕ
count_in [] drained = 0
count_in (x ∷ xs) drained = (if has drained x then 1 else 0) + count_in xs drained

pub waiting-pop :
    (es : List Edge) (drained : List ℕ) (id x : ℕ)
    → has drained id ≡ false
    → waiting es drained x ≡ waiting es (id ∷ drained) x + times (targets es id) x
unfolding waiting times targets has
waiting-pop [] drained id x h = refl
waiting-pop (e ∷ es) drained id x h = elim (Bool-cases (id == e.task_id)) [
  | inl same ↦
      let out : has drained e.task_id ≡ false =
        subst (λ i. has drained i ≡ false) ((==_iff id e.task_id).0 same) h in
      ground (arith, waiting-pop es drained id x h, out, same)
  | inr other ↦ ground (arith, waiting-pop es drained id x h, other)
]

pub waiting-zero :
    (es : List Edge) (drained : List ℕ) (u x : ℕ)
    → waiting es drained x ≡ 0
    → holds es u x ≡ true
    → has drained u ≡ true
unfolding waiting
waiting-zero [] drained u x h edge = absurd (ground arith)
waiting-zero (e ∷ es) drained u x h edge =
    elim (Bool-cases (e.task_id == u && e.blocks_task_id == x)) [
      | inl here ↦
          subst (λ i. has drained i ≡ true) ((==_iff e.task_id u).0 (ground (arith, here)))
            (ground (arith, h, here))
      | inr later ↦ waiting-zero es drained u x (ground (arith, h)) (ground (arith, edge, later))
    ]

pub waiting-pos :
    (es : List Edge) (drained : List ℕ) (x : ℕ)
    → 0 < waiting es drained x
    → (u : ℕ) × (holds es u x ≡ true) × (has drained u ≡ false)
unfolding waiting
waiting-pos [] drained x h = absurd (ground arith)
waiting-pos (e ∷ es) drained x h =
    elim (Bool-cases (e.blocks_task_id == x && not (has drained e.task_id))) [
      | inl here ↦ (e.task_id, ground (arith, here), ground (arith, here))
      | inr later ↦
          let (u, edge, out) = waiting-pos es drained x (ground (arith, h, later)) in
          (u, ground (arith, edge), out)
    ]

pub count_in-le_length : (xs drained : List ℕ) → count_in xs drained ≤ length xs
unfolding count_in
count_in-le_length [] drained = omega arith
count_in-le_length (x ∷ xs) drained = ground (arith, count_in-le_length xs drained)

count_in-other :
    (xs drained : List ℕ) (id : ℕ)
    → has xs id ≡ false
    → count_in xs (id ∷ drained) ≡ count_in xs drained
unfolding count_in has
count_in-other [] drained id h = refl
count_in-other (x ∷ xs) drained id h = ground (arith, h, count_in-other xs drained id)

pub count_in-pop :
    (xs drained : List ℕ) (id : ℕ)
    → uniq xs ≡ true
    → has xs id ≡ true
    → has drained id ≡ false
    → count_in xs (id ∷ drained) ≡ suc (count_in xs drained)
unfolding count_in has uniq
count_in-pop [] drained id u h out = absurd (ground arith)
count_in-pop (x ∷ xs) drained id u h out = elim (Bool-cases (x == id)) [
  | inl same ↦
      let e : x ≡ id = (==_iff x id).0 same in
      let fresh : has xs id ≡ false = subst (λ i. has xs i ≡ false) e (ground (arith, u)) in
      let now : has drained x ≡ false = subst (λ i. has drained i ≡ false) (sym e) out in
      ground (arith, same, now, count_in-other xs drained id fresh)
  | inr other ↦
      ground (
        arith,
        other,
        count_in-pop xs drained id (ground (arith, u)) (ground (arith, h, other)) out,
      )
]

pub count_in-full :
    (xs drained : List ℕ) (x : ℕ)
    → count_in xs drained ≡ length xs
    → has xs x ≡ true
    → has drained x ≡ true
unfolding count_in has
count_in-full [] drained x h m = absurd (ground arith)
count_in-full (y ∷ xs) drained x h m = elim (Bool-cases (y == x)) [
  | inl same ↦
      subst (λ i. has drained i ≡ true) ((==_iff y x).0 same)
        (ground (arith, h, count_in-le_length xs drained))
  | inr other ↦
      count_in-full xs drained x (ground (arith, h, count_in-le_length xs drained))
        (ground (arith, m, other))
]

pub count_in-all :
    (xs drained : List ℕ)
    → ((x : ℕ) → has xs x ≡ true → has drained x ≡ true)
    → count_in xs drained ≡ length xs
unfolding count_in has
count_in-all [] drained h = refl
count_in-all (x ∷ xs) drained h =
    ground (arith, h x (ground arith), count_in-all xs drained (λ y m. h y (ground (arith, m))))
