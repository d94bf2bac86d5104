-- ===== src/Dependencies/Kahn/Drained.antt =====
-- Where Kahn's drain starts, and what it means that all nodes are drained at its end.
use wood_fired_tasks.Prelude.{
  ℕ, ◌≡◌, refl, sym, subst, inl, inr, true, false, ◌&&◌, ◌||◌, List, [], ◌∷◌, arith, has, length,
  ◌==◌, ==_iff, Bool-cases, if◌then◌else◌, leb,
}
use wood_fired_tasks.Dependencies.Trails.{
  Trail, one, more, IsSafe, safe, IsSafe-Trail, IsAcyclic, Trail-reverse,
}
use wood_fired_tasks.Dependencies.CycleDetector.{Edge}
use wood_fired_tasks.Dependencies.CycleDetector.Answers.{Blocks}
use wood_fired_tasks.Dependencies.CycleDetector.Finite.{IsAcyclic-IsSafe-back}
use wood_fired_tasks.Dependencies.Degrees.{
  Table, degree, degrees, degree-degrees, has-keys-degrees, uniq-keys-degrees, keys, ends, uniq,
  target,
}
use wood_fired_tasks.Dependencies.Kahn.{push_zeros}
use wood_fired_tasks.Dependencies.Kahn.Counts.{
  waiting, times, count_in, waiting-pos, count_in-full, count_in-all,
}
use wood_fired_tasks.Dependencies.Kahn.Loop.{Inside, Back, IsDraining}

has-push_zeros :
    (t : Table) (stack : List ℕ) (x : ℕ)
    → uniq (keys t) ≡ true
    → has (push_zeros t stack) x ≡ (has stack x || has (keys t) x && degree t x == 0)
unfolding push_zeros has keys degree uniq
has-push_zeros [] stack x u = ground arith
has-push_zeros ((n, d) ∷ t) stack x u = elim (Bool-cases (n == x)) [
  | inl same ↦
      let fresh : has (keys t) x ≡ false =
        subst (λ y. has (keys t) y ≡ false) ((==_iff n x).0 same) (ground (arith, u)) in
      ground (
        arith,
        same,
        fresh,
        has-push_zeros t (if d == 0 then n ∷ stack else stack) x (ground (arith, u)),
      )
  | inr other ↦
      ground
        (arith, other, has-push_zeros t (if d == 0 then n ∷ stack else stack) x (ground (arith, u)))
]

-- No key of the table is on the stack.
abbrev Clear : Table → List ℕ → Type 0
Clear t stack = (x : ℕ) → has (keys t) x ≡ true → has stack x ≡ false

uniq-push_zeros :
    (t : Table) (stack : List ℕ)
    → uniq (keys t) ≡ true
    → uniq stack ≡ true
    → Clear t stack
    → uniq (push_zeros t stack) ≡ true
unfolding push_zeros has keys uniq
uniq-push_zeros [] stack u v clear = v
uniq-push_zeros ((n, d) ∷ t) stack u v clear =
    uniq-push_zeros t (if d == 0 then n ∷ stack else stack) (ground (arith, u))
      (ground (arith, v, clear n (ground arith)))
      (λ x h. elim (Bool-cases (n == x)) [
        | inl same ↦
            absurd (
              ground
                (arith, u, h, subst (λ y. has (keys t) y ≡ true) (sym ((==_iff n x).0 same)) h))
        | inr other ↦ ground (arith, other, clear x (ground (arith, h)))
      ])

waiting-start : (es : List Edge) (x : ℕ) → waiting es [] x ≡ ends target es x
unfolding waiting ends has
waiting-start [] x = refl
waiting-start (e ∷ es) x = ground (arith, waiting-start es x)

module _ (nodes : List ℕ) (es : List Edge) (inside : Inside nodes es) where
  abbrev table : Table
  table = degrees target nodes es

  pub start-IsDraining : IsDraining nodes es [] table (push_zeros table [])
  unfolding has times uniq
  start-IsDraining = record {
    mid = record {
      counts = λ x. ground (arith, degree-degrees target nodes es x, waiting-start es x);
      ready = λ x. elim (Bool-cases (leb 1 (ends target es x))) [
        | inl some_end ↦ ground (
          arith,
          some_end,
          has-push_zeros table [] x (uniq-keys-degrees target nodes es),
          has-keys-degrees target nodes es x,
          degree-degrees target nodes es x,
        )
        | inr no_end ↦ ground (
          arith,
          no_end,
          has-push_zeros table [] x (uniq-keys-degrees target nodes es),
          has-keys-degrees target nodes es x,
          degree-degrees target nodes es x,
        )
      ];
      apart = λ x h. refl;
      distinct = uniq-push_zeros table [] (uniq-keys-degrees target nodes es) refl (λ x h. refl);
    };
    settled = λ x h. absurd (ground (arith, h));
  }

  -- Where nothing is ready any more, a node whose way back ends is drained.
  safe-drained :
      (drained : List ℕ) (t : Table) (x : ℕ)
      → IsDraining nodes es drained t []
      → IsSafe (Back nodes es) x
      → has nodes x ≡ true
      → has drained x ≡ true
  unfolding has times
  safe-drained drained t x d (safe back) known = elim (Bool-cases (has drained x)) [
    | inl h ↦ h
    | inr out ↦
        let (u, edge, u_out) =
          waiting-pos es drained x (ground (arith, out, known, d.mid.ready x, d.mid.counts x)) in
        let u_in = safe-drained drained t u d (back u edge) ((inside u x edge).0) in
        absurd (ground (arith, u_out, u_in))
  ]

  -- All nodes are drained exactly if the edges have no cycle.
  pub drained_all :
      (drained : List ℕ) (t : Table)
      → IsDraining nodes es drained t []
      → IsAcyclic (Blocks es)
      → count_in nodes drained ≡ length nodes
  drained_all drained t d acyclic =
      count_in-all nodes drained
        (λ x known. safe-drained drained t x d (IsAcyclic-IsSafe-back es acyclic x) known)

  source_of : {u v : ℕ} → Trail (Blocks es) u v → has nodes u ≡ true
  source_of (one e) = (inside _ _ e).0
  source_of (more e t) = (inside _ _ e).0

  pub drained_all-IsAcyclic :
      (drained : List ℕ) (t : Table)
      → IsDraining nodes es drained t []
      → count_in nodes drained ≡ length nodes
      → IsAcyclic (Blocks es)
  drained_all-IsAcyclic drained t d all_in u trail =
      IsSafe-Trail (d.settled u (count_in-full nodes drained u all_in (source_of trail)))
        (Trail-reverse (Back nodes es) trail)

pub count_in-nil : (xs : List ℕ) → count_in xs [] ≡ 0
unfolding count_in has
count_in-nil [] = refl
count_in-nil (x ∷ xs) = omega (arith, count_in-nil xs)
