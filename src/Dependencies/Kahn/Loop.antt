-- ===== src/Dependencies/Kahn/Loop.antt =====
-- What Kahn's drain keeps: a degree counts the edges that wait, and the stack holds the nodes that
-- wait for none and are not drained.
use wood_fired_tasks.Prelude.{
  ℕ, zero, suc, ◌+◌, ◌-◌, ◌<◌, ◌≡◌, refl, sym, ap, subst, ◌∙◌, inl, inr, true, false, ◌&&◌, ◌||◌,
  some, List, [], ◌∷◌, arith, has, length, ◌==◌, ==_iff, Bool-cases, if◌then◌else◌, All,
}
use wood_fired_tasks.Dependencies.Trails.{IsSafe, safe}
use wood_fired_tasks.Dependencies.CycleDetector.{Edge}
use wood_fired_tasks.Dependencies.CycleDetector.Answers.{Blocks}
use wood_fired_tasks.Dependencies.Degrees.{Table, degree, set_degree, degree-set_degree, uniq}
use wood_fired_tasks.Dependencies.Kahn.{targets, adjacent, relax, drain}
use wood_fired_tasks.Dependencies.Kahn.Counts.{
  waiting, times, count_in, waiting-pop, waiting-zero, count_in-le_length, count_in-pop,
}

-- The edges lie within the nodes.
abbrev pub Inside : List ℕ → List Edge → Type 0
Inside nodes es = (u v : ℕ) → Blocks es u v → (has nodes u ≡ true) × (has nodes v ≡ true)

module _ (nodes : List ℕ) (es : List Edge) where
  abbrev pub Back : ℕ → ℕ → Type 0
  Back a b = Blocks es b a

  -- In the middle of a turn: the edges to `rest` are still to be counted down.
  pub record IsMid (drained rest : List ℕ) (t : Table) (stack : List ℕ) : Type 0 where
    pub counts : (x : ℕ) → degree t x ≡ waiting es drained x + times rest x
    pub ready : (x : ℕ) → (has stack x || has drained x) ≡ (has nodes x && degree t x == 0)
    pub apart : (x : ℕ) → has stack x ≡ true → has drained x ≡ false
    pub distinct : uniq stack ≡ true

  -- Between two turns; from what is drained, the way back ends.
  pub record IsDraining (drained : List ℕ) (t : Table) (stack : List ℕ) : Type 0 where
    pub mid : IsMid drained [] t stack
    pub settled : (x : ℕ) → has drained x ≡ true → IsSafe Back x

  abbrev Within : List ℕ → Type 0
  Within ns = All (λ n. has nodes n ≡ true) ns

  relax_step :
      (drained ns : List ℕ) (n : ℕ) (t : Table) (stack : List ℕ)
      → has nodes n ≡ true
      → IsMid drained (n ∷ ns) t stack
      → IsMid drained ns
          (set_degree t n (degree t n - 1))
          (if degree t n == 1 then n ∷ stack else stack)
  unfolding times has uniq
  relax_step drained ns n t stack inside m = record {
    counts = λ x. elim (Bool-cases (n == x)) [
      | inl same ↦
          subst (λ y. degree t' y ≡ waiting es drained y + times ns y) ((==_iff n x).0 same)
            (ground (arith, m.counts n, degree-set_degree t n (degree t n - 1) n))
      | inr other ↦ ground (arith, m.counts x, degree-set_degree t n (degree t n - 1) x)
    ];
    ready = λ x. elim (Bool-cases (n == x)) [
      | inl same ↦
          subst (λ y. (has stack' y || has drained y) ≡ (has nodes y && degree t' y == 0))
            ((==_iff n x).0 same)
            (ground (arith, pos, m.ready n, degree-set_degree t n (degree t n - 1) n))
      | inr other ↦ ground (arith, m.ready x, degree-set_degree t n (degree t n - 1) x)
    ];
    apart = λ x h. elim (Bool-cases (n == x)) [
      | inl same ↦
          subst (λ y. has drained y ≡ false) ((==_iff n x).0 same) (ground (arith, pos, m.ready n))
      | inr other ↦ m.apart x (ground (arith, h))
    ];
    distinct = ground (arith, pos, m.ready n, m.distinct);
  }
    where
      t' : Table
      t' = set_degree t n (degree t n - 1)

      stack' : List ℕ
      stack' = if degree t n == 1 then n ∷ stack else stack

      pos : 0 < degree t n
      pos = ground (arith, m.counts n)

  relax-IsMid :
      (drained ns : List ℕ) (t : Table) (stack : List ℕ)
      → Within ns
      → IsMid drained ns t stack
      → IsMid drained [] (relax ns t stack).0 (relax ns t stack).1
  unfolding relax
  relax-IsMid drained [] t stack inside m = m
  relax-IsMid drained (n ∷ ns) t stack (here, inside) m =
      relax-IsMid drained ns (set_degree t n (degree t n - 1))
        (if degree t n == 1 then n ∷ stack else stack) inside
        (relax_step drained ns n t stack here m)

  -- A node is popped.
  pop-IsMid :
      (drained : List ℕ) (t : Table) (id : ℕ) (stack : List ℕ)
      → IsMid drained [] t (id ∷ stack)
      → IsMid (id ∷ drained) (targets es id) t stack
  unfolding has uniq times
  pop-IsMid drained t id stack m = record {
    counts = λ x. ground (arith, m.counts x, waiting-pop es drained id x out);
    ready = λ x. ground (arith, m.ready x);
    apart = λ x h. elim (Bool-cases (id == x)) [
      | inl same ↦ absurd (
          ground (
            arith,
            h,
            m.distinct,
            subst (λ y. has stack y ≡ false) ((==_iff id x).0 same) (ground (arith, m.distinct)),
          ))
      | inr other ↦ ground (arith, other, m.apart x (ground (arith, h)))
    ];
    distinct = ground (arith, m.distinct);
  }
    where
      out : has drained id ≡ false
      out = m.apart id (ground arith)

  Within-targets : (fs : List Edge) (id : ℕ) → Inside nodes fs → Within (targets fs id)
  unfolding targets
  Within-targets [] id inside = tt
  Within-targets (e ∷ fs) id inside =
      let rest : Within (targets fs id) =
        Within-targets fs id (λ u v h. inside u v (ground (arith, h))) in
      elim (Bool-cases (e.task_id == id)) [
        | inl same ↦ rw (same) ((inside e.task_id e.blocks_task_id (ground arith)).1, rest)
        | inr other ↦ rw (other) rest
      ]

  -- One turn of the loop.
  turn-IsDraining :
      (drained : List ℕ) (t : Table) (id : ℕ) (stack : List ℕ)
      → Inside nodes es
      → IsDraining drained t (id ∷ stack)
      → (has nodes id ≡ true)
        × (has drained id ≡ false)
        × IsDraining
            (id ∷ drained)
            (relax (adjacent nodes es id) t stack).0
            (relax (adjacent nodes es id) t stack).1
  unfolding has times adjacent
  turn-IsDraining drained t id stack inside d = (
    known,
    d.mid.apart id (ground arith),
    rw (known) record {
      mid =
          relax-IsMid (id ∷ drained) (targets es id) t stack (Within-targets es id inside)
            (pop-IsMid drained t id stack d.mid);
      settled = λ x h. elim (Bool-cases (id == x)) [
        | inl same ↦
            subst (IsSafe Back) ((==_iff id x).0 same)
              (safe (λ u edge. d.settled u (waiting-zero es drained u id none_waits edge)))
        | inr other ↦ d.settled x (ground (arith, h, other))
      ];
    },
  )
    where
      known : has nodes id ≡ true
      known = ground (arith, d.mid.ready id)

      none_waits : waiting es drained id ≡ 0
      none_waits = ground (arith, d.mid.ready id, d.mid.counts id)

  pub record Drained (fuel : ℕ) (t : Table) (stack : List ℕ) (n : ℕ) : Type 0 where
    pub last : List ℕ
    pub table : Table
    pub result : drain fuel (adjacent nodes es) t stack n ≡ some (count_in nodes last)
    pub draining : IsDraining last table []

  -- The fuel is enough, and at the end the count is that of the nodes that are drained.
  pub drain-Drained :
      (fuel : ℕ) (drained : List ℕ) (t : Table) (stack : List ℕ)
      → Inside nodes es
      → uniq nodes ≡ true
      → IsDraining drained t stack
      → length nodes < fuel + count_in nodes drained
      → Drained fuel t stack (count_in nodes drained)
  unfolding drain
  drain-Drained zero drained t stack inside u d enough =
      absurd (omega (arith, count_in-le_length nodes drained))
  drain-Drained (suc fuel) drained t [] inside u d enough = record {
    last = drained;
    table = t;
    result = refl;
    draining = d;
  }
  drain-Drained (suc fuel) drained t (id ∷ stack) inside u d enough =
      let (known, out, d') = turn-IsDraining drained t id stack inside d in
      let popped = count_in-pop nodes drained id u known out in
      let later = drain-Drained fuel (id ∷ drained) _ _ inside u d' (omega (arith, popped)) in
      record {
        last = later.last;
        table = later.table;
        result =
            ap
              (drain fuel (adjacent nodes es) (relax (adjacent nodes es id) t stack).0
                (relax (adjacent nodes es id) t stack).1)
              (sym popped)
            ∙ later.result;
        draining = later.draining;
      }
