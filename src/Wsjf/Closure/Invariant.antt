-- ===== src/Wsjf/Closure/Invariant.antt =====
-- What the search keeps while the nodes at one distance are spread, and the steps that keep it.
use mathlib.Core.List.{append-nil, append_assoc}
use wood_fired_tasks.Prelude.{
  ℕ, suc, ◌≤◌, ◌≡◌, refl, sym, subst, ◌∙◌, inl, inr, true, false, ◌||◌, none, some, List, [], ◌∷◌,
  ◌++◌, arith, has, has-append, ◌==◌, ==_iff, Bool-cases,
}
use wood_fired_tasks.Dependencies.Degrees.{uniq}
use wood_fired_tasks.Wsjf.Closure.{Distances, distance_of}
use wood_fired_tasks.Wsjf.Closure.Ways.{
  Way, here, go, distance_of-kept, distance_of-new, distance_of-cases, uniq-snoc,
}

module _ (nodes : List ℕ) (downstream : ℕ → List ℕ) (from : ℕ) where
  -- What holds while the nodes at distance `d` are spread: `this` has those that wait, `next` what was
  -- found behind them. `drained` has left the queue, `spread` has all its neighbours found.
  pub record IsSearch (spread drained : List ℕ) (found : Distances) (d : ℕ) (this next : List ℕ)
      : Type 0 where
    pub root : distance_of found from ≡ some 0
    pub ways : (v k : ℕ) → distance_of found v ≡ some k → Way downstream from v k
    pub closed :
        (v w k : ℕ)
        → has spread v ≡ true
        → distance_of found v ≡ some k
        → has (downstream v) w ≡ true
        → (e : ℕ) × (distance_of found w ≡ some e) × (e ≤ suc k)
    pub level : (v : ℕ) → has this v ≡ true → distance_of found v ≡ some d
    pub beyond : (v : ℕ) → has next v ≡ true → distance_of found v ≡ some (suc d)
    pub bound : (v k : ℕ) → distance_of found v ≡ some k → k ≤ suc d
    pub cover :
        (v k : ℕ)
        → distance_of found v ≡ some k
        → (has drained v || (has this v || has next v)) ≡ true
    pub apart : (v : ℕ) → (has this v || has next v) ≡ true → has drained v ≡ false
    pub distinct : uniq (this ++ next) ≡ true
    pub known : (v k : ℕ) → distance_of found v ≡ some k → has nodes v ≡ true
    pub seen :
        (v : ℕ) → (has spread v || has drained v) ≡ true → (k : ℕ) × (distance_of found v ≡ some k)

  missing :
      (spread drained : List ℕ) (found : Distances) (d : ℕ) (this next : List ℕ) (n : ℕ)
      → IsSearch spread drained found d this next
      → distance_of found n ≡ none
      → (has drained n ≡ false) × ((has this n || has next n) ≡ false)
  missing spread drained found d this next n s fresh =
      let not_drained : has drained n ≡ false = elim (Bool-cases (has drained n)) [
        | inl old ↦
            let (e, there) = s.seen n (ground (arith, old)) in
            absurd (ground (arith, sym fresh ∙ there))
        | inr out ↦ out
      ] in
      let not_this : has this n ≡ false = elim (Bool-cases (has this n)) [
        | inl old ↦ absurd (ground (arith, sym fresh ∙ s.level n old))
        | inr out ↦ out
      ] in
      elim (Bool-cases (has next n)) [
        | inl old ↦ absurd (ground (arith, sym fresh ∙ s.beyond n old))
        | inr out ↦ (not_drained, ground (arith, not_this, out))
      ]

  -- A neighbour that has no distance yet.
  pub offer-IsSearch :
      (spread drained : List ℕ) (found : Distances) (d : ℕ) (this next : List ℕ) (cur n : ℕ)
      → IsSearch spread drained found d this next
      → distance_of found cur ≡ some d
      → has (downstream cur) n ≡ true
      → has nodes n ≡ true
      → distance_of found n ≡ none
      → IsSearch spread drained (found ++ (n, suc d) ∷ []) d this (next ++ n ∷ [])
  unfolding has
  offer-IsSearch spread drained found d this next cur n s at edge inside fresh = record {
    root = distance_of-kept found n (suc d) from 0 s.root;
    ways = λ v k h. elim (distance_of-cases found n (suc d) v k h) [
      | inl old ↦ s.ways v k old
      | inr (is, far) ↦
          subst (Way downstream from v) far
            (subst (λ x. Way downstream from x (suc d)) is (go (s.ways cur d at) edge))
    ];
    closed = λ v w k spread_v h out. elim (distance_of-cases found n (suc d) v k h) [
      | inl old ↦
          let (e, there, short) = s.closed v w k spread_v old out in
          (e, distance_of-kept found n (suc d) w e there, short)
      | inr (is, far) ↦
          let (e, there) = s.seen v (ground (arith, spread_v)) in
          absurd (ground (arith, sym (subst (λ x. distance_of found x ≡ none) is fresh) ∙ there))
    ];
    level = λ v h. distance_of-kept found n (suc d) v d (s.level v h);
    beyond = λ v h. elim (Bool-cases (has next v)) [
      | inl old ↦ distance_of-kept found n (suc d) v (suc d) (s.beyond v old)
      | inr not_old ↦
          let is : n ≡ v = ground (arith, h, not_old, has-append next (n ∷ []) v) in
          subst (λ x. distance_of (found ++ (n, suc d) ∷ []) x ≡ some (suc d)) is
            (distance_of-new found n (suc d) fresh)
    ];
    bound = λ v k h. elim (distance_of-cases found n (suc d) v k h) [
      | inl old ↦ s.bound v k old
      | inr (_, far) ↦ omega (arith, far)
    ];
    cover = λ v k h. elim (distance_of-cases found n (suc d) v k h) [
      | inl old ↦ ground (arith, s.cover v k old, has-append next (n ∷ []) v)
      | inr (is, _) ↦ ground (arith, is, has-append next (n ∷ []) v)
    ];
    apart = λ v h. elim (Bool-cases (has this v || has next v)) [
      | inl old ↦ s.apart v old
      | inr not_old ↦
          let is : n ≡ v = ground (arith, h, not_old, has-append next (n ∷ []) v) in
          subst (λ x. has drained x ≡ false) is
            (missing spread drained found d this next n s fresh).0
    ];
    distinct =
        subst (λ l. uniq l ≡ true) (append_assoc this next (n ∷ []))
          (uniq-snoc (this ++ next) n s.distinct (
            ground (
              arith,
              (missing spread drained found d this next n s fresh).1,
              has-append this next n,
            )));
    known = λ v k h. elim (distance_of-cases found n (suc d) v k h) [
      | inl old ↦ s.known v k old
      | inr (is, _) ↦ subst (λ x. has nodes x ≡ true) is inside
    ];
    seen = λ v h. let (e, there) = s.seen v h in (e, distance_of-kept found n (suc d) v e there);
  }

  -- `cur` leaves the queue.
  pub pop-IsSearch :
      (spread : List ℕ) (found : Distances) (d cur : ℕ) (rest next : List ℕ)
      → IsSearch spread spread found d (cur ∷ rest) next
      → IsSearch spread (cur ∷ spread) found d rest next
  unfolding has uniq
  pop-IsSearch spread found d cur rest next s = record {
    root = s.root;
    ways = s.ways;
    closed = s.closed;
    level = λ v h. s.level v (ground (arith, h));
    beyond = s.beyond;
    bound = s.bound;
    cover = λ v k h. ground (arith, s.cover v k h);
    apart = λ v h. elim (Bool-cases (cur == v)) [
      | inl same ↦
          let out : (has rest v || has next v) ≡ false =
            subst (λ x. (has rest x || has next x) ≡ false) ((==_iff cur v).0 same)
              (ground (arith, s.distinct, has-append rest next cur)) in
          absurd (ground (arith, h, out))
      | inr other ↦ ground (arith, s.apart v (ground (arith, h)), other)
    ];
    distinct = ground (arith, s.distinct);
    known = s.known;
    seen = λ v h. elim (Bool-cases (cur == v)) [
      | inl same ↦ (
        d,
        subst (λ x. distance_of found x ≡ some d) ((==_iff cur v).0 same)
            (s.level cur (ground arith)),
      )
      | inr other ↦ s.seen v (ground (arith, h, other))
    ];
  }

  -- The next level.
  pub shift-IsSearch :
      (spread : List ℕ) (found : Distances) (d : ℕ) (next : List ℕ)
      → IsSearch spread spread found d [] next
      → IsSearch spread spread found (suc d) next []
  unfolding has
  shift-IsSearch spread found d next s = record {
    root = s.root;
    ways = s.ways;
    closed = s.closed;
    level = s.beyond;
    beyond = λ v h. absurd (ground (arith, h));
    bound = λ v k h. omega (arith, s.bound v k h);
    cover = λ v k h. ground (arith, s.cover v k h);
    apart = λ v h. s.apart v (ground (arith, h));
    distinct = subst (λ l. uniq l ≡ true) (sym (append-nil next)) s.distinct;
    known = s.known;
    seen = s.seen;
  }

  start-distance : (v k : ℕ) → distance_of ((from, 0) ∷ []) v ≡ some k → (from ≡ v) × (k ≡ 0)
  unfolding distance_of
  start-distance v k h = (ground (arith, h), ground (arith, h))

  pub start-IsSearch : has nodes from ≡ true → IsSearch [] [] ((from, 0) ∷ []) 0 (from ∷ []) []
  unfolding distance_of has uniq
  start-IsSearch inside = record {
    root = ground arith;
    ways = λ v k h.
        let (is, far) = start-distance v k h in
        subst (Way downstream from v) (sym far) (subst (λ x. Way downstream from x 0) is here);
    closed = λ v w k h. absurd (ground (arith, h));
    level = λ v h. ground (arith, h);
    beyond = λ v h. absurd (ground (arith, h));
    bound = λ v k h. ground (arith, h);
    cover = λ v k h. ground (arith, h);
    apart = λ v h. refl;
    distinct = refl;
    known = λ v k h. subst (λ x. has nodes x ≡ true) (start-distance v k h).0 inside;
    seen = λ v h. absurd (ground (arith, h));
  }
