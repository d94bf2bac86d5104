-- ===== src/Dependencies/CycleDetector/Walks.antt =====
-- What one call of the depth-first search does to its marks, and what its answer says.
use wood_fired_tasks.Prelude.{
  ℕ, zero, suc, ◌≡◌, refl, subst, ◌⊎◌, inl, inr, true, false, none, some, List, [], ◌∷◌, arith, has,
  delete, has-add, has-delete, Bool-cases, ◌==◌, ==_iff,
}
use wood_fired_tasks.Dependencies.Trails.{Trail, one, IsSafe, safe, Trail-snoc}
use wood_fired_tasks.Dependencies.CycleDetector.{
  Adjacency, Marks, Answer, neighbors, scan, enter, leave, dfs,
}

pub data Cases (r : Answer) : Type 0 where
  stopped : r ≡ none → Cases r
  cyclic : (s : Marks) → r ≡ some (true, s) → Cases r
  clear : (s : Marks) → r ≡ some (false, s) → Cases r

pub Answer-Cases : (r : Answer) → Cases r
Answer-Cases none = stopped refl
Answer-Cases (some (true, s)) = cyclic s refl
Answer-Cases (some (false, s)) = clear s refl

leave-clear :
    (n : ℕ) (r : Answer) {s : Marks}
    → leave n r ≡ some (false, s)
    → (t : Marks) × (r ≡ some (false, t)) × (record t { rec_stack = delete t.rec_stack n } ≡ s)
leave-clear n none e = absurd (ground arith)
leave-clear n (some (true, t)) e = absurd (ground arith)
leave-clear n (some (false, t)) e = (t, refl, cc)

leave-cyclic : (n : ℕ) (r : Answer) {s : Marks} → leave n r ≡ some (true, s) → r ≡ some (true, s)
leave-cyclic n none e = absurd (ground arith)
leave-cyclic n (some (true, t)) e = e
leave-cyclic n (some (false, t)) e = absurd (ground arith)

module _ (adj : Adjacency) where
  abbrev pub Next : ℕ → ℕ → Type 0
  Next u v = has (neighbors adj u) v ≡ true

  abbrev pub Grows : Marks → Marks → Type 0
  Grows s s' = (u : ℕ) → has s.visited u ≡ true → has s'.visited u ≡ true

  abbrev pub Shrinks : Marks → Marks → Type 0
  Shrinks s s' = (u : ℕ) → has s'.rec_stack u ≡ true → has s.rec_stack u ≡ true

  -- A marked node is on the stack, or no trail from it is endless.
  abbrev pub IsGood : Marks → Type 0
  IsGood s = (u : ℕ) → has s.visited u ≡ true → (has s.rec_stack u ≡ true) ⊎ IsSafe Next u

  pub record Kept (s s' : Marks) : Type 0 where
    pub good : IsGood s'
    pub grows : Grows s s'
    pub shrinks : Shrinks s s'

  pub record Done (n : ℕ) (s s' : Marks) : Type 0 where
    pub kept : Kept s s'
    pub finished : IsSafe Next n
    pub marked : has s'.visited n ≡ true

  pub Kept-trans : {s t u : Marks} → Kept s t → Kept t u → Kept s u
  Kept-trans k l = record {
    good = l.good;
    grows = λ a h. l.grows a (k.grows a h);
    shrinks = λ a h. k.shrinks a (l.shrinks a h);
  }

  pub Kept-refl : {s : Marks} → IsGood s → Kept s s
  Kept-refl g = record { good = g; grows = λ a h. h; shrinks = λ a h. h }

  abbrev Rule : (ℕ → Marks → Answer) → Type 0
  Rule rec = (n : ℕ) (s s' : Marks) → IsGood s → rec n s ≡ some (false, s') → Done n s s'

  pub marked_cons :
      (n : ℕ) (ns : List ℕ) (s : Marks)
      → has s.visited n ≡ true
      → ((v : ℕ) → has ns v ≡ true → has s.visited v ≡ true)
      → (v : ℕ) → has (n ∷ ns) v ≡ true
      → has s.visited v ≡ true
  unfolding has
  marked_cons n ns s here later v h = elim (Bool-cases (n == v)) [
    | inl same ↦ subst (λ a. has s.visited a ≡ true) ((==_iff n v).0 same) here
    | inr other ↦ later v (ground arith)
  ]

  pub same_state : {s t : Marks} → ◌≡◌ {A = Answer} (some (false, s)) (some (false, t)) → s ≡ t
  same_state e = cc

  off_stack :
      (s : Marks) (n : ℕ)
      → (has s.rec_stack n ≡ true) ⊎ IsSafe Next n
      → has s.rec_stack n ≡ false
      → IsSafe Next n
  off_stack s n (inl on) off = absurd (ground arith)
  off_stack s n (inr ok) off = ok

  IsSafe-cons :
      (n : ℕ) (ns : List ℕ)
      → IsSafe Next n
      → ((v : ℕ) → has ns v ≡ true → IsSafe Next v)
      → (v : ℕ) → has (n ∷ ns) v ≡ true
      → IsSafe Next v
  unfolding has
  IsSafe-cons n ns here later v h = elim (Bool-cases (n == v)) [
    | inl same ↦ subst (IsSafe Next) ((==_iff n v).0 same) here
    | inr other ↦ later v (ground arith)
  ]

  enter-IsGood : (n : ℕ) (s : Marks) → IsGood s → IsGood (enter n s)
  enter-IsGood n s g u h = elim (Bool-cases (n == u)) [
    | inl same ↦ inl (rw (has-add, same))
    | inr other ↦ elim (g u (ground (arith, has-add s.visited n u))) [
      | inl on ↦ inl (ground (arith, has-add s.rec_stack n u))
      | inr ok ↦ inr ok
    ]
  ]

  scan-false :
      (rec : ℕ → Marks → Answer)
      → Rule rec
      → (ns : List ℕ) (s s' : Marks) → IsGood s
      → scan rec ns s ≡ some (false, s')
      → Kept s s' × ((v : ℕ) → has ns v ≡ true → IsSafe Next v)
  unfolding scan has
  scan-false rec rule [] s s' g e = (subst (Kept s) (same_state e) (Kept-refl g), λ v h. cc)
  scan-false rec rule (n ∷ ns) s s' g e = elim (Bool-cases (has s.rec_stack n)) [
    | inl back ↦ absurd (ground arith)
    | inr forth ↦ elim (Bool-cases (has s.visited n)) [
      | inl seen ↦
          let (kept, safes) = scan-false rec rule ns s s' g (ground arith) in
          let here : IsSafe Next n = off_stack s n (g n seen) forth in
          (kept, IsSafe-cons n ns here safes)
      | inr fresh ↦ elim (Answer-Cases (rec n s)) [
        | stopped r ↦ absurd (ground arith)
        | cyclic t r ↦ absurd (ground arith)
        | clear t r ↦
            let done = rule n s t g r in
            let (kept, safes) = scan-false rec rule ns t s' done.kept.good (ground arith) in
            (Kept-trans done.kept kept, IsSafe-cons n ns done.finished safes)
      ]
    ]
  ]

  abbrev left : ℕ → Marks → Marks
  left n s = record s { rec_stack = delete s.rec_stack n }

  left-Done :
      (n : ℕ) (s t : Marks)
      → Kept (enter n s) t
      → ((v : ℕ) → Next n v → IsSafe Next v)
      → Done n s (left n t)
  left-Done n s t kept safes = record {
    kept = record {
      good = λ u h. elim (kept.good u h) [
        | inr ok ↦ inr ok
        | inl on ↦ elim (Bool-cases (n == u)) [
          | inl same ↦ inr (subst (IsSafe Next) ((==_iff n u).0 same) (safe safes))
          | inr other ↦ inl (ground (arith, has-delete t.rec_stack n u))
        ]
      ];
      grows = λ u h. kept.grows u (ground (arith, has-add s.visited n u));
      shrinks = λ u h.
          ground (arith, has-delete t.rec_stack n u, kept.shrinks u, has-add s.rec_stack n u);
    };
    finished = safe safes;
    marked = kept.grows n (ground (arith, has-add s.visited n n));
  }

  pub dfs_false : (fuel : ℕ) → Rule (dfs fuel adj)
  unfolding dfs
  dfs_false zero n s s' g e = absurd (ground arith)
  dfs_false (suc fuel) n s s' g e =
      let (t, r, same) = leave-clear n (scan (dfs fuel adj) (neighbors adj n) (enter n s)) e in
      let (kept, safes) =
        scan-false (dfs fuel adj) (dfs_false fuel) (neighbors adj n) (enter n s) t
          (enter-IsGood n s g) r in
      subst (Done n s) same (left-Done n s t kept safes)

  -- The stack leads to a node that is about to be visited.
  abbrev pub Leads : Marks → ℕ → Type 0
  Leads s n = (x : ℕ) → has s.rec_stack x ≡ true → Trail Next x n

  abbrev pub Cycle : Type 0
  Cycle = (w : ℕ) × Trail Next w w

  abbrev RuleTrue : (ℕ → Marks → Answer) → Type 0
  RuleTrue rec = (n : ℕ) (s s' : Marks) → IsGood s → Leads s n → rec n s ≡ some (true, s') → Cycle

  scan_true :
      (rec : ℕ → Marks → Answer)
      → Rule rec
      → RuleTrue rec
      → (ns : List ℕ) (s s' : Marks) → IsGood s
      → ((n : ℕ) → has ns n ≡ true → Leads s n)
      → scan rec ns s ≡ some (true, s')
      → Cycle
  unfolding scan has
  scan_true rec rule rule' [] s s' g l e = absurd (ground arith)
  scan_true rec rule rule' (n ∷ ns) s s' g l e = elim (Bool-cases (has s.rec_stack n)) [
    | inl back ↦ (n, l n (ground arith) n back)
    | inr forth ↦ elim (Bool-cases (has s.visited n)) [
      | inl seen ↦ scan_true rec rule rule' ns s s' g (λ m h. l m (ground arith)) (ground arith)
      | inr fresh ↦ elim (Answer-Cases (rec n s)) [
        | stopped r ↦ absurd (ground arith)
        | cyclic t r ↦ rule' n s t g (l n (ground arith)) r
        | clear t r ↦
            let done = rule n s t g r in
            scan_true rec rule rule' ns t s' done.kept.good
              (λ m h x on. l m (ground arith) x (done.kept.shrinks x on)) (ground arith)
      ]
    ]
  ]

  enter-Leads : (n : ℕ) (s : Marks) → Leads s n → (m : ℕ) → Next n m → Leads (enter n s) m
  enter-Leads n s l m e x on = elim (Bool-cases (n == x)) [
    | inl same ↦ subst (λ y. Trail Next y m) ((==_iff n x).0 same) (one e)
    | inr other ↦ Trail-snoc (l x (ground (arith, has-add s.rec_stack n x))) e
  ]

  pub dfs_true : (fuel : ℕ) → RuleTrue (dfs fuel adj)
  unfolding dfs
  dfs_true zero n s s' g l e = absurd (ground arith)
  dfs_true (suc fuel) n s s' g l e =
      scan_true (dfs fuel adj) (dfs_false fuel) (dfs_true fuel) (neighbors adj n) (enter n s) s'
        (enter-IsGood n s g) (enter-Leads n s l) (leave-cyclic n _ e)
