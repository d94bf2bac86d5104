-- ===== src/Dependencies/CycleDetector/Search.antt =====
-- What an answer of the depth-first search says of the graph.
use wood_fired_tasks.Prelude.{
  ℕ, suc, ◌≡◌, ◌≢◌, subst, inl, inr, Bool, true, false, none, some, List, [], ◌∷◌, arith, length,
  has, Bool-cases,
}
use wood_fired_tasks.Dependencies.Trails.{one, more, IsSafe, IsAcyclic, IsSafe-Trail}
use wood_fired_tasks.Dependencies.CycleDetector.{
  Adjacency, Marks, Answer, dfs, search_from, all_nodes, found, detect_cycle,
}
use wood_fired_tasks.Dependencies.CycleDetector.Nodes.{all_nodes-source}
use wood_fired_tasks.Dependencies.CycleDetector.Walks.{
  stopped, cyclic, clear, Answer-Cases, Next, IsGood, Kept, Kept-trans, Kept-refl, marked_cons,
  same_state, Cycle, dfs_false, dfs_true,
}

module _ (adj : Adjacency) where
  search_false :
      (fuel : ℕ) (ns : List ℕ) (s s' : Marks)
      → IsGood adj s
      → search_from fuel adj ns s ≡ some (false, s')
      → Kept adj s s' × ((n : ℕ) → has ns n ≡ true → has s'.visited n ≡ true)
  unfolding search_from has
  search_false fuel [] s s' g e =
      (subst (Kept adj s) (same_state adj e) (Kept-refl adj g), λ v h. cc)
  search_false fuel (n ∷ ns) s s' g e = elim (Bool-cases (has s.visited n)) [
    | inl seen ↦
        let (kept, marked) = search_false fuel ns s s' g (ground arith) in
        (kept, marked_cons adj n ns s' (kept.grows n seen) marked)
    | inr fresh ↦ elim (Answer-Cases (dfs fuel adj n s)) [
      | stopped r ↦ absurd (ground arith)
      | cyclic t r ↦ absurd (ground arith)
      | clear t r ↦
          let done = dfs_false adj fuel n s t g r in
          let (kept, marked) = search_false fuel ns t s' done.kept.good (ground arith) in
          (Kept-trans adj done.kept kept, marked_cons adj n ns s' (kept.grows n done.marked) marked)
    ]
  ]

  search_true :
      (fuel : ℕ) (ns : List ℕ) (s s' : Marks)
      → IsGood adj s
      → ((x : ℕ) → has s.rec_stack x ≢ true)
      → search_from fuel adj ns s ≡ some (true, s')
      → Cycle adj
  unfolding search_from
  search_true fuel [] s s' g off e = absurd (ground arith)
  search_true fuel (n ∷ ns) s s' g off e = elim (Bool-cases (has s.visited n)) [
    | inl seen ↦ search_true fuel ns s s' g off (ground arith)
    | inr fresh ↦ elim (Answer-Cases (dfs fuel adj n s)) [
      | stopped r ↦ absurd (ground arith)
      | cyclic t r ↦ dfs_true adj fuel n s t g (λ x on. absurd (off x on)) r
      | clear t r ↦
          let done = dfs_false adj fuel n s t g r in
          search_true fuel ns t s' done.kept.good (λ x on. off x (done.kept.shrinks x on))
            (ground arith)
    ]
  ]

  abbrev start : Marks
  start = record { visited = []; rec_stack = [] }

  start-IsGood : IsGood adj start
  unfolding has
  start-IsGood u h = absurd (ground arith)

  all-IsSafe :
      (fuel : ℕ) (s : Marks) (u v : ℕ)
      → search_from fuel adj (all_nodes adj) start ≡ some (false, s)
      → Next adj u v
      → IsSafe (Next adj) u
  unfolding has
  all-IsSafe fuel s u v e edge =
      let (kept, marked) = search_false fuel (all_nodes adj) start s start-IsGood e in
      elim (kept.good u (marked u (all_nodes-source adj u v edge))) [
        | inl on ↦ absurd (no_start u (kept.shrinks u on))
        | inr ok ↦ ok
      ]
    where
      no_start : (x : ℕ) → has [] x ≢ true
      no_start x h = cc

  cycle_free : ((u v : ℕ) → Next adj u v → IsSafe (Next adj) u) → IsAcyclic (Next adj)
  cycle_free h u (one e) = IsSafe-Trail (h u u e) (one e)
  cycle_free h u (more e t) = IsSafe-Trail (h u _ e) (more e t)

  found-eq-some : (r : Answer) (b : Bool) → found r ≡ some b → (s : Marks) × (r ≡ some (b, s))
  found-eq-some none b e = absurd (ground arith)
  found-eq-some (some (c, s)) b e = (s, cc)

  pub detect_cycle-true : detect_cycle adj ≡ some true → Cycle adj
  unfolding detect_cycle has
  detect_cycle-true e =
      let (s, r) = found-eq-some _ true e in
      search_true (suc (length (all_nodes adj))) (all_nodes adj) start s start-IsGood (λ x h. cc) r

  pub detect_cycle-safe :
      detect_cycle adj ≡ some false → (u v : ℕ) → Next adj u v → IsSafe (Next adj) u
  unfolding detect_cycle
  detect_cycle-safe e u v r =
      let (s, r') = found-eq-some _ false e in all-IsSafe (suc (length (all_nodes adj))) s u v r' r

  pub detect_cycle-false : detect_cycle adj ≡ some false → IsAcyclic (Next adj)
  detect_cycle-false e = cycle_free (detect_cycle-safe e)
