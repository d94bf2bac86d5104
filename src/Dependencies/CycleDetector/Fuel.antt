-- ===== src/Dependencies/CycleDetector/Fuel.antt =====
-- The depth-first search does not run out of fuel: a call marks a node that was not marked.
use wood_fired_tasks.Prelude.{
  ℕ, zero, suc, ◌≤◌, ◌<◌, ◌≡◌, ◌≢◌, inl, inr, true, false, not, none, some, List, [], ◌∷◌, arith,
  has, has-add, length, keep, Bool-cases, ◌==◌,
}
use wood_fired_tasks.Dependencies.CycleDetector.{
  Adjacency, Marks, Answer, neighbors, scan, enter, leave, dfs, search_from, all_nodes, found,
  detect_cycle,
}
use wood_fired_tasks.Dependencies.CycleDetector.Nodes.{all_nodes-target}

abbrev unseen : List ℕ → List ℕ → ℕ
unseen nodes visited = length (keep (λ n. not (has visited n)) nodes)

unseen-le :
    (nodes v w : List ℕ)
    → ((a : ℕ) → has v a ≡ true → has w a ≡ true)
    → unseen nodes w ≤ unseen nodes v
unseen-le [] v w h = omega arith
unseen-le (n ∷ nodes) v w h = ground (arith, h n, unseen-le nodes v w h)

unseen-lt :
    (nodes v w : List ℕ) (a : ℕ)
    → ((b : ℕ) → has v b ≡ true → has w b ≡ true)
    → has nodes a ≡ true
    → has v a ≡ false
    → has w a ≡ true
    → unseen nodes w < unseen nodes v
unfolding has
unseen-lt [] v w a h m old new = absurd (ground arith)
unseen-lt (n ∷ nodes) v w a h m old new = elim (Bool-cases (n == a)) [
  | inl same ↦ let e : n ≡ a = ground arith in ground (arith, unseen-le nodes v w h)
  | inr other ↦ ground (arith, h n, unseen-lt nodes v w a h (ground arith) old new)
]

abbrev Grows : Marks → Marks → Type 0
Grows s t = (u : ℕ) → has s.visited u ≡ true → has t.visited u ≡ true

-- What a call that returns owes: an answer, and the marked nodes stay marked.
abbrev Returns : Marks → Answer → Type 0
Returns s none = ⊥
Returns s (some (b, t)) = Grows s t

Returns-trans : (s t : Marks) (r : Answer) → Grows s t → Returns t r → Returns s r
Returns-trans s t none g h = h
Returns-trans s t (some (b, u)) g h = λ a m. h a (g a m)

Returns-leave : (n : ℕ) (s : Marks) (r : Answer) → Returns s r → Returns s (leave n r)
Returns-leave n s none h = h
Returns-leave n s (some (true, t)) h = h
Returns-leave n s (some (false, t)) h = h

module _ (nodes : List ℕ) where
  abbrev Rule : ℕ → (ℕ → Marks → Answer) → Type 0
  Rule fuel rec =
      (n : ℕ) (s : Marks)
      → unseen nodes s.visited < fuel
      → has nodes n ≡ true
      → has s.visited n ≡ false
      → Returns s (rec n s)

  abbrev Listed : List ℕ → Type 0
  Listed ns = (n : ℕ) → has ns n ≡ true → has nodes n ≡ true

  scan_next :
      (rec : ℕ → Marks → Answer) (ns : List ℕ) (s : Marks) (r : Answer)
      → Returns s r
      → ((t : Marks) → Grows s t → Returns t (scan rec ns t))
      → Returns s (elim r [
        | none ↦ none
        | some (true, s') ↦ some (true, s')
        | some (false, s') ↦ scan rec ns s'
      ])
  scan_next rec ns s none h k = h
  scan_next rec ns s (some (true, t)) h k = h
  scan_next rec ns s (some (false, t)) h k = Returns-trans s t _ h (k t h)

  scan-Returns :
      (fuel : ℕ) (rec : ℕ → Marks → Answer)
      → Rule fuel rec
      → (ns : List ℕ) (s : Marks) → unseen nodes s.visited < fuel
      → Listed ns
      → Returns s (scan rec ns s)
  unfolding scan has
  scan-Returns fuel rec rule [] s m l = λ u h. h
  scan-Returns fuel rec rule (n ∷ ns) s m l = elim (Bool-cases (has s.rec_stack n)) [
    | inl back ↦ rw back (λ u h. h)
    | inr forth ↦ elim (Bool-cases (has s.visited n)) [
      | inl seen ↦ rw (forth, seen) (scan-Returns fuel rec rule ns s m (λ a h. l a (ground arith)))
      | inr fresh ↦
          rw (forth, fresh)
            (scan_next rec ns s (rec n s) (rule n s m (l n (ground arith)) fresh) (λ t g.
              scan-Returns fuel rec rule ns t (omega (arith, unseen-le nodes s.visited t.visited g))
                (λ a h. l a (ground arith))))
    ]
  ]

module _ (adj : Adjacency) where
  abbrev nodes : List ℕ
  nodes = all_nodes adj

  dfs-Returns : (fuel : ℕ) → Rule nodes fuel (dfs fuel adj)
  unfolding dfs
  dfs-Returns zero n s m l fresh = absurd (omega arith)
  dfs-Returns (suc fuel) n s m l fresh = Returns-leave n s _ (
      Returns-trans s (enter n s) _ (λ a h. ground (arith, has-add s.visited n a))
        (scan-Returns nodes fuel (dfs fuel adj) (dfs-Returns fuel) (neighbors adj n) (enter n s)
          (omega (arith, falls)) (λ a h. all_nodes-target adj n a h)))
    where
      falls : unseen nodes (enter n s).visited < unseen nodes s.visited
      falls =
          unseen-lt nodes s.visited (enter n s).visited n
            (λ b h. ground (arith, has-add s.visited n b)) l fresh
            (ground (arith, has-add s.visited n n))

  search-Returns :
      (fuel : ℕ) (ns : List ℕ) (s : Marks)
      → unseen nodes s.visited < fuel
      → Listed nodes ns
      → Returns s (search_from fuel adj ns s)
  unfolding search_from has
  search-Returns fuel [] s m l = λ u h. h
  search-Returns fuel (n ∷ ns) s m l = elim (Bool-cases (has s.visited n)) [
    | inl seen ↦ rw seen (search-Returns fuel ns s m (λ a h. l a (ground arith)))
    | inr fresh ↦ rw fresh (
        search_next (dfs fuel adj n s) (dfs-Returns fuel n s m (l n (ground arith)) fresh) (λ t g.
          search-Returns fuel ns t (omega (arith, unseen-le nodes s.visited t.visited g))
            (λ a h. l a (ground arith))))
  ]
    where
      search_next :
          (r : Answer)
          → Returns s r
          → ((t : Marks) → Grows s t → Returns t (search_from fuel adj ns t))
          → Returns s (elim r [
            | none ↦ none
            | some (true, s') ↦ some (true, s')
            | some (false, s') ↦ search_from fuel adj ns s'
          ])
      search_next none h k = h
      search_next (some (true, t)) h k = h
      search_next (some (false, t)) h k = Returns-trans s t _ h (k t h)

  Returns-found : (s : Marks) (r : Answer) → Returns s r → found r ≢ none
  Returns-found s none h = absurd h
  Returns-found s (some (b, t)) h = cc

  pub detect_cycle-ne-none : detect_cycle adj ≢ none
  unfolding detect_cycle
  detect_cycle-ne-none =
      Returns-found (record { visited = []; rec_stack = [] }) _
        (search-Returns (suc (length nodes)) nodes (record { visited = []; rec_stack = [] })
          (unseen_start nodes) (λ a h. h))
    where
      unseen_start : (ns : List ℕ) → unseen ns [] < suc (length ns)
      unseen_start [] = omega arith
      unseen_start (n ∷ ns) = ground (arith, unseen_start ns)
