-- ===== src/Wsjf/Closure/Shortest.antt =====
-- The search ends, with the length of a shortest way to everything that can be reached.
use mathlib.Core.List.{append-nil}
use mathlib.Core.Option.{some-injective}
use wood_fired_tasks.Prelude.{
  ℕ, zero, suc, ◌+◌, ◌≤◌, ◌<◌, ◌≡◌, ◌↔◌, refl, sym, ap, subst, ◌∙◌, true, some, List, [], ◌∷◌, ◌++◌,
  arith, has, length,
}
use wood_fired_tasks.Dependencies.Degrees.{uniq}
use wood_fired_tasks.Dependencies.Kahn.Counts.{count_in, count_in-le_length, count_in-pop}
use wood_fired_tasks.Wsjf.Closure.{Distances, distance_of, reach_each, search, closure}
use wood_fired_tasks.Wsjf.Closure.Ways.{Way, here, go, IsShortest}
use wood_fired_tasks.Wsjf.Closure.Invariant.{IsSearch, pop-IsSearch, shift-IsSearch, start-IsSearch}
use wood_fired_tasks.Wsjf.Closure.Spread.{reach_each-HasReached, spread-IsSearch}

pub search-cons :
    (fuel : ℕ) (downstream : ℕ → List ℕ) (cur : ℕ) (queue : List ℕ) (found : Distances) (d : ℕ)
    → distance_of found cur ≡ some d
    → search (suc fuel) downstream (cur ∷ queue) found ≡ (
        let turn = reach_each d (downstream cur) queue found in
        search fuel downstream turn.0 turn.1)
unfolding search
search-cons fuel downstream cur queue found d h = rw (search, h) refl

module _ (nodes : List ℕ) (downstream : ℕ → List ℕ) (from : ℕ) where
  -- What the search gives: everything that an edge leads to is there.
  record IsClosure (found : Distances) : Type 0 where
    root : distance_of found from ≡ some 0
    ways : (v k : ℕ) → distance_of found v ≡ some k → Way downstream from v k
    closed :
        (v w k : ℕ)
        → distance_of found v ≡ some k
        → has (downstream v) w ≡ true
        → (e : ℕ) × (distance_of found w ≡ some e) × (e ≤ suc k)

  Way-distance :
      (found : Distances)
      → IsClosure found
      → {v d : ℕ} → Way downstream from v d
      → (k : ℕ) × (distance_of found v ≡ some k) × (k ≤ d)
  Way-distance found c here = (0, c.root, omega arith)
  Way-distance found c (go {u} {v} way edge) =
      let (k, at, short) = Way-distance found c way in
      let (e, there, next) = c.closed u v k at edge in (e, there, omega (arith, short, next))

  Ends : ℕ → Type 0
  Ends fuel =
      (spread : List ℕ) (found : Distances) (d : ℕ) (this next : List ℕ)
      → IsSearch nodes downstream from spread spread found d this next
      → length nodes < fuel + count_in nodes spread
      → (end : Distances) × (search fuel downstream (this ++ next) found ≡ some end) × IsClosure end

  module _ (distinct : uniq nodes ≡ true)
      (inside : (v w : ℕ) → has (downstream v) w ≡ true → has nodes w ≡ true) where
    search-pop :
        (fuel : ℕ)
        → Ends fuel
        → (spread : List ℕ) (found : Distances) (d cur : ℕ) (this next : List ℕ)
        → IsSearch nodes downstream from spread spread found d (cur ∷ this) next
        → length nodes < suc fuel + count_in nodes spread
        → (end : Distances) × (search (suc fuel) downstream (cur ∷ this ++ next) found ≡ some end)
          × IsClosure end
    unfolding search has Ends
    search-pop fuel rest spread found d cur this next s enough =
        let at : distance_of found cur ≡ some d = s.level cur (ground arith) in
        let r =
          reach_each-HasReached nodes downstream from (downstream cur) spread (cur ∷ spread) found d
            this next cur (pop-IsSearch nodes downstream from spread found d cur this next s) at
            (λ w h. h) (inside cur) in
        let queue = reach_each d (downstream cur) (this ++ next) found in
        let count =
          count_in-pop nodes spread cur distinct (s.known cur d at) (s.apart cur (ground arith)) in
        let (end, ends, done) =
          rest (cur ∷ spread) queue.1 d this r.next
            (spread-IsSearch nodes downstream from spread found d cur this queue r)
            (omega (arith, enough, count)) in
        (
          end,
          search-cons fuel downstream cur (this ++ next) found d at
              ∙ ap (λ q. search fuel downstream q queue.1) r.split
              ∙ ends,
          done,
        )

    search-Ends : (fuel : ℕ) → Ends fuel
    unfolding Ends search has
    search-Ends zero spread found d this next s enough =
        absurd (omega (arith, enough, count_in-le_length nodes spread))
    search-Ends (suc fuel) spread found d (cur ∷ this) next s enough =
        search-pop fuel (search-Ends fuel) spread found d cur this next s enough
    search-Ends (suc fuel) spread found d [] (cur ∷ next) s enough =
        let (end, ends, done) =
          search-pop fuel (search-Ends fuel) spread found (suc d) cur next []
            (shift-IsSearch nodes downstream from spread found d (cur ∷ next) s) enough in
        (
          end,
          subst (λ l. search (suc fuel) downstream (cur ∷ l) found ≡ some end) (append-nil next)
              ends,
          done,
        )
    search-Ends (suc fuel) spread found d [] [] s enough = (
      found,
      refl,
      record {
        root = s.root;
        ways = s.ways;
        closed = λ v w k at. s.closed v w k (ground (arith, s.cover v k at)) at;
      },
    )

  -- On a graph whose nodes are listed once, the search gives each node that can be reached the length
  -- of a shortest way to it, and no distance to the others.
  pub closure-IsShortest :
      uniq nodes ≡ true
      → ((v w : ℕ) → has (downstream v) w ≡ true → has nodes w ≡ true)
      → has nodes from ≡ true
      → (found : Distances) × (closure (length nodes) downstream from ≡ some found)
        × ((v d : ℕ) → (distance_of found v ≡ some d) ↔ IsShortest downstream from v d)
  unfolding closure Ends
  closure-IsShortest distinct inside root =
      let (found, ends, done) =
        search-Ends distinct inside (suc (length nodes)) [] ((from, 0) ∷ []) 0 (from ∷ []) []
          (start-IsSearch nodes downstream from root) (omega arith) in
      (
        found,
        ends,
        λ v d. (
          λ at. record {
            way = done.ways v d at;
            least = λ e way.
                let (k, there, short) = Way-distance found done way in
                omega (arith, short, some-injective d k (sym at ∙ there));
          },
          λ shortest.
              let (k, there, short) = Way-distance found done shortest.way in
              let low : d ≤ k = shortest.least k (done.ways v k there) in
              there ∙ ap some (omega (arith, short, low)),
        ),
      )
