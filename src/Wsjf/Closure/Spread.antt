-- ===== src/Wsjf/Closure/Spread.antt =====
-- The loop over the neighbours of one node finds each of them.
use mathlib.Core.List.{append_assoc}
use mathlib.Core.Option.{some-injective}
use wood_fired_tasks.Prelude.{
  ℕ, suc, ◌≤◌, ◌≡◌, refl, sym, ap, subst, ◌∙◌, inl, inr, true, none, some, List, [], ◌∷◌, ◌++◌,
  arith, has, ◌==◌, ==_iff, Bool-cases, Option-cases,
}
use wood_fired_tasks.Wsjf.Closure.{Distances, distance_of, reach_each}
use wood_fired_tasks.Wsjf.Closure.Ways.{distance_of-kept, distance_of-new}
use wood_fired_tasks.Wsjf.Closure.Invariant.{IsSearch, offer-IsSearch}

reach_each-old :
    (d n e : ℕ) (rest queue : List ℕ) (found : Distances)
    → distance_of found n ≡ some e
    → reach_each d (n ∷ rest) queue found ≡ reach_each d rest queue found
unfolding reach_each
reach_each-old d n e rest queue found h = rw (reach_each, h) refl

reach_each-new :
    (d n : ℕ) (rest queue : List ℕ) (found : Distances)
    → distance_of found n ≡ none
    → reach_each d (n ∷ rest) queue found
      ≡ reach_each d rest (queue ++ n ∷ []) (found ++ (n, suc d) ∷ [])
unfolding reach_each
reach_each-new d n rest queue found h = rw (reach_each, h) refl

module _ (nodes : List ℕ) (downstream : ℕ → List ℕ) (from : ℕ) where
  -- What the loop over the neighbours `rest` of `cur` leaves.
  pub record HasReached (spread drained : List ℕ) (before : Distances) (d : ℕ) (this : List ℕ)
      (cur : ℕ) (rest : List ℕ) (queue : List ℕ × Distances) : Type 0 where
    pub next : List ℕ
    pub split : queue.0 ≡ this ++ next
    pub searching : IsSearch nodes downstream from spread drained queue.1 d this next
    pub at : distance_of queue.1 cur ≡ some d
    pub all_found :
        (w : ℕ) → has rest w ≡ true → (e : ℕ) × (distance_of queue.1 w ≡ some e) × (e ≤ suc d)
    pub kept : (v k : ℕ) → distance_of before v ≡ some k → distance_of queue.1 v ≡ some k

  HasReached-cons :
      (spread drained : List ℕ) (found found' : Distances) (d : ℕ) (this : List ℕ) (cur n e : ℕ)
      (rest : List ℕ) (queue : List ℕ × Distances)
      → HasReached spread drained found' d this cur rest queue
      → ((v k : ℕ) → distance_of found v ≡ some k → distance_of found' v ≡ some k)
      → distance_of found' n ≡ some e
      → e ≤ suc d
      → HasReached spread drained found d this cur (n ∷ rest) queue
  unfolding has
  HasReached-cons spread drained found found' d this cur n e rest queue r kept there short =
      record {
        next = r.next;
        split = r.split;
        searching = r.searching;
        at = r.at;
        all_found = λ w h. elim (Bool-cases (n == w)) [
          | inl same ↦ (
            e,
            subst (λ x. distance_of queue.1 x ≡ some e) ((==_iff n w).0 same) (r.kept n e there),
            short,
          )
          | inr other ↦ r.all_found w (ground (arith, h, other))
        ];
        kept = λ v k h. r.kept v k (kept v k h);
      }

  pub reach_each-HasReached :
      (rest spread drained : List ℕ) (found : Distances) (d : ℕ) (this next : List ℕ) (cur : ℕ)
      → IsSearch nodes downstream from spread drained found d this next
      → distance_of found cur ≡ some d
      → ((w : ℕ) → has rest w ≡ true → has (downstream cur) w ≡ true)
      → ((w : ℕ) → has rest w ≡ true → has nodes w ≡ true)
      → HasReached spread drained found d this cur rest (reach_each d rest (this ++ next) found)
  unfolding reach_each has
  reach_each-HasReached [] spread drained found d this next cur s at edges inside = record {
    next = next;
    split = refl;
    searching = s;
    at = at;
    all_found = λ w h. absurd (ground (arith, h));
    kept = λ v k h. h;
  }
  reach_each-HasReached (n ∷ rest) spread drained found d this next cur s at edges inside =
      elim (Option-cases (distance_of found n)) [
        | inr (e, there) ↦
            subst (HasReached spread drained found d this cur (n ∷ rest))
              (sym (reach_each-old d n e rest (this ++ next) found there))
              (HasReached-cons spread drained found found d this cur n e rest
                (reach_each d rest (this ++ next) found)
                (reach_each-HasReached rest spread drained found d this next cur s at
                  (λ w h. edges w (ground (arith, h))) (λ w h. inside w (ground (arith, h))))
                (λ v k h. h) there (s.bound n e there))
        | inl fresh ↦
            subst (HasReached spread drained found d this cur (n ∷ rest))
              (sym (
                reach_each-new d n rest (this ++ next) found fresh
                ∙ ap (λ q. reach_each d rest q (found ++ (n, suc d) ∷ []))
                    (append_assoc this next (n ∷ []))))
              (HasReached-cons spread drained found (found ++ (n, suc d) ∷ []) d this cur n (suc d)
                rest (reach_each d rest (this ++ (next ++ n ∷ [])) (found ++ (n, suc d) ∷ []))
                (reach_each-HasReached rest spread drained (found ++ (n, suc d) ∷ []) d this
                  (next ++ n ∷ []) cur
                  (offer-IsSearch nodes downstream from spread drained found d this next cur n s at
                    (edges n (ground arith)) (inside n (ground arith)) fresh)
                  (distance_of-kept found n (suc d) cur d at) (λ w h. edges w (ground (arith, h)))
                  (λ w h. inside w (ground (arith, h))))
                (λ v k h. distance_of-kept found n (suc d) v k h)
                (distance_of-new found n (suc d) fresh) (omega arith))
      ]

  -- The neighbours of `cur` are found, so it counts as spread.
  pub spread-IsSearch :
      (spread : List ℕ) (found : Distances) (d cur : ℕ) (this : List ℕ) (queue : List ℕ × Distances)
      (r : HasReached spread (cur ∷ spread) found d this cur (downstream cur) queue)
      → IsSearch nodes downstream from (cur ∷ spread) (cur ∷ spread) queue.1 d this r.next
  unfolding has
  spread-IsSearch spread found d cur this queue r = record {
    root = r.searching.root;
    ways = r.searching.ways;
    closed = λ v w k h there out. elim (Bool-cases (cur == v)) [
      | inl same ↦
          let far : d ≡ k = some-injective d k (
            sym (subst (λ x. distance_of queue.1 x ≡ some d) ((==_iff cur v).0 same) r.at)
            ∙ there) in
          let (e, found_w, short) =
            r.all_found w
              (subst (λ x. has (downstream x) w ≡ true) (sym ((==_iff cur v).0 same)) out) in
          (e, found_w, omega (arith, short, far))
      | inr other ↦ r.searching.closed v w k (ground (arith, h, other)) there out
    ];
    level = r.searching.level;
    beyond = r.searching.beyond;
    bound = r.searching.bound;
    cover = r.searching.cover;
    apart = r.searching.apart;
    distinct = r.searching.distinct;
    known = r.searching.known;
    seen = λ v h. r.searching.seen v (ground (arith, h));
  }
