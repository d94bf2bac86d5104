-- ===== src/Wsjf/Ranking/Distinct.antt =====
-- No task stands twice among those that a task's rank looks at.
use wood_fired_tasks.Prelude.{
  ℕ, zero, suc, ◌≡◌, refl, sym, subst, ap, ◌∙◌, inl, inr, Bool, true, false, not, ◌&&◌, Option,
  none, some, List, [], ◌∷◌, ◌++◌, arith, has, keep, leb, ◌==◌, Option-cases,
}
use mathlib.Core.Option.{some-injective}
use wood_fired_tasks.Prelude.Sort.{place, sort, ascending, has-ascending}
use wood_fired_tasks.Dependencies.Degrees.{uniq, keys}
use wood_fired_tasks.Dependencies.Topology.Ends.{has-keep}
use wood_fired_tasks.Wsjf.Closure.{Distances, distance_of, reach_each, search, closure}
use wood_fired_tasks.Wsjf.Closure.Ways.{uniq-snoc}
use wood_fired_tasks.Wsjf.Closure.Shortest.{search-cons}
use wood_fired_tasks.Wsjf.Ranking.{dependent_ids}

abbrev pub is_some : Option ℕ → Bool
is_some none = false
is_some (some d) = true

has-keys : (found : Distances) (v : ℕ) → has (keys found) v ≡ is_some (distance_of found v)
unfolding has keys distance_of
has-keys [] v = refl
has-keys ((n, d) ∷ found) v = ground (arith, has-keys found v)

keys-append : (xs ys : Distances) → keys (xs ++ ys) ≡ keys xs ++ keys ys
unfolding keys
keys-append [] ys = refl
keys-append ((n, d) ∷ xs) ys = ap (λ l. n ∷ l) (keys-append xs ys)

reach_each-uniq :
    (d : ℕ) (rest queue : List ℕ) (found : Distances)
    → uniq (keys found) ≡ true
    → uniq (keys (reach_each d rest queue found).1) ≡ true
unfolding reach_each keys
reach_each-uniq d [] queue found u = u
reach_each-uniq d (n ∷ rest) queue found u = elim (Option-cases (distance_of found n)) [
  | inr (e, there) ↦ rw (reach_each, there) (reach_each-uniq d rest queue found u)
  | inl fresh ↦
      let apart : has (keys found) n ≡ false = has-keys found n ∙ ap is_some fresh in
      let u' : uniq (keys (found ++ (n, suc d) ∷ [])) ≡ true =
        subst (λ l. uniq l ≡ true) (sym (keys-append found ((n, suc d) ∷ [])))
          (uniq-snoc (keys found) n u apart) in
      rw (reach_each, fresh)
        (reach_each-uniq d rest (queue ++ n ∷ []) (found ++ (n, suc d) ∷ []) u')
]

search-uniq :
    (fuel : ℕ) (downstream : ℕ → List ℕ) (queue : List ℕ) (found end : Distances)
    → uniq (keys found) ≡ true
    → search fuel downstream queue found ≡ some end
    → uniq (keys end) ≡ true
unfolding search
search-uniq zero downstream queue found end u h = absurd (ground (arith, h))
search-uniq (suc fuel) downstream [] found end u h =
    subst (λ f. uniq (keys f) ≡ true) (some-injective found end h) u
search-uniq (suc fuel) downstream (cur ∷ queue) found end u h =
    elim (Option-cases (distance_of found cur)) [
      | inl absent ↦
          let stop : search (suc fuel) downstream (cur ∷ queue) found ≡ none =
            rw (search, absent) refl in
          absurd (ground (arith, sym h ∙ stop))
      | inr (d, there) ↦
          let turn = reach_each d (downstream cur) queue found in
          search-uniq fuel downstream turn.0 turn.1 end
            (reach_each-uniq d (downstream cur) queue found u)
            (sym (search-cons fuel downstream cur queue found d there) ∙ h)
    ]

has-place : (x : ℕ) (xs : List ℕ) (v : ℕ) → has (place leb x xs) v ≡ has (x ∷ xs) v
unfolding place has
has-place x [] v = refl
has-place x (y ∷ ys) v = ground (arith, has-place x ys v)

uniq-place : (x : ℕ) (xs : List ℕ) → uniq (place leb x xs) ≡ uniq (x ∷ xs)
unfolding place has uniq
uniq-place x [] = refl
uniq-place x (y ∷ ys) = ground (arith, uniq-place x ys, has-place x ys y)

uniq-ascending : (xs : List ℕ) → uniq (ascending xs) ≡ uniq xs
unfolding sort uniq
uniq-ascending [] = refl
uniq-ascending (x ∷ xs) =
    uniq-place x (ascending xs) ∙ ground (arith, uniq-ascending xs, has-ascending xs x)

uniq-keep : (p : ℕ → Bool) (xs : List ℕ) → uniq xs ≡ true → uniq (keep p xs) ≡ true
unfolding uniq
uniq-keep p [] u = refl
uniq-keep p (x ∷ xs) u = ground (arith, u, uniq-keep p xs, has-keep p xs x)

-- Each dependent is looked at once.
pub uniq-dependent_ids :
    (total id : ℕ) (downstream : ℕ → List ℕ) (found : Distances)
    → closure total downstream id ≡ some found
    → uniq (dependent_ids id found) ≡ true
unfolding closure has keys uniq
uniq-dependent_ids total id downstream found h =
    uniq-ascending (keep (λ v. not (v == id)) (keys found))
    ∙ uniq-keep (λ v. not (v == id)) (keys found)
        (search-uniq (suc total) downstream (id ∷ []) ((id, 0) ∷ []) found refl h)

-- They are what has a distance, but for the task itself.
pub has-dependent_ids :
    (id : ℕ) (found : Distances) (v : ℕ)
    → has (dependent_ids id found) v ≡ (not (v == id) && is_some (distance_of found v))
has-dependent_ids id found v =
    has-ascending (keep (λ v. not (v == id)) (keys found)) v
    ∙ has-keep (λ v. not (v == id)) (keys found) v
    ∙ ap (λ b. not (v == id) && b) (has-keys found v)
