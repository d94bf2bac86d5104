-- ===== src/Dependencies/CycleDetector/Nodes.antt =====
-- The Set of all nodes holds both ends of every edge.
use wood_fired_tasks.Prelude.{
  ℕ, ◌≡◌, inl, inr, true, List, [], ◌∷◌, ◌==◌, Bool-cases, arith, has, add, has-add,
}
use wood_fired_tasks.Dependencies.CycleDetector.{Adjacency, neighbors, add_all, collect, all_nodes}

add_all-keeps : (nodes ns : List ℕ) (a : ℕ) → has nodes a ≡ true → has (add_all nodes ns) a ≡ true
unfolding add_all
add_all-keeps nodes [] a h = h
add_all-keeps nodes (n ∷ ns) a h =
    add_all-keeps (add nodes n) ns a (ground (arith, has-add nodes n a))

add_all-adds : (nodes ns : List ℕ) (a : ℕ) → has ns a ≡ true → has (add_all nodes ns) a ≡ true
unfolding add_all has
add_all-adds nodes [] a h = absurd (ground arith)
add_all-adds nodes (n ∷ ns) a h = elim (Bool-cases (n == a)) [
  | inl same ↦ add_all-keeps (add nodes n) ns a (ground (arith, has-add nodes n a))
  | inr other ↦ add_all-adds (add nodes n) ns a (ground arith)
]

collect-keeps :
    (nodes : List ℕ) (adj : Adjacency) (a : ℕ)
    → has nodes a ≡ true
    → has (collect nodes adj) a ≡ true
unfolding collect
collect-keeps nodes [] a h = h
collect-keeps nodes ((n, ns) ∷ adj) a h =
    collect-keeps (add_all (add nodes n) ns) adj a
      (add_all-keeps (add nodes n) ns a (ground (arith, has-add nodes n a)))

collect-source :
    (nodes : List ℕ) (adj : Adjacency) (u v : ℕ)
    → has (neighbors adj u) v ≡ true
    → has (collect nodes adj) u ≡ true
unfolding collect neighbors has
collect-source nodes [] u v h = absurd (ground arith)
collect-source nodes ((n, ns) ∷ adj) u v h = elim (Bool-cases (n == u)) [
  | inl same ↦
      collect-keeps (add_all (add nodes n) ns) adj u
        (add_all-keeps (add nodes n) ns u (ground (arith, has-add nodes n u)))
  | inr other ↦ collect-source (add_all (add nodes n) ns) adj u v (ground arith)
]

collect-target :
    (nodes : List ℕ) (adj : Adjacency) (u v : ℕ)
    → has (neighbors adj u) v ≡ true
    → has (collect nodes adj) v ≡ true
unfolding collect neighbors has
collect-target nodes [] u v h = absurd (ground arith)
collect-target nodes ((n, ns) ∷ adj) u v h = elim (Bool-cases (n == u)) [
  | inl same ↦
      collect-keeps (add_all (add nodes n) ns) adj v
        (add_all-adds (add nodes n) ns v (ground arith))
  | inr other ↦ collect-target (add_all (add nodes n) ns) adj u v (ground arith)
]

module _ (adj : Adjacency) (u v : ℕ) (edge : has (neighbors adj u) v ≡ true) where
  pub all_nodes-source : has (all_nodes adj) u ≡ true
  unfolding all_nodes
  all_nodes-source = collect-source [] adj u v edge

  pub all_nodes-target : has (all_nodes adj) v ≡ true
  unfolding all_nodes
  all_nodes-target = collect-target [] adj u v edge
