-- ===== src/Wsjf/Closure.antt =====
-- src/services/wsjf.service.ts: the breadth-first search of rankFrontier. The Map of distances is a
-- list in insertion order, the array with its cursor is the list of what is still ahead. `none` says
-- that the fuel ran out, or is the error on a node without a distance; one more than the number of
-- nodes is enough.
pub mod Shortest
pub mod Invariant
pub mod Spread
pub mod Ways
use wood_fired_tasks.Prelude.{
  ℕ, zero, suc, Option, none, some, List, [], ◌∷◌, ◌++◌, length, ◌==◌, if◌then◌else◌,
}

abbrev pub Distances : Type 0
Distances = List (ℕ × ℕ)

unfoldable pub distance_of : Distances → ℕ → Option ℕ
distance_of [] id = none
distance_of ((n, d) ∷ rest) id = if n == id then some d else distance_of rest id

-- The loop over the neighbours: what is new is put at the ends of the queue and of the Map.
unfoldable pub reach_each : ℕ → List ℕ → List ℕ → Distances → List ℕ × Distances
reach_each d [] queue distance = (queue, distance)
reach_each d (next ∷ rest) queue distance = elim (distance_of distance next) [
  | some e ↦ reach_each d rest queue distance
  | none ↦ reach_each d rest (queue ++ next ∷ []) (distance ++ (next, suc d) ∷ [])
]

unfoldable pub search : ℕ → (ℕ → List ℕ) → List ℕ → Distances → Option Distances
search zero downstream queue distance = none
search (suc fuel) downstream [] distance = some distance
search (suc fuel) downstream (cur ∷ queue) distance = elim (distance_of distance cur) [
  | none ↦ none
  | some d ↦
      let (queue', distance') = reach_each d (downstream cur) queue distance in
      search fuel downstream queue' distance'
]

-- The distances of everything downstream of the task, on a graph of so many nodes.
unfoldable pub closure : ℕ → (ℕ → List ℕ) → ℕ → Option Distances
closure total downstream id = search (suc total) downstream (id ∷ []) ((id, 0) ∷ [])
