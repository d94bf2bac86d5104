-- ===== src/Dependencies/CycleDetector/Edges.antt =====
-- The adjacency list holds exactly the edges that were put in.
use wood_fired_tasks.Prelude.{
  ℕ, ◌≡◌, Bool, false, ◌&&◌, ◌||◌, List, [], ◌∷◌, arith, has, has-add, ◌==◌,
}
use wood_fired_tasks.Dependencies.CycleDetector.{
  Edge, Adjacency, neighbors, insert, build, detector,
}

-- Whether the edge is one of the list.
abbrev pub holds : List Edge → ℕ → ℕ → Bool
holds [] u v = false
holds (e ∷ es) u v = (e.task_id == u && e.blocks_task_id == v) || holds es u v

pub neighbors-insert :
    (adj : Adjacency) (from to u v : ℕ)
    → has (neighbors (insert adj from to) u) v ≡ ((from == u && to == v) || has (neighbors adj u) v)
unfolding neighbors insert has
neighbors-insert [] from to u v = ground arith
neighbors-insert ((n, ns) ∷ adj) from to u v =
    ground (arith, has-add ns to v, neighbors-insert adj from to u v)

build-holds :
    (adj : Adjacency) (es : List Edge) (u v : ℕ)
    → has (neighbors (build adj es) u) v ≡ (has (neighbors adj u) v || holds es u v)
unfolding build
build-holds adj [] u v = ground arith
build-holds adj (e ∷ es) u v = ground (
  arith,
  build-holds (insert adj e.task_id e.blocks_task_id) es u v,
  neighbors-insert adj e.task_id e.blocks_task_id u v,
)

pub detector-holds : (es : List Edge) (u v : ℕ) → has (neighbors (detector es) u) v ≡ holds es u v
unfolding detector neighbors has
detector-holds es u v = build-holds [] es u v
