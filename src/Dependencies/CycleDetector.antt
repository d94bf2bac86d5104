-- ===== src/Dependencies/CycleDetector.antt =====
-- src/utils/cycle-detector.ts: the class CycleDetector. A Map from numbers to Sets is an
-- association list in insertion order; a recursive call of `dfs` is made on fuel, and `none`
-- says that the fuel ran out.
mod Nodes
mod Walks
mod Search
mod Fuel
pub mod Edges
pub mod Answers
pub mod Finite
use wood_fired_tasks.Prelude.{
  ℕ, zero, suc, Bool, true, false, Option, none, some, List, [], ◌∷◌, length, has, add, delete,
  ◌==◌, if◌then◌else◌,
}

-- A dependency row: `task_id` must finish before `blocks_task_id` can start.
pub record Edge : Type 0 where
  pub task_id : ℕ
  pub blocks_task_id : ℕ

abbrev pub Adjacency : Type 0
Adjacency = List (ℕ × List ℕ)

-- `adjacencyList.get(node)`, the empty Set where the Map has no entry.
pub neighbors : Adjacency → ℕ → List ℕ
neighbors [] node = []
neighbors ((n, ns) ∷ adj) node = if n == node then ns else neighbors adj node

-- `if (!has(from)) set(from, new Set()); get(from)!.add(to)`.
pub insert : Adjacency → ℕ → ℕ → Adjacency
insert [] from to = (from, to ∷ []) ∷ []
insert ((n, ns) ∷ adj) from to =
    if n == from then (n, add ns to) ∷ adj else (n, ns) ∷ insert adj from to

-- The constructor.
build : Adjacency → List Edge → Adjacency
build adj [] = adj
build adj (e ∷ es) = build (insert adj e.task_id e.blocks_task_id) es

unfoldable pub detector : List Edge → Adjacency
unfolding build insert add
detector edges = build [] edges

-- The Set of all nodes, sources and targets.
add_all : List ℕ → List ℕ → List ℕ
add_all nodes [] = nodes
add_all nodes (n ∷ ns) = add_all (add nodes n) ns

collect : List ℕ → Adjacency → List ℕ
collect nodes [] = nodes
collect nodes ((n, ns) ∷ adj) = collect (add_all (add nodes n) ns) adj

pub all_nodes : Adjacency → List ℕ
all_nodes adj = collect [] adj

pub record Marks : Type 0 where
  pub visited : List ℕ
  pub rec_stack : List ℕ

-- The answer of `dfs`, with the two Sets that it mutates.
abbrev pub Answer : Type 0
Answer = Option (Bool × Marks)

-- The loop over the neighbours, with the recursive call as a parameter.
scan : (ℕ → Marks → Answer) → List ℕ → Marks → Answer
scan rec [] s = some (false, s)
scan rec (n ∷ ns) s =
    if has s.rec_stack n
    then some (true, s)
    else if has s.visited n
    then scan rec ns s
    else elim (rec n s) [
      | none ↦ none
      | some (true, s') ↦ some (true, s')
      | some (false, s') ↦ scan rec ns s'
    ]

abbrev pub leave : ℕ → Answer → Answer
leave node none = none
leave node (some (true, s)) = some (true, s)
leave node (some (false, s)) = some (false, record s { rec_stack = delete s.rec_stack node })

abbrev pub enter : ℕ → Marks → Marks
enter node s = record { visited = add s.visited node; rec_stack = add s.rec_stack node }

pub dfs : ℕ → Adjacency → ℕ → Marks → Answer
dfs zero adj node s = none
dfs (suc fuel) adj node s = leave node (scan (dfs fuel adj) (neighbors adj node) (enter node s))

-- The loop of `detectCycle` over all nodes.
search_from : ℕ → Adjacency → List ℕ → Marks → Answer
search_from fuel adj [] s = some (false, s)
search_from fuel adj (n ∷ ns) s =
    if has s.visited n then search_from fuel adj ns s else elim (dfs fuel adj n s) [
      | none ↦ none
      | some (true, s') ↦ some (true, s')
      | some (false, s') ↦ search_from fuel adj ns s'
    ]

abbrev pub found : Answer → Option Bool
found none = none
found (some (b, s)) = some b

-- One more than the number of nodes is enough fuel: each call marks a node that was not marked.
unfoldable pub detect_cycle : Adjacency → Option Bool
unfolding search_from dfs scan neighbors all_nodes collect add_all has add delete
detect_cycle adj = found (
    search_from (suc (length (all_nodes adj))) adj (all_nodes adj)
      (record { visited = []; rec_stack = [] }))

-- The Map after the temporary edge is taken out: `get(from)!.delete(to)`, and the entry goes with
-- its last neighbour.
abbrev drop_empty : ℕ → List ℕ → Adjacency → Adjacency
drop_empty from [] adj = adj
drop_empty from (n ∷ ns) adj = (from, n ∷ ns) ∷ adj

pub remove : Adjacency → ℕ → ℕ → Adjacency
remove [] from to = []
remove ((n, ns) ∷ adj) from to =
    if n == from then drop_empty n (delete ns to) adj else (n, ns) ∷ remove adj from to

-- The answer, and the detector afterwards.
unfoldable pub would_create_cycle : Adjacency → ℕ → ℕ → Option Bool × Adjacency
unfolding detect_cycle insert remove
would_create_cycle adj from to =
    let added = insert adj from to in (detect_cycle added, remove added from to)
