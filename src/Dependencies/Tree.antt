-- ===== src/Dependencies/Tree.antt =====
-- src/services/dependency-graph.service.ts: the tree of buildDependencyGraph, from the tasks of the
-- project and the edges between them. Of a row, a node only keeps the id. `none` says that the fuel
-- ran out; a branch is cut where it meets a task again, so one more than the number of tasks is enough.
pub mod Size
pub mod Lines
mod Examples
use wood_fired_tasks.Prelude.{
  ℕ, zero, suc, ◌<◌, Bool, true, false, not, ◌&&◌, ◌||◌, Option, none, some, List, [], ◌∷◌, map,
  keep, has, length, ltb, leb, ◌==◌, if◌then◌else◌,
}
use wood_fired_tasks.Prelude.Sort.{sort}
use wood_fired_tasks.Wsjf.Tiers.{Priority, urgent, high, medium, low}
use wood_fired_tasks.Dependencies.CycleDetector.{Edge}
use wood_fired_tasks.Dependencies.Degrees.{Table, degree, degrees, target}
use wood_fired_tasks.Dependencies.Kahn.{targets, adjacent}

-- What the order of the tree looks at; a time of creation is a number.
pub record TaskRow : Type 0 where
  pub id : ℕ
  pub priority : Priority
  pub created_at : ℕ

abbrev pub priority_weight : Priority → ℕ
priority_weight urgent = 4
priority_weight high = 3
priority_weight medium = 2
priority_weight low = 1

unfoldable pub find_row : List TaskRow → ℕ → Option TaskRow
find_row [] id = none
find_row (t ∷ ts) id = if t.id == id then some t else find_row ts id

-- Urgent before less urgent, then new before old, then by id.
unfoldable pub row_before : TaskRow → TaskRow → Bool
row_before a b =
    ltb (priority_weight b.priority) (priority_weight a.priority)
    || (priority_weight a.priority == priority_weight b.priority
        && (ltb b.created_at a.created_at || (a.created_at == b.created_at && leb a.id b.id)))

-- `compareTasks`, not above 0.
unfoldable pub comes_before : List TaskRow → ℕ → ℕ → Bool
comes_before tasks a b = elim (find_row tasks a) [
  | none ↦ leb a b
  | some x ↦ elim (find_row tasks b) [ none ↦ leb a b | some y ↦ row_before x y ]
]

abbrev pub ids : List TaskRow → List ℕ
ids tasks = map (λ t. t.id) tasks

pub record TreeContext : Type 0 where
  pub known : List ℕ
  pub children_by_parent : ℕ → List ℕ
  pub in_degree : Table

unfoldable pub context_of : List TaskRow → List Edge → TreeContext
context_of tasks edges = record {
  known = ids tasks;
  children_by_parent = λ id. sort (comes_before tasks) (adjacent (ids tasks) edges id);
  in_degree = degrees target (ids tasks) edges;
}

abbrev first_only : List ℕ → List ℕ
first_only [] = []
first_only (x ∷ xs) = x ∷ []

-- The tasks that nothing blocks, or else the first one of all.
unfoldable pub root_ids : List TaskRow → TreeContext → List ℕ
root_ids tasks ctx =
    let free = sort (comes_before tasks) (keep (λ id. degree ctx.in_degree id == 0) (ids tasks)) in
    elim free [ [] ↦ first_only (sort (comes_before tasks) (ids tasks)) | r ∷ rs ↦ r ∷ rs ]

pub record Counter : Type 0 where
  pub count : ℕ
  pub truncated : Bool

mutual
  pub data Tree : Type 0 where
    node : (id depth blocked_by_count : ℕ) → Forest → Tree

  pub data Forest : Type 0 where
    bare : Forest
    plant : Tree → Forest → Forest

-- The loop over the children, and over the roots.
unfoldable pub walk_each :
    (ℕ → Counter → Option (Tree × Counter)) → ℕ → List ℕ → Counter → Option (Forest × Counter)
walk_each rec max_nodes [] c = some (bare, c)
walk_each rec max_nodes (id ∷ rest) c = elim (leb max_nodes c.count) [
  | true ↦ some (bare, record c { truncated = true })
  | false ↦ elim (rec id c) [
    | none ↦ none
    | some (tree, c') ↦ elim (walk_each rec max_nodes rest c') [
      | none ↦ none
      | some (forest, c'') ↦ some (plant tree forest, c'')
    ]
  ]
]

abbrev pub with_children : (Forest → Tree) → Option (Forest × Counter) → Option (Tree × Counter)
with_children make none = none
with_children make (some (forest, c)) = some (make forest, c)

unfoldable pub build_tree_node :
    ℕ → TreeContext → ℕ → ℕ → List ℕ → ℕ → Counter → Option (Tree × Counter)
build_tree_node zero ctx max_nodes depth visited id c = none
build_tree_node (suc fuel) ctx max_nodes depth visited id c =
    let counted = record c { count = suc c.count } in
    elim (has ctx.known id) [
      | false ↦ some (node id depth 0 bare, counted)
      | true ↦
          let make = node id depth (degree ctx.in_degree id) in
          elim (has visited id) [
            | true ↦ some (make bare, counted)
            | false ↦ elim (leb max_nodes counted.count) [
              | true ↦ some (make bare, record counted { truncated = true })
              | false ↦ with_children make (
                  walk_each (build_tree_node fuel ctx max_nodes (suc depth) (id ∷ visited))
                    max_nodes (ctx.children_by_parent id) counted)
            ]
          ]
    ]

-- The roots of the answer, with whether it was cut short; `max_nodes` is MAX_TREE_NODES.
unfoldable pub build_tree : ℕ → List TaskRow → List Edge → Option (Forest × Counter)
build_tree max_nodes tasks edges =
    let ctx = context_of tasks edges in
    walk_each (build_tree_node (suc (length tasks)) ctx max_nodes 0 []) max_nodes
      (root_ids tasks ctx) (record { count = 0; truncated = false })
