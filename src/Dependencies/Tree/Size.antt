-- ===== src/Dependencies/Tree/Size.antt =====
-- The walk always ends, and gives no more nodes than the cap.
use wood_fired_tasks.Prelude.{
  ℕ, zero, suc, ◌+◌, ◌≤◌, ◌<◌, ◌≡◌, refl, inl, inr, Bool, true, false, Option, some, List, [], ◌∷◌,
  arith, has, length, leb, Bool-cases,
}
use wood_fired_tasks.Dependencies.CycleDetector.{Edge}
use wood_fired_tasks.Dependencies.Degrees.{degree, uniq}
use wood_fired_tasks.Dependencies.Kahn.Counts.{count_in, count_in-le_length, count_in-pop}
use wood_fired_tasks.Dependencies.Tree.{
  TaskRow, ids, TreeContext, context_of, root_ids, Counter, Tree, Forest, node, bare, plant,
  walk_each, build_tree_node, build_tree,
}

mutual
  pub size : Tree → ℕ
  size (node id depth blocked_by_count children) = suc (sizes children)

  pub sizes : Forest → ℕ
  sizes bare = 0
  sizes (plant tree rest) = size tree + sizes rest

-- A part of the walk ends, counts what it adds, and stays within the cap.
pub record Added (A : Type 0) (measure : A → ℕ) (max_nodes : ℕ) (c : Counter)
    (r : Option (A × Counter)) : Type 0 where
  pub grown : A
  pub after : Counter
  pub result : r ≡ some (grown, after)
  pub counted : after.count ≡ c.count + measure grown
  pub capped : after.count ≤ max_nodes

abbrev IsWalk : ℕ → (ℕ → Counter → Option (Tree × Counter)) → Type 0
IsWalk max_nodes rec =
    (id : ℕ) (c : Counter) → c.count < max_nodes → Added Tree size max_nodes c (rec id c)

walk_each-Added :
    (max_nodes : ℕ) (rec : ℕ → Counter → Option (Tree × Counter))
    → IsWalk max_nodes rec
    → (xs : List ℕ) (c : Counter) → c.count ≤ max_nodes
    → Added Forest sizes max_nodes c (walk_each rec max_nodes xs c)
unfolding walk_each sizes
walk_each-Added max_nodes rec w [] c h = record {
  grown = bare;
  after = c;
  result = refl;
  counted = omega arith;
  capped = h;
}
walk_each-Added max_nodes rec w (x ∷ xs) c h = elim (Bool-cases (leb max_nodes c.count)) [
  | inl full ↦ record {
    grown = bare;
    after = record c { truncated = true };
    result = rw (walk_each, full) refl;
    counted = omega arith;
    capped = h;
  }
  | inr free ↦
      let first = w x c (ground (arith, free)) in
      let rest = walk_each-Added max_nodes rec w xs first.after first.capped in
      record {
        grown = plant first.grown rest.grown;
        after = rest.after;
        result = rw (walk_each, free, first.result, rest.result) refl;
        counted = omega (arith, first.counted, rest.counted);
        capped = rest.capped;
      }
]

module _ (ctx : TreeContext) (max_nodes : ℕ) where
  one_node :
      (c : Counter) (id depth blocked : ℕ) (b : Bool)
      → c.count < max_nodes
      → Added Tree size max_nodes c
          (some (node id depth blocked bare, record { count = suc c.count; truncated = b }))
  unfolding size sizes
  one_node c id depth blocked b h = record {
    grown = node id depth blocked bare;
    after = record { count = suc c.count; truncated = b };
    result = refl;
    counted = omega arith;
    capped = omega arith;
  }

  build_tree_node-IsWalk :
      (fuel depth : ℕ) (visited : List ℕ)
      → uniq ctx.known ≡ true
      → length ctx.known < fuel + count_in ctx.known visited
      → IsWalk max_nodes (build_tree_node fuel ctx max_nodes depth visited)
  unfolding build_tree_node size
  build_tree_node-IsWalk zero depth visited u enough id c h =
      absurd (omega (arith, count_in-le_length ctx.known visited))
  build_tree_node-IsWalk (suc fuel) depth visited u enough id c h =
      elim (Bool-cases (has ctx.known id)) [
        | inr missing ↦ rw (build_tree_node, missing) (one_node c id depth 0 c.truncated h)
        | inl known ↦ elim (Bool-cases (has visited id)) [
          | inl again ↦
              rw (build_tree_node, known, again)
                (one_node c id depth (degree ctx.in_degree id) c.truncated h)
          | inr fresh ↦ elim (Bool-cases (leb max_nodes (suc c.count))) [
            | inl full ↦
                rw (build_tree_node, known, fresh, full)
                  (one_node c id depth (degree ctx.in_degree id) true h)
            | inr free ↦
                let deeper =
                  build_tree_node-IsWalk fuel (suc depth) (id ∷ visited) u
                    (omega (arith, count_in-pop ctx.known visited id u known fresh)) in
                let below =
                  walk_each-Added max_nodes _ deeper (ctx.children_by_parent id)
                    (record { count = suc c.count; truncated = c.truncated }) (omega arith) in
                record {
                  grown = node id depth (degree ctx.in_degree id) below.grown;
                  after = below.after;
                  result = rw (build_tree_node, known, fresh, free, below.result) refl;
                  counted = omega (arith, below.counted);
                  capped = below.capped;
                }
          ]
        ]
      ]

pub length-ids : (tasks : List TaskRow) → length (ids tasks) ≡ length tasks
length-ids [] = refl
length-ids (t ∷ tasks) = omega (arith, length-ids tasks)

-- On tasks that are named once, the tree is always built; it has as many nodes as were counted, and no
-- more than the cap.
pub build_tree-capped :
    (max_nodes : ℕ) (tasks : List TaskRow) (edges : List Edge)
    → uniq (ids tasks) ≡ true
    → (forest : Forest) × (c : Counter) × (build_tree max_nodes tasks edges ≡ some (forest, c))
      × (sizes forest ≡ c.count)
      × (c.count ≤ max_nodes)
unfolding build_tree context_of
build_tree-capped max_nodes tasks edges u =
    let a =
      walk_each-Added max_nodes _ walk (root_ids tasks ctx)
        (record { count = 0; truncated = false }) (omega arith) in
    (a.grown, a.after, a.result, omega (arith, a.counted), a.capped)
  where
    ctx : TreeContext
    ctx = context_of tasks edges

    walk : IsWalk max_nodes (build_tree_node (suc (length tasks)) ctx max_nodes 0 [])
    walk =
        build_tree_node-IsWalk ctx max_nodes (suc (length tasks)) 0 [] u
          (omega (arith, length-ids tasks))
