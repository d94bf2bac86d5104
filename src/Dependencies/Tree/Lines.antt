-- ===== src/Dependencies/Tree/Lines.antt =====
-- src/services/dependency-graph.service.ts: renderTextLines. A line keeps the task and its place: the
-- trunks before it and its connector; its other text is left out.
use wood_fired_tasks.Prelude.{
  ℕ, zero, suc, ◌+◌, ◌≤◌, ◌<◌, ◌≡◌, refl, inl, inr, true, false, Option, none, some, List, [], ◌∷◌,
  ◌++◌, arith, has, length, length-append, leb, Bool-cases,
}
use wood_fired_tasks.Dependencies.CycleDetector.{Edge}
use wood_fired_tasks.Dependencies.Degrees.{uniq}
use wood_fired_tasks.Dependencies.Kahn.Counts.{count_in, count_in-le_length, count_in-pop}
use wood_fired_tasks.Dependencies.Tree.{
  TaskRow, ids, TreeContext, context_of, root_ids, Counter, Forest, build_tree,
}
use wood_fired_tasks.Dependencies.Tree.Size.{Added, length-ids, sizes, build_tree-capped}

pub data Trunk : Type 0 where
  blank bar : Trunk

-- A root, the last of its siblings, or another one.
pub data Place : Type 0 where
  root last_sibling inner_sibling : Place

pub record Line : Type 0 where
  pub id : ℕ
  pub prefix : List Trunk
  pub place : Place

abbrev pub child_prefix : Place → List Trunk → List Trunk
child_prefix root prefix = []
child_prefix last_sibling prefix = prefix ++ blank ∷ []
child_prefix inner_sibling prefix = prefix ++ bar ∷ []

abbrev pub place_of : List ℕ → Place
place_of [] = last_sibling
place_of (x ∷ xs) = inner_sibling

abbrev pub after_line : Line → Option (List Line × Counter) → Option (List Line × Counter)
after_line line none = none
after_line line (some (lines, c)) = some (line ∷ lines, c)

-- The loop over the children, or over the roots; the place of one depends on what follows it.
unfoldable pub walk_lines :
    (Place → ℕ → Counter → Option (List Line × Counter))
    → (List ℕ → Place)
    → ℕ
    → List ℕ
    → Counter
    → Option (List Line × Counter)
walk_lines rec place max_nodes [] c = some ([], c)
walk_lines rec place max_nodes (id ∷ rest) c = elim (leb max_nodes c.count) [
  | true ↦ some ([], record c { truncated = true })
  | false ↦ elim (rec (place rest) id c) [
    | none ↦ none
    | some (lines, c') ↦ elim (walk_lines rec place max_nodes rest c') [
      | none ↦ none
      | some (others, c'') ↦ some (lines ++ others, c'')
    ]
  ]
]

unfoldable pub walk :
    ℕ → TreeContext → ℕ → List Trunk → List ℕ → Place → ℕ → Counter → Option (List Line × Counter)
walk zero ctx max_nodes prefix visited place id c = none
walk (suc fuel) ctx max_nodes prefix visited place id c = elim (leb max_nodes c.count) [
  | true ↦ some ([], record c { truncated = true })
  | false ↦ elim (has ctx.known id) [
    | false ↦ some ([], c)
    | true ↦
        let line : Line = record { id = id; prefix = prefix; place = place } in
        let counted : Counter = record c { count = suc c.count } in
        elim (has visited id) [
          | true ↦ some (line ∷ [], counted)
          | false ↦ after_line line (
              walk_lines (walk fuel ctx max_nodes (child_prefix place prefix) (id ∷ visited))
                place_of max_nodes (ctx.children_by_parent id) counted)
        ]
  ]
]

abbrev pub at_root : List ℕ → Place
at_root rest = root

unfoldable pub render_text_lines : ℕ → List TaskRow → List Edge → Option (List Line × Counter)
render_text_lines max_nodes tasks edges =
    let ctx = context_of tasks edges in
    walk_lines (walk (suc (length tasks)) ctx max_nodes [] []) at_root max_nodes
      (root_ids tasks ctx) (record { count = 0; truncated = false })

abbrev LinesAdded : ℕ → Counter → Option (List Line × Counter) → Type 0
LinesAdded max_nodes c r = Added (List Line) length max_nodes c r

abbrev IsLineWalk : ℕ → (Place → ℕ → Counter → Option (List Line × Counter)) → Type 0
IsLineWalk max_nodes rec =
    (place : Place) (id : ℕ) (c : Counter)
    → c.count < max_nodes
    → LinesAdded max_nodes c (rec place id c)

walk_lines-Added :
    (max_nodes : ℕ) (rec : Place → ℕ → Counter → Option (List Line × Counter))
    (place : List ℕ → Place)
    → IsLineWalk max_nodes rec
    → (xs : List ℕ) (c : Counter) → c.count ≤ max_nodes
    → LinesAdded max_nodes c (walk_lines rec place max_nodes xs c)
unfolding walk_lines
walk_lines-Added max_nodes rec place w [] c h = record {
  grown = [];
  after = c;
  result = refl;
  counted = omega arith;
  capped = h;
}
walk_lines-Added max_nodes rec place w (x ∷ xs) c h = elim (Bool-cases (leb max_nodes c.count)) [
  | inl full ↦ record {
    grown = [];
    after = record c { truncated = true };
    result = rw (walk_lines, full) refl;
    counted = omega arith;
    capped = h;
  }
  | inr free ↦
      let first = w (place xs) x c (ground (arith, free)) in
      let rest = walk_lines-Added max_nodes rec place w xs first.after first.capped in
      record {
        grown = first.grown ++ rest.grown;
        after = rest.after;
        result = rw (walk_lines, free, first.result, rest.result) refl;
        counted = omega (arith, first.counted, rest.counted, length-append first.grown rest.grown);
        capped = rest.capped;
      }
]

module _ (ctx : TreeContext) (max_nodes : ℕ) where
  walk-IsLineWalk :
      (fuel : ℕ) (prefix : List Trunk) (visited : List ℕ)
      → uniq ctx.known ≡ true
      → length ctx.known < fuel + count_in ctx.known visited
      → IsLineWalk max_nodes (walk fuel ctx max_nodes prefix visited)
  unfolding walk
  walk-IsLineWalk zero prefix visited u enough place id c h =
      absurd (omega (arith, count_in-le_length ctx.known visited))
  walk-IsLineWalk (suc fuel) prefix visited u enough place id c h =
      let free : leb max_nodes c.count ≡ false = ground (arith, h) in
      let line : Line = record { id = id; prefix = prefix; place = place } in
      elim (Bool-cases (has ctx.known id)) [
        | inr missing ↦ record {
          grown = [];
          after = c;
          result = rw (walk, free, missing) refl;
          counted = omega arith;
          capped = omega arith;
        }
        | inl known ↦ elim (Bool-cases (has visited id)) [
          | inl again ↦ record {
            grown = line ∷ [];
            after = record c { count = suc c.count };
            result = rw (walk, free, known, again) refl;
            counted = omega arith;
            capped = omega arith;
          }
          | inr fresh ↦
              let deeper =
                walk-IsLineWalk fuel (child_prefix place prefix) (id ∷ visited) u
                  (omega (arith, count_in-pop ctx.known visited id u known fresh)) in
              let below =
                walk_lines-Added max_nodes _ place_of deeper (ctx.children_by_parent id)
                  (record { count = suc c.count; truncated = c.truncated }) (omega arith) in
              record {
                grown = line ∷ below.grown;
                after = below.after;
                result = rw (walk, free, known, fresh, below.result) refl;
                counted = omega (arith, below.counted);
                capped = below.capped;
              }
        ]
      ]

render_text_lines-capped :
    (max_nodes : ℕ) (tasks : List TaskRow) (edges : List Edge)
    → uniq (ids tasks) ≡ true
    → (lines : List Line) × (c : Counter) × (render_text_lines max_nodes tasks edges
        ≡ some (lines, c))
      × (length lines ≡ c.count)
      × (c.count ≤ max_nodes)
unfolding render_text_lines context_of
render_text_lines-capped max_nodes tasks edges u =
    let a =
      walk_lines-Added max_nodes _ at_root walks (root_ids tasks ctx)
        (record { count = 0; truncated = false }) (omega arith) in
    (a.grown, a.after, a.result, omega (arith, a.counted), a.capped)
  where
    ctx : TreeContext
    ctx = context_of tasks edges

    walks : IsLineWalk max_nodes (walk (suc (length tasks)) ctx max_nodes [] [])
    walks =
        walk-IsLineWalk ctx max_nodes (suc (length tasks)) [] [] u (omega (arith, length-ids tasks))

-- The answer fits the cap.
pub record IsCapped (max_nodes : ℕ) (tasks : List TaskRow) (edges : List Edge) : Type 0 where
  pub tree :
      (forest : Forest) × (c : Counter) × (build_tree max_nodes tasks edges ≡ some (forest, c))
      × (sizes forest ≡ c.count)
      × (c.count ≤ max_nodes)
  pub text :
      (lines : List Line) × (c : Counter) × (render_text_lines max_nodes tasks edges
        ≡ some (lines, c))
      × (length lines ≡ c.count)
      × (c.count ≤ max_nodes)

-- On tasks that are named once, whether or not they block each other in a circle, the tree and the
-- lines of text are always built; they have as many nodes and lines as were counted, and no more than
-- the cap.
pub formats-IsCapped :
    (max_nodes : ℕ) (tasks : List TaskRow) (edges : List Edge)
    → uniq (ids tasks) ≡ true
    → IsCapped max_nodes tasks edges
formats-IsCapped max_nodes tasks edges u = record {
  tree = build_tree-capped max_nodes tasks edges u;
  text = render_text_lines-capped max_nodes tasks edges u;
}
