-- ===== src/Dependencies/Tree/Examples.antt =====
-- A small tree, with its cap and a loop.
use wood_fired_tasks.Prelude.{◌≡◌, refl, some, true, false, List, [], ◌∷◌, has}
use wood_fired_tasks.Prelude.Sort.{sort, place}
use wood_fired_tasks.Wsjf.Tiers.{urgent, low}
use wood_fired_tasks.Dependencies.CycleDetector.{Edge}
use wood_fired_tasks.Dependencies.Service.Acyclic.{row}
use wood_fired_tasks.Dependencies.Degrees.{degree, set_degree, zeros, bump_all, degrees, uniq}
use wood_fired_tasks.Dependencies.Kahn.{targets, adjacent}
use wood_fired_tasks.Dependencies.Tree.{
  TaskRow, ids, find_row, row_before, comes_before, context_of, root_ids, node, bare, plant,
  walk_each, build_tree_node, build_tree,
}
use wood_fired_tasks.Dependencies.Tree.Lines.{
  root, inner_sibling, last_sibling, walk, walk_lines, render_text_lines, IsCapped,
  formats-IsCapped,
}

abbrev rows : List TaskRow
rows =
    record { id = 1; priority = low; created_at = 5 }
    ∷ record { id = 2; priority = low; created_at = 6 }
    ∷ record { id = 3; priority = urgent; created_at = 4 }
    ∷ []

abbrev fork : List Edge
fork = row 1 2 ∷ row 1 3 ∷ []

-- The urgent child comes first.
fork_tree :
    build_tree 1000 rows fork
    ≡ some (
      plant (node 1 0 0 (plant (node 3 1 1 bare) (plant (node 2 1 1 bare) bare))) bare,
      record { count = 3; truncated = false },
    )
unfolding build_tree context_of root_ids walk_each build_tree_node find_row row_before comes_before
    sort place adjacent targets degrees bump_all zeros set_degree degree has
fork_tree = refl

-- Two tasks that block each other: the first one is the root, and met again below the other.
loop_tree :
    build_tree 1000 rows (row 2 3 ∷ row 3 2 ∷ row 3 1 ∷ [])
    ≡ some (
      plant
          (node 3 0 1
            (plant (node 2 1 1 (plant (node 3 2 1 bare) bare)) (plant (node 1 1 1 bare) bare)))
          bare,
      record { count = 4; truncated = false },
    )
unfolding build_tree context_of root_ids walk_each build_tree_node find_row row_before comes_before
    sort place adjacent targets degrees bump_all zeros set_degree degree has
loop_tree = refl

rows-uniq : uniq (ids rows) ≡ true
unfolding uniq has
rows-uniq = refl

formats-IsCapped_example : IsCapped 2 rows fork
formats-IsCapped_example = formats-IsCapped 2 rows fork rows-uniq

fork_lines :
    render_text_lines 1000 rows fork
    ≡ some (
      record { id = 1; prefix = []; place = root }
          ∷ record { id = 3; prefix = []; place = inner_sibling }
          ∷ record { id = 2; prefix = []; place = last_sibling }
          ∷ [],
      record { count = 3; truncated = false },
    )
unfolding render_text_lines walk walk_lines context_of root_ids find_row row_before comes_before
    sort place adjacent targets degrees bump_all zeros set_degree degree has
fork_lines = refl
