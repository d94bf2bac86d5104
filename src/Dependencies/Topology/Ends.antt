-- ===== src/Dependencies/Topology/Ends.antt =====
-- The roots and the leaves of a report.
use wood_fired_tasks.Prelude.{
  ℕ, ◌≡◌, refl, ap, sym, subst, ◌∙◌, inl, inr, Bool, true, not, ◌&&◌, some, List, [], ◌∷◌, arith,
  has, keep, ◌==◌, Option-cases, Bool-cases, ==_iff,
}
use mathlib.Core.Option.{some-injective}
use wood_fired_tasks.Prelude.Sort.{ascending, has-ascending}
use wood_fired_tasks.Dependencies.CycleDetector.{Edge}
use wood_fired_tasks.Dependencies.Degrees.{
  project_edges, degree, degrees, degree-degrees, ends, source, target,
}
use wood_fired_tasks.Dependencies.Topology.{
  Report, report_on, probe_each, without_degree, classify_edges, classify,
}

-- No edge of the list has the end.
abbrev no_edge : (Edge → ℕ) → List Edge → ℕ → Bool
no_edge end [] x = true
no_edge end (e ∷ es) x = not (end e == x) && no_edge end es x

pub has-keep : (p : ℕ → Bool) (xs : List ℕ) (a : ℕ) → has (keep p xs) a ≡ (p a && has xs a)
unfolding has
has-keep p [] a = ground arith
has-keep p (x ∷ xs) a = elim (Bool-cases (x == a)) [
  | inl same ↦ let e : x ≡ a = (==_iff x a).0 same in ground (arith, has-keep p xs a, ap p e)
  | inr other ↦ ground (arith, has-keep p xs a, other)
]

ends-zero : (end : Edge → ℕ) (es : List Edge) (x : ℕ) → (ends end es x == 0) ≡ no_edge end es x
unfolding ends
ends-zero end [] x = refl
ends-zero end (e ∷ es) x = ground (arith, ends-zero end es x)

has-without_degree :
    (end : Edge → ℕ) (nodes : List ℕ) (es : List Edge) (x : ℕ)
    → has (without_degree (degrees end nodes es) nodes) x ≡ (no_edge end es x && has nodes x)
unfolding without_degree
has-without_degree end nodes es x =
    has-keep (λ id. degree (degrees end nodes es) id == 0) (ascending nodes) x
    ∙ rw (degree-degrees end nodes es x, ends-zero end es x, has-ascending nodes x) refl

record HasEnds (nodes : List ℕ) (es : List Edge) (r : Report) : Type 0 where
  of_roots : (x : ℕ) → has r.roots x ≡ (no_edge target es x && has nodes x)
  of_leaves : (x : ℕ) → has r.leaves x ≡ (no_edge source es x && has nodes x)

report_on-HasEnds :
    (nodes : List ℕ) (es : List Edge) (b : Bool) → HasEnds nodes es (report_on nodes es b)
report_on-HasEnds nodes es b = record {
  of_roots = has-without_degree target nodes es;
  of_leaves = has-without_degree source nodes es;
}

classify_edges-HasEnds :
    (nodes : List ℕ) (es : List Edge) (r : Report)
    → classify_edges nodes es ≡ some r
    → HasEnds nodes es r
unfolding classify_edges
classify_edges-HasEnds nodes [] r h =
    subst (HasEnds nodes []) (some-injective _ r h)
      record { of_roots = has-ascending nodes; of_leaves = has-ascending nodes }
classify_edges-HasEnds nodes (e ∷ es) r h = elim (Option-cases (probe_each [] (e ∷ es))) [
  | inl out ↦ absurd (ground (arith, h, out))
  | inr (b, answer) ↦
      subst (HasEnds nodes (e ∷ es))
        (some-injective (report_on nodes (e ∷ es) b) r (sym (rw (classify_edges, answer) refl) ∙ h))
        (report_on-HasEnds nodes (e ∷ es) b)
]

-- The roots of a report are exactly the tasks of the project that no other one of it blocks, and the
-- leaves those that block no other.
classify-HasEnds :
    (nodes : List ℕ) (deps : List Edge) (r : Report)
    → classify nodes deps ≡ some r
    → HasEnds nodes (project_edges nodes deps) r
unfolding classify
classify-HasEnds nodes deps r h = classify_edges-HasEnds nodes (project_edges nodes deps) r h
