-- ===== src/Dependencies/Degrees.antt =====
-- The Maps from tasks to degrees of src/services/topology.service.ts and
-- src/services/dependency-graph.service.ts, in insertion order, and the edges within a project.
use wood_fired_tasks.Prelude.{
  ℕ, ◌+◌, ◌≡◌, refl, Bool, true, not, ◌&&◌, ◌||◌, List, [], ◌∷◌, arith, has, keep, leb, ◌==◌,
  if◌then◌else◌,
}
use wood_fired_tasks.Dependencies.CycleDetector.{Edge}

-- The rows whose two ends are both tasks of the project.
unfoldable pub project_edges : List ℕ → List Edge → List Edge
project_edges nodes deps = keep (λ e. has nodes e.task_id && has nodes e.blocks_task_id) deps

abbrev pub Table : Type 0
Table = List (ℕ × ℕ)

-- `get(id) ?? 0`.
unfoldable pub degree : Table → ℕ → ℕ
degree [] id = 0
degree ((n, d) ∷ t) id = if n == id then d else degree t id

unfoldable pub set_degree : Table → ℕ → ℕ → Table
set_degree [] id d = (id, d) ∷ []
set_degree ((n, e) ∷ t) id d = if n == id then (n, d) ∷ t else (n, e) ∷ set_degree t id d

-- A degree of 0 for every node.
unfoldable pub zeros : Table → List ℕ → Table
zeros t [] = t
zeros t (n ∷ ns) = zeros (set_degree t n 0) ns

-- One more for an end of every edge.
unfoldable pub bump_all : (Edge → ℕ) → Table → List Edge → Table
bump_all end t [] = t
bump_all end t (e ∷ es) = bump_all end (set_degree t (end e) (degree t (end e) + 1)) es

abbrev pub target : Edge → ℕ
target e = e.blocks_task_id

abbrev pub source : Edge → ℕ
source e = e.task_id

unfoldable pub degrees : (Edge → ℕ) → List ℕ → List Edge → Table
degrees end nodes edges = bump_all end (zeros [] nodes) edges

unfoldable pub keys : Table → List ℕ
keys [] = []
keys ((n, d) ∷ t) = n ∷ keys t

unfoldable pub uniq : List ℕ → Bool
uniq [] = true
uniq (x ∷ xs) = not (has xs x) && uniq xs

-- How many edges have the end.
unfoldable pub ends : (Edge → ℕ) → List Edge → ℕ → ℕ
ends end [] x = 0
ends end (e ∷ es) x = (if end e == x then 1 else 0) + ends end es x

pub degree-set_degree :
    (t : Table) (i d x : ℕ) → degree (set_degree t i d) x ≡ (if i == x then d else degree t x)
unfolding degree set_degree
degree-set_degree [] i d x = refl
degree-set_degree ((n, e) ∷ t) i d x = ground (arith, degree-set_degree t i d x)

degree-zeros :
    (t : Table) (ns : List ℕ) (x : ℕ) → degree (zeros t ns) x ≡ (if has ns x then 0 else degree t x)
unfolding zeros has
degree-zeros t [] x = refl
degree-zeros t (n ∷ ns) x =
    ground (arith, degree-zeros (set_degree t n 0) ns x, degree-set_degree t n 0 x)

degree-bump_all :
    (end : Edge → ℕ) (t : Table) (es : List Edge) (x : ℕ)
    → degree (bump_all end t es) x ≡ degree t x + ends end es x
unfolding bump_all ends
degree-bump_all end t [] x = omega arith
degree-bump_all end t (e ∷ es) x = ground (
  arith,
  degree-bump_all end (set_degree t (end e) (degree t (end e) + 1)) es x,
  degree-set_degree t (end e) (degree t (end e) + 1) x,
)

-- The tables count the edges.
pub degree-degrees :
    (end : Edge → ℕ) (nodes : List ℕ) (es : List Edge) (x : ℕ)
    → degree (degrees end nodes es) x ≡ ends end es x
unfolding degrees degree
degree-degrees end nodes es x =
    ground (arith, degree-bump_all end (zeros [] nodes) es x, degree-zeros [] nodes x)

has-keys-set_degree :
    (t : Table) (i d x : ℕ) → has (keys (set_degree t i d)) x ≡ (i == x || has (keys t) x)
unfolding set_degree keys has
has-keys-set_degree [] i d x = refl
has-keys-set_degree ((n, e) ∷ t) i d x = ground (arith, has-keys-set_degree t i d x)

uniq-keys-set_degree :
    (t : Table) (i d : ℕ) → uniq (keys t) ≡ true → uniq (keys (set_degree t i d)) ≡ true
unfolding set_degree keys uniq has
uniq-keys-set_degree [] i d h = ground arith
uniq-keys-set_degree ((n, e) ∷ t) i d h =
    ground (arith, h, uniq-keys-set_degree t i d, has-keys-set_degree t i d n)

has-keys-zeros :
    (t : Table) (ns : List ℕ) (x : ℕ) → has (keys (zeros t ns)) x ≡ (has (keys t) x || has ns x)
unfolding zeros has
has-keys-zeros t [] x = ground arith
has-keys-zeros t (n ∷ ns) x =
    ground (arith, has-keys-zeros (set_degree t n 0) ns x, has-keys-set_degree t n 0 x)

uniq-keys-zeros : (t : Table) (ns : List ℕ) → uniq (keys t) ≡ true → uniq (keys (zeros t ns)) ≡ true
unfolding zeros
uniq-keys-zeros t [] h = h
uniq-keys-zeros t (n ∷ ns) h = uniq-keys-zeros (set_degree t n 0) ns (uniq-keys-set_degree t n 0 h)

uniq-keys-bump_all :
    (end : Edge → ℕ) (t : Table) (es : List Edge)
    → uniq (keys t) ≡ true
    → uniq (keys (bump_all end t es)) ≡ true
unfolding bump_all
uniq-keys-bump_all end t [] h = h
uniq-keys-bump_all end t (e ∷ es) h =
    uniq-keys-bump_all end (set_degree t (end e) (degree t (end e) + 1)) es
      (uniq-keys-set_degree t (end e) (degree t (end e) + 1) h)

pub uniq-keys-degrees :
    (end : Edge → ℕ) (nodes : List ℕ) (es : List Edge) → uniq (keys (degrees end nodes es)) ≡ true
unfolding degrees uniq keys
uniq-keys-degrees end nodes es =
    uniq-keys-bump_all end (zeros [] nodes) es (uniq-keys-zeros [] nodes refl)

has-keys-bump_all :
    (end : Edge → ℕ) (t : Table) (es : List Edge) (x : ℕ)
    → has (keys (bump_all end t es)) x ≡ (has (keys t) x || leb 1 (ends end es x))
unfolding bump_all ends
has-keys-bump_all end t [] x = ground arith
has-keys-bump_all end t (e ∷ es) x = ground (
  arith,
  has-keys-bump_all end (set_degree t (end e) (degree t (end e) + 1)) es x,
  has-keys-set_degree t (end e) (degree t (end e) + 1) x,
)

pub has-keys-degrees :
    (end : Edge → ℕ) (nodes : List ℕ) (es : List Edge) (x : ℕ)
    → has (keys (degrees end nodes es)) x ≡ (has nodes x || leb 1 (ends end es x))
unfolding degrees keys has
has-keys-degrees end nodes es x =
    ground (arith, has-keys-bump_all end (zeros [] nodes) es x, has-keys-zeros [] nodes x)
