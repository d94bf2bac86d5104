-- ===== src/Tasks/Paging.antt =====
-- The loops that read all tasks of a project in pages: loadProjectTasks of src/services/wsjf.service.ts
-- and src/services/wsjf-rescore.service.ts, and the reads of src/services/dependency-graph.service.ts
-- and src/services/topology.service.ts, whose Set of distinct ids has the size of the list. The rows are those that findByFilters selects, in its
-- order, the same ones for each page. `none` says that the fuel ran out; one more than the number of
-- rows is enough.
use wood_fired_tasks.Prelude.{
  ℕ, zero, suc, ◌+◌, ◌≤◌, ◌<◌, ◌≡◌, refl, sym, ap, subst, ◌∙◌, inl, inr, ◌⊎◌, true, false, Option,
  none, some, List, [], ◌∷◌, ◌++◌, arith, length, length-append, ltb, Bool-cases,
}
use mathlib.Core.List.{append-nil, append_assoc}

module _ {ℓ} {A : Type ℓ} where
  -- LIMIT and OFFSET.
  unfoldable limited : ℕ → List A → List A
  limited zero rows = []
  limited (suc n) [] = []
  limited (suc n) (r ∷ rows) = r ∷ limited n rows

  unfoldable from_offset : ℕ → List A → List A
  from_offset zero rows = rows
  from_offset (suc n) [] = []
  from_offset (suc n) (r ∷ rows) = from_offset n rows

  abbrev find_page : ℕ → List A → ℕ → List A
  find_page limit rows offset = limited limit (from_offset offset rows)

  -- The loop, with the page that it reads at each turn.
  unfoldable load_pages : ℕ → ℕ → List A → ℕ → List A → ℕ → Option (List A)
  load_pages zero limit rows expected out offset = none
  load_pages (suc fuel) limit rows expected out offset =
      let page = find_page limit rows offset in
      elim (ltb (length out) expected) [
        | false ↦ some out
        | true ↦ elim page [
          | [] ↦ some out
          | t ∷ ts ↦ load_pages fuel limit rows expected (out ++ t ∷ ts) (offset + length (t ∷ ts))
        ]
      ]

  -- All tasks, by pages of 500.
  pub load_project_tasks : List A → ℕ → Option (List A)
  load_project_tasks rows expected = load_pages (suc (length rows)) 500 rows expected [] 0

  from_offset-append : (out rest : List A) → from_offset (length out) (out ++ rest) ≡ rest
  unfolding from_offset
  from_offset-append [] rest = refl
  from_offset-append (x ∷ out) rest = from_offset-append out rest

  -- A page is what comes next.
  limited-prefix : (n : ℕ) (rows : List A) → (rest : List A) × (rows ≡ limited n rows ++ rest)
  unfolding limited
  limited-prefix zero rows = (rows, refl)
  limited-prefix (suc n) [] = ([], refl)
  limited-prefix (suc n) (r ∷ rows) =
      let (rest, is) = limited-prefix n rows in (rest, ap (λ l. r ∷ l) is)

  -- One turn: nothing more is wanted, nothing more is there, or a page is added.
  stop-wanted :
      (fuel limit : ℕ) (rows : List A) (expected : ℕ) (out : List A) (offset : ℕ)
      → ltb (length out) expected ≡ false
      → load_pages (suc fuel) limit rows expected out offset ≡ some out
  unfolding load_pages
  stop-wanted fuel limit rows expected out offset h = rw (load_pages, h) refl

  stop-empty :
      (fuel limit : ℕ) (rows : List A) (expected : ℕ) (out : List A) (offset : ℕ)
      → ltb (length out) expected ≡ true
      → find_page limit rows offset ≡ []
      → load_pages (suc fuel) limit rows expected out offset ≡ some out
  unfolding load_pages
  stop-empty fuel limit rows expected out offset h page = rw (load_pages, h, page) refl

  go-on :
      (fuel limit : ℕ) (rows : List A) (expected : ℕ) (out : List A) (offset : ℕ) (t : A)
      (ts : List A)
      → ltb (length out) expected ≡ true
      → find_page limit rows offset ≡ t ∷ ts
      → load_pages (suc fuel) limit rows expected out offset
        ≡ load_pages fuel limit rows expected (out ++ t ∷ ts) (offset + length (t ∷ ts))
  unfolding load_pages
  go-on fuel limit rows expected out offset t ts h page = rw (load_pages, h, page) refl

  -- What the loop gives: rows from the front, at least as many as are expected, or all.
  record IsLoaded (rows : List A) (expected : ℕ) (result : Option (List A)) : Type ℓ where
    loaded : List A
    left : List A
    is_result : result ≡ some loaded
    in_order : rows ≡ loaded ++ left
    enough : (expected ≤ length loaded) ⊎ (left ≡ [])

  load_pages-IsLoaded :
      (fuel m : ℕ) (expected : ℕ) (out rest : List A)
      → length rest < fuel
      → IsLoaded
          (out ++ rest)
          expected
          (load_pages fuel (suc m) (out ++ rest) expected out (length out))
  load_pages-IsLoaded zero m expected out rest h = absurd (omega (arith, h))
  load_pages-IsLoaded (suc fuel) m expected out [] h =
      elim (Bool-cases (ltb (length out) expected)) [
        | inr full ↦ record {
          loaded = out;
          left = [];
          is_result = stop-wanted fuel (suc m) (out ++ []) expected out (length out) full;
          in_order = refl;
          enough = inr refl;
        }
        | inl wanted ↦ record {
          loaded = out;
          left = [];
          is_result =
              stop-empty fuel (suc m) (out ++ []) expected out (length out) wanted
                (unfold limited in ap (limited (suc m)) (from_offset-append out []));
          in_order = refl;
          enough = inr refl;
        }
      ]
  load_pages-IsLoaded (suc fuel) m expected out (r ∷ rows) h =
      elim (Bool-cases (ltb (length out) expected)) [
        | inr full ↦ record {
          loaded = out;
          left = r ∷ rows;
          is_result = stop-wanted fuel (suc m) (out ++ r ∷ rows) expected out (length out) full;
          in_order = refl;
          enough = inl (ground (arith, full));
        }
        | inl wanted ↦
            let (rest, is) = limited-prefix m rows in
            let ts = limited m rows in
            let page : find_page (suc m) (out ++ r ∷ rows) (length out) ≡ r ∷ ts =
              unfold limited in ap (limited (suc m)) (from_offset-append out (r ∷ rows)) in
            let whole : (out ++ r ∷ ts) ++ rest ≡ out ++ r ∷ rows =
              append_assoc out (r ∷ ts) rest ∙ ap (λ l. out ++ r ∷ l) (sym is) in
            let shorter : length rest < fuel =
              omega (arith, h, ap length is, length-append ts rest) in
            let ih = load_pages-IsLoaded fuel m expected (out ++ r ∷ ts) rest shorter in
            let step =
              go-on fuel (suc m) (out ++ r ∷ rows) expected out (length out) r ts wanted page in
            let moved =
              subst
                (λ l.
                  IsLoaded l expected
                    (load_pages fuel (suc m) l expected (out ++ r ∷ ts) (length (out ++ r ∷ ts))))
                whole ih in
            subst (IsLoaded (out ++ r ∷ rows) expected)
              (sym (
                step
                ∙ ap (load_pages fuel (suc m) (out ++ r ∷ rows) expected (out ++ r ∷ ts))
                    (sym (length-append out (r ∷ ts)))))
              moved
      ]

  no_length : (xs : List A) → length xs ≡ 0 → xs ≡ []
  no_length [] h = refl
  no_length (x ∷ xs) h = absurd (ground (arith, h))

  -- The loop ends, whatever number of tasks is expected. It gives rows from the front, in order and
  -- without a gap, at least as many as are expected or all; and all of them where no fewer are expected
  -- than there are.
  pub load_project_tasks_complete :
      (rows : List A) (expected : ℕ)
      → (loaded left : List A) × (load_project_tasks rows expected ≡ some loaded)
        × (rows ≡ loaded ++ left)
        × ((expected ≤ length loaded) ⊎ (left ≡ []))
        × (length rows ≤ expected → loaded ≡ rows)
  unfolding load_project_tasks
  load_project_tasks_complete rows expected =
      let l = load_pages-IsLoaded (suc (length rows)) 499 expected [] rows (omega arith) in
      (
        l.loaded,
        l.left,
        l.is_result,
        l.in_order,
        l.enough,
        λ all_wanted.
            let empty : l.left ≡ [] = elim l.enough [
              | inr is ↦ is
              | inl many ↦ no_length l.left (
                  omega
                    (arith, many, all_wanted, ap length l.in_order, length-append l.loaded l.left))
            ] in
            sym (l.in_order ∙ ap (λ r. l.loaded ++ r) empty ∙ append-nil l.loaded),
      )
