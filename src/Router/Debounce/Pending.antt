-- ===== src/Router/Debounce/Pending.antt =====
-- What a debouncer promises: each push waits with those of its key, and all of them are resolved
-- together, with the payload of the last.
use wood_fired_tasks.Prelude.{
  ℕ, suc, ◌≡◌, refl, sym, ap, subst, ◌∙◌, inl, inr, Bool, true, false, not, Option, none, some,
  List, [], ◌∷◌, ◌++◌, arith, length, keep, Bool-cases,
}
use wood_fired_tasks.Prelude.Text.{Text, text_eq}
use wood_fired_tasks.Router.Debounce.{Resolved, resolve_all}
use wood_fired_tasks.Router.Debounce.Keys.{text_eq_iff}

pub record Push : Type 0 where
  pub key : Text
  pub payload : ℕ
  pub promise : ℕ
  pub at : ℕ

unfoldable pub group : Text → List Push → List Push
group k ps = keep (λ p. text_eq p.key k) ps

unfoldable pub others : Text → List Push → List Push
others k ps = keep (λ p. not (text_eq p.key k)) ps

unfoldable pub latest : List Push → Option Push
latest [] = none
latest (p ∷ ps) = elim (latest ps) [ none ↦ some p | some q ↦ some q ]

unfoldable pub promises : List Push → List ℕ
promises [] = []
promises (p ∷ ps) = p.promise ∷ promises ps

-- The group is resolved with its last payload and its length.
unfoldable pub settle_group : List Push → List Resolved
settle_group g = elim (latest g) [
  | none ↦ []
  | some last ↦ resolve_all (promises g) last.payload (length g)
]

-- The pushes that are left and what is resolved, when groups are settled in some order until none
-- is left.
pub data Settles : List Push → List Resolved → Type 0 where
  settled : Settles [] []
  settles :
      {ps : List Push} {out : List Resolved} (k : Text)
      → Settles (others k ps) out
      → Settles ps (settle_group (group k ps) ++ out)

keep-cons :
    (f : Push → Bool) (ps : List Push) (p : Push) → f p ≡ true → keep f (p ∷ ps) ≡ p ∷ keep f ps
keep-cons f ps p h = rw (h) refl

keep-snoc-true :
    (f : Push → Bool) (ps : List Push) (p : Push)
    → f p ≡ true
    → keep f (ps ++ p ∷ []) ≡ keep f ps ++ p ∷ []
keep-snoc-true f [] p h = rw (h) refl
keep-snoc-true f (q ∷ ps) p h = elim (Bool-cases (f q)) [
  | inl has_q ↦ rw (has_q) (ap (λ l. q ∷ l) (keep-snoc-true f ps p h))
  | inr out ↦ rw (out) (keep-snoc-true f ps p h)
]

keep-snoc-false :
    (f : Push → Bool) (ps : List Push) (p : Push) → f p ≡ false → keep f (ps ++ p ∷ []) ≡ keep f ps
keep-snoc-false f [] p h = rw (h) refl
keep-snoc-false f (q ∷ ps) p h = elim (Bool-cases (f q)) [
  | inl has_q ↦ rw (has_q) (ap (λ l. q ∷ l) (keep-snoc-false f ps p h))
  | inr out ↦ rw (out) (keep-snoc-false f ps p h)
]

pub group-snoc :
    (k : Text) (ps : List Push) (p : Push)
    → text_eq p.key k ≡ true
    → group k (ps ++ p ∷ []) ≡ group k ps ++ p ∷ []
unfolding group
group-snoc k ps p h = keep-snoc-true (λ q. text_eq q.key k) ps p h

pub group-snoc_other :
    (k : Text) (ps : List Push) (p : Push)
    → text_eq p.key k ≡ false
    → group k (ps ++ p ∷ []) ≡ group k ps
unfolding group
group-snoc_other k ps p h = keep-snoc-false (λ q. text_eq q.key k) ps p h

pub latest-snoc : (ps : List Push) (p : Push) → latest (ps ++ p ∷ []) ≡ some p
unfolding latest
latest-snoc [] p = refl
latest-snoc (q ∷ ps) p = rw (latest-snoc ps p) refl

pub promises-snoc :
    (ps : List Push) (p : Push) → promises (ps ++ p ∷ []) ≡ promises ps ++ p.promise ∷ []
unfolding promises
promises-snoc [] p = refl
promises-snoc (q ∷ ps) p = ap (λ l. q.promise ∷ l) (promises-snoc ps p)

pub length-snoc : (ps : List Push) (p : Push) → length (ps ++ p ∷ []) ≡ suc (length ps)
length-snoc [] p = refl
length-snoc (q ∷ ps) p = ap suc (length-snoc ps p)

-- The group leaves the others as they are.
pub group-others : (k : Text) (ps : List Push) → group k (others k ps) ≡ []
unfolding group others
group-others k [] = refl
group-others k (p ∷ ps) = elim (Bool-cases (text_eq p.key k)) [
  | inl same ↦ rw (same) (group-others k ps)
  | inr other ↦ rw (other, other) (group-others k ps)
]

pub group-others_apart :
    (k j : Text) (ps : List Push) → text_eq k j ≡ false → group j (others k ps) ≡ group j ps
unfolding group others
group-others_apart k j [] h = refl
group-others_apart k j (p ∷ ps) h = elim (Bool-cases (text_eq p.key k)) [
  | inl same ↦
      let apart : text_eq p.key j ≡ false =
        subst (λ x. text_eq x j ≡ false) (sym ((text_eq_iff p.key k).0 same)) h in
      rw (same, apart) (group-others_apart k j ps h)
  | inr other ↦ elim (Bool-cases (text_eq p.key j)) [
    | inl mine ↦ rw (other, mine) (ap (λ l. p ∷ l) (group-others_apart k j ps h))
    | inr apart ↦ rw (other, apart) (group-others_apart k j ps h)
  ]
]

-- Where every group is empty nothing waits.
pub empty-groups : (ps : List Push) → ((k : Text) → group k ps ≡ []) → ps ≡ []
unfolding group
empty-groups [] h = refl
empty-groups (p ∷ ps) h =
    let mine = (text_eq_iff p.key p.key).1 refl in
    let first = keep-cons (λ q. text_eq q.key p.key) ps p mine in
    absurd (ground (arith, sym first ∙ h p.key))
