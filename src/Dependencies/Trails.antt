-- ===== src/Dependencies/Trails.antt =====
-- Trails of one step or more in a relation on numbers, and the points from which no trail is endless.
use wood_fired_tasks.Prelude.{ℕ}

module _ (R : ℕ → ℕ → Type 0) where
  pub data Trail : ℕ → ℕ → Type 0 where
    one : {u v : ℕ} → R u v → Trail u v
    more : {u v w : ℕ} → R u v → Trail v w → Trail u w

  -- Every trail from the point comes to an end.
  pub data IsSafe : ℕ → Type 0 where
    safe : {u : ℕ} → ((v : ℕ) → R u v → IsSafe v) → IsSafe u

  abbrev pub IsAcyclic : Type 0
  IsAcyclic = (u : ℕ) → ¬ Trail u u

module _ {R : ℕ → ℕ → Type 0} where
  pub Trail-snoc : {u v w : ℕ} → Trail R u v → R v w → Trail R u w
  Trail-snoc (one e) f = more e (one f)
  Trail-snoc (more e t) f = more e (Trail-snoc t f)

  pub Trail-append : {u v w : ℕ} → Trail R u v → Trail R v w → Trail R u w
  Trail-append (one e) s = more e s
  Trail-append (more e t) s = more e (Trail-append t s)

  pub IsSafe-Trail : {u : ℕ} → IsSafe R u → ¬ Trail R u u
  IsSafe-Trail (safe h) (one e) = IsSafe-Trail (h _ e) (one e)
  IsSafe-Trail (safe h) (more e t) = IsSafe-Trail (h _ e) (Trail-snoc t e)

module _ {R S : ℕ → ℕ → Type 0} where
  pub Trail-map : {u v : ℕ} → ((a b : ℕ) → R a b → S a b) → Trail R u v → Trail S u v
  Trail-map f (one e) = one (f _ _ e)
  Trail-map f (more e t) = more (f _ _ e) (Trail-map f t)

  pub IsSafe-map : {u : ℕ} → ((a b : ℕ) → R a b → S a b) → IsSafe S u → IsSafe R u
  IsSafe-map f (safe h) = safe (λ v r. IsSafe-map f (h v (f _ _ r)))

module _ (R : ℕ → ℕ → Type 0) where
  -- The trails of the reversed relation.
  pub Trail-reverse : {u v : ℕ} → Trail (λ a b. R b a) u v → Trail R v u
  Trail-reverse (one e) = one e
  Trail-reverse (more e t) = Trail-snoc (Trail-reverse t) e
