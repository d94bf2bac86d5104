-- ===== src/Tasks/Status.antt =====
-- src/types/task.ts: the states of a task and the moves between them.
use wood_fired_tasks.Prelude.{
  ℕ, zero, suc, ◌≡◌, refl, Bool, true, false, List, [], ◌∷◌, ◌==◌, ◌||◌, sym, ap, ◌∙◌, ==_iff,
}

-- `opened` is the status 'open'.
pub data TaskStatus : Type 0 where
  opened in_progress done closed blocked backlogged : TaskStatus

-- Statuses are compared as the strings that they are in the source, here by a number for each.
abbrev pub code : TaskStatus → ℕ
code opened = 0
code in_progress = 1
code done = 2
code closed = 3
code blocked = 4
code backlogged = 5

abbrev pub same : TaskStatus → TaskStatus → Bool
same a b = code a == code b

abbrev pub includes_status : List TaskStatus → TaskStatus → Bool
includes_status [] s = false
includes_status (t ∷ ts) s = same t s || includes_status ts s

-- VALID_STATUS_TRANSITIONS.
unfoldable pub transitions : TaskStatus → List TaskStatus
transitions opened = in_progress ∷ blocked ∷ closed ∷ backlogged ∷ []
transitions in_progress = done ∷ blocked ∷ opened ∷ []
transitions blocked = opened ∷ in_progress ∷ []
transitions done = closed ∷ opened ∷ []
transitions closed = opened ∷ []
transitions backlogged = opened ∷ []

abbrev pub can_move : TaskStatus → TaskStatus → Bool
can_move a b = includes_status (transitions a) b

decode : ℕ → TaskStatus
decode zero = opened
decode (suc zero) = in_progress
decode (suc (suc zero)) = done
decode (suc (suc (suc zero))) = closed
decode (suc (suc (suc (suc zero)))) = blocked
decode n = backlogged

decode-code : (s : TaskStatus) → decode (code s) ≡ s
unfolding decode
decode-code opened = refl
decode-code in_progress = refl
decode-code done = refl
decode-code closed = refl
decode-code blocked = refl
decode-code backlogged = refl

pub same-eq : (a b : TaskStatus) → same a b ≡ true → a ≡ b
same-eq a b h = sym (decode-code a) ∙ ap decode ((==_iff _ _).0 h) ∙ decode-code b
