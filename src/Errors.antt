-- ===== src/Errors.antt =====
-- src/services/errors.ts: the errors that a caller of a service sees.
use wood_fired_tasks.Prelude.{ℕ}

-- `constraint_failed` is SQLite's, `diverged` stands for a search that does not end.
pub data ServiceError : Type 0 where
  validation_error business_error constraint_failed diverged : ServiceError
  not_found : ℕ → ServiceError
