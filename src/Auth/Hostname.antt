-- ===== src/Auth/Hostname.antt =====
-- src/services/device-flow-store.ts: sanitizeHostname, on text as its code units.
pub mod Names
use wood_fired_tasks.Prelude.{
  ℕ, zero, suc, ◌+◌, ◌≤◌, ◌<◌, ◌≡◌, ◌≢◌, refl, sym, ap, ◌∙◌, inl, inr, Bool, true, false, not, ◌&&◌,
  ◌||◌, Option, none, some, List, [], ◌∷◌, arith, length, ltb, leb, ◌==◌, if◌then◌else◌, Bool-cases,
}
use mathlib.Core.List.{reverse}
use wood_fired_tasks.Prelude.Text.{Text, codes, lower, trim}

abbrev pub unknown : Text
unknown = codes "unknown"

abbrev pub dash : ℕ
dash = 45

-- `[a-z0-9-]`.
abbrev pub is_plain : ℕ → Bool
is_plain c = (leb 97 c && leb c 122) || (leb 48 c && leb c 57) || c == dash

-- `.replace(/[^a-z0-9-]+/g, '-')`; the flag says that the last unit was replaced.
unfoldable pub replace_runs : Bool → Text → Text
replace_runs replaced [] = []
replace_runs replaced (c ∷ cs) =
    if is_plain c
    then c ∷ replace_runs false cs
    else if replaced
    then replace_runs true cs
    else dash ∷ replace_runs true cs

-- `.replace(/-+/g, '-')`; the flag says that the last unit was a dash.
unfoldable pub collapse : Bool → Text → Text
collapse dashed [] = []
collapse dashed (c ∷ cs) =
    if c == dash
    then (if dashed then collapse true cs else c ∷ collapse true cs)
    else c ∷ collapse false cs

unfoldable pub strip_start : Text → Text
strip_start [] = []
strip_start (c ∷ cs) = if c == dash then strip_start cs else c ∷ cs

-- `.replace(/-+$/, '')`.
unfoldable pub strip_end : Text → Text
strip_end [] = []
strip_end (c ∷ cs) = elim (strip_end cs) [
  | [] ↦ if c == dash then [] else c ∷ []
  | d ∷ ds ↦ c ∷ d ∷ ds
]

unfoldable pub take_units : ℕ → Text → Text
take_units zero cs = []
take_units (suc n) [] = []
take_units (suc n) (c ∷ cs) = c ∷ take_units n cs

abbrev pub or_unknown : Text → Text
or_unknown [] = unknown
or_unknown (c ∷ cs) = c ∷ cs

abbrev pub hostname_max_len : ℕ
hostname_max_len = 32

unfoldable pub cut : Text → Text
cut out =
    if ltb hostname_max_len (length out) then strip_end (take_units hostname_max_len out) else out

unfoldable pub sanitize_trimmed : Text → Text
sanitize_trimmed [] = unknown
sanitize_trimmed (c ∷ cs) =
    or_unknown
      (cut (strip_end (strip_start (collapse false (replace_runs false (lower (c ∷ cs)))))))

unfoldable pub sanitize_hostname : Option Text → Text
sanitize_hostname none = unknown
sanitize_hostname (some raw) = sanitize_trimmed (trim raw)
