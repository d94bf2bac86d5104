-- ===== src/Auth/Hostname/Names.antt =====
-- The hostnames that come out of `sanitize_hostname`.
use wood_fired_tasks.Prelude.{
  ℕ, zero, suc, ◌≤◌, ◌<◌, ◌≡◌, refl, inl, inr, Bool, true, false, ◌&&◌, Option, none, some, [], ◌∷◌,
  arith, length, ltb, ◌==◌, if◌then◌else◌, Bool-cases,
}
use wood_fired_tasks.Prelude.Text.{Text, lower, trim}
use wood_fired_tasks.Auth.Hostname.{
  dash, is_plain, replace_runs, collapse, strip_start, strip_end, take_units, or_unknown,
  hostname_max_len, cut, sanitize_trimmed, sanitize_hostname,
}

-- Plain units only.
abbrev pub all_plain : Text → Bool
all_plain [] = true
all_plain (c ∷ cs) = is_plain c && all_plain cs

abbrev pub starts_dashed : Text → Bool
starts_dashed [] = false
starts_dashed (c ∷ cs) = c == dash

abbrev pub ends_dashed : Text → Bool
ends_dashed [] = false
ends_dashed (c ∷ []) = c == dash
ends_dashed (c ∷ d ∷ ds) = ends_dashed (d ∷ ds)

pub record IsName (s : Text) : Type 0 where
  pub nonempty : 0 < length s
  pub short : length s ≤ 32
  pub plain : all_plain s ≡ true
  pub starts : starts_dashed s ≡ false
  pub ends : ends_dashed s ≡ false

replace_runs-plain : (b : Bool) (cs : Text) → all_plain (replace_runs b cs) ≡ true
unfolding replace_runs
replace_runs-plain b [] = refl
replace_runs-plain b (c ∷ cs) =
    ground (arith, replace_runs-plain true cs, replace_runs-plain false cs)

collapse-plain : (b : Bool) (cs : Text) → all_plain cs ≡ true → all_plain (collapse b cs) ≡ true
unfolding collapse
collapse-plain b [] h = refl
collapse-plain b (c ∷ cs) h = ground (arith, h, collapse-plain true cs, collapse-plain false cs)

strip_start-plain : (cs : Text) → all_plain cs ≡ true → all_plain (strip_start cs) ≡ true
unfolding strip_start
strip_start-plain [] h = refl
strip_start-plain (c ∷ cs) h = ground (arith, h, strip_start-plain cs)

strip_start-starts : (cs : Text) → starts_dashed (strip_start cs) ≡ false
unfolding strip_start
strip_start-starts [] = refl
strip_start-starts (c ∷ cs) = ground (arith, strip_start-starts cs)

-- What is kept is plain, starts as before, has no dash at its end, and is not longer.
record IsStripped (cs out : Text) : Type 0 where
  plain : all_plain cs ≡ true → all_plain out ≡ true
  starts : starts_dashed cs ≡ false → starts_dashed out ≡ false
  ends : ends_dashed out ≡ false
  short : length out ≤ length cs

strip_end-IsStripped : (cs : Text) → IsStripped cs (strip_end cs)
unfolding strip_end
strip_end-IsStripped [] = record {
  plain = λ h. refl;
  starts = λ h. refl;
  ends = refl;
  short = omega arith;
}
strip_end-IsStripped (c ∷ cs) = step c cs (strip_end cs) (strip_end-IsStripped cs)
  where
    step :
        (c : ℕ) (cs out : Text)
        → IsStripped cs out
        → IsStripped
            (c ∷ cs)
            (elim out [ [] ↦ if c == dash then [] else c ∷ [] | d ∷ ds ↦ c ∷ d ∷ ds ])
    step c cs [] r = record {
      plain = λ h. ground (arith, h);
      starts = λ h. ground (arith, h);
      ends = ground arith;
      short = ground arith;
    }
    step c cs (d ∷ ds) r = record {
      plain = λ h. ground (arith, h, r.plain);
      starts = λ h. h;
      ends = r.ends;
      short = omega (arith, r.short);
    }

take_units-plain : (n : ℕ) (cs : Text) → all_plain cs ≡ true → all_plain (take_units n cs) ≡ true
unfolding take_units
take_units-plain zero cs h = refl
take_units-plain (suc n) [] h = refl
take_units-plain (suc n) (c ∷ cs) h = ground (arith, h, take_units-plain n cs)

length-take_units : (n : ℕ) (cs : Text) → length (take_units n cs) ≤ n
unfolding take_units
length-take_units zero cs = omega arith
length-take_units (suc n) [] = omega arith
length-take_units (suc n) (c ∷ cs) = omega (arith, length-take_units n cs)

take_units-starts :
    (n : ℕ) (cs : Text) → starts_dashed cs ≡ false → starts_dashed (take_units n cs) ≡ false
unfolding take_units
take_units-starts zero cs h = refl
take_units-starts (suc n) [] h = refl
take_units-starts (suc n) (c ∷ cs) h = h

record IsCut (s : Text) : Type 0 where
  short : length s ≤ 32
  plain : all_plain s ≡ true
  starts : starts_dashed s ≡ false
  ends : ends_dashed s ≡ false

cut-IsCut :
    (cs : Text)
    → all_plain cs ≡ true
    → starts_dashed cs ≡ false
    → ends_dashed cs ≡ false
    → IsCut (cut cs)
unfolding cut
cut-IsCut cs p s e = elim (Bool-cases (ltb hostname_max_len (length cs))) [
  | inr fits ↦
      rw (cut, fits) record { short = ground (arith, fits); plain = p; starts = s; ends = e }
  | inl long ↦
      let r = strip_end-IsStripped (take_units 32 cs) in
      rw (cut, long)
        record {
          short = omega (arith, r.short, length-take_units 32 cs);
          plain = r.plain (take_units-plain 32 cs p);
          starts = r.starts (take_units-starts 32 cs s);
          ends = r.ends;
        }
]

or_unknown-IsName : (cs : Text) → IsCut cs → IsName (or_unknown cs)
or_unknown-IsName [] h = record {
  nonempty = omega arith;
  short = omega arith;
  plain = refl;
  starts = refl;
  ends = refl;
}
or_unknown-IsName (c ∷ cs) h = record {
  nonempty = omega arith;
  short = h.short;
  plain = h.plain;
  starts = h.starts;
  ends = h.ends;
}

sanitize_trimmed-IsName : (cs : Text) → IsName (sanitize_trimmed cs)
unfolding sanitize_trimmed
sanitize_trimmed-IsName [] = record {
  nonempty = omega arith;
  short = omega arith;
  plain = refl;
  starts = refl;
  ends = refl;
}
sanitize_trimmed-IsName (c ∷ cs) =
    let plain = strip_start-plain (collapse false (replace_runs false (lower (c ∷ cs)))) (
      collapse-plain false (replace_runs false (lower (c ∷ cs)))
        (replace_runs-plain false (lower (c ∷ cs)))) in
    let r =
      strip_end-IsStripped (strip_start (collapse false (replace_runs false (lower (c ∷ cs))))) in
    or_unknown-IsName _ (
      cut-IsCut _ (r.plain plain)
        (r.starts (strip_start-starts (collapse false (replace_runs false (lower (c ∷ cs))))))
        r.ends)

-- Any hostname, or none, gives a name of 1 to 32 plain units, with no dash at either end.
pub sanitize_hostname-IsName : (raw : Option Text) → IsName (sanitize_hostname raw)
unfolding sanitize_hostname
sanitize_hostname-IsName none = record {
  nonempty = omega arith;
  short = omega arith;
  plain = refl;
  starts = refl;
  ends = refl;
}
sanitize_hostname-IsName (some raw) = sanitize_trimmed-IsName (trim raw)
