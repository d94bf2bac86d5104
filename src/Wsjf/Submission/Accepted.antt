-- ===== src/Wsjf/Submission/Accepted.antt =====
-- Which submissions pass the gate.
use mathlib.Core.List.{append-nil}
use wood_fired_tasks.Prelude.{
  ℕ, ◌≤◌, ◌≡◌, ◌≢◌, ◌⊎◌, ◌↔◌, refl, sym, ap, ◌∙◌, inl, inr, Bool, true, false, Option, none, some,
  List, [], ◌∷◌, ◌++◌, map, has, arith, Bool-cases, Option-cases, subst, if◌then◌else◌,
}
use wood_fired_tasks.Prelude.Text.{Text, includes}
use wood_fired_tasks.Wsjf.Tiers.{Components, Band, job_size_band, contradicts}
use wood_fired_tasks.Wsjf.Submission.{
  Evidence, contradiction, bad_shape, Classification, Features, Theme, Charter, Context, Fault,
  report, well_shaped, find_theme, is_empty, check_theme, check_evidence, join_lines, theme_texts,
  charter_text, source_of, check_band, components_of, low_spread, has_one, column_faults,
  check_batch, validate_score_submission,
}
use wood_fired_tasks.Wsjf.Submission.Rules.{
  ThemeFits, theme_lines, charter_lines, SizeFits, IsAnchored, BatchFits, IsApart, BatchApart,
  IsAcceptable,
}

append-eq-nil : (xs ys : List Fault) → (xs ++ ys) ≡ [] → (xs ≡ []) × (ys ≡ [])
append-eq-nil [] ys h = (refl, h)
append-eq-nil (x ∷ xs) ys h = ground arith

check_theme_iff :
    (charter : Option Charter) (name : Option Text)
    → (check_theme charter name ≡ []) ↔ ThemeFits charter name
unfolding check_theme
check_theme_iff none none = (λ h. tt, λ h. refl)
check_theme_iff none (some name) = (λ h. ground arith, λ h. absurd h)
check_theme_iff (some charter) none = (λ h. ground arith, λ h. absurd h)
check_theme_iff (some charter) (some name) =
    elim (Option-cases (find_theme charter.value_themes name)) [
      | inl missing ↦ (
        λ h. absurd (ground (arith, h, missing)),
        λ (t, found). absurd (ground (arith, found, missing)),
      )
      | inr (theme, found) ↦ (λ h. (theme, found), λ h. rw (found) refl)
    ]

has_one-eq : (xs : List ℕ) → has_one xs ≡ has xs 1
unfolding has
has_one-eq [] = refl
has_one-eq (x ∷ xs) = ground (arith, has_one-eq xs)

low_spread-IsAnchored : (xs : List ℕ) → has_one xs ≡ true → low_spread xs ≡ false → IsAnchored xs
unfolding low_spread
low_spread-IsAnchored [] one wide = absurd (ground (arith, one))
low_spread-IsAnchored (x ∷ xs) one wide = (sym (has_one-eq (x ∷ xs)) ∙ one, ground (arith, wide))

IsAnchored-low_spread : (xs : List ℕ) → IsApart xs → IsAnchored xs → low_spread xs ≡ false
unfolding low_spread has
IsAnchored-low_spread [] apart (one, wide) = absurd (ground (arith, one))
IsAnchored-low_spread (x ∷ xs) apart (one, wide) = ground (arith, wide)

column_faults_iff :
    (col : ℕ) (xs : List ℕ) → IsApart xs → (column_faults col xs ≡ []) ↔ IsAnchored xs
column_faults_iff col xs apart = (
  λ h. low_spread-IsAnchored xs (ground (arith, h)) (ground (arith, h)),
  λ h. rw (has_one-eq xs, h.0, IsAnchored-low_spread xs apart h) refl,
)

check_batch_iff :
    (batch : Option (List Components))
    → BatchApart batch
    → (check_batch batch ≡ []) ↔ BatchFits batch
unfolding check_batch
check_batch_iff none apart = (λ h. tt, λ h. refl)
check_batch_iff (some batch) (p, q, r) = (
  λ h.
      let (front, third) =
        append-eq-nil _ (column_faults 2 (map (λ c. c.risk_opportunity) batch)) h in
      let (first, second) = append-eq-nil _ _ front in
      (
        (column_faults_iff 0 _ p).0 first,
        (column_faults_iff 1 _ q).0 second,
        (column_faults_iff 2 _ r).0 third,
      ),
  λ (a, b, c).
      rw
        (
          (column_faults_iff 0 _ p).1 a,
          (column_faults_iff 1 _ q).1 b,
          (column_faults_iff 2 _ r).1 c,
        )
        refl,
)

-- The spans as Booleans.
record IsVerbatim (source : Text) (e : Evidence) : Type 0 where
  value_span : includes source e.of_value ≡ true
  time_span : includes source e.of_time_criticality ≡ true
  risk_span : includes source e.of_risk_opportunity ≡ true
  size_span : includes source e.of_job_size ≡ true

check_evidence-IsVerbatim :
    (source : Text) (e : Evidence) → check_evidence source e ≡ [] → IsVerbatim source e
unfolding check_evidence
check_evidence-IsVerbatim source e h = record {
  value_span = ground (arith, h);
  time_span = ground (arith, h);
  risk_span = ground (arith, h);
  size_span = ground (arith, h);
}

IsVerbatim-check_evidence :
    (source : Text) (e : Evidence) → IsVerbatim source e → check_evidence source e ≡ []
unfolding check_evidence
IsVerbatim-check_evidence source e v = rw (v.value_span, v.time_span, v.risk_span, v.size_span) refl

join_lines-theme_texts :
    (line : Text) (ts : List Theme) → join_lines (line ∷ theme_texts ts) ≡ line ++ theme_lines ts
unfolding join_lines theme_texts theme_lines
join_lines-theme_texts line [] = sym (append-nil line)
join_lines-theme_texts line (t ∷ ts) =
    ap (λ l. line ++ 10 ∷ (t.name ++ 10 ∷ l)) (join_lines-theme_texts t.description ts)

source_of-lines :
    (ctx : Context) → source_of ctx ≡ ctx.source_text ++ 10 ∷ charter_lines ctx.charter
unfolding source_of charter_text join_lines
source_of-lines ctx = ap (λ l. ctx.source_text ++ 10 ∷ l) (texts ctx.charter)
  where
    texts : (charter : Option Charter) → charter_text charter ≡ charter_lines charter
    texts none = refl
    texts (some charter) =
        ap (λ l. charter.mission ++ 10 ∷ (charter.time_context ++ 10 ∷ l))
          (join_lines-theme_texts charter.risk_posture charter.value_themes)

is_empty_iff : (span : Text) → (is_empty span ≡ false) ↔ (span ≢ [])
is_empty_iff span = (λ h e. ground (arith, h, e), λ h. ground (arith, h))

check_band_iff :
    (band : Band) (tier : ℕ)
    → (check_band band tier ≡ []) ↔ (band.band_low ≤ tier) × (tier ≤ band.band_high)
unfolding check_band
check_band_iff band tier =
    (λ h. (ground (arith, h), ground (arith, h)), λ (a, b). ground (arith, a, b))

size_iff :
    (files : Option ℕ) (text : Text) (tier : ℕ)
    → (check_band (job_size_band files text) tier ≡ []) ↔ SizeFits files text tier
unfolding check_band job_size_band
size_iff (some files) text tier = (λ h. ground (arith, h), λ h. ground (arith, h))
size_iff none text tier = (λ h. ground (arith, h), λ h. ground (arith, h))

report_iff : (b : Bool) (fault : Fault) → (report b fault ≡ []) ↔ (b ≡ false)
report_iff b fault = (λ h. ground (arith, h), λ h. rw (h) refl)

consistent_iff :
    (c : Classification) (f : Features) (ctx : Context)
    → (contradicts (components_of c f ctx) ≡ false)
      ↔ (c.job_size_tier ≢ 1) ⊎ ((components_of c f ctx).value ≢ 13)
unfolding contradicts components_of
consistent_iff c f ctx = (λ h. ground (arith, h), λ h. ground (arith, h))

shape_iff :
    (c : Classification)
    → (well_shaped c ≡ true)
      ↔ (has (1 ∷ 2 ∷ 3 ∷ 5 ∷ 8 ∷ 13 ∷ []) c.job_size_tier ≡ true)
        × (c.evidence.of_value ≢ [])
        × (c.evidence.of_time_criticality ≢ [])
        × (c.evidence.of_risk_opportunity ≢ [])
        × (c.evidence.of_job_size ≢ [])
unfolding well_shaped has
shape_iff c = (
  λ h. (
    ground (arith, h),
    (is_empty_iff _).0 (ground (arith, h)),
    (is_empty_iff _).0 (ground (arith, h)),
    (is_empty_iff _).0 (ground (arith, h)),
    (is_empty_iff _).0 (ground (arith, h)),
  ),
  λ (tier, a, b, d, e). ground (
    arith,
    tier,
    (is_empty_iff _).1 a,
    (is_empty_iff _).1 b,
    (is_empty_iff _).1 d,
    (is_empty_iff _).1 e,
  ),
)

-- All that stands behind the shape.
faults : Classification → Features → Context → List Fault
faults c f ctx =
    check_theme ctx.charter c.theme_name
    ++ check_evidence (source_of ctx) c.evidence
    ++ check_band (job_size_band f.files_touched ctx.source_text) c.job_size_tier
    ++ report (contradicts (components_of c f ctx)) contradiction
    ++ check_batch ctx.batch

faults-nil :
    (c : Classification) (f : Features) (ctx : Context)
    → BatchApart ctx.batch
    → well_shaped c ≡ true
    → faults c f ctx ≡ []
    → IsAcceptable c f ctx
unfolding faults
faults-nil c f ctx apart shape h =
    let (h4, batch) = append-eq-nil _ (check_batch ctx.batch) h in
    let (h3, consistent) =
      append-eq-nil _ (report (contradicts (components_of c f ctx)) contradiction) h4 in
    let (h2, size) =
      append-eq-nil _ (check_band (job_size_band f.files_touched ctx.source_text) c.job_size_tier)
        h3 in
    let (theme, spans) =
      append-eq-nil (check_theme ctx.charter c.theme_name)
        (check_evidence (source_of ctx) c.evidence) h2 in
    let v = check_evidence-IsVerbatim (source_of ctx) c.evidence spans in
    let lines = λ (span : Text). ap (λ t. includes t span) (sym (source_of-lines ctx)) in
    let (tier, a, b, d, e) = (shape_iff c).0 shape in
    record {
      tier = tier;
      theme = (check_theme_iff ctx.charter c.theme_name).0 theme;
      value_span = (a, lines c.evidence.of_value ∙ v.value_span);
      time_span = (b, lines c.evidence.of_time_criticality ∙ v.time_span);
      risk_span = (d, lines c.evidence.of_risk_opportunity ∙ v.risk_span);
      size_span = (e, lines c.evidence.of_job_size ∙ v.size_span);
      size = (size_iff f.files_touched ctx.source_text c.job_size_tier).0 size;
      consistent = (consistent_iff c f ctx).0 ((report_iff _ contradiction).0 consistent);
      batch = (check_batch_iff ctx.batch apart).0 batch;
    }

IsAcceptable-faults :
    (c : Classification) (f : Features) (ctx : Context)
    → BatchApart ctx.batch
    → IsAcceptable c f ctx
    → faults c f ctx ≡ []
unfolding faults
IsAcceptable-faults c f ctx apart a =
    let lines = λ (span : Text). ap (λ t. includes t span) (source_of-lines ctx) in
    let spans = IsVerbatim-check_evidence (source_of ctx) c.evidence record {
      value_span = lines c.evidence.of_value ∙ a.value_span.1;
      time_span = lines c.evidence.of_time_criticality ∙ a.time_span.1;
      risk_span = lines c.evidence.of_risk_opportunity ∙ a.risk_span.1;
      size_span = lines c.evidence.of_job_size ∙ a.size_span.1;
    } in
    rw
      (
        (check_theme_iff ctx.charter c.theme_name).1 a.theme,
        spans,
        (size_iff f.files_touched ctx.source_text c.job_size_tier).1 a.size,
        (consistent_iff c f ctx).1 a.consistent,
        (check_batch_iff ctx.batch apart).1 a.batch,
      )
      refl

-- Where no column of the batch has a variance of exactly one half, a submission passes the gate exactly
-- if its job size is a tier within the band of its files or its text, its theme is one of the charter,
-- or null where there is no charter, every span of evidence is not empty and verbatim in the text of
-- the task or the lines of the charter, it is not a job of size 1 with a computed value of 13, and
-- every column of the batch has a 1 and a variance of at least one half.
pub validate_score_submission_iff :
    (c : Classification) (f : Features) (ctx : Context)
    → BatchApart ctx.batch
    → ((validate_score_submission c f ctx).1 ≡ []) ↔ IsAcceptable c f ctx
unfolding validate_score_submission faults
validate_score_submission_iff c f ctx apart = (
  λ h. elim (Bool-cases (well_shaped c)) [
    | inr bad ↦ absurd (ground (arith, h, bad))
    | inl shape ↦
        faults-nil c f ctx apart shape
          (subst (λ b. (if b then faults c f ctx else bad_shape ∷ []) ≡ []) shape h)
  ],
  λ a.
      rw
        (
          (shape_iff c).1 (a.tier, a.value_span.0, a.time_span.0, a.risk_span.0, a.size_span.0),
          IsAcceptable-faults c f ctx apart a,
        )
        refl,
)
