-- ===== src/Audit/Report/Closure.antt =====
-- When a report counts as recommending closure.
use ampa.Prelude.{
  ◌+◌, String, Bool, true, false, not, ◌&&◌, List, [], ◌∷◌, none, ◌≡◌, refl, sym, ◌∙◌, eq_iff,
  arith, if◌then◌else◌, nonempty, length, str_eq, all, is_empty, Bool-cases, inl, inr,
}
use ampa.Text.{strip}
use ampa.Audit.Report.{
  ReportRe, AuditResult, CriterionResult, parsed, is_met, extract_report, extract_section, signal,
  recommends_closure_re, does_not_recommend_re, detect_closure_recommendation, parse_audit_output,
  criteria_of, first_signal,
}
use ampa.Audit.Comment.{met_count, partial_count, unmet_count}

module _ (re : ReportRe) where
  if_same : (b x : Bool) → first_signal re (if b then none else none) none x ≡ x
  if_same true x = refl
  if_same false x = refl

  -- What is read of the report that stands in an output.
  read_of :
      (raw : String) (a : AuditResult)
      → parse_audit_output re raw ≡ parsed a
      → (extract_section re a.report_text "Recommendation" ≡ a.closure_reason)
        × (detect_closure_recommendation re a.report_text ≡ a.recommends_closure)
        × (criteria_of re (extract_section re a.report_text "Acceptance Criteria Status")
            ≡ a.acceptance_criteria)
  unfolding parse_audit_output
  read_of raw a e = elim (Bool-cases (nonempty (strip raw))) [
    | inr blank ↦ absurd (cc (rw blank at e))
    | inl some_text ↦ elim (Bool-cases (nonempty (strip (extract_report raw)))) [
      | inr no_report ↦ absurd (cc (rw (some_text, no_report) at e))
      | inl report ↦ ground (arith, rw (some_text, report) at e)
    ]
  ]

  -- An output that matches neither pattern anywhere is read as recommending closure only if its
  -- table has criteria and the verdict of each is "met".
  pub parse_audit_output_inferred :
      (raw : String) (a : AuditResult)
      → parse_audit_output re raw ≡ parsed a
      → re.matches recommends_closure_re a.closure_reason ≡ false
      → re.matches does_not_recommend_re a.closure_reason ≡ false
      → re.matches recommends_closure_re a.report_text ≡ false
      → re.matches does_not_recommend_re a.report_text ≡ false
      → a.recommends_closure
        ≡ (not (is_empty a.acceptance_criteria) && all is_met a.acceptance_criteria)
  unfolding detect_closure_recommendation signal
  parse_audit_output_inferred raw a e yes_reason no_reason yes_report no_report =
      let (reason, closure, criteria) = read_of raw a e in
      sym closure
      ∙ rw (reason, criteria)
          (rw (yes_reason, no_reason, yes_report, no_report)
            (if_same (nonempty a.closure_reason) _))

unequal : (v : String) → str_eq v "met" ≡ true → str_eq v "partial" ≡ false
unequal v h = rw ((eq_iff v "met").0 h) refl

-- The counts of the summary add up to the number of criteria.
pub counts_total :
    (cs : List CriterionResult) → met_count cs + partial_count cs + unmet_count cs ≡ length cs
counts_total [] = refl
counts_total (c ∷ cs) = ground (arith, counts_total cs, unequal c.verdict)
