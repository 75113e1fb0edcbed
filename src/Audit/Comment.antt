-- ===== src/Audit/Comment.antt =====
-- The texts that src/ampa/audit/handlers.py writes of an audit: the comment on the work item, and
-- the summary for notifications.
use Prim.Native.String.{◌++◌ as append}
use ampa.Prelude.{
  ℕ, String, Bool, not, ◌||◌, if◌then◌else◌, List, [], ◌∷◌, ◌++◌, map, str_eq, nonempty, length,
  count, keep,
}
use ampa.Text.{strip, join, show_ℕ}
use ampa.Audit.Report.{CriterionResult, AuditResult, is_met}

-- An f-string, by its parts.
abbrev pub concat : List String → String
concat parts = join "" parts

abbrev if_blank : String → String → String
if_blank d s = if nonempty s then s else d

abbrev row : CriterionResult → String
row c =
    concat
      ("| " ∷ c.number ∷ " | " ∷ c.criterion ∷ " | " ∷ c.verdict ∷ " | " ∷ c.evidence ∷ " |" ∷ [])

abbrev summary_part : AuditResult → List String
summary_part a = if nonempty a.summary then append "## Summary\n\n" a.summary ∷ "" ∷ [] else []

abbrev criteria_part : List CriterionResult → List String
criteria_part [] = []
criteria_part (c ∷ cs) =
    "## Acceptance Criteria Status"
    ∷ ""
    ∷ "| # | Criterion | Verdict | Evidence |"
    ∷ "|---|-----------|---------|----------|"
    ∷ (map row (c ∷ cs) ++ "" ∷ [])

abbrev recommendation_part : AuditResult → List String
recommendation_part a =
    "## Recommendation"
    ∷ ""
    ∷ if_blank
        (if a.recommends_closure
          then "Can this item be closed? Yes. All acceptance criteria are met."
          else "Can this item be closed? No.")
        a.closure_reason
    ∷ []

-- `_format_audit_comment`
unfoldable pub format_audit_comment : AuditResult → String
format_audit_comment a = join "\n" (
    "## AMPA Audit Result"
    ∷ ""
    ∷ (summary_part a ++ (criteria_part a.acceptance_criteria ++ recommendation_part a)))

abbrev is_partial : CriterionResult → Bool
is_partial c = str_eq c.verdict "partial"

abbrev is_unmet : CriterionResult → Bool
is_unmet c = not (is_met c || is_partial c)

abbrev pub met_count : List CriterionResult → ℕ
met_count cs = count is_met cs

abbrev pub partial_count : List CriterionResult → ℕ
partial_count cs = count is_partial cs

abbrev pub unmet_count : List CriterionResult → ℕ
unmet_count cs = count is_unmet cs

abbrev pub failed : List CriterionResult → List CriterionResult
failed cs = keep (λ c. not (is_met c)) cs

abbrev failed_line : CriterionResult → String
failed_line c = concat (
    "- ["
    ∷ c.number
    ∷ "] "
    ∷ if_blank "(no criterion text)" (strip c.criterion)
    ∷ " | verdict: "
    ∷ if_blank "unknown" (strip c.verdict)
    ∷ " | evidence: "
    ∷ if_blank "No evidence provided." (strip c.evidence)
    ∷ [])

abbrev first_three : List CriterionResult → List CriterionResult
first_three (a ∷ b ∷ c ∷ rest) = a ∷ b ∷ c ∷ []
first_three cs = cs

abbrev brief : CriterionResult → String
brief c = concat ("[" ∷ c.number ∷ "] " ∷ strip c.criterion ∷ [])

abbrev missing_actions : List CriterionResult → String
missing_actions [] = "Missing actions: audit indicates unmet acceptance criteria."
missing_actions (c ∷ cs) =
    concat ("Missing actions: " ∷ join "; " (map brief (first_three (c ∷ cs))) ∷ "." ∷ [])

abbrev failed_part : List CriterionResult → List String
failed_part [] = []
failed_part (c ∷ cs) = "" ∷ "## Failed acceptance criteria" ∷ "" ∷ map failed_line (c ∷ cs)

abbrev findings_part : AuditResult → List String
findings_part a = if nonempty a.summary then "" ∷ "## Findings" ∷ "" ∷ strip a.summary ∷ [] else []

-- `_format_audit_discord_summary`
unfoldable pub format_audit_discord_summary : (title id : String) → AuditResult → String
format_audit_discord_summary title id a =
    let criteria = a.acceptance_criteria in
    join "\n" (
      "# AMPA Audit Summary"
      ∷ ""
      ∷ append "- Title: " (if_blank id title)
      ∷ append "- ID: " id
      ∷ append "- Ready to close: " (if a.recommends_closure then "YES" else "NO")
      ∷ concat (
          "- Criteria: "
          ∷ show_ℕ (met_count criteria)
          ∷ " met, "
          ∷ show_ℕ (partial_count criteria)
          ∷ " partial, "
          ∷ show_ℕ (unmet_count criteria)
          ∷ " unmet ("
          ∷ show_ℕ (length criteria)
          ∷ " total)"
          ∷ [])
      ∷ (findings_part a
          ++ (failed_part (failed criteria)
              ++ ""
                ∷ "## Recommendation"
                ∷ ""
                ∷ if_blank
                    (if a.recommends_closure
                      then "Can this item be closed? Yes."
                      else missing_actions (failed criteria))
                    (strip a.closure_reason)
                ∷ [])))
