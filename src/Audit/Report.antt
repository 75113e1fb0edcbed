-- ===== src/Audit/Report.antt =====
-- src/ampa/audit/result.py: the report of an audit, read from the output of the audit skill.
pub mod Markers
pub mod Closure
use Prim.Native.Char.{Char, code}
use Prim.Native.String.{◌++◌ as append}
use ampa.Prelude.{
  String, Bool, true, false, not, ◌&&◌, ◌||◌, ◌==◌, if◌then◌else◌, List, [], ◌∷◌, ◌++◌, Option,
  none, some, contains, all, is_empty, str_eq, nonempty, Exn,
}
use ampa.Text.{strip, lower, starts_with, join}
use ampa.Text.Find.{split_at, splitlines}

-- Python's `re`, for the patterns of result.py: `re.escape`, the texts before and after the match
-- of `re.search` with the flags of the source, and the four groups of each match of `finditer`.
pub record ReportRe : Type 0 where
  pub escape : String → String
  pub search_heading : (pattern text : String) → Option (String × String)
  pub search_next_heading : (pattern text : String) → Option (String × String)
  pub matches : (pattern text : String) → Bool
  pub rows : (pattern text : String) → List (String × String × String × String)

pub record CriterionResult : Type 0 where
  pub number : String
  pub criterion : String
  pub verdict : String
  pub evidence : String

pub record AuditResult : Type 0 where
  pub summary : String
  pub acceptance_criteria : List CriterionResult
  pub recommends_closure : Bool
  pub raw_output : String
  pub report_text : String
  pub closure_reason : String

-- The reasons of a `ParseError`, those of `_run_audit` among them.
pub data ParseReason : Type 0 where
  empty_output no_report : ParseReason
  timed_out : (id : String) → ParseReason
  execution_failed : Exn → ParseReason

pub record ParseError : Type 0 where
  pub reason : ParseReason
  pub raw_output : String

pub data AuditParseResult : Type 0 where
  parsed : AuditResult → AuditParseResult
  unparsed : ParseError → AuditParseResult

abbrev pub audit_report_start : String
audit_report_start = "--- AUDIT REPORT START ---"

abbrev pub audit_report_end : String
audit_report_end = "--- AUDIT REPORT END ---"

-- What stands between the markers, which falls back to the whole text when it is blank.
abbrev between : (text : String) → Option (String × String) → (rest : String) → String
between text none rest = strip rest
between text (some (inner, later)) rest = if nonempty (strip inner) then strip inner else text

abbrev from_start : (text : String) → Option (String × String) → String
from_start text none = text
from_start text (some (before, rest)) = between text (split_at audit_report_end rest) rest

unfoldable pub extract_report : String → String
extract_report text =
    if nonempty text then from_start text (split_at audit_report_start text) else ""

abbrev pub criteria_row_re : String
criteria_row_re =
    "^\\|\\s*(?P<num>[^|]+?)\\s*\\|\\s*(?P<crit>[^|]+?)\\s*\\|\\s*(?P&lt;verdict>[^|]+?)\\s*\\|\\s*(?P<evidence>[^|]*?)\\s*\\|"

abbrev pub recommends_closure_re : String
recommends_closure_re =
    "(?i)(can this item be closed\\?\\s*yes|all acceptance criteria.*(met|satisfied))"

abbrev pub does_not_recommend_re : String
does_not_recommend_re = "(?i)can this item be closed\\?\\s*no"

-- The verdict of a row, in the three words of the contract where it is a synonym of one of them.
unfoldable pub normalize_verdict : String → String
normalize_verdict verdict =
    if contains ("met" ∷ "pass" ∷ "passed" ∷ "yes" ∷ "true" ∷ "done" ∷ []) verdict
    then "met"
    else if contains ("unmet" ∷ "fail" ∷ "failed" ∷ "no" ∷ "false" ∷ "missing" ∷ []) verdict
    then "unmet"
    else if contains ("partial" ∷ "partially" ∷ "incomplete" ∷ []) verdict
    then "partial"
    else verdict

-- `all(c in "-: " for c in num)`
unfoldable pub only_rule : String → Bool
only_rule String.[] = true
only_rule (String.◌∷◌ c s) = (code c == 45 || code c == 58 || code c == 32) && only_rule s

abbrev is_header : String → Bool
is_header num = contains ("#" ∷ "no" ∷ "no." ∷ "number" ∷ "id" ∷ []) (lower num)

-- The body of the loop of `_parse_criteria_table`, in front of what the later rows give.
unfoldable pub add_row :
    (String × String × String × String) → List CriterionResult → List CriterionResult
add_row (num, crit, verdict, evidence) rest =
    if is_header (strip num)
    then rest
    else if only_rule (strip num)
    then rest
    else (record {
      number = strip num;
      criterion = strip crit;
      verdict = normalize_verdict (lower (strip verdict));
      evidence = strip evidence;
    })
      ∷ rest

unfoldable pub rows_to_criteria : List (String × String × String × String) → List CriterionResult
rows_to_criteria [] = []
rows_to_criteria (row ∷ rows) = add_row row (rows_to_criteria rows)

abbrev pub is_met : CriterionResult → Bool
is_met c = str_eq c.verdict "met"

-- The lines of the first paragraph that is neither a heading nor a table: `taken` holds them.
unfoldable pub paragraph : (taken : List String) → List String → List String
paragraph taken [] = taken
paragraph taken (line ∷ lines) =
    let s = strip line in
    let skip = paragraph taken lines in
    let take = paragraph (taken ++ s ∷ []) lines in
    if starts_with s "#" || starts_with s "|"
    then (if is_empty taken then skip else taken)
    else if nonempty s
    then take
    else if is_empty taken
    then skip
    else taken

module _ (re : ReportRe) where
  abbrev upto_next : String → Option (String × String) → String
  upto_next rest none = strip rest
  upto_next rest (some (section, later)) = strip section

  abbrev section_after : Option (String × String) → String
  section_after none = ""
  section_after (some (before, rest)) = upto_next rest (re.search_next_heading "^##\\s+" rest)

  unfoldable pub extract_section : (report heading : String) → String
  extract_section report heading =
      if nonempty report
      then section_after
          (re.search_heading (append "^##\\s+" (append (re.escape heading) "\\s*$")) report)
      else ""

  unfoldable pub parse_criteria_table : String → List CriterionResult
  parse_criteria_table section = rows_to_criteria (re.rows criteria_row_re section)

  -- An explicit answer of a text, where it gives one: yes goes before no.
  unfoldable pub signal : String → Option Bool
  signal text =
      if re.matches recommends_closure_re text
      then some true
      else if re.matches does_not_recommend_re text
      then some false
      else none

  abbrev pub criteria_of : String → List CriterionResult
  criteria_of section = if nonempty section then parse_criteria_table section else []

  abbrev all_met : List CriterionResult → Bool
  all_met criteria = not (is_empty criteria) && all is_met criteria

  abbrev pub first_signal : Option Bool → Option Bool → Bool → Bool
  first_signal (some answer) whole inferred = answer
  first_signal none (some answer) inferred = answer
  first_signal none none inferred = inferred

  -- The recommendation is asked for a signal where there is one, then the whole report, then the
  -- criteria.
  unfoldable pub detect_closure_recommendation : String → Bool
  detect_closure_recommendation report =
      let recommendation = extract_section report "Recommendation" in
      first_signal (if nonempty recommendation then signal recommendation else none) (signal report)
        (all_met (criteria_of (extract_section report "Acceptance Criteria Status")))

  unfoldable pub summary_of : String → String
  summary_of report =
      let summary = extract_section report "Summary" in
      if nonempty summary then summary else join " " (paragraph [] (splitlines (strip report)))

  unfoldable pub parse_audit_output : String → AuditParseResult
  parse_audit_output raw_output =
      let report = extract_report raw_output in
      if not (nonempty (strip raw_output))
      then unparsed (record { reason = empty_output; raw_output = raw_output })
      else if not (nonempty (strip report))
      then unparsed (record { reason = no_report; raw_output = raw_output })
      else parsed (record {
        summary = summary_of report;
        acceptance_criteria = criteria_of (extract_section report "Acceptance Criteria Status");
        recommends_closure = detect_closure_recommendation report;
        raw_output = raw_output;
        report_text = report;
        closure_reason = extract_section report "Recommendation";
      })
