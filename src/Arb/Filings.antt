-- ===== src/Arb/Filings.antt =====
-- arb/runtime/proceeding/attorney_tools.go: the checks on an attorney's decision, before the engine sees
-- it. The entries of a list of objects are those of `mapList`, which reads the same values.
pub mod Limits
pub mod Accepted
pub mod Fits
use adjudication.Prelude.{
  ℕ, ◌+◌, Bool, true, false, not, ◌||◌, Option, none, some, List, [], ◌∷◌, ◌++◌, Result, ok, err,
  ◌>>=◌, ◌>>◌, reject_if, or_fail, if◌then◌else◌, length,
}
use adjudication.Prelude.Int.{ℤ, pos, ltb_ℤ, leb_ℤ}
use adjudication.Prelude.Text.{Text, msg, text_eq, is_empty, trim_space, byte_length}
use adjudication.Prelude.Assoc.{lookup}
use adjudication.Json.{Fields, int, empty, get, map_any, map_list}
use adjudication.Json.Print.{map_string}
use adjudication.Arb.Policy.{Policy}
use adjudication.Arb.Context.{CaseFile, Opportunity}

-- A text that ends in a number.
numbered : Text → ℤ → Text
unfolding map_string
numbered text n = text ++ map_string (int n)

unfoldable pub is_one_of : Text → List Text → Bool
is_one_of t [] = false
is_one_of t (u ∷ us) = text_eq u t || is_one_of t us

-- The filings that may carry evidence and reports.
unfoldable pub is_merits_filing : Text → Bool
unfolding is_one_of
is_merits_filing action =
    is_one_of action (msg "submit_argument" ∷ msg "submit_rebuttal" ∷ msg "submit_surrebuttal" ∷ [])

unfoldable pub submit_decision_tool : Text → Bool
unfolding is_merits_filing
submit_decision_tool tool =
    is_merits_filing tool
    || is_one_of tool (
        msg "record_opening_statement"
        ∷ msg "deliver_closing_statement"
        ∷ msg "pass_phase_opportunity"
        ∷ [])

unfoldable pub check_offered :
    List (Text × CaseFile) → Policy → List Fields → Result Text (Unit {0})
check_offered files policy [] = ok tt
check_offered files policy (entry ∷ entries) = do
  let evidence_id = map_string (get (msg "evidence_id") entry)
  reject_if (is_empty evidence_id) (msg "offered_evidence entry requires evidence_id")
  file ← or_fail (lookup evidence_id files) (
      msg
        "unknown offered file; offered_evidence must use visible case evidence_id values, not workspace paths or downloaded filenames")
  reject_if (ltb_ℤ policy.max_exhibit_bytes (pos file.size_bytes))
      (msg "offered file exceeds byte limit")
  check_offered files policy entries

unfoldable pub validate_offered_evidence :
    List Fields → List (Text × CaseFile) → Policy → Result Text (Unit {0})
unfolding numbered
validate_offered_evidence entries files policy =
    reject_if (ltb_ℤ policy.max_exhibits_per_filing (pos (length entries)))
      (numbered (msg "offered_evidence exceed per-filing limit of ") policy.max_exhibits_per_filing)
    >> check_offered files policy entries

unfoldable pub check_reports : Policy → List Fields → Result Text (Unit {0})
check_reports policy [] = ok tt
check_reports policy (entry ∷ entries) = do
  let title = map_string (get (msg "title") entry)
  let summary = map_string (get (msg "summary") entry)
  reject_if (is_empty title) (msg "technical_reports entry requires title")
  reject_if (is_empty summary) (msg "technical_reports entry requires summary")
  reject_if (ltb_ℤ policy.max_report_title_bytes (pos (byte_length title)))
      (msg "technical_reports title exceeds byte limit")
  reject_if (ltb_ℤ policy.max_report_summary_bytes (pos (byte_length summary)))
      (msg "technical_reports summary exceeds byte limit")
  check_reports policy entries

unfoldable pub validate_reports : List Fields → Policy → Result Text (Unit {0})
unfolding numbered
validate_reports entries policy =
    reject_if (ltb_ℤ policy.max_reports_per_filing (pos (length entries)))
      (numbered (msg "technical_reports exceed per-filing limit of ") policy.max_reports_per_filing)
    >> check_reports policy entries

unfoldable pub offered_in : Fields → List Fields
offered_in payload = map_list (get (msg "offered_evidence") payload)

unfoldable pub reports_in : Fields → List Fields
reports_in payload = map_list (get (msg "technical_reports") payload)

require_text : Fields → Result Text (Unit {0})
require_text payload =
    reject_if (is_empty (map_string (get (msg "text") payload))) (msg "payload.text is required")

unfoldable pub has_entries : List Fields → Bool
has_entries [] = false
has_entries (e ∷ es) = true

unfoldable pub validate_attorney_payload :
    Text → Fields → List (Text × CaseFile) → Policy → Result Text (Unit {0})
unfolding require_text
validate_attorney_payload action payload files policy =
    if is_merits_filing action
    then require_text payload
      >> (validate_offered_evidence (offered_in payload) files policy
          >> validate_reports (reports_in payload) policy)
    else if text_eq action (msg "record_opening_statement")
    then require_text payload
    else if text_eq action (msg "deliver_closing_statement")
    then require_text payload
      >> (reject_if (has_entries (offered_in payload))
            (msg "offered_evidence are allowed only in arguments")
          >> reject_if (has_entries (reports_in payload))
              (msg "technical_reports are allowed only in arguments"))
    else if text_eq action (msg "pass_phase_opportunity")
    then ok tt
    else err (msg "unsupported action type")

-- A pass, and a decision by a tool. A map's copy is the map.
pass_decision : Opportunity → Result Text (Text × Fields)
pass_decision o = do
  reject_if (not o.may_pass) (msg "passing is not allowed in this opportunity")
  reject_if (not (is_one_of o.phase (msg "rebuttals" ∷ msg "surrebuttals" ∷ [])))
      (msg "passing is not allowed in phase")
  ok (msg "pass_phase_opportunity", empty)

tool_decision : Opportunity → Fields → List (Text × CaseFile) → Policy → Result Text (Text × Fields)
tool_decision o params files policy = do
  let tool = map_string (get (msg "tool_name") params)
  let payload = map_any (get (msg "payload") params)
  reject_if (is_empty tool) (msg "submit_decision tool_name is required when kind is tool")
  reject_if (not (submit_decision_tool tool)) (msg "tool must be called directly")
  reject_if (not (is_one_of tool o.allowed_tools)) (msg "tool is not allowed in this opportunity")
  validate_attorney_payload tool payload files policy
  ok (tool, payload)

unfoldable pub attorney_decision :
    Opportunity → Fields → List (Text × CaseFile) → Policy → Result Text (Text × Fields)
unfolding pass_decision tool_decision
attorney_decision o params files policy =
    let kind = map_string (get (msg "kind") params) in
    if text_eq kind (msg "pass")
    then pass_decision o
    else if text_eq kind (msg "tool")
    then tool_decision o params files policy
    else err (msg "submit_decision kind must be tool or pass")

unfoldable pub phase_text_char_limit : Policy → Text → ℤ
phase_text_char_limit policy phase =
    if text_eq phase (msg "openings")
    then policy.max_opening_chars
    else if text_eq phase (msg "arguments")
    then policy.max_argument_chars
    else if text_eq phase (msg "rebuttals")
    then policy.max_rebuttal_chars
    else if text_eq phase (msg "surrebuttals")
    then policy.max_surrebuttal_chars
    else if text_eq phase (msg "closings")
    then policy.max_closing_chars
    else pos 0

unfoldable pub filing_count_for_role : List Fields → Text → ℕ
filing_count_for_role [] role = 0
filing_count_for_role (item ∷ items) role =
    let rest = filing_count_for_role items role in
    if text_eq (map_string (get (msg "role") item)) role then rest + 1 else rest

-- What a side has filed in the state's list of that name.
unfoldable pub used_by : Fields → Text → Text → ℕ
unfolding filing_count_for_role
used_by state role name =
    filing_count_for_role (map_list (get name (map_any (get (msg "case") state)))) role

unfoldable pub filing_label : Text → Text
filing_label action =
    if text_eq action (msg "record_opening_statement")
    then msg "opening statement"
    else if text_eq action (msg "submit_argument")
    then msg "argument"
    else if text_eq action (msg "submit_rebuttal")
    then msg "rebuttal"
    else if text_eq action (msg "submit_surrebuttal")
    then msg "surrebuttal"
    else if text_eq action (msg "deliver_closing_statement")
    then msg "closing statement"
    else msg "submission"

over_limit : Text → ℤ → ℕ → Text
unfolding filing_label numbered
over_limit action limit count =
    numbered (filing_label action ++ msg " exceeds character limit of ") limit
    ++ (numbered (msg " (got ") (pos count) ++ msg ")")

unfoldable pub check_text_limit : Text → ℤ → Fields → Result Text (Unit {0})
unfolding over_limit
check_text_limit action limit payload =
    let count = length (trim_space (map_string (get (msg "text") payload))) in
    if ltb_ℤ (pos 0) limit
    then reject_if (ltb_ℤ limit (pos count)) (over_limit action limit count)
    else ok tt

-- Counts of entries in memory do not wrap round.
unfoldable pub check_side_limits : Policy → Fields → Text → Fields → Result Text (Unit {0})
unfolding numbered
check_side_limits policy state role payload = do
  reject_if
      (ltb_ℤ policy.max_exhibits_per_side
        (pos (used_by state role (msg "offered_evidence") + length (offered_in payload))))
      (numbered (msg "offered_evidence for this side exceed limit of ")
        policy.max_exhibits_per_side)
  reject_if
      (ltb_ℤ policy.max_reports_per_side
        (pos (used_by state role (msg "technical_reports") + length (reports_in payload))))
      (numbered (msg "technical_reports for this side exceed limit of ")
        policy.max_reports_per_side)

unfoldable pub validate_attorney_payload_against_state :
    Policy → Fields → Opportunity → Text → Fields → Result Text (Unit {0})
validate_attorney_payload_against_state policy state o action payload =
    check_text_limit action (phase_text_char_limit policy o.phase) payload
    >> (if is_merits_filing action then check_side_limits policy state o.role payload else ok tt)
