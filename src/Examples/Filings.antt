-- ===== src/Examples/Filings.antt =====
-- An argument with one exhibit and one report.
use adjudication.Prelude.{◌⊎◌, true, false, List, [], ◌∷◌, refl}
use adjudication.Prelude.Text.{Text, msg, text_eq, is_empty, trim_space, byte_length}
use adjudication.Prelude.Assoc.{lookup}
use adjudication.Json.{Fields, nil, cons, str, arr, obj, empty, field, get, map_any, map_list}
use adjudication.Json.Print.{map_string}
use adjudication.Arb.Policy.{default_policy}
use adjudication.Arb.Context.{CaseFile, Opportunity}
use adjudication.Arb.Filings.{
  validate_attorney_payload, validate_attorney_payload_against_state, attorney_decision, is_one_of,
  is_merits_filing, phase_text_char_limit, validate_offered_evidence, check_offered,
  validate_reports, check_reports, offered_in, reports_in, check_text_limit, check_side_limits,
  used_by, submit_decision_tool,
}
use adjudication.Arb.Filings.Limits.{Filed, validate_attorney_payload-Filed}
use adjudication.Arb.Filings.Accepted.{ByPass, ByTool, attorney_decision-Allowed}
use adjudication.Arb.Filings.Fits.{Fits, validate_attorney_payload_against_state-Fits}
use adjudication.Examples.{start_state}

abbrev note : CaseFile
note = record {
  evidence_id = msg "ev_1";
  name = msg "a.txt";
  path = msg "/a.txt";
  mime_type = msg "text/plain";
  text_readable = true;
  size_bytes = 4;
  text = [];
}

abbrev pub files : List (Text × CaseFile)
files = (msg "ev_1", note) ∷ []

abbrev filing : Fields
filing = field (msg "text") (str (msg "We argue.")) (
    field (msg "offered_evidence")
      (arr (cons (obj (field (msg "evidence_id") (str (msg "ev_1")) empty)) nil))
      (field (msg "technical_reports")
        (arr (
          cons
            (obj
              (field (msg "title") (str (msg "T")) (field (msg "summary") (str (msg "S")) empty)))
            nil))
        empty))

abbrev pub turn : Opportunity
turn = record {
  id = msg "arguments:plaintiff";
  role = msg "plaintiff";
  phase = msg "arguments";
  may_pass = false;
  objective = [];
  allowed_tools = msg "submit_argument" ∷ [];
}

abbrev pub decision : Fields
decision = field (msg "kind") (str (msg "tool")) (
    field (msg "tool_name") (str (msg "submit_argument"))
      (field (msg "payload") (obj filing) empty))

validate_attorney_payload-Filed_example : Filed files default_policy start_state turn.role filing
unfolding validate_attorney_payload validate_attorney_payload_against_state is_one_of
    is_merits_filing phase_text_char_limit validate_offered_evidence check_offered validate_reports
    check_reports offered_in reports_in check_text_limit check_side_limits used_by default_policy
    msg text_eq is_empty trim_space byte_length lookup get map_any map_list map_string
validate_attorney_payload-Filed_example =
    validate_attorney_payload-Filed files default_policy start_state turn (msg "submit_argument")
      filing refl refl refl

validate_attorney_payload_against_state-Fits_example :
    Fits default_policy start_state turn.role turn.phase (msg "submit_argument") filing
unfolding validate_attorney_payload_against_state is_one_of is_merits_filing phase_text_char_limit
    offered_in reports_in check_text_limit check_side_limits used_by default_policy msg text_eq
    is_empty trim_space get map_any map_list map_string
validate_attorney_payload_against_state-Fits_example =
    (validate_attorney_payload_against_state-Fits default_policy start_state turn
        (msg "submit_argument") filing).0
      refl

attorney_decision-Allowed_example :
    ByPass turn decision (msg "submit_argument") filing
    ⊎ ByTool turn decision files default_policy (msg "submit_argument") filing
unfolding attorney_decision submit_decision_tool validate_attorney_payload is_one_of
    is_merits_filing validate_offered_evidence check_offered validate_reports check_reports
    offered_in reports_in default_policy msg text_eq is_empty trim_space byte_length lookup get
    map_any map_list map_string
attorney_decision-Allowed_example =
    (attorney_decision-Allowed turn decision files default_policy (msg "submit_argument") filing).0
      refl
