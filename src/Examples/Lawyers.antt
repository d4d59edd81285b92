-- ===== src/Examples/Lawyers.antt =====
-- An argument filed over the lawyers' API, and requests that are not for the current turn.
use adjudication.Prelude.{List, Bool, err, ◌∷◌, true, false, none, some, [], refl}
use adjudication.Prelude.Text.{Text, msg, text_eq, is_empty, trim_space, byte_length}
use adjudication.Prelude.Assoc.{lookup}
use adjudication.Json.{Fields, get, is_true, map_any, map_list, no_fields}
use adjudication.Json.Print.{map_string}
use adjudication.Arb.Policy.{default_policy}
use adjudication.Arb.Certificate.{accepted, state_of}
use adjudication.Arb.Filings.{
  validate_attorney_payload, validate_attorney_payload_against_state, attorney_decision, is_one_of,
  is_merits_filing, phase_text_char_limit, validate_offered_evidence, check_offered,
  validate_reports, check_reports, offered_in, reports_in, check_text_limit, check_side_limits,
  used_by, submit_decision_tool,
}
use adjudication.Arb.Lawyer.Feedback.{CharLimitPatterns}
use adjudication.Arb.Lawyer.Turn.{LawyerDesk, new_lawyer_turn}
use adjudication.Arb.Lawyer.Decision.{submit_decision}
use adjudication.Arb.Lawyer.Filed.{Filed, submit_decision-Filed}
use adjudication.Arb.Lawyer.Server.{
  LawyerApi, LawyerDoRequest, Called, is_attorney, handle_lawyer_do, lawyer_finished,
}
use adjudication.Arb.Lawyer.Rejected.{is_current, RejectedBy, handle_lawyer_do-RejectedBy}
use adjudication.Arb.Certificate.Replay.{replay_certificate_actions}
use adjudication.Arb.Certificate.Sound.{Certified}
use adjudication.Arb.Lawyer.Reading.{LawyerReply}
use adjudication.Arb.Lawyer.Session.{execute_attorney_opportunity}
use adjudication.Arb.Lawyer.Certified.{execute_attorney_opportunity-Certified}
use adjudication.Examples.{plain_engine-AnswersState, Files, files_host, plain_engine, run}
use adjudication.Examples.Filings.{turn, decision, files}

abbrev desk : LawyerDesk Files
desk = record {
  rc = record run { policy = default_policy; file_by_id = files };
  turn = new_lawyer_turn run turn;
  version = 1;
}

submit_decision-Filed_example :
    Filed files_host plain_engine decision desk
      (submit_decision files_host plain_engine decision desk).0
unfolding submit_decision new_lawyer_turn attorney_decision submit_decision_tool
    validate_attorney_payload validate_attorney_payload_against_state is_one_of is_merits_filing
    phase_text_char_limit validate_offered_evidence check_offered validate_reports check_reports
    offered_in reports_in check_text_limit check_side_limits used_by default_policy accepted
    state_of is_true msg text_eq is_empty trim_space byte_length lookup get map_any map_list
    map_string
submit_decision-Filed_example =
    submit_decision-Filed files_host plain_engine decision desk
      (submit_decision files_host plain_engine decision desk).0 refl

abbrev lawyers : LawyerApi Files
lawyers = record {
  rc = desk.rc;
  active = some desk.turn;
  version = 1;
  terminal = false;
  terminal_reason = [];
}

-- The other side asks, in a turn that is the plaintiff's.
abbrev out_of_turn : LawyerDoRequest
out_of_turn = record {
  role_id = msg "defendant";
  opportunity_id = turn.id;
  tool = msg "submit_decision";
  arguments = decision;
}

abbrev pub no_patterns : CharLimitPatterns
no_patterns = record { with_count = λ t. none; without_count = λ t. none }

-- The tool that files a decision; the replies' text is left out.
abbrev filing_tool : Text → Fields → LawyerDesk Files → Called Files (Unit {0})
filing_tool tool args d =
    let (e, r) = submit_decision files_host plain_engine args d in (e, r, true, true)

handle_lawyer_do-RejectedBy_example :
    RejectedBy files_host plain_engine no_patterns filing_tool lawyers (
      handle_lawyer_do files_host plain_engine no_patterns tt filing_tool false out_of_turn lawyers)
unfolding is_current is_attorney new_lawyer_turn msg text_eq is_empty
handle_lawyer_do-RejectedBy_example =
    handle_lawyer_do-RejectedBy files_host plain_engine no_patterns filing_tool tt out_of_turn
      lawyers refl refl

abbrev pub own_request : LawyerDoRequest
own_request = record out_of_turn { role_id = turn.role }

-- The plaintiff's own request, after one that is not.
abbrev requests : List (Bool × LawyerDoRequest)
requests = (false, out_of_turn) ∷ (false, own_request) ∷ []

abbrev pub no_other : Text → Fields → LawyerDesk Files → Called Files (LawyerReply (Unit {0}))
no_other tool args d = (d, err (msg "unknown tool"), true, false)

abbrev waiting : LawyerApi Files
waiting = record lawyers { active = none }

waiting-Certified : Certified plain_engine waiting.rc
unfolding replay_certificate_actions accepted state_of get is_true map_any no_fields msg text_eq
waiting-Certified = refl

execute_attorney_opportunity-Certified_example :
    Certified plain_engine
      (execute_attorney_opportunity files_host plain_engine no_patterns tt no_other requests
        (lawyer_finished none)
        turn
        waiting).0.rc
execute_attorney_opportunity-Certified_example =
    execute_attorney_opportunity-Certified files_host plain_engine plain_engine-AnswersState
      no_patterns tt no_other (λ tool args d h. h) requests (lawyer_finished none) turn waiting
      waiting-Certified
