-- ===== src/Examples/Hearings.antt =====
-- A case of one argument and one council vote, from its start to its certificate.
use adjudication.Prelude.{
  false, Bool, true, some, [], ◌∷◌, Result, ok, ◌≡◌, refl, ap, arith, if◌then◌else◌,
}
use adjudication.Prelude.Text.{Text, msg, text_eq, is_empty}
use adjudication.Json.{Fields, nil, bool, str, obj, empty, field, get}
use adjudication.Json.Print.{map_string}
use adjudication.Arb.Policy.{default_runtime_limits}
use adjudication.Arb.Context.{RunContext, Opportunity}
use adjudication.Arb.Context.Host.{Engine}
use adjudication.Arb.Certificate.{accepted, ReplayCertificate}
use adjudication.Arb.Certificate.Replay.{AnswersState}
use adjudication.Arb.Certificate.Verify.{schema_version, procedure_name, replay_certificate}
use adjudication.Arb.Council.Direct.{execute_council_opportunity}
use adjudication.Arb.Council.Direct.Kept.{execute_council_opportunity-Certified}
use adjudication.Arb.Run.{begin_case, record_start, Handler, run_case, RunResult, result_of}
use adjudication.Arb.Run.Certified.{Starts, Verified, run_case-Verified}
use adjudication.Examples.{
  Files, files_host, plain_engine, plain_engine-AnswersState, start_state, moved, respond,
}
use adjudication.Examples.Direct.{models, prompt, with_council}
use adjudication.Json.{bool, obj, arr, cons}
use adjudication.Arb.Policy.{default_policy}
use adjudication.Arb.Context.{Opportunity}
use adjudication.Prelude.{List, Bool, false, none}
use adjudication.Arb.Lawyer.Server.{LawyerDoRequest, LawyerWake, lawyer_finished}
use adjudication.Arb.Run.Attorneys.{attorney_handler, attorney_handler-Certified}
use adjudication.Examples.Filings.{files}
use adjudication.Examples.Lawyers.{no_patterns, no_other, own_request}
use adjudication.Examples.Runs.{due_vote, all_done}
use adjudication.Arb.Filings.{
  submit_decision_tool, validate_attorney_payload, validate_offered_evidence, offered_in,
  check_offered, validate_reports, reports_in, check_reports, check_text_limit, check_side_limits,
  used_by,
}
use adjudication.Json.{map_list}
use adjudication.Prelude.Assoc.{lookup}
use adjudication.Prelude.Text.{byte_length}

abbrev due_argument : Fields
due_argument = field (msg "ok") (bool true) (
    field (msg "opportunity")
      (obj (
        field (msg "opportunity_id") (str (msg "arguments:plaintiff")) (
          field (msg "role") (str (msg "plaintiff")) (
            field (msg "phase") (str (msg "arguments"))
              (field (msg "allowed_tools") (arr (cons (str (msg "submit_argument")) nil)) empty)))))
      empty)

-- The engine asks for an argument, and then for a vote.
abbrev court : Engine
court = record plain_engine {
  next_opportunity = λ s.
      let last = map_string (get (msg "last") s) in
      ok (
        if text_eq last (msg "initialize_case")
        then due_argument
        else if text_eq last (msg "submit_argument")
        then due_vote
        else all_done);
}

court-AnswersState : AnswersState court
court-AnswersState = record { nonempty_state = plain_engine-AnswersState.nonempty_state }

court-Starts : Starts files_host court (λ m. some m)
court-Starts = record {
  same = λ s q proposition m n h k.
      let agree : q ≡ s = ground arith in
      ap (λ t. ok (respond (moved (msg "initialize_case") t))) agree;
  nonempty_state = λ s resp proposition m h agreed.
      plain_engine-AnswersState.nonempty_state s empty resp (msg "initialize_case") [] h agreed;
}

-- The plaintiff's one request.
abbrev schedule : Opportunity → List (Bool × LawyerDoRequest) × LawyerWake
schedule o = ((false, own_request) ∷ [], lawyer_finished none)

abbrev plaintiff : Handler files_host court
plaintiff = attorney_handler files_host court no_patterns tt no_other schedule

abbrev jury : Handler files_host court
jury o = execute_council_opportunity models files_host court prompt o

abbrev prepared : RunContext Files
prepared = record with_council { policy = default_policy; file_by_id = files }

abbrev begun : RunContext Files
begun = record prepared { state = moved (msg "initialize_case") start_state }

abbrev opened : RunContext Files
opened = (record_start files_host court [] empty begun).0

abbrev ended : RunContext Files
ended = (run_case files_host court plaintiff jury 5 opened).0

abbrev outcome : RunResult
outcome = result_of ended.state (msg "closed")

abbrev last_digest : Fields → Result Text Text
last_digest s = ok (map_string (get (msg "last") s))

abbrev written : ReplayCertificate
written = record {
  schema_version = schema_version;
  procedure = procedure_name;
  engine = msg "engine" ∷ [];
  case_id = msg "case-1";
  run_id = msg "run-1";
  initial_state = some start_state;
  proposition = msg "p";
  council_members = some nil;
  actions = ended.certificate_actions;
  claimed_final_state = some ended.state;
  claimed_final_state_sha256 = map_string (get (msg "last") ended.state);
}

ended_lem : (run_case files_host court plaintiff jury 5 opened).1 ≡ ok (some outcome)
unfolding begin_case record_start run_case msg accepted default_runtime_limits is_empty text_eq
    execute_council_opportunity attorney_handler submit_decision_tool validate_attorney_payload
    validate_offered_evidence default_policy offered_in map_list check_offered lookup
    validate_reports reports_in check_reports byte_length check_text_limit check_side_limits used_by
ended_lem = refl

written_lem :
    replay_certificate court last_digest (msg "engine" ∷ []) ended ended.state ≡ ok written
unfolding replay_certificate begin_case record_start run_case msg accepted default_runtime_limits
    is_empty text_eq execute_council_opportunity attorney_handler submit_decision_tool
    validate_attorney_payload validate_offered_evidence default_policy offered_in map_list
    check_offered lookup validate_reports reports_in check_reports byte_length check_text_limit
    check_side_limits used_by
written_lem = refl

run_case-Verified_example :
    Verified files_host court last_digest ended outcome
      (msg "engine" ∷ [])
      (msg "c.json")
      (msg "s.json")
      written
unfolding begin_case record_start msg accepted default_runtime_limits is_empty text_eq
run_case-Verified_example =
    run_case-Verified files_host court last_digest (λ m. some m) court-Starts plaintiff jury
      (attorney_handler-Certified files_host court no_patterns tt no_other court-AnswersState
        (λ tool args d h. h) schedule)
      (λ o.
        execute_council_opportunity-Certified models files_host court court-AnswersState prompt o)
      start_state (msg "p") nil prepared begun opened ended [] empty 5 outcome (msg "engine" ∷ [])
      (msg "c.json") (msg "s.json") written refl refl (ap (λ r. (ended, r)) ended_lem) written_lem
      refl refl refl refl
