-- ===== src/Examples/Direct.antt =====
-- A council member that a model plays: a call of the wrong tool, then a vote.
use adjudication.Prelude.{none, some, [], ◌∷◌, Result, ok, refl}
use adjudication.Prelude.Int.{pos}
use adjudication.Prelude.Text.{Text, msg, text_eq}
use adjudication.Json.{str, empty, field, obj, get, is_true, map_any, no_fields}
use adjudication.Arb.Policy.{default_runtime_limits}
use adjudication.Arb.Context.{RunContext, CouncilSeat}
use adjudication.Arb.Certificate.{accepted, state_of}
use adjudication.Arb.Certificate.Replay.{replay_certificate_actions}
use adjudication.Arb.Certificate.Sound.{Certified}
use adjudication.Arb.Failures.{council_member_id_from_opportunity}
use adjudication.Arb.Council.Direct.{Models, Response, execute_council_opportunity}
use adjudication.Arb.Council.Direct.Decided.{Decided, execute_council_opportunity-Decided}
use adjudication.Arb.Council.Direct.Kept.{execute_council_opportunity-Certified}
use adjudication.Examples.{
  Files, files_host, plain_engine, plain_engine-AnswersState, run, council_opportunity,
  plain_request,
}

abbrev call_of : Text → Response
call_of tool = record {
  tool_calls =
      record {
        name = tool;
        arguments =
            field (msg "vote") (str (msg "demonstrated"))
              (field (msg "rationale") (str (msg "because")) empty);
      }
      ∷ [];
  response_id = msg "r1";
  openrouter_metadata = none;
  openrouter_generation = none;
  openrouter_generation_error = [];
}

-- The second answer follows the first.
abbrev answer_after : Text → Response
answer_after [] = call_of (msg "submit_vote")
answer_after (c ∷ id) = call_of (msg "submit_council_vote")

abbrev pub models : Models
models = record {
  client = λ spec items previous. ok (answer_after previous);
  payload_size = λ response. ok (pos 100);
  spec_json = λ spec. obj empty;
  table = λ c. c;
}

abbrev pub with_council : RunContext Files
with_council = record run {
  council =
      record {
        member_id = msg "C1";
        model = msg "m";
        persona_file = [];
        request_spec = some plain_request;
        persona_text = [];
      }
      ∷ [];
}

abbrev pub prompt : CouncilSeat → Result Text Text
prompt seat = ok (msg "decide")

abbrev after : RunContext Files
after =
    (execute_council_opportunity models files_host plain_engine prompt council_opportunity
      with_council).0

execute_council_opportunity-Decided_example :
    Decided models files_host plain_engine council_opportunity
      (council_member_id_from_opportunity council_opportunity)
      with_council
      after
unfolding execute_council_opportunity msg default_runtime_limits accepted
execute_council_opportunity-Decided_example =
    execute_council_opportunity-Decided models files_host plain_engine prompt council_opportunity
      with_council after refl

execute_council_opportunity-Certified_example : Certified plain_engine after
unfolding replay_certificate_actions accepted state_of get is_true map_any no_fields msg text_eq
execute_council_opportunity-Certified_example =
    execute_council_opportunity-Certified models files_host plain_engine plain_engine-AnswersState
      prompt council_opportunity with_council refl
