-- ===== src/Examples/Record.antt =====
-- Steps, failures and votes in the example run.
use adjudication.Prelude.{false, some, [], ◌∷◌, Result, ok, ◌≡◌, refl}
use adjudication.Prelude.Text.{Text, msg, text_eq, is_empty, trim_space}
use adjudication.Json.{Fields, nil, str, empty, field, get, put, is_true, map_any, no_fields}
use adjudication.Json.Print.{map_string}
use adjudication.Arb.Context.{RunContext}
use adjudication.Arb.Certificate.{
  ReplayCertificate, VerifyReplayCertificateResult, accepted, state_of,
}
use adjudication.Arb.Certificate.Sound.{Certified, take_step-Keeps}
use adjudication.Arb.Certificate.Step.{take_step, Taken}
use adjudication.Arb.Certificate.Replay.{replay_certificate_actions}
use adjudication.Arb.Certificate.Verify.{
  schema_version, procedure_name, replay_certificate, verify_replay_certificate, Accepted,
  verify_replay_certificate-Accepted, verify-replay_certificate,
}
use adjudication.Arb.Failures.{fail_opportunity, failure_payload, is_null, is_council}
use adjudication.Arb.Failures.Record.{fail_opportunity-Certified, fail_opportunity-Taken}
use adjudication.Arb.Failures.Payload.{failure_payload-overridden}
use adjudication.Arb.Council.Turn.{Desk, new_turn}
use adjudication.Arb.Council.Tools.{submit_council_vote, cast_vote, vote_accepted}
use adjudication.Arb.Council.Votes.{Voted, submit_council_vote-Voted}
use adjudication.Examples.{
  Files, files_host, plain_engine, plain_engine-AnswersState, run, start_state, seat_one,
  council_opportunity,
}

run_replays : Certified plain_engine run
unfolding replay_certificate_actions accepted state_of get is_true map_any no_fields msg text_eq
run_replays = refl

take_step-keeps_example :
    Certified plain_engine
      (take_step plain_engine (λ e. e) (msg "pass") (msg "plaintiff") empty run).0
unfolding is_empty msg
take_step-keeps_example =
    take_step-Keeps plain_engine plain_engine-AnswersState (λ e. e) (msg "pass") (msg "plaintiff")
      empty refl refl run run_replays

-- A digest that names the last action of a state.
abbrev last_digest : Fields → Result Text Text
last_digest s = ok (map_string (get (msg "last") s))

abbrev certificate : ReplayCertificate
certificate = record {
  schema_version = schema_version;
  procedure = procedure_name;
  engine = msg "engine" ∷ [];
  case_id = msg "case-1";
  run_id = msg "run-1";
  initial_state = some start_state;
  proposition = msg "p";
  council_members = some nil;
  actions = [];
  claimed_final_state = some run.state;
  claimed_final_state_sha256 = map_string (get (msg "last") run.state);
}

verdict : VerifyReplayCertificateResult
verdict = record {
  status = msg "ok";
  case_id = msg "case-1";
  run_id = msg "run-1";
  action_count = 0;
  claimed_final_state_sha256 = map_string (get (msg "last") run.state);
}

verify-replay_certificate_example :
    verify_replay_certificate plain_engine last_digest
      (msg "c.json")
      (msg "s.json")
      (msg "engine" ∷ [])
      (ok certificate)
      (ok run.state)
    ≡ ok verdict
unfolding verdict replay_certificate schema_version is_empty msg
verify-replay_certificate_example =
    verify-replay_certificate plain_engine last_digest run (msg "engine" ∷ []) (msg "c.json")
      (msg "s.json") certificate run_replays refl refl refl refl refl

verify_replay_certificate-Accepted_example : Accepted plain_engine last_digest certificate run.state
verify_replay_certificate-Accepted_example =
    verify_replay_certificate-Accepted plain_engine last_digest (msg "c.json") (msg "s.json")
      (msg "engine" ∷ []) certificate run.state verdict verify-replay_certificate_example

abbrev agent_details : Fields
agent_details =
    field (msg "exit_code") (str (msg "9"))
      (field (msg "reason") (str (msg "deadline_expired")) empty)

fail_opportunity-Certified_example :
    Certified plain_engine
      (fail_opportunity files_host plain_engine council_opportunity
        (msg "agent_exited")
        []
        agent_details
        run).0
fail_opportunity-Certified_example =
    fail_opportunity-Certified files_host plain_engine plain_engine-AnswersState council_opportunity
      (msg "agent_exited") [] agent_details run run_replays

abbrev failed_run : RunContext Files
failed_run =
    (fail_opportunity files_host plain_engine council_opportunity (msg "agent_exited") []
      agent_details run).0

fail_opportunity-Taken_example :
    (is_empty (trim_space (msg "agent_exited")) ≡ false)
    × (mid : RunContext Files) × Taken plain_engine
        (msg "fail_opportunity")
        (msg "system")
        (failure_payload council_opportunity
          (trim_space (msg "agent_exited"))
          (trim_space [])
          agent_details)
        run
        mid
    × (failed_run.state ≡ mid.state)
    × (failed_run.certificate_actions ≡ mid.certificate_actions)
unfolding fail_opportunity is_empty trim_space msg accepted state_of get is_true text_eq is_council
fail_opportunity-Taken_example =
    fail_opportunity-Taken files_host plain_engine council_opportunity (msg "agent_exited") []
      agent_details run failed_run refl

-- The recorded reason is the client's detail, not the reason that was checked.
failure_payload-overridden_example :
    get (msg "reason") (failure_payload council_opportunity (msg "agent_exited") [] agent_details)
    ≡ get (msg "reason") agent_details
unfolding is_empty trim_space is_null get text_eq msg
failure_payload-overridden_example =
    failure_payload-overridden council_opportunity (msg "agent_exited") [] (msg "reason")
      agent_details refl refl

abbrev desk : Desk Files
desk = record { rc = run; turn = new_turn run council_opportunity seat_one; version = 1 }

-- The arguments name another member.
abbrev forged_args : Fields
forged_args = field (msg "member_id") (str (msg "C2")) (
    field (msg "vote") (str (msg "demonstrated"))
      (field (msg "rationale") (str (msg "because")) empty))

submit_council_vote-Voted_example :
    Voted files_host plain_engine forged_args desk
      (submit_council_vote files_host plain_engine forged_args desk).0
unfolding submit_council_vote cast_vote new_turn is_empty trim_space msg accepted state_of get put
    is_true text_eq map_string
submit_council_vote-Voted_example =
    submit_council_vote-Voted files_host plain_engine forged_args desk
      (submit_council_vote files_host plain_engine forged_args desk).0 vote_accepted refl
