-- ===== src/Examples/Council.antt =====
-- A council turn with one invalid call and one vote.
use adjudication.Prelude.{false, none, List, [], ◌∷◌, refl, arith}
use adjudication.Prelude.Text.{Text, msg, text_eq}
use adjudication.Json.{Fields, str, empty, field, get, is_true, map_any, no_fields}
use adjudication.Arb.Policy.{default_runtime_limits}
use adjudication.Arb.Certificate.{accepted, state_of}
use adjudication.Arb.Certificate.Sound.{Certified}
use adjudication.Arb.Certificate.Replay.{replay_certificate_actions}
use adjudication.Arb.Council.Server.{CouncilApi, CouncilDoRequest}
use adjudication.Arb.Council.Session.{Call, start, ask, serve, serve-Certified, serve-ActiveValid}
use adjudication.Arb.Council.Attempts.Bounded.{ActiveValid}
use adjudication.Examples.{
  Files, files_host, plain_engine, plain_engine-AnswersState, run, seat_one, council_opportunity,
}

abbrev idle : CouncilApi Files
idle = record { rc = run; active = none; version = 0; terminal = false; terminal_reason = [] }

abbrev vote_args : Fields
vote_args =
    field (msg "vote") (str (msg "demonstrated"))
      (field (msg "rationale") (str (msg "because")) empty)

abbrev vote_request : Text → CouncilDoRequest
vote_request tool = record {
  member_id = msg "C1";
  opportunity_id = msg "deliberation:1:C1";
  tool = tool;
  arguments = vote_args;
}

abbrev calls : List Call
calls =
    start council_opportunity seat_one
    ∷ ask false (vote_request (msg "submit_vote"))
    ∷ ask false (vote_request (msg "submit_council_vote"))
    ∷ []

run-Certified : Certified plain_engine run
unfolding replay_certificate_actions accepted state_of get is_true map_any no_fields msg text_eq
run-Certified = refl

serve-Certified_example : Certified plain_engine (serve files_host plain_engine calls idle).rc
serve-Certified_example =
    serve-Certified files_host plain_engine plain_engine-AnswersState calls idle run-Certified

serve-ActiveValid_example : ActiveValid (serve files_host plain_engine calls idle).active
unfolding default_runtime_limits
serve-ActiveValid_example = serve-ActiveValid files_host plain_engine calls idle (omega arith) tt
