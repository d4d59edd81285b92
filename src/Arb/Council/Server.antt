-- ===== src/Arb/Council/Server.antt =====
-- councilapi.go: the server's state, its turns, and its two handlers, each of which runs with the lock
-- held. Whether the deadline has passed is an argument; an answer is a reply, or an error with its
-- code.
use adjudication.Prelude.{
  ℕ, Bool, true, false, not, ◌&&◌, Option, none, some, [], ◌++◌, Result, ok, err, if◌then◌else◌,
}
use adjudication.Prelude.Text.{Text, codes, msg, text_eq, is_empty, trim_space}
use adjudication.Json.{Fields, str, put}
use adjudication.Arb.Context.{RunContext}
use adjudication.Arb.Context.Host.{Host, Engine}
use adjudication.Arb.Council.Turn.{
  CouncilTurn, Desk, fail_turn, consume_attempt, details_of, signal_changed,
}
use adjudication.Arb.Council.Tools.{CouncilReply, call_council_tool}

pub record CouncilApi (World : Type 0) : Type 0 where
  pub rc : RunContext World
  pub active : Option CouncilTurn
  pub version : ℕ
  pub terminal : Bool
  pub terminal_reason : Text

-- The case id of a request is an argument of its handler; `call_id` is not read.
pub record CouncilDoRequest : Type 0 where
  pub member_id : Text
  pub opportunity_id : Text
  pub tool : Text
  pub arguments : Fields

pub record CouncilFailRequest : Type 0 where
  pub member_id : Text
  pub opportunity_id : Text
  pub reason : Text
  pub message : Text
  pub details : Fields

-- An error's code, and its message.
abbrev pub Answer : Type 0 → Type 0
Answer A = Result (Text × Text) A

module _ (host : Host) (engine : Engine) where
  abbrev pub Api : Type 0
  Api = CouncilApi host.World

  unfoldable pub is_open : Option CouncilTurn → Bool
  is_open none = false
  is_open (some turn) = not turn.completed

  unfoldable pub start_turn : CouncilTurn → Api → Api × Result Text (Unit {0})
  unfolding is_open signal_changed
  start_turn turn api =
      if is_open api.active
      then (api, err (msg "councilapi already has an active turn"))
      else (record api { active = some turn; version = signal_changed api.version }, ok tt)

  -- The turn that is cleared is the active one.
  unfoldable pub clear_turn : Api → Api
  unfolding signal_changed
  clear_turn api = record api { active = none; version = signal_changed api.version }

  unfoldable pub set_terminal : Text → Api → Api
  unfolding signal_changed trim_space
  set_terminal reason api = record api {
    terminal = true;
    terminal_reason = trim_space reason;
    active = none;
    version = signal_changed api.version;
  }

  unfoldable pub desk_of : Api → CouncilTurn → Desk host.World
  desk_of api turn = record { rc = api.rc; turn = turn; version = api.version }

  unfoldable pub put_back : Desk host.World → Api → Api
  put_back d api = record api { rc = d.rc; active = some d.turn; version = d.version }

  -- The answer where a member's failure was to be recorded.
  unfoldable pub failure_answer : {A : Type 0} → Answer A → Result Text (Unit {0}) → Answer A
  failure_answer answer (ok u) = answer
  failure_answer answer (err e) = err (msg "member_failure_failed", e)

  unfoldable pub time_out : Desk host.World → Desk host.World × Answer CouncilReply
  unfolding fail_turn failure_answer details_of
  time_out d =
      let text =
        codes "council member " ++ (d.turn.seat.member_id ++ codes " opportunity timed out") in
      let (e, r) =
        fail_turn host engine (λ x. x) (msg "deadline_expired") text (details_of d.turn.seat) d in
      (e, failure_answer (err (msg "turn_timeout", text)) r)

  unfoldable pub tool_answer :
      Desk host.World × Result Text CouncilReply × Bool → Desk host.World × Answer CouncilReply
  unfolding consume_attempt
  tool_answer (d, ok reply, counts) = (d, ok reply)
  tool_answer (d, err e, false) = (d, err (msg "tool_failed", e))
  tool_answer (d, err e, true) =
      let (spent, text) = consume_attempt host engine e d in (spent, err (msg "tool_failed", text))

  unfoldable pub do_on_desk :
      Bool → CouncilDoRequest → Desk host.World → Desk host.World × Answer CouncilReply
  unfolding time_out tool_answer call_council_tool
  do_on_desk expired req d =
      if expired
      then time_out d
      else if not (text_eq d.turn.seat.member_id req.member_id)
      then (d, err (msg "not_current_turn", d.turn.seat.member_id))
      else if is_empty req.opportunity_id
      then (d, err (msg "missing_opportunity_id", []))
      else if not (text_eq req.opportunity_id d.turn.opportunity.id)
      then (d, err (msg "stale_opportunity", d.turn.opportunity.id))
      else tool_answer (call_council_tool host engine req.tool req.arguments d)

  unfoldable pub fail_on_desk :
      CouncilFailRequest → Desk host.World → Desk host.World × Answer (Unit {0})
  unfolding fail_turn failure_answer
  fail_on_desk req d =
      let details =
        put (msg "model") (str d.turn.seat.model)
          (put (msg "member_id") (str d.turn.seat.member_id) req.details) in
      let (e, r) = fail_turn host engine (λ x. x) req.reason req.message details d in
      if not (text_eq d.turn.seat.member_id req.member_id)
      then (d, err (msg "not_current_turn", d.turn.seat.member_id))
      else if not (text_eq req.opportunity_id d.turn.opportunity.id)
      then (d, err (msg "stale_opportunity", d.turn.opportunity.id))
      else (e, failure_answer (ok tt) r)

  -- A handler, for the active turn.
  unfoldable pub with_turn :
      {A : Type 0}
      → (Desk host.World → Desk host.World × Answer A)
      → Option CouncilTurn
      → Api
      → Api × Answer A
  unfolding put_back desk_of
  with_turn f none api = (api, err (msg "no_active_turn", []))
  with_turn f (some turn) api =
      let (d, answer) = f (desk_of api turn) in
      if turn.completed then (api, err (msg "no_active_turn", [])) else (put_back d api, answer)

  unfoldable pub handle_council_do : Bool → CouncilDoRequest → Api → Api × Answer CouncilReply
  unfolding with_turn do_on_desk
  handle_council_do expired req api = with_turn (do_on_desk expired req) api.active api

  unfoldable pub handle_council_fail : CouncilFailRequest → Api → Api × Answer (Unit {0})
  unfolding with_turn fail_on_desk
  handle_council_fail req api = with_turn (fail_on_desk req) api.active api

  -- `handleFail`: the defaults and checks of a decoded request.
  unfoldable pub handle_fail : Text → Text → CouncilFailRequest → Api → Api × Answer (Unit {0})
  unfolding handle_council_fail text_eq is_empty trim_space
  handle_fail own_case_id case_id req api =
      let given = trim_space req.reason in
      let reason = if is_empty given then codes "agent_exited" else given in
      let trimmed : CouncilFailRequest = record {
        member_id = trim_space req.member_id;
        opportunity_id = trim_space req.opportunity_id;
        reason = reason;
        message = trim_space req.message;
        details = req.details;
      } in
      let handled = handle_council_fail trimmed api in
      if is_empty (trim_space case_id)
      then (api, err (msg "missing_case_id", []))
      else if not (text_eq (trim_space case_id) own_case_id)
      then (api, err (msg "case_mismatch", []))
      else if is_empty trimmed.member_id
      then (api, err (msg "missing_member_id", []))
      else if is_empty trimmed.opportunity_id
      then (api, err (msg "missing_opportunity_id", []))
      else if not (text_eq reason (codes "agent_exited"))
          && not (text_eq reason (codes "agent_output_limit_exceeded"))
      then (api, err (msg "invalid_reason", []))
      else handled

  -- `handleDo`: the checks of a decoded request. Arguments that are missing are the empty map.
  unfoldable pub handle_do : Text → Text → Bool → CouncilDoRequest → Api → Api × Answer CouncilReply
  unfolding handle_council_do text_eq is_empty trim_space
  handle_do own_case_id case_id expired req api =
      let trimmed : CouncilDoRequest = record {
        member_id = trim_space req.member_id;
        opportunity_id = trim_space req.opportunity_id;
        tool = trim_space req.tool;
        arguments = req.arguments;
      } in
      let handled = handle_council_do expired trimmed api in
      if is_empty (trim_space case_id)
      then (api, err (msg "missing_case_id", []))
      else if not (text_eq (trim_space case_id) own_case_id)
      then (api, err (msg "case_mismatch", []))
      else if is_empty trimmed.member_id
      then (api, err (msg "missing_member_id", []))
      else if is_empty trimmed.tool
      then (api, err (msg "missing_tool", []))
      else handled
