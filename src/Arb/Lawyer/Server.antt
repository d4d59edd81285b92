-- ===== src/Arb/Lawyer/Server.antt =====
-- lawyerapi.go: the server's state, its turns, and the attorneys' handler, which runs with the lock held;
-- and the run that waits for a turn. Whether the deadline has passed is an argument, and so is the call
-- of a tool: what it makes of the desk, its result, and whether an error counts as an attempt and as a
-- decision. The observer's tools are left out, and so is the length of a timeout in its message.
use adjudication.Prelude.{
  ℕ, Bool, true, false, not, ◌||◌, Option, none, some, [], ◌++◌, Result, ok, err, if◌then◌else◌,
}
use adjudication.Prelude.Text.{Text, codes, msg, text_eq, is_empty, trim_space}
use adjudication.Json.{Fields, empty}
use adjudication.Arb.Context.{RunContext}
use adjudication.Arb.Context.Host.{Host, Engine}
use adjudication.Arb.Failures.{fail_opportunity}
use adjudication.Arb.Council.Turn.{signal_changed}
use adjudication.Arb.Lawyer.Feedback.{CharLimitPatterns}
use adjudication.Arb.Lawyer.Turn.{
  LawyerTurn, LawyerDesk, finish_lawyer_turn, run_on_desk, fail_lawyer_turn, consume_lawyer_attempt,
}

pub record LawyerApi (World : Type 0) : Type 0 where
  pub rc : RunContext World
  pub active : Option LawyerTurn
  pub version : ℕ
  pub terminal : Bool
  pub terminal_reason : Text

-- The case id of a request is an argument of its handler.
pub record LawyerDoRequest : Type 0 where
  pub role_id : Text
  pub opportunity_id : Text
  pub tool : Text
  pub arguments : Fields

-- An error's code, and its message.
abbrev pub LawyerAnswer : Type 0 → Type 0
LawyerAnswer A = Result (Text × Text) A

unfoldable pub is_attorney : Text → Bool
unfolding text_eq
is_attorney role = text_eq role (msg "plaintiff") || text_eq role (msg "defendant")

unfoldable pub is_running : Option LawyerTurn → Bool
is_running none = false
is_running (some turn) = not turn.completed

module _ {World : Type 0} where
  unfoldable pub start_lawyer_turn :
      LawyerTurn → LawyerApi World → LawyerApi World × Result Text (Unit {0})
  unfolding is_running signal_changed
  start_lawyer_turn turn api =
      if is_running api.active
      then (api, err (msg "lawyerapi already has an active turn"))
      else (record api { active = some turn; version = signal_changed api.version }, ok tt)

  -- The turn that is cleared is the active one.
  unfoldable pub clear_lawyer_turn : LawyerApi World → LawyerApi World
  unfolding signal_changed
  clear_lawyer_turn api = record api { active = none; version = signal_changed api.version }

  unfoldable pub set_lawyer_terminal : Text → LawyerApi World → LawyerApi World
  unfolding signal_changed trim_space
  set_lawyer_terminal reason api = record api {
    terminal = true;
    terminal_reason = trim_space reason;
    active = none;
    version = signal_changed api.version;
  }

  unfoldable pub lawyer_desk : LawyerApi World → LawyerTurn → LawyerDesk World
  lawyer_desk api turn = record { rc = api.rc; turn = turn; version = api.version }

  unfoldable pub put_desk_back : LawyerDesk World → LawyerApi World → LawyerApi World
  put_desk_back d api = record api { rc = d.rc; active = some d.turn; version = d.version }

-- What a tool makes of the desk: its result; on an error, whether it counts as an attempt, and
-- whether it was a decision.
abbrev pub Called : Type 0 → Type 0 → Type 0
Called World A = LawyerDesk World × Result Text A × Bool × Bool

-- The branches of the `select`; any that is ready may be taken.
pub data LawyerWake : Type 0 where
  lawyer_cancelled : Text → LawyerWake
  lawyer_timer : LawyerWake
  lawyer_finished : Option Text → LawyerWake

module _ (host : Host) (engine : Engine) (patterns : CharLimitPatterns) where
  lawyer_late : Result Text (Unit {0}) → Text → Text × Text
  lawyer_late (ok u) text = (msg "turn_timeout", text)
  lawyer_late (err e) text = (msg "case_failure_failed", e)

  unfoldable pub lawyer_time_out :
      {A : Type 0} → LawyerDesk host.World → LawyerDesk host.World × LawyerAnswer A
  unfolding fail_lawyer_turn lawyer_late
  lawyer_time_out d =
      let text = d.turn.opportunity.role ++ codes " lawyer opportunity timed out" in
      let (e, r) =
        fail_lawyer_turn host engine patterns (λ x. x) (msg "deadline_expired") text empty d in
      (e, err (lawyer_late r text))

  unfoldable pub lawyer_tool_answer :
      {A : Type 0} → Called host.World A → LawyerDesk host.World × LawyerAnswer A
  unfolding consume_lawyer_attempt
  lawyer_tool_answer (d, ok reply, counts, decision) = (d, ok reply)
  lawyer_tool_answer (d, err e, false, decision) = (d, err (msg "tool_failed", e))
  lawyer_tool_answer (d, err e, true, decision) =
      let (spent, text) = consume_lawyer_attempt host engine patterns decision e d in
      (spent, err (msg "tool_failed", text))

  unfoldable pub lawyer_do_on_desk :
      {A : Type 0}
      → (Text → Fields → LawyerDesk host.World → Called host.World A)
      → Bool
      → LawyerDoRequest
      → LawyerDesk host.World
      → LawyerDesk host.World × LawyerAnswer A
  unfolding lawyer_time_out lawyer_tool_answer
  lawyer_do_on_desk call expired req d =
      if expired
      then lawyer_time_out d
      else if not (text_eq d.turn.opportunity.role req.role_id)
      then (d, err (msg "not_current_turn", d.turn.opportunity.role))
      else if is_empty req.opportunity_id
      then (d, err (msg "missing_opportunity_id", []))
      else if not (text_eq req.opportunity_id d.turn.opportunity.id)
      then (d, err (msg "stale_opportunity", d.turn.opportunity.id))
      else lawyer_tool_answer (call req.tool req.arguments d)

  unfoldable pub with_lawyer_turn :
      {A : Type 0}
      → (LawyerDesk host.World → LawyerDesk host.World × LawyerAnswer A)
      → Option LawyerTurn
      → LawyerApi host.World
      → LawyerApi host.World × LawyerAnswer A
  unfolding put_desk_back lawyer_desk
  with_lawyer_turn f none api = (api, err (msg "no_active_turn", []))
  with_lawyer_turn f (some turn) api =
      let (d, answer) = f (lawyer_desk api turn) in
      if turn.completed
      then (api, err (msg "no_active_turn", []))
      else (put_desk_back d api, answer)

  -- `status` is the reply to a question for the case's status.
  unfoldable pub handle_lawyer_do :
      {A : Type 0}
      → A
      → (Text → Fields → LawyerDesk host.World → Called host.World A)
      → Bool
      → LawyerDoRequest
      → LawyerApi host.World
      → LawyerApi host.World × LawyerAnswer A
  unfolding with_lawyer_turn lawyer_do_on_desk is_attorney
  handle_lawyer_do status call expired req api =
      let handled = with_lawyer_turn (lawyer_do_on_desk call expired req) api.active api in
      if not (is_attorney req.role_id)
      then (api, err (msg "invalid_role", req.role_id))
      else if text_eq req.tool (msg "case_status")
      then (api, ok status)
      else handled

  -- What the failure gave is sent to the turn, and is what the run goes on with.
  unfoldable pub after_lawyer_timer :
      LawyerDesk host.World × Result Text (Unit {0})
      → LawyerDesk host.World × Result Text (Unit {0})
  unfolding finish_lawyer_turn
  after_lawyer_timer (d, ok u) = (finish_lawyer_turn none d, ok tt)
  after_lawyer_timer (d, err e) = (finish_lawyer_turn (some e) d, err e)

  unfoldable pub wake_lawyer :
      LawyerWake → LawyerDesk host.World → LawyerDesk host.World × Result Text (Unit {0})
  unfolding after_lawyer_timer run_on_desk fail_opportunity
  wake_lawyer (lawyer_cancelled e) d = (d, err e)
  wake_lawyer lawyer_timer d = after_lawyer_timer (
      run_on_desk
        (fail_opportunity host engine d.turn.opportunity (msg "deadline_expired")
          (d.turn.opportunity.role ++ codes " lawyer opportunity timed out") empty)
        d)
  wake_lawyer (lawyer_finished none) d = (d, ok tt)
  wake_lawyer (lawyer_finished (some e)) d = (d, err e)

  -- The end of the turn, with the deferred `clearTurn`.
  unfoldable pub end_lawyer_turn :
      LawyerWake → LawyerTurn → LawyerApi host.World → LawyerApi host.World × Result Text (Unit {0})
  unfolding wake_lawyer put_desk_back lawyer_desk clear_lawyer_turn
  end_lawyer_turn wake turn api =
      let (d, r) = wake_lawyer wake (lawyer_desk api turn) in
      (clear_lawyer_turn (put_desk_back d api), r)
