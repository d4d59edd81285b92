-- ===== src/Arb/Lawyer/Decision.antt =====
-- lawyerapi.go, `submitDecisionLocked`. The signal to the council's clients is left out.
use adjudication.Prelude.{none, Result, ok, err, ◌>>=◌, ◌>>◌, if◌then◌else◌}
use adjudication.Prelude.Text.{Text, msg}
use adjudication.Json.{Fields, str, obj, empty, field}
use adjudication.Arb.Context.Host.{Host, Engine}
use adjudication.Arb.Certificate.Step.{take_step}
use adjudication.Arb.Failures.{record_event_at_turn}
use adjudication.Arb.Filings.{attorney_decision, validate_attorney_payload_against_state}
use adjudication.Arb.Council.Turn.{signal_changed}
use adjudication.Arb.Lawyer.Turn.{LawyerTurn, LawyerDesk, finish_lawyer_turn, run_on_desk}

unfoldable pub action_event : LawyerTurn → Text → Fields → Fields
action_event turn action payload =
    field (msg "opportunity_id") (str turn.opportunity.id)
      (field (msg "action_type") (str action) (field (msg "payload") (obj payload) empty))

-- The checks before the engine's: the action and its payload.
unfoldable pub checked_decision :
    {World : Type 0} → Fields → LawyerDesk World → Result Text (Text × Fields)
unfolding attorney_decision validate_attorney_payload_against_state
checked_decision args d = do
  (action, payload) ← attorney_decision d.turn.opportunity args d.rc.file_by_id d.rc.policy
  validate_attorney_payload_against_state d.rc.policy d.rc.state d.turn.opportunity action payload
  ok (action, payload)

module _ (host : Host) (engine : Engine) where
  abbrev pub Decided : Type 0
  Decided = LawyerDesk host.World × Result Text (Unit {0})

  unfoldable pub after_action_event : Decided → Decided
  unfolding finish_lawyer_turn
  after_action_event (d, ok u) = (finish_lawyer_turn none d, ok tt)
  after_action_event (d, err e) = (d, err e)

  -- The lines after a decision that the engine accepted.
  unfoldable pub after_decision_step : Text → Fields → Decided → Decided
  unfolding after_action_event run_on_desk record_event_at_turn signal_changed action_event
  after_decision_step action payload (d, ok u) = after_action_event (
      run_on_desk
        (record_event_at_turn host d.turn.turn_number (msg "attorney_action")
          d.turn.opportunity.role d.turn.opportunity.phase (action_event d.turn action payload))
        (record d { version = signal_changed d.version }))
  after_decision_step action payload (d, err e) = (d, err e)

  unfoldable pub take_decision : Result Text (Text × Fields) → LawyerDesk host.World → Decided
  unfolding after_decision_step run_on_desk take_step
  take_decision (err e) d = (d, err e)
  take_decision (ok (action, payload)) d =
      after_decision_step action payload
        (run_on_desk (take_step engine (λ e. e) action d.turn.opportunity.role payload) d)

  unfoldable pub submit_decision : Fields → LawyerDesk host.World → Decided
  unfolding checked_decision take_decision
  submit_decision args d =
      let decided = take_decision (checked_decision args d) d in
      if d.turn.completed
      then (d, err (msg "decision already submitted for this opportunity"))
      else decided
