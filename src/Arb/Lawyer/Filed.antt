-- ===== src/Arb/Lawyer/Filed.antt =====
-- lawyerapi.go, `submitDecisionLocked`: whose decision is filed, and when.
use adjudication.Prelude.{
  true, false, Option, none, Result, ok, err, ◌≡◌, refl, ap, ◌∙◌, arith, if-both, subst,
  guard-passed, >>=-eq-ok, ok-injective,
}
use adjudication.Prelude.Text.{Text, msg}
use adjudication.Json.{Fields}
use adjudication.Arb.Context.{RunContext}
use adjudication.Arb.Context.Host.{Host, Engine}
use adjudication.Arb.Certificate.Step.{take_step, take_step-Taken, Taken}
use adjudication.Arb.Failures.{record_event_at_turn}
use adjudication.Arb.Failures.Record.{record_event_at_turn-Keeps}
use adjudication.Arb.Filings.{attorney_decision, validate_attorney_payload_against_state}
use adjudication.Arb.Council.Turn.{signal_changed}
use adjudication.Arb.Lawyer.Turn.{LawyerDesk, finish_lawyer_turn, run_on_desk}
use adjudication.Arb.Lawyer.Decision.{
  Decided, action_event, checked_decision, after_action_event, after_decision_step, take_decision,
  submit_decision,
}

finish_lawyer_turn-ended :
    {World : Type 0} (outcome : Option Text) (d : LawyerDesk World)
    → (finish_lawyer_turn outcome d).turn.completed ≡ true
unfolding finish_lawyer_turn
finish_lawyer_turn-ended outcome d = ground arith

finish_lawyer_turn-rc :
    {World : Type 0} (outcome : Option Text) (d : LawyerDesk World)
    → (finish_lawyer_turn outcome d).rc ≡ d.rc
unfolding finish_lawyer_turn
finish_lawyer_turn-rc {World = World} outcome d =
    if-both (λ (e : LawyerDesk World). e.rc ≡ d.rc) d.turn.completed d _ refl refl

-- Both checks passed, with this action and payload.
pub checked_decision-ok :
    {World : Type 0} (args : Fields) (d : LawyerDesk World) (action : Text) (payload : Fields)
    → checked_decision args d ≡ ok (action, payload)
    → (attorney_decision d.turn.opportunity args d.rc.file_by_id d.rc.policy ≡ ok (action, payload))
      × (validate_attorney_payload_against_state d.rc.policy d.rc.state d.turn.opportunity action
            payload
          ≡ ok tt)
unfolding checked_decision
checked_decision-ok args d action payload h =
    let (given, p, q) =
      >>=-eq-ok (attorney_decision d.turn.opportunity args d.rc.file_by_id d.rc.policy) _ h in
    let (u, r, s) =
      >>=-eq-ok
        (validate_attorney_payload_against_state d.rc.policy d.rc.state d.turn.opportunity given.0
          given.1)
        _ q in
    let same = ok-injective given (action, payload) s in
    (
      p ∙ ap ok same,
      subst
          (λ x.
            validate_attorney_payload_against_state d.rc.policy d.rc.state d.turn.opportunity x.0
              x.1
            ≡ ok tt)
          same r,
    )

module _ (host : Host) (engine : Engine) where
  -- A decision that stands: it passed the checks in an open turn, the engine took it with the turn's own
  -- role, it is the run's last action as the state is the engine's, and the turn is over.
  pub record Filed (args : Fields) (d e : LawyerDesk host.World) : Type 0 where
    pub action : Text
    pub payload : Fields
    pub was_open : d.turn.completed ≡ false
    pub allowed :
        attorney_decision d.turn.opportunity args d.rc.file_by_id d.rc.policy ≡ ok (action, payload)
    pub fits :
        validate_attorney_payload_against_state d.rc.policy d.rc.state d.turn.opportunity action
          payload
        ≡ ok tt
    pub mid : RunContext host.World
    pub taken : Taken engine action d.turn.opportunity.role payload d.rc mid
    pub same_state : e.rc.state ≡ mid.state
    pub same_log : e.rc.certificate_actions ≡ mid.certificate_actions
    pub ended : e.turn.completed ≡ true

  after_action_event-ok :
      (r : Decided host engine) (e : LawyerDesk host.World)
      → after_action_event host engine r ≡ (e, ok tt)
      → (e.rc ≡ r.0.rc) × (e.turn.completed ≡ true)
  unfolding after_action_event
  after_action_event-ok (d, ok u) e h =
      let same = ap (λ x. x.0) h in
      (
        subst (λ x. x.rc ≡ d.rc) same (finish_lawyer_turn-rc none d),
        subst (λ x. x.turn.completed ≡ true) same (finish_lawyer_turn-ended none d),
      )
  after_action_event-ok (d, err x) e h = ground arith

  after_decision_step-ok :
      (action : Text) (payload : Fields) (r : Decided host engine) (e : LawyerDesk host.World)
      → after_decision_step host engine action payload r ≡ (e, ok tt)
      → (r.1 ≡ ok tt)
        × (e.rc.state ≡ r.0.rc.state)
        × (e.rc.certificate_actions ≡ r.0.rc.certificate_actions)
        × (e.turn.completed ≡ true)
  unfolding after_decision_step run_on_desk
  after_decision_step-ok action payload (d, ok u) e h =
      let logged =
        run_on_desk
          (record_event_at_turn host d.turn.turn_number (msg "attorney_action")
            d.turn.opportunity.role d.turn.opportunity.phase (action_event d.turn action payload))
          (record d { version = signal_changed d.version }) in
      let (same, ended) = after_action_event-ok logged e h in
      let kept =
        record_event_at_turn-Keeps host engine
          (λ c. (c.state ≡ d.rc.state) × (c.certificate_actions ≡ d.rc.certificate_actions))
          (λ c w es k. k) d.turn.turn_number (msg "attorney_action") d.turn.opportunity.role
          d.turn.opportunity.phase (action_event d.turn action payload) d.rc (refl, refl) in
      (refl, ap (λ c. c.state) same ∙ kept.0, ap (λ c. c.certificate_actions) same ∙ kept.1, ended)
  after_decision_step-ok action payload (d, err x) e h = ground arith

  take_decision-Filed :
      (args : Fields) (checked : Result Text (Text × Fields)) (d e : LawyerDesk host.World)
      → checked_decision args d ≡ checked
      → d.turn.completed ≡ false
      → take_decision host engine checked d ≡ (e, ok tt)
      → Filed args d e
  unfolding take_decision run_on_desk
  take_decision-Filed args (err x) d e same running h = ground arith
  take_decision-Filed args (ok (action, payload)) d e same running h =
      let step = take_step engine (λ e. e) action d.turn.opportunity.role payload in
      let (accepted, state, log, ended) =
        after_decision_step-ok action payload (run_on_desk step d) e h in
      let (allowed, fits) = checked_decision-ok args d action payload same in
      record {
        action = action;
        payload = payload;
        was_open = running;
        allowed = allowed;
        fits = fits;
        mid = (step d.rc).0;
        taken =
            take_step-Taken engine (λ e. e) action d.turn.opportunity.role payload d.rc
              (step d.rc).0 (ap (λ r. ((step d.rc).0, r)) accepted);
        same_state = state;
        same_log = log;
        ended = ended;
      }

  -- A decision that is accepted over the attorneys' API was submitted in an open turn, passed the
  -- checks of its action and its payload, and is the engine action that the run logged in the
  -- turn's own role; the state is the engine's and the turn is over.
  pub submit_decision-Filed :
      (args : Fields) (d e : LawyerDesk host.World)
      → submit_decision host engine args d ≡ (e, ok tt)
      → Filed args d e
  unfolding submit_decision
  submit_decision-Filed args d e h =
      let (running, taken) =
        guard-passed d.turn.completed d e (msg "decision already submitted for this opportunity") _
          tt h in
      take_decision-Filed args (checked_decision args d) d e refl running taken
