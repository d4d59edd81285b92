-- ===== src/Arb/Lawyer/Right.antt =====
-- lawyerapi.go: attorneys' tools keep the log of actions in step with the state, and the turn's role.
use adjudication.Prelude.{
  false, not, Option, none, [], ◌∷◌, Result, ok, err, ◌≡◌, refl, arith, if-both,
}
use adjudication.Prelude.Int.{ℤ}
use adjudication.Arb.Evidence.Read.{EvidenceReadBudget, EvidenceRange}
use adjudication.Prelude.Text.{Text, msg, text_eq, is_empty}
use adjudication.Json.{Fields}
use adjudication.Arb.Context.{EvidenceMeta, Opportunity}
use adjudication.Arb.Context.Host.{Host, Engine}
use adjudication.Arb.Certificate.Step.{take_step}
use adjudication.Arb.Certificate.Replay.{AnswersState}
use adjudication.Arb.Certificate.Sound.{Certified, take_step-Keeps}
use adjudication.Arb.Failures.{record_event_at_turn}
use adjudication.Arb.Failures.Record.{record_event_at_turn-Keeps}
use adjudication.Arb.Filings.Limits.{attorney_decision-is_empty}
use adjudication.Arb.Council.Turn.{signal_changed}
use adjudication.Arb.Lawyer.Feedback.{CharLimitPatterns}
use adjudication.Arb.Lawyer.Turn.{LawyerDesk, finish_lawyer_turn, run_on_desk}
use adjudication.Arb.Lawyer.Decision.{
  Decided, action_event, checked_decision, after_action_event, after_decision_step, take_decision,
  submit_decision,
}
use adjudication.Arb.Lawyer.Filed.{checked_decision-ok}
use adjudication.Arb.Lawyer.Server.{Called, is_attorney}
use adjudication.Arb.Lawyer.Reading.{
  LawyerReply, lawyer_range_event, lawyer_stat, after_lawyer_event, after_lawyer_read, lawyer_read,
  while_reading, reading_tool, evidence_read_allowed,
}
use adjudication.Arb.Lawyer.Session.{decision_reply, call_lawyer_tool}

-- The role of a turn has a name.
abbrev pub Named : Opportunity → Type 0
Named o = is_empty o.role ≡ false

pub is_attorney-is_empty : (role : Text) → not (is_attorney role) ≡ false → is_empty role ≡ false
unfolding is_attorney text_eq is_empty msg
is_attorney-is_empty [] h = ground arith
is_attorney-is_empty (a ∷ role) h = refl

module _ (host : Host) (engine : Engine) (legal : AnswersState engine) where
  abbrev pub Right : LawyerDesk host.World → Type 0
  Right d = Certified engine d.rc × Named d.turn.opportunity

  finish_lawyer_turn-Right :
      (outcome : Option Text) (d : LawyerDesk host.World)
      → Right d
      → Right (finish_lawyer_turn outcome d)
  unfolding finish_lawyer_turn
  finish_lawyer_turn-Right outcome d h = if-both Right d.turn.completed d _ h h

  after_action_event-Right :
      (r : Decided host engine) → Right r.0 → Right (after_action_event host engine r).0
  unfolding after_action_event
  after_action_event-Right (d, ok u) h = finish_lawyer_turn-Right none d h
  after_action_event-Right (d, err e) h = h

  after_decision_step-Right :
      (action : Text) (payload : Fields) (r : Decided host engine)
      → Right r.0
      → Right (after_decision_step host engine action payload r).0
  unfolding after_decision_step run_on_desk
  after_decision_step-Right action payload (d, ok u) (h, named) =
      let logged =
        run_on_desk
          (record_event_at_turn host d.turn.turn_number (msg "attorney_action")
            d.turn.opportunity.role d.turn.opportunity.phase (action_event d.turn action payload))
          (record d { version = signal_changed d.version }) in
      after_action_event-Right logged (
        record_event_at_turn-Keeps host engine (Certified engine) (λ c w events k. k)
            d.turn.turn_number (msg "attorney_action") d.turn.opportunity.role
            d.turn.opportunity.phase (action_event d.turn action payload) d.rc h,
        named,
      )
  after_decision_step-Right action payload (d, err e) h = h

  take_decision-Right :
      (args : Fields) (checked : Result Text (Text × Fields)) (d : LawyerDesk host.World)
      → checked_decision args d ≡ checked
      → Right d
      → Right (take_decision host engine checked d).0
  unfolding take_decision run_on_desk
  take_decision-Right args (err e) d same h = h
  take_decision-Right args (ok (action, payload)) d same (h, named) =
      let allowed = (checked_decision-ok args d action payload same).0 in
      after_decision_step-Right action payload
        (run_on_desk (take_step engine (λ e. e) action d.turn.opportunity.role payload) d)
        (
          take_step-Keeps engine legal (λ e. e) action d.turn.opportunity.role payload
              (attorney_decision-is_empty d.turn.opportunity args d.rc.file_by_id d.rc.policy action
                payload allowed)
              named d.rc h,
          named,
        )

  submit_decision-Right :
      (args : Fields) (d : LawyerDesk host.World)
      → Right d
      → Right (submit_decision host engine args d).0
  unfolding submit_decision
  submit_decision-Right args d h =
      if-both (λ (r : Decided host engine). Right r.0) d.turn.completed _ _ h
        (take_decision-Right args (checked_decision args d) d refl h)

  module _ (patterns : CharLimitPatterns) {A : Type 0} (status : A)
      (other : Text → Fields → LawyerDesk host.World → Called host.World (LawyerReply A))
      (other_right : (tool : Text) (args : Fields) (d : LawyerDesk host.World)
        → Right d
        → Right (other tool args d).0) where
    decision_reply-Right :
        (r : Decided host engine)
        → Right r.0
        → Right (decision_reply host engine patterns {A = A} r).0
    unfolding decision_reply
    decision_reply-Right (d, ok u) h = h
    decision_reply-Right (d, err e) h = h

    after_lawyer_event-Right :
        (r : EvidenceRange) (x : LawyerDesk host.World × Result Text (Unit {0}))
        → Right x.0
        → Right (after_lawyer_event host A r x).0
    unfolding after_lawyer_event
    after_lawyer_event-Right r (d, ok u) h = h
    after_lawyer_event-Right r (d, err e) h = h

    after_lawyer_read-Right :
        (d : LawyerDesk host.World) (x : EvidenceReadBudget × Result Text EvidenceRange)
        → Right d
        → Right (after_lawyer_read host A d x).0
    unfolding after_lawyer_read run_on_desk
    after_lawyer_read-Right d (budget, ok r) (h, named) =
        let logged =
          run_on_desk
            (record_event_at_turn host d.turn.turn_number (msg "evidence_read")
              d.turn.opportunity.role d.turn.opportunity.phase (lawyer_range_event r))
            (record d { turn = record d.turn { evidence_budget = budget } }) in
        after_lawyer_event-Right r logged (
          record_event_at_turn-Keeps host engine (Certified engine) (λ c w events k. k)
              d.turn.turn_number (msg "evidence_read") d.turn.opportunity.role
              d.turn.opportunity.phase (lawyer_range_event r) d.rc h,
          named,
        )
    after_lawyer_read-Right d (budget, err e) h = h

    lawyer_read-Right :
        (args : Fields) (d : LawyerDesk host.World) (offset len : Result Text ℤ)
        → Right d
        → Right (lawyer_read host A args d offset len).0
    unfolding lawyer_read
    lawyer_read-Right args d (ok offset) (ok len) h = after_lawyer_read-Right d _ h
    lawyer_read-Right args d (ok offset) (err e) h = h
    lawyer_read-Right args d (err e) len h = h

    lawyer_stat-Right :
        (d : LawyerDesk host.World) (x : Result Text EvidenceMeta)
        → Right d
        → Right (lawyer_stat host A d x).0
    unfolding lawyer_stat
    lawyer_stat-Right d (ok meta) h = h
    lawyer_stat-Right d (err e) h = h

    while_reading-Right :
        (d : LawyerDesk host.World) (reply : Called host.World (LawyerReply A))
        → Right d
        → Right reply.0
        → Right (while_reading host A d reply).0
    unfolding while_reading
    while_reading-Right d reply h k =
        if-both (λ (r : Called host.World (LawyerReply A)). Right r.0)
          (evidence_read_allowed d.turn.opportunity) _ _ k h

    reading_tool-Right :
        (tool : Text) (args : Fields) (d : LawyerDesk host.World)
        → Right d
        → Right (reading_tool host A other tool args d).0
    unfolding reading_tool
    reading_tool-Right tool args d h =
        let S = λ (r : Called host.World (LawyerReply A)). Right r.0 in
        if-both S (text_eq tool (msg "list_evidence")) _ _ (while_reading-Right d _ h h) (
          if-both S (text_eq tool (msg "stat_evidence")) _ _
            (while_reading-Right d _ h (lawyer_stat-Right d _ h))
            (if-both S (text_eq tool (msg "read_evidence_range")) _ _
              (while_reading-Right d _ h (lawyer_read-Right args d _ _ h))
              (other_right tool args d h)))

    pub call_lawyer_tool-Right :
        (tool : Text) (args : Fields) (d : LawyerDesk host.World)
        → Right d
        → Right (call_lawyer_tool host engine patterns other tool args d).0
    unfolding call_lawyer_tool
    call_lawyer_tool-Right tool args d h =
        if-both (λ (r : Called host.World (LawyerReply A)). Right r.0)
          (text_eq tool (msg "submit_decision")) _ _
          (decision_reply-Right (submit_decision host engine args d)
            (submit_decision-Right args d h))
          (reading_tool-Right tool args d h)
