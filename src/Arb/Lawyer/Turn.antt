-- ===== src/Arb/Lawyer/Turn.antt =====
-- lawyerapi.go, `lawyerTurn` and what changes one: its end, and its invalid attempts. The deadline and
-- the prompt are left out; `done` is the channel, which holds one outcome.
use adjudication.Prelude.{
  ℕ, Bool, true, false, Option, none, some, List, [], ◌∷◌, ◌++◌, Result, ok, err, length,
  if◌then◌else◌,
}
use adjudication.Prelude.Int.{ℤ, pos, ltb_ℤ, leb_ℤ, ◌-ℤ◌}
use adjudication.Prelude.Text.{Text, codes, msg}
use adjudication.Json.{Fields, arr, empty, field, text_items}
use adjudication.Arb.Context.{RunContext, Opportunity}
use adjudication.Arb.Context.Host.{Host, Engine}
use adjudication.Arb.Context.Action.{Action}
use adjudication.Arb.Evidence.Read.{EvidenceReadBudget}
use adjudication.Arb.Failures.{fail_opportunity}
use adjudication.Arb.Council.Feedback.{attempts_remain, format_invalid_attempt_limit_error}
use adjudication.Arb.Council.Turn.{send, signal_changed, call_reason, joined_feedback}
use adjudication.Arb.Lawyer.Feedback.{CharLimitPatterns, format_attorney_invalid_decision_error}

pub record LawyerTurn : Type 0 where
  pub opportunity : Opportunity
  pub turn_number : ℕ
  pub attempts_max : ℤ
  pub attempts_remaining : ℤ
  pub invalid_reasons : List Text
  pub evidence_budget : EvidenceReadBudget
  pub completed : Bool
  pub done : Option (Option Text)

-- What a handler works on while it holds the lock.
pub record LawyerDesk (World : Type 0) : Type 0 where
  pub rc : RunContext World
  pub turn : LawyerTurn
  pub version : ℕ

-- A turn as `executeAttorneyOpportunity` sets it up.
unfoldable pub new_lawyer_turn : {World : Type 0} → RunContext World → Opportunity → LawyerTurn
new_lawyer_turn c o = record {
  opportunity = o;
  turn_number = c.turn;
  attempts_max = c.runtime.invalid_attempt_limit;
  attempts_remaining = c.runtime.invalid_attempt_limit;
  invalid_reasons = [];
  evidence_budget = record { bytes = 0; reads = 0 };
  completed = false;
  done = none;
}

unfoldable pub finish_lawyer_turn :
    {World : Type 0} → Option Text → LawyerDesk World → LawyerDesk World
unfolding send signal_changed
finish_lawyer_turn outcome d = if d.turn.completed then d else record d {
  turn = record d.turn { completed = true; done = send outcome d.turn.done };
  version = signal_changed d.version;
}

-- A method of the run, called from a handler.
unfoldable pub run_on_desk :
    {World A : Type 0} → Action World A → LawyerDesk World → LawyerDesk World × Result Text A
run_on_desk m d = let (c, r) = m d.rc in (record d { rc = c }, r)

-- The turn after an invalid call.
unfoldable pub counted_call : Text → LawyerTurn → LawyerTurn
counted_call reason turn = record turn {
  attempts_remaining =
      if ltb_ℤ (pos 0) turn.attempts_remaining
      then turn.attempts_remaining -ℤ pos 1
      else turn.attempts_remaining;
  invalid_reasons = turn.invalid_reasons ++ reason ∷ [];
}

module _ (host : Host) (engine : Engine) (patterns : CharLimitPatterns) where
  -- The end of a turn whose failure was to be recorded: `failure` is what that gave.
  unfoldable pub end_failed :
      (Text → Text)
      → LawyerDesk host.World × Result Text (Unit {0})
      → LawyerDesk host.World × Result Text (Unit {0})
  unfolding finish_lawyer_turn
  end_failed joined (d, ok u) = (finish_lawyer_turn none d, ok tt)
  end_failed joined (d, err e) = (finish_lawyer_turn (some (joined e)) d, err e)

  unfoldable pub fail_lawyer_turn :
      (Text → Text)
      → Text
      → Text
      → Fields
      → LawyerDesk host.World
      → LawyerDesk host.World × Result Text (Unit {0})
  unfolding end_failed run_on_desk fail_opportunity
  fail_lawyer_turn joined reason message details d =
      end_failed joined
        (run_on_desk (fail_opportunity host engine d.turn.opportunity reason message details) d)

  -- `decision` tells whether the call was a decision; the turn has counted it.
  unfoldable pub lawyer_feedback : Bool → Text → LawyerDesk host.World → Text
  unfolding attempts_remain format_attorney_invalid_decision_error
      format_invalid_attempt_limit_error
  lawyer_feedback decision reason d =
      if decision
      then format_attorney_invalid_decision_error patterns d.turn.opportunity d.rc.policy
          d.turn.invalid_reasons d.turn.attempts_max
      else if ltb_ℤ (pos 0) d.turn.attempts_remaining
      then attempts_remain reason (length d.turn.invalid_reasons) d.turn.attempts_max
          d.turn.attempts_remaining
      else format_invalid_attempt_limit_error (d.turn.opportunity.role ++ codes " lawyer turn")
          d.turn.invalid_reasons

  unfoldable pub exhaust_lawyer_turn : Text → LawyerDesk host.World → LawyerDesk host.World × Text
  unfolding fail_lawyer_turn joined_feedback text_items
  exhaust_lawyer_turn text d =
      let (e, r) =
        fail_lawyer_turn (λ e. joined_feedback host engine text (err e)) (msg "attempts_exhausted")
          text (field (msg "invalid_reasons") (arr (text_items d.turn.invalid_reasons)) empty) d in
      (e, joined_feedback host engine text r)

  unfoldable pub exhaust_when_spent : Text → LawyerDesk host.World → LawyerDesk host.World × Text
  unfolding exhaust_lawyer_turn
  exhaust_when_spent text d =
      if leb_ℤ d.turn.attempts_remaining (pos 0) then exhaust_lawyer_turn text d else (d, text)

  unfoldable pub consume_lawyer_attempt :
      Bool → Text → LawyerDesk host.World → LawyerDesk host.World × Text
  unfolding counted_call lawyer_feedback exhaust_when_spent call_reason
  consume_lawyer_attempt decision given d =
      let reason = call_reason host engine given in
      let next : LawyerDesk host.World = record d { turn = counted_call reason d.turn } in
      exhaust_when_spent (lawyer_feedback decision reason next) next
