-- ===== src/Arb/Council/Turn.antt =====
-- councilapi.go, `councilTurn` and what changes one: its end, its votes and its invalid attempts. The
-- deadline and the prompt are left out; `done` is the channel, which holds one outcome.
use adjudication.Prelude.{
  ℕ, ◌+◌, ◌%◌, ◌^◌, Bool, true, false, Option, none, some, List, [], ◌∷◌, ◌++◌, Result, ok, err,
  length, if◌then◌else◌,
}
use adjudication.Prelude.Int.{ℤ, pos, ltb_ℤ, leb_ℤ, ◌-ℤ◌}
use adjudication.Prelude.Text.{Text, codes, msg, is_empty, trim_space}
use adjudication.Json.{Fields, str, arr, empty, field, put, text_items}
use adjudication.Arb.Context.{RunContext, Opportunity, CouncilSeat}
use adjudication.Arb.Context.Host.{Host, Engine}
use adjudication.Arb.Context.Action.{Action}
use adjudication.Arb.Evidence.Read.{EvidenceReadBudget}
use adjudication.Arb.Failures.{fail_opportunity}
use adjudication.Arb.Council.Feedback.{attempts_remain, format_invalid_attempt_limit_error}

pub record CouncilTurn : Type 0 where
  pub opportunity : Opportunity
  pub seat : CouncilSeat
  pub turn_number : ℕ
  pub attempts_max : ℤ
  pub attempts_remaining : ℤ
  pub invalid_reasons : List Text
  pub evidence_budget : EvidenceReadBudget
  pub completed : Bool
  pub done : Option (Option Text)

-- What a handler works on while it holds the lock: the run, the active turn, and the version that
-- waiting clients watch.
pub record Desk (World : Type 0) : Type 0 where
  pub rc : RunContext World
  pub turn : CouncilTurn
  pub version : ℕ

-- A turn as `executeCouncilAPIOpportunity` sets it up.
unfoldable pub new_turn :
    {World : Type 0} → RunContext World → Opportunity → CouncilSeat → CouncilTurn
new_turn c o seat = record {
  opportunity = o;
  seat = seat;
  turn_number = c.turn;
  attempts_max = c.runtime.invalid_attempt_limit;
  attempts_remaining = c.runtime.invalid_attempt_limit;
  invalid_reasons = [];
  evidence_budget = record { bytes = 0; reads = 0 };
  completed = false;
  done = none;
}

unfoldable pub signal_changed : ℕ → ℕ
signal_changed version = (version + 1) % 2 ^ 64

-- A send that does not block: a full channel keeps what it has.
unfoldable pub send : Option Text → Option (Option Text) → Option (Option Text)
send outcome none = some outcome
send outcome (some sent) = some sent

unfoldable pub details_of : CouncilSeat → Fields
details_of seat =
    field (msg "member_id") (str seat.member_id) (field (msg "model") (str seat.model) empty)

module _ (host : Host) (engine : Engine) where
  unfoldable pub finish_turn : Option Text → Desk host.World → Desk host.World
  unfolding send signal_changed
  finish_turn outcome d = if d.turn.completed then d else record d {
    turn = record d.turn { completed = true; done = send outcome d.turn.done };
    version = signal_changed d.version;
  }

  -- A method of the run, called from a handler.
  unfoldable pub on_run :
      {A : Type 0} → Action host.World A → Desk host.World → Desk host.World × Result Text A
  on_run m d = let (c, r) = m d.rc in (record d { rc = c }, r)

  -- The end of a turn whose member has failed: `failure` is what recording it gave.
  unfoldable pub finish_failed :
      (Text → Text)
      → Desk host.World × Result Text (Unit {0})
      → Desk host.World × Result Text (Unit {0})
  unfolding finish_turn
  finish_failed joined (d, ok u) = (finish_turn none d, ok tt)
  finish_failed joined (d, err e) = (finish_turn (some (joined e)) d, err e)

  unfoldable pub fail_turn :
      (Text → Text)
      → Text
      → Text
      → Fields
      → Desk host.World
      → Desk host.World × Result Text (Unit {0})
  unfolding finish_failed on_run fail_opportunity
  fail_turn joined reason message details d =
      finish_failed joined
        (on_run (fail_opportunity host engine d.turn.opportunity reason message details) d)

  unfoldable pub call_reason : Text → Text
  call_reason reason =
      let given = trim_space reason in if is_empty given then msg "invalid tool call" else given

  -- The turn after an invalid call.
  unfoldable pub counted : Text → CouncilTurn → CouncilTurn
  counted reason turn =
      let remaining = turn.attempts_remaining -ℤ pos 1 in
      record turn {
        attempts_remaining =
            if ltb_ℤ (pos 0) turn.attempts_remaining then remaining else turn.attempts_remaining;
        invalid_reasons = turn.invalid_reasons ++ reason ∷ [];
      }

  unfoldable pub feedback : Text → CouncilTurn → Text
  feedback reason turn =
      if ltb_ℤ (pos 0) turn.attempts_remaining
      then attempts_remain reason (length turn.invalid_reasons) turn.attempts_max
          turn.attempts_remaining
      else format_invalid_attempt_limit_error (codes "council member " ++ turn.seat.member_id)
          turn.invalid_reasons

  unfoldable pub exhausted_details : CouncilTurn → Fields
  unfolding details_of text_items
  exhausted_details turn =
      put (msg "invalid_reasons") (arr (text_items turn.invalid_reasons)) (details_of turn.seat)

  -- `errors.Join(feedback, failErr)`, where recording the failure failed.
  unfoldable pub joined_feedback : Text → Result Text (Unit {0}) → Text
  joined_feedback text (ok u) = text
  joined_feedback text (err e) = text ++ 10 ∷ e

  unfoldable pub exhaust : Text → Desk host.World → Desk host.World × Text
  unfolding fail_turn exhausted_details joined_feedback
  exhaust text d =
      let (e, r) =
        fail_turn (λ e. joined_feedback text (err e)) (msg "attempts_exhausted") text
          (exhausted_details d.turn) d in
      (e, joined_feedback text r)

  unfoldable pub exhaust_if_spent : Text → Desk host.World → Desk host.World × Text
  unfolding exhaust
  exhaust_if_spent text d =
      if leb_ℤ d.turn.attempts_remaining (pos 0) then exhaust text d else (d, text)

  unfoldable pub consume_attempt : Text → Desk host.World → Desk host.World × Text
  unfolding counted feedback exhaust_if_spent call_reason
  consume_attempt reason d =
      let next = counted (call_reason reason) d.turn in
      exhaust_if_spent (feedback (call_reason reason) next) (record d { turn = next })
