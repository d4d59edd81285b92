-- ===== src/Arb/Council/Attempts.antt =====
-- councilapi.go, `consumeAttemptLocked` and `finishTurnLocked`: the invalid attempts of a turn, and its
-- one outcome.
pub mod Tools
pub mod Bounded
use adjudication.Prelude.{
  ℕ, ◌+◌, ◌≤◌, ◌<◌, Bool, true, false, not, ◌&&◌, ◌||◌, Option, none, some, List, [], ◌∷◌, ◌++◌,
  Result, ok, err, ◌≡◌, refl, arith, ap, ◌⊎◌, inl, inr, if-both, if◌then◌else◌, Bool-cases, length,
  length-append,
}
use adjudication.Prelude.Int.{ℤ, pos, pos_part, neg_part, ltb_ℤ, leb_ℤ, leb_ℤ→lt, ◌<ℤ◌, ◌≤ℤ◌, ◌-ℤ◌}
use adjudication.Prelude.Text.{Text, codes, msg, text_eq, is_empty}
use adjudication.Json.{Fields, str, get, put, required_int_param}
use adjudication.Json.Print.{map_string}
use adjudication.Arb.Context.{RunContext, EvidenceMeta}
use adjudication.Arb.Context.Host.{Host, Engine}
use adjudication.Arb.Context.Action.{Action}
use adjudication.Arb.Certificate.Step.{take_step}
use adjudication.Arb.Evidence.Registry.{stat_evidence}
use adjudication.Arb.Evidence.Read.{EvidenceReadBudget, EvidenceRange, read_evidence_range}
use adjudication.Arb.Failures.{fail_opportunity, record_event_at_turn}
use adjudication.Arb.Council.Turn.{
  CouncilTurn, Desk, details_of, signal_changed, send, finish_turn, finish_failed, on_run,
  fail_turn, consume_attempt, exhaust_if_spent, exhaust, counted, feedback, call_reason,
  joined_feedback, exhausted_details,
}
use adjudication.Arb.Council.Tools.{
  CouncilReply, case_view, evidence_list, call_council_tool, list_visible_evidence,
  submit_council_vote, cast_vote, vote_payload, vote_event, range_event, after_vote_step,
  after_vote_event, after_range_event, after_read, read_with, stat_reply, failed,
}
use adjudication.Arb.Council.Server.{
  CouncilApi, CouncilDoRequest, CouncilFailRequest, Answer, desk_of, put_back, do_on_desk,
  fail_on_desk, time_out, tool_answer, with_turn, handle_council_do, handle_council_fail,
}

-- The attempts that are left and the invalid calls that are recorded make up the limit.
abbrev pub Counts : CouncilTurn → Type 0
Counts t =
    (neg_part t.attempts_remaining ≡ 0)
    × (pos_part t.attempts_remaining + length t.invalid_reasons ≡ pos_part t.attempts_max)

-- A turn that waits has attempts left, and has sent no outcome.
pub record Open (t : CouncilTurn) : Type 0 where
  pub running : t.completed ≡ false
  pub unsent : t.done ≡ none
  pub spare : pos 0 <ℤ t.attempts_remaining
  pub counts : Counts t

-- A turn that has ended has sent one outcome.
pub record Closed (t : CouncilTurn) : Type 0 where
  pub ended : t.completed ≡ true
  pub outcome : Option Text
  pub sent : t.done ≡ some outcome
  pub counts : Counts t

abbrev pub TurnValid : CouncilTurn → Type 0
TurnValid t = Open t ⊎ Closed t

counted-Counts :
    (reason : Text) (t : CouncilTurn) (host : Host) (engine : Engine)
    → pos 0 <ℤ t.attempts_remaining
    → Counts t
    → Counts (counted host engine reason t)
unfolding counted ◌-ℤ◌
counted-Counts reason t host engine spare h =
    ground (arith, length-append t.invalid_reasons (reason ∷ []))

module _ (host : Host) (engine : Engine) where
  pub finish_turn-Closed :
      (outcome : Option Text) (d : Desk host.World)
      → d.turn.completed ≡ false
      → d.turn.done ≡ none
      → Counts d.turn
      → Closed (finish_turn host engine outcome d).turn
  unfolding finish_turn send
  finish_turn-Closed outcome d h k n =
      rw (h, k) (record { ended = refl; outcome = outcome; sent = refl; counts = n })

  finish_failed-Closed :
      (joined : Text → Text) (r : Desk host.World × Result Text (Unit {0}))
      → r.0.turn.completed ≡ false
      → r.0.turn.done ≡ none
      → Counts r.0.turn
      → Closed (finish_failed host engine joined r).0.turn
  unfolding finish_failed
  finish_failed-Closed joined (d, ok u) h k n = finish_turn-Closed none d h k n
  finish_failed-Closed joined (d, err e) h k n = finish_turn-Closed (some (joined e)) d h k n

  pub fail_turn-Closed :
      (joined : Text → Text) (reason message : Text) (details : Fields) (d : Desk host.World)
      → d.turn.completed ≡ false
      → d.turn.done ≡ none
      → Counts d.turn
      → Closed (fail_turn host engine joined reason message details d).0.turn
  unfolding fail_turn on_run
  fail_turn-Closed joined reason message details d h k n =
      finish_failed-Closed joined
        (on_run host engine (fail_opportunity host engine d.turn.opportunity reason message details)
          d)
        h k n

  exhaust_if_spent-TurnValid :
      (text : Text) (d : Desk host.World)
      → d.turn.completed ≡ false
      → d.turn.done ≡ none
      → Counts d.turn
      → TurnValid (exhaust_if_spent host engine text d).0.turn
  unfolding exhaust_if_spent exhaust
  exhaust_if_spent-TurnValid text d h k n =
      let spent =
        fail_turn-Closed (λ e. joined_feedback host engine text (err e)) (msg "attempts_exhausted")
          text (exhausted_details host engine d.turn) d h k n in
      elim (Bool-cases (leb_ℤ d.turn.attempts_remaining (pos 0))) [
        | inl p ↦ rw p (inr spent)
        | inr p ↦ rw p (
            inl (record {
              running = h;
              unsent = k;
              spare = leb_ℤ→lt d.turn.attempts_remaining (pos 0) p;
              counts = n;
            }))
      ]

  pub consume_attempt-TurnValid :
      (reason : Text) (d : Desk host.World)
      → Open d.turn
      → TurnValid (consume_attempt host engine reason d).0.turn
  unfolding consume_attempt counted
  consume_attempt-TurnValid reason d h =
      let given = call_reason host engine reason in
      let next = counted host engine given d.turn in
      exhaust_if_spent-TurnValid (feedback host engine given next) (record d { turn = next })
        h.running h.unsent (counted-Counts given d.turn host engine h.spare h.counts)
