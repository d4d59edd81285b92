-- ===== src/Arb/Lawyer/Kept.antt =====
-- lawyerapi.go: what the attorneys' handler and the end of a turn keep.
use adjudication.Prelude.{
  Bool, true, false, not, Option, none, some, Result, ok, err, ◌≡◌, refl, if-both, ◌++◌,
}
use adjudication.Prelude.Int.{pos, leb_ℤ}
use adjudication.Prelude.Text.{Text, codes, msg, text_eq, is_empty}
use adjudication.Json.{Fields, arr, empty, field, text_items}
use adjudication.Arb.Context.{RunContext, Opportunity}
use adjudication.Arb.Context.Host.{Host, Engine}
use adjudication.Arb.Context.Action.{Keeps}
use adjudication.Arb.Failures.{fail_opportunity, step_failure}
use adjudication.Arb.Failures.Record.{IgnoresEvents, fail_opportunity-Keeps}
use adjudication.Arb.Council.Turn.{call_reason, joined_feedback}
use adjudication.Arb.Lawyer.Feedback.{CharLimitPatterns}
use adjudication.Arb.Lawyer.Turn.{
  LawyerTurn, LawyerDesk, finish_lawyer_turn, run_on_desk, end_failed, fail_lawyer_turn,
  consume_lawyer_attempt, exhaust_when_spent, exhaust_lawyer_turn, counted_call, lawyer_feedback,
}
use adjudication.Arb.Lawyer.Server.{
  LawyerApi, LawyerDoRequest, LawyerAnswer, Called, LawyerWake, lawyer_cancelled, lawyer_timer,
  lawyer_finished, lawyer_time_out, lawyer_tool_answer, lawyer_do_on_desk, with_lawyer_turn,
  handle_lawyer_do, is_attorney, lawyer_desk, put_desk_back, after_lawyer_timer, wake_lawyer,
  end_lawyer_turn, clear_lawyer_turn,
}

module _ (host : Host) (engine : Engine) (patterns : CharLimitPatterns)
    (P : RunContext host.World → Type 0) (R : Opportunity → Type 0)
    (ignores : IgnoresEvents host engine P)
    (failures : (payload : Fields) → Keeps P (step_failure host engine payload)) where
  -- Of a desk: the run's property, and the one of the turn's opportunity.
  abbrev pub Sound : LawyerDesk host.World → Type 0
  Sound d = P d.rc × R d.turn.opportunity

  abbrev pub ActiveSound : Option LawyerTurn → Type 0
  ActiveSound none = Unit
  ActiveSound (some turn) = R turn.opportunity

  -- Of a server: the run's property, and the one of the active turn's opportunity.
  abbrev pub SoundApi : LawyerApi host.World → Type 0
  SoundApi api = P api.rc × ActiveSound api.active

  finish_lawyer_turn-Sound :
      (outcome : Option Text) (d : LawyerDesk host.World)
      → Sound d
      → Sound (finish_lawyer_turn outcome d)
  unfolding finish_lawyer_turn
  finish_lawyer_turn-Sound outcome d h = if-both Sound d.turn.completed d _ h h

  end_failed-Sound :
      (joined : Text → Text) (r : LawyerDesk host.World × Result Text (Unit {0}))
      → Sound r.0
      → Sound (end_failed host engine patterns joined r).0
  unfolding end_failed
  end_failed-Sound joined (d, ok u) h = finish_lawyer_turn-Sound none d h
  end_failed-Sound joined (d, err e) h = finish_lawyer_turn-Sound (some (joined e)) d h

  fail_lawyer_turn-Sound :
      (joined : Text → Text) (reason message : Text) (details : Fields) (d : LawyerDesk host.World)
      → Sound d
      → Sound (fail_lawyer_turn host engine patterns joined reason message details d).0
  unfolding fail_lawyer_turn run_on_desk
  fail_lawyer_turn-Sound joined reason message details d (h, r) =
      let failed =
        run_on_desk (fail_opportunity host engine d.turn.opportunity reason message details) d in
      end_failed-Sound joined failed (
        fail_opportunity-Keeps host engine P ignores failures d.turn.opportunity reason message
            details d.rc h,
        r,
      )

  consume_lawyer_attempt-Sound :
      (decision : Bool) (given : Text) (d : LawyerDesk host.World)
      → Sound d
      → Sound (consume_lawyer_attempt host engine patterns decision given d).0
  unfolding consume_lawyer_attempt exhaust_when_spent exhaust_lawyer_turn counted_call
  consume_lawyer_attempt-Sound decision given d h =
      let reason = call_reason host engine given in
      let next : LawyerDesk host.World = record d { turn = counted_call reason d.turn } in
      let text = lawyer_feedback host engine patterns decision reason next in
      let failed =
        fail_lawyer_turn-Sound (λ e. joined_feedback host engine text (err e))
          (msg "attempts_exhausted") text
          (field (msg "invalid_reasons") (arr (text_items next.turn.invalid_reasons)) empty) next
          h in
      if-both (λ (r : LawyerDesk host.World × Text). Sound r.0)
        (leb_ℤ next.turn.attempts_remaining (pos 0)) _ _ failed h

  module _ {A : Type 0} where
    lawyer_tool_answer-Sound :
        (called : Called host.World A)
        → Sound called.0
        → Sound (lawyer_tool_answer host engine patterns called).0
    unfolding lawyer_tool_answer
    lawyer_tool_answer-Sound (d, ok reply, counts, decision) h = h
    lawyer_tool_answer-Sound (d, err e, false, decision) h = h
    lawyer_tool_answer-Sound (d, err e, true, decision) h =
        consume_lawyer_attempt-Sound decision e d h

    module _ (call : Text → Fields → LawyerDesk host.World → Called host.World A)
        (sound : (tool : Text) (args : Fields) (d : LawyerDesk host.World)
          → Sound d
          → Sound (call tool args d).0) where
      lawyer_do_on_desk-Sound :
          (expired : Bool) (req : LawyerDoRequest) (d : LawyerDesk host.World)
          → Sound d
          → Sound (lawyer_do_on_desk host engine patterns call expired req d).0
      unfolding lawyer_do_on_desk lawyer_time_out
      lawyer_do_on_desk-Sound expired req d h =
          let S = λ (r : LawyerDesk host.World × LawyerAnswer A). Sound r.0 in
          let late =
            fail_lawyer_turn-Sound (λ x. x) (msg "deadline_expired")
              (d.turn.opportunity.role ++ codes " lawyer opportunity timed out") empty d h in
          if-both S expired _ _ late (
            if-both S (not (text_eq d.turn.opportunity.role req.role_id)) _ _ h (
              if-both S (is_empty req.opportunity_id) _ _ h (
                if-both S (not (text_eq req.opportunity_id d.turn.opportunity.id)) _ _ h (
                  lawyer_tool_answer-Sound (call req.tool req.arguments d)
                    (sound req.tool req.arguments d h)))))

      with_lawyer_turn-Sound :
          (expired : Bool) (req : LawyerDoRequest) (active : Option LawyerTurn)
          (api : LawyerApi host.World)
          → api.active ≡ active
          → SoundApi api
          → P api.rc
          → ActiveSound active
          → SoundApi
              (with_lawyer_turn host engine patterns
                (lawyer_do_on_desk host engine patterns call expired req)
                active
                api).0
      unfolding with_lawyer_turn put_desk_back lawyer_desk
      with_lawyer_turn-Sound expired req none api same whole h r = whole
      with_lawyer_turn-Sound expired req (some turn) api same whole h r =
          if-both (λ (x : LawyerApi host.World × LawyerAnswer A). SoundApi x.0) turn.completed _ _
            whole (lawyer_do_on_desk-Sound expired req (lawyer_desk api turn) (h, r))

      pub handle_lawyer_do-Sound :
          (status : A) (expired : Bool) (req : LawyerDoRequest) (api : LawyerApi host.World)
          → SoundApi api
          → SoundApi (handle_lawyer_do host engine patterns status call expired req api).0
      unfolding handle_lawyer_do
      handle_lawyer_do-Sound status expired req api (h, r) =
          let S = λ (x : LawyerApi host.World × LawyerAnswer A). SoundApi x.0 in
          if-both S (not (is_attorney req.role_id)) _ _ (h, r)
            (if-both S (text_eq req.tool (msg "case_status")) _ _ (h, r)
              (with_lawyer_turn-Sound expired req api.active api refl (h, r) h r))

  after_lawyer_timer-Sound :
      (r : LawyerDesk host.World × Result Text (Unit {0}))
      → Sound r.0
      → Sound (after_lawyer_timer host engine patterns r).0
  unfolding after_lawyer_timer
  after_lawyer_timer-Sound (d, ok u) h = finish_lawyer_turn-Sound none d h
  after_lawyer_timer-Sound (d, err e) h = finish_lawyer_turn-Sound (some e) d h

  wake_lawyer-Sound :
      (wake : LawyerWake) (d : LawyerDesk host.World)
      → Sound d
      → Sound (wake_lawyer host engine patterns wake d).0
  unfolding wake_lawyer run_on_desk
  wake_lawyer-Sound (lawyer_cancelled e) d h = h
  wake_lawyer-Sound lawyer_timer d (h, r) =
      let text = d.turn.opportunity.role ++ codes " lawyer opportunity timed out" in
      after_lawyer_timer-Sound
        (run_on_desk
          (fail_opportunity host engine d.turn.opportunity (msg "deadline_expired") text empty) d)
        (
          fail_opportunity-Keeps host engine P ignores failures d.turn.opportunity
              (msg "deadline_expired") text empty d.rc h,
          r,
        )
  wake_lawyer-Sound (lawyer_finished none) d h = h
  wake_lawyer-Sound (lawyer_finished (some e)) d h = h

  pub end_lawyer_turn-Keeps :
      (wake : LawyerWake) (turn : LawyerTurn) (api : LawyerApi host.World)
      → P api.rc
      → R turn.opportunity
      → P (end_lawyer_turn host engine patterns wake turn api).0.rc
  unfolding end_lawyer_turn put_desk_back lawyer_desk clear_lawyer_turn
  end_lawyer_turn-Keeps wake turn api h r = (wake_lawyer-Sound wake (lawyer_desk api turn) (h, r)).0
