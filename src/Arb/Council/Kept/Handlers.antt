-- ===== src/Arb/Council/Kept/Handlers.antt =====
-- councilapi.go: what the handlers and the end of a turn keep.
use adjudication.Prelude.{
  Bool, true, false, ◌++◌, Option, none, some, [], Result, ok, err, if-both, Bool-cases, inl, inr,
}
use adjudication.Prelude.Text.{Text, codes, msg, text_eq, is_empty}
use adjudication.Json.{str, put}
use adjudication.Arb.Context.{RunContext}
use adjudication.Arb.Context.Host.{Host, Engine}
use adjudication.Arb.Failures.{fail_opportunity}
use adjudication.Arb.Failures.Record.{fail_opportunity-Keeps}
use adjudication.Arb.Council.Turn.{CouncilTurn, Desk, details_of, finish_turn, on_run}
use adjudication.Arb.Council.Tools.{CouncilReply, call_council_tool}
use adjudication.Arb.Council.Server.{
  CouncilApi, CouncilDoRequest, CouncilFailRequest, do_on_desk, fail_on_desk, Answer, desk_of,
  put_back, time_out, tool_answer, with_turn, handle_council_do, handle_council_fail,
}
use adjudication.Arb.Council.Run.{
  Wake, cancelled, timer, finished, after_removal, remove_council_member, wake_on_desk, end_turn,
}
use adjudication.Arb.Council.Server.{clear_turn}
use adjudication.Arb.Council.Kept.{Stable}
use adjudication.Arb.Council.Kept

module _ (host : Host) (engine : Engine) (P : RunContext host.World → Type 0)
    (stable : Stable host engine P) where
  -- Of a desk with a result.
  abbrev Holds : {A : Type 0} → Desk host.World × A → Type 0
  Holds r = P r.0.rc

  tool_answer-Keeps :
      (r : Desk host.World × Result Text CouncilReply × Bool)
      → P r.0.rc
      → Holds (tool_answer host engine r)
  unfolding tool_answer
  tool_answer-Keeps (d, ok reply, counts) h = h
  tool_answer-Keeps (d, err e, false) h = h
  tool_answer-Keeps (d, err e, true) h = Kept.consume_attempt-Keeps host engine P stable e d h

  do_on_desk-Keeps :
      (expired : Bool) (req : CouncilDoRequest) (d : Desk host.World)
      → P d.rc
      → Holds (do_on_desk host engine expired req d)
  unfolding do_on_desk time_out
  do_on_desk-Keeps expired req d h =
      let late =
        Kept.fail_turn-Keeps host engine P stable (λ x. x) (msg "deadline_expired")
          (codes "council member " ++ (d.turn.seat.member_id ++ codes " opportunity timed out"))
          (details_of d.turn.seat) d h in
      let called =
        tool_answer-Keeps (call_council_tool host engine req.tool req.arguments d)
          (Kept.call_council_tool-Keeps host engine P stable req.tool req.arguments d h) in
      elim (Bool-cases expired) [
        | inl p ↦ rw p late
        | inr p ↦ elim (Bool-cases (text_eq d.turn.seat.member_id req.member_id)) [
          | inr q ↦ rw (p, q) h
          | inl q ↦ elim (Bool-cases (is_empty req.opportunity_id)) [
            | inl r ↦ rw (p, q, r) h
            | inr r ↦ elim (Bool-cases (text_eq req.opportunity_id d.turn.opportunity.id)) [
              | inr s ↦ rw (p, q, r, s) h
              | inl s ↦ rw (p, q, r, s) called
            ]
          ]
        ]
      ]

  fail_on_desk-Keeps :
      (req : CouncilFailRequest) (d : Desk host.World)
      → P d.rc
      → Holds (fail_on_desk host engine req d)
  unfolding fail_on_desk
  fail_on_desk-Keeps req d h =
      let failed =
        Kept.fail_turn-Keeps host engine P stable (λ x. x) req.reason req.message
          (put (msg "model") (str d.turn.seat.model)
            (put (msg "member_id") (str d.turn.seat.member_id) req.details))
          d h in
      elim (Bool-cases (text_eq d.turn.seat.member_id req.member_id)) [
        | inr q ↦ rw q h
        | inl q ↦ elim (Bool-cases (text_eq req.opportunity_id d.turn.opportunity.id)) [
          | inr s ↦ rw (q, s) h
          | inl s ↦ rw (q, s) failed
        ]
      ]

  with_turn-Keeps :
      {A : Type 0} (f : Desk host.World → Desk host.World × Answer A) (active : Option CouncilTurn)
      (api : CouncilApi host.World)
      → ((d : Desk host.World) → P d.rc → Holds (f d))
      → P api.rc
      → P (with_turn host engine f active api).0.rc
  unfolding with_turn put_back desk_of
  with_turn-Keeps {A = A} f none api k h = h
  with_turn-Keeps {A = A} f (some turn) api k h =
      if-both (λ (r : CouncilApi host.World × Answer A). P r.0.rc) turn.completed
        (api, err (msg "no_active_turn", [])) _ h (k (desk_of host engine api turn) h)

  pub handle_council_do-Keeps :
      (expired : Bool) (req : CouncilDoRequest) (api : CouncilApi host.World)
      → P api.rc
      → P (handle_council_do host engine expired req api).0.rc
  unfolding handle_council_do
  handle_council_do-Keeps expired req api h =
      with_turn-Keeps (do_on_desk host engine expired req) api.active api
        (do_on_desk-Keeps expired req) h

  pub handle_council_fail-Keeps :
      (req : CouncilFailRequest) (api : CouncilApi host.World)
      → P api.rc
      → P (handle_council_fail host engine req api).0.rc
  unfolding handle_council_fail
  handle_council_fail-Keeps req api h =
      with_turn-Keeps (fail_on_desk host engine req) api.active api (fail_on_desk-Keeps req) h

  after_removal-Keeps :
      (r : Desk host.World × Result Text (Unit {0})) → Holds r → Holds (after_removal host engine r)
  unfolding after_removal
  after_removal-Keeps (d, ok u) h = h
  after_removal-Keeps (d, err e) h = h

  remove_council_member-Keeps :
      (reason cause : Text) (d : Desk host.World)
      → P d.rc
      → Holds (remove_council_member host engine reason cause d)
  unfolding remove_council_member
  remove_council_member-Keeps reason cause d h =
      let fail =
        fail_opportunity host engine d.turn.opportunity reason cause (details_of d.turn.seat) in
      after_removal-Keeps (on_run host engine fail d) (
        Kept.on_run-Keeps host engine P stable fail
          (fail_opportunity-Keeps host engine P stable.ignores stable.failures d.turn.opportunity
            reason cause (details_of d.turn.seat))
          d h)

  wake_on_desk-Keeps :
      (wake : Wake) (d : Desk host.World) → P d.rc → Holds (wake_on_desk host engine wake d)
  unfolding wake_on_desk
  wake_on_desk-Keeps (cancelled e) d h = h
  wake_on_desk-Keeps timer d h =
      let text =
        codes "council member " ++ (d.turn.seat.member_id ++ codes " opportunity timed out") in
      remove_council_member-Keeps (msg "deadline_expired") text
        (finish_turn host engine (some text) d)
        (Kept.finish_turn-Keeps host engine P stable (some text) d h)
  wake_on_desk-Keeps (finished none) d h = h
  wake_on_desk-Keeps (finished (some e)) d h =
      remove_council_member-Keeps (msg "attempts_exhausted") e d h

  pub end_turn-Keeps :
      (wake : Wake) (turn : CouncilTurn) (api : CouncilApi host.World)
      → P api.rc
      → P (end_turn host engine wake turn api).0.rc
  unfolding end_turn desk_of put_back clear_turn
  end_turn-Keeps wake turn api h = wake_on_desk-Keeps wake (desk_of host engine api turn) h
