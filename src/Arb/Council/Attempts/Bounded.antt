-- ===== src/Arb/Council/Attempts/Bounded.antt =====
-- councilapi.go: the bound on invalid attempts, over the two handlers.
use adjudication.Prelude.{
  ◌≤◌, Bool, true, false, not, Option, none, some, [], ◌++◌, Result, ok, err, ◌≡◌, refl, arith, inl,
  inr, if-both, length,
}
use adjudication.Prelude.Int.{ℤ, pos, negsuc, pos_part, neg_part, ◌<ℤ◌}
use adjudication.Prelude.Text.{Text, codes, msg, text_eq, is_empty}
use adjudication.Json.{str, put}
use adjudication.Arb.Context.{RunContext, Opportunity, CouncilSeat}
use adjudication.Arb.Context.Host.{Host, Engine}
use adjudication.Arb.Council.Turn.{CouncilTurn, Desk, details_of}
use adjudication.Arb.Council.Tools.{CouncilReply, call_council_tool}
use adjudication.Arb.Council.Server.{
  CouncilApi, CouncilDoRequest, CouncilFailRequest, Answer, desk_of, put_back, do_on_desk,
  fail_on_desk, time_out, tool_answer, with_turn, handle_council_do, handle_council_fail,
}
use adjudication.Arb.Council.Turn.{new_turn}
use adjudication.Arb.Council.Attempts
use adjudication.Arb.Council.Attempts.{Open, Closed, Counts, TurnValid}
use adjudication.Arb.Council.Attempts.Tools.{Called, call_council_tool-Called}

-- The active turn, if there is one, is valid.
abbrev pub ActiveValid : Option CouncilTurn → Type 0
ActiveValid none = Unit {0}
ActiveValid (some turn) = TurnValid turn

-- No more invalid calls than the limit are recorded for a valid turn.
pub TurnValid-bounded :
    (t : CouncilTurn) → TurnValid t → length t.invalid_reasons ≤ pos_part t.attempts_max
TurnValid-bounded t (inl h) = let (p, q) = h.counts in omega (arith, p, q)
TurnValid-bounded t (inr h) = let (p, q) = h.counts in omega (arith, p, q)

positive : (z : ℤ) → pos 0 <ℤ z → neg_part z ≡ 0
positive (pos n) h = refl
positive (negsuc n) h = omega (arith, h)

module _ (host : Host) (engine : Engine) where
  tool_answer-TurnValid :
      (r : Desk host.World × Result Text CouncilReply × Bool)
      → Called host engine r
      → TurnValid (tool_answer host engine r).0.turn
  unfolding tool_answer
  tool_answer-TurnValid (d, ok reply, counts) h = h
  tool_answer-TurnValid (d, err e, false) h = inl h
  tool_answer-TurnValid (d, err e, true) h = Attempts.consume_attempt-TurnValid host engine e d h

  do_on_desk-TurnValid :
      (expired : Bool) (req : CouncilDoRequest) (d : Desk host.World)
      → Open d.turn
      → TurnValid (do_on_desk host engine expired req d).0.turn
  unfolding do_on_desk time_out
  do_on_desk-TurnValid expired req d h =
      let text =
        codes "council member " ++ (d.turn.seat.member_id ++ codes " opportunity timed out") in
      let late =
        Attempts.fail_turn-Closed host engine (λ x. x) (msg "deadline_expired") text
          (details_of d.turn.seat) d h.running h.unsent h.counts in
      let called =
        tool_answer-TurnValid (call_council_tool host engine req.tool req.arguments d)
          (call_council_tool-Called host engine req.tool req.arguments d h) in
      let Valid = λ (r : Desk host.World × Answer CouncilReply). TurnValid r.0.turn in
      if-both Valid expired (time_out host engine d) _ (inr late) (
        if-both Valid (not (text_eq d.turn.seat.member_id req.member_id))
          (d, err (msg "not_current_turn", d.turn.seat.member_id)) _ (inl h)
          (if-both Valid (is_empty req.opportunity_id) (d, err (msg "missing_opportunity_id", [])) _
            (inl h)
            (if-both Valid (not (text_eq req.opportunity_id d.turn.opportunity.id))
              (d, err (msg "stale_opportunity", d.turn.opportunity.id)) _ (inl h) called)))

  fail_on_desk-TurnValid :
      (req : CouncilFailRequest) (d : Desk host.World)
      → Open d.turn
      → TurnValid (fail_on_desk host engine req d).0.turn
  unfolding fail_on_desk
  fail_on_desk-TurnValid req d h =
      let details =
        put (msg "model") (str d.turn.seat.model)
          (put (msg "member_id") (str d.turn.seat.member_id) req.details) in
      let failed =
        Attempts.fail_turn-Closed host engine (λ x. x) req.reason req.message details d h.running
          h.unsent h.counts in
      let Valid = λ (r : Desk host.World × Answer (Unit {0})). TurnValid r.0.turn in
      if-both Valid (not (text_eq d.turn.seat.member_id req.member_id))
        (d, err (msg "not_current_turn", d.turn.seat.member_id)) _ (inl h)
        (if-both Valid (not (text_eq req.opportunity_id d.turn.opportunity.id))
          (d, err (msg "stale_opportunity", d.turn.opportunity.id)) _ (inl h) (inr failed))

  with_turn-ActiveValid :
      {A : Type 0} (f : Desk host.World → Desk host.World × Answer A) (active : Option CouncilTurn)
      (api : CouncilApi host.World)
      → ((d : Desk host.World) → Open d.turn → TurnValid (f d).0.turn)
      → api.active ≡ active
      → ActiveValid active
      → ActiveValid (with_turn host engine f active api).0.active
  unfolding with_turn put_back desk_of
  with_turn-ActiveValid f none api k e h = rw e h
  with_turn-ActiveValid f (some turn) api k e (inr h) = rw (h.ended, e) (inr h)
  with_turn-ActiveValid {A = A} f (some turn) api k e (inl h) =
      if-both (λ (r : CouncilApi host.World × Answer A). ActiveValid r.0.active) turn.completed
        (api, err (msg "no_active_turn", [])) _ (rw e (inl h)) (k (desk_of host engine api turn) h)

  -- Whatever a client asks, the active turn stays valid: it waits with attempts left and nothing
  -- sent, or it has ended and sent one outcome.
  pub handle_council_do-ActiveValid :
      (expired : Bool) (req : CouncilDoRequest) (api : CouncilApi host.World)
      → ActiveValid api.active
      → ActiveValid (handle_council_do host engine expired req api).0.active
  unfolding handle_council_do
  handle_council_do-ActiveValid expired req api h =
      with_turn-ActiveValid (do_on_desk host engine expired req) api.active api
        (do_on_desk-TurnValid expired req) refl h

  pub handle_council_fail-ActiveValid :
      (req : CouncilFailRequest) (api : CouncilApi host.World)
      → ActiveValid api.active
      → ActiveValid (handle_council_fail host engine req api).0.active
  unfolding handle_council_fail
  handle_council_fail-ActiveValid req api h =
      with_turn-ActiveValid (fail_on_desk host engine req) api.active api
        (fail_on_desk-TurnValid req) refl h

  -- The turn that an opportunity starts is valid, under limits that pass validation.
  pub new_turn-TurnValid :
      (c : RunContext host.World) (o : Opportunity) (seat : CouncilSeat)
      → pos 0 <ℤ c.runtime.invalid_attempt_limit
      → TurnValid (new_turn c o seat)
  unfolding new_turn
  new_turn-TurnValid c o seat h = inl (record {
    running = refl;
    unsent = refl;
    spare = h;
    counts = (positive c.runtime.invalid_attempt_limit h, omega arith);
  })
