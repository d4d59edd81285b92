-- ===== src/Arb/Council/Direct/Kept.antt =====
-- council.go, `executeCouncilOpportunity`: what every outcome keeps.
use adjudication.Prelude.{
  ℕ, zero, suc, Option, none, some, List, [], ◌∷◌, ◌++◌, Result, ok, err, refl, if-true, if-false,
}
use adjudication.Prelude.Int.{pos_part}
use adjudication.Prelude.Text.{Text, codes, msg, is_empty, trim_space}
use adjudication.Json.{Fields, Items}
use adjudication.Arb.Context.{RunContext, Opportunity, CouncilSeat}
use adjudication.Arb.Context.Host.{Host, Engine}
use adjudication.Arb.Context.Action.{Keeps}
use adjudication.Arb.Certificate.{accepted, error_of}
use adjudication.Arb.Certificate.Replay.{AnswersState}
use adjudication.Arb.Certificate.Sound.{Certified, Taken-Certified}
use adjudication.Arb.Certificate.Step.{
  StepEnd, step_failed, step_refused, step_taken, step_for_certificate,
  step_for_certificate-StepEnd, adopt,
}
use adjudication.Arb.Failures.{record_event, council_member_id_from_opportunity}
use adjudication.Arb.Failures.Record.{fail_opportunity-Certified, record_event_at_turn-Keeps}
use adjudication.Arb.Council.Turn.{details_of}
use adjudication.Arb.Council.Direct.{
  Models, Decision, invalid, remove, abort, vote, Response, decide, Again, after_direct_step,
  carry_out, council_loop, execute_council_opportunity, execute_with_seat, ask_in_turn, first_items,
  find_council_seat, direct_vote_event, limit_reason, ask_member, add_item, input_item,
}

module _ (models : Models) (host : Host) (engine : Engine) (legal : AnswersState engine) where
  -- What a call that began at `c` leaves.
  abbrev KeptFrom : RunContext host.World → RunContext host.World × Result Text (Unit {0}) → Type 0
  KeptFrom c r = Certified engine c → Certified engine r.0

  after_direct_step-Kept :
      (again : Again models host engine) (o : Opportunity) (seat : CouncilSeat) (member_id : Text)
      (response : Response) (payload : Fields) (c : RunContext host.World)
      (r : RunContext host.World × Result Text Fields)
      → ((reason correction previous : Text) → KeptFrom c (again reason correction previous c))
      → StepEnd engine (msg "submit_council_vote") (msg "council") payload c r
      → KeptFrom c (after_direct_step models host engine again o seat member_id response payload r)
  unfolding after_direct_step record_event is_empty msg
  after_direct_step-Kept again o seat member_id response payload c _ k (step_failed e) = λ h. h
  after_direct_step-Kept again o seat member_id response payload c _ k (step_refused resp denied) =
      if-false (KeptFrom c) (accepted resp) _
        (again (error_of resp) (error_of resp) response.response_id c) denied
        (k (error_of resp) (error_of resp) response.response_id)
  after_direct_step-Kept again o seat member_id response payload c _ k
        (step_taken logged resp agreed t) =
      let adopted = (adopt engine resp logged).0 in
      let event = direct_vote_event models host engine seat member_id response payload in
      if-true (KeptFrom c) (accepted resp)
        (record_event host (msg "council_vote") (msg "council") o.phase event adopted) _ agreed
        (λ h.
          record_event_at_turn-Keeps host engine (Certified engine) (λ d w es k. k) adopted.turn
            (msg "council_vote") (msg "council") o.phase event adopted
            (Taken-Certified engine legal (msg "submit_council_vote") (msg "council") payload c
              adopted refl refl t h))

  carry_out-Kept :
      (again : Again models host engine) (o : Opportunity) (seat : CouncilSeat) (member_id : Text)
      (d : Decision) (c : RunContext host.World)
      → ((reason correction previous : Text) → KeptFrom c (again reason correction previous c))
      → KeptFrom c (carry_out models host engine again o seat member_id d c)
  unfolding carry_out
  carry_out-Kept again o seat member_id (invalid reason correction previous) c k =
      k reason correction previous
  carry_out-Kept again o seat member_id (remove reason message) c k =
      fail_opportunity-Certified host engine legal o reason message (details_of seat) c
  carry_out-Kept again o seat member_id (abort e) c k = λ h. h
  carry_out-Kept again o seat member_id (vote response payload) c k =
      after_direct_step-Kept again o seat member_id response payload c
        (step_for_certificate engine (msg "submit_council_vote") (msg "council") payload c) k
        (step_for_certificate-StepEnd engine (msg "submit_council_vote") (msg "council") payload c)

  council_loop-Kept :
      (o : Opportunity) (seat : CouncilSeat) (member_id : Text) (left : ℕ) (input_items : Items)
      (previous : Text) (reasons : List Text)
      → Keeps
          (Certified engine)
          (council_loop models host engine o seat member_id left input_items previous reasons)
  unfolding council_loop
  council_loop-Kept o seat member_id zero input_items previous reasons c =
      fail_opportunity-Certified host engine legal o (msg "attempts_exhausted")
        (limit_reason models host engine member_id reasons) (details_of seat) c
  council_loop-Kept o seat member_id (suc left) input_items previous reasons c =
      carry_out-Kept
        (λ reason correction next d.
          council_loop models host engine o seat member_id left
            (add_item input_items (input_item (codes "user") correction)) next
            (reasons ++ trim_space reason ∷ []) d)
        o seat member_id
        (decide models member_id c.runtime.max_response_bytes previous (
          ask_member models c.runtime.council_max_output_tokens seat input_items previous
            seat.request_spec))
        c
        (λ reason correction next.
          council_loop-Kept o seat member_id left
            (add_item input_items (input_item (codes "user") correction)) next
            (reasons ++ trim_space reason ∷ []) c)

  ask_in_turn-Kept :
      (o : Opportunity) (member_id : Text) (seat : CouncilSeat) (prompt : Result Text Text)
      → Keeps (Certified engine) (ask_in_turn models host engine o member_id seat prompt)
  unfolding ask_in_turn
  ask_in_turn-Kept o member_id seat (err e) c = λ h. h
  ask_in_turn-Kept o member_id seat (ok prompt) c =
      council_loop-Kept o seat member_id (pos_part c.runtime.invalid_attempt_limit)
        (first_items prompt) [] [] c

  execute_with_seat-Kept :
      (prompt : CouncilSeat → Result Text Text) (o : Opportunity) (member_id : Text)
      (seat : Option CouncilSeat)
      → Keeps (Certified engine) (execute_with_seat models host engine prompt o member_id seat)
  unfolding execute_with_seat
  execute_with_seat-Kept prompt o member_id none c = λ h. h
  execute_with_seat-Kept prompt o member_id (some seat) c =
      ask_in_turn-Kept o member_id seat (prompt seat) c

  -- For an engine whose accepted answers hold a state, a council opportunity in which the run asks
  -- the models itself, however it ends, keeps the log of actions in step with the run's state.
  pub execute_council_opportunity-Certified :
      (prompt : CouncilSeat → Result Text Text) (o : Opportunity)
      → Keeps (Certified engine) (execute_council_opportunity models host engine prompt o)
  unfolding execute_council_opportunity
  execute_council_opportunity-Certified prompt o c =
      execute_with_seat-Kept prompt o (council_member_id_from_opportunity o)
        (find_council_seat (council_member_id_from_opportunity o) c.council) c
