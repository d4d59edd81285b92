-- ===== src/Arb/Council/Direct/Decided.antt =====
-- council.go, `executeCouncilOpportunity`: how a member's opportunity ends.
use adjudication.Prelude.{
  In, ||-false, ◌∙◌, if◌then◌else◌, inl, inr, Bool-cases, false, ℕ, zero, suc, not, ◌||◌, Option,
  none, some, List, [], ◌∷◌, ◌++◌, Result, ok, err, ◌≡◌, refl, ap, arith, if-both, if-true,
  if-false, subst,
}
use adjudication.Prelude.Int.{ℤ, ltb_ℤ, pos_part}
use adjudication.Prelude.Text.{
  Text, text_eq→eq, codes, msg, text_eq, text_eq_refl, is_empty, trim_space,
}
use adjudication.Json.{Fields, Items, str, get, put}
use adjudication.Json.Laws.{get-put}
use adjudication.Json.Print.{map_string}
use adjudication.Arb.Context.{RunContext, Opportunity, CouncilSeat}
use adjudication.Arb.Context.Host.{Host, Engine}
use adjudication.Arb.Certificate.{accepted, error_of}
use adjudication.Arb.Certificate.Step.{
  Taken, StepEnd, step_failed, step_refused, step_taken, step_for_certificate,
  step_for_certificate-StepEnd, adopt,
}
use adjudication.Arb.Failures.{
  fail_opportunity, failure_payload, record_event, council_member_id_from_opportunity,
}
use adjudication.Arb.Failures.Record.{fail_opportunity-Taken, record_event_at_turn-Keeps}
use adjudication.Arb.Council.Turn.{details_of}
use adjudication.Arb.Council.Direct.Failed.{
  Failure, member_failures, member_failures-trim_space, failure_payload-Failure,
}
use adjudication.Arb.Council.Direct.{
  Models, Decision, invalid, remove, abort, vote, Response, RequestError, ToolCall, decide,
  on_error, on_size, on_calls, on_call, is_function_argument_parse_error, is_council_timeout_error,
  is_council_request_error, only_vote, vote_required, Again, after_direct_step, carry_out,
  council_loop, execute_council_opportunity, execute_with_seat, ask_in_turn, first_items,
  find_council_seat, direct_vote_event, limit_reason, ask_member, add_item, input_item,
}

find_council_seat-member_id :
    (member_id : Text) (seats : List CouncilSeat) (seat : CouncilSeat)
    → find_council_seat member_id seats ≡ some seat
    → seat.member_id ≡ member_id
unfolding find_council_seat
find_council_seat-member_id member_id [] seat h = ground arith
find_council_seat-member_id member_id (s ∷ seats) seat h =
    ground
      (arith, text_eq→eq s.member_id member_id, find_council_seat-member_id member_id seats seat)

-- A vote that is complete, and under the member's own id.
abbrev pub Cast : Text → Fields → Type 0
Cast member_id payload =
    (get (msg "member_id") payload ≡ str member_id)
    × (is_empty (map_string (get (msg "vote") payload)) ≡ false)
    × (is_empty (map_string (get (msg "rationale") payload)) ≡ false)

-- A vote is cast under the member's own id, and a removal has one of the known reasons.
abbrev Own : Text → Decision → Type 0
Own member_id (vote response payload) = Cast member_id payload
Own member_id (invalid reason correction previous) = Unit
Own member_id (remove reason message) = In reason member_failures
Own member_id (abort e) = Unit

on_call-Own :
    (member_id : Text) (response : Response) (call : ToolCall)
    → Own member_id (on_call member_id response call)
unfolding on_call
on_call-Own member_id response call =
    let payload = put (msg "member_id") (str member_id) call.arguments in
    let lacks =
      is_empty (map_string (get (msg "vote") payload))
      || is_empty (map_string (get (msg "rationale") payload)) in
    let named =
      get-put (msg "member_id") (msg "member_id") (str member_id) call.arguments
      ∙ ap (λ b. if b then str member_id else get (msg "member_id") call.arguments)
          (text_eq_refl (msg "member_id")) in
    if-both (Own member_id) (not (text_eq call.name (msg "submit_council_vote")))
      (invalid only_vote only_vote response.response_id) _ tt
      (elim (Bool-cases lacks) [
        | inl p ↦
            if-true (Own member_id) lacks (invalid vote_required vote_required response.response_id)
              (vote response payload) p tt
        | inr p ↦
            let (chosen, explained) = ||-false _ _ p in
            if-false (Own member_id) lacks
              (invalid vote_required vote_required response.response_id) (vote response payload) p
              (named, chosen, explained)
      ])

on_calls-Own :
    (member_id : Text) (response : Response) (calls : List ToolCall)
    → Own member_id (on_calls member_id response calls)
unfolding on_calls
on_calls-Own member_id response (call ∷ []) = on_call-Own member_id response call
on_calls-Own member_id response [] = tt
on_calls-Own member_id response (call ∷ next ∷ calls) = tt

module _ (models : Models) where
  on_error-Own :
      (member_id previous : Text) (e : RequestError) → Own member_id (on_error models previous e)
  unfolding on_error
  on_error-Own member_id previous e =
      if-both (Own member_id) (is_function_argument_parse_error e) (invalid e.message _ previous) _
        tt
        (if-both (Own member_id) (is_council_timeout_error models e)
          (remove (msg "deadline_expired") e.message) _ (inl refl)
          (if-both (Own member_id) (is_council_request_error models e)
            (remove (msg "request_failed") e.message) (abort e.message) (inr (inl refl)) tt))

  on_size-Own :
      (member_id : Text) (limit : ℤ) (previous : Text) (response : Response) (size : Result Text ℤ)
      → Own member_id (on_size models member_id limit previous response size)
  unfolding on_size
  on_size-Own member_id limit previous response (err e) = tt
  on_size-Own member_id limit previous response (ok size) =
      if-both (Own member_id) (ltb_ℤ limit size) _ _ tt
        (on_calls-Own member_id response response.tool_calls)

  decide-Own :
      (member_id : Text) (limit : ℤ) (previous : Text) (answer : Result RequestError Response)
      → Own member_id (decide models member_id limit previous answer)
  unfolding decide
  decide-Own member_id limit previous (err e) = on_error-Own member_id previous e
  decide-Own member_id limit previous (ok response) =
      on_size-Own member_id limit previous response (models.payload_size response)

module _ (models : Models) (host : Host) (engine : Engine) where
  -- The one engine action of an opportunity, and its traces in the run.
  pub record Stands (action role : Text) (payload : Fields) (c d : RunContext host.World)
      : Type 0 where
    pub mid : RunContext host.World
    pub step : Taken engine action role payload c mid
    pub same_state : d.state ≡ mid.state
    pub same_log : d.certificate_actions ≡ mid.certificate_actions

  -- The member's own vote, or the failure of the opportunity.
  pub data Decided (o : Opportunity) (member_id : Text) (c d : RunContext host.World) : Type 0 where
    voted :
        (payload : Fields)
        → Cast member_id payload
        → Stands (msg "submit_council_vote") (msg "council") payload c d
        → Decided o member_id c d
    failed_member :
        (reason : Text)
        → In reason member_failures
        → (payload : Fields) → Failure o member_id reason payload
        → Stands (msg "fail_opportunity") (msg "system") payload c d
        → Decided o member_id c d

  abbrev Ends :
      Opportunity
      → Text
      → RunContext host.World
      → RunContext host.World × Result Text (Unit {0})
      → Type 0
  Ends o member_id c r = r.1 ≡ ok tt → Decided o member_id c r.0

  fail_opportunity-Ends :
      (o : Opportunity) (seat : CouncilSeat) (member_id reason message : Text)
      (c : RunContext host.World)
      → seat.member_id ≡ member_id
      → In reason member_failures
      → Ends o member_id c (fail_opportunity host engine o reason message (details_of seat) c)
  fail_opportunity-Ends o seat member_id reason message c own known h =
      let r = fail_opportunity host engine o reason message (details_of seat) c in
      let (_, mid, step, state, log) =
        fail_opportunity-Taken host engine o reason message (details_of seat) c r.0
          (ap (λ x. (r.0, x)) h) in
      let payload = failure_payload o (trim_space reason) (trim_space message) (details_of seat) in
      let says = failure_payload-Failure o (trim_space reason) (trim_space message) seat in
      failed_member reason known payload
        (subst (λ id. Failure o id reason payload) own
          (subst (λ t. Failure o seat.member_id t payload) (member_failures-trim_space reason known)
            says))
        (record { mid = mid; step = step; same_state = state; same_log = log })

  after_direct_step-Ends :
      (again : Again models host engine) (o : Opportunity) (seat : CouncilSeat) (member_id : Text)
      (response : Response) (payload : Fields) (c : RunContext host.World)
      (r : RunContext host.World × Result Text Fields)
      → ((reason correction previous : Text)
          → Ends o member_id c (again reason correction previous c))
      → Cast member_id payload
      → StepEnd engine (msg "submit_council_vote") (msg "council") payload c r
      → Ends o member_id c
          (after_direct_step models host engine again o seat member_id response payload r)
  unfolding after_direct_step record_event
  after_direct_step-Ends again o seat member_id response payload c _ k own (step_failed e) =
      λ h. ground arith
  after_direct_step-Ends again o seat member_id response payload c _ k own
        (step_refused resp denied) =
      if-false (Ends o member_id c) (accepted resp) _
        (again (error_of resp) (error_of resp) response.response_id c) denied
        (k (error_of resp) (error_of resp) response.response_id)
  after_direct_step-Ends again o seat member_id response payload c _ k own
        (step_taken logged resp agreed t) =
      let adopted = (adopt engine resp logged).0 in
      let kept =
        record_event_at_turn-Keeps host engine
          (λ d. (d.state ≡ adopted.state) × (d.certificate_actions ≡ adopted.certificate_actions))
          (λ d w es k. k) adopted.turn (msg "council_vote") (msg "council") o.phase
          (direct_vote_event models host engine seat member_id response payload) adopted
          (refl, refl) in
      if-true (Ends o member_id c) (accepted resp)
        (record_event host (msg "council_vote") (msg "council") o.phase
          (direct_vote_event models host engine seat member_id response payload) adopted)
        _ agreed
        (λ h.
          voted payload own
            (record { mid = adopted; step = t; same_state = kept.0; same_log = kept.1 }))

  carry_out-Ends :
      (again : Again models host engine) (o : Opportunity) (seat : CouncilSeat) (member_id : Text)
      (d : Decision) (c : RunContext host.World)
      → ((reason correction previous : Text)
          → Ends o member_id c (again reason correction previous c))
      → Own member_id d
      → seat.member_id ≡ member_id
      → Ends o member_id c (carry_out models host engine again o seat member_id d c)
  unfolding carry_out
  carry_out-Ends again o seat member_id (invalid reason correction previous) c k own sat =
      k reason correction previous
  carry_out-Ends again o seat member_id (remove reason message) c k own sat =
      fail_opportunity-Ends o seat member_id reason message c sat own
  carry_out-Ends again o seat member_id (abort e) c k own sat = λ h. ground arith
  carry_out-Ends again o seat member_id (vote response payload) c k own sat =
      after_direct_step-Ends again o seat member_id response payload c
        (step_for_certificate engine (msg "submit_council_vote") (msg "council") payload c) k own
        (step_for_certificate-StepEnd engine (msg "submit_council_vote") (msg "council") payload c)

  council_loop-Ends :
      (o : Opportunity) (seat : CouncilSeat) (member_id : Text) (left : ℕ) (input_items : Items)
      (previous : Text) (reasons : List Text) (c : RunContext host.World)
      → seat.member_id ≡ member_id
      → Ends o member_id c
          (council_loop models host engine o seat member_id left input_items previous reasons c)
  unfolding council_loop
  council_loop-Ends o seat member_id zero input_items previous reasons c sat =
      fail_opportunity-Ends o seat member_id (msg "attempts_exhausted")
        (limit_reason models host engine member_id reasons) c sat (inr (inr (inl refl)))
  council_loop-Ends o seat member_id (suc left) input_items previous reasons c sat =
      let answer =
        ask_member models c.runtime.council_max_output_tokens seat input_items previous
          seat.request_spec in
      carry_out-Ends
        (λ reason correction next d.
          council_loop models host engine o seat member_id left
            (add_item input_items (input_item (codes "user") correction)) next
            (reasons ++ trim_space reason ∷ []) d)
        o seat member_id (decide models member_id c.runtime.max_response_bytes previous answer) c
        (λ reason correction next.
          council_loop-Ends o seat member_id left
            (add_item input_items (input_item (codes "user") correction)) next
            (reasons ++ trim_space reason ∷ []) c sat)
        (decide-Own models member_id c.runtime.max_response_bytes previous answer) sat

  ask_in_turn-Ends :
      (o : Opportunity) (member_id : Text) (seat : CouncilSeat) (prompt : Result Text Text)
      (c : RunContext host.World)
      → seat.member_id ≡ member_id
      → Ends o member_id c (ask_in_turn models host engine o member_id seat prompt c)
  unfolding ask_in_turn
  ask_in_turn-Ends o member_id seat (err e) c sat = λ h. ground arith
  ask_in_turn-Ends o member_id seat (ok prompt) c sat =
      council_loop-Ends o seat member_id (pos_part c.runtime.invalid_attempt_limit)
        (first_items prompt) [] [] c sat

  execute_with_seat-Ends :
      (prompt : CouncilSeat → Result Text Text) (o : Opportunity) (member_id : Text)
      (seat : Option CouncilSeat) (c : RunContext host.World)
      → find_council_seat member_id c.council ≡ seat
      → Ends o member_id c (execute_with_seat models host engine prompt o member_id seat c)
  unfolding execute_with_seat
  execute_with_seat-Ends prompt o member_id none c found = λ h. ground arith
  execute_with_seat-Ends prompt o member_id (some seat) c found =
      ask_in_turn-Ends o member_id seat (prompt seat) c
        (find_council_seat-member_id member_id c.council seat found)

  -- Where the run asks the models itself, a council opportunity that ends without an error has
  -- added one action to the log, and the run has the engine's answer to it: a vote with a choice
  -- and a rationale, under the id of the member that the opportunity names, or the failure of that
  -- opportunity, which names its role, its phase, its id and that member, and has one of the
  -- reasons for which such a member fails.
  pub execute_council_opportunity-Decided :
      (prompt : CouncilSeat → Result Text Text) (o : Opportunity) (c d : RunContext host.World)
      → execute_council_opportunity models host engine prompt o c ≡ (d, ok tt)
      → Decided o (council_member_id_from_opportunity o) c d
  unfolding execute_council_opportunity
  execute_council_opportunity-Decided prompt o c d h =
      let member_id = council_member_id_from_opportunity o in
      let ends =
        execute_with_seat-Ends prompt o member_id (find_council_seat member_id c.council) c refl in
      subst (Decided o member_id c) (ap (λ r. r.0) h) (ends (ap (λ r. r.1) h))
