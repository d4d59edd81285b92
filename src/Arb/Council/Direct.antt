-- ===== src/Arb/Council/Direct.antt =====
-- arb/runtime/proceeding/council.go, `executeCouncilOpportunity` where the run asks the models itself.
-- `client` answers a request, given the conversation so far; a timeout of the opportunity is one of
-- its errors. Left out: the text of the prompt, the snapshot of the turn, and the signal to clients that
-- wait.
pub mod Failed
pub mod Decided
pub mod Kept
use adjudication.Prelude.{
  ℕ, zero, suc, Bool, true, false, not, ◌&&◌, ◌||◌, Option, none, some, List, [], ◌∷◌, ◌++◌, Result,
  ok, err, if◌then◌else◌,
}
use adjudication.Prelude.Int.{ℤ, pos, ltb_ℤ, pos_part}
use adjudication.Prelude.Text.{Text, codes, msg, is_empty, trim_space, text_eq, to_lower}
use adjudication.Prelude.Text.Cut.{contains_text}
use adjudication.Json.{Value, Items, Fields, nil, cons, str, obj, empty, field, get, put, int}
use adjudication.Json.Print.{map_string}
use adjudication.Common.ModelRequest.{Spec, with_fallback_max_output_tokens}
use adjudication.Arb.Context.{RunContext, Opportunity, CouncilSeat}
use adjudication.Arb.Context.Host.{Host, Engine}
use adjudication.Arb.Context.Action.{Action}
use adjudication.Arb.Certificate.{accepted, error_of}
use adjudication.Arb.Certificate.Step.{step_for_certificate, adopt}
use adjudication.Arb.Failures.{fail_opportunity, record_event, council_member_id_from_opportunity}
use adjudication.Arb.Council.Feedback.{format_invalid_attempt_limit_error}
use adjudication.Arb.Council.Preflight.{missing_request}
use adjudication.Arb.Council.Turn.{details_of}

pub record ToolCall : Type 0 where
  pub name : Text
  pub arguments : Fields

pub record Response : Type 0 where
  pub tool_calls : List ToolCall
  pub response_id : Text
  pub openrouter_metadata : Option Fields
  pub openrouter_generation : Option Fields
  pub openrouter_generation_error : Text

-- An error of a request, and whether it is one of a deadline or of a network's timeout.
pub record RequestError : Type 0 where
  pub message : Text
  pub timed_out : Bool

-- The models' side: the client, the JSON size of a response, and how JSON shows a request.
pub record Models : Type 0 where
  pub client : Spec → Items → Text → Result RequestError Response
  pub payload_size : Response → Result Text ℤ
  pub spec_json : Spec → Value
  pub table : ℕ → ℕ

unfoldable pub is_function_argument_parse_error : RequestError → Bool
unfolding contains_text
is_function_argument_parse_error e = contains_text (codes "parse function arguments") e.message

-- What the loop does with an answer of the model: an invalid attempt with the correction that the
-- model is sent, the removal of the member, an error of the run, or a vote.
pub data Decision : Type 0 where
  invalid : Text → Text → Text → Decision
  remove : Text → Text → Decision
  abort : Text → Decision
  vote : Response → Fields → Decision

unfoldable pub once : Text
once = msg "Call submit_council_vote exactly once."

unfoldable pub only_vote : Text
only_vote = msg "The only allowed tool is submit_council_vote."

unfoldable pub vote_required : Text
vote_required = msg "submit_council_vote requires vote and rationale."

unfoldable pub oversize_reason : ℤ → ℤ → Text
unfolding map_string
oversize_reason size limit =
    codes "council response exceeded byte limit of "
    ++ (map_string (int limit) ++ (codes " bytes (got " ++ (map_string (int size) ++ codes ")")))

unfoldable pub oversize_correction : ℤ → ℤ → Text
unfolding map_string
oversize_correction size limit =
    codes "Your response payload was "
    ++ (map_string (int size)
        ++ (codes " bytes; the limit is "
            ++ (map_string (int limit)
                ++ codes
                    " bytes. Call submit_council_vote exactly once with only vote and a concise rationale. Do not include analysis outside the tool call.")))

unfoldable pub on_call : Text → Response → ToolCall → Decision
unfolding only_vote vote_required map_string get put text_eq is_empty
on_call member_id response call =
    let payload = put (msg "member_id") (str member_id) call.arguments in
    if not (text_eq call.name (msg "submit_council_vote"))
    then invalid only_vote only_vote response.response_id
    else if is_empty (map_string (get (msg "vote") payload))
        || is_empty (map_string (get (msg "rationale") payload))
    then invalid vote_required vote_required response.response_id
    else vote response payload

unfoldable pub on_calls : Text → Response → List ToolCall → Decision
unfolding on_call once
on_calls member_id response (call ∷ []) = on_call member_id response call
on_calls member_id response [] = invalid once once response.response_id
on_calls member_id response (call ∷ next ∷ calls) = invalid once once response.response_id

module _ (models : Models) where
  unfoldable pub is_council_timeout_error : RequestError → Bool
  unfolding contains_text to_lower
  is_council_timeout_error e =
      let message = to_lower models.table e.message in
      e.timed_out
      || contains_text (codes "deadline exceeded") message
      || contains_text (codes "timeout") message
      || contains_text (codes "timed out") message

  unfoldable pub is_council_request_error : RequestError → Bool
  unfolding contains_text to_lower
  is_council_request_error e =
      let message = to_lower models.table e.message in
      contains_text (codes "responses request failed:") message
      || contains_text (codes "responses failed after retries:") message

  unfoldable pub on_error : Text → RequestError → Decision
  unfolding is_function_argument_parse_error is_council_timeout_error is_council_request_error
  on_error previous e =
      if is_function_argument_parse_error e
      then invalid e.message
          (msg
            "The previous tool call arguments were malformed. Call submit_council_vote exactly once with valid JSON arguments and keep the rationale brief.")
          previous
      else if is_council_timeout_error e
      then remove (msg "deadline_expired") e.message
      else if is_council_request_error e
      then remove (msg "request_failed") e.message
      else abort e.message

  unfoldable pub on_size : Text → ℤ → Text → Response → Result Text ℤ → Decision
  unfolding on_calls oversize_reason oversize_correction
  on_size member_id limit previous response (err e) = abort e
  on_size member_id limit previous response (ok size) =
      if ltb_ℤ limit size
      then invalid (oversize_reason size limit) (oversize_correction size limit) previous
      else on_calls member_id response response.tool_calls

  unfoldable pub decide : Text → ℤ → Text → Result RequestError Response → Decision
  unfolding on_error on_size
  decide member_id limit previous (err e) = on_error previous e
  decide member_id limit previous (ok response) =
      on_size member_id limit previous response (models.payload_size response)

  unfoldable pub ask_member :
      ℤ → CouncilSeat → Items → Text → Option Spec → Result RequestError Response
  unfolding with_fallback_max_output_tokens missing_request
  ask_member max_tokens seat input_items previous none =
      err (record { message = missing_request seat; timed_out = false })
  ask_member max_tokens seat input_items previous (some spec) =
      models.client (with_fallback_max_output_tokens max_tokens spec) input_items previous

unfoldable pub input_item : Text → Text → Value
input_item role content =
    obj (field (msg "role") (str role) (field (msg "content") (str content) empty))

unfoldable pub first_items : Text → Items
unfolding input_item
first_items prompt = cons (input_item (codes "system") prompt) (
    cons
      (input_item (codes "user")
        (codes "Call submit_council_vote exactly once for this opportunity."))
      nil)

unfoldable pub add_item : Items → Value → Items
add_item nil v = cons v nil
add_item (cons w items) v = cons w (add_item items v)

put_text : Text → Text → Fields → Fields
unfolding put is_empty
put_text key value fields = if is_empty value then fields else put key (str value) fields

put_map : Text → Option Fields → Fields → Fields
unfolding put
put_map key none fields = fields
put_map key (some m) fields = put key (obj m) fields

unfoldable pub find_council_seat : Text → List CouncilSeat → Option CouncilSeat
unfolding text_eq
find_council_seat member_id [] = none
find_council_seat member_id (seat ∷ seats) =
    if text_eq seat.member_id member_id then some seat else find_council_seat member_id seats

-- The prompt that the member gets, or the error of rendering it.
module _ (models : Models) (host : Host) (engine : Engine) where
  put_spec : Option Spec → Fields → Fields
  unfolding put
  put_spec none fields = fields
  put_spec (some spec) fields = put (msg "request_spec") (models.spec_json spec) fields

  unfoldable pub direct_vote_event : CouncilSeat → Text → Response → Fields → Fields
  unfolding put_text put_map put_spec
  direct_vote_event seat member_id response payload =
      put_text (msg "openrouter_generation_error") response.openrouter_generation_error (
        put_map (msg "openrouter_generation") response.openrouter_generation (
          put_map (msg "openrouter_metadata") response.openrouter_metadata (
            put_spec seat.request_spec (
              put_text (msg "response_id") response.response_id (
                field (msg "member_id") (str member_id) (
                  field (msg "model") (str seat.model)
                    (field (msg "payload") (obj payload) empty)))))))

  -- The next round of the loop: the reason of the invalid attempt, the correction that the model is
  -- sent, and the response that the next request follows.
  abbrev pub Again : Type 0
  Again = Text → Text → Text → Action host.World (Unit {0})

  -- The engine has answered the step of a vote.
  unfoldable pub after_direct_step :
      Again
      → Opportunity
      → CouncilSeat
      → Text
      → Response
      → Fields
      → RunContext host.World × Result Text Fields
      → RunContext host.World × Result Text (Unit {0})
  unfolding record_event adopt direct_vote_event
  after_direct_step again o seat member_id response payload (c, err e) = (c, err e)
  after_direct_step again o seat member_id response payload (c, ok resp) =
      let kept =
        record_event host (msg "council_vote") (msg "council") o.phase
          (direct_vote_event seat member_id response payload) (adopt engine resp c).0 in
      let retried = again (error_of resp) (error_of resp) response.response_id c in
      if accepted resp then kept else retried

  unfoldable pub carry_out :
      Again → Opportunity → CouncilSeat → Text → Decision → Action host.World (Unit {0})
  unfolding after_direct_step step_for_certificate fail_opportunity details_of
  carry_out again o seat member_id (invalid reason correction previous) c =
      again reason correction previous c
  carry_out again o seat member_id (remove reason message) c =
      fail_opportunity host engine o reason message (details_of seat) c
  carry_out again o seat member_id (abort e) c = (c, err e)
  carry_out again o seat member_id (vote response payload) c =
      after_direct_step again o seat member_id response payload
        (step_for_certificate engine (msg "submit_council_vote") (msg "council") payload c)

  unfoldable pub limit_reason : Text → List Text → Text
  unfolding format_invalid_attempt_limit_error
  limit_reason member_id reasons =
      format_invalid_attempt_limit_error (codes "council member " ++ member_id) reasons

  -- `left` more invalid attempts end the loop.
  unfoldable pub council_loop :
      Opportunity → CouncilSeat → Text → ℕ → Items → Text → List Text → Action host.World (Unit {0})
  unfolding carry_out decide ask_member add_item input_item limit_reason fail_opportunity details_of
      trim_space
  council_loop o seat member_id zero input_items previous reasons c =
      fail_opportunity host engine o (msg "attempts_exhausted") (limit_reason member_id reasons)
        (details_of seat) c
  council_loop o seat member_id (suc left) input_items previous reasons c =
      carry_out
        (λ reason correction next d.
          council_loop o seat member_id left
            (add_item input_items (input_item (codes "user") correction)) next
            (reasons ++ trim_space reason ∷ []) d)
        o seat member_id
        (decide models member_id c.runtime.max_response_bytes previous (
          ask_member models c.runtime.council_max_output_tokens seat input_items previous
            seat.request_spec))
        c

  unfoldable pub ask_in_turn :
      Opportunity → Text → CouncilSeat → Result Text Text → Action host.World (Unit {0})
  unfolding council_loop first_items
  ask_in_turn o member_id seat (err e) c = (c, err e)
  ask_in_turn o member_id seat (ok prompt) c =
      council_loop o seat member_id (pos_part c.runtime.invalid_attempt_limit) (first_items prompt)
        [] [] c

  -- The prompt that the member gets, or the error of rendering it.
  unfoldable pub execute_with_seat :
      (CouncilSeat → Result Text Text)
      → Opportunity
      → Text
      → Option CouncilSeat
      → Action host.World (Unit {0})
  unfolding ask_in_turn
  execute_with_seat prompt o member_id none c =
      (c, err (codes "unknown council member \"" ++ (member_id ++ codes "\"")))
  execute_with_seat prompt o member_id (some seat) c = ask_in_turn o member_id seat (prompt seat) c

  unfoldable pub execute_council_opportunity :
      (CouncilSeat → Result Text Text) → Opportunity → Action host.World (Unit {0})
  unfolding execute_with_seat find_council_seat council_member_id_from_opportunity
  execute_council_opportunity prompt o c =
      let member_id = council_member_id_from_opportunity o in
      execute_with_seat prompt o member_id (find_council_seat member_id c.council) c
