-- ===== src/Arb/Run.antt =====
-- arb/runtime/proceeding/run.go: the start of a case, and the loop that gives out its opportunities;
-- failures.go, how a failed case is reported. Left out: checks of the configuration that are modelled
-- elsewhere, the registration of the case files, the servers, and the files of the result. The copies
-- that the certificate keeps are made by `clone_json` and `clone_members`.
pub mod Kept
pub mod Certified
pub mod Terminates
pub mod Attorneys
use adjudication.Prelude.{
  ℕ, zero, suc, ◌+◌, Bool, true, false, not, ◌&&◌, ◌||◌, Option, none, some, List, [], ◌∷◌, ◌++◌,
  Result, ok, err, ◌>>=◌, ◌>>◌, reject_if, or_fail, if◌then◌else◌,
}
use adjudication.Prelude.Text.{Text, codes, msg, text_eq, is_empty, trim_space}
use adjudication.Json.{
  Value, Items, Fields, null, bool, int, num, str, arr, obj, nil, cons, empty, field, get, put,
  map_any, is_true, no_fields,
}
use adjudication.Json.Print.{map_string}
use adjudication.Arb.Context.{RunContext, Opportunity}
use adjudication.Arb.Context.Host.{Host, Engine}
use adjudication.Arb.Context.Action
use adjudication.Arb.Context.Action.{Action}
use adjudication.Arb.Certificate.{accepted, state_of, error_of}
use adjudication.Arb.Failures.{record_event, is_null}
use adjudication.Arb.Council.Preflight.{CouncilPreflightReplacement}

unfoldable pub normalize_case_id : Text → Text
unfolding trim_space is_empty
normalize_case_id case_id =
    if is_empty (trim_space case_id) then codes "arb-1" else trim_space case_id

unfoldable pub case_of : Fields → Fields
unfolding map_any get
case_of state = map_any (get (msg "case") state)

unfoldable pub current_phase : Fields → Text
unfolding case_of map_string get
current_phase state = map_string (get (msg "phase") (case_of state))

unfoldable pub current_resolution : Fields → Text
unfolding case_of map_string get
current_resolution state = map_string (get (msg "resolution") (case_of state))

unfoldable pub current_evidence_standard : Fields → Text → Text
unfolding map_any get map_string is_empty trim_space
current_evidence_standard state standard =
    let value = map_string (get (msg "evidence_standard") (map_any (get (msg "policy") state))) in
    if is_empty value then trim_space standard else value

-- `stringList`, for a decoded list.
texts_in : Items → List Text
unfolding map_string is_empty
texts_in nil = []
texts_in (cons v xs) =
    let rest = texts_in xs in if is_empty (map_string v) then rest else map_string v ∷ rest

unfoldable pub text_list : Value → List Text
unfolding texts_in
text_list (arr xs) = texts_in xs
text_list null = []
text_list (bool b) = []
text_list (int n) = []
text_list (num t) = []
text_list (str t) = []
text_list (obj m) = []

-- The engine's answer: the case is over, with the reason, or the next opportunity.
pub data Next : Type 0 where
  over : Text → Next
  due : Opportunity → Next

unfoldable pub opportunity_of : Fields → Opportunity
unfolding map_string get is_true text_list
opportunity_of raw = record {
  id = map_string (get (msg "opportunity_id") raw);
  role = map_string (get (msg "role") raw);
  phase = map_string (get (msg "phase") raw);
  may_pass = is_true (get (msg "may_pass") raw);
  objective = map_string (get (msg "objective") raw);
  allowed_tools = text_list (get (msg "allowed_tools") raw);
}

unfoldable pub read_next : Fields → Result Text Next
unfolding accepted error_of is_true map_string map_any get no_fields opportunity_of
read_next resp =
    let raw = map_any (get (msg "opportunity") resp) in
    if not (accepted resp)
    then err (codes "next_opportunity rejected: " ++ error_of resp)
    else if is_true (get (msg "terminal") resp)
    then ok (over (map_string (get (msg "reason") resp)))
    else if no_fields raw
    then err (codes "next_opportunity returned empty opportunity")
    else ok (due (opportunity_of raw))

unfoldable pub next_opportunity : Engine → Fields → Result Text Next
unfolding read_next
next_opportunity engine state = do resp ← engine.next_opportunity state; read_next resp

-- Go's `delete(m, key)`.
remove_field : Text → Fields → Fields
unfolding text_eq
remove_field k empty = empty
remove_field k (field j v m) =
    let rest = remove_field k m in if text_eq j k then rest else field j v rest

unfoldable pub case_failure : Fields → Fields
unfolding case_of map_any get put is_null remove_field
case_failure state =
    let raw = map_any (get (msg "failure") (case_of state)) in
    if is_null (get (msg "type") raw) && not (is_null (get (msg "failure_type") raw))
    then remove_field (msg "failure_type") (put (msg "type") (get (msg "failure_type") raw) raw)
    else raw

unfoldable pub case_failure_error : Fields → Text
unfolding case_failure map_string get is_empty
case_failure_error state =
    let failure = case_failure state in
    let message = map_string (get (msg "message") failure) in
    let reason = map_string (get (msg "reason") failure) in
    if not (is_empty message)
    then message
    else if not (is_empty reason)
    then codes "Case failed: " ++ (reason ++ codes ".")
    else []

-- What is reported of a case that is over; the records of its parties and files are the run's.
pub record RunResult : Type 0 where
  pub status : Text
  pub error : Text
  pub failure : Option Fields
  pub phase : Text
  pub resolution : Text
  pub final_state : Fields
  pub final_reason : Text

unfoldable pub is_failed : Fields → Bool
unfolding case_of map_string get text_eq
is_failed state = text_eq (map_string (get (msg "status") (case_of state))) (msg "failed")

unfoldable pub result_of : Fields → Text → RunResult
unfolding is_failed case_failure case_failure_error current_phase current_resolution
result_of state reason = record {
  status = if is_failed state then msg "failed" else msg "ok";
  error = if is_failed state then case_failure_error state else [];
  failure = if is_failed state then some (case_failure state) else none;
  phase = current_phase state;
  resolution = current_resolution state;
  final_state = state;
  final_reason = reason;
}

module _ (host : Host) (engine : Engine) where
  -- The copies that the certificate keeps, and the engine's first state.
  unfoldable pub begin_case :
      (Items → Option Items)
      → Fields
      → Text
      → Items
      → RunContext host.World
      → Result Text (RunContext host.World)
  unfolding accepted state_of error_of
  begin_case clone_members initial proposition members c = do
    state_copy ← or_fail (engine.clone_json initial) (codes "clone certificate initial state")
    members_copy ← or_fail (clone_members members) (codes "clone certificate council members")
    resp ← engine.initialize_case initial proposition members
    reject_if (not (accepted resp)) (codes "initialize_case rejected: " ++ error_of resp)
    ok (record c {
      state = state_of resp;
      certificate_init = record {
        state = state_copy;
        proposition = proposition;
        council_members = members_copy;
      };
      certificate_actions = [];
    })

  unfoldable pub replacement_event : CouncilPreflightReplacement → Fields
  replacement_event r = field (msg "member_id") (str r.member_id) (
      field (msg "unavailable_model") (str r.unavailable_model) (
        field (msg "unavailable_persona_filename") (str r.unavailable_persona_file) (
          field (msg "replacement_model") (str r.replacement_model) (
            field (msg "replacement_persona_filename") (str r.replacement_persona_file)
              (field (msg "cause") (str r.cause) empty)))))

  unfoldable pub record_replacements :
      List CouncilPreflightReplacement → Action host.World (Unit {0})
  unfolding record_event replacement_event current_phase
  record_replacements [] c = (c, ok tt)
  record_replacements (r ∷ replacements) c =
      Action.continue (λ u. record_replacements replacements)
        (record_event host (msg "council_member_replaced") (msg "system") (current_phase c.state)
          (replacement_event r) c)

  -- `summary` is the payload of the event that opens the record.
  unfoldable pub record_start :
      List CouncilPreflightReplacement → Fields → Action host.World (Unit {0})
  unfolding record_replacements record_event current_phase
  record_start replacements summary c =
      Action.continue
        (λ u d.
          record_event host (msg "run_initialized") (msg "system") (current_phase d.state) summary
            d)
        (record_replacements replacements c)

  abbrev pub Handler : Type 0
  Handler = Opportunity → Action host.World (Unit {0})

  unfoldable pub execute_opportunity : Handler → Handler → Handler
  unfolding text_eq
  execute_opportunity attorney council o c =
      if text_eq o.role (msg "plaintiff") || text_eq o.role (msg "defendant")
      then attorney o c
      else if text_eq o.role (msg "council")
      then council o c
      else (c, err (codes "unsupported opportunity role \"" ++ (o.role ++ codes "\"")))

  unfoldable pub round_done :
      RunContext host.World × Result Text (Unit {0})
      → RunContext host.World × Result Text (Option RunResult)
  round_done (c, ok u) = (c, ok none)
  round_done (c, err e) = (c, err e)

  -- One round of the loop: `none` where the next round follows.
  unfoldable pub after_next :
      Handler → Handler → Result Text Next → Action host.World (Option RunResult)
  unfolding execute_opportunity round_done result_of
  after_next attorney council (err e) c = (c, err e)
  after_next attorney council (ok (over reason)) c = (c, ok (some (result_of c.state reason)))
  after_next attorney council (ok (due o)) c =
      round_done (execute_opportunity attorney council o (record c { turn = c.turn + 1 }))

  unfoldable pub after_round :
      Action host.World (Option RunResult)
      → RunContext host.World × Result Text (Option RunResult)
      → RunContext host.World × Result Text (Option RunResult)
  after_round more (c, ok none) = more c
  after_round more (c, ok (some result)) = (c, ok (some result))
  after_round more (c, err e) = (c, err e)

  -- As many rounds as `rounds`, or until the case is over; `none` where it is not.
  unfoldable pub run_case : Handler → Handler → ℕ → Action host.World (Option RunResult)
  unfolding after_round after_next next_opportunity
  run_case attorney council zero c = (c, ok none)
  run_case attorney council (suc rounds) c =
      after_round (λ d. run_case attorney council rounds d)
        (after_next attorney council (next_opportunity engine c.state) c)
