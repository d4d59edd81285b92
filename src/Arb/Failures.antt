-- ===== src/Arb/Failures.antt =====
-- arb/runtime/proceeding/failures.go: the failure of an opportunity, as an engine step and its
-- events; render.go, `recordEventAtTurn`; council.go, the member that an opportunity belongs to.
pub mod Payload
pub mod Record
use adjudication.Prelude.{
  ℕ, ◌-◌, Bool, true, false, not, ◌&&◌, ◌||◌, Option, none, some, List, [], ◌∷◌, ◌++◌, Result, ok,
  err, if◌then◌else◌, leb, ◌==◌,
}
use adjudication.Prelude.Text.{Text, codes, msg, text_eq, is_empty, trim_space}
use adjudication.Json.{Value, Fields, null, bool, int, num, str, arr, obj, empty, field, get, put}
use adjudication.Json.Print.{map_string}
use adjudication.Arb.Context.{RunContext, Opportunity, Event}
use adjudication.Arb.Context.Host.{Host, Engine}
use adjudication.Arb.Context.Action.{Action, ◌>>=◌, ◌>>◌, reject_if, return}
use adjudication.Arb.Certificate.Step.{take_step}

-- `strings.Split(s, ":")`: the first part, and the others.
split_colon : Text → Text × List Text
split_colon [] = ([], [])
split_colon (c ∷ s) =
    let (part, parts) = split_colon s in if c == b':' then ([], part ∷ parts) else (c ∷ part, parts)

third_of_three : Text × List Text → Text
third_of_three (a, b ∷ c ∷ []) = trim_space c
third_of_three (a, []) = []
third_of_three (a, b ∷ []) = []
third_of_three (a, b ∷ c ∷ d ∷ parts) = []

unfoldable pub council_member_id_from_opportunity : Opportunity → Text
unfolding split_colon third_of_three
council_member_id_from_opportunity o = third_of_three (split_colon o.id)

-- The texts that are raised begin with an ASCII letter.
title_case : Text → Text
title_case [] = []
title_case (c ∷ s) = (if leb b'a' c && leb c b'z' then c - 32 else c) ∷ s

or_text : Text → Text → Text
or_text [] d = d
or_text (c ∷ s) d = c ∷ s

failed_because : Text → Text
failed_because reason =
    if text_eq reason (codes "deadline_expired")
    then codes " failed because the deadline expired."
    else if text_eq reason (codes "attempts_exhausted")
    then codes " failed because attempts were exhausted."
    else if text_eq reason (codes "request_failed")
    then codes " failed because the request failed."
    else if text_eq reason (codes "agent_exited")
    then codes
        " failed because the assigned agent process exited before completing the opportunity."
    else if text_eq reason (codes "agent_output_limit_exceeded")
    then codes
        " failed because the assigned agent process exceeded the output limit before completing the opportunity."
    else codes " failed: " ++ (reason ++ codes ".")

unfoldable pub opportunity_failure_message : Opportunity → Text → Text
unfolding title_case or_text failed_because
opportunity_failure_message o reason =
    let role = or_text (trim_space o.role) (codes "unknown") in
    let phase = or_text (trim_space o.phase) (codes "unknown") in
    let id = or_text (trim_space o.id) (phase ++ b':' ∷ role) in
    title_case role ++ (codes " opportunity " ++ (id ++ failed_because reason))

unfoldable pub is_null : Value → Bool
is_null null = true
is_null (bool b) = false
is_null (int n) = false
is_null (num t) = false
is_null (str t) = false
is_null (arr xs) = false
is_null (obj m) = false

-- The loop that lays the details over the payload. Keys are distinct, so its order is open.
unfoldable pub merge_details : Fields → Fields → Fields
unfolding is_null
merge_details empty payload = payload
merge_details (field k v details) payload =
    let rest = merge_details details payload in
    if not (is_empty (trim_space k)) && not (is_null v) then put k v rest else rest

-- The payload before the details; `reason` and `message` are trimmed.
unfoldable pub base_payload : Opportunity → Text → Text → Fields
unfolding or_text
base_payload o reason message = field (msg "type") (str (msg "opportunity_failed")) (
    field (msg "role") (str o.role) (
      field (msg "phase") (str o.phase) (
        field (msg "opportunity_id") (str o.id) (
          field (msg "reason") (str reason) (
            field (msg "message") (str (or_text message (opportunity_failure_message o reason)))
              empty)))))

unfoldable pub is_council : Opportunity → Bool
is_council o = text_eq o.role (msg "council")

unfoldable pub failure_payload : Opportunity → Text → Text → Fields → Fields
unfolding merge_details base_payload or_text
failure_payload o reason message details =
    let base = base_payload o reason message in
    let member =
      or_text (council_member_id_from_opportunity o) (map_string (get (msg "member_id") details)) in
    merge_details details (if is_council o then put (msg "member_id") (str member) base else base)

unfoldable pub refused_failure : Text → Text
refused_failure e = msg "fail_opportunity rejected: " ++ e

module _ (host : Host) where
  -- The event stays in memory when its line cannot be appended to the file.
  unfoldable pub after_log : Event → host.World × Bool → Action host.World (Unit {0})
  after_log event (w, true) c = (record c { world = w; events = c.events ++ event ∷ [] }, ok tt)
  after_log event (w, false) c =
      (record c { world = w; events = c.events ++ event ∷ [] }, err (msg "append event"))

  unfoldable pub record_event_at_turn :
      ℕ → Text → Text → Text → Fields → Action host.World (Unit {0})
  unfolding after_log
  record_event_at_turn turn event_type role phase payload c =
      let event : Event = record {
        turn = turn;
        role = role;
        phase = phase;
        type = event_type;
        payload = payload;
      } in
      after_log event (host.log_event c.world event) c

  unfoldable pub record_event : Text → Text → Text → Fields → Action host.World (Unit {0})
  unfolding record_event_at_turn
  record_event event_type role phase payload c =
      record_event_at_turn c.turn event_type role phase payload c

  unfoldable pub removal_event : Text → Fields → Fields
  removal_event reason payload =
      field (msg "member_id") (str (map_string (get (msg "member_id") payload))) (
        field (msg "status") (str (msg "failed")) (
          field (msg "failure_reason") (str reason)
            (field (msg "cause") (str (map_string (get (msg "message") payload))) empty)))

  unfoldable pub record_removal : Opportunity → Text → Fields → Action host.World (Unit {0})
  unfolding removal_event record_event
  record_removal o reason payload =
      if is_council o
      then record_event (msg "council_member_removed") (msg "system") o.phase
          (removal_event reason payload)
      else return tt

  unfoldable pub record_failure : Opportunity → Text → Fields → Action host.World (Unit {0})
  unfolding record_removal record_event
  record_failure o reason payload =
      record_event (msg "opportunity_failed") o.role o.phase payload
      >> record_removal o reason payload

  unfoldable pub step_failure : Engine → Fields → Action host.World (Unit {0})
  unfolding take_step
  step_failure engine payload =
      take_step engine refused_failure (msg "fail_opportunity") (msg "system") payload

  unfoldable pub fail_opportunity :
      Engine → Opportunity → Text → Text → Fields → Action host.World (Unit {0})
  unfolding step_failure record_failure failure_payload
  fail_opportunity engine o reason message details =
      let payload = failure_payload o (trim_space reason) (trim_space message) details in
      reject_if (is_empty (trim_space reason)) (msg "opportunity failure reason is required")
      >>= λ _. step_failure engine payload >>= λ _. record_failure o (trim_space reason) payload
