-- ===== src/Arb/Council/Tools.antt =====
-- councilapi.go, `callCouncilToolLocked` and `submitCouncilVoteLocked`; attorney_tools.go,
-- `remainingCapacity`; evidence.go, `listVisibleEvidence`. The text of a case view is left out, and
-- so is the signal to the lawyers' API.
use adjudication.Prelude.{
  ℕ, Bool, true, false, none, ◌||◌, List, [], ◌∷◌, Result, ok, err, ltb, ◌==◌, ◌&&◌, if◌then◌else◌,
}
use adjudication.Prelude.Int.{ℤ, pos, ltb_ℤ, ◌-ℤ◌}
use adjudication.Prelude.Text.{Text, msg, text_eq, is_empty}
use adjudication.Json.{Fields, str, int, obj, empty, field, get, put, required_int_param}
use adjudication.Json.Print.{map_string}
use adjudication.Arb.Policy.{Policy}
use adjudication.Arb.Context.{EvidenceMeta}
use adjudication.Arb.Context.Host.{Host, Engine}
use adjudication.Arb.Certificate.Step.{take_step}
use adjudication.Arb.Evidence.Registry.{stat_evidence, is_private}
use adjudication.Arb.Evidence.Read.{EvidenceReadBudget, EvidenceRange, read_evidence_range}
use adjudication.Arb.Failures.{record_event_at_turn}
use adjudication.Arb.Council.Turn.{CouncilTurn, Desk, finish_turn, on_run, signal_changed}

pub data CouncilReply : Type 0 where
  case_view : CouncilReply
  evidence_list : List EvidenceMeta → CouncilReply
  evidence_stat : EvidenceMeta → ℤ → ℤ → CouncilReply
  evidence_range : EvidenceRange → ℤ → ℤ → CouncilReply
  vote_accepted : CouncilReply

unfoldable pub remaining_capacity : ℤ → ℕ → ℤ
remaining_capacity limit used =
    let left = limit -ℤ pos used in if ltb_ℤ left (pos 0) then pos 0 else left

unfoldable pub remaining_bytes : Policy → EvidenceReadBudget → ℤ
unfolding remaining_capacity
remaining_bytes policy budget =
    remaining_capacity policy.max_evidence_read_bytes_per_opportunity budget.bytes

unfoldable pub remaining_reads : Policy → EvidenceReadBudget → ℤ
unfolding remaining_capacity
remaining_reads policy budget =
    remaining_capacity policy.max_evidence_reads_per_opportunity budget.reads

text_lt : Text → Text → Bool
text_lt [] [] = false
text_lt [] (b ∷ t) = true
text_lt (a ∷ s) [] = false
text_lt (a ∷ s) (b ∷ t) = ltb a b || (a == b && text_lt s t)

unfoldable pub place : EvidenceMeta → List EvidenceMeta → List EvidenceMeta
unfolding text_lt
place m [] = m ∷ []
place m (n ∷ ms) =
    let later = n ∷ place m ms in if text_lt n.evidence_id m.evidence_id then later else m ∷ n ∷ ms

-- The public items in the order of their identifiers.
unfoldable pub list_visible_evidence : List EvidenceMeta → List EvidenceMeta
unfolding place is_private
list_visible_evidence [] = []
list_visible_evidence (m ∷ ms) =
    let rest = list_visible_evidence ms in if is_private m then rest else place m rest

unfoldable pub vote_payload : CouncilTurn → Fields → Fields
vote_payload turn args = put (msg "member_id") (str turn.seat.member_id) args

unfoldable pub vote_event : CouncilTurn → Fields → Fields
vote_event turn payload = field (msg "member_id") (str turn.seat.member_id) (
    field (msg "model") (str turn.seat.model)
      (field (msg "backend") (str (msg "councilapi")) (field (msg "payload") (obj payload) empty)))

unfoldable pub range_event : CouncilTurn → EvidenceRange → Fields
range_event turn r = field (msg "member_id") (str turn.seat.member_id) (
    field (msg "evidence_id") (str r.evidence_id) (
      field (msg "offset") (int (pos r.offset)) (
        field (msg "length") (int (pos r.length))
          (field (msg "byte_count") (int (pos r.length)) empty))))

module _ (host : Host) (engine : Engine) where
  abbrev pub Reply : Type 0
  Reply = Desk host.World × Result Text CouncilReply

  unfoldable pub after_vote_event : Desk host.World × Result Text (Unit {0}) → Reply
  unfolding finish_turn
  after_vote_event (d, ok u) = (finish_turn host engine none d, ok vote_accepted)
  after_vote_event (d, err e) = (d, err e)

  -- The lines after a vote that the engine accepted.
  unfoldable pub after_vote_step : Fields → Desk host.World × Result Text (Unit {0}) → Reply
  unfolding after_vote_event on_run record_event_at_turn signal_changed vote_event
  after_vote_step payload (d, ok u) = after_vote_event (
      on_run host engine
        (record_event_at_turn host d.turn.turn_number (msg "council_vote") (msg "council")
          d.turn.opportunity.phase (vote_event d.turn payload))
        (record d { version = signal_changed d.version }))
  after_vote_step payload (d, err e) = (d, err e)

  unfoldable pub cast_vote : Fields → Desk host.World → Reply
  unfolding after_vote_step on_run take_step
  cast_vote payload d = after_vote_step payload (
      on_run host engine
        (take_step engine (λ e. e) (msg "submit_council_vote") (msg "council") payload) d)

  unfoldable pub submit_council_vote : Fields → Desk host.World → Reply
  unfolding vote_payload
  submit_council_vote args d =
      let payload = vote_payload d.turn args in
      if d.turn.completed
      then (d, err (msg "council vote already submitted for this opportunity"))
      else if is_empty (map_string (get (msg "vote") payload))
          || is_empty (map_string (get (msg "rationale") payload))
      then (d, err (msg "submit_council_vote requires vote and rationale"))
      else cast_vote payload d

  unfoldable pub after_range_event :
      EvidenceRange → Desk host.World × Result Text (Unit {0}) → Reply
  unfolding remaining_bytes remaining_reads
  after_range_event r (d, ok u) = (
    d,
    ok (
        evidence_range r (remaining_bytes d.rc.policy d.turn.evidence_budget)
          (remaining_reads d.rc.policy d.turn.evidence_budget)),
  )
  after_range_event r (d, err e) = (d, err e)

  unfoldable pub after_read :
      Desk host.World → EvidenceReadBudget × Result Text EvidenceRange → Reply
  unfolding after_range_event on_run record_event_at_turn range_event
  after_read d (budget, ok r) = after_range_event r (
      on_run host engine
        (record_event_at_turn host d.turn.turn_number (msg "evidence_read") (msg "council")
          d.turn.opportunity.phase (range_event d.turn r))
        (record d { turn = record d.turn { evidence_budget = budget } }))
  after_read d (budget, err e) =
      (record d { turn = record d.turn { evidence_budget = budget } }, err e)

  unfoldable pub read_with : Fields → Desk host.World → Result Text ℤ → Result Text ℤ → Reply
  unfolding after_read read_evidence_range
  read_with args d (ok offset) (ok len) = after_read d (
      read_evidence_range host d.rc (map_string (get (msg "evidence_id") args)) offset len
        d.turn.evidence_budget)
  read_with args d (ok offset) (err e) = (d, err e)
  read_with args d (err e) len = (d, err e)

  unfoldable pub stat_reply : Desk host.World → Result Text EvidenceMeta → Reply
  unfolding remaining_bytes remaining_reads
  stat_reply d (ok meta) = (
    d,
    ok (
        evidence_stat meta (remaining_bytes d.rc.policy d.turn.evidence_budget)
          (remaining_reads d.rc.policy d.turn.evidence_budget)),
  )
  stat_reply d (err e) = (d, err e)

  unfoldable pub failed : {A : Type 0} → Result Text A → Bool
  failed (ok a) = false
  failed (err e) = true

  -- The third part says whether an error counts as an attempt.
  unfoldable pub call_council_tool :
      Text → Fields → Desk host.World → Desk host.World × Result Text CouncilReply × Bool
  unfolding stat_reply read_with submit_council_vote failed list_visible_evidence stat_evidence
      required_int_param
  call_council_tool tool args d =
      let id = map_string (get (msg "evidence_id") args) in
      let (stat_desk, stat) = stat_reply d (stat_evidence host d.rc id) in
      let (read_desk, range) =
        read_with args d (required_int_param args (msg "offset"))
          (required_int_param args (msg "length")) in
      let (vote_desk, vote) = submit_council_vote args d in
      if text_eq tool (msg "get_case")
      then (d, ok case_view, false)
      else if text_eq tool (msg "list_evidence")
      then (d, ok (evidence_list (list_visible_evidence d.rc.evidence)), false)
      else if text_eq tool (msg "stat_evidence")
      then (stat_desk, stat, false)
      else if text_eq tool (msg "read_evidence_range")
      then (read_desk, range, false)
      else if text_eq tool (msg "submit_council_vote")
      then (vote_desk, vote, failed vote)
      else (d, err (msg "unknown tool"), true)
