-- ===== src/Arb/Lawyer/Reading.antt =====
-- lawyerapi.go, `callLawyerToolLocked`: the tools that read evidence; attorney_tools.go, the phases in which
-- they may be used.
use adjudication.Prelude.{Bool, true, false, ◌||◌, List, Result, ok, err, if◌then◌else◌}
use adjudication.Prelude.Int.{ℤ, pos}
use adjudication.Prelude.Text.{Text, msg, text_eq}
use adjudication.Json.{Fields, str, int, empty, field, get, required_int_param}
use adjudication.Json.Print.{map_string}
use adjudication.Arb.Context.{EvidenceMeta, Opportunity}
use adjudication.Arb.Context.Host.{Host}
use adjudication.Arb.Evidence.Registry.{stat_evidence}
use adjudication.Arb.Evidence.Read.{EvidenceReadBudget, EvidenceRange, read_evidence_range}
use adjudication.Arb.Failures.{record_event_at_turn}
use adjudication.Arb.Council.Tools.{remaining_bytes, remaining_reads, list_visible_evidence}
use adjudication.Arb.Lawyer.Turn.{LawyerDesk, run_on_desk}
use adjudication.Arb.Lawyer.Server.{Called}

-- What comes back from a tool that the model holds, or from another. A range and an item come with the
-- bytes and the reads that are left; the policy's own limits are not repeated.
pub data LawyerReply (A : Type 0) : Type 0 where
  decision_accepted : LawyerReply A
  listed : List EvidenceMeta → LawyerReply A
  found : EvidenceMeta → ℤ → ℤ → LawyerReply A
  ranged : EvidenceRange → ℤ → ℤ → LawyerReply A
  other_reply : A → LawyerReply A

unfoldable pub evidence_read_allowed : Opportunity → Bool
unfolding text_eq
evidence_read_allowed o =
    text_eq o.phase (msg "openings")
    || text_eq o.phase (msg "arguments")
    || text_eq o.phase (msg "rebuttals")
    || text_eq o.phase (msg "surrebuttals")
    || text_eq o.phase (msg "closings")

unfoldable pub lawyer_range_event : EvidenceRange → Fields
lawyer_range_event r = field (msg "evidence_id") (str r.evidence_id) (
    field (msg "offset") (int (pos r.offset)) (
      field (msg "length") (int (pos r.length))
        (field (msg "byte_count") (int (pos r.length)) empty)))

module _ (host : Host) (A : Type 0) where
  abbrev pub Reply : Type 0
  Reply = Called host.World (LawyerReply A)

  unfoldable pub lawyer_stat : LawyerDesk host.World → Result Text EvidenceMeta → Reply
  unfolding remaining_bytes remaining_reads
  lawyer_stat d (ok meta) = (
    d,
    ok (
        found meta (remaining_bytes d.rc.policy d.turn.evidence_budget)
          (remaining_reads d.rc.policy d.turn.evidence_budget)),
    false,
    false,
  )
  lawyer_stat d (err e) = (d, err e, false, false)

  unfoldable pub after_lawyer_event :
      EvidenceRange → LawyerDesk host.World × Result Text (Unit {0}) → Reply
  unfolding remaining_bytes remaining_reads
  after_lawyer_event r (d, ok u) = (
    d,
    ok (
        ranged r (remaining_bytes d.rc.policy d.turn.evidence_budget)
          (remaining_reads d.rc.policy d.turn.evidence_budget)),
    false,
    false,
  )
  after_lawyer_event r (d, err e) = (d, err e, false, false)

  unfoldable pub after_lawyer_read :
      LawyerDesk host.World → EvidenceReadBudget × Result Text EvidenceRange → Reply
  unfolding after_lawyer_event run_on_desk record_event_at_turn lawyer_range_event
  after_lawyer_read d (budget, ok r) = after_lawyer_event r (
      run_on_desk
        (record_event_at_turn host d.turn.turn_number (msg "evidence_read") d.turn.opportunity.role
          d.turn.opportunity.phase (lawyer_range_event r))
        (record d { turn = record d.turn { evidence_budget = budget } }))
  after_lawyer_read d (budget, err e) =
      (record d { turn = record d.turn { evidence_budget = budget } }, err e, false, false)

  unfoldable pub lawyer_read :
      Fields → LawyerDesk host.World → Result Text ℤ → Result Text ℤ → Reply
  unfolding after_lawyer_read read_evidence_range
  lawyer_read args d (ok offset) (ok len) = after_lawyer_read d (
      read_evidence_range host d.rc (map_string (get (msg "evidence_id") args)) offset len
        d.turn.evidence_budget)
  lawyer_read args d (ok offset) (err e) = (d, err e, false, false)
  lawyer_read args d (err e) len = (d, err e, false, false)

  -- A tool for the phases in which evidence may be read.
  unfoldable pub while_reading : LawyerDesk host.World → Reply → Reply
  unfolding evidence_read_allowed
  while_reading d reply =
      if evidence_read_allowed d.turn.opportunity
      then reply
      else (d, err (msg "evidence access is not allowed in this phase"), true, false)

  unfoldable pub reading_tool :
      (Text → Fields → LawyerDesk host.World → Reply)
      → Text
      → Fields
      → LawyerDesk host.World
      → Reply
  unfolding while_reading lawyer_stat lawyer_read list_visible_evidence stat_evidence
      required_int_param
  reading_tool other tool args d =
      if text_eq tool (msg "list_evidence")
      then while_reading d (d, ok (listed (list_visible_evidence d.rc.evidence)), false, false)
      else if text_eq tool (msg "stat_evidence")
      then while_reading d
          (lawyer_stat d (stat_evidence host d.rc (map_string (get (msg "evidence_id") args))))
      else if text_eq tool (msg "read_evidence_range")
      then while_reading d (
          lawyer_read args d (required_int_param args (msg "offset"))
            (required_int_param args (msg "length")))
      else other tool args d
