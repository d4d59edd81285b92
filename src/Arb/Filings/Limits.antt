-- ===== src/Arb/Filings/Limits.antt =====
-- attorney_tools.go: what a decision that passes the checks is known to hold.
use adjudication.Prelude.{◌+◌, true, false, some, List, [], ◌∷◌, ok, ◌≡◌, arith, length, All}
use adjudication.Prelude.Int.{pos, ◌≤ℤ◌}
use adjudication.Prelude.Text.{Text, msg, is_empty, byte_length}
use adjudication.Prelude.Assoc.{lookup}
use adjudication.Json.{Fields, get}
use adjudication.Json.Print.{map_string}
use adjudication.Arb.Policy.{Policy}
use adjudication.Arb.Context.{CaseFile, Opportunity}
use adjudication.Arb.Filings.{
  check_offered, validate_offered_evidence, check_reports, validate_reports, is_merits_filing,
  offered_in, reports_in, validate_attorney_payload, attorney_decision, used_by, check_side_limits,
  validate_attorney_payload_against_state, tool_decision, pass_decision,
}

-- An entry names a file of the case that is not too large.
abbrev pub Offered : List (Text × CaseFile) → Policy → Fields → Type 0
Offered files policy entry =
    (file : CaseFile) × (lookup (map_string (get (msg "evidence_id") entry)) files ≡ some file)
    × (pos file.size_bytes ≤ℤ policy.max_exhibit_bytes)

-- A report has a title and a summary of allowed lengths.
abbrev pub Reported : Policy → Fields → Type 0
Reported policy entry =
    (is_empty (map_string (get (msg "title") entry)) ≡ false)
    × (is_empty (map_string (get (msg "summary") entry)) ≡ false)
    × (pos (byte_length (map_string (get (msg "title") entry))) ≤ℤ policy.max_report_title_bytes)
    × (pos (byte_length (map_string (get (msg "summary") entry)))
        ≤ℤ policy.max_report_summary_bytes)

check_offered_head :
    (files : List (Text × CaseFile)) (policy : Policy) (entry : Fields) (entries : List Fields)
    → check_offered files policy (entry ∷ entries) ≡ ok tt
    → Offered files policy entry × (check_offered files policy entries ≡ ok tt)
unfolding check_offered
check_offered_head files policy entry entries h = ground arith

check_offered-Offered :
    (files : List (Text × CaseFile)) (policy : Policy) (entries : List Fields)
    → check_offered files policy entries ≡ ok tt
    → All (Offered files policy) entries
check_offered-Offered files policy [] h = tt
check_offered-Offered files policy (entry ∷ entries) h =
    let (here, rest) = check_offered_head files policy entry entries h in
    (here, check_offered-Offered files policy entries rest)

check_reports_head :
    (policy : Policy) (entry : Fields) (entries : List Fields)
    → check_reports policy (entry ∷ entries) ≡ ok tt
    → Reported policy entry × (check_reports policy entries ≡ ok tt)
unfolding check_reports
check_reports_head policy entry entries h = ground arith

check_reports-Reported :
    (policy : Policy) (entries : List Fields)
    → check_reports policy entries ≡ ok tt
    → All (Reported policy) entries
check_reports-Reported policy [] h = tt
check_reports-Reported policy (entry ∷ entries) h =
    let (here, rest) = check_reports_head policy entry entries h in
    (here, check_reports-Reported policy entries rest)

-- What an argument, rebuttal or surrebuttal that passes both checks is known to hold.
pub record Filed (files : List (Text × CaseFile)) (policy : Policy) (state : Fields) (role : Text)
    (payload : Fields) : Type 0 where
  pub has_text : is_empty (map_string (get (msg "text") payload)) ≡ false
  pub offered : All (Offered files policy) (offered_in payload)
  pub offered_per_filing : pos (length (offered_in payload)) ≤ℤ policy.max_exhibits_per_filing
  pub offered_per_side :
      pos (used_by state role (msg "offered_evidence") + length (offered_in payload))
      ≤ℤ policy.max_exhibits_per_side
  pub reported : All (Reported policy) (reports_in payload)
  pub reports_per_filing : pos (length (reports_in payload)) ≤ℤ policy.max_reports_per_filing
  pub reports_per_side :
      pos (used_by state role (msg "technical_reports") + length (reports_in payload))
      ≤ℤ policy.max_reports_per_side

payload_parts :
    (action : Text) (payload : Fields) (files : List (Text × CaseFile)) (policy : Policy)
    → is_merits_filing action ≡ true
    → validate_attorney_payload action payload files policy ≡ ok tt
    → (is_empty (map_string (get (msg "text") payload)) ≡ false)
      × (pos (length (offered_in payload)) ≤ℤ policy.max_exhibits_per_filing)
      × (check_offered files policy (offered_in payload) ≡ ok tt)
      × (pos (length (reports_in payload)) ≤ℤ policy.max_reports_per_filing)
      × (check_reports policy (reports_in payload) ≡ ok tt)
unfolding validate_attorney_payload validate_offered_evidence validate_reports
payload_parts action payload files policy merits h = ground arith

side_parts :
    (policy : Policy) (state : Fields) (o : Opportunity) (action : Text) (payload : Fields)
    → is_merits_filing action ≡ true
    → validate_attorney_payload_against_state policy state o action payload ≡ ok tt
    → (pos (used_by state o.role (msg "offered_evidence") + length (offered_in payload))
        ≤ℤ policy.max_exhibits_per_side)
      × (pos (used_by state o.role (msg "technical_reports") + length (reports_in payload))
          ≤ℤ policy.max_reports_per_side)
unfolding validate_attorney_payload_against_state check_side_limits
side_parts policy state o action payload merits h = ground arith

-- An argument, rebuttal or surrebuttal that passes both checks has a text, offers only files of
-- the case that are not too large, reports only with titles and summaries of allowed lengths, and
-- keeps its filing and its side within the limits on their numbers.
pub validate_attorney_payload-Filed :
    (files : List (Text × CaseFile)) (policy : Policy) (state : Fields) (o : Opportunity)
    (action : Text) (payload : Fields)
    → is_merits_filing action ≡ true
    → validate_attorney_payload action payload files policy ≡ ok tt
    → validate_attorney_payload_against_state policy state o action payload ≡ ok tt
    → Filed files policy state o.role payload
validate_attorney_payload-Filed files policy state o action payload merits h k =
    let (text, few, offered, few_reports, reports) =
      payload_parts action payload files policy merits h in
    let (side, side_reports) = side_parts policy state o action payload merits k in
    record {
      has_text = text;
      offered = check_offered-Offered files policy (offered_in payload) offered;
      offered_per_filing = few;
      offered_per_side = side;
      reported = check_reports-Reported policy (reports_in payload) reports;
      reports_per_filing = few_reports;
      reports_per_side = side_reports;
    }

tool_decision-is_empty :
    (o : Opportunity) (params : Fields) (files : List (Text × CaseFile)) (policy : Policy)
    (action : Text) (payload : Fields)
    → tool_decision o params files policy ≡ ok (action, payload)
    → is_empty action ≡ false
unfolding tool_decision
tool_decision-is_empty o params files policy action payload h = ground arith

pass_decision-is_empty :
    (o : Opportunity) (action : Text) (payload : Fields)
    → pass_decision o ≡ ok (action, payload)
    → is_empty action ≡ false
unfolding pass_decision is_empty msg
pass_decision-is_empty o action payload h = ground arith

-- An action that is accepted has a name.
pub attorney_decision-is_empty :
    (o : Opportunity) (params : Fields) (files : List (Text × CaseFile)) (policy : Policy)
    (action : Text) (payload : Fields)
    → attorney_decision o params files policy ≡ ok (action, payload)
    → is_empty action ≡ false
unfolding attorney_decision
attorney_decision-is_empty o params files policy action payload h =
    grind (arith, tool_decision-is_empty, pass_decision-is_empty)
