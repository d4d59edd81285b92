-- ===== src/Arb/Lawyer/Feedback.antt =====
-- invalid_attempts.go: the texts that answer an attorney's invalid decision. The two regular expressions
-- with `strconv.Atoi` are the record `CharLimitPatterns`: the label and the numbers of a reason that
-- matches and whose numbers fit.
use adjudication.Prelude.{
  ℕ, suc, ◌*◌, ◌/◌, ◌%◌, ◌^◌, Bool, ◌&&◌, ◌||◌, Option, none, some, List, [], ◌∷◌, ◌++◌, length,
  if◌then◌else◌, leb, ◌-◌,
}
use adjudication.Prelude.Int.{ℤ, pos, negsuc, ltb_ℤ, leb_ℤ, ◌-ℤ◌}
use adjudication.Prelude.Text.{Text, codes, is_empty, trim_space, has_prefix, text_eq}
use adjudication.Prelude.Text.Cut.{contains_text, join}
use adjudication.Json.{int}
use adjudication.Json.Print.{decimal, map_string}
use adjudication.Arb.Policy.{Policy}
use adjudication.Arb.Context.{Opportunity}
use adjudication.Arb.Filings.{phase_text_char_limit}
use adjudication.Arb.Council.Feedback.{ensure_terminal_period, invalid_submission_word}

pub record CharLimitPatterns : Type 0 where
  pub with_count : Text → Option (Text × ℤ × ℤ)
  pub without_count : Text → Option (Text × ℤ)

show : ℤ → Text
unfolding map_string
show n = map_string (int n)

-- Three quarters, rounded toward zero; a product that wraps round to a negative number is not positive.
unfoldable pub target_submission_char_limit : ℤ → ℤ
target_submission_char_limit (negsuc n) = pos 0
target_submission_char_limit (pos n) =
    let product = (n * 3) % 2 ^ 64 in
    let target = if leb (2 ^ 63) product then 0 else product / 4 in
    if leb target 0 then pos n else pos target

unfoldable pub resubmission_char_limit : ℤ → ℤ
unfolding target_submission_char_limit
resubmission_char_limit limit =
    if leb_ℤ limit (pos 0) then pos 0 else target_submission_char_limit limit

upper_first : Text → Text
upper_first [] = []
upper_first (c ∷ s) = (if leb b'a' c && leb c b'z' then c - 32 else c) ∷ s

-- For a label that begins with an ASCII character.
unfoldable pub upper_first_ascii : Text → Text
unfolding upper_first trim_space
upper_first_ascii value = upper_first (trim_space value)

unfoldable pub filing_label_for_phase : Text → Text
unfolding text_eq
filing_label_for_phase phase =
    if text_eq phase (codes "openings")
    then codes "opening statement"
    else if text_eq phase (codes "arguments")
    then codes "argument"
    else if text_eq phase (codes "rebuttals")
    then codes "rebuttal"
    else if text_eq phase (codes "surrebuttals")
    then codes "surrebuttal"
    else if text_eq phase (codes "closings")
    then codes "closing statement"
    else codes "submission"

resubmit_at : ℤ → Text
unfolding show resubmission_char_limit
resubmit_at limit =
    codes "Resubmit at "
    ++ (show (resubmission_char_limit limit)
        ++ codes " characters or fewer. Count characters, not tokens.")

overflow_reason : Text → Bool
unfolding has_prefix
overflow_reason reason =
    has_prefix reason (codes "offered_evidence for this side exceed limit of")
    || has_prefix reason (codes "technical_reports for this side exceed limit of")
    || has_prefix reason (codes "offered_evidence exceed per-filing limit of")
    || has_prefix reason (codes "technical_reports exceed per-filing limit of")

-- A reason that is not about a character limit: its text, and the correction.
other_reason : Text → Text × Text
unfolding overflow_reason contains_text text_eq ensure_terminal_period
other_reason reason =
    let stated = ensure_terminal_period reason in
    if overflow_reason reason
    then (stated, codes "Remove the overflow and resubmit within the stated limit.")
    else if contains_text (codes "offered_evidence must use visible case evidence_id values") reason
    then (
      stated,
      codes "Use only visible case evidence_id values in offered_evidence and resubmit.",
    )
    else if text_eq reason (codes "payload.text is required")
    then (codes "payload.text is required.", codes "Provide payload.text and resubmit.")
    else if contains_text (codes "entry requires") reason
    then (stated, codes "Add the missing required field and resubmit.")
    else if contains_text (codes "is not allowed in this opportunity") reason
        || contains_text (codes "passing is not allowed") reason
        || text_eq reason (codes "submit_decision kind must be tool or pass")
    then (stated, codes "Use an allowed legal act for this opportunity and resubmit.")
    else (stated, codes "Correct the submission and resubmit.")

module _ (patterns : CharLimitPatterns) (o : Opportunity) (policy : Policy) where
  phase_limit : ℤ → Option (Text × ℤ)
  unfolding filing_label_for_phase
  phase_limit limit =
      if leb_ℤ limit (pos 0) then none else some (filing_label_for_phase o.phase, limit)

  limit_or_phase : Text → Option (Text × ℤ) → Option (Text × ℤ)
  unfolding trim_space contains_text phase_limit phase_text_char_limit
  limit_or_phase reason (some (label, limit)) = some (trim_space label, limit)
  limit_or_phase reason none =
      if contains_text (codes "exceeds character limit") reason
      then phase_limit (phase_text_char_limit policy o.phase)
      else none

  unfoldable pub parse_char_limit_reason_without_count : Text → Option (Text × ℤ)
  unfolding limit_or_phase
  parse_char_limit_reason_without_count reason =
      limit_or_phase reason (patterns.without_count reason)

  uncounted : Text → Option (Text × ℤ) → Text × Text
  unfolding upper_first_ascii show resubmit_at other_reason
  uncounted reason none = other_reason reason
  uncounted reason (some (label, limit)) = (
    upper_first_ascii label
        ++ (codes " exceeds the character limit: " ++ (show limit ++ codes " allowed.")),
    resubmit_at limit,
  )

  counted_reason : Text → Option (Text × ℤ × ℤ) → Text × Text
  unfolding uncounted parse_char_limit_reason_without_count upper_first_ascii show resubmit_at
      trim_space
  counted_reason reason none = uncounted reason (parse_char_limit_reason_without_count reason)
  counted_reason reason (some (label, limit, got)) = (
    upper_first_ascii (trim_space label)
        ++ (codes " exceeds the character limit: "
            ++ (show got
                ++ (codes " characters submitted, " ++ (show limit ++ codes " allowed.")))),
    resubmit_at limit,
  )

  -- The text of a reason, and the correction.
  unfoldable pub attorney_invalid_reason_text : Text → Text × Text
  unfolding counted_reason trim_space
  attorney_invalid_reason_text reason =
      counted_reason (trim_space reason) (patterns.with_count (trim_space reason))

  history_from : ℕ → List Text → List Text
  unfolding attorney_invalid_reason_text is_empty decimal trim_space
  history_from n [] = []
  history_from n (r ∷ reasons) =
      let text = (attorney_invalid_reason_text (trim_space r)).0 in
      let kept =
        (codes "attempt " ++ (decimal n ++ (codes ": " ++ text))) ∷ history_from (suc n) reasons in
      let skipped = history_from n reasons in if is_empty text then skipped else kept

  join_semicolons : List Text → Text
  join_semicolons [] = []
  join_semicolons (s ∷ []) = s
  join_semicolons (s ∷ t ∷ rest) = s ++ (codes "; " ++ join_semicolons (t ∷ rest))

  unfoldable pub format_attorney_invalid_submission_history : List Text → Text
  unfolding history_from join_semicolons
  format_attorney_invalid_submission_history [] = []
  format_attorney_invalid_submission_history (r ∷ []) = []
  format_attorney_invalid_submission_history (r ∷ s ∷ reasons) =
      join_semicolons (history_from 1 (r ∷ s ∷ reasons))

  last_of : Text → List Text → Text
  last_of r [] = r
  last_of r (s ∷ reasons) = last_of s reasons

  attempt_line : ℕ → ℤ → Text
  unfolding show decimal
  attempt_line attempt limit =
      codes "This is invalid submission "
      ++ (decimal attempt ++ (codes " of " ++ (show limit ++ codes " for this opportunity. ")))

  -- A line that is there where it says something.
  line_of : Text → List Text
  line_of [] = []
  line_of (c ∷ s) = (c ∷ s) ∷ []

  remaining_lines : ℕ → ℤ → ℤ → Text → List Text
  unfolding attempt_line show line_of invalid_submission_word
  remaining_lines attempt limit remaining corrective =
      (attempt_line attempt limit
          ++ (codes "You have "
              ++ (show remaining
                  ++ (codes " invalid "
                      ++ (invalid_submission_word remaining ++ codes " remaining.")))))
        ∷ line_of corrective
      ++ codes
          "If you exhaust the remaining invalid submissions, this opportunity will fail and the run will end with an error."
        ∷ []

  last_lines : ℕ → ℤ → Text → List Text
  unfolding attempt_line
  last_lines attempt limit [] =
      (attempt_line attempt limit ++ codes "No invalid submissions remain.")
      ∷ codes "This opportunity has failed, and the run is ending with an error."
      ∷ []
  last_lines attempt limit (c ∷ history) =
      (attempt_line attempt limit ++ codes "No invalid submissions remain.")
      ∷ codes "This opportunity has failed, and the run is ending with an error."
      ∷ (codes "Invalid submission history: " ++ (c ∷ history))
      ∷ []

  unfoldable pub format_attorney_invalid_decision_error : List Text → ℤ → Text
  unfolding attorney_invalid_reason_text remaining_lines last_lines last_of trim_space join
      format_attorney_invalid_submission_history
  format_attorney_invalid_decision_error [] limit =
      trim_space o.role ++ codes " submission is invalid"
  format_attorney_invalid_decision_error (r ∷ reasons) limit =
      let (text, corrective) = attorney_invalid_reason_text (trim_space (last_of r reasons)) in
      let attempt = length (r ∷ reasons) in
      let remaining = limit -ℤ pos attempt in
      join 10 (
        text
        ∷ (if ltb_ℤ (pos 0) remaining
            then remaining_lines attempt limit remaining corrective
            else last_lines attempt limit
                (format_attorney_invalid_submission_history (r ∷ reasons))))
