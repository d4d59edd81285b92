-- ===== src/Arb/Policy.antt =====
-- arb/runtime/proceeding/policy.go and the two records of types.go: the limits of a case, their
-- defaults, and their validation.
mod Checks
pub mod Validation
use adjudication.Prelude.{◌+◌, ◌*◌, Bool, true, false, Option, none, some, List, [], ◌∷◌, ◌≡◌, refl}
use adjudication.Prelude.Int.{ℤ, pos, ltb_ℤ, leb_ℤ, int_add}
use adjudication.Prelude.Text.{Text, codes, trim_space, is_empty}
unfoldable pub use Checks.{first_error}

-- `int` fields are signed: validation rejects what is not positive.
pub record Policy : Type 0 where
  pub council_size : ℤ
  pub evidence_standard : Text
  pub required_votes_for_decision : ℤ
  pub max_deliberation_rounds : ℤ
  pub max_opening_chars : ℤ
  pub max_argument_chars : ℤ
  pub max_rebuttal_chars : ℤ
  pub max_surrebuttal_chars : ℤ
  pub max_closing_chars : ℤ
  pub max_exhibits_per_filing : ℤ
  pub max_exhibits_per_side : ℤ
  pub max_exhibit_bytes : ℤ
  pub max_reports_per_filing : ℤ
  pub max_reports_per_side : ℤ
  pub max_report_title_bytes : ℤ
  pub max_report_summary_bytes : ℤ
  pub max_submitted_evidence_per_side : ℤ
  pub max_submitted_evidence_bytes : ℤ
  pub max_direct_submitted_evidence_bytes : ℤ
  pub max_evidence_upload_bytes : ℤ
  pub max_evidence_chunk_bytes : ℤ
  pub max_evidence_read_bytes : ℤ
  pub max_evidence_reads_per_opportunity : ℤ
  pub max_evidence_read_bytes_per_opportunity : ℤ

pub record RuntimeLimits : Type 0 where
  pub council_llm_timeout_seconds : ℤ
  pub lawyer_turn_timeout_seconds : ℤ
  pub max_response_bytes : ℤ
  pub invalid_attempt_limit : ℤ
  pub council_max_output_tokens : ℤ

-- What a refusal says: `must be positive`, `must be non-negative`, `is required`, `exceeds`.
pub data PolicyError : Type 0 where
  not_positive : Text → PolicyError
  negative : Text → PolicyError
  standard_required : PolicyError
  votes_exceed_council : PolicyError
  not_strict_majority : PolicyError
  exceeds : Text → Text → PolicyError

unfoldable pub default_policy : Policy
default_policy = record {
  council_size = pos 5;
  evidence_standard = codes "Preponderance of the evidence.";
  required_votes_for_decision = pos 3;
  max_deliberation_rounds = pos 3;
  max_opening_chars = pos 5000;
  max_argument_chars = pos 6000;
  max_rebuttal_chars = pos 4000;
  max_surrebuttal_chars = pos 4000;
  max_closing_chars = pos 5000;
  max_exhibits_per_filing = pos 9;
  max_exhibits_per_side = pos 12;
  max_exhibit_bytes = pos (128 * 1024);
  max_reports_per_filing = pos 3;
  max_reports_per_side = pos 4;
  max_report_title_bytes = pos 256;
  max_report_summary_bytes = pos 8192;
  max_submitted_evidence_per_side = pos 8;
  max_submitted_evidence_bytes = pos (64 * 1024 * 1024);
  max_direct_submitted_evidence_bytes = pos (128 * 1024);
  max_evidence_upload_bytes = pos (64 * 1024 * 1024);
  max_evidence_chunk_bytes = pos (64 * 1024);
  max_evidence_read_bytes = pos (64 * 1024);
  max_evidence_reads_per_opportunity = pos 32;
  max_evidence_read_bytes_per_opportunity = pos (512 * 1024);
}

unfoldable pub default_runtime_limits : RuntimeLimits
default_runtime_limits = record {
  council_llm_timeout_seconds = pos 240;
  lawyer_turn_timeout_seconds = pos 900;
  max_response_bytes = pos (128 * 1024);
  invalid_attempt_limit = pos 3;
  council_max_output_tokens = pos 4096;
}

abbrev is_nonpositive : ℤ → Bool
is_nonpositive z = leb_ℤ z (pos 0)

abbrev is_negative : ℤ → Bool
is_negative z = ltb_ℤ z (pos 0)

abbrev exceeds_bound : ℤ → ℤ → Bool
exceeds_bound a b = ltb_ℤ b a

-- The cases of the `switch`, in order.
policy_checks : Policy → List (Bool × PolicyError)
policy_checks p =
    (is_nonpositive p.council_size, not_positive (codes "council_size"))
    ∷ (is_empty (trim_space p.evidence_standard), standard_required)
    ∷ (
      is_nonpositive p.required_votes_for_decision,
      not_positive (codes "required_votes_for_decision"),
    )
    ∷ (exceeds_bound p.required_votes_for_decision p.council_size, votes_exceed_council)
    ∷ (
      leb_ℤ (int_add p.required_votes_for_decision p.required_votes_for_decision) p.council_size,
      not_strict_majority,
    )
    ∷ (is_nonpositive p.max_deliberation_rounds, not_positive (codes "max_deliberation_rounds"))
    ∷ (is_nonpositive p.max_opening_chars, not_positive (codes "max_opening_chars"))
    ∷ (is_nonpositive p.max_argument_chars, not_positive (codes "max_argument_chars"))
    ∷ (is_nonpositive p.max_rebuttal_chars, not_positive (codes "max_rebuttal_chars"))
    ∷ (is_nonpositive p.max_surrebuttal_chars, not_positive (codes "max_surrebuttal_chars"))
    ∷ (is_nonpositive p.max_closing_chars, not_positive (codes "max_closing_chars"))
    ∷ (is_negative p.max_exhibits_per_filing, negative (codes "max_exhibits_per_filing"))
    ∷ (is_negative p.max_exhibits_per_side, negative (codes "max_exhibits_per_side"))
    ∷ (
      exceeds_bound p.max_exhibits_per_filing p.max_exhibits_per_side,
      exceeds (codes "max_exhibits_per_filing") (codes "max_exhibits_per_side"),
    )
    ∷ (is_nonpositive p.max_exhibit_bytes, not_positive (codes "max_exhibit_bytes"))
    ∷ (is_negative p.max_reports_per_filing, negative (codes "max_reports_per_filing"))
    ∷ (is_negative p.max_reports_per_side, negative (codes "max_reports_per_side"))
    ∷ (
      exceeds_bound p.max_reports_per_filing p.max_reports_per_side,
      exceeds (codes "max_reports_per_filing") (codes "max_reports_per_side"),
    )
    ∷ (is_nonpositive p.max_report_title_bytes, not_positive (codes "max_report_title_bytes"))
    ∷ (is_nonpositive p.max_report_summary_bytes, not_positive (codes "max_report_summary_bytes"))
    ∷ (
      is_negative p.max_submitted_evidence_per_side,
      negative (codes "max_submitted_evidence_per_side"),
    )
    ∷ (
      is_nonpositive p.max_submitted_evidence_bytes,
      not_positive (codes "max_submitted_evidence_bytes"),
    )
    ∷ (
      is_nonpositive p.max_direct_submitted_evidence_bytes,
      not_positive (codes "max_direct_submitted_evidence_bytes"),
    )
    ∷ (
      exceeds_bound p.max_direct_submitted_evidence_bytes p.max_submitted_evidence_bytes,
      exceeds (codes "max_direct_submitted_evidence_bytes") (codes "max_submitted_evidence_bytes"),
    )
    ∷ (is_nonpositive p.max_evidence_upload_bytes, not_positive (codes "max_evidence_upload_bytes"))
    ∷ (is_nonpositive p.max_evidence_chunk_bytes, not_positive (codes "max_evidence_chunk_bytes"))
    ∷ (
      exceeds_bound p.max_evidence_upload_bytes p.max_submitted_evidence_bytes,
      exceeds (codes "max_evidence_upload_bytes") (codes "max_submitted_evidence_bytes"),
    )
    ∷ (
      exceeds_bound p.max_evidence_chunk_bytes p.max_evidence_upload_bytes,
      exceeds (codes "max_evidence_chunk_bytes") (codes "max_evidence_upload_bytes"),
    )
    ∷ (is_nonpositive p.max_evidence_read_bytes, not_positive (codes "max_evidence_read_bytes"))
    ∷ (
      is_nonpositive p.max_evidence_reads_per_opportunity,
      not_positive (codes "max_evidence_reads_per_opportunity"),
    )
    ∷ (
      is_nonpositive p.max_evidence_read_bytes_per_opportunity,
      not_positive (codes "max_evidence_read_bytes_per_opportunity"),
    )
    ∷ (
      exceeds_bound p.max_evidence_read_bytes p.max_evidence_read_bytes_per_opportunity,
      exceeds (codes "max_evidence_read_bytes") (codes "max_evidence_read_bytes_per_opportunity"),
    )
    ∷ []

unfoldable pub validate_policy : Policy → Option PolicyError
unfolding policy_checks first_error
validate_policy p = first_error (policy_checks p)

runtime_checks : RuntimeLimits → List (Bool × PolicyError)
runtime_checks l =
    (
      is_nonpositive l.council_llm_timeout_seconds,
      not_positive (codes "council_llm_timeout_seconds"),
    )
    ∷ (
      is_nonpositive l.lawyer_turn_timeout_seconds,
      not_positive (codes "lawyer_turn_timeout_seconds"),
    )
    ∷ (is_nonpositive l.max_response_bytes, not_positive (codes "max_response_bytes"))
    ∷ (is_nonpositive l.invalid_attempt_limit, not_positive (codes "invalid_attempt_limit"))
    ∷ (is_nonpositive l.council_max_output_tokens, not_positive (codes "council_max_output_tokens"))
    ∷ []

unfoldable pub validate_runtime_limits : RuntimeLimits → Option PolicyError
unfolding runtime_checks first_error
validate_runtime_limits l = first_error (runtime_checks l)
