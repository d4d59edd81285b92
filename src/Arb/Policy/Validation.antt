-- ===== src/Arb/Policy/Validation.antt =====
-- What `validate_policy` accepts.
use adjudication.Prelude.{ℕ, false, none, ◌≡◌, ◌+◌, ◌^◌, arith}
use adjudication.Prelude.Int.{
  +ℤ_parts, ℤ, pos, ◌≤ℤ◌, ◌<ℤ◌, ◌+ℤ◌, leb_ℤ, leb_ℤ→lt, ltb_ℤ→le, lt→leb_ℤ, le→ltb_ℤ, int_add,
  int_add_double-le, int_add_double,
}
use adjudication.Prelude.Text.{is_empty, trim_space}
use adjudication.Arb.Policy.Checks.{fact, ◌⊗◌, first_error-none, none-first_error}
use adjudication.Arb.Policy.{Policy, policy_checks, validate_policy}

-- The limits that a case may run under.
pub record IsValid (p : Policy) : Type 0 where
  pub council_positive : pos 0 <ℤ p.council_size
  pub standard_given : is_empty (trim_space p.evidence_standard) ≡ false
  pub votes_positive : pos 0 <ℤ p.required_votes_for_decision
  pub votes_within : p.required_votes_for_decision ≤ℤ p.council_size
  pub majority : p.council_size <ℤ p.required_votes_for_decision +ℤ p.required_votes_for_decision
  pub rounds_positive : pos 0 <ℤ p.max_deliberation_rounds
  pub opening_positive : pos 0 <ℤ p.max_opening_chars
  pub argument_positive : pos 0 <ℤ p.max_argument_chars
  pub rebuttal_positive : pos 0 <ℤ p.max_rebuttal_chars
  pub surrebuttal_positive : pos 0 <ℤ p.max_surrebuttal_chars
  pub closing_positive : pos 0 <ℤ p.max_closing_chars
  pub exhibits_nonneg : pos 0 ≤ℤ p.max_exhibits_per_filing
  pub exhibits_within : p.max_exhibits_per_filing ≤ℤ p.max_exhibits_per_side
  pub exhibit_positive : pos 0 <ℤ p.max_exhibit_bytes
  pub reports_nonneg : pos 0 ≤ℤ p.max_reports_per_filing
  pub reports_within : p.max_reports_per_filing ≤ℤ p.max_reports_per_side
  pub title_positive : pos 0 <ℤ p.max_report_title_bytes
  pub summary_positive : pos 0 <ℤ p.max_report_summary_bytes
  pub submitted_nonneg : pos 0 ≤ℤ p.max_submitted_evidence_per_side
  pub direct_positive : pos 0 <ℤ p.max_direct_submitted_evidence_bytes
  pub direct_within : p.max_direct_submitted_evidence_bytes ≤ℤ p.max_submitted_evidence_bytes
  pub chunk_positive : pos 0 <ℤ p.max_evidence_chunk_bytes
  pub chunk_within : p.max_evidence_chunk_bytes ≤ℤ p.max_evidence_upload_bytes
  pub upload_within : p.max_evidence_upload_bytes ≤ℤ p.max_submitted_evidence_bytes
  pub read_positive : pos 0 <ℤ p.max_evidence_read_bytes
  pub reads_positive : pos 0 <ℤ p.max_evidence_reads_per_opportunity
  pub read_within : p.max_evidence_read_bytes ≤ℤ p.max_evidence_read_bytes_per_opportunity

-- A failed positivity test.
positive : (z : ℤ) → leb_ℤ z (pos 0) ≡ false → pos 0 <ℤ z
positive z h = leb_ℤ→lt z (pos 0) h

majority_lem :
    (votes size : ℤ)
    → pos 0 <ℤ votes
    → leb_ℤ (int_add votes votes) size ≡ false
    → size <ℤ votes +ℤ votes
majority_lem votes size h e =
    omega (arith, leb_ℤ→lt (int_add votes votes) size e, int_add_double-le votes (omega arith))

-- A policy that validation accepts has every limit in range, is decided by a strict majority of
-- its council, and bounds each smaller limit by the larger one that it belongs to.
pub validate_policy-IsValid : (p : Policy) → validate_policy p ≡ none → IsValid p
unfolding validate_policy
validate_policy-IsValid p h =
    let known = λ (k : ℕ). fact (policy_checks p) k (first_error-none (policy_checks p) h) in
    record {
      council_positive = positive p.council_size (known 0);
      standard_given = (known 1);
      votes_positive = positive p.required_votes_for_decision (known 2);
      votes_within = ltb_ℤ→le p.council_size p.required_votes_for_decision (known 3);
      majority =
          majority_lem p.required_votes_for_decision p.council_size
            (positive p.required_votes_for_decision (known 2)) (known 4);
      rounds_positive = positive p.max_deliberation_rounds (known 5);
      opening_positive = positive p.max_opening_chars (known 6);
      argument_positive = positive p.max_argument_chars (known 7);
      rebuttal_positive = positive p.max_rebuttal_chars (known 8);
      surrebuttal_positive = positive p.max_surrebuttal_chars (known 9);
      closing_positive = positive p.max_closing_chars (known 10);
      exhibits_nonneg = ltb_ℤ→le p.max_exhibits_per_filing (pos 0) (known 11);
      exhibits_within = ltb_ℤ→le p.max_exhibits_per_side p.max_exhibits_per_filing (known 13);
      exhibit_positive = positive p.max_exhibit_bytes (known 14);
      reports_nonneg = ltb_ℤ→le p.max_reports_per_filing (pos 0) (known 15);
      reports_within = ltb_ℤ→le p.max_reports_per_side p.max_reports_per_filing (known 17);
      title_positive = positive p.max_report_title_bytes (known 18);
      summary_positive = positive p.max_report_summary_bytes (known 19);
      submitted_nonneg = ltb_ℤ→le p.max_submitted_evidence_per_side (pos 0) (known 20);
      direct_positive = positive p.max_direct_submitted_evidence_bytes (known 22);
      direct_within =
          ltb_ℤ→le p.max_submitted_evidence_bytes p.max_direct_submitted_evidence_bytes (known 23);
      chunk_positive = positive p.max_evidence_chunk_bytes (known 25);
      chunk_within = ltb_ℤ→le p.max_evidence_upload_bytes p.max_evidence_chunk_bytes (known 27);
      upload_within =
          ltb_ℤ→le p.max_submitted_evidence_bytes p.max_evidence_upload_bytes (known 26);
      read_positive = positive p.max_evidence_read_bytes (known 28);
      reads_positive = positive p.max_evidence_reads_per_opportunity (known 29);
      read_within =
          ltb_ℤ→le p.max_evidence_read_bytes_per_opportunity p.max_evidence_read_bytes (known 31);
    }

nonpositive_fails : (z : ℤ) → pos 0 <ℤ z → leb_ℤ z (pos 0) ≡ false
nonpositive_fails z h = lt→leb_ℤ z (pos 0) h

strict :
    (votes size : ℤ)
    → pos 0 <ℤ votes
    → votes <ℤ pos (2 ^ 62)
    → size <ℤ votes +ℤ votes
    → leb_ℤ (int_add votes votes) size ≡ false
strict votes size h small m =
    rw (int_add_double votes (omega arith) small) (lt→leb_ℤ (votes +ℤ votes) size m)

-- A policy with every limit in range, whose number of required votes is below 2^62, is accepted.
pub IsValid-validate_policy :
    (p : Policy)
    → IsValid p
    → p.required_votes_for_decision <ℤ pos (2 ^ 62)
    → validate_policy p ≡ none
unfolding validate_policy
IsValid-validate_policy p v small = none-first_error (policy_checks p) (
    nonpositive_fails p.council_size v.council_positive
    ⊗ v.standard_given
    ⊗ nonpositive_fails p.required_votes_for_decision v.votes_positive
    ⊗ le→ltb_ℤ p.council_size p.required_votes_for_decision v.votes_within
    ⊗ strict p.required_votes_for_decision p.council_size v.votes_positive small v.majority
    ⊗ nonpositive_fails p.max_deliberation_rounds v.rounds_positive
    ⊗ nonpositive_fails p.max_opening_chars v.opening_positive
    ⊗ nonpositive_fails p.max_argument_chars v.argument_positive
    ⊗ nonpositive_fails p.max_rebuttal_chars v.rebuttal_positive
    ⊗ nonpositive_fails p.max_surrebuttal_chars v.surrebuttal_positive
    ⊗ nonpositive_fails p.max_closing_chars v.closing_positive
    ⊗ le→ltb_ℤ p.max_exhibits_per_filing (pos 0) v.exhibits_nonneg
    ⊗ le→ltb_ℤ p.max_exhibits_per_side (pos 0) (omega arith)
    ⊗ le→ltb_ℤ p.max_exhibits_per_side p.max_exhibits_per_filing v.exhibits_within
    ⊗ nonpositive_fails p.max_exhibit_bytes v.exhibit_positive
    ⊗ le→ltb_ℤ p.max_reports_per_filing (pos 0) v.reports_nonneg
    ⊗ le→ltb_ℤ p.max_reports_per_side (pos 0) (omega arith)
    ⊗ le→ltb_ℤ p.max_reports_per_side p.max_reports_per_filing v.reports_within
    ⊗ nonpositive_fails p.max_report_title_bytes v.title_positive
    ⊗ nonpositive_fails p.max_report_summary_bytes v.summary_positive
    ⊗ le→ltb_ℤ p.max_submitted_evidence_per_side (pos 0) v.submitted_nonneg
    ⊗ nonpositive_fails p.max_submitted_evidence_bytes (omega arith)
    ⊗ nonpositive_fails p.max_direct_submitted_evidence_bytes v.direct_positive
    ⊗ le→ltb_ℤ p.max_submitted_evidence_bytes p.max_direct_submitted_evidence_bytes v.direct_within
    ⊗ nonpositive_fails p.max_evidence_upload_bytes (omega arith)
    ⊗ nonpositive_fails p.max_evidence_chunk_bytes v.chunk_positive
    ⊗ le→ltb_ℤ p.max_submitted_evidence_bytes p.max_evidence_upload_bytes v.upload_within
    ⊗ le→ltb_ℤ p.max_evidence_upload_bytes p.max_evidence_chunk_bytes v.chunk_within
    ⊗ nonpositive_fails p.max_evidence_read_bytes v.read_positive
    ⊗ nonpositive_fails p.max_evidence_reads_per_opportunity v.reads_positive
    ⊗ nonpositive_fails p.max_evidence_read_bytes_per_opportunity (omega arith)
    ⊗ le→ltb_ℤ p.max_evidence_read_bytes_per_opportunity p.max_evidence_read_bytes v.read_within
    ⊗ tt)

-- Under an accepted policy two disjoint groups of council members cannot both hold the number of
-- votes that a decision requires.
pub validate_policy_one_outcome :
    (p : Policy) (yes_votes no_votes : ℕ)
    → validate_policy p ≡ none
    → pos (yes_votes + no_votes) ≤ℤ p.council_size
    → p.required_votes_for_decision ≤ℤ pos yes_votes
    → ¬ (p.required_votes_for_decision ≤ℤ pos no_votes)
validate_policy_one_outcome p yes_votes no_votes h within reached other = omega (
  arith,
  (validate_policy-IsValid p h).majority,
  +ℤ_parts p.required_votes_for_decision p.required_votes_for_decision,
)
