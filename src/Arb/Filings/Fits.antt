-- ===== src/Arb/Filings/Fits.antt =====
-- attorney_tools.go, `validateAttorneyPayloadAgainstState`: exactly which payloads fit the state.
use adjudication.Prelude.{
  ℕ, reject_if, In, ◌+◌, ◌↔◌, inl, inr, List, [], ◌∷◌, ok, ◌≡◌, refl, arith, length, subst,
  Bool-cases, if◌then◌else◌,
}
use adjudication.Prelude.Int.{ℤ, ltb_ℤ, pos, ◌≤ℤ◌, ◌<ℤ◌}
use adjudication.Prelude.Text.{Text, msg, text_eq, text_eq→eq, trim_space}
use adjudication.Json.{Fields, get, map_any, map_list}
use adjudication.Json.Print.{map_string}
use adjudication.Arb.Policy.{Policy}
use adjudication.Arb.Context.{Opportunity}
use adjudication.Arb.Filings.{
  is_merits_filing, used_by, filing_count_for_role, check_side_limits, check_text_limit,
  validate_attorney_payload_against_state, phase_text_char_limit, offered_in, reports_in,
}
use adjudication.Arb.Filings.Accepted.{merits_filings, is_merits_filing-In}

-- The policy's limit on the length of a text, by phase.
abbrev pub char_limits : Policy → List (Text × ℤ)
char_limits policy =
    (msg "openings", policy.max_opening_chars)
    ∷ (msg "arguments", policy.max_argument_chars)
    ∷ (msg "rebuttals", policy.max_rebuttal_chars)
    ∷ (msg "surrebuttals", policy.max_surrebuttal_chars)
    ∷ (msg "closings", policy.max_closing_chars)
    ∷ []

-- The entries of a list that are a role's.
abbrev pub filed_by : Text → List Fields → List Fields
filed_by role [] = []
filed_by role (item ∷ items) =
    let rest = filed_by role items in
    if text_eq (map_string (get (msg "role") item)) role then item ∷ rest else rest

-- A payload for an action in a phase: its text is within the phase's limit, where that is positive; and a
-- filing on the merits keeps what the role has filed, in the state's case, with what it offers now, within
-- the limits for a side.
pub record Fits (policy : Policy) (state : Fields) (role phase action : Text) (payload : Fields)
    : Type 0 where
  pub text :
      (limit : ℤ)
      → In (phase, limit) (char_limits policy)
      → pos 0 <ℤ limit
      → pos (length (trim_space (map_string (get (msg "text") payload)))) ≤ℤ limit
  pub exhibits :
      In action merits_filings
      → pos (
          length (
            filed_by role
              (map_list (get (msg "offered_evidence") (map_any (get (msg "case") state)))))
          + length (map_list (get (msg "offered_evidence") payload)))
        ≤ℤ policy.max_exhibits_per_side
  pub reports :
      In action merits_filings
      → pos (
          length (
            filed_by role
              (map_list (get (msg "technical_reports") (map_any (get (msg "case") state)))))
          + length (map_list (get (msg "technical_reports") payload)))
        ≤ℤ policy.max_reports_per_side

phase_text_char_limit-In :
    (policy : Policy) (phase : Text) (limit : ℤ)
    → In (phase, limit) (char_limits policy)
    → phase_text_char_limit policy phase ≡ limit
unfolding phase_text_char_limit text_eq msg
phase_text_char_limit-In policy phase limit h = ground arith

In-phase_text_char_limit :
    (policy : Policy) (phase : Text)
    → pos 0 <ℤ phase_text_char_limit policy phase
    → In (phase, phase_text_char_limit policy phase) (char_limits policy)
unfolding phase_text_char_limit
In-phase_text_char_limit policy phase h = ground (
  arith,
  text_eq→eq phase (msg "openings"),
  text_eq→eq phase (msg "arguments"),
  text_eq→eq phase (msg "rebuttals"),
  text_eq→eq phase (msg "surrebuttals"),
  text_eq→eq phase (msg "closings"),
)

filing_count_for_role-length :
    (role : Text) (items : List Fields)
    → filing_count_for_role items role ≡ length (filed_by role items)
unfolding filing_count_for_role
filing_count_for_role-length role [] = refl
filing_count_for_role-length role (item ∷ items) =
    ground (arith, filing_count_for_role-length role items)

text_within :
    (action : Text) (limit : ℤ) (payload : Fields)
    → pos 0 <ℤ limit
    → check_text_limit action limit payload ≡ ok tt
    → pos (length (trim_space (map_string (get (msg "text") payload)))) ≤ℤ limit
unfolding check_text_limit
text_within action limit payload positive h = ground arith

limited :
    (limit : ℤ) (count : ℕ) (e : Text)
    → (pos 0 <ℤ limit → pos count ≤ℤ limit)
    → (if ltb_ℤ (pos 0) limit then reject_if (ltb_ℤ limit (pos count)) e else ok tt) ≡ ok tt
limited limit count e h = ground arith

text_fits :
    (action : Text) (limit : ℤ) (payload : Fields)
    → (pos 0 <ℤ limit → pos (length (trim_space (map_string (get (msg "text") payload)))) ≤ℤ limit)
    → check_text_limit action limit payload ≡ ok tt
unfolding check_text_limit
text_fits action limit payload h =
    limited limit (length (trim_space (map_string (get (msg "text") payload)))) _ h

module _ (policy : Policy) (state : Fields) (o : Opportunity) (action : Text)
    (payload : Fields) where
  -- A payload passes the checks against the state exactly where its text is within the limit that
  -- the policy sets for the phase, if that is positive, and, for an argument, rebuttal or
  -- surrebuttal, the exhibits and the reports that the role has filed in the state's case, with
  -- those that it offers, are within the limits for a side.
  pub validate_attorney_payload_against_state-Fits :
      (validate_attorney_payload_against_state policy state o action payload ≡ ok tt)
      ↔ Fits policy state o.role o.phase action payload
  unfolding validate_attorney_payload_against_state check_side_limits used_by offered_in reports_in
  validate_attorney_payload_against_state-Fits = (
    λ h. record {
      text = λ limit at positive.
          let same = phase_text_char_limit-In policy o.phase limit at in
          let short : check_text_limit action limit payload ≡ ok tt =
            subst (λ l. check_text_limit action l payload ≡ ok tt) same (ground arith) in
          text_within action limit payload positive short;
      exhibits = λ merits.
          let m = (is_merits_filing-In action).1 merits in
          let n =
            filing_count_for_role-length o.role
              (map_list (get (msg "offered_evidence") (map_any (get (msg "case") state)))) in
          ground arith;
      reports = λ merits.
          let m = (is_merits_filing-In action).1 merits in
          let n =
            filing_count_for_role-length o.role
              (map_list (get (msg "technical_reports") (map_any (get (msg "case") state)))) in
          ground arith;
    },
    λ fits.
        let case = map_any (get (msg "case") state) in
        let used =
          filing_count_for_role-length o.role (map_list (get (msg "offered_evidence") case)) in
        let reported =
          filing_count_for_role-length o.role (map_list (get (msg "technical_reports") case)) in
        let short =
          text_fits action (phase_text_char_limit policy o.phase) payload
            (λ positive. fits.text _ (In-phase_text_char_limit policy o.phase positive) positive) in
        elim (Bool-cases (is_merits_filing action)) [
          | inr p ↦ rw (short, p) refl
          | inl p ↦
              let exhibits = fits.exhibits ((is_merits_filing-In action).0 p) in
              let reports = fits.reports ((is_merits_filing-In action).0 p) in
              rw (short, p) (ground arith)
        ],
  )
