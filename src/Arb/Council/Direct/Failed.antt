-- ===== src/Arb/Council/Direct/Failed.antt =====
-- council.go and failures.go: what the failure of a member's opportunity says.
use adjudication.Prelude.{In, inl, inr, List, [], ◌∷◌, ◌≡◌, refl, if-both}
use adjudication.Prelude.Text.{Text, msg, text_eq, is_empty, trim_space}
use adjudication.Json.{Fields, str, get, put}
use adjudication.Arb.Context.{Opportunity, CouncilSeat}
use adjudication.Arb.Failures.{failure_payload, merge_details, base_payload, is_null, is_council}
use adjudication.Arb.Council.Turn.{details_of}

-- The failure of an opportunity of a member.
pub record Failure (o : Opportunity) (member_id reason : Text) (payload : Fields) : Type 0 where
  pub of_type : get (msg "type") payload ≡ str (msg "opportunity_failed")
  pub of_role : get (msg "role") payload ≡ str o.role
  pub of_phase : get (msg "phase") payload ≡ str o.phase
  pub of_opportunity : get (msg "opportunity_id") payload ≡ str o.id
  pub because : get (msg "reason") payload ≡ str reason
  pub of_member : get (msg "member_id") payload ≡ str member_id

-- Why a member that the run asks itself fails.
abbrev pub member_failures : List Text
member_failures = msg "deadline_expired" ∷ msg "request_failed" ∷ msg "attempts_exhausted" ∷ []

pub member_failures-trim_space :
    (reason : Text) → In reason member_failures → trim_space reason ≡ reason
unfolding trim_space msg
member_failures-trim_space reason (inl p) = rw p refl
member_failures-trim_space reason (inr (inl p)) = rw p refl
member_failures-trim_space reason (inr (inr (inl p))) = rw p refl
member_failures-trim_space reason (inr (inr (inr h))) = elim h [ ]

pub failure_payload-Failure :
    (o : Opportunity) (reason message : Text) (seat : CouncilSeat)
    → Failure o seat.member_id reason (failure_payload o reason message (details_of seat))
unfolding failure_payload merge_details base_payload is_null details_of get put text_eq msg is_empty
    trim_space
failure_payload-Failure o reason message seat =
    if-both
      (λ base.
        Failure o seat.member_id reason
          (put (msg "member_id") (str seat.member_id) (put (msg "model") (str seat.model) base)))
      (is_council o) _ (base_payload o reason message)
      (record {
        of_type = refl;
        of_role = refl;
        of_phase = refl;
        of_opportunity = refl;
        because = refl;
        of_member = refl;
      })
      (record {
        of_type = refl;
        of_role = refl;
        of_phase = refl;
        of_opportunity = refl;
        because = refl;
        of_member = refl;
      })
