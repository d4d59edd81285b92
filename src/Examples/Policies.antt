-- ===== src/Examples/Policies.antt =====
-- The default policy.
use adjudication.Prelude.{none, ◌≡◌, refl, arith}
use adjudication.Prelude.Int.{pos, int_add, ◌+ℤ◌, ◌≤ℤ◌}
use adjudication.Prelude.Text.{trim_space, is_empty}
use adjudication.Arb.Policy.{default_policy, validate_policy}
use adjudication.Arb.Policy.Validation.{
  IsValid, validate_policy-IsValid, IsValid-validate_policy, validate_policy_one_outcome,
}

default_policy_passes : validate_policy default_policy ≡ none
unfolding validate_policy default_policy trim_space is_empty int_add ◌+ℤ◌
default_policy_passes = refl

pub default_policy-IsValid : IsValid default_policy
default_policy-IsValid = validate_policy-IsValid default_policy default_policy_passes

validate_policy-IsValid_example : IsValid default_policy
validate_policy-IsValid_example = validate_policy-IsValid default_policy default_policy_passes

IsValid-validate_policy_example : validate_policy default_policy ≡ none
unfolding default_policy
IsValid-validate_policy_example =
    IsValid-validate_policy default_policy default_policy-IsValid (omega arith)

validate_policy_one_outcome_example : ¬ (default_policy.required_votes_for_decision ≤ℤ pos 2)
unfolding default_policy
validate_policy_one_outcome_example =
    validate_policy_one_outcome default_policy 3 2 default_policy_passes (omega arith) (omega arith)
