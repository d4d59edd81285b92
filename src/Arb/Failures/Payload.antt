-- ===== src/Arb/Failures/Payload.antt =====
-- failures.go, `failOpportunity`: what the recorded payload says.
use adjudication.Prelude.{false, ◌≡◌, arith}
use adjudication.Prelude.Text.{Text, text_eq_iff, is_empty, trim_space}
use adjudication.Json.{Fields, empty, field, get}
use adjudication.Json.Laws.{get-put}
use adjudication.Arb.Context.{Opportunity}
use adjudication.Arb.Failures.{is_null, merge_details, failure_payload}

pub get-merge_details :
    (key : Text) (details payload : Fields)
    → is_empty (trim_space key) ≡ false
    → is_null (get key details) ≡ false
    → get key (merge_details details payload) ≡ get key details
unfolding merge_details get
get-merge_details key empty payload h g = ground arith
get-merge_details key (field k v details) payload h g = ground (
  arith,
  get-merge_details key details payload,
  get-put k key v (merge_details details payload),
  text_eq_iff k key,
)

-- A detail with a name and a value is what the failure's payload says under that name, whatever
-- the failure's own fields say.
pub failure_payload-overridden :
    (o : Opportunity) (reason message key : Text) (details : Fields)
    → is_empty (trim_space key) ≡ false
    → is_null (get key details) ≡ false
    → get key (failure_payload o reason message details) ≡ get key details
unfolding failure_payload
failure_payload-overridden o reason message key details named given =
    get-merge_details key details _ named given
