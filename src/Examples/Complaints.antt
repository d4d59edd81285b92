-- ===== src/Examples/Complaints.antt =====
-- A complaint of two lines; a pool request.
use adjudication.Prelude.{none, [], ◌∷◌, ◌++◌, true, ok, ◌≡◌, refl}
use adjudication.Prelude.Text.{Text, codes, msg, is_empty, trim_space, contains, has_prefix}
use adjudication.Prelude.Text.Cut.{split}
use adjudication.Json.{Fields, str, empty, field, get}
use adjudication.Arb.Complaint.{Complaint, parse_complaint_markdown, complaint_markdown, is_heading}
use adjudication.Arb.Complaint.Printed.{parse_complaint_markdown-complaint_markdown}
use adjudication.Common.ModelRequest.{Spec, runtime_model}
use adjudication.Common.ModelRequest.Ref.{ModelRef, parse_model_ref, upstream_model}
use adjudication.Common.ModelRequest.Parse.{parse_map}
use adjudication.Common.ModelRequest.Runs.{parse_map-Runs}

abbrev claim : Complaint
claim = record { proposition = codes " The sky" ++ (10 ∷ codes "is blue. ") }

abbrev claim_text : Text
claim_text = codes "The sky" ++ (10 ∷ codes "is blue.")

parse_complaint_markdown-complaint_markdown_example :
    parse_complaint_markdown (λ c. c) (complaint_markdown claim)
    ≡ ok (record { proposition = trim_space claim.proposition })
unfolding is_empty trim_space contains is_heading split
parse_complaint_markdown-complaint_markdown_example =
    parse_complaint_markdown-complaint_markdown (λ c. c) claim refl refl (refl, (refl, tt))

abbrev raw_request : Fields
raw_request =
    field (msg "endpoint") (str (msg " openrouter"))
      (field (msg "model") (str (msg "lab/m1?x")) empty)

abbrev request : Spec
request = record {
  endpoint = msg "openrouter";
  model = msg "lab/m1?x";
  provider = none;
  request = record {
    temperature = none;
    top_p = none;
    max_tokens = none;
    max_output_tokens = none;
  };
  headers = (codes "X-OpenRouter-Experimental-Metadata", codes "enabled") ∷ [];
  persona = [];
  variant_metadata = empty;
}

parse_map-Runs_example :
    (r : ModelRef) × (parse_model_ref (runtime_model request) ≡ ok r)
    × (r.endpoint ≡ request.endpoint)
    × (r.model ≡ trim_space (upstream_model request))
unfolding msg contains parse_map get has_prefix
parse_map-Runs_example = parse_map-Runs (λ c. c) (λ v. true) raw_request request refl refl
