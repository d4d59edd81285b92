-- ===== src/Common/ModelRequest.antt =====
-- common/modelrequest/spec.go: a request to a model, with its accessors. A header map is an
-- association list; a float stands as the JSON number it was read from.
pub mod Ref
pub mod Parse
pub mod Runs
use adjudication.Prelude.{
  Bool, true, false, ◌&&◌, Option, none, some, List, [], ◌∷◌, ◌++◌, if◌then◌else◌,
}
use adjudication.Prelude.Int.{ℤ, pos, ltb_ℤ}
use adjudication.Prelude.Text.{Text, codes, is_empty, trim_space}
use adjudication.Prelude.Text.Cut.{contains_text, cut}
use adjudication.Json.{
  Value, Items, Fields, bool, str, arr, nil, cons, empty, put, no_fields, text_items,
}

pub record ProviderConstraints : Type 0 where
  pub only : List Text
  pub allow_fallbacks : Option Bool
  pub require_parameters : Option Bool
  pub quantizations : List Text

pub record RequestParameters : Type 0 where
  pub temperature : Option Value
  pub top_p : Option Value
  pub max_tokens : Option ℤ
  pub max_output_tokens : Option ℤ

pub record Spec : Type 0 where
  pub endpoint : Text
  pub model : Text
  pub provider : Option ProviderConstraints
  pub request : RequestParameters
  pub headers : List (Text × Text)
  pub persona : Text
  pub variant_metadata : Fields

unfoldable pub scheme_mark : Text
scheme_mark = codes "://"

unfoldable pub runtime_model : Spec → Text
unfolding contains_text scheme_mark trim_space is_empty
runtime_model s =
    let model = trim_space s.model in
    let endpoint = trim_space s.endpoint in
    if contains_text scheme_mark model
    then model
    else if is_empty endpoint
    then model
    else endpoint ++ scheme_mark ++ model

put_texts : Text → List Text → Fields → Fields
unfolding text_items
put_texts key [] body = body
put_texts key (t ∷ ts) body = put key (arr (text_items (t ∷ ts))) body

put_bool : Text → Option Bool → Fields → Fields
put_bool key none body = body
put_bool key (some b) body = put key (bool b) body

-- The body of a request's `provider` field; `none` is Go's nil map.
unfoldable pub provider_body : Option ProviderConstraints → Option Fields
unfolding put_texts put_bool no_fields
provider_body none = none
provider_body (some p) =
    let body = put_texts (codes "quantizations") p.quantizations (
      put_bool (codes "require_parameters") p.require_parameters (
        put_bool (codes "allow_fallbacks") p.allow_fallbacks
          (put_texts (codes "only") p.only empty))) in
    if no_fields body then none else some body

or_else {ℓ} : {A : Type ℓ} → Option A → Option A → Option A
or_else (some a) other = some a
or_else none other = other

unfoldable pub max_output_tokens : Spec → Option ℤ
unfolding or_else
max_output_tokens s = or_else s.request.max_output_tokens s.request.max_tokens

is_none {ℓ} : {A : Type ℓ} → Option A → Bool
is_none none = true
is_none (some a) = false

unfoldable pub with_fallback_max_output_tokens : ℤ → Spec → Spec
unfolding max_output_tokens is_none
with_fallback_max_output_tokens max s =
    if ltb_ℤ (pos 0) max && is_none (max_output_tokens s)
    then record s { request = record s.request { max_output_tokens = some max } }
    else s
