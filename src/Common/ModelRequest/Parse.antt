-- ===== src/Common/ModelRequest/Parse.antt =====
-- common/modelrequest/spec.go, `ParseMap`: a request from a decoded JSON object. A literal is `int`
-- where it has neither a fraction nor an exponent; `in_range` tells whether a number fits a float,
-- and `table` lowers the characters beyond ASCII. Reading the JSON text is left out.
use adjudication.Prelude.{
  ℕ, ◌-◌, Bool, true, false, not, ◌&&◌, ◌||◌, Option, none, some, List, [], ◌∷◌, ◌++◌, Result, ok,
  err, ◌>>◌, reject_if, if◌then◌else◌,
}
use adjudication.Prelude.Int.{ℤ, pos, negsuc, leb_ℤ, two63}
use adjudication.Prelude.Text.{Text, codes, is_empty, trim_space, text_eq, to_lower}
use adjudication.Prelude.Text.Cut.{contains_text}
use adjudication.Prelude.Assoc.{insert}
use adjudication.Json.{
  Value, Items, Fields, null, bool, int, num, str, arr, obj, nil, cons, empty, field, get, map_any,
  no_fields,
}
use adjudication.Common.ModelRequest.{
  Spec, ProviderConstraints, RequestParameters, runtime_model, scheme_mark,
}
use adjudication.Common.ModelRequest.Ref.{ModelRef, parse_model_ref}

unfoldable pub string_of : Value → Text
unfolding trim_space
string_of (str t) = trim_space t
string_of null = []
string_of (bool b) = []
string_of (int n) = []
string_of (num t) = []
string_of (arr xs) = []
string_of (obj m) = []

unfoldable pub string_field : Fields → Text → Text
unfolding string_of get
string_field raw key = string_of (get key raw)

first_string_field : Fields → List Text → Text
unfolding string_field is_empty
first_string_field raw [] = []
first_string_field raw (key ∷ keys) =
    let later = first_string_field raw keys in
    if is_empty (string_field raw key) then later else string_field raw key

persona_of : Value → Text
unfolding first_string_field trim_space
persona_of (str t) = trim_space t
persona_of (obj m) = first_string_field m (codes "path" ∷ codes "file" ∷ codes "persona_file" ∷ [])
persona_of null = []
persona_of (bool b) = []
persona_of (int n) = []
persona_of (num t) = []
persona_of (arr xs) = []

persona_field : Fields → Text
unfolding persona_of string_field is_empty get
persona_field raw =
    let value = string_field raw (codes "persona_file") in
    if is_empty value then persona_of (get (codes "persona") raw) else value

strings_in : Items → List Text
strings_in nil = []
strings_in (cons (str t) xs) = t ∷ strings_in xs
strings_in (cons null xs) = strings_in xs
strings_in (cons (bool b) xs) = strings_in xs
strings_in (cons (int n) xs) = strings_in xs
strings_in (cons (num t) xs) = strings_in xs
strings_in (cons (arr ys) xs) = strings_in xs
strings_in (cons (obj m) xs) = strings_in xs

compact_strings : List Text → List Text
unfolding is_empty trim_space
compact_strings [] = []
compact_strings (v ∷ vs) =
    let rest = compact_strings vs in if is_empty (trim_space v) then rest else trim_space v ∷ rest

unfoldable pub string_list : Value → List Text
unfolding strings_in compact_strings is_empty trim_space
string_list (arr xs) = compact_strings (strings_in xs)
string_list (str t) = if is_empty (trim_space t) then [] else trim_space t ∷ []
string_list null = []
string_list (bool b) = []
string_list (int n) = []
string_list (num t) = []
string_list (obj m) = []

bool_field : Value → Option Bool
bool_field (bool b) = some b
bool_field null = none
bool_field (int n) = none
bool_field (num t) = none
bool_field (str t) = none
bool_field (arr xs) = none
bool_field (obj m) = none

in_int64 : ℤ → Bool
in_int64 n = leb_ℤ (negsuc (two63 - 1)) n && leb_ℤ n (pos (two63 - 1))

int64_field : Value → Option ℤ
unfolding in_int64
int64_field (int n) = if in_int64 n then some n else none
int64_field null = none
int64_field (bool b) = none
int64_field (num t) = none
int64_field (str t) = none
int64_field (arr xs) = none
int64_field (obj m) = none

text_pairs : Fields → List (Text × Text)
unfolding trim_space is_empty
text_pairs empty = []
text_pairs (field key v m) =
    let rest = text_pairs m in
    let value = string_of v in
    if is_empty (trim_space key) || is_empty value then rest else (trim_space key, value) ∷ rest

insert_all : List (Text × Text) → List (Text × Text) → List (Text × Text)
unfolding insert
insert_all [] out = out
insert_all ((key, value) ∷ rest) out = insert_all rest (insert key value out)

headers_from_raw : Value → List (Text × Text)
unfolding text_pairs insert_all
headers_from_raw (obj m) = insert_all (text_pairs m) []
headers_from_raw null = []
headers_from_raw (bool b) = []
headers_from_raw (int n) = []
headers_from_raw (num t) = []
headers_from_raw (str t) = []
headers_from_raw (arr xs) = []

metadata_header : Text
metadata_header = codes "X-OpenRouter-Experimental-Metadata"

-- `headerLookup`, for a header name of ASCII letters that no other character folds to.
has_header : Text → List (Text × Text) → Bool
unfolding text_eq to_lower
has_header key [] = false
has_header key ((name, value) ∷ headers) =
    text_eq (to_lower (λ c. c) name) (to_lower (λ c. c) key) || has_header key headers

-- A request to OpenRouter asks for its metadata.
with_metadata : List (Text × Text) → List (Text × Text)
unfolding has_header metadata_header insert
with_metadata headers =
    if has_header metadata_header headers
    then headers
    else insert metadata_header (codes "enabled") headers

has_key : Text → Fields → Bool
unfolding text_eq
has_key k empty = false
has_key k (field j v m) = text_eq j k || has_key k m

pick : Fields → List Text → Fields
unfolding get has_key
pick raw [] = empty
pick raw (key ∷ keys) =
    let rest = pick raw keys in if has_key key raw then field key (get key raw) rest else rest

variant_keys : List Text
variant_keys =
    codes "catalog_snapshot_id"
    ∷ codes "snapshot_timestamp_utc"
    ∷ codes "openrouter_model_id"
    ∷ codes "canonical_slug"
    ∷ codes "endpoint_index"
    ∷ codes "endpoint_variant_id"
    ∷ codes "endpoint_variant_key"
    ∷ codes "provider_name"
    ∷ codes "endpoint_name"
    ∷ codes "endpoint_tag"
    ∷ codes "endpoint_id"
    ∷ codes "endpoint_model_id"
    ∷ codes "endpoint_model_name"
    ∷ codes "endpoint_model_permaslug"
    ∷ codes "quantization"
    ∷ codes "unknown_quantization_endpoint_variant"
    ∷ codes "context_length"
    ∷ codes "max_prompt_tokens"
    ∷ codes "max_completion_tokens"
    ∷ codes "supported_parameters"
    ∷ codes "model_supported_parameters"
    ∷ codes "endpoint_raw_path"
    ∷ codes "raw_endpoint_sha256"
    ∷ codes "model_raw_path"
    ∷ codes "raw_model_sha256"
    ∷ codes "equivalence_key"
    ∷ codes "equivalence_class_size"
    ∷ codes "representative_source_row"
    ∷ codes "representative_endpoint_variant_id"
    ∷ codes "equivalent_endpoints"
    ∷ []

or_field {ℓ} : {A : Type ℓ} → Option A → Option A → Option A
or_field (some a) before = some a
or_field none before = before

-- A quantization that is known.
derived_quantizations : Text → List Text
unfolding text_eq is_empty
derived_quantizations quantization =
    if is_empty quantization || text_eq quantization (codes "unknown")
    then []
    else quantization ∷ []

is_openrouter : Text → Bool
unfolding text_eq
is_openrouter endpoint = text_eq endpoint (codes "openrouter")

-- The model that an object names, and the endpoint that it implies.
unfoldable pub model_of : Fields → Text
unfolding string_field is_empty
model_of raw =
    let model = string_field raw (codes "model") in
    if is_empty model then string_field raw (codes "openrouter_model_id") else model

unfoldable pub endpoint_of : Fields → Text
unfolding string_field is_empty
endpoint_of raw =
    let endpoint = string_field raw (codes "endpoint") in
    if is_empty endpoint && not (is_empty (string_field raw (codes "openrouter_model_id")))
    then codes "openrouter"
    else endpoint

-- The error of the last check repeats that of the reference.
unfoldable pub check_model : Spec → Result Text ModelRef → Result Text Spec
unfolding runtime_model
check_model s (ok ref) = ok s
check_model s (err e) =
    err (codes "invalid request model \"" ++ (runtime_model s ++ (codes "\": " ++ e)))

module _ (table : ℕ → ℕ) (in_range : Value → Bool) where
  clean_quantizations : List Text → List Text
  unfolding to_lower trim_space is_empty text_eq
  clean_quantizations [] = []
  clean_quantizations (v ∷ vs) =
      let rest = clean_quantizations vs in
      let value = to_lower table (trim_space v) in
      if is_empty value || text_eq value (codes "unknown") then rest else value ∷ rest

  provider_from_raw : Value → Option ProviderConstraints
  unfolding clean_quantizations string_list bool_field get
  provider_from_raw (obj m) = some (record {
    only = string_list (get (codes "only") m);
    allow_fallbacks = bool_field (get (codes "allow_fallbacks") m);
    require_parameters = bool_field (get (codes "require_parameters") m);
    quantizations = clean_quantizations (string_list (get (codes "quantizations") m));
  })
  provider_from_raw null = none
  provider_from_raw (bool b) = none
  provider_from_raw (int n) = none
  provider_from_raw (num t) = none
  provider_from_raw (str t) = none
  provider_from_raw (arr xs) = none

  derive_openrouter_provider : Fields → Option ProviderConstraints
  unfolding first_string_field derived_quantizations string_field to_lower is_empty
  derive_openrouter_provider raw =
      let only = first_string_field raw (
        codes "endpoint_tag"
        ∷ codes "provider_tag"
        ∷ codes "selected_provider_or_endpoint"
        ∷ codes "provider_name"
        ∷ []) in
      if is_empty only
      then none
      else some (record {
        only = only ∷ [];
        allow_fallbacks = some false;
        require_parameters = some true;
        quantizations =
            derived_quantizations (to_lower table (string_field raw (codes "quantization")));
      })

  float_field : Value → Option Value
  float_field (int n) = if in_range (int n) then some (int n) else none
  float_field (num t) = if in_range (num t) then some (num t) else none
  float_field null = none
  float_field (bool b) = none
  float_field (str t) = none
  float_field (arr xs) = none
  float_field (obj m) = none

  apply_request_fields : Fields → RequestParameters → RequestParameters
  unfolding float_field int64_field or_field get
  apply_request_fields raw request = record {
    temperature = or_field (float_field (get (codes "temperature") raw)) request.temperature;
    top_p = or_field (float_field (get (codes "top_p") raw)) request.top_p;
    max_tokens = or_field (int64_field (get (codes "max_tokens") raw)) request.max_tokens;
    max_output_tokens =
        or_field (int64_field (get (codes "max_output_tokens") raw)) request.max_output_tokens;
  }

  -- The fields of the object's own level win.
  request_from_raw : Fields → RequestParameters
  unfolding apply_request_fields get map_any
  request_from_raw raw = apply_request_fields raw (
      apply_request_fields (map_any (get (codes "request") raw))
        (record { temperature = none; top_p = none; max_tokens = none; max_output_tokens = none }))

  provider_or_derived : Fields → Text → Option ProviderConstraints → Option ProviderConstraints
  unfolding derive_openrouter_provider is_openrouter
  provider_or_derived raw endpoint (some provider) = some provider
  provider_or_derived raw endpoint none =
      if is_openrouter endpoint then derive_openrouter_provider raw else none

  unfoldable pub spec_of : Fields → Text → Text → Spec
  unfolding provider_or_derived provider_from_raw request_from_raw with_metadata headers_from_raw
      is_openrouter pick variant_keys persona_field trim_space get
  spec_of raw endpoint model =
      let headers = headers_from_raw (get (codes "headers") raw) in
      record {
        endpoint = trim_space endpoint;
        model = trim_space model;
        provider =
            provider_or_derived raw (trim_space endpoint)
              (provider_from_raw (get (codes "provider") raw));
        request = request_from_raw raw;
        headers = if is_openrouter (trim_space endpoint) then with_metadata headers else headers;
        persona = persona_field raw;
        variant_metadata = pick raw variant_keys;
      }

  unfoldable pub parse_map : Fields → Result Text Spec
  unfolding no_fields is_empty contains_text scheme_mark check_model spec_of model_of endpoint_of
      parse_model_ref runtime_model
  parse_map raw = do
    reject_if (no_fields raw) (codes "request spec JSON object is empty")
    reject_if (is_empty (endpoint_of raw)) (codes "request spec endpoint is required")
    reject_if (is_empty (model_of raw)) (codes "request spec model is required")
    reject_if (contains_text scheme_mark (model_of raw))
        (codes "request spec model must not include endpoint:// prefix")
    check_model (spec_of raw (endpoint_of raw) (model_of raw))
        (parse_model_ref (runtime_model (spec_of raw (endpoint_of raw) (model_of raw))))
