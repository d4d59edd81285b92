-- ===== src/Common/ModelRequest/Runs.antt =====
-- common/modelrequest/spec.go: an accepted request names one model, to every reader of it.
use adjudication.Prelude.{
  ℕ, Bool, false, not, ◌&&◌, some, [], ◌∷◌, ◌++◌, Result, ok, err, or_fail, or_fail-eq-ok, if-both,
  >>=-eq-ok, reject_if-eq-ok, ◌≡◌, refl, sym, append_assoc, subst, ap, ◌∙◌, arith,
}
use adjudication.Prelude.Text.{Text, is_empty, trim_space, contains, codes}
use adjudication.Prelude.Text.Trim.{trim_space_idem, trim_space-append}
use adjudication.Prelude.Text.Cut.{cut, cut-scheme, contains_text}
use adjudication.Json.{Value, Fields, no_fields, get, null, bool, int, num, str, arr, obj}
use adjudication.Common.ModelRequest.{Spec, runtime_model, scheme_mark}
use adjudication.Common.ModelRequest.Ref.{
  ModelRef, parse_model_ref, parse_trimmed, parse_parts, model_id, upstream_model, or_whole,
  upstream,
}
use adjudication.Common.ModelRequest.Parse.{
  parse_map, spec_of, model_of, endpoint_of, string_field, check_model, string_of,
}

parse_parts-fields :
    (model : Text) (parts : Text × Text) (r : ModelRef)
    → parse_parts model parts ≡ ok r
    → (r.endpoint ≡ trim_space parts.0) × (r.model ≡ model_id (trim_space parts.1))
unfolding parse_parts
parse_parts-fields model (before, after) r h = ground arith

string_of-trimmed : (v : Value) → trim_space (string_of v) ≡ string_of v
unfolding string_of
string_of-trimmed (str t) = trim_space_idem t
string_of-trimmed null = unfold trim_space in refl
string_of-trimmed (bool b) = unfold trim_space in refl
string_of-trimmed (int n) = unfold trim_space in refl
string_of-trimmed (num t) = unfold trim_space in refl
string_of-trimmed (arr xs) = unfold trim_space in refl
string_of-trimmed (obj m) = unfold trim_space in refl

string_field-trimmed :
    (raw : Fields) (key : Text) → trim_space (string_field raw key) ≡ string_field raw key
unfolding string_field
string_field-trimmed raw key = string_of-trimmed (get key raw)

model_of-trimmed : (raw : Fields) → trim_space (model_of raw) ≡ model_of raw
unfolding model_of
model_of-trimmed raw =
    if-both (λ t. trim_space t ≡ t) (is_empty (string_field raw (codes "model")))
      (string_field raw (codes "openrouter_model_id")) (string_field raw (codes "model"))
      (string_field-trimmed raw (codes "openrouter_model_id"))
      (string_field-trimmed raw (codes "model"))

endpoint_of-trimmed : (raw : Fields) → trim_space (endpoint_of raw) ≡ endpoint_of raw
unfolding endpoint_of
endpoint_of-trimmed raw =
    if-both (λ t. trim_space t ≡ t)
      (is_empty (string_field raw (codes "endpoint"))
        && not (is_empty (string_field raw (codes "openrouter_model_id"))))
      (codes "openrouter") (string_field raw (codes "endpoint")) (unfold trim_space in refl)
      (string_field-trimmed raw (codes "endpoint"))

-- A model and an endpoint as an accepted request holds them.
record Plain (s : Spec) : Type 0 where
  endpoint_trimmed : trim_space s.endpoint ≡ s.endpoint
  endpoint_given : is_empty s.endpoint ≡ false
  model_trimmed : trim_space s.model ≡ s.model
  model_given : is_empty s.model ≡ false
  model_unqualified : contains_text scheme_mark s.model ≡ false

check_model-eq-ok :
    (s t : Spec) (ref : Result Text ModelRef)
    → check_model s ref ≡ ok t
    → (s ≡ t) × (r : ModelRef) × (ref ≡ ok r)
unfolding check_model
check_model-eq-ok s t (ok r) h = (ground arith, r, refl)
check_model-eq-ok s t (err e) h = ground arith

module _ (table : ℕ → ℕ) (in_range : Value → Bool) where
  spec_of-Plain :
      (raw : Fields) (endpoint model : Text)
      → trim_space endpoint ≡ endpoint
      → trim_space model ≡ model
      → is_empty endpoint ≡ false
      → is_empty model ≡ false
      → contains_text scheme_mark model ≡ false
      → Plain (spec_of table in_range raw endpoint model)
  unfolding spec_of
  spec_of-Plain raw endpoint model he hm p q k = record {
    endpoint_trimmed = rw he he;
    endpoint_given = rw he p;
    model_trimmed = rw hm hm;
    model_given = rw hm q;
    model_unqualified = rw hm k;
  }

  parse_map-Plain :
      (raw : Fields) (s : Spec)
      → parse_map table in_range raw ≡ ok s
      → Plain s × (r : ModelRef) × (parse_model_ref (runtime_model s) ≡ ok r)
  unfolding parse_map
  parse_map-Plain raw s h =
      let (_, h1) = reject_if-eq-ok (no_fields raw) _ _ h in
      let (p, h2) = reject_if-eq-ok (is_empty (endpoint_of raw)) _ _ h1 in
      let (q, h3) = reject_if-eq-ok (is_empty (model_of raw)) _ _ h2 in
      let (k, h4) = reject_if-eq-ok (contains_text scheme_mark (model_of raw)) _ _ h3 in
      let found = spec_of table in_range raw (endpoint_of raw) (model_of raw) in
      let (same, r, parsed) =
        check_model-eq-ok found s (parse_model_ref (runtime_model found)) h4 in
      subst (λ t. Plain t × (r : ModelRef) × (parse_model_ref (runtime_model t) ≡ ok r)) same
        (
          spec_of-Plain raw (endpoint_of raw) (model_of raw) (endpoint_of-trimmed raw)
              (model_of-trimmed raw) p q k,
          r,
          parsed,
        )

runtime_model-Plain : (s : Spec) → Plain s → runtime_model s ≡ s.endpoint ++ scheme_mark ++ s.model
unfolding runtime_model
runtime_model-Plain s plain =
    rw (plain.model_trimmed, plain.endpoint_trimmed, plain.model_unqualified, plain.endpoint_given)
      refl

upstream_model-Plain :
    (s : Spec) → Plain s → upstream_model s ≡ (or_whole s.model (cut (b'?' ∷ []) s.model)).0
unfolding upstream_model upstream
upstream_model-Plain s plain =
    rw (plain.model_trimmed, plain.model_unqualified)
      (unqualified s.model (parse_model_ref s.model))
  where
    unqualified :
        (model : Text) (r : Result Text ModelRef)
        → upstream model r false ≡ (or_whole model (cut (b'?' ∷ []) model)).0
    unqualified model (ok r) = refl
    unqualified model (err e) = refl

parse_trimmed-fields :
    (model : Text) (parts : Text × Text) (r : ModelRef)
    → cut scheme_mark model ≡ some parts
    → parse_trimmed model ≡ ok r
    → (r.endpoint ≡ trim_space parts.0) × (r.model ≡ model_id (trim_space parts.1))
unfolding parse_trimmed
parse_trimmed-fields model parts r found h =
    let (_, h1) = reject_if-eq-ok (is_empty model) _ _ h in
    let (given, p, q) = >>=-eq-ok (or_fail (cut scheme_mark model) _) (parse_parts model) h1 in
    let same : some parts ≡ some given = sym found ∙ or_fail-eq-ok (cut scheme_mark model) _ p in
    let agree : given ≡ parts = ground arith in
    parse_parts-fields model parts r (subst (λ t. parse_parts model t ≡ ok r) agree q)

cut-Plain :
    (s : Spec)
    → contains b'/' s.endpoint ≡ false
    → cut scheme_mark (s.endpoint ++ scheme_mark ++ s.model) ≡ some (s.endpoint, s.model)
unfolding scheme_mark
cut-Plain s slash =
    rw (append_assoc s.endpoint (codes "://") s.model) (cut-scheme s.endpoint s.model slash)

parse_model_ref-Plain :
    (s : Spec) (r : ModelRef)
    → Plain s
    → contains b'/' s.endpoint ≡ false
    → parse_model_ref (s.endpoint ++ scheme_mark ++ s.model) ≡ ok r
    → (r.endpoint ≡ s.endpoint) × (r.model ≡ model_id s.model)
unfolding parse_model_ref
parse_model_ref-Plain s r plain slash h =
    let trimmed =
      trim_space-append s.endpoint scheme_mark s.model plain.endpoint_trimmed plain.endpoint_given
        plain.model_trimmed plain.model_given in
    let (p, q) =
      parse_trimmed-fields (s.endpoint ++ scheme_mark ++ s.model) (s.endpoint, s.model) r
        (cut-Plain s slash) (subst (λ t. parse_trimmed t ≡ ok r) trimmed h) in
    (p ∙ plain.endpoint_trimmed, q ∙ ap model_id plain.model_trimmed)

module _ (table : ℕ → ℕ) (in_range : Value → Bool) where
  -- For an accepted request whose endpoint has no slash, the runtime model is a reference that
  -- parses, with the request's endpoint, and with the model id that UpstreamModel names, up to
  -- blanks around it.
  pub parse_map-Runs :
      (raw : Fields) (s : Spec)
      → parse_map table in_range raw ≡ ok s
      → contains b'/' s.endpoint ≡ false
      → (r : ModelRef) × (parse_model_ref (runtime_model s) ≡ ok r)
        × (r.endpoint ≡ s.endpoint)
        × (r.model ≡ trim_space (upstream_model s))
  unfolding model_id
  parse_map-Runs raw s h slash =
      let (plain, r, parsed) = parse_map-Plain table in_range raw s h in
      let (p, q) =
        parse_model_ref-Plain s r plain slash
          (subst (λ t. parse_model_ref t ≡ ok r) (runtime_model-Plain s plain) parsed) in
      (r, parsed, p, q ∙ ap trim_space (sym (upstream_model-Plain s plain)))
