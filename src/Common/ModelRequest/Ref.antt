-- ===== src/Common/ModelRequest/Ref.antt =====
-- common/modelrequest/spec.go, `ParseModelRef`: "endpoint://model?query".
use adjudication.Prelude.{
  Bool, true, false, ◌||◌, Option, none, some, [], ◌∷◌, ◌++◌, Result, ok, err, ◌>>◌, ◌>>=◌,
  reject_if, or_fail,
}
use adjudication.Prelude.Text.{Text, codes, is_empty, trim_space, contains}
use adjudication.Prelude.Text.Cut.{cut, contains_any, contains_text}
use adjudication.Common.ModelRequest.{Spec, scheme_mark}

pub record ModelRef : Type 0 where
  pub endpoint : Text
  pub model : Text
  pub query : Text

-- A message about a model; `%q` is written without its escapes.
about : Text → Text → Text
about model problem = codes "model \"" ++ (model ++ (codes "\" " ++ problem))

-- What `strings.Cut` gives where the separator is missing.
abbrev pub or_whole : Text → Option (Text × Text) → Text × Text
or_whole s none = (s, [])
or_whole s (some parts) = parts

-- The model id, without its query.
unfoldable pub model_id : Text → Text
unfolding cut trim_space
model_id rest = trim_space (or_whole rest (cut (b'?' ∷ []) rest)).0

unfoldable pub parse_parts : Text → Text × Text → Result Text ModelRef
unfolding about cut contains_any contains is_empty trim_space model_id
parse_parts model (before, after) = do
  reject_if (is_empty (trim_space before)) (about model (codes "has empty endpoint"))
  reject_if (is_empty (trim_space after)) (about model (codes "has empty model"))
  reject_if (contains b' ' (trim_space before) || contains_any (codes "/?#") (trim_space before))
      (about model (codes "has invalid endpoint \"" ++ (trim_space before ++ codes "\"")))
  reject_if (contains b'#' (trim_space after)) (about model (codes "must not include a fragment"))
  reject_if (is_empty (model_id (trim_space after))) (about model (codes "has empty model id"))
  reject_if (contains_any (b' ' ∷ 9 ∷ 13 ∷ 10 ∷ []) (model_id (trim_space after)))
      (about model (codes "has whitespace in model id"))
  ok (record {
    endpoint = trim_space before;
    model = model_id (trim_space after);
    query = (or_whole (trim_space after) (cut (b'?' ∷ []) (trim_space after))).1;
  })

unfoldable pub parse_trimmed : Text → Result Text ModelRef
unfolding parse_parts cut scheme_mark is_empty
parse_trimmed model = do
  reject_if (is_empty model) (codes "model must be non-empty string")
  parts ← or_fail (cut scheme_mark model) (about model (codes "must be endpoint://model"))
  parse_parts model parts

unfoldable pub parse_model_ref : Text → Result Text ModelRef
unfolding parse_trimmed trim_space
parse_model_ref model = parse_trimmed (trim_space model)

-- `UpstreamModel`, on a trimmed model.
unfoldable pub upstream : Text → Result Text ModelRef → Bool → Text
unfolding cut
upstream model (ok ref) true = ref.model
upstream model (ok ref) false = (or_whole model (cut (b'?' ∷ []) model)).0
upstream model (err e) qualified = (or_whole model (cut (b'?' ∷ []) model)).0

unfoldable pub upstream_model : Spec → Text
unfolding upstream parse_model_ref
upstream_model s =
    let model = trim_space s.model in
    upstream model (parse_model_ref model) (contains_text scheme_mark model)
