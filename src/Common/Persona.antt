-- ===== src/Common/Persona.antt =====
-- common/persona/persona.go: the records of a persona pool. Reading files and JSON, and the
-- functions of `path/filepath`, are the record `Files`.
use adjudication.Prelude.{
  ℕ, Bool, ◌||◌, Option, none, some, List, [], ◌∷◌, ◌++◌, Result, ok, err, ◌>>=◌, ◌>>◌, reject_if,
  if◌then◌else◌,
}
use adjudication.Prelude.Text.{Text, codes, is_empty, trim_space, has_prefix}
use adjudication.Prelude.Text.Cut.{cut, split}
use adjudication.Json.{Value, Fields}
use adjudication.Common.ModelRequest
use adjudication.Common.ModelRequest.{runtime_model}
use adjudication.Common.ModelRequest.Ref.{parse_model_ref}
use adjudication.Common.ModelRequest.Parse.{parse_map}

pub record Spec : Type 0 where
  pub model : Text
  pub file : Text
  pub text : Text
  pub file_path : Text
  pub request_spec : Option ModelRequest.Spec

-- `is_file` tells whether a path names something that is no directory.
pub record Files : Type 0 where
  pub read_file : Text → Result Text Text
  pub decode : Text → Result Text Fields
  pub is_abs : Text → Bool
  pub clean : Text → Text
  pub join : List Text → Text
  pub dir : Text → Text
  pub is_file : Text → Bool
  pub table : ℕ → ℕ
  pub in_range : Value → Bool

module _ (files : Files) where
  unfoldable pub resolve_persona_file_path : Text → Text → Text
  resolve_persona_file_path file_ref base_dir =
      let near = files.clean (files.join (base_dir ∷ file_ref ∷ [])) in
      let shared =
        files.clean
          (files.join (base_dir ∷ codes ".." ∷ codes ".." ∷ codes "etc" ∷ file_ref ∷ [])) in
      if files.is_abs file_ref
      then files.clean file_ref
      else if files.is_file near
      then near
      else if files.is_file shared
      then shared
      else near

  -- The text of a persona that was read.
  unfoldable pub check_persona_text :
      Text → Text → Option ModelRequest.Spec → Text → Result Text Text → Result Text Spec
  unfolding is_empty trim_space
  check_persona_text model file_ref request path (err e) =
      err (codes "read persona text " ++ (file_ref ++ (codes ": " ++ e)))
  check_persona_text model file_ref request path (ok raw) = do
    reject_if (is_empty (trim_space raw)) (codes "empty persona text: " ++ file_ref)
    ok (record {
      model = model;
      file = file_ref;
      text = trim_space raw;
      file_path = path;
      request_spec = request;
    })

  unfoldable pub load_spec_persona :
      Text → Text → Text → Option ModelRequest.Spec → Result Text Spec
  unfolding check_persona_text resolve_persona_file_path
  load_spec_persona model file_ref base_dir request =
      let path = resolve_persona_file_path file_ref base_dir in
      check_persona_text model file_ref request path (files.read_file path)

  -- An error with what was being done.
  unfoldable pub wrap {ℓ} : {A : Type ℓ} → Text → Result Text A → Result Text A
  wrap doing (ok a) = ok a
  wrap doing (err e) = err (doing ++ (codes ": " ++ e))

  unfoldable pub parse_json : Text → Result Text ModelRequest.Spec
  unfolding parse_map
  parse_json line = do raw ← files.decode line; parse_map files.table files.in_range raw

  unfoldable pub parse_json_record : Text → Text → Result Text Spec
  unfolding wrap parse_json load_spec_persona is_empty trim_space runtime_model
  parse_json_record line base_dir = do
    request ← wrap (codes "invalid persona JSON record") (parse_json line)
    reject_if (is_empty (trim_space request.persona))
        (codes "invalid persona JSON record: persona is required")
    load_spec_persona (runtime_model request) (trim_space request.persona) base_dir (some request)

  -- A record of two columns: the model, and the persona's file.
  unfoldable pub parse_columns : Text → Text → Option (Text × Text) → Result Text Spec
  unfolding wrap load_spec_persona is_empty trim_space parse_model_ref
  parse_columns line base_dir none = err (codes "invalid persona record: " ++ line)
  parse_columns line base_dir (some (model, file_ref)) = do
    reject_if (is_empty (trim_space model) || is_empty (trim_space file_ref))
        (codes "invalid persona record: " ++ line)
    _ ←
        wrap (codes "invalid persona model \"" ++ (trim_space model ++ codes "\""))
          (parse_model_ref (trim_space model))
    load_spec_persona (trim_space model) (trim_space file_ref) base_dir none

  unfoldable pub parse_record : Text → Text → Result Text Spec
  unfolding parse_json_record parse_columns cut has_prefix trim_space
  parse_record line base_dir =
      let given = trim_space line in
      if has_prefix given (codes "{")
      then parse_json_record given base_dir
      else parse_columns given base_dir (cut (codes ",") given)

  unfoldable pub parse_lines : Text → List Text → Result Text (List Spec)
  unfolding parse_record is_empty trim_space has_prefix
  parse_lines base_dir [] = ok []
  parse_lines base_dir (raw ∷ lines) =
      let line = trim_space raw in
      let rest = parse_lines base_dir lines in
      if is_empty line || has_prefix line (codes "#")
      then rest
      else do spec ← parse_record line base_dir; specs ← rest; ok (spec ∷ specs)

  unfoldable pub reject_empty : Text → List Spec → Result Text (List Spec)
  reject_empty path [] = err (codes "persona records file contains no usable entries: " ++ path)
  reject_empty path (spec ∷ specs) = ok (spec ∷ specs)

  unfoldable pub records_path : Text → Text → Text
  records_path path base_dir =
      files.clean (if files.is_abs path then path else files.join (base_dir ∷ path ∷ []))

  unfoldable pub load_records_file : Text → Text → Result Text (List Spec)
  unfolding parse_lines reject_empty records_path wrap split
  load_records_file path base_dir = do
    raw ←
        wrap (codes "read persona records " ++ path) (files.read_file (records_path path base_dir))
    specs ← parse_lines (files.dir (records_path path base_dir)) (split 10 raw)
    reject_empty path specs
