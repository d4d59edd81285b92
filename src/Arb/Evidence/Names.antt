-- ===== src/Arb/Evidence/Names.antt =====
-- evidence.go, `evidenceIDForFile` and `canonicalEvidenceID`; attorney_tools.go, the file names of
-- submitted evidence. `table` lowers the characters beyond ASCII; `sha` is a digest in hexadecimal.
pub mod Canonical
use adjudication.Prelude.{
  ℕ, ◌-◌, Bool, true, false, not, ◌&&◌, ◌||◌, List, [], ◌∷◌, ◌++◌, if◌then◌else◌, leb, ltb, ◌==◌,
  length, take, all, ◌≡◌, refl,
}
use adjudication.Prelude.Text.{
  Text, codes, msg, text_eq, is_empty, trim, trim_space, has_prefix, to_lower, contains,
}
use adjudication.Json.Print.{decimal}

-- `filepath.Ext`: from the last dot of the last path element on.
unfoldable pub path_ext : Text → Text
unfolding contains
path_ext [] = []
path_ext (c ∷ s) = ext_before c s (path_ext s)
  where
    ext_before : ℕ → Text → Text → Text
    ext_before c s [] = if c == b'.' && not (contains b'/' s) then c ∷ s else []
    ext_before c s (d ∷ e) = d ∷ e

-- `strings.TrimSuffix(s, filepath.Ext(s))`.
unfoldable pub path_stem : Text → Text
unfolding path_ext
path_stem s = take (length s - length (path_ext s)) s

unfoldable pub is_slug_char : ℕ → Bool
is_slug_char r = (leb b'a' r && leb r b'z') || (leb b'0' r && leb r b'9') || r == b'-' || r == b'_'

-- Each run of other characters becomes one underscore.
unfoldable pub slug_from : Bool → Text → Text
unfolding is_slug_char
slug_from last_underscore [] = []
slug_from last_underscore (r ∷ s) =
    let kept = r ∷ slug_from false s in
    let dropped = slug_from true s in
    if is_slug_char r then kept else if last_underscore then dropped else b'_' ∷ dropped

unfoldable pub or_default : Text → Text → Text
or_default [] d = d
or_default (c ∷ s) d = c ∷ s

unfoldable pub evidence_id_prefix : Text
evidence_id_prefix = codes "ev_"

-- "ev_", twelve digits of the digest, "_".
unfoldable pub id_prefix : Text → Text
unfolding evidence_id_prefix
id_prefix sha = evidence_id_prefix ++ (take 12 sha ++ b'_' ∷ [])

unfoldable pub slug_of : (ℕ → ℕ) → Text → Text
unfolding path_stem slug_from or_default trim_space to_lower
slug_of table name =
    or_default
      (trim (λ c. c == b'_') (slug_from false (to_lower table (trim_space (path_stem name)))))
      (codes "evidence")

unfoldable pub evidence_id_for_file : (ℕ → ℕ) → Text → Text → Text
unfolding id_prefix slug_of
evidence_id_for_file table sha name = id_prefix sha ++ slug_of table name

unfoldable pub canonical_evidence_id : (ℕ → ℕ) → Text → Text → Text
unfolding evidence_id_for_file has_prefix
canonical_evidence_id table sha candidate =
    if has_prefix (trim_space candidate) (id_prefix sha)
    then trim_space candidate
    else evidence_id_for_file table sha (trim_space candidate)

-- Keeps the characters that a file name may hold.
keep_slug_chars : Text → Text
unfolding is_slug_char
keep_slug_chars [] = []
keep_slug_chars (r ∷ s) = let rest = keep_slug_chars s in if is_slug_char r then r ∷ rest else rest

unfoldable pub sanitize_evidence_component : (ℕ → ℕ) → Text → Text
unfolding keep_slug_chars or_default
sanitize_evidence_component table value =
    or_default (keep_slug_chars (to_lower table (trim_space value))) (codes "item")

is_alphanumeric : ℕ → Bool
is_alphanumeric r = (leb b'a' r && leb r b'z') || (leb b'0' r && leb r b'9')

-- A lowered and trimmed extension with its dot. (A separator is no letter or digit, so the loop
-- also refuses what the check by `filepath.Base` refuses.)
checked_extension : Text → Text
unfolding is_alphanumeric
checked_extension [] = []
checked_extension (c ∷ s) =
    if c == b'.'
    then (if all is_alphanumeric s then c ∷ s else [])
    else if all is_alphanumeric (c ∷ s)
    then b'.' ∷ c ∷ s
    else []

unfoldable pub sanitize_evidence_extension : (ℕ → ℕ) → Text → Text
unfolding checked_extension
sanitize_evidence_extension table value = checked_extension (to_lower table (trim_space value))

-- `strings.Split(s, ";")[0]`.
before_semicolon : Text → Text
before_semicolon [] = []
before_semicolon (c ∷ s) = let rest = before_semicolon s in if c == b';' then [] else c ∷ rest

extension_of_kind : Text → Text
extension_of_kind kind =
    if text_eq kind (codes "text/plain")
    then codes ".txt"
    else if text_eq kind (codes "text/markdown")
    then codes ".md"
    else if text_eq kind (codes "text/html")
    then codes ".html"
    else if text_eq kind (codes "application/json")
    then codes ".json"
    else if text_eq kind (codes "application/pdf")
    then codes ".pdf"
    else []

unfoldable pub evidence_extension_for_mime : (ℕ → ℕ) → Text → Text
unfolding before_semicolon extension_of_kind text_eq
evidence_extension_for_mime table mime_type =
    extension_of_kind (to_lower table (trim_space (before_semicolon mime_type)))

-- `%02d`.
two_digits : ℕ → Text
unfolding decimal
two_digits n = if ltb n 10 then b'0' ∷ decimal n else decimal n

unfoldable pub submitted_evidence_filename : (ℕ → ℕ) → ℕ → Text → Text → Text → Text → Text
unfolding sanitize_evidence_extension evidence_extension_for_mime sanitize_evidence_component
    two_digits
submitted_evidence_filename table index role sha mime_type preferred_ext =
    codes "submitted-evidence-"
    ++ (two_digits index
        ++ b'-'
          ∷ (sanitize_evidence_component table role
              ++ b'-'
                ∷ (take 12 sha
                    ++ or_default
                        (or_default (sanitize_evidence_extension table preferred_ext)
                          (evidence_extension_for_mime table mime_type))
                        (codes ".bin"))))

abbrev sample_sha : Text
sample_sha = codes "0123456789abcdef"

id_of_submission :
    evidence_id_for_file
      (λ c. c)
      sample_sha
      (submitted_evidence_filename
        (λ c. c)
        3
        (codes "plaintiff")
        sample_sha
        (codes "text/html; charset=utf-8")
        [])
    ≡ codes "ev_0123456789ab_submitted-evidence-03-plaintiff-0123456789ab"
unfolding evidence_id_for_file submitted_evidence_filename
id_of_submission = refl

id_of_case_file :
    evidence_id_for_file (λ c. c) sample_sha (codes "  My Notes (v2).tar.md")
    ≡ codes "ev_0123456789ab_my_notes_v2_tar"
unfolding evidence_id_for_file
id_of_case_file = refl
