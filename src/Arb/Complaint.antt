-- ===== src/Arb/Complaint.antt =====
-- arb/runtime/spec/complaint.go: complaints as Markdown. `table` lowers the characters beyond ASCII.
pub mod Printed
use adjudication.Prelude.{
  ℕ, Bool, true, false, Option, none, some, List, [], ◌∷◌, ◌++◌, Result, ok, err, if◌then◌else◌,
  ◌==◌, ◌&&◌, ◌≡◌, refl,
}
use adjudication.Prelude.Text.{
  Text, codes, msg, is_empty, trim_space, trim_left, has_prefix, to_lower, text_eq,
}
use adjudication.Prelude.Text.Cut.{split, join}
use adjudication.Prelude.Assoc.{lookup, insert}

pub record Complaint : Type 0 where
  pub proposition : Text

starts_lf : Text → Bool
starts_lf [] = false
starts_lf (c ∷ s) = c == 10

-- A carriage return in front of a newline is dropped.
unfoldable pub replace_crlf : Text → Text
unfolding starts_lf
replace_crlf [] = []
replace_crlf (c ∷ s) =
    let rest = replace_crlf s in if c == 13 && starts_lf s then rest else c ∷ rest

unfoldable pub replace_cr : Text → Text
replace_cr [] = []
replace_cr (c ∷ s) = (if c == 13 then 10 else c) ∷ replace_cr s

unfoldable pub normalize_line_endings : Text → Text
unfolding replace_crlf replace_cr
normalize_line_endings input = replace_cr (replace_crlf input)

normalized : normalize_line_endings (97 ∷ 13 ∷ 13 ∷ 10 ∷ 98 ∷ []) ≡ 97 ∷ 10 ∷ 10 ∷ 98 ∷ []
unfolding normalize_line_endings
normalized = refl

-- The sections found so far, the heading of the one that is being read, and its lines, in order.
pub record Sections : Type 0 where
  pub found : List (Text × Text)
  pub current : Text
  pub body : List Text

module _ (table : ℕ → ℕ) where
  unfoldable pub normalize_heading : Text → Text
  unfolding trim_left trim_space to_lower
  normalize_heading line = trim_space (to_lower table (trim_left (λ c. c == b'#') line))

  unfoldable pub flush : Sections → List (Text × Text)
  unfolding is_empty insert trim_space join
  flush s =
      if is_empty s.current then s.found else insert s.current (trim_space (join 10 s.body)) s.found

  unfoldable pub is_heading : Text → Bool
  unfolding has_prefix trim_space
  is_heading raw = has_prefix (trim_space raw) (codes "#")

  unfoldable pub read_line : Text → Sections → Sections
  unfolding is_heading flush normalize_heading is_empty trim_space
  read_line raw s =
      if is_heading raw
      then record { found = flush s; current = normalize_heading (trim_space raw); body = [] }
      else if is_empty s.current
      then s
      else record s { body = s.body ++ raw ∷ [] }

  unfoldable pub read_lines : List Text → Sections → Sections
  unfolding read_line
  read_lines [] s = s
  read_lines (raw ∷ lines) s = read_lines lines (read_line raw s)

  unfoldable pub parse_markdown_sections : Text → List (Text × Text)
  unfolding read_lines flush split normalize_line_endings
  parse_markdown_sections input = flush (
      read_lines (split 10 (normalize_line_endings input))
        (record { found = []; current = []; body = [] }))

  -- A proposition that was found, or that is the whole text.
  unfoldable pub given_proposition : Text → Text → Result Text Complaint
  unfolding is_empty
  given_proposition problem proposition =
      if is_empty proposition then err problem else ok (record { proposition = proposition })

  unfoldable pub choose_proposition : Text → Option Text → Result Text Complaint
  unfolding given_proposition trim_space normalize_line_endings
  choose_proposition input (some section) =
      given_proposition (msg "empty Proposition section") (trim_space section)
  choose_proposition input none =
      given_proposition (msg "empty complaint") (trim_space (normalize_line_endings input))

  unfoldable pub parse_complaint_markdown : Text → Result Text Complaint
  unfolding choose_proposition parse_markdown_sections lookup
  parse_complaint_markdown input =
      choose_proposition input (lookup (codes "proposition") (parse_markdown_sections input))

unfoldable pub complaint_markdown : Complaint → Text
unfolding trim_space
complaint_markdown c =
    trim_space (codes "# Proposition" ++ (10 ∷ 10 ∷ trim_space c.proposition ++ (10 ∷ [])))
    ++ (10 ∷ [])
