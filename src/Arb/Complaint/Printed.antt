-- ===== src/Arb/Complaint/Printed.antt =====
-- arb/runtime/spec/complaint.go: what is printed is read back.
use adjudication.Prelude.{
  ℕ, false, ◌||◌, List, [], ◌∷◌, ◌++◌, ok, ◌≡◌, refl, sym, ap, ◌∙◌, All, All-append, arith,
  append_assoc, append-nil,
}
use adjudication.Prelude.Text.{Text, codes, msg, is_empty, trim_space, contains, is_space, text_eq}
use adjudication.Prelude.Text.Trim.{trim_space_idem, trim_space-behind, trim_space-around}
use adjudication.Prelude.Text.Cut.{split, join, split-snoc, split-line, join-empty-split, join-snoc}
use adjudication.Prelude.Assoc.{lookup, insert}
use adjudication.Arb.Complaint.{
  Complaint, Sections, parse_complaint_markdown, complaint_markdown, parse_markdown_sections,
  choose_proposition, given_proposition, normalize_line_endings, replace_crlf, replace_cr,
  is_heading, read_line, read_lines, flush,
}

replace_crlf_id : (s : Text) → contains 13 s ≡ false → replace_crlf s ≡ s
unfolding replace_crlf contains
replace_crlf_id [] h = refl
replace_crlf_id (c ∷ s) h = ground (arith, replace_crlf_id s)

replace_cr_id : (s : Text) → contains 13 s ≡ false → replace_cr s ≡ s
unfolding replace_cr contains
replace_cr_id [] h = refl
replace_cr_id (c ∷ s) h = ground (arith, replace_cr_id s)

normalize_line_endings_id : (s : Text) → contains 13 s ≡ false → normalize_line_endings s ≡ s
unfolding normalize_line_endings
normalize_line_endings_id s h = rw (replace_crlf_id s h) (replace_cr_id s h)

contains-append : (c : ℕ) (s t : Text) → contains c (s ++ t) ≡ (contains c s || contains c t)
unfolding contains
contains-append c [] t = refl
contains-append c (d ∷ s) t = rw (contains-append c s t) (ground arith)

-- The text that is printed, in front of its last newline.
abbrev heading : Text
heading = codes "# Proposition"

complaint_markdown-text :
    (c : Complaint)
    → is_empty (trim_space c.proposition) ≡ false
    → complaint_markdown c ≡ heading ++ 10 ∷ 10 ∷ trim_space c.proposition ++ (10 ∷ [])
unfolding complaint_markdown
complaint_markdown-text c h =
    ap (λ (s : Text). s ++ (10 ∷ []))
      (trim_space-behind heading (10 ∷ 10 ∷ []) (trim_space c.proposition) 10
        (unfold is_space in refl) (unfold trim_space in refl) (unfold is_empty in refl)
        (trim_space_idem c.proposition) h)

module _ (table : ℕ → ℕ) where
  -- A text without headings.
  abbrev pub NoHeadings : Text → Type 0
  NoHeadings s = All (λ line. is_heading table line ≡ false) (split 10 s)

  read_lines-body :
      (lines : List Text) (s : Sections)
      → is_empty s.current ≡ false
      → All (λ line. is_heading table line ≡ false) lines
      → read_lines table lines s ≡ record s { body = s.body ++ lines }
  unfolding read_lines read_line
  read_lines-body [] s h plain = ap (λ b. record s { body = b }) (sym (append-nil s.body))
  read_lines-body (line ∷ lines) s h plain =
      rw (plain.0, h)
        (read_lines-body lines (record s { body = s.body ++ line ∷ [] }) h plain.1
          ∙ ap (λ b. record s { body = b }) (append_assoc s.body (line ∷ []) lines))

  -- The lines of a printed complaint, where its proposition is `p`.
  split-text :
      (p : Text)
      → split 10 (heading ++ 10 ∷ 10 ∷ p ++ (10 ∷ [])) ≡ heading ∷ [] ∷ split 10 p ++ [] ∷ []
  split-text p =
      split-line 10 heading (10 ∷ p ++ (10 ∷ [])) (unfold contains in refl)
      ∙ ap (◌∷◌ heading) (
          split-line 10 [] (p ++ (10 ∷ [])) (unfold contains in refl)
          ∙ ap (◌∷◌ []) (split-snoc 10 p))

  abbrev opened : Sections
  opened = record { found = []; current = codes "proposition"; body = [] }

  read_heading :
      (lines : List Text)
      → read_lines table (heading ∷ lines) (record { found = []; current = []; body = [] })
        ≡ read_lines table lines opened
  unfolding read_lines read_line
  read_heading lines = refl

  text-clean :
      (p : Text) → contains 13 p ≡ false → contains 13 (heading ++ 10 ∷ 10 ∷ p ++ (10 ∷ [])) ≡ false
  unfolding contains
  text-clean p clean = rw (contains-append 13 p (10 ∷ []), clean) refl

  lines-plain :
      (p : Text)
      → NoHeadings p
      → All (λ line. is_heading table line ≡ false) ([] ∷ split 10 p ++ [] ∷ [])
  unfolding is_heading
  lines-plain p plain = (
    refl,
    All-append (λ line. is_heading table line ≡ false) (split 10 p) ([] ∷ []) plain (refl, tt),
  )

  flush-body :
      (lines : List Text)
      → flush table (record opened { body = lines })
        ≡ (codes "proposition", trim_space (join 10 lines)) ∷ []
  unfolding flush insert is_empty
  flush-body lines = refl

  sections-text :
      (p : Text)
      → contains 13 p ≡ false
      → NoHeadings p
      → parse_markdown_sections table (heading ++ 10 ∷ 10 ∷ p ++ (10 ∷ []))
        ≡ (codes "proposition", trim_space (10 ∷ p ++ (10 ∷ []))) ∷ []
  unfolding parse_markdown_sections
  sections-text p clean plain =
      let text = heading ++ 10 ∷ 10 ∷ p ++ (10 ∷ []) in
      let lines = [] ∷ split 10 p ++ [] ∷ [] in
      let body_read =
        ap (λ input. split 10 input) (normalize_line_endings_id text (text-clean p clean))
        ∙ split-text p in
      ap (λ ls. flush table (read_lines table ls (record { found = []; current = []; body = [] })))
        body_read
      ∙ ap (flush table) (
          read_heading lines
          ∙ read_lines-body lines opened (unfold is_empty in refl) (lines-plain p plain))
      ∙ flush-body lines
      ∙ ap (λ body. (codes "proposition", trim_space body) ∷ [])
          (join-snoc 10 [] (split 10 p) ∙ ap (λ (t : Text). t ++ (10 ∷ [])) (join-empty-split 10 p))

  -- A complaint whose proposition is not blank, and has neither a heading line nor a carriage
  -- return inside, is read back from its print, with its proposition trimmed.
  pub parse_complaint_markdown-complaint_markdown :
      (c : Complaint)
      → is_empty (trim_space c.proposition) ≡ false
      → contains 13 (trim_space c.proposition) ≡ false
      → NoHeadings (trim_space c.proposition)
      → parse_complaint_markdown table (complaint_markdown c)
        ≡ ok (record { proposition = trim_space c.proposition })
  unfolding parse_complaint_markdown choose_proposition given_proposition lookup text_eq
  parse_complaint_markdown-complaint_markdown c given clean plain =
      let p = trim_space c.proposition in
      let same =
        trim_space-around p 10 10 (unfold is_space in refl) (unfold is_space in refl)
          (trim_space_idem c.proposition) given in
      rw (complaint_markdown-text c given, sections-text p clean plain)
        (ap (λ t. given_proposition table (msg "empty Proposition section") (trim_space t)) same
          ∙ rw (trim_space_idem c.proposition, given) refl)
