-- ===== src/Arb/Council/Feedback.antt =====
-- invalid_attempts.go: the texts that answer an invalid call.
use adjudication.Prelude.{
  ℕ, suc, Bool, true, false, ◌||◌, List, [], ◌∷◌, ◌++◌, length, if◌then◌else◌, ◌==◌, ◌≡◌, refl,
}
use adjudication.Prelude.Int.{ℤ, pos, eq_ℤ}
use adjudication.Prelude.Text.{Text, codes, is_empty, trim_space}
use adjudication.Json.{int}
use adjudication.Json.Print.{decimal, map_string}

ends_sentence : Text → Bool
ends_sentence [] = false
ends_sentence (c ∷ []) = c == b'.' || c == b'!' || c == b'?'
ends_sentence (c ∷ d ∷ s) = ends_sentence (d ∷ s)

unfoldable pub ensure_terminal_period : Text → Text
unfolding ends_sentence
ensure_terminal_period value =
    let v = trim_space value in
    if is_empty v then v else if ends_sentence v then v else v ++ codes "."

submission_word : Bool → Text
submission_word true = codes "submission"
submission_word false = codes "submissions"

unfoldable pub invalid_submission_word : ℤ → Text
unfolding submission_word
invalid_submission_word count = submission_word (eq_ℤ count (pos 1))

-- "attempt 1: ...", "attempt 2: ...": blank reasons are left out and not counted.
attempt_reasons : ℕ → List Text → List Text
attempt_reasons n [] = []
attempt_reasons n (r ∷ reasons) =
    let kept =
      (codes "attempt " ++ (decimal n ++ (codes ": " ++ trim_space r)))
      ∷ attempt_reasons (suc n) reasons in
    let skipped = attempt_reasons n reasons in if is_empty (trim_space r) then skipped else kept

join_with : Text → List Text → Text
join_with sep [] = []
join_with sep (s ∷ []) = s
join_with sep (s ∷ t ∷ parts) = s ++ (sep ++ join_with sep (t ∷ parts))

limit_error : Text → List Text → Text
unfolding join_with submission_word
limit_error subject [] = subject ++ codes " exceeded invalid-attempt limit"
limit_error subject (r ∷ reasons) =
    subject
    ++ (codes " exceeded invalid-attempt limit after "
        ++ (decimal (length (r ∷ reasons))
            ++ (codes " invalid "
                ++ (submission_word (length (r ∷ reasons) == 1)
                    ++ (codes ": " ++ join_with (codes "; ") (r ∷ reasons))))))

unfoldable pub format_invalid_attempt_limit_error : Text → List Text → Text
unfolding limit_error attempt_reasons
format_invalid_attempt_limit_error subject reasons =
    limit_error (trim_space subject) (attempt_reasons 1 reasons)

-- The feedback while attempts remain.
unfoldable pub attempts_remain : Text → ℕ → ℤ → ℤ → Text
unfolding ensure_terminal_period invalid_submission_word map_string
attempts_remain reason invalid attempts_max remaining =
    ensure_terminal_period reason
    ++ (10 ∷ codes "Invalid tool call "
        ++ (decimal invalid
            ++ (codes " of "
                ++ (map_string (int attempts_max)
                    ++ (codes " for this opportunity. "
                        ++ (map_string (int remaining)
                            ++ (codes " invalid "
                                ++ (invalid_submission_word remaining ++ codes " remain."))))))))

limit_error_of_two :
    format_invalid_attempt_limit_error
      (codes "council member C1")
      (codes "no vote" ∷ codes " " ∷ codes " unknown tool " ∷ [])
    ≡ codes
        "council member C1 exceeded invalid-attempt limit after 2 invalid submissions: attempt 1: no vote; attempt 2: unknown tool"
unfolding format_invalid_attempt_limit_error is_empty trim_space decimal
limit_error_of_two = refl
