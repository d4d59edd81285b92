-- ===== src/Arb/Council/Preflight.antt =====
-- arb/runtime/proceeding/council_preflight.go: the seats of a council go to the first candidates that
-- answer. `client` sends a request and gives its error; the time limit of a request is part of it.
pub mod Seated
pub mod Sampled
use adjudication.Prelude.{
  ℕ, zero, suc, ◌+◌, ◌*◌, Bool, true, false, not, ◌||◌, Option, none, some, List, [], ◌∷◌, ◌++◌,
  Result, ok, err, ◌>>=◌, ◌>>◌, reject_if, if◌then◌else◌, length, map, leb,
}
use adjudication.Prelude.Int.{ℤ, pos, negsuc, leb_ℤ, ltb_ℤ, pos_part}
use adjudication.Prelude.Text.{Text, codes}
use adjudication.Json.{int}
use adjudication.Json.Print.{decimal, map_string}
use adjudication.Common.ModelRequest.{Spec, with_fallback_max_output_tokens}
use adjudication.Common.Persona.{Files}
use adjudication.Arb.Context.{CouncilSeat}
use adjudication.Arb.Council.Pool.{council_pool_meta, shuffled_council_candidates}

pub record CouncilPreflightReplacement : Type 0 where
  pub member_id : Text
  pub unavailable_model : Text
  pub unavailable_persona_file : Text
  pub replacement_model : Text
  pub replacement_persona_file : Text
  pub cause : Text

unfoldable pub seat_id : ℕ → Text
unfolding decimal
seat_id n = codes "C" ++ decimal n

-- What became of one seat: who took it, and the candidates that are left; or nobody. Both with the
-- candidates that failed.
pub data Seating : Type 0 where
  seated : CouncilSeat → List CouncilSeat → List CouncilPreflightReplacement → Seating
  unseated : List CouncilPreflightReplacement → Seating

-- One candidate for a seat more is known to have failed.
unfoldable pub with_failed : CouncilPreflightReplacement → Seating → Seating
with_failed r (seated seat rest failed) = seated seat rest (r ∷ failed)
with_failed r (unseated failed) = unseated (r ∷ failed)

unfoldable pub unavailable : CouncilSeat → Text → CouncilPreflightReplacement
unavailable seat cause = record {
  member_id = seat.member_id;
  unavailable_model = seat.model;
  unavailable_persona_file = seat.persona_file;
  replacement_model = [];
  replacement_persona_file = [];
  cause = cause;
}

unfoldable pub replaced_by : CouncilSeat → CouncilPreflightReplacement → CouncilPreflightReplacement
replaced_by seat r = record r {
  replacement_model = seat.model;
  replacement_persona_file = seat.persona_file;
}

unfoldable pub pool_error : ℤ → ℕ → Text
unfolding decimal map_string
pool_error count available =
    codes "council size "
    ++ (map_string (int count) ++ (codes " exceeds available pool " ++ decimal available))

-- The message names the last candidate that failed; `total` is the number of them.
unseated_after : Text → ℕ → List CouncilPreflightReplacement → Text
unfolding decimal
unseated_after id total [] =
    codes "council preflight could not seat " ++ (id ++ codes ": no candidates remained")
unseated_after id total (r ∷ []) =
    codes "council preflight could not seat "
    ++ (id
        ++ (codes " after "
            ++ (decimal total
                ++ (codes " unavailable candidate(s); last unavailable model "
                    ++ (r.unavailable_model
                        ++ (codes " from "
                            ++ (r.unavailable_persona_file ++ (codes ": " ++ r.cause))))))))
unseated_after id total (r ∷ s ∷ failed) = unseated_after id total (s ∷ failed)

unfoldable pub unseated_error : Text → List CouncilPreflightReplacement → Text
unfolding unseated_after
unseated_error id failed = unseated_after id (length failed) failed

-- Seats with the replacements that they took.
abbrev pub Filled : Type 0
Filled = Result Text (List CouncilSeat × List CouncilPreflightReplacement)

unfoldable pub add_seat : CouncilSeat → List CouncilPreflightReplacement → Filled → Filled
add_seat seat before (ok (seats, replacements)) = ok (seat ∷ seats, before ++ replacements)
add_seat seat before (err e) = err e

-- One seat was decided; `more` fills the others.
unfoldable pub after_seating : Text → (List CouncilSeat → Filled) → Seating → Filled
unfolding add_seat unseated_error replaced_by
after_seating id more (unseated failed) = err (unseated_error id failed)
after_seating id more (seated seat rest failed) =
    add_seat seat (map (replaced_by seat) failed) (more rest)

module _ (check : CouncilSeat → Option Text) where
  -- A candidate's answer: an error tries the next one.
  unfoldable pub answered : CouncilSeat → List CouncilSeat → Seating → Option Text → Seating
  unfolding with_failed unavailable
  answered seat rest next none = seated seat rest []
  answered seat rest next (some cause) = with_failed (unavailable seat cause) next

  unfoldable pub seat_member : Text → List CouncilSeat → Seating
  unfolding answered
  seat_member id [] = unseated []
  seat_member id (candidate ∷ rest) =
      let next = seat_member id rest in
      let seat = record candidate { member_id = id } in answered seat rest next (check seat)

  -- Seats from `n` on, as many as `left`.
  unfoldable pub fill : ℕ → ℕ → List CouncilSeat → Filled
  unfolding seat_member after_seating seat_id
  fill n zero candidates = ok ([], [])
  fill n (suc left) candidates =
      after_seating (seat_id n) (λ rest. fill (suc n) left rest)
        (seat_member (seat_id n) candidates)

  unfoldable pub preflight_council_candidates : ℤ → List CouncilSeat → Filled
  unfolding fill pool_error
  preflight_council_candidates count candidates = do
    reject_if (leb_ℤ count (pos 0)) (codes "council size must be positive")
    reject_if (ltb_ℤ (pos (length candidates)) count) (pool_error count (length candidates))
    fill 1 (pos_part count) candidates

unfoldable pub missing_request : CouncilSeat → Text
missing_request seat =
    codes "council member "
    ++ (seat.member_id ++ codes " has no request_spec; JSONL council pool records are required")

-- A request of at most 16 tokens, where the candidate's own request does not say otherwise.
unfoldable pub ask_candidate : (Spec → Option Text) → CouncilSeat → Option Spec → Option Text
unfolding with_fallback_max_output_tokens missing_request
ask_candidate client seat none = some (missing_request seat)
ask_candidate client seat (some spec) =
    client (with_fallback_max_output_tokens (pos 16) (with_fallback_max_output_tokens (pos 0) spec))

unfoldable pub check_council_seat_available : (Spec → Option Text) → CouncilSeat → Option Text
unfolding ask_candidate
check_council_seat_available client seat = ask_candidate client seat seat.request_spec

unfoldable pub sample_available_council :
    Files → (Spec → Option Text) → List ℕ → Text → Text → ℤ → Filled
unfolding council_pool_meta shuffled_council_candidates preflight_council_candidates pool_error
    check_council_seat_available
sample_available_council files client rolls pool_path common_root size = do
  specs ← council_pool_meta files pool_path common_root
  reject_if (leb_ℤ size (pos 0)) (codes "council size must be positive")
  reject_if (ltb_ℤ (pos (length specs)) size) (pool_error size (length specs))
  candidates ← shuffled_council_candidates rolls specs
  preflight_council_candidates (check_council_seat_available client) size candidates

-- In nanoseconds: at most twenty seconds, also where the limit is not set.
unfoldable pub council_preflight_timeout : ℤ → ℤ
council_preflight_timeout timeout =
    let longest = pos 20_000_000_000 in
    if leb_ℤ timeout (pos 0) || ltb_ℤ longest timeout then longest else timeout
