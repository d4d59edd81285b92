-- ===== src/Examples/Pools.antt =====
-- A pool of three records, the first of which does not answer; and a council member that a model plays.
use adjudication.Prelude.{
  ◌&&◌, true, Option, none, some, List, [], ◌∷◌, ok, ◌≡◌, refl, map, length, take, if◌then◌else◌,
  arith,
}
use adjudication.Prelude.Int.{pos, leb_ℤ, ltb_ℤ}
use adjudication.Prelude.Text.{Text, codes, msg, text_eq}
use adjudication.Json.{str, empty, field}
use adjudication.Common.ModelRequest
use adjudication.Common.Persona.{Spec, Files}
use adjudication.Arb.Context.{CouncilSeat}
use adjudication.Arb.Council.Pool.{council_pool_meta, candidate_of}
use adjudication.Arb.Council.Preflight.{
  preflight_council_candidates, sample_available_council, check_council_seat_available,
}
use adjudication.Arb.Council.Preflight.Seated.{
  seats_of, available, numbered, preflight_council_candidates-seats,
}
use adjudication.Arb.Council.Preflight.Sampled.{sample_available_council-Seats}
use mathlib.Core.List.{Perm}

abbrev candidate : Text → CouncilSeat
candidate model = record {
  member_id = [];
  model = model;
  persona_file = [];
  request_spec = none;
  persona_text = [];
}

abbrev candidates : List CouncilSeat
candidates = candidate (msg "a") ∷ candidate (msg "b") ∷ candidate (msg "c") ∷ []

-- The model "a" is down.
abbrev down : CouncilSeat → Option Text
down seat = if text_eq seat.model (msg "a") then some (msg "down") else none

preflight_council_candidates-seats_example :
    seats_of (preflight_council_candidates down (pos 2) candidates) ≡ (
      if ltb_ℤ (pos 0) (pos 2) && leb_ℤ (pos 2) (pos (length (available down candidates)))
      then some (numbered 1 (take 2 (available down candidates)))
      else none)
preflight_council_candidates-seats_example =
    preflight_council_candidates-seats down (λ id seat. refl) (pos 2) candidates

abbrev pool_text : Text
pool_text = codes "{}"

-- A file of one record, which names its persona; every file holds the same text.
abbrev pool_files : Files
pool_files = record {
  read_file = λ path. ok pool_text;
  decode = λ text. ok (
      field (codes "endpoint") (str (codes "e")) (
        field (codes "model") (str (codes "m"))
          (field (codes "persona") (str (codes "p.md")) empty)));
  is_abs = λ path. true;
  clean = λ path. path;
  join = λ parts. [];
  dir = λ path. [];
  is_file = λ path. true;
  table = λ c. c;
  in_range = λ v. true;
}

abbrev pooled : Spec
pooled = record {
  model = codes "e://m";
  file = codes "p.md";
  text = pool_text;
  file_path = codes "p.md";
  request_spec = some (record {
    endpoint = codes "e";
    model = codes "m";
    provider = none;
    request = record {
      temperature = none;
      top_p = none;
      max_tokens = none;
      max_output_tokens = none;
    };
    headers = [];
    persona = codes "p.md";
    variant_metadata = empty;
  });
}

abbrev always : ModelRequest.Spec → Option Text
always spec = none

sample_available_council-Seats_example :
    (found : List CouncilSeat) × Perm (map candidate_of (pooled ∷ [])) found
    × (seats_of (sample_available_council pool_files always (7 ∷ []) (codes "pool") [] (pos 1)) ≡ (
        let answering = available (check_council_seat_available always) found in
        if ltb_ℤ (pos 0) (pos 1) && leb_ℤ (pos 1) (pos (length answering))
        then some (numbered 1 (take 1 answering))
        else none))
unfolding council_pool_meta
sample_available_council-Seats_example =
    sample_available_council-Seats pool_files always (7 ∷ []) (codes "pool") [] (pos 1)
      (pooled ∷ []) refl (omega arith)
