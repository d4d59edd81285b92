-- ===== src/Arb/Council/Pool.antt =====
-- arb/runtime/proceeding/helpers.go, `councilPoolMeta`, and council_preflight.go, the order in which
-- the candidates of a pool are tried. The random picks are the argument `rolls`: `rand.Int` gives a
-- number below its bound, so each roll is taken modulo the number of candidates left.
pub mod Shuffled
use adjudication.Prelude.{
  ℕ, zero, suc, ◌+◌, ◌-◌, ◌%◌, Bool, true, false, Option, none, some, List, [], ◌∷◌, ◌++◌, Result,
  ok, err, ◌>>=◌, length, ◌≡◌, refl,
}
use adjudication.Prelude.Text.{Text, codes}
use adjudication.Json.Print.{decimal}
use adjudication.Common.Persona.{Spec, Files, load_records_file}
use adjudication.Arb.Context.{CouncilSeat}

check_requests : ℕ → List Spec → List Spec → Result Text (List Spec)
unfolding decimal
check_requests index [] specs = ok specs
check_requests index (spec ∷ rest) specs =
    has_request spec.request_spec (check_requests (suc index) rest specs)
  where
    has_request : {A : Type 0} → Option A → Result Text (List Spec) → Result Text (List Spec)
    has_request (some request) next = next
    has_request none next = err (
        codes "council pool record "
        ++ (decimal index ++ codes " has no request_spec; JSONL request-spec records are required"))

unfoldable pub council_pool_meta : Files → Text → Text → Result Text (List Spec)
unfolding check_requests load_records_file
council_pool_meta files path base_dir = do
  specs ← load_records_file files path base_dir
  check_requests 1 specs specs

unfoldable pub candidate_of : Spec → CouncilSeat
candidate_of spec = record {
  member_id = [];
  model = spec.model;
  persona_file = spec.file;
  request_spec = spec.request_spec;
  persona_text = spec.text;
}

-- The entry at a place of a nonempty list, with what is left.
unfoldable pub pick {ℓ} : {A : Type ℓ} → ℕ → A → List A → A × List A
pick zero a rest = (a, rest)
pick (suc n) a [] = (a, [])
pick (suc n) a (b ∷ rest) = let (found, left) = pick n b rest in (found, a ∷ left)

abbrev no_randomness : Text
no_randomness = codes "sample council pool: no randomness"

-- One pick for each candidate that is left; where the random source fails, `rolls` ends.
unfoldable pub shuffle : List ℕ → List Spec → ℕ → Result Text (List CouncilSeat)
unfolding candidate_of pick
shuffle rolls specs zero = ok []
shuffle rolls [] (suc left) = ok []
shuffle [] (spec ∷ specs) (suc left) = err no_randomness
shuffle (roll ∷ rolls) (spec ∷ specs) (suc left) =
    let (found, others) = pick (roll % suc (length specs)) spec specs in
    do seats ← shuffle rolls others left; ok (candidate_of found ∷ seats)

unfoldable pub shuffled_council_candidates : List ℕ → List Spec → Result Text (List CouncilSeat)
unfolding shuffle
shuffled_council_candidates rolls specs = shuffle rolls specs (length specs)
