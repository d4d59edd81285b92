-- ===== src/Arb/Council/Preflight/Sampled.antt =====
-- council_preflight.go, `sampleAvailableCouncil`: the council that a pool gives.
use adjudication.Prelude.{
  ℕ, ◌≤◌, Bool, true, false, Option, none, some, List, ok, length, map, take, if◌then◌else◌, ◌&&◌,
  ◌≡◌, refl, sym, reject_if, ◌>>◌, arith,
}
use adjudication.Prelude.Int.{ℤ, pos, leb_ℤ, ltb_ℤ, pos_part}
use adjudication.Prelude.Text.{Text, codes}
use adjudication.Common.ModelRequest
use adjudication.Common.Persona.{Spec, Files}
use adjudication.Arb.Context.{CouncilSeat}
use adjudication.Arb.Council.Pool.{council_pool_meta, candidate_of}
use adjudication.Arb.Council.Pool.Shuffled.{shuffled_council_candidates-Perm}
use adjudication.Arb.Council.Preflight.{
  sample_available_council, check_council_seat_available, ask_candidate, Filled, pool_error,
}
use adjudication.Arb.Council.Preflight.Seated.{
  IgnoresSeat, at_seat, seats_of, available, numbered, is_none, preflight_council_candidates-seats,
  length-available,
}
use mathlib.Core.List.{Perm}

check_council_seat_available-IgnoresSeat :
    (client : ModelRequest.Spec → Option Text) → IgnoresSeat (check_council_seat_available client)
unfolding check_council_seat_available
check_council_seat_available-IgnoresSeat client id seat = go seat.request_spec
  where
    go :
        (request : Option ModelRequest.Spec)
        → is_none (ask_candidate client (at_seat id seat) request)
          ≡ is_none (ask_candidate client seat request)
    go none = unfold ask_candidate in refl
    go (some spec) = unfold ask_candidate in refl

seats_of-guard :
    (b : Bool) (e : Text) (r : Filled) (o : Option (List CouncilSeat))
    → seats_of r ≡ o
    → (b ≡ true → o ≡ none)
    → seats_of (reject_if b e >> r) ≡ o
unfolding seats_of
seats_of-guard true e r o h none_then = sym (none_then refl)
seats_of-guard false e r o h none_then = h

-- For a pool that loads, with one random pick for each of its records: the records in some order
-- are the candidates, and the seats go to the first of them that answer, numbered from 1 on; there
-- is no council exactly where the size is not positive or fewer candidates answer.
pub sample_available_council-Seats :
    (files : Files) (client : ModelRequest.Spec → Option Text) (rolls : List ℕ)
    (pool_path common_root : Text) (size : ℤ) (specs : List Spec)
    → council_pool_meta files pool_path common_root ≡ ok specs
    → length specs ≤ length rolls
    → (candidates : List CouncilSeat) × Perm (map candidate_of specs) candidates
      × (seats_of (sample_available_council files client rolls pool_path common_root size) ≡ (
          let found = available (check_council_seat_available client) candidates in
          if ltb_ℤ (pos 0) size && leb_ℤ size (pos (length found))
          then some (numbered 1 (take (pos_part size) found))
          else none))
unfolding sample_available_council
sample_available_council-Seats files client rolls pool_path common_root size specs loaded enough =
    let (candidates, shuffled, same_length, perm) =
      shuffled_council_candidates-Perm rolls specs enough in
    let found = available (check_council_seat_available client) candidates in
    let seats =
      if ltb_ℤ (pos 0) size && leb_ℤ size (pos (length found))
      then some (numbered 1 (take (pos_part size) found))
      else none in
    let final =
      preflight_council_candidates-seats (check_council_seat_available client)
        (check_council_seat_available-IgnoresSeat client) size candidates in
    (
      candidates,
      perm,
      rw (loaded, shuffled)
          (seats_of-guard (leb_ℤ size (pos 0)) (codes "council size must be positive") _ seats
            (seats_of-guard (ltb_ℤ (pos (length specs)) size) (pool_error size (length specs)) _
              seats final
              (λ h.
                ground (arith, length-available (check_council_seat_available client) candidates)))
            (λ h. ground arith)),
    )
