-- ===== src/Arb/Council/Preflight/Seated.antt =====
-- council_preflight.go, `preflightCouncilCandidates`: who is seated.
use adjudication.Prelude.{
  ℕ, zero, suc, ◌≤◌, Bool, true, false, Option, none, some, List, [], ◌∷◌, ok, err, if◌then◌else◌,
  length, map, take, leb, ◌≡◌, refl, ap, sym, ◌∙◌, arith, ◌⊎◌, inl, inr, Bool-cases, Option-cases,
  ◌&&◌,
}
use adjudication.Prelude.Int.{ℤ, pos, negsuc, leb_ℤ, ltb_ℤ, pos_part}
use adjudication.Prelude.Text.{Text}
use adjudication.Arb.Context.{CouncilSeat}
use adjudication.Arb.Council.Preflight.{
  CouncilPreflightReplacement, Seating, seated, unseated, with_failed, unavailable, answered,
  seat_member, seat_id, fill, after_seating, add_seat, replaced_by, Filled,
  preflight_council_candidates,
}

abbrev pub is_none {ℓ} : {A : Type ℓ} → Option A → Bool
is_none none = true
is_none (some a) = false

-- A candidate at a seat.
abbrev pub at_seat : Text → CouncilSeat → CouncilSeat
at_seat id seat = record seat { member_id = id }

-- Candidates with the ids of the seats from `n` on.
unfoldable pub numbered : ℕ → List CouncilSeat → List CouncilSeat
unfolding seat_id
numbered n [] = []
numbered n (seat ∷ seats) = at_seat (seat_id n) seat ∷ numbered (suc n) seats

unfoldable pub seats_of : Filled → Option (List CouncilSeat)
seats_of (ok (seats, replacements)) = some seats
seats_of (err e) = none

seats_of-add_seat :
    (seat : CouncilSeat) (before : List CouncilPreflightReplacement) (r : Filled) (b : Bool)
    (seats : List CouncilSeat)
    → seats_of r ≡ (if b then some seats else none)
    → seats_of (add_seat seat before r) ≡ (if b then some (seat ∷ seats) else none)
unfolding seats_of add_seat
seats_of-add_seat seat before (ok (found, replacements)) true seats h = ground arith
seats_of-add_seat seat before (ok found) false seats h = ground arith
seats_of-add_seat seat before (err e) true seats h = ground arith
seats_of-add_seat seat before (err e) false seats h = ground arith

leb-suc : (a b : ℕ) → leb (suc a) (suc b) ≡ leb a b
leb-suc a b = ground arith

module _ (check : CouncilSeat → Option Text) where
  -- The candidates that answer, in their order.
  unfoldable pub available : List CouncilSeat → List CouncilSeat
  available [] = []
  available (seat ∷ seats) =
      let rest = available seats in if is_none (check seat) then seat ∷ rest else rest

  -- Whether a candidate answers does not depend on the seat.
  abbrev pub IgnoresSeat : Type 0
  IgnoresSeat =
      (id : Text) (seat : CouncilSeat) → is_none (check (at_seat id seat)) ≡ is_none (check seat)

  -- Nobody answers, or the first who does is seated.
  abbrev FirstSeated : Text → List CouncilSeat → Seating → Type 0
  FirstSeated id candidates s =
      ((failed : List CouncilPreflightReplacement) × (s ≡ unseated failed)
        × (available candidates ≡ []))
      ⊎ ((seat : CouncilSeat) × (rest : List CouncilSeat) × (failed : List
            CouncilPreflightReplacement)
          × (s ≡ seated (at_seat id seat) rest failed)
          × (available candidates ≡ seat ∷ available rest))

  with_failed-FirstSeated :
      (id : Text) (seat : CouncilSeat) (rest : List CouncilSeat) (r : CouncilPreflightReplacement)
      (s : Seating)
      → is_none (check seat) ≡ false
      → FirstSeated id rest s
      → FirstSeated id (seat ∷ rest) (with_failed r s)
  unfolding with_failed available
  with_failed-FirstSeated id seat rest r s out (inl (failed, p, q)) =
      inl (r ∷ failed, rw p refl, rw out q)
  with_failed-FirstSeated id seat rest r s out (inr (next, left, failed, p, q)) =
      inr (next, left, r ∷ failed, rw p refl, rw out q)

  seat_member-FirstSeated :
      IgnoresSeat
      → (id : Text) (candidates : List CouncilSeat)
      → FirstSeated id candidates (seat_member check id candidates)
  unfolding seat_member answered available
  seat_member-FirstSeated ignores id [] = inl ([], refl, refl)
  seat_member-FirstSeated ignores id (seat ∷ rest) = elim (Option-cases (check (at_seat id seat))) [
    | inl p ↦ inr (seat, rest, [], rw p refl, rw (sym (ignores id seat) ∙ ap is_none p) refl)
    | inr (cause, p) ↦ rw p (
        with_failed-FirstSeated id seat rest (unavailable (at_seat id seat) cause)
          (seat_member check id rest) (sym (ignores id seat) ∙ ap is_none p)
          (seat_member-FirstSeated ignores id rest))
  ]

  fill-seats :
      IgnoresSeat
      → (n left : ℕ) (candidates : List CouncilSeat)
      → seats_of (fill check n left candidates) ≡ (
          if leb left (length (available candidates))
          then some (numbered n (take left (available candidates)))
          else none)
  unfolding fill seats_of numbered after_seating
  fill-seats ignores n zero candidates = ground arith
  fill-seats ignores n (suc left) candidates =
      elim (seat_member-FirstSeated ignores (seat_id n) candidates) [
        | inl (failed, p, q) ↦ rw (q, p, fill) (ground arith)
        | inr (seat, rest, failed, p, q) ↦
            rw (q, p, fill, leb-suc left (length (available rest)))
              (seats_of-add_seat (at_seat (seat_id n) seat)
                (map (replaced_by (at_seat (seat_id n) seat)) failed) (fill check (suc n) left rest)
                (leb left (length (available rest))) (numbered (suc n) (take left (available rest)))
                (fill-seats ignores (suc n) left rest))
      ]

  pub length-available :
      (candidates : List CouncilSeat) → length (available candidates) ≤ length candidates
  unfolding available
  length-available [] = omega arith
  length-available (seat ∷ rest) = ground (arith, length-available rest)

  -- Where answering does not depend on the seat, the council is the first candidates that answer,
  -- in their order, in seats numbered from 1 on, as many as asked for; there is none exactly where
  -- the number is not positive or fewer candidates answer.
  pub preflight_council_candidates-seats :
      IgnoresSeat
      → (count : ℤ) (candidates : List CouncilSeat)
      → seats_of (preflight_council_candidates check count candidates) ≡ (
          if ltb_ℤ (pos 0) count && leb_ℤ count (pos (length (available candidates)))
          then some (numbered 1 (take (pos_part count) (available candidates)))
          else none)
  unfolding preflight_council_candidates seats_of
  preflight_council_candidates-seats ignores (negsuc n) candidates = ground arith
  preflight_council_candidates-seats ignores (pos n) candidates =
      elim (Bool-cases (leb_ℤ (pos n) (pos 0))) [
        | inl p ↦ rw p (ground arith)
        | inr p ↦ elim (Bool-cases (ltb_ℤ (pos (length candidates)) (pos n))) [
          | inl q ↦ rw (p, q) (ground (arith, length-available candidates))
          | inr q ↦ rw (p, q, fill-seats ignores 1 n candidates) (ground arith)
        ]
      ]
