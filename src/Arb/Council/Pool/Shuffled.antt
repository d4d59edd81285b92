-- ===== src/Arb/Council/Pool/Shuffled.antt =====
-- council_preflight.go, `shuffledCouncilCandidates`: the candidates are the pool's, in some order.
use adjudication.Prelude.{
  ℕ, zero, suc, ◌%◌, ◌≤◌, List, [], ◌∷◌, ok, map, length, ◌≡◌, refl, ap, ◌∙◌, arith,
}
use adjudication.Common.Persona.{Spec}
use adjudication.Arb.Context.{CouncilSeat}
use adjudication.Arb.Council.Pool.{pick, shuffle, candidate_of, shuffled_council_candidates}
use mathlib.Core.List.{Perm}
use mathlib.Core.List.Perm

pick-Perm :
    (n : ℕ) (a : Spec) (rest : List Spec)
    → Perm
        (map candidate_of (a ∷ rest))
        (candidate_of (pick n a rest).0 ∷ map candidate_of (pick n a rest).1)
unfolding pick
pick-Perm zero a rest = Perm.refl (candidate_of a ∷ map candidate_of rest)
pick-Perm (suc n) a [] = Perm.refl (candidate_of a ∷ [])
pick-Perm (suc n) a (b ∷ rest) = Perm.trans (Perm.cons (candidate_of a) (pick-Perm n b rest)) (
    Perm.swap (candidate_of (pick n b rest).0) (candidate_of a)
      (map candidate_of (pick n b rest).1))

length-pick {ℓ} :
    {A : Type ℓ} (n : ℕ) (a : A) (rest : List A) → length (pick n a rest).1 ≡ length rest
unfolding pick
length-pick zero a rest = refl
length-pick (suc n) a [] = refl
length-pick (suc n) a (b ∷ rest) = ap suc (length-pick n b rest)

shuffle-Perm :
    (rolls : List ℕ) (specs : List Spec) (left : ℕ)
    → length specs ≡ left
    → left ≤ length rolls
    → (seats : List CouncilSeat) × (shuffle rolls specs left ≡ ok seats)
      × (length seats ≡ length specs)
      × Perm (map candidate_of specs) seats
unfolding shuffle
shuffle-Perm rolls [] zero h k = ([], refl, refl, Perm.nil)
shuffle-Perm rolls [] (suc left) h k = ground arith
shuffle-Perm rolls (spec ∷ specs) zero h k = ground arith
shuffle-Perm [] (spec ∷ specs) (suc left) h k = ground arith
shuffle-Perm (roll ∷ rolls) (spec ∷ specs) (suc left) h k =
    let n = roll % suc (length specs) in
    let (seats, p, l, q) =
      shuffle-Perm rolls (pick n spec specs).1 left (omega (arith, length-pick n spec specs))
        (omega arith) in
    (
      candidate_of (pick n spec specs).0 ∷ seats,
      rw p refl,
      ap suc (l ∙ length-pick n spec specs),
      Perm.trans (pick-Perm n spec specs) (Perm.cons (candidate_of (pick n spec specs).0) q),
    )

-- With one random pick for each record of the pool, the shuffle succeeds, and its candidates are
-- as many as the records of the pool, and those in some order.
pub shuffled_council_candidates-Perm :
    (rolls : List ℕ) (specs : List Spec)
    → length specs ≤ length rolls
    → (seats : List CouncilSeat) × (shuffled_council_candidates rolls specs ≡ ok seats)
      × (length seats ≡ length specs)
      × Perm (map candidate_of specs) seats
unfolding shuffled_council_candidates
shuffled_council_candidates-Perm rolls specs h = shuffle-Perm rolls specs (length specs) refl h
