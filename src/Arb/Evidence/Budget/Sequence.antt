-- ===== src/Arb/Evidence/Budget/Sequence.antt =====
-- A sequence of reads of one opportunity, under its budget.
use adjudication.Prelude.{
  ℕ, ◌+◌, ◌^◌, List, [], ◌∷◌, Result, ok, err, ◌≡◌, length, arith, All, ap, sym, subst,
  Result-cases, inl, inr,
}
use adjudication.Prelude.Int.{ℤ, pos, ◌≤ℤ◌, ◌<ℤ◌}
use adjudication.Prelude.Text.{Text}
use adjudication.Arb.Policy.{Policy}
use adjudication.Arb.Policy.Validation.{IsValid}
use adjudication.Arb.Context.{RunContext}
use adjudication.Arb.Context.Host.{Host}
use adjudication.Arb.Evidence.Read.{EvidenceReadBudget, EvidenceRange, read_evidence_range}
use adjudication.Arb.Evidence.Budget.{Within, read_evidence_range-Within, read_evidence_range-eq_ok}

module _ (host : Host) where
  -- A request, in the context in which it is served.
  abbrev pub Request : Type 0
  Request = RunContext host.World × Text × ℤ × ℤ

  abbrev collected : Result Text EvidenceRange → List EvidenceRange → List EvidenceRange
  collected (ok r) rs = r ∷ rs
  collected (err e) rs = rs

  -- The requests of one opportunity, in order, with the ranges that were returned.
  pub read_all : List Request → EvidenceReadBudget → EvidenceReadBudget × List EvidenceRange
  read_all [] b = (b, [])
  read_all ((c, id, offset, len) ∷ rest) b =
      let (b', answer) = read_evidence_range host c id offset len b in
      let (last, rs) = read_all rest b' in (last, collected answer rs)

  abbrev pub total_length : List EvidenceRange → ℕ
  total_length [] = 0
  total_length (r ∷ rs) = r.length + total_length rs

  read_all-Within :
      (p : Policy) (requests : List Request) (b : EvidenceReadBudget)
      → IsValid p
      → p.max_evidence_read_bytes_per_opportunity <ℤ pos (2 ^ 62)
      → All (λ q. q.0.policy ≡ p) requests
      → Within p b
      → Within p (read_all requests b).0
  unfolding read_all
  read_all-Within p [] b v small same w = w
  read_all-Within p ((c, id, offset, len) ∷ rest) b v small same w =
      read_all-Within p rest (read_evidence_range host c id offset len b).0 v small same.1 (
        subst (λ q. Within q (read_evidence_range host c id offset len b).0) same.0
          (read_evidence_range-Within host c id offset len b (subst IsValid (sym same.0) v)
            (subst (λ q. q.max_evidence_read_bytes_per_opportunity <ℤ pos (2 ^ 62)) (sym same.0)
              small)
            (subst (λ q. Within q b) (sym same.0) w)))

  read_evidence_range-err :
      (c : RunContext host.World) (id : Text) (offset len : ℤ) (b : EvidenceReadBudget) (e : Text)
      → (read_evidence_range host c id offset len b).1 ≡ err e
      → (read_evidence_range host c id offset len b).0 ≡ b
  unfolding read_evidence_range
  read_evidence_range-err c id offset len b e h = ground arith

  -- The budget counts exactly what was returned.
  read_all-charged :
      (requests : List Request) (b : EvidenceReadBudget)
      → ((read_all requests b).0.bytes ≡ b.bytes + total_length (read_all requests b).1)
        × ((read_all requests b).0.reads ≡ b.reads + length (read_all requests b).1)
  unfolding read_all
  read_all-charged [] b = omega arith
  read_all-charged ((c, id, offset, len) ∷ rest) b =
      let answer = read_evidence_range host c id offset len b in
      let ih = read_all-charged rest answer.0 in
      elim (Result-cases answer.1) [
        | inl (r, e) ↦
            let (_, _, charged) = read_evidence_range-eq_ok host c id offset len b r e in
            rw e (
              omega (
                arith,
                ih,
                ap (λ (x : EvidenceReadBudget). x.bytes) charged,
                ap (λ (x : EvidenceReadBudget). x.reads) charged,
              ))
        | inr (m, e) ↦
            let kept = read_evidence_range-err c id offset len b m e in
            rw e (
              omega (
                arith,
                ih,
                ap (λ (x : EvidenceReadBudget). x.bytes) kept,
                ap (λ (x : EvidenceReadBudget). x.reads) kept,
              ))
      ]

  -- Under an accepted policy whose byte budget is below 2^62, the bytes and the number of ranges
  -- that one opportunity is given by any sequence of reads, in any contexts with that policy, stay
  -- within the policy's two limits.
  pub read_all_bounded :
      (p : Policy) (requests : List Request)
      → IsValid p
      → p.max_evidence_read_bytes_per_opportunity <ℤ pos (2 ^ 62)
      → All (λ q. q.0.policy ≡ p) requests
      → let rs = (read_all requests (record { bytes = 0; reads = 0 })).1 in
        (pos (total_length rs) ≤ℤ p.max_evidence_read_bytes_per_opportunity)
        × (pos (length rs) ≤ℤ p.max_evidence_reads_per_opportunity)
  read_all_bounded p requests v small same = omega (
    arith,
    read_all-charged requests (record { bytes = 0; reads = 0 }),
    read_all-Within p requests (record { bytes = 0; reads = 0 }) v small same
        (record { bytes_within = omega arith; reads_within = omega arith }),
  )
