-- ===== src/Arb/Evidence/Names/Canonical.antt =====
-- evidence.go, `canonicalEvidenceID`: the shape of an identifier.
use adjudication.Prelude.{ℕ, true, ◌≡◌, Bool-cases, inl, inr}
use adjudication.Prelude.Text.{Text, has_prefix, has_prefix-append, trim_space}
use adjudication.Arb.Evidence.Names.{
  canonical_evidence_id, evidence_id_for_file, id_prefix, slug_of,
}

-- Whatever it is given, the canonical identifier of content begins with the prefix of its digest.
pub canonical_evidence_id-prefix :
    (table : ℕ → ℕ) (sha candidate : Text)
    → has_prefix (canonical_evidence_id table sha candidate) (id_prefix sha) ≡ true
unfolding canonical_evidence_id evidence_id_for_file
canonical_evidence_id-prefix table sha candidate =
    elim (Bool-cases (has_prefix (trim_space candidate) (id_prefix sha))) [
      | inl p ↦ rw (p, p)
      | inr p ↦ rw (p, has_prefix-append (id_prefix sha) (slug_of table (trim_space candidate)))
    ]
