-- ===== src/Arb/Evidence/Immutable.antt =====
-- The registry is append-only: what an id names never changes.
use adjudication.Prelude.{
  Bool, &&-true, ==→eq, true, false, none, some, [], ◌∷◌, ok, ◌≡◌, ◌⊎◌, ◌↔◌, arith, map, map-append,
}
use adjudication.Prelude.Text.{Text, is_empty, text_eq→eq, text_eq_refl}
use adjudication.Prelude.Assoc.{lookup, lookup-insert, insert-fresh}
use adjudication.Arb.Context.{RunContext, EvidenceMeta}
use adjudication.Arb.Evidence.Registry.{
  bool_eq, add_evidence, same_metadata, evidence_metadata_conflict,
}

abbrev pub keyed : EvidenceMeta → Text × EvidenceMeta
keyed m = (m.evidence_id, m)

bool_eq→eq : (a b : Bool) → bool_eq a b ≡ true → a ≡ b
unfolding bool_eq
bool_eq→eq a b h = ground arith

-- Metadata that pass for the same are the same but for the time of creation.
same_metadata-agrees :
    (a b : EvidenceMeta) → same_metadata a b ≡ true → a ≡ record b { created_at = a.created_at }
unfolding same_metadata
same_metadata-agrees a b h =
    let (h17, same_text_readable) = &&-true _ _ h in
    let (h16, same_relevance) = &&-true _ _ h17 in
    let (h15, same_derivation_method) = &&-true _ _ h16 in
    let (h14, same_parent_sha256) = &&-true _ _ h15 in
    let (h13, same_parent_evidence_id) = &&-true _ _ h14 in
    let (h12, same_submitted_phase) = &&-true _ _ h13 in
    let (h11, same_submitted_by_role) = &&-true _ _ h12 in
    let (h10, same_retrieval_timestamp) = &&-true _ _ h11 in
    let (h9, same_source_description) = &&-true _ _ h10 in
    let (h8, same_source_url) = &&-true _ _ h9 in
    let (h7, same_original_name) = &&-true _ _ h8 in
    let (h6, same_title) = &&-true _ _ h7 in
    let (h5, same_record_visibility) = &&-true _ _ h6 in
    let (h4, same_admissibility_status) = &&-true _ _ h5 in
    let (h3, same_storage_name) = &&-true _ _ h4 in
    let (h2, same_mime_type) = &&-true _ _ h3 in
    let (h1, same_size_bytes) = &&-true _ _ h2 in
    let (same_evidence_id, same_sha256) = &&-true _ _ h1 in
    λ i. record {
      created_at = a.created_at;
      evidence_id = (text_eq→eq a.evidence_id b.evidence_id same_evidence_id) i;
      sha256 = (text_eq→eq a.sha256 b.sha256 same_sha256) i;
      size_bytes = (==→eq a.size_bytes b.size_bytes same_size_bytes) i;
      mime_type = (text_eq→eq a.mime_type b.mime_type same_mime_type) i;
      storage_name = (text_eq→eq a.storage_name b.storage_name same_storage_name) i;
      admissibility_status =
          (text_eq→eq a.admissibility_status b.admissibility_status same_admissibility_status) i;
      record_visibility =
          (text_eq→eq a.record_visibility b.record_visibility same_record_visibility) i;
      title = (text_eq→eq a.title b.title same_title) i;
      original_name = (text_eq→eq a.original_name b.original_name same_original_name) i;
      source_url = (text_eq→eq a.source_url b.source_url same_source_url) i;
      source_description =
          (text_eq→eq a.source_description b.source_description same_source_description) i;
      retrieval_timestamp =
          (text_eq→eq a.retrieval_timestamp b.retrieval_timestamp same_retrieval_timestamp) i;
      submitted_by_role =
          (text_eq→eq a.submitted_by_role b.submitted_by_role same_submitted_by_role) i;
      submitted_phase = (text_eq→eq a.submitted_phase b.submitted_phase same_submitted_phase) i;
      parent_evidence_id =
          (text_eq→eq a.parent_evidence_id b.parent_evidence_id same_parent_evidence_id) i;
      parent_sha256 = (text_eq→eq a.parent_sha256 b.parent_sha256 same_parent_sha256) i;
      derivation_method =
          (text_eq→eq a.derivation_method b.derivation_method same_derivation_method) i;
      relevance = (text_eq→eq a.relevance b.relevance same_relevance) i;
      text_readable = (bool_eq→eq a.text_readable b.text_readable same_text_readable) i;
    }

agrees-same_metadata :
    (a b : EvidenceMeta) → a ≡ record b { created_at = a.created_at } → same_metadata a b ≡ true
unfolding same_metadata
agrees-same_metadata a b h = grind (arith, text_eq_refl)

module _ {World : Type 0} where
  -- An evidence id that is registered keeps its metadata, whatever is added and whether or not
  -- that fails.
  pub add_evidence-lookup :
      (c : RunContext World) (meta m : EvidenceMeta) (id : Text)
      → lookup id c.evidence_by_id ≡ some m
      → lookup id (add_evidence meta c).0.evidence_by_id ≡ some m
  unfolding add_evidence
  add_evidence-lookup c meta m id h = ground (
    arith,
    lookup-insert meta.evidence_id id meta c.evidence_by_id,
    text_eq→eq meta.evidence_id id,
  )

  -- What adding evidence answers is registered under the id that was asked for, and is the offered
  -- metadata in all but the time of creation: it is what was registered before, or, where nothing
  -- was, the offered metadata as it stands.
  pub add_evidence-registers :
      (c : RunContext World) (meta m : EvidenceMeta)
      → (add_evidence meta c).1 ≡ ok m
      → (lookup meta.evidence_id (add_evidence meta c).0.evidence_by_id ≡ some m)
        × (m ≡ record meta { created_at = m.created_at })
        × ((lookup meta.evidence_id c.evidence_by_id ≡ some m)
            ⊎ ((lookup meta.evidence_id c.evidence_by_id ≡ none) × (m ≡ meta)))
  unfolding add_evidence evidence_metadata_conflict
  add_evidence-registers c meta m h = ground (
    arith,
    lookup-insert meta.evidence_id meta.evidence_id meta c.evidence_by_id,
    text_eq_refl meta.evidence_id,
    same_metadata-agrees m meta,
  )

  -- Evidence that is offered under an id that is registered, and not empty, is answered with what
  -- is registered, and nothing changed, exactly when the two agree in all but the time of
  -- creation.
  pub add_evidence-again :
      (c : RunContext World) (meta m : EvidenceMeta)
      → lookup meta.evidence_id c.evidence_by_id ≡ some m
      → is_empty meta.evidence_id ≡ false
      → (add_evidence meta c ≡ (c, ok m)) ↔ (m ≡ record meta { created_at = m.created_at })
  unfolding add_evidence evidence_metadata_conflict
  add_evidence-again c meta m found named = (
    λ h. ground (arith, same_metadata-agrees m meta),
    λ agrees. ground (arith, agrees-same_metadata m meta),
  )

  -- The map of evidence and the list hold the same entries, in the same order.
  abbrev pub InStep : RunContext World → Type 0
  InStep c = c.evidence_by_id ≡ map keyed c.evidence

  -- Adding evidence, whatever its outcome, keeps the map and the list of evidence in step.
  pub add_evidence-InStep :
      (c : RunContext World) (meta : EvidenceMeta) → InStep c → InStep (add_evidence meta c).0
  unfolding add_evidence
  add_evidence-InStep c meta h = ground (
    arith,
    insert-fresh meta.evidence_id meta c.evidence_by_id,
    map-append keyed c.evidence (meta ∷ []),
  )
