-- ===== src/Arb/Evidence/Registry.antt =====
-- evidence.go, `addEvidence`, `evidenceMetadataConflict`, `evidencePath` and `statEvidence`.
use adjudication.Prelude.{
  Bool, true, false, not, ◌&&◌, ◌||◌, Option, none, some, [], ◌∷◌, ◌++◌, Result, ok, err, ◌>>=◌,
  ◌>>◌, reject_if, or_fail, if◌then◌else◌, ◌==◌, length,
}
use adjudication.Prelude.Text.{Text, msg, text_eq, is_empty, trim_space, has_prefix}
use adjudication.Prelude.Assoc.{lookup, insert}
use adjudication.Arb.Context.{RunContext, EvidenceMeta}
use adjudication.Arb.Context.Host.{Host}

unfoldable pub bool_eq : Bool → Bool → Bool
bool_eq true b = b
bool_eq false b = not b

-- `left == right` after both creation times are cleared.
unfoldable pub same_metadata : EvidenceMeta → EvidenceMeta → Bool
unfolding bool_eq text_eq
same_metadata a b =
    text_eq a.evidence_id b.evidence_id
    && text_eq a.sha256 b.sha256
    && a.size_bytes == b.size_bytes
    && text_eq a.mime_type b.mime_type
    && text_eq a.storage_name b.storage_name
    && text_eq a.admissibility_status b.admissibility_status
    && text_eq a.record_visibility b.record_visibility
    && text_eq a.title b.title
    && text_eq a.original_name b.original_name
    && text_eq a.source_url b.source_url
    && text_eq a.source_description b.source_description
    && text_eq a.retrieval_timestamp b.retrieval_timestamp
    && text_eq a.submitted_by_role b.submitted_by_role
    && text_eq a.submitted_phase b.submitted_phase
    && text_eq a.parent_evidence_id b.parent_evidence_id
    && text_eq a.parent_sha256 b.parent_sha256
    && text_eq a.derivation_method b.derivation_method
    && text_eq a.relevance b.relevance
    && bool_eq a.text_readable b.text_readable

-- none is the empty text: no conflict.
unfoldable pub evidence_metadata_conflict : EvidenceMeta → EvidenceMeta → Option Text
evidence_metadata_conflict existing incoming =
    if same_metadata existing incoming
    then none
    else if not (text_eq existing.sha256 incoming.sha256)
        || not (existing.size_bytes == incoming.size_bytes)
        || not (text_eq existing.storage_name incoming.storage_name)
    then some (msg "existing and incoming sha, size or storage differ")
    else some (msg "metadata differs for existing evidence_id")

module _ {World : Type 0} where
  -- The lines for an id that is registered.
  existing_evidence :
      EvidenceMeta → Option Text → RunContext World → RunContext World × Result Text EvidenceMeta
  existing_evidence existing none c = (c, ok existing)
  existing_evidence existing (some conflict) c =
      (c, err (msg "evidence_id collision: " ++ conflict))

  registered :
      EvidenceMeta
      → Option EvidenceMeta
      → RunContext World
      → RunContext World × Result Text EvidenceMeta
  unfolding existing_evidence
  registered meta none c = (
    record c {
      evidence = c.evidence ++ meta ∷ [];
      evidence_by_id = insert meta.evidence_id meta c.evidence_by_id;
    },
    ok meta,
  )
  registered meta (some existing) c =
      existing_evidence existing (evidence_metadata_conflict existing meta) c

  unfoldable pub add_evidence :
      EvidenceMeta → RunContext World → RunContext World × Result Text EvidenceMeta
  unfolding registered
  add_evidence meta c =
      if is_empty meta.evidence_id
      then (c, err (msg "evidence_id is required"))
      else registered meta (lookup meta.evidence_id c.evidence_by_id) c

-- `filepath.Join(rc.cfg.OutputDir, "evidence-store")` and a path below it.
unfoldable pub join_path : Text → Text → Text
join_path dir name = dir ++ b'/' ∷ name

unfoldable pub evidence_path : Text → EvidenceMeta → Result Text Text
unfolding join_path
evidence_path output_dir meta =
    if is_empty (trim_space meta.storage_name)
    then err (msg "evidence has no storage_name")
    else if has_prefix (trim_space meta.storage_name) (b'/' ∷ [])
    then ok (trim_space meta.storage_name)
    else ok (join_path (join_path output_dir (msg "evidence-store")) (trim_space meta.storage_name))

unfoldable pub is_private : EvidenceMeta → Bool
is_private meta = text_eq meta.record_visibility (msg "system_private")

module _ (host : Host) where
  unfoldable pub stat_evidence : RunContext host.World → Text → Result Text EvidenceMeta
  stat_evidence c evidence_id = do
    reject_if (is_empty (trim_space evidence_id)) (msg "evidence_id is required")
    meta ← or_fail (lookup (trim_space evidence_id) c.evidence_by_id) (msg "unknown evidence")
    reject_if (is_private meta) (msg "unknown evidence")
    path ← evidence_path c.output_dir meta
    bytes ← or_fail (host.content c.world path) (msg "open evidence")
    reject_if (not (text_eq (host.sha256 bytes) meta.sha256)) (msg "evidence sha256 mismatch")
    reject_if (not (length bytes == meta.size_bytes)) (msg "evidence size mismatch")
    ok meta
