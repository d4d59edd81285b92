-- ===== src/Arb/Evidence/Upload/Rules.antt =====
-- The checks of evidence.go, `beginEvidenceUpload`, `writeEvidenceChunk` and
-- `prepareEvidenceUploadCommit`, and the rules of attorney_tools.go on who may submit.
use adjudication.Prelude.{
  ℕ, ◌+◌, Bool, not, ◌&&◌, ◌||◌, Option, List, [], ◌∷◌, ◌++◌, Result, ok, ◌>>=◌, ◌>>◌, reject_if,
  or_fail, if◌then◌else◌, length, ◌==◌,
}
use adjudication.Prelude.Int.{ℤ, pos, ltb_ℤ, leb_ℤ, eq_ℤ}
use adjudication.Prelude.Text.{Text, msg, text_eq, is_empty, to_lower}
use adjudication.Json.{Fields, get, required_int_param}
use adjudication.Json.Print.{map_string}
use adjudication.Arb.Policy.{Policy}
use adjudication.Arb.Context.{Bytes, Opportunity, EvidenceUploadSession, SubmittedEvidenceMeta}
use adjudication.Arb.Evidence.Registry.{join_path}
use adjudication.Arb.Evidence.Names.{submitted_evidence_filename, evidence_id_for_file}

unfoldable pub evidence_submission_allowed : Opportunity → Bool
unfolding text_eq
evidence_submission_allowed o =
    text_eq o.phase (msg "arguments")
    || text_eq o.phase (msg "rebuttals")
    || text_eq o.phase (msg "surrebuttals")

unfoldable pub submitted_evidence_count_for_role : List SubmittedEvidenceMeta → Text → ℕ
submitted_evidence_count_for_role [] role = 0
submitted_evidence_count_for_role (item ∷ items) role =
    let rest = submitted_evidence_count_for_role items role in
    if text_eq item.role role then rest + 1 else rest

-- The session that the parameters describe.
unfoldable pub new_session :
    (ℕ → ℕ) → Opportunity → Fields → ℤ → Text → Text → EvidenceUploadSession
new_session table o params expected upload_id dir = record {
  upload_id = upload_id;
  role = o.role;
  phase = o.phase;
  title = map_string (get (msg "title") params);
  mime_type = map_string (get (msg "mime_type") params);
  expected_size_bytes = expected;
  expected_sha256 = to_lower table (map_string (get (msg "expected_sha256") params));
  source_url = map_string (get (msg "source_url") params);
  source_description = map_string (get (msg "source_description") params);
  retrieval_timestamp = map_string (get (msg "retrieval_timestamp") params);
  relevance = map_string (get (msg "relevance") params);
  parent_evidence_id = map_string (get (msg "parent_evidence_id") params);
  derivation_method = map_string (get (msg "derivation_method") params);
  path = join_path dir (upload_id ++ msg ".part");
  received_bytes = 0;
}

unfoldable pub uploads_dir : Text → Text
uploads_dir output_dir = join_path output_dir (msg "evidence-uploads")

-- The checks of a new upload, which give the expected size.
unfoldable pub check_begin :
    Policy → List SubmittedEvidenceMeta → Opportunity → Fields → Result Text ℤ
unfolding evidence_submission_allowed
check_begin policy submitted o params = do
  reject_if (not (evidence_submission_allowed o))
      (msg "evidence upload is allowed only in arguments, rebuttals, and surrebuttals")
  expected ← required_int_param params (msg "expected_size_bytes")
  reject_if (is_empty (map_string (get (msg "title") params))) (msg "title")
  reject_if
      (is_empty (map_string (get (msg "source_url") params))
        && is_empty (map_string (get (msg "source_description") params)))
      (msg "source_url or source_description")
  reject_if (is_empty (map_string (get (msg "mime_type") params))) (msg "mime_type")
  reject_if (is_empty (map_string (get (msg "relevance") params))) (msg "relevance")
  reject_if (leb_ℤ expected (pos 0)) (msg "positive expected_size_bytes")
  reject_if (ltb_ℤ policy.max_evidence_upload_bytes expected)
      (msg "evidence upload exceeds byte limit")
  reject_if
      (leb_ℤ policy.max_submitted_evidence_per_side
        (pos (submitted_evidence_count_for_role submitted o.role)))
      (msg "submitted_evidence for this side exceed limit")
  ok expected

-- The checks of a chunk, which give its session and its bytes. A sum of two lengths in memory does
-- not wrap round.
unfoldable pub check_chunk :
    Policy
    → Option EvidenceUploadSession
    → ℤ
    → Option Bytes
    → Result Text (EvidenceUploadSession × Bytes)
check_chunk policy found offset decoded = do
  session ← or_fail found (msg "unknown upload_id")
  reject_if (not (eq_ℤ offset (pos session.received_bytes)))
      (msg "evidence upload offset does not match received byte count")
  raw ← or_fail decoded (msg "decode evidence chunk")
  reject_if (length raw == 0) (msg "evidence chunk must not be empty")
  reject_if (ltb_ℤ policy.max_evidence_chunk_bytes (pos (length raw)))
      (msg "evidence chunk exceeds byte limit")
  reject_if (ltb_ℤ session.expected_size_bytes (pos (session.received_bytes + length raw)))
      (msg "evidence upload exceeds expected size")
  ok (session, raw)

-- The checks of a commit, which give the digest of the uploaded file.
unfoldable pub check_commit :
    (Bytes → Text) → EvidenceUploadSession → Option Bytes → Result Text Text
check_commit sha256 session file = do
  reject_if (not (eq_ℤ session.expected_size_bytes (pos session.received_bytes)))
      (msg "evidence upload incomplete")
  bytes ← or_fail file (msg "open evidence upload")
  reject_if
      (not (is_empty session.expected_sha256)
        && not (text_eq session.expected_sha256 (sha256 bytes)))
      (msg "evidence upload sha256 mismatch")
  ok (sha256 bytes)

unfoldable pub submitted_meta :
    (ℕ → ℕ) → ℕ → EvidenceUploadSession → Text → Text → SubmittedEvidenceMeta
submitted_meta table index session sha preferred_ext =
    let name =
      submitted_evidence_filename table index session.role sha session.mime_type preferred_ext in
    record {
      phase = session.phase;
      role = session.role;
      evidence_id = evidence_id_for_file table sha name;
      name = name;
      title = session.title;
      source_url = session.source_url;
      source_description = session.source_description;
      mime_type = session.mime_type;
      retrieval_timestamp = session.retrieval_timestamp;
      relevance = session.relevance;
      sha256 = sha;
      size_bytes = session.received_bytes;
    }

unfoldable pub prepare_commit :
    (Bytes → Text)
    → (ℕ → ℕ)
    → ℕ
    → EvidenceUploadSession
    → Option Bytes
    → Text
    → Result Text SubmittedEvidenceMeta
unfolding check_commit submitted_meta
prepare_commit sha256 table index session file preferred_ext = do
  sha ← check_commit sha256 session file
  ok (submitted_meta table index session sha preferred_ext)
