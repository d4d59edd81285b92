-- ===== src/Examples/Uploads.antt =====
-- Reads, uploads and the registry of evidence in the example run.
use adjudication.Prelude.{
  none, ok, true, false, Option, some, List, [], ◌∷◌, ◌≡◌, ◌⊎◌, refl, arith, length,
}
use adjudication.Prelude.Int.{ℤ, pos, int_add, ◌+ℤ◌, ◌≤ℤ◌}
use adjudication.Prelude.Text.{Text, msg, text_eq, is_empty, trim_space, has_prefix}
use adjudication.Prelude.Assoc.{lookup, insert}
use adjudication.Json.{Fields, empty, field, int, str}
use adjudication.Arb.Policy.{default_policy}
use adjudication.Arb.Context.{
  EvidenceMeta, RunContext, EvidenceUploadSession, Opportunity, SubmittedEvidenceMeta,
}
use adjudication.Arb.Evidence.Registry.{
  add_evidence, same_metadata, evidence_metadata_conflict, stat_evidence, evidence_path, is_private,
}
use adjudication.Arb.Evidence.Immutable.{
  InStep, add_evidence-lookup, add_evidence-registers, add_evidence-again, add_evidence-InStep,
}
use adjudication.Arb.Evidence.Read.{
  EvidenceReadBudget, EvidenceRange, read_evidence_range, check_range, fetch_range,
}
use adjudication.Arb.Evidence.Budget.{
  Within, Genuine, read_evidence_range-Within, read_evidence_range-Genuine,
}
use adjudication.Arb.Evidence.Budget.Sequence.{Request, read_all, total_length, read_all_bounded}
use adjudication.Arb.Evidence.Names.{canonical_evidence_id, id_prefix}
use adjudication.Arb.Evidence.Names.Canonical.{canonical_evidence_id-prefix}
use adjudication.Arb.Evidence.Upload.{
  begin_evidence_upload, write_evidence_chunk, prepare_evidence_upload_commit, received,
  submitted_meta, check_chunk,
}
use adjudication.Arb.Evidence.Upload.Sessions.{
  UploadsWithin, begin_evidence_upload-Within, write_evidence_chunk-Within,
}
use adjudication.Arb.Evidence.Upload.Chunks.{Received, write_evidence_chunk-Received}
use adjudication.Arb.Evidence.Upload.Assembly.{
  Grown, upload_chunks, joined, upload_chunks-Grown, upload-commit,
}
use adjudication.Examples.{Files, files_host, exhibit, run}
use adjudication.Examples.Policies.{default_policy-IsValid}

abbrev small_request : Request files_host
small_request = (run, msg "ev_1", pos 1, pos 2)

abbrev budget : EvidenceReadBudget
budget = record { bytes = 0; reads = 0 }

abbrev range : EvidenceRange
range = record {
  evidence_id = msg "ev_1";
  offset = 1;
  length = 2;
  total_size_bytes = 4;
  sha256 = 10 ∷ 20 ∷ 30 ∷ 40 ∷ [];
  mime_type = msg "text/plain";
  content = 20 ∷ 30 ∷ [];
}

read_all_bounded_example :
    let rs = (read_all files_host (small_request ∷ small_request ∷ []) budget).1 in
    (pos (total_length files_host rs) ≤ℤ default_policy.max_evidence_read_bytes_per_opportunity)
    × (pos (length rs) ≤ℤ default_policy.max_evidence_reads_per_opportunity)
unfolding default_policy
read_all_bounded_example =
    read_all_bounded files_host default_policy (small_request ∷ small_request ∷ [])
      default_policy-IsValid (omega arith) (refl, (refl, tt))

read_evidence_range-Within_example :
    Within run.policy (read_evidence_range files_host run (msg "ev_1") (pos 1) (pos 2) budget).0
unfolding default_policy
read_evidence_range-Within_example =
    read_evidence_range-Within files_host run (msg "ev_1") (pos 1) (pos 2) budget
      default_policy-IsValid (omega arith)
      (record { bytes_within = omega arith; reads_within = omega arith })

read_evidence_range-Genuine_example :
    Genuine files_host run (msg "ev_1") (pos 1) (pos 2) range
    × (pos 2 ≤ℤ pos 2)
    × (pos 2 ≤ℤ run.policy.max_evidence_read_bytes)
    × ((read_evidence_range files_host run (msg "ev_1") (pos 1) (pos 2) budget).0
        ≡ record { bytes = 2; reads = 1 })
unfolding read_evidence_range check_range fetch_range stat_evidence evidence_path is_private
    default_policy lookup text_eq is_empty trim_space has_prefix msg int_add ◌+ℤ◌
read_evidence_range-Genuine_example =
    read_evidence_range-Genuine files_host run (msg "ev_1") (pos 1) (pos 2) budget range refl

add_evidence-lookup_example :
    lookup (msg "ev_1") (add_evidence (record exhibit { title = msg "Other" }) run).0.evidence_by_id
    ≡ some exhibit
unfolding lookup text_eq msg
add_evidence-lookup_example =
    add_evidence-lookup run (record exhibit { title = msg "Other" }) exhibit (msg "ev_1") refl

-- The same exhibit, received at another time.
abbrev received_later : EvidenceMeta
received_later = record exhibit { created_at = msg "later" }

add_evidence-registers_example :
    (lookup (msg "ev_1") (add_evidence received_later run).0.evidence_by_id ≡ some exhibit)
    × (exhibit ≡ record received_later { created_at = exhibit.created_at })
    × ((lookup (msg "ev_1") run.evidence_by_id ≡ some exhibit)
        ⊎ ((lookup (msg "ev_1") run.evidence_by_id ≡ none) × (exhibit ≡ received_later)))
unfolding add_evidence same_metadata lookup text_eq msg is_empty evidence_metadata_conflict
add_evidence-registers_example = add_evidence-registers run received_later exhibit refl

add_evidence-again_example : add_evidence received_later run ≡ (run, ok exhibit)
unfolding lookup text_eq msg is_empty
add_evidence-again_example = (add_evidence-again run received_later exhibit refl refl).1 refl

add_evidence-InStep_example :
    InStep (add_evidence (record exhibit { evidence_id = msg "ev_2" }) run).0
add_evidence-InStep_example =
    add_evidence-InStep run (record exhibit { evidence_id = msg "ev_2" }) refl

canonical_evidence_id-prefix_example :
    has_prefix
      (canonical_evidence_id (λ c. c) (msg "0123456789abcdef") (msg "notes.md"))
      (id_prefix (msg "0123456789abcdef"))
    ≡ true
canonical_evidence_id-prefix_example =
    canonical_evidence_id-prefix (λ c. c) (msg "0123456789abcdef") (msg "notes.md")

abbrev argument : Opportunity
argument = record {
  id = msg "arguments:plaintiff";
  role = msg "plaintiff";
  phase = msg "arguments";
  may_pass = true;
  objective = [];
  allowed_tools = [];
}

abbrev upload_params : Fields
upload_params = field (msg "title") (str (msg "Photo")) (
    field (msg "mime_type") (str (msg "image/png")) (
      field (msg "relevance") (str (msg "scene")) (
        field (msg "source_url") (str (msg "http://x"))
          (field (msg "expected_size_bytes") (int (pos 4)) empty))))

begin_evidence_upload-Within_example :
    UploadsWithin
      (begin_evidence_upload files_host (λ c. c) (some (msg "upl_1")) argument upload_params run).0
unfolding lookup
begin_evidence_upload-Within_example =
    begin_evidence_upload-Within files_host (λ c. c) (some (msg "upl_1")) argument upload_params run
      (λ key s h. ground arith)

abbrev session : EvidenceUploadSession
session = record {
  upload_id = msg "upl_1";
  role = msg "plaintiff";
  phase = msg "arguments";
  title = msg "Photo";
  mime_type = msg "image/png";
  expected_size_bytes = pos 4;
  expected_sha256 = [];
  source_url = msg "http://x";
  source_description = [];
  retrieval_timestamp = [];
  relevance = msg "scene";
  parent_evidence_id = [];
  derivation_method = [];
  path = msg "/out/evidence-uploads/upl_1.part";
  received_bytes = 0;
}

abbrev uploading : RunContext Files
uploading = record run { upload_sessions = (msg "upl_1", session) ∷ [] }

abbrev plain : Text → Option Text
plain s = some s

-- Two chunks of two bytes.
abbrev chunks : List (ℤ × Text)
chunks = (pos 0, 1 ∷ 2 ∷ []) ∷ (pos 2, 3 ∷ 4 ∷ []) ∷ []

abbrev uploaded : RunContext Files
uploaded = (upload_chunks files_host plain (msg "upl_1") chunks uploading).0

abbrev whole : EvidenceUploadSession
whole = record session { received_bytes = 4 }

abbrev first : RunContext Files
first = (write_evidence_chunk files_host plain (msg "upl_1") (pos 0) (1 ∷ 2 ∷ []) uploading).0

write_evidence_chunk-Received_example :
    (s : EvidenceUploadSession) × (raw : Text) × Received files_host
      (msg "upl_1")
      (pos 0)
      (plain (trim_space (1 ∷ 2 ∷ [])))
      uploading
      first
      s
      (record session { received_bytes = 2 })
      raw
unfolding write_evidence_chunk received check_chunk default_policy lookup insert text_eq msg
    is_empty trim_space
write_evidence_chunk-Received_example =
    write_evidence_chunk-Received files_host plain (msg "upl_1") (pos 0) (1 ∷ 2 ∷ []) uploading
      first (record session { received_bytes = 2 }) 2 refl

write_evidence_chunk-Within_example :
    UploadsWithin
      (write_evidence_chunk files_host plain (msg "upl_1") (pos 0) (1 ∷ 2 ∷ []) uploading).0
unfolding lookup default_policy
write_evidence_chunk-Within_example =
    write_evidence_chunk-Within files_host plain (msg "upl_1") (pos 0) (1 ∷ 2 ∷ []) uploading
      (λ key s h. ground arith)

upload_chunks-Grown_example :
    (after : EvidenceUploadSession) × Grown files_host plain
      (msg "upl_1")
      uploading
      uploaded
      session
      after
      (joined files_host plain chunks)
unfolding upload_chunks write_evidence_chunk received check_chunk default_policy lookup insert
    text_eq msg is_empty trim_space
upload_chunks-Grown_example =
    upload_chunks-Grown files_host plain (msg "upl_1") chunks uploading uploaded session refl refl

abbrev committed : SubmittedEvidenceMeta
committed = submitted_meta (λ c. c) 1 whole (1 ∷ 2 ∷ 3 ∷ 4 ∷ []) []

upload-commit_example :
    (committed.sha256 ≡ joined files_host plain chunks)
    × (committed.size_bytes ≡ length (joined files_host plain chunks))
    × (session.expected_size_bytes ≡ pos committed.size_bytes)
    × (is_empty session.expected_sha256 ≡ false → session.expected_sha256 ≡ committed.sha256)
unfolding upload_chunks write_evidence_chunk received check_chunk default_policy lookup insert
    text_eq msg is_empty trim_space prepare_evidence_upload_commit
upload-commit_example =
    upload-commit files_host plain (λ c. c) (msg "upl_1") [] chunks uploading uploaded session whole
      committed refl refl refl refl refl refl
