-- ===== src/Arb/Evidence/Upload.antt =====
-- evidence.go, chunked uploads: `beginEvidenceUpload`, `writeEvidenceChunk` and
-- `prepareEvidenceUploadCommit`. Base64 decoding, the random identifier and the table that lowers
-- letters beyond ASCII are arguments.
mod Rules
pub mod Sessions
pub mod Chunks
pub mod Assembly
use adjudication.Prelude.{
  ℕ, ◌+◌, Bool, true, false, not, Option, none, some, List, [], ◌∷◌, ◌++◌, Result, ok, err, or_fail,
  if◌then◌else◌, length,
}
use adjudication.Prelude.Int.{ℤ, pos}
use adjudication.Prelude.Text.{Text, msg, trim_space}
use adjudication.Prelude.Assoc.{lookup, insert}
use adjudication.Json.{Fields}
use adjudication.Arb.Context.{
  RunContext, Bytes, Opportunity, EvidenceUploadSession, SubmittedEvidenceMeta,
}
use adjudication.Arb.Context.Host.{
  Host, WriteOutcome, written, not_opened, failed_after, not_closed,
}
use adjudication.Arb.Context.Action.{Action, ◌>>=◌, ◌>>◌, reject_if, lift}
unfoldable pub use Rules.{
  evidence_submission_allowed, submitted_evidence_count_for_role, new_session, uploads_dir,
  check_begin, check_chunk, check_commit, prepare_commit, submitted_meta,
}

module _ (host : Host) where
  -- `os.MkdirAll`.
  make_uploads_dir : Action host.World (Unit {0})
  unfolding uploads_dir
  make_uploads_dir c =
      let (w, made) = host.make_dir c.world (uploads_dir c.output_dir) in
      reject_if (not made) (msg "create evidence upload dir") (record c { world = w })

  open_session : EvidenceUploadSession → Action host.World EvidenceUploadSession
  open_session session c = (
    record c { upload_sessions = insert session.upload_id session c.upload_sessions },
    ok session,
  )

  unfoldable pub begin_evidence_upload :
      (ℕ → ℕ) → Option Text → Opportunity → Fields → Action host.World EvidenceUploadSession
  unfolding check_begin new_session make_uploads_dir open_session uploads_dir
  begin_evidence_upload table random_id o params c =
      (do
        expected ← lift (check_begin c.policy c.submitted_evidence o params)
        upload_id ← lift (or_fail random_id (msg "generate upload id"))
        make_uploads_dir
        open_session (new_session table o params expected upload_id (uploads_dir c.output_dir)))
        c

  unfoldable pub received : Bytes → EvidenceUploadSession → EvidenceUploadSession
  received raw session = record session { received_bytes = session.received_bytes + length raw }

  -- What each way of writing leaves; only a full write counts the bytes as received.
  unfoldable pub after_append :
      Text
      → EvidenceUploadSession
      → Bytes
      → host.World × WriteOutcome
      → Action host.World (EvidenceUploadSession × ℕ)
  unfolding received
  after_append key session raw (w, written) c = (
    record c { world = w; upload_sessions = insert key (received raw session) c.upload_sessions },
    ok (received raw session, length raw),
  )
  after_append key session raw (w, not_opened) c =
      (record c { world = w }, err (msg "open evidence upload"))
  after_append key session raw (w, failed_after n) c =
      (record c { world = w }, err (msg "write evidence upload"))
  after_append key session raw (w, not_closed) c =
      (record c { world = w }, err (msg "close evidence upload"))

  append_chunk :
      Text → EvidenceUploadSession × Bytes → Action host.World (EvidenceUploadSession × ℕ)
  unfolding after_append
  append_chunk key (session, raw) c =
      after_append key session raw (host.append_file c.world session.path raw) c

  unfoldable pub write_evidence_chunk :
      (Text → Option Bytes) → Text → ℤ → Text → Action host.World (EvidenceUploadSession × ℕ)
  unfolding check_chunk append_chunk
  write_evidence_chunk decode upload_id offset content_base64 c =
      (do
        chunk ← lift (
            check_chunk c.policy (lookup (trim_space upload_id) c.upload_sessions) offset
              (decode (trim_space content_base64)))
        append_chunk (trim_space upload_id) chunk)
        c

  unfoldable pub prepare_evidence_upload_commit :
      (ℕ → ℕ)
      → RunContext host.World
      → EvidenceUploadSession
      → Text
      → Result Text SubmittedEvidenceMeta
  unfolding prepare_commit
  prepare_evidence_upload_commit table c session preferred_ext =
      prepare_commit host.sha256 table (length c.submitted_evidence + 1) session
        (host.content c.world session.path) preferred_ext
