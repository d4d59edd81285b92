-- ===== src/Arb/Evidence/Upload/Chunks.antt =====
-- evidence.go, `writeEvidenceChunk` and `prepareEvidenceUploadCommit`: what the bytes of an upload
-- are, from its first chunk to its commit.
use adjudication.Prelude.{
  ℕ, Option, some, ◌++◌, ok, ◌≡◌, refl, sym, ap, arith, if◌then◌else◌, length, Result-cases, inl,
  inr,
}
use adjudication.Prelude.Int.{ℤ, pos}
use adjudication.Prelude.Text.{Text, trim_space, text_eq}
use adjudication.Prelude.Assoc.{lookup, insert}
use adjudication.Arb.Context.{RunContext, Bytes, EvidenceUploadSession}
use adjudication.Arb.Context.Host.{
  Host, WriteOutcome, written, not_opened, failed_after, not_closed, or_empty,
}
use adjudication.Arb.Evidence.Upload.{write_evidence_chunk, check_chunk, received, after_append}
use adjudication.Arb.Evidence.Upload.Sessions.{check_chunk-Fits}

module _ (host : Host) where
  -- The bytes that stand in a file, none where there is no file.
  abbrev pub file_bytes : RunContext host.World → Text → Bytes
  file_bytes c path = or_empty (host.content c.world path)

  -- A chunk that was received: its session, its bytes, and the context after it.
  pub record Received (upload_id : Text) (offset : ℤ) (decoded : Option Bytes)
      (c d : RunContext host.World) (session after : EvidenceUploadSession) (raw : Bytes)
      : Type 0 where
    pub found : lookup (trim_space upload_id) c.upload_sessions ≡ some session
    pub bytes : decoded ≡ some raw
    pub in_order : offset ≡ pos session.received_bytes
    pub counted : after ≡ received host raw session
    pub stored : d.upload_sessions ≡ insert (trim_space upload_id) after c.upload_sessions
    pub appended :
        (path : Text)
        → file_bytes d path ≡ (
            if text_eq session.path path
            then file_bytes c session.path ++ raw
            else file_bytes c path)

  after_append-Received :
      (key : Text) (session : EvidenceUploadSession) (raw : Bytes) (r : host.World × WriteOutcome)
      (c d : RunContext host.World) (after : EvidenceUploadSession) (n : ℕ)
      → after_append host key session raw r c ≡ (d, ok (after, n))
      → (r.1 ≡ written)
        × (d.world ≡ r.0)
        × (d.upload_sessions ≡ insert key after c.upload_sessions)
        × (after ≡ received host raw session)
        × (n ≡ length raw)
  unfolding after_append
  after_append-Received key session raw (w, written) c d after n h =
      let same : after ≡ received host raw session = ground arith in
      (
        refl,
        sym (ap (λ r. r.0.world) h),
        rw same (sym (ap (λ r. r.0.upload_sessions) h)),
        same,
        ground arith,
      )
  after_append-Received key session raw (w, not_opened) c d after n h = ground arith
  after_append-Received key session raw (w, failed_after m) c d after n h = ground arith
  after_append-Received key session raw (w, not_closed) c d after n h = ground arith

  -- A chunk that succeeds stands at the end of its session's file, no other file or session
  -- changes, and the session counts its bytes.
  pub write_evidence_chunk-Received :
      (decode : Text → Option Bytes) (upload_id : Text) (offset : ℤ) (content_base64 : Text)
      (c d : RunContext host.World) (after : EvidenceUploadSession) (n : ℕ)
      → write_evidence_chunk host decode upload_id offset content_base64 c ≡ (d, ok (after, n))
      → (session : EvidenceUploadSession) × (raw : Bytes) × Received upload_id offset
          (decode (trim_space content_base64))
          c
          d
          session
          after
          raw
  unfolding write_evidence_chunk
  write_evidence_chunk-Received decode upload_id offset content_base64 c d after n h =
      elim (Result-cases (
        check_chunk c.policy (lookup (trim_space upload_id) c.upload_sessions) offset
          (decode (trim_space content_base64)))) [
            | inr (e, p) ↦ ground arith
            | inl ((session, raw), p) ↦
                let (found, decoded, in_order, some_bytes, small, fits) =
                  check_chunk-Fits c.policy (lookup (trim_space upload_id) c.upload_sessions) offset
                    (decode (trim_space content_base64)) session raw p in
                let (full, w, stored, same, m) =
                  after_append-Received (trim_space upload_id) session raw
                    (host.append_file c.world session.path raw) c d after n (rw p at h) in
                (
                  session,
                  raw,
                  record {
                    found = found;
                    bytes = decoded;
                    in_order = in_order;
                    counted = same;
                    stored = stored;
                    appended = λ path.
                        rw (w, host.content-append_file c.world session.path path raw, full) refl;
                  },
                )
          ]
