-- ===== src/Arb/Evidence/Upload/Sessions.antt =====
-- evidence.go, chunked uploads: no session ever holds more than it declared, or declares more than
-- the policy admits.
use adjudication.Prelude.{
  ℕ, ◌+◌, ◌<◌, true, Option, some, List, ok, err, ◌≡◌, refl, arith, Option-cases, Bool-cases, ◌⊎◌,
  length, Result-cases, inl, inr,
}
use adjudication.Prelude.Int.{ℤ, pos, ◌≤ℤ◌, ◌<ℤ◌}
use adjudication.Prelude.Text.{Text, msg, trim_space}
use adjudication.Prelude.Assoc.{lookup, insert, lookup-insert}
use adjudication.Json.{Fields}
use adjudication.Arb.Policy.{Policy}
use adjudication.Arb.Context.{
  RunContext, Bytes, Opportunity, EvidenceUploadSession, SubmittedEvidenceMeta,
}
use adjudication.Arb.Context.Host.{
  Host, WriteOutcome, written, not_opened, failed_after, not_closed,
}
use adjudication.Arb.Context.Action.{Keeps}
use adjudication.Arb.Evidence.Upload.{
  begin_evidence_upload, write_evidence_chunk, evidence_submission_allowed,
  submitted_evidence_count_for_role, check_begin, check_chunk, received, new_session, uploads_dir,
  after_append,
}

-- A session within its declared size and the policy's limit.
abbrev pub SessionWithin : Policy → EvidenceUploadSession → Type 0
SessionWithin policy s =
    pos 0 <ℤ s.expected_size_bytes
    × (s.expected_size_bytes ≤ℤ policy.max_evidence_upload_bytes)
    × (pos s.received_bytes ≤ℤ s.expected_size_bytes)

abbrev pub UploadsWithin : {World : Type 0} → RunContext World → Type 0
UploadsWithin c =
    (key : Text) (s : EvidenceUploadSession)
    → lookup key c.upload_sessions ≡ some s
    → SessionWithin c.policy s

insert-Within :
    (policy : Policy) (k : Text) (v : EvidenceUploadSession)
    (m : List (Text × EvidenceUploadSession))
    → SessionWithin policy v
    → ((key : Text) (s : EvidenceUploadSession) → lookup key m ≡ some s → SessionWithin policy s)
    → (key : Text) (s : EvidenceUploadSession) → lookup key (insert k v m) ≡ some s
    → SessionWithin policy s
insert-Within policy k v m hv hm key s h = ground (arith, lookup-insert k key v m, hm key s)

pub check_begin-Permitted :
    (policy : Policy) (submitted : List SubmittedEvidenceMeta) (o : Opportunity) (params : Fields)
    (expected : ℤ)
    → check_begin policy submitted o params ≡ ok expected
    → (evidence_submission_allowed o ≡ true)
      × pos (submitted_evidence_count_for_role submitted o.role)
        <ℤ policy.max_submitted_evidence_per_side
      × pos 0 <ℤ expected
      × (expected ≤ℤ policy.max_evidence_upload_bytes)
unfolding check_begin
check_begin-Permitted policy submitted o params expected h = ground arith

pub check_chunk-Fits :
    (policy : Policy) (found : Option EvidenceUploadSession) (offset : ℤ) (decoded : Option Bytes)
    (session : EvidenceUploadSession) (raw : Bytes)
    → check_chunk policy found offset decoded ≡ ok (session, raw)
    → (found ≡ some session)
      × (decoded ≡ some raw)
      × (offset ≡ pos session.received_bytes)
      × 0 < length raw
      × (pos (length raw) ≤ℤ policy.max_evidence_chunk_bytes)
      × (pos (session.received_bytes + length raw) ≤ℤ session.expected_size_bytes)
unfolding check_chunk
check_chunk-Fits policy found offset decoded session raw h = ground arith

module _ (host : Host) where
  -- An upload that was begun: what the checks found, and the session it opened.
  pub record Begun (table : ℕ → ℕ) (o : Opportunity) (params : Fields) (c d : RunContext host.World)
      (session : EvidenceUploadSession) : Type 0 where
    pub expected : ℤ
    pub upload_id : Text
    pub checked : check_begin c.policy c.submitted_evidence o params ≡ ok expected
    pub opened : session ≡ new_session table o params expected upload_id (uploads_dir c.output_dir)
    pub same_policy : d.policy ≡ c.policy
    pub stored : d.upload_sessions ≡ insert session.upload_id session c.upload_sessions

  begin_evidence_upload-cases :
      (table : ℕ → ℕ) (random_id : Option Text) (o : Opportunity) (params : Fields)
      (c : RunContext host.World)
      → ((e : Text) × (d : RunContext host.World) × (begin_evidence_upload host table random_id o
              params c
            ≡ (d, err e))
          × (d.policy ≡ c.policy)
          × (d.upload_sessions ≡ c.upload_sessions))
        ⊎ ((d : RunContext host.World) × (session : EvidenceUploadSession) × (begin_evidence_upload
                host table random_id o params c
              ≡ (d, ok session))
            × Begun table o params c d session)
  unfolding begin_evidence_upload
  begin_evidence_upload-cases table random_id o params c =
      elim (Result-cases (check_begin c.policy c.submitted_evidence o params)) [
        | inr (e, p) ↦ inl (e, c, rw (p, begin_evidence_upload), refl, refl)
        | inl (expected, p) ↦ elim (Option-cases random_id) [
          | inl q ↦ inl (msg "generate upload id", c, rw (p, q, begin_evidence_upload), refl, refl)
          | inr (upload_id, q) ↦
              let session =
                new_session table o params expected upload_id (uploads_dir c.output_dir) in
              let moved = record c {
                world = (host.make_dir c.world (uploads_dir c.output_dir)).0;
              } in
              elim (Bool-cases (host.make_dir c.world (uploads_dir c.output_dir)).1) [
                | inl r ↦ inr (
                  record moved { upload_sessions = insert upload_id session c.upload_sessions },
                  session,
                  rw (p, q, r, begin_evidence_upload),
                  record {
                    expected = expected;
                    upload_id = upload_id;
                    checked = p;
                    opened = refl;
                    same_policy = refl;
                    stored = refl;
                  },
                )
                | inr r ↦ inl (
                  msg "create evidence upload dir",
                  moved,
                  rw (p, q, r, begin_evidence_upload),
                  refl,
                  refl,
                )
              ]
        ]
      ]

  -- Every outcome of opening an upload session keeps all sessions within their declared sizes, and
  -- those within the policy's limit.
  pub begin_evidence_upload-Within :
      (table : ℕ → ℕ) (random_id : Option Text) (o : Opportunity) (params : Fields)
      → Keeps UploadsWithin (begin_evidence_upload host table random_id o params)
  unfolding new_session
  begin_evidence_upload-Within table random_id o params c h =
      elim (begin_evidence_upload-cases table random_id o params c) [
        | inl (e, d, p, same, kept) ↦ rw (p, same, kept) h
        | inr (d, session, p, begun) ↦
            let (allowed, few, positive, bounded) =
              check_begin-Permitted c.policy c.submitted_evidence o params begun.expected
                begun.checked in
            rw (p, begun.same_policy, begun.stored)
              (insert-Within c.policy session.upload_id session c.upload_sessions
                (rw begun.opened (positive, bounded, omega (arith, positive))) h)
      ]

  after_append-Within :
      (key : Text) (session : EvidenceUploadSession) (raw : Bytes) (w : host.World)
      (outcome : WriteOutcome) (c : RunContext host.World)
      → SessionWithin c.policy (received host raw session)
      → UploadsWithin c
      → UploadsWithin (after_append host key session raw (w, outcome) c).0
  unfolding after_append
  after_append-Within key session raw w written c hs h =
      insert-Within c.policy key (received host raw session) c.upload_sessions hs h
  after_append-Within key session raw w not_opened c hs h = h
  after_append-Within key session raw w (failed_after n) c hs h = h
  after_append-Within key session raw w not_closed c hs h = h

  -- Every outcome of a chunk keeps all upload sessions within their declared sizes, and those
  -- within the policy's limit.
  pub write_evidence_chunk-Within :
      (decode : Text → Option Bytes) (upload_id : Text) (offset : ℤ) (content_base64 : Text)
      → Keeps UploadsWithin (write_evidence_chunk host decode upload_id offset content_base64)
  unfolding write_evidence_chunk received
  write_evidence_chunk-Within decode upload_id offset content_base64 c h =
      elim (Result-cases (
        check_chunk c.policy (lookup (trim_space upload_id) c.upload_sessions) offset
          (decode (trim_space content_base64)))) [
            | inr (e, p) ↦ rw (p, write_evidence_chunk) h
            | inl ((session, raw), p) ↦
                let (found, decoded, in_order, some_bytes, small, fits) =
                  check_chunk-Fits c.policy (lookup (trim_space upload_id) c.upload_sessions) offset
                    (decode (trim_space content_base64)) session raw p in
                let (positive, bounded, _) = h (trim_space upload_id) session found in
                rw p (
                  after_append-Within (trim_space upload_id) session raw
                    (host.append_file c.world session.path raw).0
                    (host.append_file c.world session.path raw).1 c (positive, bounded, fits) h)
          ]
