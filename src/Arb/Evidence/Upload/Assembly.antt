-- ===== src/Arb/Evidence/Upload/Assembly.antt =====
-- evidence.go: a whole upload, as a client makes it: chunks one after another, then the commit.
use adjudication.Prelude.{
  ℕ, ◌+◌, false, Option, none, some, List, [], ◌∷◌, ◌++◌, ok, ◌≡◌, refl, sym, ap, ◌∙◌, arith,
  length, length-append, append_assoc, append-nil, subst, >>=-eq-ok,
}
use adjudication.Prelude.Int.{ℤ, pos, eq_ℤ→eq}
use adjudication.Prelude.Text.{Text, trim_space, text_eq_refl, text_eq→eq, is_empty}
use adjudication.Prelude.Assoc.{lookup, lookup-insert}
use adjudication.Arb.Context.{RunContext, Bytes, EvidenceUploadSession, SubmittedEvidenceMeta}
use adjudication.Arb.Context.Host.{Host, or_empty}
use adjudication.Arb.Context.Action
use adjudication.Arb.Context.Action.{Action, ◌>>=◌, return}
use adjudication.Arb.Evidence.Upload.{
  write_evidence_chunk, prepare_evidence_upload_commit, check_commit, prepare_commit,
  submitted_meta, received,
}
use adjudication.Arb.Evidence.Upload.Chunks.{file_bytes, Received, write_evidence_chunk-Received}

module _ (host : Host) (decode : Text → Option Bytes) where
  -- A client's calls, each with its offset and its text; the first error ends them.
  unfoldable pub upload_chunks : Text → List (ℤ × Text) → Action host.World (Unit {0})
  upload_chunks upload_id [] = return tt
  upload_chunks upload_id ((offset, text) ∷ chunks) =
      write_evidence_chunk host decode upload_id offset text >>= λ _. upload_chunks upload_id chunks

  -- The bytes that the texts stand for.
  unfoldable pub joined : List (ℤ × Text) → Bytes
  joined [] = []
  joined ((offset, text) ∷ chunks) = or_empty (decode (trim_space text)) ++ joined chunks

  -- The session after chunks whose bytes are `raw`, in a context where the file holds them.
  pub record Grown (upload_id : Text) (c d : RunContext host.World)
      (session after : EvidenceUploadSession) (raw : Bytes) : Type 0 where
    pub found : lookup (trim_space upload_id) d.upload_sessions ≡ some after
    pub grown : after ≡ record session { received_bytes = session.received_bytes + length raw }
    pub content : file_bytes host d session.path ≡ file_bytes host c session.path ++ raw

  Received-Grown :
      (upload_id : Text) (offset : ℤ) (text : Text) (c d : RunContext host.World)
      (s session after : EvidenceUploadSession) (raw : Bytes)
      → lookup (trim_space upload_id) c.upload_sessions ≡ some s
      → Received host upload_id offset (decode (trim_space text)) c d session after raw
      → Grown upload_id c d s after (or_empty (decode (trim_space text)))
  unfolding received
  Received-Grown upload_id offset text c d s session after raw h r =
      let same : session ≡ s = ground arith in
      record {
        found =
            rw
              (
                r.stored,
                lookup-insert (trim_space upload_id) (trim_space upload_id) after c.upload_sessions,
                text_eq_refl,
              )
              refl;
        grown = rw (r.counted, r.bytes, same) refl;
        content = rw (r.bytes, sym same, r.appended session.path, text_eq_refl) refl;
      }

  Grown-trans :
      (upload_id : Text) (c d e : RunContext host.World) (s t u : EvidenceUploadSession)
      (xs ys : Bytes)
      → Grown upload_id c d s t xs
      → Grown upload_id d e t u ys
      → Grown upload_id c e s u (xs ++ ys)
  Grown-trans upload_id c d e s t u xs ys g h = record {
    found = h.found;
    grown =
        rw (h.grown, g.grown, length-append xs ys)
          (ap (λ n. record s { received_bytes = n }) (omega arith));
    content =
        let same : t.path ≡ s.path = ap (λ r. r.path) g.grown in
        rw
          (
            subst (λ path. file_bytes host e path ≡ file_bytes host d path ++ ys) same h.content,
            g.content,
          )
          (append_assoc (file_bytes host c s.path) xs ys);
  }

  -- Chunks that all succeed append their decoded bytes to the session's file, in their order, and
  -- the session counts them.
  pub upload_chunks-Grown :
      (upload_id : Text) (chunks : List (ℤ × Text)) (c d : RunContext host.World)
      (session : EvidenceUploadSession)
      → lookup (trim_space upload_id) c.upload_sessions ≡ some session
      → upload_chunks upload_id chunks c ≡ (d, ok tt)
      → (after : EvidenceUploadSession) × Grown upload_id c d session after (joined chunks)
  unfolding upload_chunks joined
  upload_chunks-Grown upload_id [] c d session found h = (
    session,
    record {
      found = rw (sym (ap (λ r. r.0) h)) found;
      grown = ap (λ n. record session { received_bytes = n }) (omega arith);
      content = rw (sym (ap (λ r. r.0) h), append-nil) refl;
    },
  )
  upload_chunks-Grown upload_id ((offset, text) ∷ chunks) c d session found h =
      let ((after, n), mid, p, rest) =
        Action.>>=-eq-ok (write_evidence_chunk host decode upload_id offset text)
          (λ _. upload_chunks upload_id chunks) c d tt h in
      let (s, raw, r) =
        write_evidence_chunk-Received host decode upload_id offset text c mid after n p in
      let g = Received-Grown upload_id offset text c mid session s after raw found r in
      let (last, tail) = upload_chunks-Grown upload_id chunks mid d after g.found rest in
      (
        last,
        Grown-trans upload_id c mid d session after last (or_empty (decode (trim_space text)))
            (joined chunks) g tail,
      )

  check_commit-Checked :
      (session : EvidenceUploadSession) (file : Option Bytes) (sha : Text)
      → check_commit host.sha256 session file ≡ ok sha
      → (session.expected_size_bytes ≡ pos session.received_bytes)
        × (sha ≡ host.sha256 (or_empty file))
        × (is_empty session.expected_sha256 ≡ false → session.expected_sha256 ≡ sha)
  unfolding check_commit
  check_commit-Checked session none sha h = ground arith
  check_commit-Checked session (some bytes) sha h =
      let complete = eq_ℤ→eq session.expected_size_bytes session.received_bytes in
      (
        ground (arith, complete),
        ground arith,
        λ given. ground (arith, text_eq→eq session.expected_sha256 (host.sha256 bytes)),
      )

  -- A file that did not exist, uploaded in chunks that all succeed and then prepared for commit,
  -- gets metadata with the digest and the length of the chunks' decoded bytes, and both are what
  -- the session announced.
  pub upload-commit :
      (table : ℕ → ℕ) (upload_id preferred_ext : Text) (chunks : List (ℤ × Text))
      (c d : RunContext host.World) (session after : EvidenceUploadSession)
      (meta : SubmittedEvidenceMeta)
      → lookup (trim_space upload_id) c.upload_sessions ≡ some session
      → session.received_bytes ≡ 0
      → host.content c.world session.path ≡ none
      → upload_chunks upload_id chunks c ≡ (d, ok tt)
      → lookup (trim_space upload_id) d.upload_sessions ≡ some after
      → prepare_evidence_upload_commit host table d after preferred_ext ≡ ok meta
      → (meta.sha256 ≡ host.sha256 (joined chunks))
        × (meta.size_bytes ≡ length (joined chunks))
        × (session.expected_size_bytes ≡ pos meta.size_bytes)
        × (is_empty session.expected_sha256 ≡ false → session.expected_sha256 ≡ meta.sha256)
  unfolding prepare_evidence_upload_commit prepare_commit submitted_meta
  upload-commit table upload_id preferred_ext chunks c d session after meta found fresh no_file
        uploaded current committed =
      let (last, g) = upload_chunks-Grown upload_id chunks c d session found uploaded in
      let (sha, checked, same) =
        >>=-eq-ok (check_commit host.sha256 after (host.content d.world after.path)) _ committed in
      let (complete, digest, promised) =
        check_commit-Checked after (host.content d.world after.path) sha checked in
      let one : last ≡ after = ground arith in
      let whole : after
          ≡ record session { received_bytes = session.received_bytes + length (joined chunks) } =
        sym one ∙ g.grown in
      let place : after.path ≡ session.path = ap (λ s. s.path) whole in
      let bytes : or_empty (host.content d.world after.path) ≡ joined chunks =
        rw (place, g.content, no_file) refl in
      let hash : meta.sha256 ≡ sha = ground arith in
      let size : meta.size_bytes ≡ after.received_bytes = ground arith in
      let counted : after.received_bytes ≡ session.received_bytes + length (joined chunks) =
        ap (λ s. s.received_bytes) whole in
      let announced : after.expected_sha256 ≡ session.expected_sha256 =
        ap (λ s. s.expected_sha256) whole in
      (
        rw (hash, digest, bytes) refl,
        omega (arith, size, counted, fresh),
        sym (ap (λ s. s.expected_size_bytes) whole) ∙ complete ∙ ap pos (sym size),
        λ given. sym announced ∙ promised (rw announced given) ∙ sym hash,
      )
