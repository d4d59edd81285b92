-- ===== src/Arb/Certificate/Verify.antt =====
-- certificate.go, `replayCertificate` and `VerifyReplayCertificate`. The two files are given as what
-- reading them returns, the hash of a value's canonical JSON as a function that may fail.
use adjudication.Prelude.{
  Bool, true, false, not, some, List, [], ◌∷◌, Result, ok, ◌>>=◌, ◌>>◌, reject_if, or_fail, ◌≡◌,
  length, arith, Result-cases, inl, inr, >>=-eq-ok,
}
use adjudication.Prelude.Text.{Text, msg, is_empty, text_eq, text_eq_refl, text_eq→eq}
use adjudication.Json.{Fields, Items}
use adjudication.Arb.Context.{RunContext}
use adjudication.Arb.Context.Host.{Engine}
use adjudication.Arb.Certificate.{ReplayCertificate, VerifyReplayCertificateResult}
use adjudication.Arb.Certificate.Replay.{replay_certificate_actions}
use adjudication.Arb.Certificate.Sound.{Certified}

unfoldable pub schema_version : Text
schema_version = msg "aar.replay-certificate.v0"

unfoldable pub procedure_name : Text
procedure_name = msg "aar"

abbrev pub is_nil {ℓ} : {A : Type ℓ} → List A → Bool
is_nil [] = true
is_nil (x ∷ xs) = false

module _ (engine : Engine) (canonical_sha256 : Fields → Result Text Text) where
  unfoldable pub replay_certificate :
      {World : Type 0} → List Text → RunContext World → Fields → Result Text ReplayCertificate
  replay_certificate command c final_state = do
    copy ← or_fail (engine.clone_json final_state) (msg "clone certificate final state")
    hash ← canonical_sha256 copy
    ok record {
      schema_version = schema_version;
      procedure = procedure_name;
      engine = command;
      case_id = c.case_id;
      run_id = c.run_id;
      initial_state = some c.certificate_init.state;
      proposition = c.certificate_init.proposition;
      council_members = some c.certificate_init.council_members;
      actions = c.certificate_actions;
      claimed_final_state = some copy;
      claimed_final_state_sha256 = hash;
    }

  -- A hash, compared with the one that the certificate claims.
  check_hash : Fields → Text → Text → Result Text (Unit {0})
  check_hash value claimed mismatch = do
    hash ← canonical_sha256 value
    reject_if (not (text_eq hash claimed)) mismatch

  check_replay : Fields → Items → ReplayCertificate → Result Text (Unit {0})
  check_replay initial members cert = do
    replayed ← replay_certificate_actions engine initial cert.proposition members cert.actions
    check_hash replayed cert.claimed_final_state_sha256 (msg "replayed final state mismatch")

  -- The checks on a certificate and a packet state that were read.
  verify_parsed : ReplayCertificate → Result Text Fields → Result Text VerifyReplayCertificateResult
  verify_parsed cert state_file = do
    reject_if (not (text_eq cert.schema_version schema_version))
        (msg "unsupported certificate schema_version")
    reject_if (not (text_eq cert.procedure procedure_name))
        (msg "unsupported certificate procedure")
    initial ← or_fail cert.initial_state (msg "certificate initialize_request.state is required")
    members ←
        or_fail cert.council_members
          (msg "certificate initialize_request.council_members is required")
    claimed ← or_fail cert.claimed_final_state (msg "certificate claimed_final_state is required")
    check_hash claimed cert.claimed_final_state_sha256 (msg "certificate final state hash mismatch")
    packet_state ← state_file
    check_hash packet_state cert.claimed_final_state_sha256 (msg "packet final state mismatch")
    check_replay initial members cert
    ok record {
      status = msg "ok";
      case_id = cert.case_id;
      run_id = cert.run_id;
      action_count = length cert.actions;
      claimed_final_state_sha256 = cert.claimed_final_state_sha256;
    }

  pub verify_replay_certificate :
      Text
      → Text
      → List Text
      → Result Text ReplayCertificate
      → Result Text Fields
      → Result Text VerifyReplayCertificateResult
  verify_replay_certificate certificate_path state_path command certificate_file state_file = do
    reject_if (is_empty certificate_path) (msg "certificate path is required")
    reject_if (is_empty state_path) (msg "state path is required")
    reject_if (is_nil command) (msg "lean engine command is required")
    cert ← certificate_file
    verify_parsed cert state_file

  -- What an accepted certificate guarantees.
  pub record Accepted (cert : ReplayCertificate) (packet_state : Fields) : Type 0 where
    pub initial : Fields
    pub members : Items
    pub replayed : Fields
    pub has_initial : cert.initial_state ≡ some initial
    pub has_members : cert.council_members ≡ some members
    pub replays :
        replay_certificate_actions engine initial cert.proposition members cert.actions
        ≡ ok replayed
    pub packet_hash : canonical_sha256 packet_state ≡ ok cert.claimed_final_state_sha256
    pub replayed_hash : canonical_sha256 replayed ≡ ok cert.claimed_final_state_sha256

  check_hash-eq_ok :
      (value : Fields) (claimed mismatch : Text)
      → check_hash value claimed mismatch ≡ ok tt
      → canonical_sha256 value ≡ ok claimed
  unfolding check_hash
  check_hash-eq_ok value claimed mismatch h = elim (Result-cases (canonical_sha256 value)) [
    | inl (hash, e) ↦ ground (arith, e, h, text_eq→eq hash claimed)
    | inr (m, e) ↦ absurd (cc (e, h))
  ]

  check_replay-eq_ok :
      (initial : Fields) (members : Items) (cert : ReplayCertificate)
      → check_replay initial members cert ≡ ok tt
      → (replayed : Fields) × (replay_certificate_actions engine initial cert.proposition members
            cert.actions
          ≡ ok replayed)
        × (canonical_sha256 replayed ≡ ok cert.claimed_final_state_sha256)
  unfolding check_replay
  check_replay-eq_ok initial members cert h =
      let (replayed, e, checked) =
        >>=-eq-ok (replay_certificate_actions engine initial cert.proposition members cert.actions)
          (λ replayed.
            check_hash replayed cert.claimed_final_state_sha256
              (msg "replayed final state mismatch"))
          h in
      (replayed, e, check_hash-eq_ok replayed _ _ checked)

  -- What succeeded on the way to an accepted verdict.
  verify_parsed-eq_ok :
      (cert : ReplayCertificate) (packet_state : Fields) (r : VerifyReplayCertificateResult)
      → verify_parsed cert (ok packet_state) ≡ ok r
      → (initial : Fields) × (members : Items) × (cert.initial_state ≡ some initial)
        × (cert.council_members ≡ some members)
        × (check_replay initial members cert ≡ ok tt)
        × (check_hash packet_state cert.claimed_final_state_sha256
              (msg "packet final state mismatch")
            ≡ ok tt)
  unfolding verify_parsed
  verify_parsed-eq_ok cert packet_state r h = ground arith

  verify_parsed-Accepted :
      (cert : ReplayCertificate) (packet_state : Fields) (r : VerifyReplayCertificateResult)
      → verify_parsed cert (ok packet_state) ≡ ok r
      → Accepted cert packet_state
  verify_parsed-Accepted cert packet_state r h =
      let (initial, members, has_initial, has_members, replay, packet) =
        verify_parsed-eq_ok cert packet_state r h in
      let (replayed, replays, replayed_hash) = check_replay-eq_ok initial members cert replay in
      record {
        initial = initial;
        members = members;
        replayed = replayed;
        has_initial = has_initial;
        has_members = has_members;
        replays = replays;
        packet_hash = check_hash-eq_ok packet_state _ _ packet;
        replayed_hash = replayed_hash;
      }

  -- Verification accepts only a certificate whose actions, run again from its initial request,
  -- lead the engine to a state with the hash of the packet's state and with the claimed hash.
  pub verify_replay_certificate-Accepted :
      (certificate_path state_path : Text) (command : List Text) (cert : ReplayCertificate)
      (packet_state : Fields) (r : VerifyReplayCertificateResult)
      → verify_replay_certificate certificate_path state_path command (ok cert) (ok packet_state)
        ≡ ok r
      → Accepted cert packet_state
  unfolding verify_replay_certificate
  verify_replay_certificate-Accepted p q command cert packet_state r h =
      verify_parsed-Accepted cert packet_state r (ground arith)

  -- The certificate that a certified run writes for its state is accepted beside that state, where
  -- the state's own hash is the one that the certificate claims, both paths are given and the
  -- engine has a command.
  pub verify-replay_certificate :
      {World : Type 0} (c : RunContext World) (command : List Text) (p q : Text)
      (cert : ReplayCertificate)
      → Certified engine c
      → replay_certificate command c c.state ≡ ok cert
      → canonical_sha256 c.state ≡ ok cert.claimed_final_state_sha256
      → is_empty p ≡ false
      → is_empty q ≡ false
      → is_nil command ≡ false
      → verify_replay_certificate p q command (ok cert) (ok c.state)
        ≡ ok record {
          status = msg "ok";
          case_id = c.case_id;
          run_id = c.run_id;
          action_count = length c.certificate_actions;
          claimed_final_state_sha256 = cert.claimed_final_state_sha256;
        }
  unfolding verify_replay_certificate verify_parsed check_replay check_hash replay_certificate
  verify-replay_certificate c command p q cert certified h hash hp hq hc = ground (
    arith,
    text_eq_refl schema_version,
    text_eq_refl procedure_name,
    text_eq_refl cert.claimed_final_state_sha256,
  )
