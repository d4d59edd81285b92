-- ===== src/Arb/Run/Certified.antt =====
-- run.go and certificate.go: a case from its start to its certificate.
use adjudication.Prelude.{
  ℕ, true, false, not, Option, some, Result, ok, or_fail, or_fail-eq-ok, reject_if-eq-ok, >>=-eq-ok,
  not-false, ◌≡◌, refl, subst, length, List, [], ◌∙◌, ok-injective,
}
use adjudication.Prelude.Text.{Text, msg, is_empty}
use adjudication.Json.{Fields, Items, no_fields}
use adjudication.Arb.Context.{RunContext, Opportunity}
use adjudication.Arb.Context.Host.{Host, Engine}
use adjudication.Arb.Context.Action.{Keeps}
use adjudication.Arb.Certificate.{accepted, state_of, ReplayCertificate}
use adjudication.Arb.Certificate.Replay.{replay_certificate_actions}
use adjudication.Arb.Certificate.Sound.{Certified}
use adjudication.Arb.Certificate.Verify.{
  verify_replay_certificate, replay_certificate, verify-replay_certificate, is_nil,
}
use adjudication.Arb.Council.Preflight.{CouncilPreflightReplacement}
use adjudication.Arb.Run.{begin_case, record_start, Handler, run_case, RunResult}
use adjudication.Arb.Run.Kept.{run_case-Keeps, run_case-Over, Over, record_start-Keeps}

module _ (host : Host) (engine : Engine) where
  -- The engine takes a copy of its request for the request, and an accepted start holds a state.
  pub record Starts (clone_members : Items → Option Items) : Type 0 where
    pub same :
        (s q : Fields) (proposition : Text) (m n : Items)
        → engine.clone_json s ≡ some q
        → clone_members m ≡ some n
        → engine.initialize_case q proposition n ≡ engine.initialize_case s proposition m
    pub nonempty_state :
        (s resp : Fields) (proposition : Text) (m : Items)
        → engine.initialize_case s proposition m ≡ ok resp
        → accepted resp ≡ true
        → no_fields (state_of resp) ≡ false

  replay-begun :
      (q resp : Fields) (proposition : Text) (n : Items)
      → engine.initialize_case q proposition n ≡ ok resp
      → accepted resp ≡ true
      → no_fields (state_of resp) ≡ false
      → replay_certificate_actions engine q proposition n [] ≡ ok (state_of resp)
  unfolding replay_certificate_actions
  replay-begun q resp proposition n h agreed full = rw (h, agreed, full) refl

  begin_case-Certified :
      (clone_members : Items → Option Items)
      → Starts clone_members
      → (initial : Fields) (proposition : Text) (members : Items) (blank c : RunContext host.World)
      → begin_case host engine clone_members initial proposition members blank ≡ ok c
      → Certified engine c
  unfolding begin_case
  begin_case-Certified clone_members starts initial proposition members blank c h =
      let (q, p1, h1) = >>=-eq-ok (or_fail (engine.clone_json initial) _) _ h in
      let (n, p2, h2) = >>=-eq-ok (or_fail (clone_members members) _) _ h1 in
      let (resp, p3, h3) = >>=-eq-ok (engine.initialize_case initial proposition members) _ h2 in
      let (denied, h4) = reject_if-eq-ok (not (accepted resp)) _ _ h3 in
      let agreed = not-false (accepted resp) denied in
      let copied =
        starts.same initial q proposition members n (or_fail-eq-ok (engine.clone_json initial) _ p1)
          (or_fail-eq-ok (clone_members members) _ p2) in
      subst (Certified engine) (ok-injective _ c h4) (
        replay-begun q resp proposition n (copied ∙ p3) agreed
          (starts.nonempty_state initial resp proposition members p3 agreed))

  module _ (canonical_sha256 : Fields → Result Text Text) where
    -- From the start of a case, through handlers that keep the log in step with the state, to a result:
    -- the engine has nothing more to do at the final state, the result is that state's, and the
    -- certificate that the run writes then is accepted beside it.
    pub record Verified (c : RunContext host.World) (result : RunResult) (command : List Text)
        (p q : Text) (cert : ReplayCertificate) : Type 0 where
      pub finished : Over host engine c result
      pub accepted_certificate :
          verify_replay_certificate engine canonical_sha256 p q command (ok cert) (ok c.state)
          ≡ ok record {
            status = msg "ok";
            case_id = c.case_id;
            run_id = c.run_id;
            action_count = length c.certificate_actions;
            claimed_final_state_sha256 = cert.claimed_final_state_sha256;
          }

    -- For an engine that takes copies for its request and whose accepted start holds a state, and
    -- handlers that keep the log in step with the state, a case that is begun, recorded and run to
    -- a result ends at a state where the engine has nothing more to do, the result is that
    -- state's, and the certificate that the run then writes is accepted beside it.
    pub run_case-Verified :
        (clone_members : Items → Option Items)
        → Starts clone_members
        → (attorney council : Handler host engine)
        → ((o : Opportunity) → Keeps (Certified engine) (attorney o))
        → ((o : Opportunity) → Keeps (Certified engine) (council o))
        → (initial : Fields) (proposition : Text) (members : Items)
          (blank c opened d : RunContext host.World)
          (replacements : List CouncilPreflightReplacement) (summary : Fields) (rounds : ℕ)
          (result : RunResult) (command : List Text) (p q : Text) (cert : ReplayCertificate)
        → begin_case host engine clone_members initial proposition members blank ≡ ok c
        → record_start host engine replacements summary c ≡ (opened, ok tt)
        → run_case host engine attorney council rounds opened ≡ (d, ok (some result))
        → replay_certificate engine canonical_sha256 command d d.state ≡ ok cert
        → canonical_sha256 d.state ≡ ok cert.claimed_final_state_sha256
        → is_empty p ≡ false
        → is_empty q ≡ false
        → is_nil command ≡ false
        → Verified d result command p q cert
    run_case-Verified clone_members starts attorney council ka kc initial proposition members blank
          c opened d replacements summary rounds result command p q cert begun recorded ran written
          hash hp hq hc =
        let start =
          begin_case-Certified clone_members starts initial proposition members blank c begun in
        let kept =
          run_case-Keeps host engine (Certified engine) (λ e n h. h) attorney council ka kc rounds
            opened
            (subst (λ r. Certified engine r.0) recorded
              (record_start-Keeps host engine (Certified engine) (λ e w events h. h) replacements
                summary c start)) in
        let certified = subst (λ r. Certified engine r.0) ran kept in
        record {
          finished = run_case-Over host engine attorney council rounds opened d result ran;
          accepted_certificate =
              verify-replay_certificate engine canonical_sha256 d command p q cert certified written
                hash hp hq hc;
        }
