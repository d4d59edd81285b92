-- ===== src/Arb/Certificate/Step.antt =====
-- certificate.go, `stepForCertificate`, and the lines around each of its calls that take over the
-- engine's new state.
use adjudication.Prelude.{
  true, false, not, Option, none, some, [], ◌∷◌, ◌++◌, Result, ok, err, if◌then◌else◌, ◌≡◌, refl,
  sym, ap, ◌∙◌, subst, arith, ◌⊎◌, inl, inr, Bool-cases, Option-cases, Result-cases,
}
use adjudication.Prelude.Text.{Text, msg}
use adjudication.Json.{Fields}
use adjudication.Arb.Context.{RunContext}
use adjudication.Arb.Context.Host.{Engine}
use adjudication.Arb.Context.Action.{Action, ◌>>=◌, ◌>>◌, reject_if}
use adjudication.Arb.Certificate.{accepted, state_of, error_of}

module _ {World : Type 0} (engine : Engine) where
  append_action : Text → Text → Fields → Option Fields → Action World Fields
  append_action action role resp none c = (c, err (msg "clone certificate action payload"))
  append_action action role resp (some copy) c = (
    record c {
      certificate_actions =
          c.certificate_actions
          ++ record { action_type = action; actor_role = role; payload = copy } ∷ [];
    },
    ok resp,
  )

  after_step : Text → Text → Fields → Result Text Fields → Action World Fields
  unfolding append_action
  after_step action role payload (err e) c = (c, err e)
  after_step action role payload (ok resp) c =
      if accepted resp
      then append_action action role resp (engine.clone_json payload) c
      else (c, ok resp)

  unfoldable pub step_for_certificate : Text → Text → Fields → Action World Fields
  unfolding after_step
  step_for_certificate action role payload c =
      after_step action role payload (engine.step c.state action role payload) c

  -- `rc.state = mapAny(stepResp["state"])`.
  unfoldable pub adopt : Fields → Action World (Unit {0})
  adopt resp c = (record c { state = state_of resp }, ok tt)

  -- The caller's lines: a step, its refusal as an error, and the new state.
  unfoldable pub take_step : (Text → Text) → Text → Text → Fields → Action World (Unit {0})
  unfolding step_for_certificate adopt
  take_step refusal action role payload = do
    resp ← step_for_certificate action role payload
    reject_if (not (accepted resp)) (refusal (error_of resp))
    adopt resp

  -- A call of `take_step` that the engine accepted, with the copy of its payload.
  pub record Taken (action role : Text) (payload : Fields) (c : RunContext World)
      (d : RunContext World) : Type 0 where
    pub resp : Fields
    pub copy : Fields
    pub stepped : engine.step c.state action role payload ≡ ok resp
    pub agreed : accepted resp ≡ true
    pub cloned : engine.clone_json payload ≡ some copy
    pub result : d ≡ record c {
      certificate_actions =
          c.certificate_actions
          ++ record { action_type = action; actor_role = role; payload = copy } ∷ [];
      state = state_of resp;
    }

  -- It fails with nothing changed, or the engine's state is taken over and the action logged.
  pub take_step-cases :
      (refusal : Text → Text) (action role : Text) (payload : Fields) (c : RunContext World)
      → ((e : Text) × (take_step refusal action role payload c ≡ (c, err e)))
        ⊎ ((d : RunContext World) × Taken action role payload c d
            × (take_step refusal action role payload c ≡ (d, ok tt)))
  unfolding take_step
  take_step-cases refusal action role payload c =
      elim (Result-cases (engine.step c.state action role payload)) [
        | inr (e, p) ↦ inl (e, rw (p, take_step))
        | inl (resp, p) ↦ elim (Bool-cases (accepted resp)) [
          | inr refused ↦ inl (refusal (error_of resp), rw (p, refused, refused, take_step))
          | inl agreed ↦ elim (Option-cases (engine.clone_json payload)) [
            | inl stuck ↦
                inl (msg "clone certificate action payload", rw (p, agreed, stuck, take_step))
            | inr (copy, cloned) ↦ inr (
              record c {
                certificate_actions =
                    c.certificate_actions
                    ++ record { action_type = action; actor_role = role; payload = copy } ∷ [];
                state = state_of resp;
              },
              record {
                resp = resp;
                copy = copy;
                stepped = p;
                agreed = agreed;
                cloned = cloned;
                result = refl;
              },
              rw (p, agreed, cloned, agreed, take_step),
            )
          ]
        ]
      ]

  -- The three ends of a step: an error or a refusal changes nothing; otherwise the action is logged,
  -- and with the engine's state taken over it is `Taken`.
  pub data StepEnd (action role : Text) (payload : Fields) (c : RunContext World)
      : RunContext World × Result Text Fields → Type 0 where
    step_failed : (e : Text) → StepEnd action role payload c (c, err e)
    step_refused :
        (resp : Fields) → accepted resp ≡ false → StepEnd action role payload c (c, ok resp)
    step_taken :
        (logged : RunContext World) (resp : Fields)
        → accepted resp ≡ true
        → Taken action role payload c (adopt resp logged).0
        → StepEnd action role payload c (logged, ok resp)

  pub step_for_certificate-StepEnd :
      (action role : Text) (payload : Fields) (c : RunContext World)
      → StepEnd action role payload c (step_for_certificate action role payload c)
  unfolding step_for_certificate
  step_for_certificate-StepEnd action role payload c =
      elim (Result-cases (engine.step c.state action role payload)) [
        | inr (e, p) ↦ rw (p, step_for_certificate) (step_failed e)
        | inl (resp, p) ↦ elim (Bool-cases (accepted resp)) [
          | inr denied ↦ rw (p, denied, step_for_certificate) (step_refused resp denied)
          | inl agreed ↦ elim (Option-cases (engine.clone_json payload)) [
            | inl stuck ↦
                rw (p, agreed, stuck, step_for_certificate)
                  (step_failed (msg "clone certificate action payload"))
            | inr (copy, cloned) ↦
                rw (p, agreed, cloned, step_for_certificate)
                  (step_taken
                    (record c {
                      certificate_actions =
                          c.certificate_actions
                          ++ record { action_type = action; actor_role = role; payload = copy }
                            ∷ [];
                    })
                    resp agreed
                    (record {
                      resp = resp;
                      copy = copy;
                      stepped = p;
                      agreed = agreed;
                      cloned = cloned;
                      result = unfold adopt in refl;
                    }))
          ]
        ]
      ]

  -- A call that succeeded was accepted by the engine, and logged.
  pub take_step-Taken :
      (refusal : Text → Text) (action role : Text) (payload : Fields) (c d : RunContext World)
      → take_step refusal action role payload c ≡ (d, ok tt)
      → Taken action role payload c d
  take_step-Taken refusal action role payload c d h =
      elim (take_step-cases refusal action role payload c) [
        | inl (e, p) ↦
            let no : err e ≡ ok tt = sym (ap (λ r. r.1) p) ∙ ap (λ r. r.1) h in ground arith
        | inr (mid, t, p) ↦
            subst (Taken action role payload c) (sym (ap (λ r. r.0) p) ∙ ap (λ r. r.0) h) t
      ]
