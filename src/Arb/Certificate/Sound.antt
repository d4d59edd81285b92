-- ===== src/Arb/Certificate/Sound.antt =====
-- The log of accepted actions replays to the state of the run.
use adjudication.Prelude.{false, ok, ◌≡◌, inl, inr}
use adjudication.Prelude.Text.{Text, is_empty}
use adjudication.Json.{Fields}
use adjudication.Arb.Context.{RunContext}
use adjudication.Arb.Context.Host.{Engine}
use adjudication.Arb.Context.Action.{Keeps}
use adjudication.Arb.Certificate.{state_of}
use adjudication.Arb.Certificate.Step.{take_step, take_step-cases, Taken}
use adjudication.Arb.Certificate.Replay.{
  replay_certificate_actions, replay_certificate_actions-append, replay_action-accepted,
  AnswersState,
}

module _ {World : Type 0} (engine : Engine) where
  -- The certificate that the run would write now replays to its state.
  abbrev pub Certified : RunContext World → Type 0
  Certified c =
      replay_certificate_actions engine c.certificate_init.state c.certificate_init.proposition
        c.certificate_init.council_members c.certificate_actions
      ≡ ok c.state

  -- A step that was taken keeps the log in step with the state.
  pub Taken-Certified :
      AnswersState engine
      → (action role : Text) (payload : Fields) (c d : RunContext World) → is_empty action ≡ false
      → is_empty role ≡ false
      → Taken engine action role payload c d
      → Certified c
      → Certified d
  Taken-Certified legal action role payload c d ha hr t h = rw t.result (
      replay_certificate_actions-append engine c.certificate_init.state
        c.certificate_init.proposition c.certificate_init.council_members c.certificate_actions
        (record { action_type = action; actor_role = role; payload = t.copy }) c.state
        (state_of t.resp) h
        (λ j.
          replay_action-accepted engine legal j c.state payload t.copy t.resp action role ha hr
            t.stepped t.agreed t.cloned))

  -- For an engine whose accepted answers hold a state, a step with a named action and role keeps
  -- the log of actions in step with the run's state, whether the engine accepts it, refuses it or
  -- fails.
  pub take_step-Keeps :
      AnswersState engine
      → (refusal : Text → Text) (action role : Text) (payload : Fields) → is_empty action ≡ false
      → is_empty role ≡ false
      → Keeps Certified (take_step engine refusal action role payload)
  take_step-Keeps legal refusal action role payload ha hr c h =
      elim (take_step-cases engine refusal action role payload c) [
        | inl (e, p) ↦ rw p h
        | inr (d, t, p) ↦ rw p (Taken-Certified legal action role payload c d ha hr t h)
      ]
