-- ===== src/Arb/Certificate/Replay.antt =====
-- certificate.go, `replayCertificateActions`.
use adjudication.Prelude.{
  ℕ, suc, true, false, not, List, [], ◌∷◌, ◌++◌, Result, ok, err, ◌>>=◌, ◌>>◌, reject_if, ◌≡◌,
  Result-cases, inl, inr, arith, some,
}
use adjudication.Prelude.Text.{Text, msg, is_empty}
use adjudication.Json.{Fields, Items, no_fields}
use adjudication.Json.Print.{decimal}
use adjudication.Arb.Context.{ReplayAction}
use adjudication.Arb.Context.Host.{Engine}
use adjudication.Arb.Certificate.{accepted, state_of, error_of}

-- `fmt.Errorf("...: %w", err)`.
abbrev label_error : {A : Type 0} → Text → Result Text A → Result Text A
label_error label (ok a) = ok a
label_error label (err e) = err (label ++ e)

-- "certificate action 3 (submit_argument)".
action_label : ℕ → ReplayAction → Text
action_label i a =
    msg "certificate action " ++ (decimal i ++ (msg " (" ++ (a.action_type ++ msg ")")))

module _ (engine : Engine) where
  -- The body of the loop, for the i-th action.
  unfoldable pub replay_action : ℕ → ReplayAction → Fields → Result Text Fields
  unfolding action_label
  replay_action i a state = do
    reject_if (is_empty a.action_type)
        (msg "certificate action " ++ (decimal i ++ msg " has empty action_type"))
    reject_if (is_empty a.actor_role) (action_label i a ++ msg " has empty actor_role")
    resp ←
        label_error (action_label i a ++ msg " failed: ")
          (engine.step state a.action_type a.actor_role a.payload)
    reject_if (not (accepted resp)) (action_label i a ++ (msg " rejected: " ++ error_of resp))
    reject_if (no_fields (state_of resp)) (action_label i a ++ msg " returned empty state")
    ok (state_of resp)

  unfoldable pub replay_from : ℕ → List ReplayAction → Fields → Result Text Fields
  replay_from i [] state = ok state
  replay_from i (a ∷ rest) state = replay_action i a state >>= λ next. replay_from (suc i) rest next

  -- The lines before the loop.
  initialize : Fields → Text → Items → Result Text Fields
  initialize initial proposition members = do
    resp ←
        label_error (msg "initialize_case failed: ")
          (engine.initialize_case initial proposition members)
    reject_if (not (accepted resp)) (msg "initialize_case rejected: " ++ error_of resp)
    reject_if (no_fields (state_of resp)) (msg "initialize_case returned empty state")
    ok (state_of resp)

  unfoldable pub replay_certificate_actions :
      Fields → Text → Items → List ReplayAction → Result Text Fields
  unfolding initialize replay_from
  replay_certificate_actions initial proposition members actions = do
    state ← initialize initial proposition members
    replay_from 1 actions state

  -- One more action at the end of a log that replays.
  pub replay_from-append :
      (i : ℕ) (log : List ReplayAction) (a : ReplayAction) (start state next : Fields)
      → replay_from i log start ≡ ok state
      → ((j : ℕ) → replay_action j a state ≡ ok next)
      → replay_from i (log ++ a ∷ []) start ≡ ok next
  unfolding replay_from
  replay_from-append i [] a start state next h step = ground (arith, step i)
  replay_from-append i (b ∷ log) a start state next h step =
      elim (Result-cases (replay_action i b start)) [
        | inl (s, e) ↦
            rw e (replay_from-append (suc i) log a s state next (rw (e, replay_from) at h) step)
        | inr (e, p) ↦ absurd (stuck e p)
      ]
    where
      stuck : (e : Text) → replay_action i b start ≡ err e → ⊥
      stuck e p = ground (arith, h, p)

  pub replay_certificate_actions-append :
      (initial : Fields) (proposition : Text) (members : Items) (log : List ReplayAction)
      (a : ReplayAction) (state next : Fields)
      → replay_certificate_actions initial proposition members log ≡ ok state
      → ((j : ℕ) → replay_action j a state ≡ ok next)
      → replay_certificate_actions initial proposition members (log ++ a ∷ []) ≡ ok next
  unfolding replay_certificate_actions
  replay_certificate_actions-append initial proposition members log a state next h step =
      elim (Result-cases (initialize initial proposition members)) [
        | inl (s, e) ↦
            rw e (
              replay_from-append 1 log a s state next (rw (e, replay_certificate_actions) at h)
                step)
        | inr (e, p) ↦ absurd (stuck e p)
      ]
    where
      stuck : (e : Text) → initialize initial proposition members ≡ err e → ⊥
      stuck e p = cc (h, p)

  -- An engine that accepts an action answers with a state that is not empty.
  pub record AnswersState : Type 0 where
    pub nonempty_state :
        (s p resp : Fields) (action role : Text)
        → engine.step s action role p ≡ ok resp
        → accepted resp ≡ true
        → no_fields (state_of resp) ≡ false

  -- A step that the engine accepted replays from the same state, payload copied or not.
  pub replay_action-accepted :
      AnswersState
      → (i : ℕ) (state payload copy resp : Fields) (action role : Text) → is_empty action ≡ false
      → is_empty role ≡ false
      → engine.step state action role payload ≡ ok resp
      → accepted resp ≡ true
      → engine.clone_json payload ≡ some copy
      → replay_action i (record { action_type = action; actor_role = role; payload = copy }) state
        ≡ ok (state_of resp)
  unfolding replay_action
  replay_action-accepted legal i state payload copy resp action role ha hr step yes_ cloned =
      ground (
        arith,
        engine.step-clone state payload copy action role cloned,
        legal.nonempty_state state payload resp action role step yes_,
      )
