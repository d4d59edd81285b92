-- ===== src/Arb/Failures/Record.antt =====
-- failures.go, `failOpportunity`: what every outcome keeps, and what a recorded failure leaves.
use adjudication.Prelude.{
  ℕ, Bool, true, false, List, [], ◌∷◌, ◌++◌, ok, ◌≡◌, refl, ap, arith, inl, inr, Bool-cases,
}
use adjudication.Prelude.Text.{Text, msg, is_empty, trim_space}
use adjudication.Json.{Fields}
use adjudication.Arb.Context.{RunContext, Opportunity, Event}
use adjudication.Arb.Context.Host.{Host, Engine}
use adjudication.Arb.Context.Action
use adjudication.Arb.Context.Action.{Action, ◌>>=◌, reject_if, Keeps, >>=-Keeps, reject_if-Keeps}
use adjudication.Arb.Certificate.Step.{take_step-Taken, Taken}
use adjudication.Arb.Certificate.Replay.{AnswersState}
use adjudication.Arb.Certificate.Sound.{Certified, take_step-Keeps}
use adjudication.Arb.Failures.{
  fail_opportunity, record_event, after_log, removal_event, record_event_at_turn, record_removal,
  failure_payload, is_council, refused_failure, step_failure, record_failure,
}

module _ (host : Host) (engine : Engine) where
  -- A property of the context that events do not touch.
  abbrev pub IgnoresEvents : (RunContext host.World → Type 0) → Type 0
  IgnoresEvents P =
      (c : RunContext host.World) (w : host.World) (events : List Event)
      → P c
      → P (record c { world = w; events = events })

  after_log-Keeps :
      (P : RunContext host.World → Type 0)
      → IgnoresEvents P
      → (event : Event) (r : host.World × Bool) → Keeps P (after_log host event r)
  unfolding after_log
  after_log-Keeps P ignores event (w, true) c h = ignores c w (c.events ++ event ∷ []) h
  after_log-Keeps P ignores event (w, false) c h = ignores c w (c.events ++ event ∷ []) h

  pub record_event_at_turn-Keeps :
      (P : RunContext host.World → Type 0)
      → IgnoresEvents P
      → (turn : ℕ) (event_type role phase : Text) (payload : Fields)
      → Keeps P (record_event_at_turn host turn event_type role phase payload)
  unfolding record_event_at_turn
  record_event_at_turn-Keeps P ignores turn event_type role phase payload c h =
      let event : Event = record {
        turn = turn;
        role = role;
        phase = phase;
        type = event_type;
        payload = payload;
      } in
      after_log-Keeps P ignores event (host.log_event c.world event) c h

  record_removal-Keeps :
      (P : RunContext host.World → Type 0)
      → IgnoresEvents P
      → (o : Opportunity) (reason : Text) (payload : Fields)
      → Keeps P (record_removal host o reason payload)
  unfolding record_removal record_event
  record_removal-Keeps P ignores o reason payload c h = elim (Bool-cases (is_council o)) [
    | inl p ↦ rw p (
        record_event_at_turn-Keeps P ignores c.turn (msg "council_member_removed") (msg "system")
          o.phase (removal_event host reason payload) c h)
    | inr p ↦ rw p h
  ]

  record_failure-Keeps :
      (P : RunContext host.World → Type 0)
      → IgnoresEvents P
      → (o : Opportunity) (reason : Text) (payload : Fields)
      → Keeps P (record_failure host o reason payload)
  unfolding record_failure record_event
  record_failure-Keeps P ignores o reason payload =
      >>=-Keeps P (record_event host (msg "opportunity_failed") o.role o.phase payload)
        (λ u. record_removal host o reason payload)
        (λ c h.
          record_event_at_turn-Keeps P ignores c.turn (msg "opportunity_failed") o.role o.phase
            payload c h)
        (λ u. record_removal-Keeps P ignores o reason payload)

  -- Whatever events and the step keep, the failure of an opportunity keeps, on every outcome.
  pub fail_opportunity-Keeps :
      (P : RunContext host.World → Type 0)
      → IgnoresEvents P
      → ((payload : Fields) → Keeps P (step_failure host engine payload))
      → (o : Opportunity) (reason message : Text) (details : Fields)
      → Keeps P (fail_opportunity host engine o reason message details)
  unfolding fail_opportunity
  fail_opportunity-Keeps P ignores steps o reason message details =
      let payload = failure_payload o (trim_space reason) (trim_space message) details in
      let record_it = λ (u : Unit {0}). record_failure host o (trim_space reason) payload in
      let required = msg "opportunity failure reason is required" in
      >>=-Keeps P (reject_if (is_empty (trim_space reason)) required)
        (λ u. step_failure host engine payload >>= record_it)
        (reject_if-Keeps P (is_empty (trim_space reason)) required)
        (λ u.
          >>=-Keeps P (step_failure host engine payload) record_it (steps payload)
            (λ u. record_failure-Keeps P ignores o (trim_space reason) payload))

  -- For an engine whose accepted answers hold a state, every outcome of recording a failure keeps
  -- the log of actions in step with the run's state.
  pub fail_opportunity-Certified :
      AnswersState engine
      → (o : Opportunity) (reason message : Text) (details : Fields)
      → Keeps (Certified engine) (fail_opportunity host engine o reason message details)
  unfolding msg step_failure is_empty
  fail_opportunity-Certified legal o reason message details =
      fail_opportunity-Keeps (Certified engine) (λ c w events h. h)
        (λ payload.
          take_step-Keeps engine legal refused_failure (msg "fail_opportunity") (msg "system")
            payload refl refl)
        o reason message details

  reject_if-passed :
      (b : Bool) (e : Text) (c d : RunContext host.World)
      → reject_if b e c ≡ (d, ok tt)
      → (b ≡ false) × (c ≡ d)
  reject_if-passed true e c d h = ground arith
  reject_if-passed false e c d h = (refl, ap (λ r. r.0) h)

  -- A failure that is recorded without an error had a reason, and left the engine step with the
  -- failure's payload as the last action of the log and the engine's answer as the state.
  pub fail_opportunity-Taken :
      (o : Opportunity) (reason message : Text) (details : Fields) (c d : RunContext host.World)
      → fail_opportunity host engine o reason message details c ≡ (d, ok tt)
      → (is_empty (trim_space reason) ≡ false)
        × (mid : RunContext host.World) × Taken engine
            (msg "fail_opportunity")
            (msg "system")
            (failure_payload o (trim_space reason) (trim_space message) details)
            c
            mid
        × (d.state ≡ mid.state)
        × (d.certificate_actions ≡ mid.certificate_actions)
  unfolding fail_opportunity step_failure
  fail_opportunity-Taken o reason message details c d h =
      let payload = failure_payload o (trim_space reason) (trim_space message) details in
      let record_it = λ (u : Unit {0}). record_failure host o (trim_space reason) payload in
      let (_, c1, p, rest) =
        Action.>>=-eq-ok
          (reject_if (is_empty (trim_space reason)) (msg "opportunity failure reason is required"))
          (λ u. step_failure host engine payload >>= record_it) c d tt h in
      let (given, same) =
        reject_if-passed (is_empty (trim_space reason))
          (msg "opportunity failure reason is required") c c1 p in
      let (_, mid, q, recorded) =
        Action.>>=-eq-ok (step_failure host engine payload) record_it c1 d tt rest in
      let kept =
        record_failure-Keeps
          (λ e. (e.state ≡ mid.state) × (e.certificate_actions ≡ mid.certificate_actions))
          (λ e w es h. h) o (trim_space reason) payload mid (refl, refl) in
      let (same_state, same_log) = rw recorded at kept in
      let taken =
        take_step-Taken engine refused_failure (msg "fail_opportunity") (msg "system") payload c mid
          (rw same q) in
      (given, mid, taken, same_state, same_log)
