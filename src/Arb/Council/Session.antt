-- ===== src/Arb/Council/Session.antt =====
-- councilapi.go: any sequence of requests, new turns and ends of turns, in the order in which the lock
-- lets them through.
use adjudication.Prelude.{
  Bool, Option, none, some, List, [], ◌∷◌, Result, err, ◌≡◌, refl, sym, subst, inl, inr, if-both,
}
use adjudication.Prelude.Int.{ℤ, pos, ◌<ℤ◌}
use adjudication.Prelude.Text.{Text, msg, is_empty}
use adjudication.Json.{Fields}
use adjudication.Arb.Context.{RunContext, Opportunity, CouncilSeat}
use adjudication.Arb.Context.Host.{Host, Engine}
use adjudication.Arb.Context.Action.{Keeps}
use adjudication.Arb.Certificate.Step.{take_step, take_step-cases}
use adjudication.Arb.Certificate.Replay.{AnswersState}
use adjudication.Arb.Certificate.Sound.{Certified, take_step-Keeps}
use adjudication.Arb.Failures.{step_failure, refused_failure}
use adjudication.Arb.Council.Turn.{CouncilTurn, new_turn}
use adjudication.Arb.Council.Server.{
  CouncilApi, CouncilDoRequest, CouncilFailRequest, is_open, start_turn, clear_turn,
  handle_council_do, handle_council_fail,
}
use adjudication.Arb.Council.Run.{Wake, end_turn}
use adjudication.Arb.Council.Kept.{Stable}
use adjudication.Arb.Council.Kept.Handlers.{
  handle_council_do-Keeps, handle_council_fail-Keeps, end_turn-Keeps,
}
use adjudication.Arb.Council.Attempts.Bounded.{
  ActiveValid, handle_council_do-ActiveValid, handle_council_fail-ActiveValid, new_turn-TurnValid,
}

pub data Call : Type 0 where
  start : Opportunity → CouncilSeat → Call
  ask : Bool → CouncilDoRequest → Call
  give_up : CouncilFailRequest → Call
  wake_up : Wake → Call

module _ (host : Host) (engine : Engine) where
  end_active : Wake → Option CouncilTurn → CouncilApi host.World → CouncilApi host.World
  unfolding end_turn
  end_active wake none api = api
  end_active wake (some turn) api = (end_turn host engine wake turn api).0

  unfoldable pub serve_call : Call → CouncilApi host.World → CouncilApi host.World
  unfolding start_turn new_turn handle_council_do handle_council_fail end_active
  serve_call (start o seat) api = (start_turn host engine (new_turn api.rc o seat) api).0
  serve_call (ask expired req) api = (handle_council_do host engine expired req api).0
  serve_call (give_up req) api = (handle_council_fail host engine req api).0
  serve_call (wake_up wake) api = end_active wake api.active api

  unfoldable pub serve : List Call → CouncilApi host.World → CouncilApi host.World
  unfolding serve_call
  serve [] api = api
  serve (call ∷ calls) api = serve calls (serve_call call api)

  end_active-Keeps :
      (P : RunContext host.World → Type 0)
      → Stable host engine P
      → (wake : Wake) (active : Option CouncilTurn) (api : CouncilApi host.World) → P api.rc
      → P (end_active wake active api).rc
  unfolding end_active
  end_active-Keeps P stable wake none api h = h
  end_active-Keeps P stable wake (some turn) api h =
      end_turn-Keeps host engine P stable wake turn api h

  start_turn-Keeps :
      (P : RunContext host.World → Type 0) (turn : CouncilTurn) (api : CouncilApi host.World)
      → P api.rc
      → P (start_turn host engine turn api).0.rc
  unfolding start_turn
  start_turn-Keeps P turn api h =
      if-both (λ (r : CouncilApi host.World × Result Text (Unit {0})). P r.0.rc)
        (is_open host engine api.active) (api, err (msg "councilapi already has an active turn")) _
        h h

  serve_call-Keeps :
      (P : RunContext host.World → Type 0)
      → Stable host engine P
      → (call : Call) (api : CouncilApi host.World) → P api.rc
      → P (serve_call call api).rc
  unfolding serve_call
  serve_call-Keeps P stable (start o seat) api h = start_turn-Keeps P (new_turn api.rc o seat) api h
  serve_call-Keeps P stable (ask expired req) api h =
      handle_council_do-Keeps host engine P stable expired req api h
  serve_call-Keeps P stable (give_up req) api h =
      handle_council_fail-Keeps host engine P stable req api h
  serve_call-Keeps P stable (wake_up wake) api h = end_active-Keeps P stable wake api.active api h

  serve-Keeps :
      (P : RunContext host.World → Type 0)
      → Stable host engine P
      → (calls : List Call) (api : CouncilApi host.World) → P api.rc
      → P (serve calls api).rc
  unfolding serve
  serve-Keeps P stable [] api h = h
  serve-Keeps P stable (call ∷ calls) api h =
      serve-Keeps P stable calls (serve_call call api) (serve_call-Keeps P stable call api h)

  Certified-Stable : AnswersState engine → Stable host engine (Certified engine)
  unfolding msg step_failure is_empty
  Certified-Stable legal = record {
    ignores = λ c w events h. h;
    failures = λ payload.
        take_step-Keeps engine legal refused_failure (msg "fail_opportunity") (msg "system") payload
          refl refl;
    votes = λ payload.
        take_step-Keeps engine legal (λ e. e) (msg "submit_council_vote") (msg "council") payload
          refl refl;
  }

  -- For an engine whose accepted answers hold a state, every sequence of council requests, new
  -- turns and ends of turns, from a run whose logged actions replay to its state, leaves a run
  -- whose logged actions replay to its state.
  pub serve-Certified :
      AnswersState engine
      → (calls : List Call) (api : CouncilApi host.World) → Certified engine api.rc
      → Certified engine (serve calls api).rc
  serve-Certified legal calls api h =
      serve-Keeps (Certified engine) (Certified-Stable legal) calls api h

  take_step-runtime :
      (z : ℤ) (refusal : Text → Text) (action role : Text) (payload : Fields)
      → Keeps
          (λ (c : RunContext host.World). c.runtime.invalid_attempt_limit ≡ z)
          (take_step engine refusal action role payload)
  take_step-runtime z refusal action role payload c h =
      elim (take_step-cases engine refusal action role payload c) [
        | inl (e, p) ↦ rw p h
        | inr (d, t, p) ↦ rw (p, t.result) h
      ]

  limit-Stable : (z : ℤ) → Stable host engine (λ c. c.runtime.invalid_attempt_limit ≡ z)
  unfolding step_failure
  limit-Stable z = record {
    ignores = λ c w events h. h;
    failures = take_step-runtime z refused_failure (msg "fail_opportunity") (msg "system");
    votes = take_step-runtime z (λ e. e) (msg "submit_council_vote") (msg "council");
  }

  end_active-none :
      (wake : Wake) (active : Option CouncilTurn) (api : CouncilApi host.World)
      → api.active ≡ active
      → (end_active wake active api).active ≡ none
  unfolding end_active end_turn clear_turn
  end_active-none wake none api e = e
  end_active-none wake (some turn) api e = refl

  serve_call-ActiveValid :
      (call : Call) (api : CouncilApi host.World)
      → pos 0 <ℤ api.rc.runtime.invalid_attempt_limit
      → ActiveValid api.active
      → ActiveValid (serve_call call api).active
  unfolding serve_call start_turn
  serve_call-ActiveValid (start o seat) api l h =
      if-both (λ (r : CouncilApi host.World × Result Text (Unit {0})). ActiveValid r.0.active)
        (is_open host engine api.active) (api, err (msg "councilapi already has an active turn")) _
        h (new_turn-TurnValid host engine api.rc o seat l)
  serve_call-ActiveValid (ask expired req) api l h =
      handle_council_do-ActiveValid host engine expired req api h
  serve_call-ActiveValid (give_up req) api l h =
      handle_council_fail-ActiveValid host engine req api h
  serve_call-ActiveValid (wake_up wake) api l h = rw (end_active-none wake api.active api refl) tt

  -- From a server whose active turn is valid, under a positive limit on invalid attempts, every
  -- sequence of calls leaves no active turn, or one that waits with attempts left and no outcome
  -- sent, or one that has ended and sent one outcome; its recorded invalid calls and attempts left
  -- add up to its limit.
  pub serve-ActiveValid :
      (calls : List Call) (api : CouncilApi host.World)
      → pos 0 <ℤ api.rc.runtime.invalid_attempt_limit
      → ActiveValid api.active
      → ActiveValid (serve calls api).active
  unfolding serve
  serve-ActiveValid [] api l h = h
  serve-ActiveValid (call ∷ calls) api l h =
      let same =
        serve_call-Keeps
          (λ c. c.runtime.invalid_attempt_limit ≡ api.rc.runtime.invalid_attempt_limit)
          (limit-Stable api.rc.runtime.invalid_attempt_limit) call api refl in
      serve-ActiveValid calls (serve_call call api) (subst (λ z. pos 0 <ℤ z) (sym same) l)
        (serve_call-ActiveValid call api l h)
