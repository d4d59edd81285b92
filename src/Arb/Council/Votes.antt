-- ===== src/Arb/Council/Votes.antt =====
-- councilapi.go, `submitCouncilVoteLocked` under `handleCouncilDo`: whose vote is recorded, and when.
use adjudication.Prelude.{
  true, false, ◌||◌, Option, none, Result, ok, err, ◌≡◌, refl, ap, ◌∙◌, arith, ||-false, if-both,
  subst, guard-passed,
}
use adjudication.Prelude.Text.{Text, msg, is_empty, text_eq, text_eq_refl}
use adjudication.Json.{Fields, get, str}
use adjudication.Json.Laws.{get-put}
use adjudication.Json.Print.{map_string}
use adjudication.Arb.Context.{RunContext}
use adjudication.Arb.Context.Host.{Host, Engine}
use adjudication.Arb.Certificate.Step.{take_step, take_step-Taken, Taken}
use adjudication.Arb.Failures.{record_event_at_turn}
use adjudication.Arb.Failures.Record.{record_event_at_turn-Keeps}
use adjudication.Arb.Council.Turn.{CouncilTurn, Desk, signal_changed, finish_turn, on_run}
use adjudication.Arb.Council.Tools.{
  CouncilReply, vote_payload, vote_event, cast_vote, submit_council_vote, after_vote_step,
  after_vote_event,
}

module _ (host : Host) (engine : Engine) where
  -- A vote that stands: the engine took it with the seat's own member id and the arguments' other
  -- fields, it is the run's last action as the state is the engine's, and the turn is over.
  pub record Voted (args : Fields) (d e : Desk host.World) : Type 0 where
    pub payload : Fields
    pub own_name : get (msg "member_id") payload ≡ str d.turn.seat.member_id
    pub as_given :
        (key : Text) → text_eq (msg "member_id") key ≡ false → get key payload ≡ get key args
    pub was_open : d.turn.completed ≡ false
    pub has_vote : is_empty (map_string (get (msg "vote") payload)) ≡ false
    pub has_rationale : is_empty (map_string (get (msg "rationale") payload)) ≡ false
    pub mid : RunContext host.World
    pub taken : Taken engine (msg "submit_council_vote") (msg "council") payload d.rc mid
    pub same_state : e.rc.state ≡ mid.state
    pub same_log : e.rc.certificate_actions ≡ mid.certificate_actions
    pub ended : e.turn.completed ≡ true

  finish_turn-ended :
      (outcome : Option Text) (d : Desk host.World)
      → (finish_turn host engine outcome d).turn.completed ≡ true
  unfolding finish_turn
  finish_turn-ended outcome d = ground arith

  finish_turn-rc :
      (outcome : Option Text) (d : Desk host.World) → (finish_turn host engine outcome d).rc ≡ d.rc
  unfolding finish_turn
  finish_turn-rc outcome d =
      if-both (λ (e : Desk host.World). e.rc ≡ d.rc) d.turn.completed d _ refl refl

  after_vote_event-ok :
      (r : Desk host.World × Result Text (Unit {0})) (e : Desk host.World) (reply : CouncilReply)
      → after_vote_event host engine r ≡ (e, ok reply)
      → (e.rc ≡ r.0.rc) × (e.turn.completed ≡ true)
  unfolding after_vote_event
  after_vote_event-ok (d, ok u) e reply h =
      let same = ap (λ x. x.0) h in
      (
        subst (λ x. x.rc ≡ d.rc) same (finish_turn-rc none d),
        subst (λ x. x.turn.completed ≡ true) same (finish_turn-ended none d),
      )
  after_vote_event-ok (d, err x) e reply h = ground arith

  after_vote_step-ok :
      (payload : Fields) (r : Desk host.World × Result Text (Unit {0})) (e : Desk host.World)
      (reply : CouncilReply)
      → after_vote_step host engine payload r ≡ (e, ok reply)
      → (r.1 ≡ ok tt)
        × (e.rc.state ≡ r.0.rc.state)
        × (e.rc.certificate_actions ≡ r.0.rc.certificate_actions)
        × (e.turn.completed ≡ true)
  unfolding after_vote_step on_run
  after_vote_step-ok payload (d, ok u) e reply h =
      let logged =
        on_run host engine
          (record_event_at_turn host d.turn.turn_number (msg "council_vote") (msg "council")
            d.turn.opportunity.phase (vote_event d.turn payload))
          (record d { version = signal_changed d.version }) in
      let (same, ended) = after_vote_event-ok logged e reply h in
      let kept =
        record_event_at_turn-Keeps host engine
          (λ c. (c.state ≡ d.rc.state) × (c.certificate_actions ≡ d.rc.certificate_actions))
          (λ c w es k. k) d.turn.turn_number (msg "council_vote") (msg "council")
          d.turn.opportunity.phase (vote_event d.turn payload) d.rc (refl, refl) in
      (refl, ap (λ c. c.state) same ∙ kept.0, ap (λ c. c.certificate_actions) same ∙ kept.1, ended)
  after_vote_step-ok payload (d, err x) e reply h = ground arith

  cast_vote-Taken :
      (payload : Fields) (d e : Desk host.World) (reply : CouncilReply)
      → cast_vote host engine payload d ≡ (e, ok reply)
      → (mid : RunContext host.World) × Taken engine
          (msg "submit_council_vote")
          (msg "council")
          payload
          d.rc
          mid
        × (e.rc.state ≡ mid.state)
        × (e.rc.certificate_actions ≡ mid.certificate_actions)
        × (e.turn.completed ≡ true)
  unfolding cast_vote on_run
  cast_vote-Taken payload d e reply h =
      let vote = take_step engine (λ e. e) (msg "submit_council_vote") (msg "council") payload in
      let (accepted, state, log, ended) =
        after_vote_step-ok payload (on_run host engine vote d) e reply h in
      (
        (vote d.rc).0,
        take_step-Taken engine (λ e. e) (msg "submit_council_vote") (msg "council") payload d.rc
            (vote d.rc).0 (ap (λ r. ((vote d.rc).0, r)) accepted),
        state,
        log,
        ended,
      )

  vote_payload-own :
      (args : Fields) (turn : CouncilTurn)
      → get (msg "member_id") (vote_payload turn args) ≡ str turn.seat.member_id
  unfolding vote_payload
  vote_payload-own args turn =
      rw (get-put (msg "member_id") (msg "member_id") (str turn.seat.member_id) args, text_eq_refl)
        refl

  vote_payload-given :
      (args : Fields) (turn : CouncilTurn) (key : Text)
      → text_eq (msg "member_id") key ≡ false
      → get key (vote_payload turn args) ≡ get key args
  unfolding vote_payload
  vote_payload-given args turn key h =
      rw (get-put (msg "member_id") key (str turn.seat.member_id) args, h) refl

  -- A vote that is answered as accepted was cast in a turn that was not over, states a vote and a
  -- rationale, and is the engine action that the run logged, with the fields of the arguments but
  -- under the seat's own member id, whatever they named; and the turn is over.
  pub submit_council_vote-Voted :
      (args : Fields) (d e : Desk host.World) (reply : CouncilReply)
      → submit_council_vote host engine args d ≡ (e, ok reply)
      → Voted args d e
  unfolding submit_council_vote
  submit_council_vote-Voted args d e reply h =
      let payload = vote_payload d.turn args in
      let (running, checked) =
        guard-passed d.turn.completed d e
          (msg "council vote already submitted for this opportunity") _ reply h in
      let (stated, cast) =
        guard-passed
          (is_empty (map_string (get (msg "vote") payload))
            || is_empty (map_string (get (msg "rationale") payload)))
          d e (msg "submit_council_vote requires vote and rationale")
          (cast_vote host engine payload d) reply checked in
      let (mid, taken, state, log, ended) = cast_vote-Taken payload d e reply cast in
      let (vote, rationale) =
        ||-false (is_empty (map_string (get (msg "vote") payload)))
          (is_empty (map_string (get (msg "rationale") payload))) stated in
      record {
        payload = payload;
        own_name = vote_payload-own args d.turn;
        as_given = vote_payload-given args d.turn;
        was_open = running;
        has_vote = vote;
        has_rationale = rationale;
        mid = mid;
        taken = taken;
        same_state = state;
        same_log = log;
        ended = ended;
      }
