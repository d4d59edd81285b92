-- ===== src/Arb/Council/Kept.antt =====
-- councilapi.go: what every request and every end of a turn keeps.
pub mod Handlers
use adjudication.Prelude.{
  Bool, true, false, not, ◌++◌, ◌&&◌, ◌||◌, Option, none, some, List, [], Result, ok, err, ◌≡◌,
  refl, if-both, Bool-cases, Result-cases, inl, inr, if◌then◌else◌,
}
use adjudication.Prelude.Int.{ℤ, pos, leb_ℤ}
use adjudication.Prelude.Text.{Text, codes, msg, text_eq, is_empty}
use adjudication.Json.{Fields, str, get, put, required_int_param}
use adjudication.Json.Print.{map_string}
use adjudication.Arb.Context.{RunContext, EvidenceMeta}
use adjudication.Arb.Context.Host.{Host, Engine}
use adjudication.Arb.Context.Action.{Action, Keeps}
use adjudication.Arb.Certificate.Step.{take_step}
use adjudication.Arb.Evidence.Registry.{stat_evidence}
use adjudication.Arb.Evidence.Read.{EvidenceReadBudget, EvidenceRange}
use adjudication.Arb.Failures.{fail_opportunity, step_failure, record_event_at_turn}
use adjudication.Arb.Failures.Record.{
  IgnoresEvents, record_event_at_turn-Keeps, fail_opportunity-Keeps,
}
use adjudication.Arb.Council.Turn.{
  CouncilTurn, Desk, details_of, signal_changed, finish_turn, finish_failed, on_run, fail_turn,
  consume_attempt, exhaust_if_spent, exhaust, counted, feedback, call_reason, joined_feedback,
  exhausted_details,
}
use adjudication.Arb.Council.Tools.{
  CouncilReply, call_council_tool, submit_council_vote, cast_vote, vote_payload, vote_event,
  range_event, after_vote_step, after_vote_event, after_range_event, after_read, read_with,
  stat_reply,
}
use adjudication.Arb.Council.Server.{
  CouncilApi, CouncilDoRequest, CouncilFailRequest, do_on_desk, fail_on_desk, Answer, desk_of,
  put_back, time_out, tool_answer, with_turn, handle_council_do, handle_council_fail,
}

module _ (host : Host) (engine : Engine) where
  -- What events and the two kinds of step that a council turn takes leave true.
  pub record Stable (P : RunContext host.World → Type 0) : Type 0 where
    pub ignores : IgnoresEvents host engine P
    pub failures : (payload : Fields) → Keeps P (step_failure host engine payload)
    pub votes :
        (payload : Fields)
        → Keeps P (take_step engine (λ e. e) (msg "submit_council_vote") (msg "council") payload)

  module _ (P : RunContext host.World → Type 0) (stable : Stable P) where
    -- Of a desk with a result.
    abbrev Holds : {A : Type 0} → Desk host.World × A → Type 0
    Holds r = P r.0.rc

    pub on_run-Keeps :
        {A : Type 0} (m : Action host.World A)
        → Keeps P m
        → (d : Desk host.World) → P d.rc
        → Holds (on_run host engine m d)
    unfolding on_run
    on_run-Keeps m k d h = k d.rc h

    pub finish_turn-Keeps :
        (outcome : Option Text) (d : Desk host.World)
        → P d.rc
        → P (finish_turn host engine outcome d).rc
    unfolding finish_turn
    finish_turn-Keeps outcome d h = elim (Bool-cases d.turn.completed) [
      | inl p ↦ rw p h
      | inr p ↦ rw p h
    ]

    finish_failed-Keeps :
        (joined : Text → Text) (r : Desk host.World × Result Text (Unit {0}))
        → Holds r
        → Holds (finish_failed host engine joined r)
    unfolding finish_failed
    finish_failed-Keeps joined (d, ok u) h = finish_turn-Keeps none d h
    finish_failed-Keeps joined (d, err e) h = finish_turn-Keeps (some (joined e)) d h

    pub fail_turn-Keeps :
        (joined : Text → Text) (reason message : Text) (details : Fields) (d : Desk host.World)
        → P d.rc
        → Holds (fail_turn host engine joined reason message details d)
    unfolding fail_turn on_run
    fail_turn-Keeps joined reason message details d h =
        let run =
          on_run host engine
            (fail_opportunity host engine d.turn.opportunity reason message details) d in
        finish_failed-Keeps joined run (
          fail_opportunity-Keeps host engine P stable.ignores stable.failures d.turn.opportunity
            reason message details d.rc h)

    pub consume_attempt-Keeps :
        (reason : Text) (d : Desk host.World)
        → P d.rc
        → Holds (consume_attempt host engine reason d)
    unfolding consume_attempt exhaust_if_spent exhaust
    consume_attempt-Keeps reason d h =
        let next : Desk host.World = record d {
          turn = counted host engine (call_reason host engine reason) d.turn;
        } in
        let text = feedback host engine (call_reason host engine reason) next.turn in
        let failed =
          fail_turn-Keeps (λ e. joined_feedback host engine text (err e)) (msg "attempts_exhausted")
            text (exhausted_details host engine next.turn) next h in
        elim (Bool-cases (leb_ℤ next.turn.attempts_remaining (pos 0))) [
          | inl p ↦ rw p failed
          | inr p ↦ rw p h
        ]

    after_vote_event-Keeps :
        (r : Desk host.World × Result Text (Unit {0}))
        → Holds r
        → Holds (after_vote_event host engine r)
    unfolding after_vote_event
    after_vote_event-Keeps (d, ok u) h = finish_turn-Keeps none d h
    after_vote_event-Keeps (d, err e) h = h

    after_vote_step-Keeps :
        (payload : Fields) (r : Desk host.World × Result Text (Unit {0}))
        → Holds r
        → Holds (after_vote_step host engine payload r)
    unfolding after_vote_step on_run
    after_vote_step-Keeps payload (d, ok u) h =
        after_vote_event-Keeps
          (on_run host engine
            (record_event_at_turn host d.turn.turn_number (msg "council_vote") (msg "council")
              d.turn.opportunity.phase (vote_event d.turn payload))
            (record d { version = signal_changed d.version }))
          (record_event_at_turn-Keeps host engine P stable.ignores d.turn.turn_number
            (msg "council_vote") (msg "council") d.turn.opportunity.phase
            (vote_event d.turn payload) d.rc h)
    after_vote_step-Keeps payload (d, err e) h = h

    cast_vote-Keeps :
        (payload : Fields) (d : Desk host.World) → P d.rc → Holds (cast_vote host engine payload d)
    unfolding cast_vote
    cast_vote-Keeps payload d h =
        let vote = take_step engine (λ e. e) (msg "submit_council_vote") (msg "council") payload in
        after_vote_step-Keeps payload (on_run host engine vote d)
          (on_run-Keeps vote (stable.votes payload) d h)

    submit_council_vote-Keeps :
        (args : Fields) (d : Desk host.World)
        → P d.rc
        → Holds (submit_council_vote host engine args d)
    unfolding submit_council_vote
    submit_council_vote-Keeps args d h =
        let payload = vote_payload d.turn args in
        let cast = cast_vote-Keeps payload d h in
        let held = λ (r : Desk host.World × Result Text CouncilReply). P r.0.rc in
        let rest =
          if-both held
            (is_empty (map_string (get (msg "vote") payload))
              || is_empty (map_string (get (msg "rationale") payload)))
            (d, err (msg "submit_council_vote requires vote and rationale"))
            (cast_vote host engine payload d) h cast in
        if-both held d.turn.completed
          (d, err (msg "council vote already submitted for this opportunity")) _ h rest

    after_range_event-Keeps :
        (r : EvidenceRange) (s : Desk host.World × Result Text (Unit {0}))
        → Holds s
        → Holds (after_range_event host engine r s)
    unfolding after_range_event
    after_range_event-Keeps r (d, ok u) h = h
    after_range_event-Keeps r (d, err e) h = h

    after_read-Keeps :
        (d : Desk host.World) (r : EvidenceReadBudget × Result Text EvidenceRange)
        → P d.rc
        → Holds (after_read host engine d r)
    unfolding after_read on_run
    after_read-Keeps d (budget, ok r) h =
        after_range_event-Keeps r
          (on_run host engine
            (record_event_at_turn host d.turn.turn_number (msg "evidence_read") (msg "council")
              d.turn.opportunity.phase (range_event d.turn r))
            (record d { turn = record d.turn { evidence_budget = budget } }))
          (record_event_at_turn-Keeps host engine P stable.ignores d.turn.turn_number
            (msg "evidence_read") (msg "council") d.turn.opportunity.phase (range_event d.turn r)
            d.rc h)
    after_read-Keeps d (budget, err e) h = h

    read_with-Keeps :
        (args : Fields) (d : Desk host.World) (offset len : Result Text ℤ)
        → P d.rc
        → Holds (read_with host engine args d offset len)
    unfolding read_with
    read_with-Keeps args d (ok offset) (ok len) h = after_read-Keeps d _ h
    read_with-Keeps args d (ok offset) (err e) h = h
    read_with-Keeps args d (err e) len h = h

    stat_reply-Keeps :
        (d : Desk host.World) (r : Result Text EvidenceMeta)
        → P d.rc
        → Holds (stat_reply host engine d r)
    unfolding stat_reply
    stat_reply-Keeps d (ok meta) h = h
    stat_reply-Keeps d (err e) h = h

    pub call_council_tool-Keeps :
        (tool : Text) (args : Fields) (d : Desk host.World)
        → P d.rc
        → P (call_council_tool host engine tool args d).0.rc
    unfolding call_council_tool
    call_council_tool-Keeps tool args d h =
        let stat =
          stat_reply-Keeps d (stat_evidence host d.rc (map_string (get (msg "evidence_id") args)))
            h in
        let read =
          read_with-Keeps args d (required_int_param args (msg "offset"))
            (required_int_param args (msg "length")) h in
        let vote = submit_council_vote-Keeps args d h in
        elim (Bool-cases (text_eq tool (msg "get_case"))) [
          | inl p ↦ rw p h
          | inr p ↦ elim (Bool-cases (text_eq tool (msg "list_evidence"))) [
            | inl q ↦ rw (p, q) h
            | inr q ↦ elim (Bool-cases (text_eq tool (msg "stat_evidence"))) [
              | inl r ↦ rw (p, q, r) stat
              | inr r ↦ elim (Bool-cases (text_eq tool (msg "read_evidence_range"))) [
                | inl s ↦ rw (p, q, r, s) read
                | inr s ↦ elim (Bool-cases (text_eq tool (msg "submit_council_vote"))) [
                  | inl t ↦ rw (p, q, r, s, t) vote
                  | inr t ↦ rw (p, q, r, s, t) h
                ]
              ]
            ]
          ]
        ]
