-- ===== src/Arb/Council/Attempts/Tools.antt =====
-- councilapi.go, `callCouncilToolLocked`: what a tool leaves of a turn that waits.
use adjudication.Prelude.{Bool, true, false, ◌||◌, none, Result, ok, err, inl, inr, if-both}
use adjudication.Prelude.Int.{ℤ}
use adjudication.Prelude.Text.{Text, msg, text_eq, is_empty}
use adjudication.Json.{Fields, get, required_int_param}
use adjudication.Json.Print.{map_string}
use adjudication.Arb.Context.{EvidenceMeta}
use adjudication.Arb.Context.Host.{Host, Engine}
use adjudication.Arb.Certificate.Step.{take_step}
use adjudication.Arb.Evidence.Registry.{stat_evidence}
use adjudication.Arb.Evidence.Read.{EvidenceReadBudget, EvidenceRange}
use adjudication.Arb.Failures.{record_event_at_turn}
use adjudication.Arb.Council.Turn.{Desk, signal_changed, on_run}
use adjudication.Arb.Council.Tools.{
  CouncilReply, case_view, evidence_list, call_council_tool, list_visible_evidence,
  submit_council_vote, cast_vote, vote_payload, vote_event, range_event, after_vote_step,
  after_vote_event, after_range_event, after_read, read_with, stat_reply, failed,
}
use adjudication.Arb.Council.Attempts.{Open, TurnValid, finish_turn-Closed}

module _ (host : Host) (engine : Engine) where
  -- After a tool: an error leaves the turn waiting, and a reply leaves it waiting or ended.
  abbrev pub Tooled : Desk host.World × Result Text CouncilReply → Type 0
  Tooled (d, ok reply) = TurnValid d.turn
  Tooled (d, err e) = Open d.turn

  after_vote_event-Tooled :
      (r : Desk host.World × Result Text (Unit {0}))
      → Open r.0.turn
      → Tooled (after_vote_event host engine r)
  unfolding after_vote_event
  after_vote_event-Tooled (d, ok u) h =
      inr (finish_turn-Closed host engine none d h.running h.unsent h.counts)
  after_vote_event-Tooled (d, err e) h = h

  after_vote_step-Tooled :
      (payload : Fields) (r : Desk host.World × Result Text (Unit {0}))
      → Open r.0.turn
      → Tooled (after_vote_step host engine payload r)
  unfolding after_vote_step on_run
  after_vote_step-Tooled payload (d, ok u) h =
      after_vote_event-Tooled
        (on_run host engine
          (record_event_at_turn host d.turn.turn_number (msg "council_vote") (msg "council")
            d.turn.opportunity.phase (vote_event d.turn payload))
          (record d { version = signal_changed d.version }))
        h
  after_vote_step-Tooled payload (d, err e) h = h

  cast_vote-Tooled :
      (payload : Fields) (d : Desk host.World)
      → Open d.turn
      → Tooled (cast_vote host engine payload d)
  unfolding cast_vote on_run
  cast_vote-Tooled payload d h =
      after_vote_step-Tooled payload
        (on_run host engine
          (take_step engine (λ e. e) (msg "submit_council_vote") (msg "council") payload) d)
        h

  submit_council_vote-Tooled :
      (args : Fields) (d : Desk host.World)
      → Open d.turn
      → Tooled (submit_council_vote host engine args d)
  unfolding submit_council_vote
  submit_council_vote-Tooled args d h =
      let payload = vote_payload d.turn args in
      let rest =
        if-both Tooled
          (is_empty (map_string (get (msg "vote") payload))
            || is_empty (map_string (get (msg "rationale") payload)))
          (d, err (msg "submit_council_vote requires vote and rationale"))
          (cast_vote host engine payload d) h (cast_vote-Tooled payload d h) in
      if-both Tooled d.turn.completed
        (d, err (msg "council vote already submitted for this opportunity")) _ h rest

  after_range_event-Tooled :
      (r : EvidenceRange) (s : Desk host.World × Result Text (Unit {0}))
      → Open s.0.turn
      → Tooled (after_range_event host engine r s)
  unfolding after_range_event
  after_range_event-Tooled r (d, ok u) h = inl h
  after_range_event-Tooled r (d, err e) h = h

  after_read-Tooled :
      (d : Desk host.World) (r : EvidenceReadBudget × Result Text EvidenceRange)
      → Open d.turn
      → Tooled (after_read host engine d r)
  unfolding after_read on_run
  after_read-Tooled d (budget, ok r) h =
      after_range_event-Tooled r
        (on_run host engine
          (record_event_at_turn host d.turn.turn_number (msg "evidence_read") (msg "council")
            d.turn.opportunity.phase (range_event d.turn r))
          (record d { turn = record d.turn { evidence_budget = budget } }))
        (record { running = h.running; unsent = h.unsent; spare = h.spare; counts = h.counts })
  after_read-Tooled d (budget, err e) h = record {
    running = h.running;
    unsent = h.unsent;
    spare = h.spare;
    counts = h.counts;
  }

  read_with-Tooled :
      (args : Fields) (d : Desk host.World) (offset len : Result Text ℤ)
      → Open d.turn
      → Tooled (read_with host engine args d offset len)
  unfolding read_with
  read_with-Tooled args d (ok offset) (ok len) h = after_read-Tooled d _ h
  read_with-Tooled args d (ok offset) (err e) h = h
  read_with-Tooled args d (err e) len h = h

  stat_reply-Tooled :
      (d : Desk host.World) (r : Result Text EvidenceMeta)
      → Open d.turn
      → Tooled (stat_reply host engine d r)
  unfolding stat_reply
  stat_reply-Tooled d (ok meta) h = inl h
  stat_reply-Tooled d (err e) h = h

  abbrev pub Called : Desk host.World × Result Text CouncilReply × Bool → Type 0
  Called r = Tooled (r.0, r.1)

  pub call_council_tool-Called :
      (tool : Text) (args : Fields) (d : Desk host.World)
      → Open d.turn
      → Called (call_council_tool host engine tool args d)
  unfolding call_council_tool
  call_council_tool-Called tool args d h =
      let stat =
        stat_reply host engine d
          (stat_evidence host d.rc (map_string (get (msg "evidence_id") args))) in
      let stat_h =
        stat_reply-Tooled d (stat_evidence host d.rc (map_string (get (msg "evidence_id") args)))
          h in
      let read =
        read_with host engine args d (required_int_param args (msg "offset"))
          (required_int_param args (msg "length")) in
      let read_h =
        read_with-Tooled args d (required_int_param args (msg "offset"))
          (required_int_param args (msg "length")) h in
      let vote = submit_council_vote host engine args d in
      let vote_h = submit_council_vote-Tooled args d h in
      if-both Called (text_eq tool (msg "get_case")) (d, ok case_view, false) _ (inl h)
        (if-both Called (text_eq tool (msg "list_evidence"))
          (d, ok (evidence_list (list_visible_evidence d.rc.evidence)), false) _ (inl h)
          (if-both Called (text_eq tool (msg "stat_evidence")) (stat.0, stat.1, false) _ stat_h
            (if-both Called (text_eq tool (msg "read_evidence_range")) (read.0, read.1, false) _
              read_h
              (if-both Called (text_eq tool (msg "submit_council_vote"))
                (vote.0, vote.1, failed host engine vote.1) (d, err (msg "unknown tool"), true)
                vote_h h))))
