-- ===== src/Arb/Lawyer/Certified.antt =====
-- lawyerapi.go: attorneys' opportunities keep the log of actions in step with the state.
use adjudication.Prelude.{
  Bool, not, Option, none, some, List, [], ◌∷◌, Result, ok, err, ◌≡◌, refl, if-both, if-false,
  subst, Bool-cases, inl, inr,
}
use adjudication.Prelude.Text.{Text, msg, is_empty}
use adjudication.Json.{Fields}
use adjudication.Arb.Context.{Opportunity}
use adjudication.Arb.Context.Host.{Host, Engine}
use adjudication.Arb.Context.Action.{Keeps}
use adjudication.Arb.Certificate.Replay.{AnswersState}
use adjudication.Arb.Certificate.Sound.{Certified, take_step-Keeps}
use adjudication.Arb.Failures.{step_failure, refused_failure}
use adjudication.Arb.Council.Turn.{signal_changed}
use adjudication.Arb.Lawyer.Feedback.{CharLimitPatterns}
use adjudication.Arb.Lawyer.Turn.{LawyerTurn, LawyerDesk, new_lawyer_turn}
use adjudication.Arb.Lawyer.Server.{
  LawyerApi, LawyerDoRequest, Called, LawyerWake, is_attorney, start_lawyer_turn, is_running,
}
use adjudication.Arb.Lawyer.Reading.{LawyerReply, other_reply}
use adjudication.Arb.Lawyer.Session.{
  call_lawyer_tool, serve_lawyers, end_served, after_start, execute_attorney_opportunity,
}
use adjudication.Arb.Lawyer.Kept.{
  ActiveSound, SoundApi, handle_lawyer_do-Sound, end_lawyer_turn-Keeps,
}
use adjudication.Arb.Lawyer.Right.{Named, Right, is_attorney-is_empty, call_lawyer_tool-Right}

module _ (host : Host) (engine : Engine) (legal : AnswersState engine) where
  module _ (patterns : CharLimitPatterns) {A : Type 0} (status : A)
      (other : Text → Fields → LawyerDesk host.World → Called host.World (LawyerReply A))
      (other_right : (tool : Text) (args : Fields) (d : LawyerDesk host.World)
        → Right host engine legal d
        → Right host engine legal (other tool args d).0) where
    failures : (payload : Fields) → Keeps (Certified engine) (step_failure host engine payload)
    unfolding msg step_failure is_empty
    failures payload =
        take_step-Keeps engine legal refused_failure (msg "fail_opportunity") (msg "system") payload
          refl refl

    abbrev RightApi : LawyerApi host.World → Type 0
    RightApi = SoundApi host engine patterns (Certified engine) Named (λ c w events h. h) failures

    serve_lawyers-Right :
        (calls : List (Bool × LawyerDoRequest)) (api : LawyerApi host.World)
        → RightApi api
        → RightApi (serve_lawyers host engine patterns status other calls api)
    unfolding serve_lawyers
    serve_lawyers-Right [] api h = h
    serve_lawyers-Right ((expired, req) ∷ calls) api h = serve_lawyers-Right calls _ (
        handle_lawyer_do-Sound host engine patterns (Certified engine) Named (λ c w events h. h)
          failures (call_lawyer_tool host engine patterns other)
          (call_lawyer_tool-Right host engine legal patterns status other other_right)
          (other_reply status) expired req api h)

    end_served-Right :
        (wake : LawyerWake) (active : Option LawyerTurn) (api : LawyerApi host.World)
        → api.active ≡ active
        → RightApi api
        → Certified engine (end_served host engine patterns status other wake active api).0.rc
    unfolding end_served
    end_served-Right wake none api same (h, r) = h
    end_served-Right wake (some turn) api same (h, r) =
        end_lawyer_turn-Keeps host engine patterns (Certified engine) Named (λ c w events h. h)
          failures wake turn api h
          (subst
            (ActiveSound host engine patterns (Certified engine) Named (λ c w events h. h) failures)
            same r)

    after_start-Right :
        (calls : List (Bool × LawyerDoRequest)) (wake : LawyerWake)
        (r : LawyerApi host.World × Result Text (Unit {0}))
        → RightApi r.0
        → Certified engine (after_start host engine patterns status other calls wake r).0.rc
    unfolding after_start
    after_start-Right calls wake (api, err e) (h, r) = h
    after_start-Right calls wake (api, ok u) h =
        let served = serve_lawyers host engine patterns status other calls api in
        end_served-Right wake served.active served refl (serve_lawyers-Right calls api h)

    -- For an engine whose accepted answers hold a state, and other tools that keep the log in step
    -- with the state, an attorney's opportunity, with any requests and any end, from a run whose
    -- logged actions replay to its state, leaves a run whose logged actions replay to its state.
    pub execute_attorney_opportunity-Certified :
        (calls : List (Bool × LawyerDoRequest)) (wake : LawyerWake) (o : Opportunity)
        (api : LawyerApi host.World)
        → Certified engine api.rc
        → Certified engine
            (execute_attorney_opportunity host engine patterns status other calls wake o api).0.rc
    unfolding execute_attorney_opportunity start_lawyer_turn after_start new_lawyer_turn
    execute_attorney_opportunity-Certified calls wake o api h =
        elim (Bool-cases (not (is_attorney o.role))) [
          | inl p ↦ rw p h
          | inr p ↦
              let started = record api {
                active = some (new_lawyer_turn api.rc o);
                version = signal_changed api.version;
              } in
              if-false
                (λ (r : LawyerApi host.World × Result Text (Unit {0})). Certified engine r.0.rc)
                (not (is_attorney o.role)) _ _ p
                (if-both
                  (λ (r : LawyerApi host.World × Result Text (Unit {0})).
                    Certified engine
                      (after_start host engine patterns status other calls wake r).0.rc)
                  (is_running api.active) (api, err (msg "lawyerapi already has an active turn"))
                  (started, ok tt) h
                  (after_start-Right calls wake (started, ok tt)
                    (h, is_attorney-is_empty o.role p)))
        ]
