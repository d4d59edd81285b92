-- ===== src/Arb/Lawyer/Session.antt =====
-- lawyerapi.go, `executeAttorneyOpportunity`: a turn, from its start, through the requests that the lock
-- lets through, to its end; and `callLawyerToolLocked`, whose tools but those that read evidence and `submit_decision` are an argument.
-- The prompt is left out.
use adjudication.Prelude.{
  Bool, true, false, not, Option, none, some, List, [], ◌∷◌, Result, ok, err, ◌++◌, if◌then◌else◌,
}
use adjudication.Prelude.Text.{Text, codes, msg, text_eq}
use adjudication.Json.{Fields}
use adjudication.Arb.Context.{Opportunity}
use adjudication.Arb.Context.Host.{Host, Engine}
use adjudication.Arb.Lawyer.Feedback.{CharLimitPatterns}
use adjudication.Arb.Lawyer.Turn.{LawyerTurn, LawyerDesk, new_lawyer_turn}
use adjudication.Arb.Lawyer.Decision.{submit_decision}
use adjudication.Arb.Lawyer.Reading.{LawyerReply, decision_accepted, other_reply, reading_tool}
use adjudication.Arb.Lawyer.Server.{
  LawyerApi, LawyerDoRequest, Called, LawyerWake, is_attorney, start_lawyer_turn, handle_lawyer_do,
  end_lawyer_turn,
}

module _ (host : Host) (engine : Engine) (patterns : CharLimitPatterns) {A : Type 0} where
  unfoldable pub decision_reply :
      LawyerDesk host.World × Result Text (Unit {0}) → Called host.World (LawyerReply A)
  decision_reply (d, ok u) = (d, ok decision_accepted, false, true)
  decision_reply (d, err e) = (d, err e, true, true)

  unfoldable pub call_lawyer_tool :
      (Text → Fields → LawyerDesk host.World → Called host.World (LawyerReply A))
      → Text
      → Fields
      → LawyerDesk host.World
      → Called host.World (LawyerReply A)
  unfolding decision_reply submit_decision reading_tool
  call_lawyer_tool other tool args d =
      if text_eq tool (msg "submit_decision")
      then decision_reply (submit_decision host engine args d)
      else reading_tool host A other tool args d

  module _ (status : A)
      (other : Text → Fields → LawyerDesk host.World → Called host.World (LawyerReply A)) where
    -- The requests in the order in which they get the lock, each with whether it comes too late.
    unfoldable pub serve_lawyers :
        List (Bool × LawyerDoRequest) → LawyerApi host.World → LawyerApi host.World
    unfolding handle_lawyer_do call_lawyer_tool
    serve_lawyers [] api = api
    serve_lawyers ((expired, req) ∷ calls) api =
        serve_lawyers calls
          (handle_lawyer_do host engine patterns (other_reply status) (call_lawyer_tool other)
            expired req api).0

    -- No turn is left to end where the server has cleared it.
    unfoldable pub end_served :
        LawyerWake
        → Option LawyerTurn
        → LawyerApi host.World
        → LawyerApi host.World × Result Text (Unit {0})
    unfolding end_lawyer_turn
    end_served wake none api = (api, ok tt)
    end_served wake (some turn) api = end_lawyer_turn host engine patterns wake turn api

    unfoldable pub after_start :
        List (Bool × LawyerDoRequest)
        → LawyerWake
        → LawyerApi host.World × Result Text (Unit {0})
        → LawyerApi host.World × Result Text (Unit {0})
    unfolding serve_lawyers end_served
    after_start calls wake (api, err e) = (api, err e)
    after_start calls wake (api, ok u) =
        let served = serve_lawyers calls api in end_served wake served.active served

    unfoldable pub execute_attorney_opportunity :
        List (Bool × LawyerDoRequest)
        → LawyerWake
        → Opportunity
        → LawyerApi host.World
        → LawyerApi host.World × Result Text (Unit {0})
    unfolding after_start start_lawyer_turn new_lawyer_turn is_attorney
    execute_attorney_opportunity calls wake o api =
        let executed = after_start calls wake (start_lawyer_turn (new_lawyer_turn api.rc o) api) in
        if not (is_attorney o.role)
        then (api, err (codes "unsupported attorney role \"" ++ (o.role ++ codes "\"")))
        else executed
