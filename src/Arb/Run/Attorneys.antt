-- ===== src/Arb/Run/Attorneys.antt =====
-- run.go: the attorneys' opportunities, carried out over the lawyers' API. Between two of them the server has
-- no active turn; its version, which only tells waiting clients of a change, starts anew.
use adjudication.Prelude.{Bool, false, none, List, []}
use adjudication.Prelude.Text.{Text}
use adjudication.Json.{Fields}
use adjudication.Arb.Context.{RunContext, Opportunity}
use adjudication.Arb.Context.Host.{Host, Engine}
use adjudication.Arb.Context.Action.{Keeps}
use adjudication.Arb.Certificate.Replay.{AnswersState}
use adjudication.Arb.Certificate.Sound.{Certified}
use adjudication.Arb.Run.{Handler}
use adjudication.Arb.Lawyer.Feedback.{CharLimitPatterns}
use adjudication.Arb.Lawyer.Turn.{LawyerDesk}
use adjudication.Arb.Lawyer.Server.{LawyerApi, LawyerDoRequest, Called, LawyerWake}
use adjudication.Arb.Lawyer.Reading.{LawyerReply}
use adjudication.Arb.Lawyer.Session.{execute_attorney_opportunity}
use adjudication.Arb.Lawyer.Right.{Right}
use adjudication.Arb.Lawyer.Certified.{execute_attorney_opportunity-Certified}

module _ (host : Host) (engine : Engine) (patterns : CharLimitPatterns) {A : Type 0} (status : A)
    (other : Text → Fields → LawyerDesk host.World → Called host.World (LawyerReply A)) where
  abbrev idle_server : RunContext host.World → LawyerApi host.World
  idle_server c = record {
    rc = c;
    active = none;
    version = 0;
    terminal = false;
    terminal_reason = [];
  }

  -- What clients and timers do in each opportunity is an argument.
  unfoldable pub attorney_handler :
      (Opportunity → List (Bool × LawyerDoRequest) × LawyerWake) → Handler host engine
  unfolding execute_attorney_opportunity
  attorney_handler schedule o c =
      let (api, r) =
        execute_attorney_opportunity host engine patterns status other (schedule o).0 (schedule o).1
          o (idle_server c) in
      (api.rc, r)

  pub attorney_handler-Certified :
      (legal : AnswersState engine)
      → ((tool : Text) (args : Fields) (d : LawyerDesk host.World)
          → Right host engine legal d
          → Right host engine legal (other tool args d).0)
      → (schedule : Opportunity → List (Bool × LawyerDoRequest) × LawyerWake) (o : Opportunity)
      → Keeps (Certified engine) (attorney_handler schedule o)
  unfolding attorney_handler
  attorney_handler-Certified legal other_right schedule o c h =
      execute_attorney_opportunity-Certified host engine legal patterns status other other_right
        (schedule o).0 (schedule o).1 o (idle_server c) h
