-- ===== src/Arb/Council/Run.antt =====
-- councilapi.go, `executeCouncilAPIOpportunity`, from the moment its turn stands: what the run does
-- when it wakes; council.go, `removeCouncilMember`. The message of a
-- timeout leaves out the length of the timeout.
use adjudication.Prelude.{Option, none, some, ◌++◌, Result, ok, err}
use adjudication.Prelude.Text.{Text, codes, msg}
use adjudication.Arb.Context.Host.{Host, Engine}
use adjudication.Arb.Failures.{fail_opportunity}
use adjudication.Arb.Council.Turn.{
  CouncilTurn, Desk, finish_turn, on_run, details_of, signal_changed,
}
use adjudication.Arb.Council.Server.{CouncilApi, desk_of, put_back, clear_turn}

-- The branches of the `select`; any that is ready may be taken.
pub data Wake : Type 0 where
  cancelled : Text → Wake
  timer : Wake
  finished : Option Text → Wake

module _ (host : Host) (engine : Engine) where
  unfoldable pub after_removal :
      Desk host.World × Result Text (Unit {0}) → Desk host.World × Result Text (Unit {0})
  unfolding signal_changed
  after_removal (d, ok u) = (record d { version = signal_changed d.version }, ok tt)
  after_removal (d, err e) = (d, err e)

  unfoldable pub remove_council_member :
      Text → Text → Desk host.World → Desk host.World × Result Text (Unit {0})
  unfolding after_removal on_run fail_opportunity details_of
  remove_council_member reason cause d = after_removal (
      on_run host engine
        (fail_opportunity host engine d.turn.opportunity reason cause (details_of d.turn.seat)) d)

  unfoldable pub wake_on_desk : Wake → Desk host.World → Desk host.World × Result Text (Unit {0})
  unfolding remove_council_member finish_turn
  wake_on_desk (cancelled e) d = (d, err e)
  wake_on_desk timer d =
      let text =
        codes "council member " ++ (d.turn.seat.member_id ++ codes " opportunity timed out") in
      remove_council_member (msg "deadline_expired") text (finish_turn host engine (some text) d)
  wake_on_desk (finished none) d = (d, ok tt)
  wake_on_desk (finished (some e)) d = remove_council_member (msg "attempts_exhausted") e d

  -- The end of the turn, with the deferred `clearTurn`.
  unfoldable pub end_turn :
      Wake → CouncilTurn → CouncilApi host.World → CouncilApi host.World × Result Text (Unit {0})
  unfolding wake_on_desk put_back desk_of clear_turn
  end_turn wake turn api =
      let (d, r) = wake_on_desk wake (desk_of host engine api turn) in
      (clear_turn host engine (put_back host engine d api), r)
