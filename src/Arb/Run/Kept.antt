-- ===== src/Arb/Run/Kept.antt =====
-- run.go, the loop: what its handlers keep, it keeps; and where it stops.
use adjudication.Prelude.{
  ℕ, zero, suc, ◌+◌, ◌||◌, Option, none, some, List, [], ◌∷◌, Result, ok, err, ◌≡◌, refl, arith, ap,
  sym, subst, if-both, ◌⊎◌, inl, inr,
}
use adjudication.Prelude.Text.{Text, msg, text_eq}
use adjudication.Arb.Context.{RunContext, Opportunity}
use adjudication.Arb.Context.Host.{Host, Engine}
use adjudication.Arb.Context.Action.{Action, Keeps}
use adjudication.Json.{Fields}
use adjudication.Arb.Context.Action
use adjudication.Arb.Failures.{record_event}
use adjudication.Arb.Failures.Record.{IgnoresEvents, record_event_at_turn-Keeps}
use adjudication.Arb.Council.Preflight.{CouncilPreflightReplacement}
use adjudication.Arb.Run.{
  record_replacements, record_start, replacement_event, current_phase, Next, over, due, RunResult,
  Handler, execute_opportunity, after_next, round_done, after_round, run_case, next_opportunity,
  result_of,
}

module _ (host : Host) (engine : Engine) where
  -- A property that does not look at the number of the turn.
  abbrev pub IgnoresTurn : (RunContext host.World → Type 0) → Type 0
  IgnoresTurn P = (c : RunContext host.World) (n : ℕ) → P c → P (record c { turn = n })

  module _ (P : RunContext host.World → Type 0) (ignores : IgnoresTurn P)
      (attorney council : Handler host engine)
      (keeps_attorney : (o : Opportunity) → Keeps P (attorney o))
      (keeps_council : (o : Opportunity) → Keeps P (council o)) where
    execute_opportunity-Keeps :
        (o : Opportunity) → Keeps P (execute_opportunity host engine attorney council o)
    unfolding execute_opportunity
    execute_opportunity-Keeps o c h =
        let held = λ (r : RunContext host.World × Result Text (Unit {0})). P r.0 in
        if-both held (text_eq o.role (msg "plaintiff") || text_eq o.role (msg "defendant"))
          (attorney o c) _ (keeps_attorney o c h)
          (if-both held (text_eq o.role (msg "council")) (council o c) _ (keeps_council o c h) h)

    round_done-Keeps :
        (r : RunContext host.World × Result Text (Unit {0}))
        → P r.0
        → P (round_done host engine r).0
    unfolding round_done
    round_done-Keeps (d, ok u) h = h
    round_done-Keeps (d, err e) h = h

    after_next-Keeps :
        (next : Result Text Next) → Keeps P (after_next host engine attorney council next)
    unfolding after_next
    after_next-Keeps (err e) c h = h
    after_next-Keeps (ok (over reason)) c h = h
    after_next-Keeps (ok (due o)) c h =
        round_done-Keeps
          (execute_opportunity host engine attorney council o (record c { turn = c.turn + 1 }))
          (execute_opportunity-Keeps o (record c { turn = c.turn + 1 }) (ignores c (c.turn + 1) h))

    after_round-Keeps :
        (more : Action host.World (Option RunResult))
        (r : RunContext host.World × Result Text (Option RunResult))
        → Keeps P more
        → P r.0
        → P (after_round host engine more r).0
    unfolding after_round
    after_round-Keeps more (c, ok none) k h = k c h
    after_round-Keeps more (c, ok (some result)) k h = h
    after_round-Keeps more (c, err e) k h = h

    -- What the handlers of both sides keep, and no turn number touches, any number of rounds keeps.
    pub run_case-Keeps : (rounds : ℕ) → Keeps P (run_case host engine attorney council rounds)
    unfolding run_case
    run_case-Keeps zero c h = h
    run_case-Keeps (suc rounds) c h =
        after_round-Keeps (run_case host engine attorney council rounds)
          (after_next host engine attorney council (next_opportunity engine c.state) c)
          (run_case-Keeps rounds) (after_next-Keeps (next_opportunity engine c.state) c h)

  -- A result belongs to a state at which the engine has nothing more to do.
  abbrev pub Over : RunContext host.World → RunResult → Type 0
  Over d result =
      (reason : Text) × (next_opportunity engine d.state ≡ ok (over reason))
      × (result ≡ result_of d.state reason)

  round_done-none :
      (r : RunContext host.World × Result Text (Unit {0})) (d : RunContext host.World)
      (result : RunResult)
      → round_done host engine r ≡ (d, ok (some result))
      → Over d result
  unfolding round_done
  round_done-none (c, ok u) d result h = ground arith
  round_done-none (c, err e) d result h = ground arith

  after_next-Over :
      (attorney council : Handler host engine) (next : Result Text Next)
      (c d : RunContext host.World) (result : RunResult)
      → next_opportunity engine c.state ≡ next
      → after_next host engine attorney council next c ≡ (d, ok (some result))
      → Over d result
  unfolding after_next
  after_next-Over attorney council (err e) c d result p h = ground arith
  after_next-Over attorney council (ok (over reason)) c d result p h =
      let reported : result_of c.state reason ≡ result = ground arith in
      subst (λ e. Over e result) (ap (λ r. r.0) h) (reason, p, sym reported)
  after_next-Over attorney council (ok (due o)) c d result p h =
      round_done-none
        (execute_opportunity host engine attorney council o (record c { turn = c.turn + 1 })) d
        result h

  after_round-cases :
      (more : Action host.World (Option RunResult))
      (r : RunContext host.World × Result Text (Option RunResult)) (d : RunContext host.World)
      (result : RunResult)
      → after_round host engine more r ≡ (d, ok (some result))
      → (r ≡ (d, ok (some result)))
        ⊎ ((c : RunContext host.World) × (r ≡ (c, ok none)) × (more c ≡ (d, ok (some result))))
  unfolding after_round
  after_round-cases more (c, ok none) d result h = inr (c, refl, h)
  after_round-cases more (c, ok (some found)) d result h = inl h
  after_round-cases more (c, err e) d result h = ground arith

  -- Whatever the handlers and the number of rounds, a result is that of the state at which the engine
  -- says that the case is over.
  pub run_case-Over :
      (attorney council : Handler host engine) (rounds : ℕ) (c d : RunContext host.World)
      (result : RunResult)
      → run_case host engine attorney council rounds c ≡ (d, ok (some result))
      → Over d result
  unfolding run_case
  run_case-Over attorney council zero c d result h = ground arith
  run_case-Over attorney council (suc rounds) c d result h =
      elim (after_round-cases (run_case host engine attorney council rounds)
        (after_next host engine attorney council (next_opportunity engine c.state) c) d result h) [
          | inl now ↦
              after_next-Over attorney council (next_opportunity engine c.state) c d result refl now
          | inr (e, p, later) ↦ run_case-Over attorney council rounds e d result later
        ]

  continue-Keeps :
      (P : RunContext host.World → Type 0) (f : Unit {0} → Action host.World (Unit {0}))
      (r : RunContext host.World × Result Text (Unit {0}))
      → ((u : Unit {0}) → Keeps P (f u))
      → P r.0
      → P (Action.continue f r).0
  continue-Keeps P f (c, ok u) k h = k u c h
  continue-Keeps P f (c, err e) k h = h

  record_replacements-Keeps :
      (P : RunContext host.World → Type 0)
      → IgnoresEvents host engine P
      → (replacements : List CouncilPreflightReplacement)
      → Keeps P (record_replacements host engine replacements)
  unfolding record_replacements record_event
  record_replacements-Keeps P ignores [] c h = h
  record_replacements-Keeps P ignores (r ∷ replacements) c h =
      continue-Keeps P (λ u. record_replacements host engine replacements)
        (record_event host (msg "council_member_replaced") (msg "system") (current_phase c.state)
          (replacement_event host engine r) c)
        (λ u. record_replacements-Keeps P ignores replacements)
        (record_event_at_turn-Keeps host engine P ignores c.turn (msg "council_member_replaced")
          (msg "system") (current_phase c.state) (replacement_event host engine r) c h)

  -- The events that open a record touch nothing but events.
  pub record_start-Keeps :
      (P : RunContext host.World → Type 0)
      → IgnoresEvents host engine P
      → (replacements : List CouncilPreflightReplacement) (summary : Fields)
      → Keeps P (record_start host engine replacements summary)
  unfolding record_start record_event
  record_start-Keeps P ignores replacements summary c h =
      continue-Keeps P
        (λ u d.
          record_event host (msg "run_initialized") (msg "system") (current_phase d.state) summary
            d)
        (record_replacements host engine replacements c)
        (λ u d k.
          record_event_at_turn-Keeps host engine P ignores d.turn (msg "run_initialized")
            (msg "system") (current_phase d.state) summary d k)
        (record_replacements-Keeps P ignores replacements c h)
