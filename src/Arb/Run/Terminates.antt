-- ===== src/Arb/Run/Terminates.antt =====
-- run.go, the loop: how many rounds it needs.
use adjudication.Prelude.{
  ℕ, zero, suc, ◌+◌, ◌<◌, Option, none, some, Result, ok, err, ◌≡◌, refl, arith, ap, subst,
}
use adjudication.Prelude.Text.{Text}
use adjudication.Arb.Context.{RunContext, Opportunity}
use adjudication.Arb.Context.Host.{Host, Engine}
use adjudication.Arb.Run.{
  Next, over, due, RunResult, Handler, execute_opportunity, after_next, round_done, after_round,
  run_case, next_opportunity,
}

module _ (host : Host) (engine : Engine) (attorney council : Handler host engine) where
  abbrev Round : Type 0
  Round = RunContext host.World × Result Text (Option RunResult)

  -- An opportunity that is due and carried out brings the case nearer to its end.
  abbrev pub Progress : (RunContext host.World → ℕ) → Type 0
  Progress left =
      (o : Opportunity) (c d : RunContext host.World)
      → next_opportunity engine c.state ≡ ok (due o)
      → execute_opportunity host engine attorney council o (record c { turn = c.turn + 1 })
        ≡ (d, ok tt)
      → left d < left c

  round_done-next :
      (r : RunContext host.World × Result Text (Unit {0})) (d : RunContext host.World)
      → round_done host engine r ≡ (d, ok none)
      → r ≡ (d, ok tt)
  unfolding round_done
  round_done-next (c, ok u) d h = ap (λ r. (r.0, ok tt)) h
  round_done-next (c, err e) d h = ground arith

  after_next-due :
      (next : Result Text Next) (c d : RunContext host.World)
      → after_next host engine attorney council next c ≡ (d, ok none)
      → (o : Opportunity) × (next ≡ ok (due o))
        × (execute_opportunity host engine attorney council o (record c { turn = c.turn + 1 })
            ≡ (d, ok tt))
  unfolding after_next
  after_next-due (err e) c d h = ground arith
  after_next-due (ok (over reason)) c d h = ground arith
  after_next-due (ok (due o)) c d h = (
    o,
    refl,
    round_done-next
        (execute_opportunity host engine attorney council o (record c { turn = c.turn + 1 })) d h,
  )

  -- A loop that has come to an end, with a result or an error, and that more rounds would not change.
  abbrev pub Ends : ℕ → RunContext host.World → Type 0
  Ends rounds c =
      (¬ (run_case host engine attorney council rounds c).1 ≡ ok none)
      × ((extra : ℕ)
          → run_case host engine attorney council (rounds + extra) c
            ≡ run_case host engine attorney council rounds c)

  after_round-Ends :
      (rounds : ℕ) (r : Round)
      → ((d : RunContext host.World) → r ≡ (d, ok none) → Ends rounds d)
      → (¬ (after_round host engine (run_case host engine attorney council rounds) r).1 ≡ ok none)
        × ((extra : ℕ)
            → after_round host engine (run_case host engine attorney council (rounds + extra)) r
              ≡ after_round host engine (run_case host engine attorney council rounds) r)
  unfolding after_round
  after_round-Ends rounds (c, ok none) k = k c refl
  after_round-Ends rounds (c, ok (some result)) k = (λ h. ground arith, λ extra. refl)
  after_round-Ends rounds (c, err e) k = (λ h. ground arith, λ extra. refl)

  -- Where every opportunity that is due and carried out lowers a number of what is left, one round
  -- of the loop more than that number is enough: the loop ends with a result or an error, the same
  -- for any more rounds.
  pub run_case-Ends :
      (left : RunContext host.World → ℕ)
      → Progress left
      → (rounds : ℕ) (c : RunContext host.World) → left c < rounds
      → Ends rounds c
  unfolding run_case
  run_case-Ends left progress zero c h = ground arith
  run_case-Ends left progress (suc rounds) c h =
      let (ended, stable) =
        after_round-Ends rounds
          (after_next host engine attorney council (next_opportunity engine c.state) c)
          (λ d went.
            let (o, p, done) = after_next-due (next_opportunity engine c.state) c d went in
            let nearer = progress o c d p done in
            run_case-Ends left progress rounds d (omega arith)) in
      (
        ended,
        λ extra.
            let more : suc (rounds + extra) ≡ suc rounds + extra = omega arith in
            subst
              (λ n.
                run_case host engine attorney council n c
                ≡ run_case host engine attorney council (suc rounds) c)
              more (stable extra),
      )
