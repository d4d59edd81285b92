-- ===== src/Examples/Runs.antt =====
-- A case of one council vote, and how many rounds it needs.
use adjudication.Prelude.{
  ℕ, ◌+◌, ◌||◌, err, false, subst, Bool, Bool-cases, inl, inr, true, Result, ok, ◌≡◌, refl, arith,
  if◌then◌else◌,
}
use adjudication.Prelude.Text.{Text, msg, text_eq}
use adjudication.Json.{Fields, bool, str, obj, empty, field, get, is_true}
use adjudication.Json.Print.{map_string}
use adjudication.Arb.Context.{RunContext, Opportunity}
use adjudication.Arb.Context.Host.{Engine}
use adjudication.Arb.Certificate.{accepted}
use adjudication.Arb.Run.{Handler, next_opportunity, read_next, execute_opportunity, due}
use adjudication.Arb.Run.Terminates.{Progress, Ends, run_case-Ends}
use adjudication.Examples.{Files, files_host, plain_engine, start_state, moved}
use adjudication.Examples.Direct.{with_council}

abbrev pub due_vote : Fields
due_vote = field (msg "ok") (bool true) (
    field (msg "opportunity")
      (obj (
        field (msg "opportunity_id") (str (msg "deliberation:1:C1")) (
          field (msg "role") (str (msg "council"))
            (field (msg "phase") (str (msg "deliberation")) empty))))
      empty)

abbrev pub all_done : Fields
all_done =
    field (msg "ok") (bool true)
      (field (msg "terminal") (bool true) (field (msg "reason") (str (msg "closed")) empty))

-- The engine asks for one vote.
abbrev court : Engine
court = record plain_engine {
  next_opportunity = λ s. ok (
      if text_eq (map_string (get (msg "last") s)) (msg "initialize_case")
      then due_vote
      else all_done);
}

abbrev begun : RunContext Files
begun = record with_council { state = moved (msg "initialize_case") start_state }

-- Someone who does what is due, and nothing else.
abbrev closing : Handler files_host court
closing o c = (record c { state = moved (msg "submit_council_vote") c.state }, ok tt)

abbrev is_new : RunContext Files → Bool
is_new c = text_eq (map_string (get (msg "last") c.state)) (msg "initialize_case")

abbrev left : RunContext Files → ℕ
left c = if is_new c then 1 else 0

either-branch :
    (b e : Bool) (x : RunContext Files × Result Text (Unit {0})) (c d : RunContext Files)
    (failure : Text)
    → (if b then x else if e then x else (c, err failure)) ≡ (d, ok tt)
    → x ≡ (d, ok tt)
either-branch true e x c d failure h = h
either-branch false true x c d failure h = h
either-branch false false x c d failure h = ground arith

closed-is_new :
    (o : Opportunity) (c d : RunContext Files)
    → execute_opportunity files_host court closing closing o c ≡ (d, ok tt)
    → is_new d ≡ false
unfolding execute_opportunity text_eq msg get map_string
closed-is_new o c d h =
    let same =
      either-branch (text_eq o.role (msg "plaintiff") || text_eq o.role (msg "defendant"))
        (text_eq o.role (msg "council")) (closing o c) c d _ h in
    subst (λ r. is_new r.0 ≡ false) same refl

not_new-over :
    (b : Bool) (o : Opportunity)
    → b ≡ false
    → read_next (if b then due_vote else all_done) ≡ ok (due o)
    → ⊥
unfolding read_next accepted is_true get text_eq msg map_string
not_new-over true o p h = ground arith
not_new-over false o p h = ground arith

left-Progress : Progress files_host court closing closing left
unfolding next_opportunity
left-Progress o c d h done = elim (Bool-cases (is_new c)) [
  | inl p ↦
      let gone = closed-is_new o (record c { turn = c.turn + 1 }) d done in
      rw (p, gone) (omega arith)
  | inr p ↦ elim (not_new-over (is_new c) o p h) [ ]
]

run_case-Ends_example : Ends files_host court closing closing 2 begun
unfolding text_eq msg get map_string
run_case-Ends_example =
    run_case-Ends files_host court closing closing left left-Progress 2 begun (omega arith)
