-- ===== src/Arb/Lawyer/Rejected.antt =====
-- lawyerapi.go, `handleLawyerDo`: requests that are not for the current turn.
use adjudication.Prelude.{
  Bool, true, false, not, ◌&&◌, Option, none, some, err, ◌≡◌, refl, arith, [], Bool-cases, inl, inr,
  if-false, ap, ◌∙◌, sym,
}
use adjudication.Prelude.Text.{Text, msg, text_eq, is_empty}
use adjudication.Json.{Fields}
use adjudication.Arb.Context.Host.{Host, Engine}
use adjudication.Arb.Lawyer.Feedback.{CharLimitPatterns}
use adjudication.Arb.Lawyer.Turn.{LawyerTurn, LawyerDesk}
use adjudication.Arb.Lawyer.Server.{
  LawyerApi, LawyerDoRequest, LawyerAnswer, Called, handle_lawyer_do, with_lawyer_turn,
  lawyer_do_on_desk, lawyer_desk, put_desk_back, is_attorney,
}

-- The request names the role and the opportunity of a turn that is not over.
unfoldable pub is_current : LawyerDoRequest → Option LawyerTurn → Bool
unfolding text_eq is_empty
is_current req none = false
is_current req (some turn) =
    not turn.completed
    && (text_eq turn.opportunity.role req.role_id
        && (not (is_empty req.opportunity_id) && text_eq req.opportunity_id turn.opportunity.id))

gates_fail : (a b : Bool) → a ≡ false → (not a && b) ≡ false → b ≡ false
gates_fail a b p h = ground arith

current_fails : (a b : Bool) → b ≡ true → (a && b) ≡ false → a ≡ false
current_fails a b p h = ground arith

restored :
    {World : Type 0} (api : LawyerApi World) (turn : LawyerTurn)
    → api.active ≡ some turn
    → put_desk_back (lawyer_desk api turn) api ≡ api
unfolding put_desk_back lawyer_desk
restored {World = World} api turn same = ap (λ x. record api { active = x }) (sym same)

module _ (host : Host) (engine : Engine) (patterns : CharLimitPatterns) {A : Type 0}
    (call : Text → Fields → LawyerDesk host.World → Called host.World A) where
  -- An error, with nothing changed.
  abbrev pub RejectedBy : LawyerApi host.World → LawyerApi host.World × LawyerAnswer A → Type 0
  RejectedBy api r = (e : Text × Text) × (r ≡ (api, err e))

  lawyer_do_on_desk-RejectedBy :
      (req : LawyerDoRequest) (d : LawyerDesk host.World)
      → (text_eq d.turn.opportunity.role req.role_id
          && (not (is_empty req.opportunity_id)
              && text_eq req.opportunity_id d.turn.opportunity.id))
        ≡ false
      → (e : Text × Text) × (lawyer_do_on_desk host engine patterns call false req d ≡ (d, err e))
  unfolding lawyer_do_on_desk
  lawyer_do_on_desk-RejectedBy req d h =
      elim (Bool-cases (text_eq d.turn.opportunity.role req.role_id)) [
        | inr q ↦ rw q ((msg "not_current_turn", d.turn.opportunity.role), refl)
        | inl q ↦ elim (Bool-cases (is_empty req.opportunity_id)) [
          | inl r ↦ rw (q, r) ((msg "missing_opportunity_id", []), refl)
          | inr r ↦ elim (Bool-cases (text_eq req.opportunity_id d.turn.opportunity.id)) [
            | inr s ↦ rw (q, r, s) ((msg "stale_opportunity", d.turn.opportunity.id), refl)
            | inl s ↦ ground arith
          ]
        ]
      ]

  with_lawyer_turn-RejectedBy :
      (req : LawyerDoRequest) (api : LawyerApi host.World) (active : Option LawyerTurn)
      → api.active ≡ active
      → is_current req active ≡ false
      → RejectedBy api (
          with_lawyer_turn host engine patterns
            (lawyer_do_on_desk host engine patterns call false req)
            active
            api)
  unfolding with_lawyer_turn is_current lawyer_desk put_desk_back
  with_lawyer_turn-RejectedBy req api none same h = ((msg "no_active_turn", []), refl)
  with_lawyer_turn-RejectedBy req api (some turn) same h = elim (Bool-cases turn.completed) [
    | inl over ↦ rw over ((msg "no_active_turn", []), refl)
    | inr running ↦
        let (e, kept) =
          lawyer_do_on_desk-RejectedBy req (lawyer_desk api turn) (gates_fail _ _ running h) in
        (
          e,
          if-false (λ (x : LawyerApi host.World × LawyerAnswer A). x ≡ (api, err e)) turn.completed
              (api, err (msg "no_active_turn", [])) _ running
              (ap (λ r. (put_desk_back r.0 api, r.1)) kept
                ∙ ap (λ (x : LawyerApi host.World). (x, err e)) (restored api turn same)),
        )
  ]

  -- A request, other than for the case's status and within the deadline, that does not name an
  -- attorney's role and the role and opportunity of a running turn is answered with an error, and
  -- leaves the server, the run and the attempts as they were.
  pub handle_lawyer_do-RejectedBy :
      (status : A) (req : LawyerDoRequest) (api : LawyerApi host.World)
      → text_eq req.tool (msg "case_status") ≡ false
      → (is_current req api.active && is_attorney req.role_id) ≡ false
      → RejectedBy api (handle_lawyer_do host engine patterns status call false req api)
  unfolding handle_lawyer_do
  handle_lawyer_do-RejectedBy status req api other h = elim (Bool-cases (is_attorney req.role_id)) [
    | inr p ↦ rw p ((msg "invalid_role", req.role_id), refl)
    | inl p ↦
        rw (p, other) (with_lawyer_turn-RejectedBy req api api.active refl (current_fails _ _ p h))
  ]
