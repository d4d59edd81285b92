-- ===== src/Arb/Filings/Accepted.antt =====
-- attorney_tools.go: exactly which decisions pass the checks, described apart from the code's tests.
use adjudication.Prelude.{
  In, ◌⊎◌, ◌↔◌, inl, inr, true, false, List, [], ◌∷◌, ok, ◌≡◌, refl, arith, ◌∙◌, sym, Bool-cases,
}
use adjudication.Prelude.Text.{Text, msg, text_eq, text_eq→eq, text_eq_refl, is_empty}
use adjudication.Json.{Fields, empty, get, map_any}
use adjudication.Json.Print.{map_string}
use adjudication.Arb.Policy.{Policy}
use adjudication.Arb.Context.{CaseFile, Opportunity}
use adjudication.Arb.Filings.{
  is_one_of, is_merits_filing, submit_decision_tool, validate_attorney_payload, attorney_decision,
  tool_decision, pass_decision,
}

is_one_of-In : (t : Text) (us : List Text) → is_one_of t us ≡ true → In t us
unfolding is_one_of
is_one_of-In t [] h = ground arith
is_one_of-In t (u ∷ us) h = elim (Bool-cases (text_eq u t)) [
  | inl p ↦ inl (sym (text_eq→eq u t p))
  | inr p ↦ inr (is_one_of-In t us (ground arith))
]

In-is_one_of : (t : Text) (us : List Text) → In t us → is_one_of t us ≡ true
unfolding is_one_of
In-is_one_of t [] h = elim h [ ]
In-is_one_of t (u ∷ us) (inl p) = rw (p, text_eq_refl u) refl
In-is_one_of t (u ∷ us) (inr h) = ground (arith, In-is_one_of t us h)

-- The filings that may carry evidence and reports.
abbrev pub merits_filings : List Text
merits_filings = msg "submit_argument" ∷ msg "submit_rebuttal" ∷ msg "submit_surrebuttal" ∷ []

-- The tools of a decision.
abbrev pub decision_tools : List Text
decision_tools =
    msg "submit_argument"
    ∷ msg "submit_rebuttal"
    ∷ msg "submit_surrebuttal"
    ∷ msg "record_opening_statement"
    ∷ msg "deliver_closing_statement"
    ∷ msg "pass_phase_opportunity"
    ∷ []

pub is_merits_filing-In :
    (action : Text) → (is_merits_filing action ≡ true) ↔ In action merits_filings
unfolding is_merits_filing
is_merits_filing-In action =
    (is_one_of-In action merits_filings, In-is_one_of action merits_filings)

submit_decision_tool-one_of :
    (tool : Text) → submit_decision_tool tool ≡ is_one_of tool decision_tools
unfolding submit_decision_tool is_merits_filing is_one_of
submit_decision_tool-one_of tool = ground arith

decision_tools-is_empty : (tool : Text) → In tool decision_tools → is_empty tool ≡ false
unfolding is_empty msg
decision_tools-is_empty [] h = ground arith
decision_tools-is_empty (a ∷ tool) h = refl

-- A pass: of the arguments, only the kind is looked at.
pub record ByPass (o : Opportunity) (params : Fields) (action : Text) (payload : Fields)
    : Type 0 where
  pub kind : map_string (get (msg "kind") params) ≡ msg "pass"
  pub may_pass : o.may_pass ≡ true
  pub phase : In o.phase (msg "rebuttals" ∷ msg "surrebuttals" ∷ [])
  pub named : action ≡ msg "pass_phase_opportunity"
  pub nothing : payload ≡ empty

-- The call of a tool: the arguments name one of a decision's tools, which the opportunity allows, and give
-- the payload, which passes the checks of that tool.
pub record ByTool (o : Opportunity) (params : Fields) (files : List (Text × CaseFile))
    (policy : Policy) (action : Text) (payload : Fields) : Type 0 where
  pub kind : map_string (get (msg "kind") params) ≡ msg "tool"
  pub named : action ≡ map_string (get (msg "tool_name") params)
  pub given : payload ≡ map_any (get (msg "payload") params)
  pub decides : In action decision_tools
  pub allowed : In action o.allowed_tools
  pub checked : validate_attorney_payload action payload files policy ≡ ok tt

module _ (o : Opportunity) (params : Fields) (files : List (Text × CaseFile)) (policy : Policy)
    (action : Text) (payload : Fields) where
  pass_decision-ByPass :
      map_string (get (msg "kind") params) ≡ msg "pass"
      → pass_decision o ≡ ok (action, payload)
      → ByPass o params action payload
  unfolding pass_decision
  pass_decision-ByPass kind h =
      let (may, phase, named, nothing) : (o.may_pass ≡ true)
          × (is_one_of o.phase (msg "rebuttals" ∷ msg "surrebuttals" ∷ []) ≡ true)
          × (action ≡ msg "pass_phase_opportunity")
          × (payload ≡ empty) =
        ground arith in
      record {
        kind = kind;
        may_pass = may;
        phase = is_one_of-In o.phase _ phase;
        named = named;
        nothing = nothing;
      }

  ByPass-pass_decision : ByPass o params action payload → pass_decision o ≡ ok (action, payload)
  unfolding pass_decision
  ByPass-pass_decision p =
      rw
        (
          p.may_pass,
          In-is_one_of o.phase (msg "rebuttals" ∷ msg "surrebuttals" ∷ []) p.phase,
          p.named,
          p.nothing,
        )
        refl

  tool_decision-ByTool :
      map_string (get (msg "kind") params) ≡ msg "tool"
      → tool_decision o params files policy ≡ ok (action, payload)
      → ByTool o params files policy action payload
  unfolding tool_decision
  tool_decision-ByTool kind h =
      let (named, given, tool, allowed, checked) : (action
            ≡ map_string (get (msg "tool_name") params))
          × (payload ≡ map_any (get (msg "payload") params))
          × (submit_decision_tool action ≡ true)
          × (is_one_of action o.allowed_tools ≡ true)
          × (validate_attorney_payload action payload files policy ≡ ok tt) =
        ground arith in
      record {
        kind = kind;
        named = named;
        given = given;
        decides =
            is_one_of-In action decision_tools (sym (submit_decision_tool-one_of action) ∙ tool);
        allowed = is_one_of-In action o.allowed_tools allowed;
        checked = checked;
      }

  ByTool-tool_decision :
      ByTool o params files policy action payload
      → tool_decision o params files policy ≡ ok (action, payload)
  unfolding tool_decision
  ByTool-tool_decision p =
      let tool =
        submit_decision_tool-one_of action ∙ In-is_one_of action decision_tools p.decides in
      let allowed = In-is_one_of action o.allowed_tools p.allowed in
      let named = decision_tools-is_empty action p.decides in
      rw (sym p.named, sym p.given, named, tool, allowed, p.checked) refl

  -- A decision is accepted, with an action and a payload, exactly where it is a pass that the
  -- opportunity admits in a rebuttal phase, whose action is the pass with an empty payload, or
  -- names one of a decision's tools that the opportunity allows, with a payload that passes the
  -- checks of that tool.
  pub attorney_decision-Allowed :
      (attorney_decision o params files policy ≡ ok (action, payload))
      ↔ (ByPass o params action payload ⊎ ByTool o params files policy action payload)
  unfolding attorney_decision text_eq msg
  attorney_decision-Allowed = (
    λ h. elim (Bool-cases (text_eq (map_string (get (msg "kind") params)) (msg "pass"))) [
      | inl p ↦ inl (pass_decision-ByPass (text_eq→eq _ _ p) (ground arith))
      | inr p ↦ elim (Bool-cases (text_eq (map_string (get (msg "kind") params)) (msg "tool"))) [
        | inl q ↦ inr (tool_decision-ByTool (text_eq→eq _ _ q) (ground arith))
        | inr q ↦ ground arith
      ]
    ],
    λ h. elim h [
      | inl p ↦ rw p.kind (ByPass-pass_decision p)
      | inr p ↦ rw p.kind (ByTool-tool_decision p)
    ],
  )
