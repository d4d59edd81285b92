-- ===== src/Examples.antt =====
-- A concrete host, engine and run, at which the theorems are applied.
mod Council
mod Record
mod Uploads
mod Policies
mod Filings
mod Lawyers
mod Hearings
mod Complaints
mod Pools
mod Direct
mod Runs
use adjudication.Prelude.{
  ℕ, ◌+◌, Bool, true, false, Option, none, some, List, [], ◌∷◌, ◌++◌, Result, ok, err, ◌≡◌, refl,
  arith, sym, subst, ap, Bool-cases, inl, inr, if◌then◌else◌, length,
}
use adjudication.Prelude.Int.{ℤ, pos}
use adjudication.Prelude.Text.{Text, msg, codes, text_eq}
use adjudication.Prelude.Assoc.{lookup, insert, lookup-insert}
use adjudication.Json.{
  Value, Items, Fields, bool, str, obj, nil, empty, field, no_fields, get, map_any, is_true,
}
use adjudication.Common.ModelRequest.{Spec}
use adjudication.Arb.Policy.{Policy, RuntimeLimits, default_policy, default_runtime_limits}
use adjudication.Arb.Context.{
  RunContext, Bytes, Event, EvidenceMeta, ReplayInitializeRequest, CouncilSeat, Opportunity,
}
use adjudication.Arb.Context.Host.{Host, Engine, WriteOutcome, written, kept, or_empty}
use adjudication.Arb.Certificate.{accepted, state_of}
use adjudication.Arb.Certificate.Replay.{AnswersState}

abbrev pub Files : Type 0
Files = List (Text × Bytes)

pub content-append :
    (w : Files) (path other : Text) (raw : Bytes)
    → or_empty (lookup other (insert path (or_empty (lookup path w) ++ raw) w))
      ≡ (if text_eq path other then or_empty (lookup path w) ++ raw else or_empty (lookup other w))
content-append w path other raw = elim (Bool-cases (text_eq path other)) [
  | inl p ↦ rw (lookup-insert path other (or_empty (lookup path w) ++ raw) w, p) refl
  | inr p ↦ rw (lookup-insert path other (or_empty (lookup path w) ++ raw) w, p) refl
]

-- Files in memory; a digest is the text of the bytes.
abbrev pub files_host : Host
files_host = record {
  World = Files;
  content = λ w path. lookup path w;
  append_file = λ w path raw. (insert path (or_empty (lookup path w) ++ raw) w, written);
  write_file = λ w path raw. (insert path raw w, true);
  move_file = λ w src dst. (insert dst (or_empty (lookup src w)) w, true);
  make_dir = λ w dir. (w, true);
  log_event = λ w event. (w, true);
  sha256 = λ raw. raw;
  content-make_dir = λ w dir other. refl;
  content-append_file = content-append;
}

-- The state of the engine names the last action, in front of what it was.
abbrev pub moved : Text → Fields → Fields
moved action s = field (msg "last") (str action) s

abbrev pub respond : Fields → Fields
respond s = field (msg "ok") (bool true) (field (msg "state") (obj s) empty)

abbrev pub plain_engine : Engine
plain_engine = record {
  initialize_case = λ s proposition members. ok (respond (moved (msg "initialize_case") s));
  step = λ s action role payload. ok (respond (moved action s));
  next_opportunity = λ s. ok empty;
  clone_json = λ p. some p;
  step-clone = λ s p q action role h. refl;
}

pub plain_engine-AnswersState : AnswersState plain_engine
unfolding state_of accepted get map_any no_fields msg text_eq
plain_engine-AnswersState = record {
  nonempty_state = λ s p resp action role h agreed.
      subst (λ (r : Result Text Fields). no_fields (state_of (ok_or_empty r)) ≡ false) h refl;
}
  where
    ok_or_empty : Result Text Fields → Fields
    ok_or_empty (ok r) = r
    ok_or_empty (err e) = empty

abbrev pub start_state : Fields
start_state = field (msg "phase") (str (msg "deliberation")) empty

abbrev pub exhibit : EvidenceMeta
exhibit = record {
  evidence_id = msg "ev_1";
  sha256 = 10 ∷ 20 ∷ 30 ∷ 40 ∷ [];
  size_bytes = 4;
  mime_type = msg "text/plain";
  storage_name = msg "/store/ev_1";
  created_at = [];
  admissibility_status = msg "admitted";
  record_visibility = msg "public";
  title = msg "Exhibit";
  original_name = msg "a.txt";
  source_url = [];
  source_description = [];
  retrieval_timestamp = [];
  submitted_by_role = [];
  submitted_phase = [];
  parent_evidence_id = [];
  parent_sha256 = [];
  derivation_method = [];
  relevance = [];
  text_readable = true;
}

abbrev pub run : RunContext Files
run = record {
  world = (msg "/store/ev_1", 10 ∷ 20 ∷ 30 ∷ 40 ∷ []) ∷ [];
  policy = default_policy;
  runtime = default_runtime_limits;
  case_id = msg "case-1";
  run_id = msg "run-1";
  output_dir = msg "/out";
  state = moved (msg "initialize_case") start_state;
  certificate_init = record { state = start_state; proposition = msg "p"; council_members = nil };
  certificate_actions = [];
  case_files = [];
  file_by_id = [];
  submitted_evidence = [];
  evidence = exhibit ∷ [];
  evidence_by_id = (msg "ev_1", exhibit) ∷ [];
  upload_sessions = [];
  council = [];
  events = [];
  turn = 1;
}

abbrev pub seat_one : CouncilSeat
seat_one = record {
  member_id = msg "C1";
  model = msg "m";
  persona_file = [];
  request_spec = none;
  persona_text = [];
}

abbrev pub council_opportunity : Opportunity
council_opportunity = record {
  id = msg "deliberation:1:C1";
  role = msg "council";
  phase = msg "deliberation";
  may_pass = false;
  objective = [];
  allowed_tools = [];
}

abbrev pub plain_request : Spec
plain_request = record {
  endpoint = codes "e";
  model = codes "m";
  provider = none;
  request = record {
    temperature = none;
    top_p = none;
    max_tokens = none;
    max_output_tokens = none;
  };
  headers = [];
  persona = codes "p.md";
  variant_metadata = empty;
}
