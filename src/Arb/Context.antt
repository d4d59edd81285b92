-- ===== src/Arb/Context.antt =====
-- arb/runtime/proceeding/types.go: the records of a run. Prompts and the attorneys' work-product
-- folders are left out; an event carries no timestamp.
pub mod Host
pub mod Action
use adjudication.Prelude.{ℕ, Bool, Option, List}
use adjudication.Prelude.Int.{ℤ}
use adjudication.Prelude.Text.{Text}
use adjudication.Json.{Fields, Items}
use adjudication.Common.ModelRequest.{Spec}
use adjudication.Arb.Policy.{Policy, RuntimeLimits}

abbrev pub Bytes : Type 0
Bytes = List ℕ

pub record CaseFile : Type 0 where
  pub evidence_id : Text
  pub name : Text
  pub path : Text
  pub mime_type : Text
  pub text_readable : Bool
  pub size_bytes : ℕ
  pub text : Bytes

pub record SubmittedEvidenceMeta : Type 0 where
  pub phase : Text
  pub role : Text
  pub evidence_id : Text
  pub name : Text
  pub title : Text
  pub source_url : Text
  pub source_description : Text
  pub mime_type : Text
  pub retrieval_timestamp : Text
  pub relevance : Text
  pub sha256 : Text
  pub size_bytes : ℕ

pub record EvidenceUploadSession : Type 0 where
  pub upload_id : Text
  pub role : Text
  pub phase : Text
  pub title : Text
  pub mime_type : Text
  pub expected_size_bytes : ℤ
  pub expected_sha256 : Text
  pub source_url : Text
  pub source_description : Text
  pub retrieval_timestamp : Text
  pub relevance : Text
  pub parent_evidence_id : Text
  pub derivation_method : Text
  pub path : Text
  pub received_bytes : ℕ

pub record EvidenceMeta : Type 0 where
  pub evidence_id : Text
  pub sha256 : Text
  pub size_bytes : ℕ
  pub mime_type : Text
  pub storage_name : Text
  pub created_at : Text
  pub admissibility_status : Text
  pub record_visibility : Text
  pub title : Text
  pub original_name : Text
  pub source_url : Text
  pub source_description : Text
  pub retrieval_timestamp : Text
  pub submitted_by_role : Text
  pub submitted_phase : Text
  pub parent_evidence_id : Text
  pub parent_sha256 : Text
  pub derivation_method : Text
  pub relevance : Text
  pub text_readable : Bool

pub record CouncilSeat : Type 0 where
  pub member_id : Text
  pub model : Text
  pub persona_file : Text
  pub request_spec : Option Spec
  pub persona_text : Text

pub record Opportunity : Type 0 where
  pub id : Text
  pub role : Text
  pub phase : Text
  pub may_pass : Bool
  pub objective : Text
  pub allowed_tools : List Text

pub record Event : Type 0 where
  pub turn : ℕ
  pub role : Text
  pub phase : Text
  pub type : Text
  pub payload : Fields

pub record ReplayInitializeRequest : Type 0 where
  pub state : Fields
  pub proposition : Text
  pub council_members : Items

pub record ReplayAction : Type 0 where
  pub action_type : Text
  pub actor_role : Text
  pub payload : Fields

-- `runContext`, with the world outside the process: `World` is the host's.
pub record RunContext (World : Type 0) : Type 0 where
  pub world : World
  pub policy : Policy
  pub runtime : RuntimeLimits
  pub case_id : Text
  pub run_id : Text
  pub output_dir : Text
  pub state : Fields
  pub certificate_init : ReplayInitializeRequest
  pub certificate_actions : List ReplayAction
  pub case_files : List CaseFile
  pub file_by_id : List (Text × CaseFile)
  pub submitted_evidence : List SubmittedEvidenceMeta
  pub evidence : List EvidenceMeta
  pub evidence_by_id : List (Text × EvidenceMeta)
  pub upload_sessions : List (Text × EvidenceUploadSession)
  pub council : List CouncilSeat
  pub events : List Event
  pub turn : ℕ
