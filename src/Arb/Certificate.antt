-- ===== src/Arb/Certificate.antt =====
-- arb/runtime/proceeding/certificate.go: the log of accepted engine actions, its replay, and the
-- verification of a finished certificate. The hash of a state's canonical JSON is a parameter.
pub mod Step
pub mod Replay
pub mod Sound
pub mod Verify
use adjudication.Prelude.{
  ℕ, suc, ◌+◌, Bool, true, false, not, Option, none, some, List, [], ◌∷◌, ◌++◌, Result, ok, err,
  ◌>>=◌, ◌>>◌, reject_if, or_fail, if◌then◌else◌, length,
}
use adjudication.Prelude.Text.{Text, msg, text_eq, is_empty}
use adjudication.Json.{Fields, Items, get, map_any, is_true, no_fields}
use adjudication.Json.Print.{map_string, decimal}
use adjudication.Arb.Context.{ReplayAction, ReplayInitializeRequest}
use adjudication.Arb.Context.Host.{Engine}

-- `response["ok"]` and `response["state"]`.
unfoldable pub accepted : Fields → Bool
unfolding is_true get
accepted resp = is_true (get (msg "ok") resp)

unfoldable pub state_of : Fields → Fields
unfolding map_any get
state_of resp = map_any (get (msg "state") resp)

unfoldable pub error_of : Fields → Text
unfolding map_string get
error_of resp = map_string (get (msg "error") resp)

-- The three `map[string]any` fields are nil where the file has none.
pub record ReplayCertificate : Type 0 where
  pub schema_version : Text
  pub procedure : Text
  pub engine : List Text
  pub case_id : Text
  pub run_id : Text
  pub initial_state : Option Fields
  pub proposition : Text
  pub council_members : Option Items
  pub actions : List ReplayAction
  pub claimed_final_state : Option Fields
  pub claimed_final_state_sha256 : Text

pub record VerifyReplayCertificateResult : Type 0 where
  pub status : Text
  pub case_id : Text
  pub run_id : Text
  pub action_count : ℕ
  pub claimed_final_state_sha256 : Text
