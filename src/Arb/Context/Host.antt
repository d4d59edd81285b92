-- ===== src/Arb/Context/Host.antt =====
-- What the process does not compute itself: the Lean engine that it starts (lean/engine.go), JSON
-- copying, and the file system. Each is a record of operations with the behaviour relied on.
use adjudication.Prelude.{ℕ, Bool, Option, none, some, [], ◌++◌, ◌≡◌, if◌then◌else◌, Result, take}
use adjudication.Prelude.Text.{Text, text_eq}
use adjudication.Json.{Fields, Items}
use adjudication.Arb.Context.{Event, Bytes}

-- The engine answers a request with a JSON object; an error is a process that gave none. It reads
-- its request as JSON, so a payload and its JSON copy are one to it.
pub record Engine : Type 0 where
  pub initialize_case : Fields → Text → Items → Result Text Fields
  pub step : Fields → Text → Text → Fields → Result Text Fields
  pub next_opportunity : Fields → Result Text Fields
  pub clone_json : Fields → Option Fields
  pub step-clone :
      (s p q : Fields) (action role : Text)
      → clone_json p ≡ some q
      → step s action role q ≡ step s action role p

-- How an append of bytes to a file ends. A write that fails may have left some of them behind.
pub data WriteOutcome : Type 0 where
  written : WriteOutcome
  not_opened : WriteOutcome
  failed_after : ℕ → WriteOutcome
  not_closed : WriteOutcome

-- The bytes that stand in the file after an append of `raw`.
abbrev pub kept : WriteOutcome → Bytes → Bytes
kept written raw = raw
kept not_opened raw = []
kept (failed_after n) raw = take n raw
kept not_closed raw = raw

abbrev pub or_empty : Option Bytes → Bytes
or_empty none = []
or_empty (some b) = b

-- `content` is none where no file can be read.
pub record Host : Type 1 where
  pub World : Type 0
  pub content : World → Text → Option Bytes
  pub append_file : World → Text → Bytes → World × WriteOutcome
  pub write_file : World → Text → Bytes → World × Bool
  pub move_file : World → Text → Text → World × Bool
  pub make_dir : World → Text → World × Bool
  pub log_event : World → Event → World × Bool
  pub sha256 : Bytes → Text
  pub content-make_dir :
      (w : World) (dir other : Text) → content (make_dir w dir).0 other ≡ content w other
  pub content-append_file :
      (w : World) (path other : Text) (raw : Bytes)
      → or_empty (content (append_file w path raw).0 other) ≡ (
          if text_eq path other
          then or_empty (content w path) ++ kept (append_file w path raw).1 raw
          else or_empty (content w other))
