-- ===== src/Lib.antt =====
-- adjudication: the arbitration runtime, arb/runtime/proceeding.
--
-- The program runs an arbitration: a Lean engine, started as a process, holds the rules and the state of
-- a case; the Go runtime gives attorneys and council members their opportunities over HTTP, checks what
-- they submit, keeps the evidence, asks the engine for each step, and logs every step that the engine
-- accepted, so that the whole case can be replayed from a certificate.
--
-- Files:
--   Prelude        native numbers, Go's signed int (Int, with 64-bit addition), strings as lists of code
--                  points (Text), string-keyed maps (Assoc), (value, error) results (Results)
--   Json           any and map[string]any as encoding/json decodes them; helpers.go
--   Arb/Policy     policy.go and its records in types.go; ValidatePolicy, ValidateRuntimeLimits
--   Arb/Context    types.go: the records of a run. Host is the file system and the digest, Engine the Lean
--                  process; Action is a method of runContext, as a function on the context
--   Arb/Certificate  certificate.go: stepForCertificate and the lines around its calls (Step), the replay
--                  (Replay), the certificate and its verification (Verify)
--   Arb/Evidence   evidence.go: registry (Registry, Immutable), bounded reads (Read, Budget), identifiers
--                  and file names (Names, with attorney_tools.go), chunked uploads (Upload)
--   Arb/Failures   failures.go: failOpportunity, its payload and its events
--   Arb/Council    councilapi.go: turns (Turn), tools and votes (Tools), the handlers under the lock
--                  (Server), the end of a turn (Run), any sequence of these (Session)
--                  council_preflight.go: the pool, its candidates and the seats they fill (Pool, Preflight);
--                  council.go: the opportunity of a member that is asked directly (Direct)
--   Arb/Filings    attorney_tools.go: the checks on an attorney's decision
--   Arb/Lawyer     lawyerapi.go: turns (Turn), decisions (Decision), the handler and the wait for a turn
--                  (Server), the tools that read evidence (Reading), an opportunity as a whole (Session);
--                  invalid_attempts.go (Feedback)
--   Arb/Run        run.go: the start of a case, its opportunities in order, and its result
--   Arb/Complaint  arb/runtime/spec/complaint.go: complaints in Markdown
--   Common         common/modelrequest/spec.go (ModelRequest) and common/persona/persona.go (Persona)
--   Examples       a host with files in memory and an engine, at which the theorems are applied
--
-- How the parts meet: a method of the run takes a context and returns the context that it leaves, on
-- errors too. A council handler runs with the lock held, so the API is a state that one call after
-- another changes; an interleaving of clients and timers is a list of calls.
--
-- Numbers: Go's int is an integer; sums that may leave 64 bits wrap round (int_add), and the theorems that
-- need it bound the limits by 2^62. Sizes and counts that grow from 0 are natural numbers. There is
-- fuel in decimal, which prints a number with as many steps as the number itself, at least one for each
-- digit, and in run_case, whose rounds are enough where they outnumber what is left of the case.
--
-- The texts of errors are shortened, so a recorded reason that quotes one is too; the parts by which the
-- feedback on attempts tells one from another are kept. The messages of failures and the feedback are the
-- source's around them. A digest is at least 12 characters long, where a shorter one would stop the program,
-- and a path is joined as it is, without the cleaning of filepath.Join.
--
-- Not modelled: HTTP, JSON decoding, prompts, timestamps, reports, the processes and containers around a
-- proceeding, the registration of case files at the start of a run, the attorneys' tools that submit evidence
-- or keep notes, the observer's tools, and the other two products, adc and arbd. The run loop's handlers and
-- its rounds are arguments; the messages of a late turn leave the length of the timeout out, and the
-- end of a case does not mark the servers as done.
pub mod Prelude
pub mod Json
pub mod Arb
pub mod Common
pub mod Examples
