-- ===== src/Waf.antt =====
-- `applyWAF`, `blockRequest` and `recordAuditDetection` of internal/waf/middleware.go: a request in a
-- transaction of the rule engine.
--
-- The engine (Coraza) is the interface `Engine` over a state of its own: each of its calls is one that
-- the source makes. Logs and metrics are left out, but for the count of audit detections.
-- The table of running transactions, `activeTx`, only serves the logs and is left out with them.
pub mod Phases
mod Tests
use synit_waf.Prelude.{
  ℕ, suc, ◌+◌, Bool, true, false, ◌&&◌, not, String, Option, none, some, List, [], ◌∷◌, ◌==◌, ℤ,
  pos, int_eq, if◌then◌else◌,
}
use synit_waf.Request.Text.{Bytes}
use synit_waf.Request.Encoding.{has_unsupported_content_encoding}
use synit_waf.Request.Body.{BodyState, BodyResult, body_is, too_large, read_error, inspection_body}

-- The phases behind which the code looks for an interruption.
pub data Phase : Type 0 where
  connection uri headers body : Phase

-- A call that may fail says whether it succeeded.
pub record Engine : Type 1 where
  pub State : Type 0
  pub process_connection : State → State
  pub process_uri : State → State
  pub add_headers : State → State
  pub process_headers : State → State
  pub write_body : Bytes → State → Bool × State
  pub process_body : State → Bool × State
  pub is_interrupted : State → Bool
  -- For each matched rule, whether it would block (`wouldDisrupt`).
  pub matched_rules : State → List Bool
  pub process_logging : State → State
  pub close : State → State

pub record WafRequest : Type 0 where
  pub has_body : Bool
  pub content_encoding : Bytes
  pub audit_mode : Bool
  pub block_page_url : Bool
  pub block_page : Bool

-- What `blockRequest` writes.
pub data BlockPage : Type 0 where
  redirect custom_page json_page : BlockPage

pub data Decision : Type 0 where
  passed : Decision
  blocked : Phase → BlockPage → Decision
  failed_with : ℕ → Decision

unfoldable pub block_request : WafRequest → Phase → Decision
block_request r phase =
    blocked phase
      (if r.block_page_url then redirect else if r.block_page then custom_page else json_page)

module _ (engine : Engine) (r : WafRequest) where
  open engine use {State}

  -- What the transaction and the request's body are, and how many detections were counted.
  pub record Transaction : Type 0 where
    pub tx : State
    pub request_body : BodyState
    pub audit_events : ℕ

  -- Behind a phase: an interruption ends the request.
  unfoldable pub behind : Phase → State → (State → Decision × State) → Decision × State
  unfolding block_request
  behind phase s continue =
      if engine.is_interrupted s then (block_request r phase, s) else continue s

  -- `ProcessRequestBody` and what follows it.
  unfoldable pub body_phase : State → Decision × State
  unfolding behind
  body_phase s =
      let (ok, s1) = engine.process_body s in
      if ok then behind body s1 (λ s2. (passed, s2)) else (failed_with 500, s1)

  unfoldable pub write_phase : BodyResult → State → Decision × State
  unfolding body_phase
  write_phase too_large s = (failed_with 413, s)
  write_phase read_error s = (failed_with 500, s)
  write_phase (body_is bytes) s =
      let (ok, s1) = engine.write_body bytes s in
      if ok then body_phase s1 else (failed_with 500, s1)

  -- From the phase of the body on, with the body left behind.
  unfoldable pub inspect_body : ℕ → BodyState → State → (Decision × State) × BodyState
  unfolding write_phase
  inspect_body limit b s =
      if r.has_body && not (int_eq b.content_length (pos 0))
      then (if has_unsupported_content_encoding r.content_encoding
          then ((failed_with 415, s), b)
          else let (result, b') = inspection_body limit b in (write_phase result s, b'))
      else (body_phase s, b)

  unfoldable pub run_headers : ℕ → BodyState → State → (Decision × State) × BodyState
  unfolding inspect_body block_request
  run_headers limit b s =
      let s1 = engine.process_headers (engine.add_headers s) in
      if engine.is_interrupted s1
      then ((block_request r headers, s1), b)
      else inspect_body limit b s1

  unfoldable pub run_uri : ℕ → BodyState → State → (Decision × State) × BodyState
  unfolding run_headers block_request
  run_uri limit b s =
      let s1 = engine.process_uri s in
      if engine.is_interrupted s1 then ((block_request r uri, s1), b) else run_headers limit b s1

  unfoldable pub run_phases : ℕ → BodyState → State → (Decision × State) × BodyState
  unfolding run_uri block_request
  run_phases limit b s =
      let s1 = engine.process_connection s in
      if engine.is_interrupted s1 then ((block_request r connection, s1), b) else run_uri limit b s1

  -- `recordAuditDetection`: one event at most for a request.
  unfoldable pub record_audit_detection : List Bool → ℕ → ℕ
  record_audit_detection [] events = events
  record_audit_detection (true ∷ rules) events = suc events
  record_audit_detection (false ∷ rules) events = record_audit_detection rules events

  -- The deferred function, on every way out.
  unfoldable pub finish_transaction : BodyState → ℕ → State → Transaction
  unfolding record_audit_detection
  finish_transaction b events s = record {
    tx = engine.close (engine.process_logging s);
    request_body = b;
    audit_events =
        if r.audit_mode then record_audit_detection (engine.matched_rules s) events else events;
  }

  -- `limit` is the configured body limit, or its default.
  unfoldable pub apply_waf : ℕ → BodyState → ℕ → State → Decision × Transaction
  unfolding run_phases finish_transaction
  apply_waf limit b events s =
      let (decided, b') = run_phases limit b s in
      let (decision, s') = decided in (decision, finish_transaction b' events s')
