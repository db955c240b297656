-- ===== src/Waf/Tests.antt =====
-- The theorems about a transaction at a rule engine that finds nothing.
use synit_waf.Prelude.{ℕ, ◌+◌, true, false, some, [], ◌∷◌, pos, ◌≡◌, refl, inl, arith}
use synit_waf.Request.Body.{BodyState, inspection_body, read_body, read_limit, Carries}
use synit_waf.Request.Encoding.{has_unsupported_content_encoding}
use synit_waf.Request.Text.{bytes_eq, trim_space, trim_left}
use synit_waf.Waf.{
  Engine, WafRequest, passed, behind, body_phase, write_phase, inspect_body, run_headers, run_uri,
  run_phases, apply_waf,
}
use synit_waf.Waf.Phases.{connected, with_uri, with_headers, BodySeen, apply_waf_sound}

-- It counts its calls, and has matched one rule that would block.
abbrev engine : Engine
engine = record {
  State = ℕ;
  process_connection = λ s. s + 1;
  process_uri = λ s. s + 1;
  add_headers = λ s. s + 1;
  process_headers = λ s. s + 1;
  write_body = λ bytes s. (true, s + 1);
  process_body = λ s. (true, s + 1);
  is_interrupted = λ s. false;
  matched_rules = λ s. false ∷ true ∷ [];
  process_logging = λ s. s + 1;
  close = λ s. s + 1;
}

abbrev request : WafRequest
request = record {
  has_body = true;
  content_encoding = [];
  audit_mode = true;
  block_page_url = false;
  block_page = false;
}

abbrev body_state : BodyState
body_state = record {
  incoming = some (1 ∷ 2 ∷ []);
  breaks = false;
  content_length = pos 2;
  has_info = true;
  body_read = false;
  body = [];
}

goes_on : (apply_waf engine request 10 body_state 0 0).0 ≡ passed
unfolding apply_waf run_phases run_uri run_headers inspect_body write_phase body_phase behind
    inspection_body read_body read_limit has_unsupported_content_encoding trim_space trim_left
    bytes_eq
goes_on = refl

apply_waf_sound_example :
    (engine.is_interrupted (connected engine request 0) ≡ false)
    × (engine.is_interrupted (with_uri engine request 0) ≡ false)
    × (engine.is_interrupted (with_headers engine request 0) ≡ false)
    × BodySeen engine request 10 (1 ∷ 2 ∷ []) body_state (with_headers engine request 0)
    × Carries (1 ∷ 2 ∷ []) (apply_waf engine request 10 body_state 0 0).1.request_body
apply_waf_sound_example =
    apply_waf_sound engine request 10 (1 ∷ 2 ∷ []) body_state 0 0 (omega arith)
      (inl (refl, inl refl)) goes_on
