-- ===== src/Receiver/Tests.antt =====
-- The theorems about the log receiver at one small service: a tenant, an address that fails, and a
-- file system in memory.
use synit_waf.Prelude.{
  ℕ, ◌+◌, ◌≤◌, Bool, true, false, String, Option, none, some, [], ◌∷◌, ◌++◌, length, All, leb,
  lookup, insert, eq_iff, pos, negsuc, ◌==◌, ◌≡◌, refl, ◌↔◌, arith,
}
use synit_waf.Request.Text.{
  Bytes, split, split_from, has_prefix, bytes_eq, trim_space, trim_left, space1, space2, space3,
}
use synit_waf.Receiver.Failures.{
  Clients, record_failure, blocked, expired, max_auth_failures, IsBounded, FindsKey,
  record_failure-IsBounded,
}
use synit_waf.Receiver.Throttle.{Events, record_failures, failures_of, blocked_iff_failed}
use synit_waf.Receiver.Window.{TenantReceiverState, is_over, allow_request, roll}
use synit_waf.Receiver.Lines.{
  payload, log_lines, walk_lines, has_control, lines_of, unlines, newline, IsLine, Counts,
  log_lines_iff, log_lines_roundtrip,
}
use synit_waf.Receiver.Tokens.{
  Tokens, loaded, load_tenant_tokens, check_tokens, seen_tenant, tenant_id_for_token,
  tenant_id_for_token_iff,
}
use synit_waf.Receiver.Store.{
  directory_bytes, total_bytes, store_payload, append_payload, known_usage,
}
use synit_waf.Receiver.Serve.{
  Settings, limits, LogsRequest, LogReceiver, Outside, media_allowed, is_json, handle_logs, accept,
  read_and_store, require_method, remote_ip, tenant_state,
}
use synit_waf.Receiver.Quota.{IsNewWithin}
use synit_waf.Receiver.Cases.{run_logs, Admitted, counted, tenant_of}
use synit_waf.Receiver.Calls.{IsAccounted, WithinQuota, handle_logs_quota, handle_logs_sound}
use synit_waf.Receiver.Retention.{
  LogsDir, listed, cleanup_expired_logs, cleanup_expired_logs-IsAccounted,
}
use synit_waf.Receiver.Memory.{memory, memory_laws, memory_texts, memory_local, Disk}

-- The walk over the clients comes to the one that stands first.
abbrev head : Clients → String
head [] = ""
head ((ip, e) ∷ m) = ip

head-FindsKey : FindsKey head
unfolding lookup
head-FindsKey [] h = absurd (omega (arith, h))
head-FindsKey ((ip, e) ∷ m) h = λ x. absurd (ground (arith, eq_iff ip ip))

no_clients-IsBounded : IsBounded []
no_clients-IsBounded = record { distinct = tt; bounded = omega arith }

record_failure-IsBounded_example : IsBounded (record_failure head "1.2.3.4" 7 [])
record_failure-IsBounded_example =
    record_failure-IsBounded head head-FindsKey "1.2.3.4" 7 [] no_clients-IsBounded

abbrev two_events : Events
two_events = ("1.2.3.4", 7) ∷ ("5.6.7.8", 8) ∷ []

blocked_iff_failed_example :
    (blocked "1.2.3.4" 9 (record_failures head two_events [])).0
    ≡ leb max_auth_failures (failures_of "1.2.3.4" two_events)
unfolding lookup
blocked_iff_failed_example =
    blocked_iff_failed "1.2.3.4" 5 head 9 two_events [] (omega arith) refl
      (omega arith, omega arith, (omega arith, omega arith, tt)) (omega arith)

abbrev new_tenant : TenantReceiverState
new_tenant = record { window_start = none; requests = 0; used_bytes = 0; used_known = false }

-- Every line that starts with a brace is valid.
abbrev braces : Bytes → Bool
braces [] = false
braces (c ∷ line) = c == b'{'

abbrev two_lines : Bytes
two_lines = b'{' ∷ b'}' ∷ 10 ∷ b'{' ∷ b'}' ∷ []

abbrev stored_lines : Bytes
stored_lines = b'{' ∷ b'}' ∷ 10 ∷ b'{' ∷ b'}' ∷ 10 ∷ []

accepted : log_lines braces two_lines false ≡ payload stored_lines
unfolding log_lines walk_lines has_control split split_from
accepted = refl

log_lines_iff_example : (log_lines braces two_lines false ≡ payload stored_lines) ↔ (
    All (IsLine braces) (lines_of two_lines)
    × Counts braces false (length (lines_of two_lines))
    × (stored_lines ≡ unlines (lines_of two_lines)))
log_lines_iff_example = log_lines_iff braces two_lines stored_lines false

log_lines_roundtrip_example :
    split newline (unlines ((b'1' ∷ []) ∷ []) ++ stored_lines)
    ≡ ((b'1' ∷ []) ∷ []) ++ (lines_of two_lines ++ [] ∷ [])
log_lines_roundtrip_example =
    log_lines_roundtrip braces ((b'1' ∷ []) ∷ []) two_lines stored_lines false (refl, tt) accepted

abbrev token : Bytes
token =
    1 ∷ 2 ∷ 3 ∷ 4 ∷ 5 ∷ 6 ∷ 7 ∷ 8 ∷ 33 ∷ 34 ∷ 35 ∷ 36 ∷ 37 ∷ 38 ∷ 39 ∷ 40 ∷ 41 ∷ 42 ∷ 43 ∷ 44 ∷ 45
    ∷ 46 ∷ 47 ∷ 48 ∷ 49 ∷ 50 ∷ 51 ∷ 52 ∷ 53 ∷ 54 ∷ 55 ∷ 56 ∷ []

abbrev tokens : Tokens
tokens = ("acme", token) ∷ []

abbrev decode : Bytes → Option Tokens
decode raw = some tokens

tokens_loaded : load_tenant_tokens (λ id. true) (λ id. id) decode (b'x' ∷ []) ≡ loaded tokens
unfolding load_tenant_tokens check_tokens seen_tenant trim_space trim_left space1 space2 space3
    bytes_eq
tokens_loaded = refl

tenant_id_for_token_iff_example :
    (tenant_id_for_token tokens token ≡ "acme") ↔ (lookup "acme" tokens ≡ some token)
unfolding lookup
tenant_id_for_token_iff_example =
    tenant_id_for_token_iff (λ id. true) (λ id. id) decode (b'x' ∷ []) tokens "acme" token
      tokens_loaded (refl, tt) (λ e. let h : false ≡ true = (eq_iff "acme" "").1 e in absurd (cc))

abbrev settings : Settings
settings = record {
  tokens = tokens;
  max_request_bytes = pos 100;
  max_tenant_bytes = pos 50;
  requests_per_minute = pos 5;
  retention = pos 1000;
}

abbrev outside : Outside
outside = record {
  first = head;
  split_host_port = λ addr. none;
  json_valid = braces;
  file_name = λ t. "day.log";
}

abbrev request : LogsRequest
request = record {
  method = "POST";
  remote_addr = "1.2.3.4";
  authorization = (b'B' ∷ b'e' ∷ b'a' ∷ b'r' ∷ b'e' ∷ b'r' ∷ b' ' ∷ []) ++ token;
  media_type = some "application/x-ndjson";
  content_length = negsuc 0;
  incoming = two_lines;
  breaks = false;
}

abbrev idle : LogReceiver memory
idle = record { clients = []; tenants = []; disk = ("acme", b'{' ∷ b'}' ∷ 10 ∷ []) ∷ [] }

idle-IsAccounted : IsAccounted memory idle
unfolding lookup
idle-IsAccounted id ts there known = absurd (cc)

handle_logs_quota_example :
    IsAccounted memory (run_logs memory outside settings request 7 idle).1
    × WithinQuota memory
        (limits settings).max_tenant_bytes
        idle.disk
        (run_logs memory outside settings request 7 idle).1.disk
    × IsNewWithin memory
        (limits settings).max_tenant_bytes
        (tenant_of memory outside settings request)
        idle.disk
        (run_logs memory outside settings request 7 idle).1.disk
handle_logs_quota_example =
    handle_logs_quota memory outside memory_laws settings request 7 idle idle-IsAccounted

answers_ok : (run_logs memory outside settings request 7 idle).0 ≡ 200
unfolding handle_logs accept read_and_store require_method remote_ip tenant_state blocked expired
    tenant_id_for_token media_allowed allow_request roll is_over store_payload append_payload
    known_usage directory_bytes total_bytes log_lines walk_lines has_control split split_from
    has_prefix bytes_eq limits lookup insert
answers_ok = refl

handle_logs_sound_example :
    let tenant = tenant_of memory outside settings request in
    let l = limits settings in
    Admitted memory outside settings request 7 idle
    × (media_allowed request.media_type ≡ true)
    × ((counted memory outside l tenant 7 idle).0 ≡ true)
    × (length request.incoming ≤ l.max_request_bytes)
    × ((lines : Bytes) × (u : ℕ) × (log_lines braces request.incoming (is_json request.media_type)
          ≡ payload lines)
        × (directory_bytes memory tenant (memory.mkdir_all tenant idle.disk).1 ≡ some u)
        × (directory_bytes memory tenant (run_logs memory outside settings request 7 idle).1.disk
            ≡ some (u + length lines))
        × (u + length lines ≤ l.max_tenant_bytes)
        × (memory_texts.text_of tenant "day.log"
              (run_logs memory outside settings request 7 idle).1.disk
            ≡ memory_texts.text_of tenant "day.log" idle.disk ++ lines))
handle_logs_sound_example =
    handle_logs_sound memory outside memory_laws memory_texts settings request 7 idle
      idle-IsAccounted answers_ok

abbrev log_name : String → String
log_name name = ".log"

abbrev list_logs : Disk → LogsDir
list_logs s = listed (record { name = "acme"; is_dir = true; info = none } ∷ [])

cleanup_expired_logs-IsAccounted_example :
    IsAccounted memory (cleanup_expired_logs memory log_name list_logs 10 50 idle).1
cleanup_expired_logs-IsAccounted_example =
    cleanup_expired_logs-IsAccounted memory log_name memory_local list_logs 10 50 idle
      idle-IsAccounted
