-- ===== src/Receiver/Serve.antt =====
-- `handleLogs` of services/ai-logs-receiver/main.go, with `requireMethod`, `limits` and `tenantState`.
--
-- `net.SplitHostPort` and the name of a day's file are parameters; `mime.ParseMediaType` and the body
-- behind `http.MaxBytesReader` are read off the request. Calls run one after the other, as the locks
-- order them.
use synit_waf.Prelude.{
  ℕ, Bool, false, not, ◌||◌, String, Option, none, some, List, [], ◌∷◌, length, drop, ltb, ℤ,
  le_zero, pos_part, str_eq, if◌then◌else◌, lookup, insert, any,
}
use synit_waf.Request.Text.{Bytes, has_prefix}
use synit_waf.Request.Body.{exceeds}
use synit_waf.Receiver.Failures.{Clients, blocked, record_failure}
use synit_waf.Receiver.Window.{TenantReceiverState, allow_request}
use synit_waf.Receiver.Lines.{refused, payload, log_lines}
use synit_waf.Receiver.Tokens.{Tokens, tenant_id_for_token}
use synit_waf.Receiver.Store.{Files, Stored, store_payload}

pub record Settings : Type 0 where
  pub tokens : Tokens
  pub max_request_bytes : ℤ
  pub max_tenant_bytes : ℤ
  pub requests_per_minute : ℤ
  pub retention : ℤ

pub record Limits : Type 0 where
  pub max_request_bytes : ℕ
  pub max_tenant_bytes : ℕ
  pub requests_per_minute : ℕ
  pub retention : ℕ

abbrev pub or_default : ℤ → ℕ → ℕ
or_default n fallback = if le_zero n then fallback else pos_part n

-- 10 MiB, 1 GiB, 600 requests and 30 days.
unfoldable pub limits : Settings → Limits
limits c = record {
  max_request_bytes = or_default c.max_request_bytes 10485760;
  max_tenant_bytes = or_default c.max_tenant_bytes 1073741824;
  requests_per_minute = or_default c.requests_per_minute 600;
  retention = or_default c.retention 2592000000000000;
}

-- `incoming` is all that the body gives, and `breaks` says that reading it fails behind that.
pub record LogsRequest : Type 0 where
  pub method : String
  pub remote_addr : String
  pub authorization : Bytes
  pub media_type : Option String
  pub content_length : ℤ
  pub incoming : Bytes
  pub breaks : Bool

unfoldable pub require_method : List String → String → Bool
require_method allowed method = any (λ m. str_eq method m) allowed

unfoldable pub remote_ip : (String → Option String) → String → String
remote_ip split_host_port addr = elim (split_host_port addr) [ none ↦ addr | some host ↦ host ]

abbrev pub bearer : Bytes
bearer = b'B' ∷ b'e' ∷ b'a' ∷ b'r' ∷ b'e' ∷ b'r' ∷ b' ' ∷ []

unfoldable pub media_allowed : Option String → Bool
media_allowed none = false
media_allowed (some m) = str_eq m "application/json" || str_eq m "application/x-ndjson"

abbrev pub is_json : Option String → Bool
is_json none = false
is_json (some m) = str_eq m "application/json"

-- The state of a tenant that was not seen before is the zero value.
unfoldable pub tenant_state : String → List (String × TenantReceiverState) → TenantReceiverState
tenant_state tenant tenants = elim (lookup tenant tenants) [
  | some ts ↦ ts
  | none ↦ record { window_start = none; requests = 0; used_bytes = 0; used_known = false }
]

-- Functions of Go's library, and the key that a walk over the clients comes to first.
pub record Outside : Type 0 where
  pub first : Clients → String
  pub split_host_port : String → Option String
  pub json_valid : Bytes → Bool
  pub file_name : ℕ → String

module _ (files : Files) where
  pub record LogReceiver : Type 0 where
    pub clients : Clients
    pub tenants : List (String × TenantReceiverState)
    pub disk : files.State

  abbrev pub with_tenant : String → Stored files → LogReceiver → ℕ × LogReceiver
  with_tenant tenant (code, ts, disk) s =
      (code, record s { tenants = insert tenant ts s.tenants; disk = disk })

  module _ (outside : Outside) where
    -- From the body on, the request having been counted in the tenant's state.
    unfoldable pub read_and_store :
        Limits → LogsRequest → String → ℕ → TenantReceiverState → files.State → Stored files
    unfolding store_payload
    read_and_store l r tenant now ts disk =
        if ltb l.max_request_bytes (length r.incoming)
        then (413, ts, disk)
        else if r.breaks
        then (400, ts, disk)
        else elim (log_lines outside.json_valid r.incoming (is_json r.media_type)) [
          | refused e ↦ (400, ts, disk)
          | payload out ↦
              store_payload files l.max_tenant_bytes tenant (outside.file_name now) out ts disk
        ]

    -- A request whose tenant is known.
    unfoldable pub accept : Limits → LogsRequest → String → ℕ → LogReceiver → ℕ × LogReceiver
    unfolding read_and_store allow_request media_allowed tenant_state
    accept l r tenant now s =
        if not (media_allowed r.media_type)
        then (415, s)
        else if exceeds r.content_length l.max_request_bytes
        then (413, s)
        else let (allowed, ts) =
            allow_request now l.requests_per_minute (tenant_state tenant s.tenants) in
          with_tenant tenant
            (if allowed then read_and_store l r tenant now ts s.disk else (429, ts, s.disk)) s

    unfoldable pub fail : ℕ → String → ℕ → LogReceiver → ℕ × LogReceiver
    unfolding record_failure
    fail code ip now s =
        (code, record s { clients = record_failure outside.first ip now s.clients })

    unfoldable pub handle_logs : Settings → LogsRequest → ℕ → LogReceiver → ℕ × LogReceiver
    unfolding accept fail require_method limits remote_ip blocked tenant_id_for_token
    handle_logs c r now s =
        if not (require_method ("POST" ∷ []) r.method)
        then (405, s)
        else let ip = remote_ip outside.split_host_port r.remote_addr in
          let (stopped, clients) = blocked ip now s.clients in
          let s1 : LogReceiver = record s { clients = clients } in
          let tenant = tenant_id_for_token c.tokens (drop 7 r.authorization) in
          if stopped
          then (429, s1)
          else if not (has_prefix r.authorization bearer)
          then fail 401 ip now s1
          else if str_eq tenant ""
          then fail 403 ip now s1
          else accept (limits c) r tenant now s1
