-- ===== src/Config.antt =====
-- The configuration of internal/waf/config.go, as far as its validation reads it, and the functions of
-- Go's library that the validation calls.
--
-- A flag that may be left out is an `Option`. A threshold is a float64, as in the module of the
-- sidecar: a bit pattern, none for what is negative or no number.
pub mod Faults
pub mod Global
pub mod Security
pub mod Tenants
pub mod Validated
mod Tests
use synit_waf.Prelude.{ℕ, Bool, String, Option, List, ℤ}
use synit_waf.Request.Text.{Bytes}

-- What `url.Parse` gives.
pub record Url : Type 0 where
  pub scheme : String
  pub url_host : String
  pub hostname : String
  pub has_user : Bool

-- `bytes` are the bytes of a text, `runes` its code points.
pub record Go : Type 0 where
  pub bytes : String → Bytes
  pub runes : String → List ℕ
  pub trim : String → String
  pub lower : String → String
  pub upper : String → String
  pub equal_fold : String → String → Bool
  pub is_space : ℕ → Bool
  pub is_control : ℕ → Bool
  pub parse_url : String → Option Url
  pub is_loopback : String → Bool
  pub is_host_port : String → Bool
  pub is_prefix_or_addr : String → Bool
  pub is_regular_file : String → Bool
  pub is_bcrypt : String → Bool
  pub is_regexp : String → Bool
  pub canonical_header : String → String

pub record RateLimit : Type 0 where
  pub requests_per_minute : ℤ
  pub burst : ℤ

pub record Tls : Type 0 where
  pub ca_file : String
  pub cert_file : String
  pub key_file : String
  pub server_name : String

pub record CoordinatorSettings : Type 0 where
  pub enabled : Bool
  pub role : String
  pub address : String
  pub secret : String
  pub tls : Tls

pub record Acme : Type 0 where
  pub enabled : Bool
  pub agree_tos : Bool
  pub email : String
  pub dns_provider : String
  pub dns_token : String

pub record GlobalSettings : Type 0 where
  pub request_body_limit : ℤ
  pub response_masking_limit : ℤ
  pub oversize_action : String
  pub dependency_fail_mode : String
  pub allow_insecure_service_urls : Bool
  pub read_timeout : ℤ
  pub write_timeout : ℤ
  pub idle_timeout : ℤ
  pub admin_address : String
  pub max_idle_conns_per_host : ℤ
  pub max_conns_per_host : ℤ
  pub global_rate_limit : RateLimit
  pub trust_forwarded_for : Bool
  pub trusted_proxy_cidrs : List String
  pub acme : Acme
  pub allow_list : List String
  pub block_list : List String
  pub coordinator : CoordinatorSettings

pub record LogSink : Type 0 where
  pub enabled : Bool
  pub path : String
  pub format : String

pub record LogForwarder : Type 0 where
  pub enabled : Bool
  pub url : String
  pub token : String

pub record Logging : Type 0 where
  pub access_log : LogSink
  pub error_log : LogSink
  pub log_forwarder : LogForwarder

pub record CrowdSec : Type 0 where
  pub api_url : String
  pub api_key : String
  pub cache_ttl : Option ℤ

pub record JwtValidation : Type 0 where
  pub enabled : Bool
  pub jwks_endpoint : String
  pub issuer : String
  pub audience : String

pub record Graphql : Type 0 where
  pub enabled : Bool
  pub paths : List String
  pub max_query_depth : ℤ
  pub max_batched_queries : ℤ
  pub max_query_bytes : ℤ

pub record LlmProtection : Type 0 where
  pub enabled : Bool
  pub mode : String
  pub action : String
  pub threshold : Option ℕ
  pub fail_mode : String
  pub timeout : ℤ
  pub max_body_bytes : ℤ
  pub max_text_bytes : ℤ
  pub sidecar_max_batch : ℤ
  pub sidecar_url : String
  pub sidecar_token : String
  pub inspect_paths : List String

pub record CircuitBreaker : Type 0 where
  pub enabled : Bool
  pub threshold : ℤ
  pub cooldown : ℤ
  pub failure_status_codes : List ℤ

-- A user with a password's hash.
pub record Credentials : Type 0 where
  pub user : String
  pub password : String

pub record SecurityPolicy : Type 0 where
  pub waf_enabled : Option Bool
  pub paranoia_level : ℤ
  pub crowd_sec_enabled : Option Bool
  pub geoip_enabled : Option Bool
  pub blocked_countries : List String
  pub include_rule_sets : List String
  pub block_page_path : String
  pub jwt_validation : JwtValidation
  pub dev_bypass_secret : String
  pub basic_auth : List Credentials
  pub rate_limit : RateLimit
  -- The patterns of the rules.
  pub response_masking : List String
  pub graphql : Graphql
  pub llm_protection : LlmProtection
  pub circuit_breaker : CircuitBreaker

pub record Upstream : Type 0 where
  pub url : String
  pub response_header_timeout : ℤ

pub record Tenant : Type 0 where
  pub upstreams : List Upstream
  pub check_interval : ℤ
  pub check_timeout : ℤ
  pub check_path : String
  pub strip_response : List String
  -- The keys of the headers that are put in.
  pub inject_response : List String
  pub security : SecurityPolicy

pub record AppConfig : Type 0 where
  pub global_settings : GlobalSettings
  pub logging : Logging
  pub crowdsec : CrowdSec
  pub db_path : String
  -- The names of the rule sets.
  pub waf_rule_sets : List String
  pub tenants : List (String × Tenant)
