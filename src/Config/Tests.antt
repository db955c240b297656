-- ===== src/Config/Tests.antt =====
-- The theorems about the configuration at one with two tenants that is accepted.
use synit_waf.Prelude.{
  true, false, String, Option, none, some, [], ◌∷◌, All, str_eq, pos, if◌then◌else◌, ◌≡◌, refl,
}
use synit_waf.Request.Text.{
  Bytes, bytes_eq, has_prefix, trim_space, trim_left, space1, space2, space3,
}
use synit_waf.Registry.{normalize_host, trim_dot, has_suffix}
use synit_waf.Registry.Scan.{Distinct}
use synit_waf.Config.{Go, SecurityPolicy, Tenant, GlobalSettings, AppConfig}
use synit_waf.Config.Faults.{
  normalize_oversize_action, normalize_dependency_fail_mode, refuses_service_url, refuses_path,
  refuses_rune, validate_inspection_paths,
}
use synit_waf.Config.Global.{
  check_modes, check_limits, check_coordinator, check_addresses, check_acme, check_sink,
  check_logging, check_global,
}
use synit_waf.Config.Security.{
  check_waf, check_crowd_sec, check_geoip, check_authentication, check_masking, check_rate,
  check_breaker, check_graphql, check_sidecar, check_rules, check_llm,
}
use synit_waf.Config.Tenants.{
  seen_host, host_of, refuses_upstream, check_host, check_basics, check_tenant, check_tenants,
  validate_config, publish,
}
use synit_waf.Config.Validated.{looked_up, validate_config_serves}

abbrev host_bytes : String → Bytes
host_bytes s = if str_eq s "a" then b'a' ∷ [] else b'b' ∷ []

abbrev go : Go
go = record {
  bytes = host_bytes;
  runes = λ s. [];
  trim = λ s. s;
  lower = λ s. s;
  upper = λ s. s;
  equal_fold = str_eq;
  is_space = λ r. false;
  is_control = λ r. false;
  parse_url =
      λ s. some (record { scheme = "http"; url_host = "up"; hostname = "up"; has_user = false });
  is_loopback = λ s. false;
  is_host_port = λ s. true;
  is_prefix_or_addr = λ s. true;
  is_regular_file = λ s. true;
  is_bcrypt = λ s. true;
  is_regexp = λ s. true;
  canonical_header = λ s. s;
}

abbrev settings : GlobalSettings
settings = record {
  request_body_limit = pos 0;
  response_masking_limit = pos 0;
  oversize_action = "";
  dependency_fail_mode = "fail_closed";
  allow_insecure_service_urls = false;
  read_timeout = pos 0;
  write_timeout = pos 0;
  idle_timeout = pos 0;
  admin_address = "";
  max_idle_conns_per_host = pos 0;
  max_conns_per_host = pos 0;
  global_rate_limit = record { requests_per_minute = pos 0; burst = pos 0 };
  trust_forwarded_for = true;
  trusted_proxy_cidrs = "10.0.0.0/8" ∷ [];
  acme = record {
    enabled = false;
    agree_tos = false;
    email = "";
    dns_provider = "";
    dns_token = "";
  };
  allow_list = [];
  block_list = [];
  coordinator = record {
    enabled = false;
    role = "";
    address = "";
    secret = "";
    tls = record { ca_file = ""; cert_file = ""; key_file = ""; server_name = "" };
  };
}

abbrev policy : SecurityPolicy
policy = record {
  waf_enabled = some true;
  paranoia_level = pos 2;
  crowd_sec_enabled = none;
  geoip_enabled = none;
  blocked_countries = [];
  include_rule_sets = "llm-protection" ∷ [];
  block_page_path = "";
  jwt_validation = record { enabled = false; jwks_endpoint = ""; issuer = ""; audience = "" };
  dev_bypass_secret = "";
  basic_auth = record { user = "ann"; password = "hash" } ∷ [];
  rate_limit = record { requests_per_minute = pos 60; burst = pos 5 };
  response_masking = [];
  graphql = record {
    enabled = true;
    paths = [];
    max_query_depth = pos 5;
    max_batched_queries = pos 5;
    max_query_bytes = pos 100;
  };
  llm_protection = record {
    enabled = true;
    mode = "rules";
    action = "deny";
    threshold = some 7;
    fail_mode = "closed";
    timeout = pos 5;
    max_body_bytes = pos 0;
    max_text_bytes = pos 100;
    sidecar_max_batch = pos 4;
    sidecar_url = "";
    sidecar_token = "";
    inspect_paths = [];
  };
  circuit_breaker = record {
    enabled = true;
    threshold = pos 3;
    cooldown = pos 10;
    failure_status_codes = pos 502 ∷ [];
  };
}

abbrev tenant : Tenant
tenant = record {
  upstreams = record { url = "http://up"; response_header_timeout = pos 0 } ∷ [];
  check_interval = pos 0;
  check_timeout = pos 0;
  check_path = "";
  strip_response = [];
  inject_response = [];
  security = policy;
}

abbrev config : AppConfig
config = record {
  global_settings = settings;
  logging = record {
    access_log = record { enabled = false; path = ""; format = "" };
    error_log = record { enabled = true; path = "/log"; format = "json" };
    log_forwarder = record { enabled = false; url = ""; token = "" };
  };
  crowdsec = record { api_url = ""; api_key = ""; cache_ttl = none };
  db_path = "";
  waf_rule_sets = "llm-protection" ∷ [];
  tenants = ("a", tenant) ∷ ("b", tenant) ∷ [];
}

abbrev lower : Bytes → Bytes
lower h = h

abbrev no_port : Bytes → Option Bytes
no_port h = none

accepted : validate_config go lower no_port config ≡ none
unfolding validate_config check_tenants check_tenant check_basics check_host refuses_upstream
    seen_host check_llm check_rules check_sidecar check_graphql check_breaker check_rate
    check_masking check_authentication check_geoip check_crowd_sec check_waf check_global
    check_logging check_sink check_acme check_addresses check_coordinator check_limits check_modes
    validate_inspection_paths refuses_path refuses_rune refuses_service_url
    normalize_dependency_fail_mode normalize_oversize_action normalize_host trim_dot has_suffix
    trim_space trim_left space1 space2 space3 has_prefix bytes_eq
accepted = refl

validate_config_serves_example :
    Distinct Tenant (publish go lower no_port [] config.tenants)
    × All
        (λ (e : String × Tenant).
          looked_up go lower no_port config tenant e.0 ≡ some (e.1, host_of go lower no_port e.0))
        config.tenants
validate_config_serves_example = validate_config_serves go lower no_port config tenant accepted
