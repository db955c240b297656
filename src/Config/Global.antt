-- ===== src/Config/Global.antt =====
-- The guards of `ValidateConfig` in internal/waf/config_validation.go on the settings that all tenants
-- share.
use synit_waf.Prelude.{
  Bool, false, not, ◌||◌, ◌&&◌, String, Option, none, some, List, [], ◌∷◌, length, str_eq, ◌==◌,
  if◌then◌else◌,
}
use synit_waf.Config.{
  Go, Tls, CoordinatorSettings, Acme, GlobalSettings, LogSink, Logging, CrowdSec, AppConfig,
}
use synit_waf.Config.Faults.{
  Fault, global, check, first_fault, when, each, negative, positive, is_zero, blank, normal,
  normalize_oversize_action, normalize_dependency_fail_mode, refuses_service_url,
}

-- `address` where it is empty.
abbrev pub admin_address_or_default : String → String
admin_address_or_default address = if str_eq address "" then "127.0.0.1:9090" else address

abbrev pub refuses_cache_ttl : CrowdSec → Bool
refuses_cache_ttl c = elim c.cache_ttl [ none ↦ false | some ttl ↦ negative ttl ]

module _ (go : Go) where
  unfoldable pub check_modes : GlobalSettings → Option Fault
  unfolding normalize_oversize_action normalize_dependency_fail_mode
  check_modes s =
      let fail_mode = normalize_dependency_fail_mode go s.dependency_fail_mode in
      first_fault (
        check (not (str_eq (normalize_oversize_action go s.oversize_action) "reject"))
          (global "global_settings.request_body_oversize_action")
        ∷ check (not (str_eq fail_mode "fail_open") && not (str_eq fail_mode "fail_closed"))
            (global "global_settings.security_dependency_failure_mode")
        ∷ check (not (go.is_host_port (admin_address_or_default s.admin_address)))
            (global "global_settings.admin_address")
        ∷ [])

  unfoldable pub check_limits : GlobalSettings → CrowdSec → Option Fault
  check_limits s c =
      let rate = s.global_rate_limit in
      first_fault (
        check (negative rate.requests_per_minute)
          (global "global_settings.global_rate_limit.requests_per_minute")
        ∷ check (negative rate.burst) (global "global_settings.global_rate_limit.burst")
        ∷ check (positive rate.requests_per_minute && is_zero rate.burst)
            (global "global_settings.global_rate_limit.burst")
        ∷ check (negative s.read_timeout || negative s.write_timeout || negative s.idle_timeout)
            (global "global_settings HTTP timeouts")
        ∷ check (negative s.request_body_limit || negative s.response_masking_limit)
            (global "global_settings.request_body_limit")
        ∷ check (negative s.max_idle_conns_per_host || negative s.max_conns_per_host)
            (global "global_settings.upstream_transport")
        ∷ check (refuses_cache_ttl c) (global "crowdsec.cache_ttl")
        ∷ [])

  -- The files that both roles name.
  abbrev pub lacks_files : Tls → Bool
  lacks_files tls = blank go tls.ca_file || blank go tls.cert_file || blank go tls.key_file

  unfoldable pub check_coordinator : CoordinatorSettings → Option Fault
  check_coordinator c = when c.enabled (
      check (not (str_eq c.role "leader") && not (str_eq c.role "follower"))
        (global "global_settings.coordinator.role")
      ∷ check (not (go.is_host_port c.address)) (global "global_settings.coordinator.address")
      ∷ check (blank go c.secret) (global "global_settings.coordinator.secret")
      ∷ check (str_eq c.role "leader" && lacks_files c.tls)
          (global "global_settings.coordinator.tls")
      ∷ check (str_eq c.role "follower" && (lacks_files c.tls || blank go c.tls.server_name))
          (global "global_settings.coordinator.tls")
      ∷ [])

  abbrev pub address_guards : GlobalSettings → List (Option Fault)
  address_guards s =
      let entry =
        λ (name : String) (e : String). check (not (go.is_prefix_or_addr e)) (global name) in
      (each (entry "global_settings.ip_sets.allow_list") s.allow_list
        ∷ each (entry "global_settings.ip_sets.block_list") s.block_list
        ∷ each (entry "global_settings.ip_sets.trusted_proxy_cidrs") s.trusted_proxy_cidrs
        ∷ check (s.trust_forwarded_for && length s.trusted_proxy_cidrs == 0)
            (global "global_settings.trusted_proxy_cidrs")
        ∷ [])

  unfoldable pub check_addresses : GlobalSettings → Option Fault
  check_addresses s = first_fault (address_guards s)

  unfoldable pub check_acme : Acme → Option Fault
  check_acme a =
      let provider = normal go a.dns_provider in
      when a.enabled (
        check (blank go a.email) (global "global_settings.acme.email")
        ∷ check (not a.agree_tos) (global "global_settings.acme.agree_tos")
        ∷ check (not (str_eq provider "") && not (str_eq provider "cloudflare"))
            (global "global_settings.acme.dns_provider")
        ∷ check (str_eq provider "cloudflare" && blank go a.dns_token)
            (global "global_settings.acme.dns_token")
        ∷ [])

  unfoldable pub check_sink : String → LogSink → Option Fault
  check_sink name sink =
      let format = normal go sink.format in
      when sink.enabled (
        check (blank go sink.path) (global name)
        ∷ check (not (str_eq format "json") && not (str_eq format "text")) (global name)
        ∷ [])

  unfoldable pub check_logging : Bool → Logging → Option Fault
  unfolding check_sink refuses_service_url
  check_logging allow_insecure l = first_fault (
      check_sink "logging.access_log" l.access_log
      ∷ check_sink "logging.error_log" l.error_log
      ∷ when l.log_forwarder.enabled (
          check (blank go l.log_forwarder.token) (global "logging.log_forwarder.token")
          ∷ check (refuses_service_url go l.log_forwarder.url allow_insecure)
              (global "logging.log_forwarder.url")
          ∷ [])
      ∷ [])

  abbrev pub global_guards : AppConfig → List (Option Fault)
  global_guards cfg =
      let s = cfg.global_settings in
      (check_modes s
        ∷ check_limits s cfg.crowdsec
        ∷ check_coordinator s.coordinator
        ∷ check_addresses s
        ∷ check_acme s.acme
        ∷ check_logging s.allow_insecure_service_urls cfg.logging
        ∷ check (length cfg.tenants == 0) (global "tenants")
        ∷ [])

  -- All that comes before the tenants.
  unfoldable pub check_global : AppConfig → Option Fault
  unfolding check_modes check_limits check_coordinator check_addresses check_acme check_logging
  check_global cfg = first_fault (global_guards cfg)
