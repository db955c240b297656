-- ===== src/Config/Tenants.antt =====
-- `ValidateConfig` of internal/waf/config_validation.go: the guards on each tenant and the whole of it;
-- and the mapping of hosts to tenants that `Reload` of internal/waf/config.go publishes.
--
-- The tenants stand in the order in which Go happens to walk the map.
use synit_waf.Prelude.{
  ℕ, Bool, true, false, not, ◌||◌, ◌&&◌, String, Option, none, some, List, [], ◌∷◌, length, any,
  str_eq, ltb, ◌==◌, if◌then◌else◌,
}
use synit_waf.Request.Text.{Bytes, bytes_eq, has_prefix}
use synit_waf.Registry.{star_dot, normalize_host}
use synit_waf.Config.{Go, Upstream, Tenant, Acme, AppConfig}
use synit_waf.Config.Faults.{
  Fault, of_tenant, check, first_fault, each, negative, validate_inspection_paths,
}
use synit_waf.Config.Global.{check_global}
use synit_waf.Config.Security.{
  check_waf, check_crowd_sec, check_geoip, check_authentication, check_masking, check_rate,
  check_breaker, check_graphql, check_llm,
}

-- `minDevBypassSecretBytes`.
abbrev pub min_dev_bypass_secret_bytes : ℕ
min_dev_bypass_secret_bytes = 32

-- The tenant whose host was seen.
unfoldable pub seen_host : Bytes → List (Bytes × String) → Option String
seen_host host [] = none
seen_host host ((h, fqdn) ∷ seen) = if bytes_eq h host then some fqdn else seen_host host seen

abbrev pub is_seen : Option String → Bool
is_seen none = false
is_seen (some fqdn) = true

-- `newMapping[host] = entry`.
unfoldable pub put_entry : Bytes → Tenant → List (Bytes × Tenant) → List (Bytes × Tenant)
put_entry host t [] = (host, t) ∷ []
put_entry host t ((h, old) ∷ mapping) =
    if bytes_eq h host then (host, t) ∷ mapping else (h, old) ∷ put_entry host t mapping

module _ (go : Go) (to_lower : Bytes → Bytes) (split_host_port : Bytes → Option Bytes) where
  abbrev pub host_of : String → Bytes
  host_of fqdn = normalize_host to_lower split_host_port (go.bytes fqdn)

  unfoldable pub refuses_upstream : Upstream → Bool
  refuses_upstream u = elim (go.parse_url (go.trim u.url)) [
    | none ↦ true
    | some target ↦
        not (str_eq target.scheme "http") && not (str_eq target.scheme "https")
        || str_eq target.url_host ""
        || target.has_user
        || negative u.response_header_timeout
  ]

  unfoldable pub check_host : Acme → List (Bytes × String) → String → Option Fault
  unfolding seen_host
  check_host acme seen fqdn =
      let host = host_of fqdn in
      first_fault (
        check (bytes_eq host []) (of_tenant fqdn "host")
        ∷ check (any (λ b. b == b'*') host && not (has_prefix host star_dot))
            (of_tenant fqdn "wildcard")
        ∷ check
            (acme.enabled
              && has_prefix host star_dot
              && not (go.equal_fold (go.trim acme.dns_provider) "cloudflare"))
            (of_tenant fqdn "acme.dns_provider")
        ∷ check (is_seen (seen_host host seen)) (of_tenant fqdn "host")
        ∷ [])

  abbrev pub basic_guards : String → Tenant → List (Option Fault)
  basic_guards fqdn t =
      let secret = t.security.dev_bypass_secret in
      let page = t.security.block_page_path in
      (check (length t.upstreams == 0) (of_tenant fqdn "upstreams")
        ∷ each (λ u. check (refuses_upstream u) (of_tenant fqdn "upstreams")) t.upstreams
        ∷ check (negative t.check_interval || negative t.check_timeout)
            (of_tenant fqdn "health_check")
        ∷ (if str_eq t.check_path ""
            then none
            else validate_inspection_paths go (of_tenant fqdn "health_check.path")
                (t.check_path ∷ []))
        ∷ check
            (not (str_eq secret "") && ltb (length (go.bytes secret)) min_dev_bypass_secret_bytes)
            (of_tenant fqdn "dev_bypass_secret")
        ∷ check (not (str_eq page "") && not (go.is_regular_file page))
            (of_tenant fqdn "block_page_path")
        ∷ [])

  unfoldable pub check_basics : String → Tenant → Option Fault
  unfolding refuses_upstream validate_inspection_paths
  check_basics fqdn t = first_fault (basic_guards fqdn t)

  abbrev pub tenant_guards : AppConfig → String → Tenant → List (Option Fault)
  tenant_guards cfg fqdn t =
      let s = t.security in
      (check_basics fqdn t
        ∷ check_waf go fqdn cfg s
        ∷ check_crowd_sec go fqdn cfg s
        ∷ check_geoip go fqdn cfg s
        ∷ check_authentication go fqdn cfg s
        ∷ check_masking go fqdn t
        ∷ check_rate go fqdn s.rate_limit
        ∷ check_breaker go fqdn s.circuit_breaker
        ∷ check_graphql go fqdn s.graphql
        ∷ check_llm go fqdn cfg.global_settings.allow_insecure_service_urls s
        ∷ [])

  unfoldable pub check_tenant : AppConfig → String → Tenant → Option Fault
  unfolding check_basics check_waf check_crowd_sec check_geoip check_authentication check_masking
      check_rate check_breaker check_graphql check_llm
  check_tenant cfg fqdn t = first_fault (tenant_guards cfg fqdn t)

  -- The loop over the tenants, with the hosts seen so far.
  unfoldable pub check_tenants :
      AppConfig → List (Bytes × String) → List (String × Tenant) → Option Fault
  unfolding check_host check_tenant
  check_tenants cfg seen [] = none
  check_tenants cfg seen ((fqdn, t) ∷ tenants) = first_fault (
      check_host cfg.global_settings.acme seen fqdn
      ∷ check_tenant cfg fqdn t
      ∷ check_tenants cfg ((host_of fqdn, fqdn) ∷ seen) tenants
      ∷ [])

  -- none: the configuration is accepted.
  unfoldable pub validate_config : AppConfig → Option Fault
  unfolding check_global check_tenants
  validate_config cfg = first_fault (check_global go cfg ∷ check_tenants cfg [] cfg.tenants ∷ [])

  -- The loop of `Reload` that fills the new mapping.
  unfoldable pub publish : List (Bytes × Tenant) → List (String × Tenant) → List (Bytes × Tenant)
  unfolding put_entry
  publish mapping [] = mapping
  publish mapping ((fqdn, t) ∷ tenants) = publish (put_entry (host_of fqdn) t mapping) tenants
