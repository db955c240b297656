-- ===== src/Config/Security.antt =====
-- The guards of `ValidateConfig` in internal/waf/config_validation.go on one tenant's security policy.
use synit_waf.Prelude.{
  ℕ, Bool, true, false, not, ◌||◌, ◌&&◌, String, Option, none, some, List, [], ◌∷◌, length, str_eq,
  ltb, leb, ◌==◌,
}
use synit_waf.Request.Text.{Bytes}
use synit_waf.Llm.Sidecar.{score_one}
use synit_waf.Config.{
  Go, RateLimit, Graphql, LlmProtection, CircuitBreaker, Credentials, SecurityPolicy, Tenant,
  AppConfig,
}
use synit_waf.Config.Faults.{
  Fault, of_tenant, check, first_fault, when, each, is_on, negative, positive, is_zero, within,
  contains, blank, refuses_service_url, validate_inspection_paths, is_representation_header,
}

-- True for two capital letters.
unfoldable pub is_country_code : Bytes → Bool
is_country_code [] = false
is_country_code (a ∷ []) = false
is_country_code (a ∷ b ∷ []) = leb b'A' a && leb a b'Z' && (leb b'A' b && leb b b'Z')
is_country_code (a ∷ b ∷ c ∷ rest) = false

abbrev pub refuses_threshold : Option ℕ → Bool
refuses_threshold none = true
refuses_threshold (some t) = ltb score_one t

module _ (go : Go) (fqdn : String) where
  abbrev at : String → Fault
  at setting = of_tenant fqdn setting

  unfoldable pub check_waf : AppConfig → SecurityPolicy → Option Fault
  check_waf cfg s = when (is_on s.waf_enabled) (
      check (not (within 1 4 s.paranoia_level)) (at "paranoia_level")
      ∷ each (λ set. check (not (contains cfg.waf_rule_sets set)) (at "waf_rule_set"))
          s.include_rule_sets
      ∷ [])

  unfoldable pub check_crowd_sec : AppConfig → SecurityPolicy → Option Fault
  unfolding refuses_service_url
  check_crowd_sec cfg s = when (is_on s.crowd_sec_enabled) (
      check (blank go cfg.crowdsec.api_url || blank go cfg.crowdsec.api_key) (at "crowdsec.api_url")
      ∷ check
          (refuses_service_url go cfg.crowdsec.api_url
            cfg.global_settings.allow_insecure_service_urls)
          (at "crowdsec.api_url")
      ∷ [])

  unfoldable pub check_geoip : AppConfig → SecurityPolicy → Option Fault
  unfolding is_country_code
  check_geoip cfg s = when (is_on s.geoip_enabled) (
      check (blank go cfg.db_path) (at "geoip.db_path")
      ∷ check (length s.blocked_countries == 0) (at "blocked_countries")
      ∷ each
          (λ country.
            check (not (is_country_code (go.bytes (go.upper (go.trim country)))))
              (at "blocked_countries"))
          s.blocked_countries
      ∷ [])

  abbrev pub authentication_guards : AppConfig → SecurityPolicy → List (Option Fault)
  authentication_guards cfg s =
      let jwt = s.jwt_validation in
      (check (jwt.enabled && ltb 0 (length s.basic_auth)) (at "jwt_validation")
        ∷ when jwt.enabled (
            check (blank go jwt.jwks_endpoint) (at "jwt_validation.jwks_endpoint")
            ∷ check (blank go jwt.issuer || blank go jwt.audience) (at "jwt_validation.issuer")
            ∷ check
                (refuses_service_url go jwt.jwks_endpoint
                  cfg.global_settings.allow_insecure_service_urls)
                (at "jwt_validation.jwks_endpoint")
            ∷ [])
        ∷ each
            (λ (c : Credentials). first_fault (
              check (blank go c.user) (at "basic_auth")
              ∷ check (blank go c.password) (at "basic_auth")
              ∷ check (not (go.is_bcrypt c.password)) (at "basic_auth")
              ∷ []))
            s.basic_auth
        ∷ [])

  unfoldable pub check_authentication : AppConfig → SecurityPolicy → Option Fault
  unfolding refuses_service_url
  check_authentication cfg s = first_fault (authentication_guards cfg s)

  unfoldable pub check_masking : Tenant → Option Fault
  unfolding is_representation_header
  check_masking t =
      let representation =
        λ (key : String). check (is_representation_header go key) (at "response_masking") in
      first_fault (
        each
          (λ (pattern_text : String).
            check (blank go pattern_text || not (go.is_regexp pattern_text))
              (at "response_masking"))
          t.security.response_masking
        ∷ when (ltb 0 (length t.security.response_masking))
            (each representation t.strip_response ∷ each representation t.inject_response ∷ [])
        ∷ [])

  unfoldable pub check_rate : RateLimit → Option Fault
  check_rate rate = first_fault (
      check (negative rate.requests_per_minute) (at "rate_limit.requests_per_minute")
      ∷ check (negative rate.burst) (at "rate_limit.burst")
      ∷ check (positive rate.requests_per_minute && is_zero rate.burst) (at "rate_limit.burst")
      ∷ check (is_zero rate.requests_per_minute && positive rate.burst)
          (at "rate_limit.requests_per_minute")
      ∷ [])

  abbrev pub breaker_guards : CircuitBreaker → List (Option Fault)
  breaker_guards b =
      (check (not (positive b.threshold)) (at "circuit_breaker.threshold")
        ∷ check (negative b.cooldown) (at "circuit_breaker.cooldown")
        ∷ each
            (λ status.
              check (not (within 400 599 status)) (at "circuit_breaker.failure_status_codes"))
            b.failure_status_codes
        ∷ [])

  unfoldable pub check_breaker : CircuitBreaker → Option Fault
  check_breaker b = when b.enabled (breaker_guards b)

  unfoldable pub check_graphql : Graphql → Option Fault
  unfolding validate_inspection_paths
  check_graphql g = when g.enabled (
      check (negative g.max_query_depth) (at "graphql.max_query_depth")
      ∷ check (negative g.max_batched_queries) (at "graphql.max_batched_queries")
      ∷ check (negative g.max_query_bytes) (at "graphql.max_query_bytes")
      ∷ validate_inspection_paths go (at "graphql.paths") g.paths
      ∷ [])

  unfoldable pub check_sidecar : Bool → LlmProtection → Option Fault
  unfolding refuses_service_url
  check_sidecar allow_insecure llm = when (str_eq llm.mode "ml" || str_eq llm.mode "hybrid") (
      check (str_eq llm.sidecar_url "") (at "llm_protection.sidecar_url")
      ∷ check (blank go llm.sidecar_token) (at "llm_protection.sidecar_token")
      ∷ check (refuses_service_url go llm.sidecar_url allow_insecure)
          (at "llm_protection.sidecar_url")
      ∷ [])

  abbrev pub rule_guards : SecurityPolicy → List (Option Fault)
  rule_guards s =
      (check (not (is_on s.waf_enabled)) (at "llm_protection.mode")
        ∷ check (not (contains s.include_rule_sets "llm-protection")) (at "llm_protection.mode")
        ∷ [])

  unfoldable pub check_rules : SecurityPolicy → Option Fault
  check_rules s =
      when (str_eq s.llm_protection.mode "rules" || str_eq s.llm_protection.mode "hybrid")
        (rule_guards s)

  -- The guards under `llm.Enabled`.
  abbrev pub llm_guards : Bool → SecurityPolicy → List (Option Fault)
  llm_guards allow_insecure s =
      let llm = s.llm_protection in
      (check (not (contains ("rules" ∷ "ml" ∷ "hybrid" ∷ []) llm.mode)) (at "llm_protection.mode")
        ∷ check (not (contains ("deny" ∷ "audit" ∷ []) llm.action)) (at "llm_protection.action")
        ∷ check (not (contains ("open" ∷ "closed" ∷ []) llm.fail_mode))
            (at "llm_protection.fail_mode")
        ∷ check (refuses_threshold llm.threshold) (at "llm_protection.threshold")
        ∷ check (not (positive llm.timeout)) (at "llm_protection.timeout")
        ∷ check (not (positive llm.max_text_bytes)) (at "llm_protection.max_text_bytes")
        ∷ check (negative llm.max_body_bytes) (at "llm_protection.max_body_bytes")
        ∷ check (not (positive llm.sidecar_max_batch)) (at "llm_protection.sidecar_max_batch")
        ∷ check_sidecar allow_insecure llm
        ∷ check_rules s
        ∷ [])

  abbrev pub llm_and_paths : Bool → SecurityPolicy → List (Option Fault)
  llm_and_paths allow_insecure s =
      validate_inspection_paths go (at "llm_protection.inspect_paths")
        s.llm_protection.inspect_paths
      ∷ when s.llm_protection.enabled (llm_guards allow_insecure s)
      ∷ []

  unfoldable pub check_llm : Bool → SecurityPolicy → Option Fault
  unfolding check_sidecar check_rules validate_inspection_paths
  check_llm allow_insecure s = first_fault (llm_and_paths allow_insecure s)
