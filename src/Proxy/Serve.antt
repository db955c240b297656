-- ===== src/Proxy/Serve.antt =====
-- `ServeHTTP` of internal/waf/middleware_serve.go: the controls that a request passes, in their
-- order, each of which may answer it.
--
-- The controls are an interface, `Controls`, over one state that stands for all that they read and
-- write. A control that answers the client itself says so with the status it wrote. Logs, metrics and
-- the recovery from a panic are left out: they decide nothing here.
use synit_waf.Prelude.{
  ℕ, Bool, true, false, ◌&&◌, ◌||◌, not, String, Option, none, some, List, any, str_eq,
  if◌then◌else◌,
}
use synit_waf.Request.Address.{Addr, Prefix, prefixes_contain}

-- What a lookup in the GeoIP database gives: the country, if one is found.
pub data Country : Type 0 where
  country : Option String → Country
  lookup_failed : Country

pub data Verdict : Type 0 where
  banned not_banned lapi_failed : Verdict

pub record Controls : Type 1 where
  pub State : Type 0
  pub lookup_country : Option Addr → State → Country
  pub global_limiter : Option (State → Bool × State)
  pub allow_rate_limited : State → Bool × State
  pub run_jwt : State → Option ℕ × State
  pub ask_basic_auth : State → Bool × State
  pub bouncer : Option (State → Verdict × State)
  pub run_waf : State → Option ℕ × State
  pub apply_graphql : State → Option ℕ × State
  pub apply_llm : State → Option ℕ × State
  pub has_upstreams : State → Bool
  pub choose_upstream : State → Option ℕ × State

-- The handler's settings that the chain reads.
pub record Settings : Type 0 where
  pub block_ips : Option (List Prefix)
  pub allow_ips : Option (List Prefix)
  pub fail_closed : Bool

-- The matched tenant's policy.
pub record TenantPolicy : Type 0 where
  pub geoip_enabled : Option Bool
  pub blocked_countries : List String
  pub jwt_enabled : Bool
  pub has_basic_auth : Bool
  pub crowdsec_enabled : Option Bool
  pub has_waf : Bool
  pub graphql_enabled : Bool
  pub llm_enabled : Bool

-- The request's address, if its text is one, and whether it carries the development secret.
pub record Arrival : Type 0 where
  pub ip : Option Addr
  pub bypass_granted : Bool

pub data Outcome : Type 0 where
  answered : ℕ → Outcome
  forwarded : ℕ → Outcome

-- `p != nil && *p`.
abbrev pub is_on : Option Bool → Bool
is_on none = false
is_on (some b) = b

-- A list that is not configured contains nothing, and neither does an address that did not parse.
unfoldable pub list_contains : Option (List Prefix) → Option Addr → Bool
list_contains none ip = false
list_contains (some ps) none = false
list_contains (some ps) (some a) = prefixes_contain ps a

-- A stage answers the request with a status, or lets it go on.
pub data Step (S : Type 0) : Type 0 where
  stop : ℕ → S → Step S
  next : S → Step S

module _ {S : Type 0} where
  infixl 5 ◌>>=◌
  abbrev pub ◌>>=◌ : Step S → (S → Step S) → Step S
  stop status s >>= k = stop status s
  next s >>= k = k s

  abbrev pub limit : Bool × S → Step S
  limit (true, s) = next s
  limit (false, s) = stop 429 s

  -- A control that may have answered.
  abbrev pub unless_answered : Option ℕ × S → Step S
  unless_answered (none, s) = next s
  unless_answered (some status, s) = stop status s

  abbrev pub authenticated : Bool × S → Step S
  authenticated (true, s) = next s
  authenticated (false, s) = stop 401 s

  abbrev pub control : Bool → (S → Option ℕ × S) → S → Step S
  control on apply s = if on then unless_answered (apply s) else next s

  abbrev pub chosen : Option ℕ × S → Outcome × S
  chosen (some i, s) = (forwarded i, s)
  chosen (none, s) = (answered 503, s)

  abbrev pub finish : Step S → (S → Outcome × S) → Outcome × S
  finish (stop status s) k = (answered status, s)
  finish (next s) k = k s

module _ (c : Controls) (g : Settings) (r : Arrival) where
  open c use {State}

  abbrev pub allowlisted : Bool
  allowlisted = list_contains g.allow_ips r.ip

  -- 1. Global IP block list.
  unfoldable pub block_stage : State → Step State
  block_stage s = if list_contains g.block_ips r.ip then stop 403 s else next s

  -- 2. Country policy.
  unfoldable pub country_stage : TenantPolicy → State → Step State
  country_stage t s =
      if not allowlisted && is_on t.geoip_enabled
      then (elim (c.lookup_country r.ip s) [
        | lookup_failed ↦ if g.fail_closed then stop 503 s else next s
        | country found ↦ elim found [
          | none ↦ next s
          | some code ↦
              if any (λ blocked. str_eq blocked code) t.blocked_countries
              then stop 403 s
              else next s
        ]
      ])
      else next s

  -- 3. Global rate limiting.
  unfoldable pub global_stage : State → Step State
  global_stage s =
      if allowlisted
      then next s
      else elim c.global_limiter [ none ↦ next s | some allow ↦ limit (allow s) ]

  -- 5. Per-tenant request rate limiting.
  unfoldable pub rate_stage : State → Step State
  rate_stage s = if allowlisted then next s else limit (c.allow_rate_limited s)

  -- 6. JWT validation.
  unfoldable pub jwt_stage : TenantPolicy → State → Step State
  jwt_stage t s = if t.jwt_enabled then unless_answered (c.run_jwt s) else next s

  -- 7. Basic authentication.
  unfoldable pub basic_stage : TenantPolicy → State → Step State
  basic_stage t s = if t.has_basic_auth then authenticated (c.ask_basic_auth s) else next s

  abbrev pub verdict : Verdict × State → Step State
  verdict (banned, s) = stop 403 s
  verdict (not_banned, s) = next s
  verdict (lapi_failed, s) = if g.fail_closed then stop 503 s else next s

  -- 8. CrowdSec.
  unfoldable pub crowdsec_stage : TenantPolicy → State → Step State
  crowdsec_stage t s =
      if is_on t.crowdsec_enabled
      then (elim c.bouncer [
        | none ↦ if g.fail_closed then stop 503 s else next s
        | some ask ↦ verdict (ask s)
      ])
      else next s

  -- 9. Content inspection.
  unfoldable pub inspect_stage : TenantPolicy → State → Step State
  inspect_stage t s =
      if allowlisted || r.bypass_granted
      then next s
      else (control t.has_waf c.run_waf s
          >>= control t.graphql_enabled c.apply_graphql
          >>= control t.llm_enabled c.apply_llm)

  -- 10. The choice of an upstream.
  unfoldable pub forward : State → Outcome × State
  forward s = if c.has_upstreams s then chosen (c.choose_upstream s) else (answered 503, s)

  -- 4. A host that belongs to no tenant goes no further than the global limit.
  unfoldable pub serve_http : Option TenantPolicy → State → Outcome × State
  serve_http none s = finish (block_stage s >>= global_stage) (λ s'. (answered 403, s'))
  serve_http (some t) s =
      finish
        (block_stage s
          >>= country_stage t
          >>= global_stage
          >>= rate_stage
          >>= jwt_stage t
          >>= basic_stage t
          >>= crowdsec_stage t
          >>= inspect_stage t)
        forward
