-- ===== src/Access/Tests.antt =====
-- The theorems about limits, bans and authentication at small services.
use synit_waf.Prelude.{
  ℕ, ◌+◌, ◌-◌, true, false, String, Option, none, some, List, [], ◌∷◌, ltb, str_eq, ◌≡◌, refl,
}
use synit_waf.Access.RateLimit.{RateLimitPolicy, Limiters}
use synit_waf.Access.CrowdSec.{Lapi}
use synit_waf.Access.BasicAuth.{BasicAuthCredentials, AuthCache, try_credentials, check_basic_auth}

abbrev rate : RateLimitPolicy
rate = record { requests_per_minute = 60; burst = 2 }

-- One limiter, whose count is the state, and a coordinator that fails.
abbrev limiters : Limiters
limiters = record {
  State = ℕ;
  Handle = ℕ;
  coordinator = some (λ k p s. (none, s));
  get = λ k s. (none, s);
  add = λ k e s. s;
  new_limiter = λ p s. (0, p.burst);
  allow = λ h s. (ltb 0 s, s - 1);
}

-- A cache with a ban until 50, and an interface that does not answer.
abbrev lapi : Lapi
lapi = record {
  State = ℕ;
  cache_get = λ ip s. (some (record { is_banned = true; expires = 50 }), s);
  cache_add = λ ip d s. s;
  ask = λ ip s. (none, s);
  set_healthy = λ b s. s;
}

abbrev auth_cache : AuthCache
auth_cache = record { State = ℕ; has = λ k s. (false, s); add = λ k s. s + 1 }

abbrev key : String → String → String → String
key user pass password = user

abbrev credentials : List BasicAuthCredentials
credentials = record { user = "ann"; password = "x" } ∷ record { user = "bob"; password = "y" } ∷ []

abbrev bob : Option (String × String)
bob = some ("bob", "y")

accepted : (check_basic_auth auth_cache key str_eq bob credentials 0).0.0 ≡ true
unfolding check_basic_auth try_credentials
accepted = refl
