-- ===== src/Proxy/Tests.antt =====
-- The theorems about the chain of controls at concrete requests.
use synit_waf.Prelude.{ℕ, ◌+◌, true, false, not, none, some, [], ◌∷◌, ◌≡◌, refl}
use synit_waf.Request.Address.{v4, prefixes_contain, prefix_contains, contains_at, same_network}
use synit_waf.Proxy.Serve.{
  country, not_banned, Controls, Settings, TenantPolicy, Arrival, forwarded, list_contains,
  allowlisted, block_stage, country_stage, global_stage, rate_stage, jwt_stage, basic_stage,
  crowdsec_stage, inspect_stage, forward, serve_http,
}
use synit_waf.Proxy.Chain.{
  CountryAllowed, GlobalAdmits, Passes, Admits, Unbanned, Inspected, serve_http_sound,
}

-- Controls that count their calls and let every request pass to the upstream 7.
abbrev controls : Controls
controls = record {
  State = ℕ;
  lookup_country = λ ip s. country (some "DE");
  global_limiter = some (λ s. (true, s + 1));
  allow_rate_limited = λ s. (true, s + 1);
  run_jwt = λ s. (none, s + 1);
  ask_basic_auth = λ s. (true, s + 1);
  bouncer = some (λ s. (not_banned, s + 1));
  run_waf = λ s. (none, s + 1);
  apply_graphql = λ s. (none, s + 1);
  apply_llm = λ s. (none, s + 1);
  has_upstreams = λ s. true;
  choose_upstream = λ s. (some 7, s);
}

abbrev settings : Settings
settings = record {
  block_ips = some (record { addr = v4 1; bits = 32 } ∷ []);
  allow_ips = some (record { addr = v4 2; bits = 32 } ∷ []);
  fail_closed = true;
}

abbrev tenant : TenantPolicy
tenant = record {
  geoip_enabled = some true;
  blocked_countries = "XX" ∷ [];
  jwt_enabled = true;
  has_basic_auth = true;
  crowdsec_enabled = some true;
  has_waf = true;
  graphql_enabled = true;
  llm_enabled = true;
}

abbrev from : ℕ → Arrival
from a = record { ip = some (v4 a); bypass_granted = false }

blocks_1 : list_contains settings.block_ips (from 1).ip ≡ true
unfolding list_contains prefixes_contain prefix_contains contains_at same_network
blocks_1 = refl

frees_2 : list_contains settings.block_ips (from 2).ip ≡ false
unfolding list_contains prefixes_contain prefix_contains contains_at same_network
frees_2 = refl

allows_2 : list_contains settings.allow_ips (from 2).ip ≡ true
unfolding list_contains prefixes_contain prefix_contains contains_at same_network
allows_2 = refl

served : (serve_http controls settings (from 3) (some tenant) 0).0 ≡ forwarded 7
unfolding serve_http block_stage country_stage global_stage rate_stage jwt_stage basic_stage
    crowdsec_stage inspect_stage forward list_contains prefixes_contain prefix_contains contains_at
    same_network
served = refl

serve_http_sound_example :
    (list_contains settings.block_ips (from 3).ip ≡ false)
    × ((s3 : ℕ) × (s4 : ℕ) × (s5 : ℕ) × (s6 : ℕ) × (s7 : ℕ) × (s8 : ℕ) × CountryAllowed controls
          settings
          (from 3)
          tenant
          0
        × GlobalAdmits controls settings (from 3) 0 s3
        × Admits controls settings
            (from 3)
            (not (allowlisted controls settings (from 3)))
            controls.allow_rate_limited
            s3
            s4
        × Passes controls settings (from 3) true controls.run_jwt s4 s5
        × Admits controls settings (from 3) true controls.ask_basic_auth s5 s6
        × Unbanned controls settings (from 3) tenant s6 s7
        × Inspected controls settings (from 3) tenant s7 s8
        × ((controls.choose_upstream s8).0 ≡ some 7))
serve_http_sound_example = serve_http_sound controls settings (from 3) tenant 0 7 served
