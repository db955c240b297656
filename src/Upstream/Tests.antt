-- ===== src/Upstream/Tests.antt =====
-- The theorems about internal/waf/middleware.go's upstreams at concrete tenants.
use synit_waf.Prelude.{ℕ, ◌*◌, true, false, some, [], ◌∷◌, ◌≡◌, refl, ◌≢◌, ◌+◌, arith, ◌%◌}
use synit_waf.Upstream.{
  UpstreamServer, TenantState, CircuitBreaker, second, unix, select_upstream, in_cooldown, probe,
  revive,
}
use synit_waf.Upstream.Select.{pick, flags, available, select_upstream-pick}
use synit_waf.Upstream.Rotation.{select_times, AllUp, select_upstream_rotates}
use synit_waf.Upstream.Breaker.{fail_at, breaker_opens}

abbrev up : UpstreamServer
up = record { healthy = true; failures = 0; dead_until = 0 }

abbrev down : UpstreamServer
down = record { healthy = false; failures = 3; dead_until = 0 }

abbrev cooling : UpstreamServer
cooling = record { healthy = true; failures = 3; dead_until = 50 }

-- The place behind the counter is the second one, which is down; the third one is cooling.
abbrev mixed : TenantState
mixed = record { upstreams = up ∷ down ∷ cooling ∷ []; counter = 0 }

abbrev pair_up : TenantState
pair_up = record { upstreams = up ∷ up ∷ []; counter = 4 }

abbrev noon : ℕ
noon = 20 * second

mixed_choice : (select_upstream noon mixed).0 ≡ some 0
unfolding select_upstream probe in_cooldown revive
mixed_choice = refl

select_upstream-pick_example : (select_upstream noon mixed).0 ≡ pick 3 0 (flags 20 mixed.upstreams)
select_upstream-pick_example = select_upstream-pick noon mixed

pair_up-AllUp : AllUp (flags (unix noon) pair_up.upstreams)
unfolding available in_cooldown
pair_up-AllUp = (refl, (refl, tt))

select_upstream_rotates_example :
    (select_upstream noon (select_times 2 noon pair_up)).0 ≡ some ((4 + 2 + 1) % 2)
select_upstream_rotates_example =
    select_upstream_rotates 2 noon pair_up pair_up-AllUp (omega arith) (omega arith)

abbrev failing : TenantState
failing = record { upstreams = fail_at 3 0 (1 ∷ 2 ∷ noon ∷ []) up ∷ up ∷ []; counter = 0 }

breaker_opens_example : (select_upstream noon failing).0 ≢ some 0
breaker_opens_example =
    breaker_opens 3 0 (1 ∷ 2 ∷ []) noon noon 0 up failing refl (omega arith) refl (omega arith)

abbrev breaker : CircuitBreaker
breaker = record {
  enabled = true;
  threshold = 3;
  cooldown = 0;
  failure_status_codes = 502 ∷ 503 ∷ [];
}
