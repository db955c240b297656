-- ===== src/Upstream/Breaker.antt =====
-- The passive circuit breaker of internal/waf/middleware.go: when failures open it, and what closes
-- it again.
use synit_waf.Prelude.{
  ℕ, suc, ◌+◌, ◌*◌, ◌^◌, ◌<◌, false, some, List, [], ◌∷◌, length, ◌++◌, ◌≡◌, ◌≢◌, arith, any,
  if◌then◌else◌, ◌==◌, get_elem?,
}
use native.Mathlib.Nat.{div-lt_iff_lt-mul}
use synit_waf.Upstream.{
  UpstreamServer, TenantState, CircuitBreaker, second, unix, record_upstream_failure,
  observe_response, select_upstream,
}
use synit_waf.Upstream.Select.{select_upstream_sound}

-- Failures at the times of a list, in order.
pub fail_at : ℕ → ℕ → List ℕ → UpstreamServer → UpstreamServer
fail_at threshold cooldown [] u = u
fail_at threshold cooldown (now ∷ later) u =
    fail_at threshold cooldown later (record_upstream_failure now threshold cooldown u)

module _ (threshold cooldown : ℕ) where
  -- A run of failures that stays below the threshold only counts.
  pub fail_at_below :
      (times : List ℕ) (u : UpstreamServer)
      → u.failures + length times < threshold
      → threshold < 2 ^ 31
      → fail_at threshold cooldown times u ≡ record u { failures = u.failures + length times }
  unfolding fail_at record_upstream_failure
  fail_at_below [] u h b = ground arith
  fail_at_below (now ∷ later) u h b =
      ground (arith, fail_at_below later (record u { failures = u.failures + 1 }))

  -- The cooldown in force: thirty seconds where none is configured.
  abbrev pub reopens : ℕ → ℕ
  reopens now = unix (now + (if cooldown == 0 then 30 * second else cooldown))

  -- The failure that reaches the threshold marks the upstream dead until its cooldown has passed.
  fail_at_trips :
      (times : List ℕ) (now : ℕ) (u : UpstreamServer)
      → u.failures + suc (length times) ≡ threshold
      → threshold < 2 ^ 31
      → fail_at threshold cooldown (times ++ now ∷ []) u
        ≡ record u { failures = threshold; dead_until = reopens now }
  unfolding fail_at record_upstream_failure
  fail_at_trips [] now u h b = ground arith
  fail_at_trips (first ∷ later) now u h b =
      ground (arith, fail_at_trips later now (record u { failures = u.failures + 1 }))

  unix-lt : (now n : ℕ) → now < n * second → unix now < n
  unix-lt now n h = (div-lt_iff_lt-mul (omega arith)).1 h

  -- Once as many failures follow one another as the threshold says, which is below 2^31, the upstream
  -- gets no request before the last whole second of the clock at or before the end of the cooldown
  -- behind the last of them, whatever else the tenant's state is. That second may come up to a second
  -- before the end.
  pub breaker_opens :
      (times : List ℕ) (last now i : ℕ) (u : UpstreamServer) (ts : TenantState)
      → u.failures + suc (length times) ≡ threshold
      → threshold < 2 ^ 31
      → get_elem? ts.upstreams i ≡ some (fail_at threshold cooldown (times ++ last ∷ []) u)
      → now < reopens last * second
      → (select_upstream now ts).0 ≢ some i
  breaker_opens times last now i u ts h b at_i early chosen =
      let (v, at_v, ready) = select_upstream_sound now ts i chosen in
      let dead = fail_at_trips times last u h b in
      let cools : unix now < reopens last = unix-lt now (reopens last) early in ground arith

-- A response that is no failure closes the count: from it on, fewer failures than the threshold
-- leave the upstream's mark as it was.
pub observe_response_resets :
    (policy : CircuitBreaker) (now status : ℕ) (times : List ℕ) (u : UpstreamServer)
    → any (λ code. code == status) policy.failure_status_codes ≡ false
    → length times < policy.threshold
    → policy.threshold < 2 ^ 31
    → (fail_at policy.threshold policy.cooldown times
        (observe_response policy now status u)).dead_until
      ≡ u.dead_until
unfolding observe_response
observe_response_resets policy now status times u e h b =
    ground (arith, fail_at_below policy.threshold policy.cooldown times (record u { failures = 0 }))
