-- ===== src/Upstream.antt =====
-- internal/waf/middleware.go: one upstream server, its circuit breaker and health flag, and the
-- round-robin choice among a tenant's upstreams.
--
-- Times are nanoseconds since the Unix epoch, passed to each operation that reads the clock.
-- `counter` is a `uint64` and `failures` an `int32` read as a bit pattern: both wrap around. The
-- atomics of the source are read and written one after the other, so a call is one step.
pub mod Select
pub mod Rotation
pub mod Breaker
mod Tests
use synit_waf.Prelude.{
  ℕ, zero, suc, ◌+◌, ◌*◌, ◌/◌, ◌%◌, ◌^◌, Bool, true, false, ◌&&◌, Option, none, some, List, length,
  get_elem?, set, ltb, leb, ◌==◌, if◌then◌else◌, any,
}

pub record UpstreamServer : Type 0 where
  pub healthy : Bool
  pub failures : ℕ
  pub dead_until : ℕ

pub record TenantState : Type 0 where
  pub upstreams : List UpstreamServer
  pub counter : ℕ

abbrev pub uint64_mod : ℕ
uint64_mod = 2 ^ 64

abbrev pub int32_mod : ℕ
int32_mod = 2 ^ 32

abbrev pub second : ℕ
second = 1_000_000_000

abbrev pub unix : ℕ → ℕ
unix now = now / second

-- The circuit breaker's policy of a tenant.
pub record CircuitBreaker : Type 0 where
  pub enabled : Bool
  pub threshold : ℕ
  pub cooldown : ℕ
  pub failure_status_codes : List ℕ

-- The upstream is in its cooldown: `deadUntil > 0 && now < deadUntil`.
pub in_cooldown : ℕ → UpstreamServer → Bool
in_cooldown now u = ltb 0 u.dead_until && ltb now u.dead_until

-- `upstream.deadUntil.Store(0)` where the mark has expired.
pub revive : UpstreamServer → UpstreamServer
revive u = record u { dead_until = 0 }

-- The counter after `ts.counter.Add(1)`, and the place that it stands for.
abbrev pub next_count : TenantState → ℕ
next_count ts = (ts.counter + 1) % uint64_mod

abbrev pub slot : TenantState → ℕ
slot ts = next_count ts % length ts.upstreams

-- The loop of `selectUpstream`, with the rounds left; the result is the index of the upstream.
pub probe : ℕ → ℕ → TenantState → Option ℕ × TenantState
unfolding in_cooldown revive
probe zero now ts = (none, ts)
probe (suc rounds) now ts =
    let i = slot ts in
    let moved : TenantState = record ts { counter = next_count ts } in
    elim (get_elem? ts.upstreams i) [
      | none ↦ (none, moved)
      | some u ↦ elim (in_cooldown now u) [
        | true ↦ probe rounds now moved
        | false ↦
            let kept : TenantState = record moved { upstreams = set ts.upstreams i (revive u) } in
            elim u.healthy [ true ↦ (some i, kept) | false ↦ probe rounds now kept ]
      ]
    ]

pub select_upstream : ℕ → TenantState → Option ℕ × TenantState
select_upstream now ts = probe (length ts.upstreams) (unix now) ts

-- `recordUpstreamFailure`. A negative `int32` is below every threshold.
pub record_upstream_failure : ℕ → ℕ → ℕ → UpstreamServer → UpstreamServer
record_upstream_failure now threshold cooldown u =
    let fails = (u.failures + 1) % int32_mod in
    let counted : UpstreamServer = record u { failures = fails } in
    if ltb fails (2 ^ 31) && leb threshold fails
    then (record counted {
      dead_until = unix (now + (if cooldown == 0 then 30 * second else cooldown));
    })
    else counted

-- The breaker's part of `proxy.ModifyResponse`, at the response's status code.
pub observe_response : CircuitBreaker → ℕ → ℕ → UpstreamServer → UpstreamServer
observe_response policy now status u =
    if policy.enabled && any (λ code. code == status) policy.failure_status_codes
    then record_upstream_failure now policy.threshold policy.cooldown u
    else (record u { failures = 0 })

-- The breaker's part of `proxy.ErrorHandler`: `ignored` says that the client's context ended, the
-- error is a cancellation, or it comes from the inspection of the response.
unfoldable pub observe_error : CircuitBreaker → ℕ → Bool → UpstreamServer → UpstreamServer
observe_error policy now ignored u =
    if policy.enabled && (if ignored then false else true)
    then record_upstream_failure now policy.threshold policy.cooldown u
    else u

-- `performCheck`, at the outcome of `checkUpstream`.
unfoldable pub perform_check : Bool → UpstreamServer → UpstreamServer
perform_check passed u = record u { healthy = passed }
