-- ===== src/Receiver/Window.antt =====
-- `tenantReceiverState` of services/ai-logs-receiver/main.go, with the fixed window that counts a
-- tenant's requests.
use synit_waf.Prelude.{
  ℕ, suc, ◌+◌, ◌-◌, ◌≤◌, ◌<◌, min, Bool, true, false, Option, none, some, List, [], ◌∷◌, length,
  All, leb, if◌then◌else◌, ◌≡◌, refl, arith,
}

-- `window_start` is none before the first request, where the source has the zero time.
pub record TenantReceiverState : Type 0 where
  pub window_start : Option ℕ
  pub requests : ℕ
  pub used_bytes : ℕ
  pub used_known : Bool

-- `time.Minute`.
abbrev pub minute : ℕ
minute = 60000000000

unfoldable pub is_over : ℕ → Option ℕ → Bool
is_over now none = true
is_over now (some start) = leb minute (now - start)

unfoldable pub roll : ℕ → TenantReceiverState → TenantReceiverState
unfolding is_over
roll now s =
    if is_over now s.window_start then record s { window_start = some now; requests = 0 } else s

unfoldable pub allow_request : ℕ → ℕ → TenantReceiverState → Bool × TenantReceiverState
unfolding roll
allow_request now limit s =
    let open_state = roll now s in
    if leb limit open_state.requests
    then (false, open_state)
    else (true, record open_state { requests = suc open_state.requests })

-- How many of the requests at these times are allowed, one after the other.
unfoldable pub allowed_count : ℕ → List ℕ → TenantReceiverState → ℕ
unfolding allow_request
allowed_count limit [] s = 0
allowed_count limit (now ∷ times) s =
    let (ok, next) = allow_request now limit s in
    let n = allowed_count limit times next in if ok then suc n else n

-- All of the times fall into the window that opens at `start`.
abbrev pub Within : ℕ → List ℕ → Type 0
Within start times = All (λ t. (start ≤ t) × (t < start + minute)) times

is_over-within : (start t : ℕ) → t < start + minute → is_over t (some start) ≡ false
unfolding is_over
is_over-within start t h = ground arith

allow_request-within :
    (start t limit : ℕ) (s : TenantReceiverState)
    → t < start + minute
    → s.window_start ≡ some start
    → allow_request t limit s ≡ (
        if leb limit s.requests then (false, s) else (true, record s { requests = suc s.requests }))
unfolding allow_request roll
allow_request-within start t limit s h e = ground (arith, is_over-within start t h)

allowed_count-open :
    (start limit : ℕ) (times : List ℕ) (s : TenantReceiverState)
    → s.window_start ≡ some start
    → Within start times
    → allowed_count limit times s ≡ min (length times) (limit - s.requests)
unfolding allowed_count
allowed_count-open start limit [] s e w = omega arith
allowed_count-open start limit (t ∷ times) s e w =
    let step = allow_request-within start t limit s w.0.1 e in
    ground (
      arith,
      step,
      allowed_count-open start limit times s e w.1,
      allowed_count-open start limit times (record s { requests = suc s.requests }) e w.1,
    )

-- Of the requests that come within one minute of a request that opens a window, exactly as many are
-- allowed as the limit, or all where there are fewer.
pub allowed_count-window :
    (start limit : ℕ) (times : List ℕ) (s : TenantReceiverState)
    → is_over start s.window_start ≡ true
    → Within start times
    → allowed_count limit (start ∷ times) s ≡ min (suc (length times)) limit
unfolding allowed_count allow_request roll
allowed_count-window start limit times s over w =
    let fresh : TenantReceiverState = record s { window_start = some start; requests = 0 } in
    ground (
      arith,
      allowed_count-open start limit times fresh refl w,
      allowed_count-open start limit times (record fresh { requests = 1 }) refl w,
    )
