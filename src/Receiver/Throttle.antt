-- ===== src/Receiver/Throttle.antt =====
-- Failures of authentication one after the other, as `authFailureLimiter` of
-- services/ai-logs-receiver/main.go counts them.
use synit_waf.Prelude.{
  ℕ, suc, ◌+◌, ◌≤◌, ◌<◌, false, String, Option, none, some, List, [], ◌∷◌, length, leb,
  if◌then◌else◌, lookup, lookup-insert, length-insert, str_eq, eq_iff, ◌≡◌, refl, sym, subst, inl,
  inr, arith, Bool-cases, Option-cases,
}
use synit_waf.Receiver.Failures.{
  AuthFailures, Clients, auth_failure_window, max_auth_failures, max_auth_failure_clients, expired,
  blocked, fresh_failure, record_failure,
}

-- Failures one after the other: the addresses and the times they fail at.
abbrev pub Events : Type 0
Events = List (String × ℕ)

abbrev pub record_failures : (Clients → String) → Events → Clients → Clients
record_failures first [] m = m
record_failures first ((ip, t) ∷ events) m =
    record_failures first events (record_failure first ip t m)

abbrev pub failures_of : String → Events → ℕ
failures_of ip [] = 0
failures_of ip ((k, t) ∷ events) = let n = failures_of ip events in if str_eq k ip then suc n else n

-- All of the events fall into the window that opens at `start`.
abbrev pub Within : ℕ → Events → Type 0
Within start [] = Unit {0}
Within start ((k, t) ∷ events) =
    (start ≤ t) × (t < start + auth_failure_window) × Within start events

-- The address has failed `n` times, first at `start` or later.
abbrev Tracks : ℕ → ℕ → Option AuthFailures → Type 0
Tracks start n none = n ≡ 0
Tracks start n (some e) = (e.count ≡ n) × (start ≤ e.window_start) × (0 < n)

expired-within :
    (start t : ℕ) (e : AuthFailures)
    → start ≤ e.window_start
    → t < start + auth_failure_window
    → expired t e ≡ false
unfolding expired
expired-within start t e a b = ground arith

-- What a failure at `t` makes of an address's entry.
abbrev failed_again : ℕ → Option AuthFailures → AuthFailures
failed_again t none = record { window_start = t; count = 1 }
failed_again t (some e) =
    if expired t e then record { window_start = t; count = 1 } else record e { count = suc e.count }

module _ (first : Clients → String) where
  -- Below its bound the limiter evicts nothing: a failure is its address's alone.
  lookup-record_failure :
      (k ip : String) (t : ℕ) (m : Clients)
      → length m < max_auth_failure_clients
      → lookup ip (record_failure first k t m)
        ≡ (if str_eq k ip then some (failed_again t (lookup k m)) else lookup ip m)
  unfolding record_failure fresh_failure
  lookup-record_failure k ip t m r =
      let e1 : AuthFailures = record { window_start = t; count = 1 } in
      elim (Option-cases (lookup k m)) [
        | inl absent ↦ ground (arith, lookup-insert k ip e1 m)
        | inr (e, there) ↦ ground (
          arith,
          lookup-insert k ip e1 m,
          lookup-insert k ip (record e { count = suc e.count }) m,
        )
      ]

  length-record_failure :
      (k : String) (t : ℕ) (m : Clients)
      → length m < max_auth_failure_clients
      → length (record_failure first k t m) ≤ suc (length m)
  unfolding record_failure fresh_failure
  length-record_failure k t m r =
      let e1 : AuthFailures = record { window_start = t; count = 1 } in
      elim (Option-cases (lookup k m)) [
        | inl absent ↦ ground (arith, length-insert k e1 m)
        | inr (e, there) ↦
            ground
              (arith, length-insert k e1 m, length-insert k (record e { count = suc e.count }) m)
      ]

module _ (ip : String) (start : ℕ) where
  Tracks-failed_again :
      (t n : ℕ) (o : Option AuthFailures)
      → start ≤ t
      → t < start + auth_failure_window
      → Tracks start n o
      → Tracks start (suc n) (some (failed_again t o))
  Tracks-failed_again t n none a b h = ground arith
  Tracks-failed_again t n (some e) a b h = ground (arith, expired-within start t e h.1 b)

  Tracks-run :
      (first : Clients → String) (n total : ℕ) (events : Events) (m : Clients)
      → length m + length events ≤ max_auth_failure_clients
      → Within start events
      → Tracks start n (lookup ip m)
      → total ≡ failures_of ip events + n
      → Tracks start total (lookup ip (record_failures first events m))
  Tracks-run first n total [] m r w h e =
      subst (λ x. Tracks start x (lookup ip m)) (omega (arith, e)) h
  Tracks-run first n total ((k, t) ∷ events) m r w h e =
      let next = record_failure first k t m in
      let roomy : length next + length events ≤ max_auth_failure_clients =
        omega (arith, r, length-record_failure first k t m (omega (arith, r))) in
      let found = lookup-record_failure first k ip t m (omega (arith, r)) in
      elim (Bool-cases (str_eq k ip)) [
        | inl same ↦
            let step : lookup ip next ≡ some (failed_again t (lookup ip m)) =
              ground (arith, found, eq_iff k ip) in
            let here : Tracks start (suc n) (lookup ip next) =
              subst (Tracks start (suc n)) (sym step)
                (Tracks-failed_again t n (lookup ip m) w.0 w.1 h) in
            Tracks-run first (suc n) total events next roomy w.2 here (ground (arith, e))
        | inr other ↦
            let step : lookup ip next ≡ lookup ip m = ground (arith, found) in
            let here : Tracks start n (lookup ip next) = subst (Tracks start n) (sym step) h in
            Tracks-run first n total events next roomy w.2 here (ground (arith, e))
      ]

  -- Starting with an address that is not in the table, and while the table has room for every
  -- failure, the failures of one minute block the address exactly from the tenth of its own on,
  -- however the failures of other addresses stand between them.
  pub blocked_iff_failed :
      (first : Clients → String) (now : ℕ) (events : Events) (m : Clients)
      → length m + length events ≤ max_auth_failure_clients
      → lookup ip m ≡ none
      → Within start events
      → now < start + auth_failure_window
      → (blocked ip now (record_failures first events m)).0
        ≡ leb max_auth_failures (failures_of ip events)
  unfolding blocked
  blocked_iff_failed first now events m r absent w b =
      let n = failures_of ip events in
      let t : Tracks start n (lookup ip (record_failures first events m)) =
        Tracks-run first 0 n events m r w (subst (Tracks start 0) (sym absent) refl)
          (omega arith) in
      elim (Option-cases (lookup ip (record_failures first events m))) [
        | inl none_left ↦
            let zero_failures : n ≡ 0 = subst (Tracks start n) none_left t in ground arith
        | inr (e, there) ↦
            let kept : Tracks start n (some e) = subst (Tracks start n) there t in
            ground (arith, expired-within start now e kept.1 b)
      ]
