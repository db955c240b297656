-- ===== src/Receiver/Ready.antt =====
-- `logsDirWritable`, `handleReadyz` and `handleHealthz` of services/ai-logs-receiver/main.go.
--
-- Whether the probe with a temporary file succeeds is a function of the time it is made at.
use synit_waf.Prelude.{
  ℕ, ◌+◌, ◌-◌, ◌<◌, Bool, true, false, not, Option, none, some, [], ◌∷◌, String, ltb, if◌then◌else◌,
  ◌≡◌, arith, Bool-cases, Option-cases, inl, inr,
}
use synit_waf.Receiver.Serve.{require_method}

-- `ready_checked` is none before the first probe.
pub record Readiness : Type 0 where
  pub ready_checked : Option ℕ
  pub writable : Bool

-- 5 seconds.
abbrev pub readiness_cache_interval : ℕ
readiness_cache_interval = 5000000000

unfoldable pub is_fresh : ℕ → Option ℕ → Bool
is_fresh now none = false
is_fresh now (some checked) = ltb (now - checked) readiness_cache_interval

module _ (check_dir_writable : ℕ → Bool) where
  unfoldable pub logs_dir_writable : ℕ → Readiness → Bool × Readiness
  unfolding is_fresh
  logs_dir_writable now r =
      let probed = check_dir_writable now in
      if is_fresh now r.ready_checked
      then (r.writable, r)
      else (probed, record r { ready_checked = some now; writable = probed })

  unfoldable pub handle_readyz : String → ℕ → Readiness → ℕ × Readiness
  unfolding logs_dir_writable require_method
  handle_readyz method now r =
      let (ok, r1) = logs_dir_writable now r in
      if not (require_method ("GET" ∷ "HEAD" ∷ []) method)
      then (405, r)
      else if ok
      then (200, r1)
      else (503, r1)

  -- The answer that is kept is the one of the probe that was made last.
  abbrev pub IsProbed : Readiness → Type 0
  IsProbed r = (t : ℕ) → r.ready_checked ≡ some t → r.writable ≡ check_dir_writable t

  logs_dir_writable-recent :
      (now : ℕ) (r : Readiness)
      → IsProbed r
      → IsProbed (logs_dir_writable now r).1
        × ((t : ℕ) × (now < t + readiness_cache_interval)
            × ((logs_dir_writable now r).0 ≡ check_dir_writable t))
  unfolding logs_dir_writable is_fresh
  logs_dir_writable-recent now r probed = elim (Option-cases r.ready_checked) [
    | inl never ↦ (λ t e. ground arith, (now, omega arith, ground arith))
    | inr (t, last) ↦ elim (Bool-cases (is_fresh now (some t))) [
      | inl fresh ↦ (ground (arith, probed), (t, ground arith, ground (arith, probed t last)))
      | inr stale ↦ (λ t e. ground arith, (now, omega arith, ground arith))
    ]
  ]

  -- The readiness endpoint answers 200 or 503 as a probe of the last five seconds did, however often
  -- it is asked.
  pub handle_readyz_recent :
      (method : String) (now : ℕ) (r : Readiness)
      → require_method ("GET" ∷ "HEAD" ∷ []) method ≡ true
      → IsProbed r
      → IsProbed (handle_readyz method now r).1
        × ((t : ℕ) × (now < t + readiness_cache_interval)
            × ((handle_readyz method now r).0 ≡ (if check_dir_writable t then 200 else 503)))
  unfolding handle_readyz
  handle_readyz_recent method now r allowed probed =
      let (kept, (t, recent, same)) = logs_dir_writable-recent now r probed in
      (ground (arith, kept), (t, recent, ground arith))
