-- ===== src/Coordinator/Tests.antt =====
-- The theorems about internal/waf/coordinator.go at a concrete table and link.
use synit_waf.Prelude.{
  ℕ, ◌-◌, true, false, none, some, [], ◌∷◌, ltb, lookup, pos, ◌≡◌, refl, arith, ◌==◌, eq_iff,
  pos_part,
}
use synit_waf.Coordinator.{
  Rate, CoordinatorLimiter, Coordinator, CheckLimitArgs, allowed, check_args, check_limit,
}
use synit_waf.Coordinator.Table.{IsBounded}
use synit_waf.Coordinator.Calls.{counted, check_limit-IsBounded, check_limit_counts}
use synit_waf.Coordinator.Follower.{
  Link, Network, follower_allow, drop_idle_client, ensure_client, exchange, close_client,
  close_link, follower_allow_closed,
}

-- A limiter that never refills: what it holds is the number of requests it still allows.
abbrev bucket : Rate
bucket = record {
  Limit = ℕ;
  limit_le_zero = λ l. l == 0;
  limit_eq = λ l m. l == m;
  Limiter = ℕ;
  new_limiter = λ l b. pos_part b;
  allow = λ wall n. (ltb 0 n, n - 1);
}

abbrev entry : CoordinatorLimiter bucket
entry = record { limiter = 2; limit = 5; burst = pos 2; last_seen = 10 }

abbrev full : Coordinator bucket
full = record {
  limiters = ("a", entry) ∷ [];
  secret = "s";
  max_entries = 1;
  entry_ttl = 100;
  next_cleanup = none;
}

abbrev request : CheckLimitArgs bucket
request = record { key = "b"; limit = 5; burst = pos 2; secret = "s" }

accepted : check_args bucket full request ≡ none
unfolding check_args
accepted = refl

full-IsBounded : IsBounded bucket full
unfolding lookup
full-IsBounded = record {
  named = (λ e. (let h : false ≡ true = (eq_iff "a" "").1 e in absurd (cc)), tt);
  distinct = (refl, tt);
  room = omega arith;
  bounded = omega arith;
}

check_limit-IsBounded_example : IsBounded bucket (check_limit bucket 20 20 full request).1
check_limit-IsBounded_example = check_limit-IsBounded bucket 20 20 full request full-IsBounded

check_limit_counts_example :
    let spent = bucket.allow 20 (counted bucket 20 full request) in
    ((check_limit bucket 20 20 full request).0 ≡ allowed spent.0)
    × ((e : CoordinatorLimiter bucket) × (lookup "b"
            (check_limit bucket 20 20 full request).1.limiters
          ≡ some e)
        × (e.limiter ≡ spent.1)
        × (e.last_seen ≡ 20))
check_limit_counts_example = check_limit_counts bucket 20 20 full request accepted

-- A link that has been idle for too long, and a network that serves every step.
abbrev idle : Link
idle = record { connected = true; last_used = 0; closed = false }

abbrev serving : Network
serving = record { dials = true; sets_deadline = true; reply = some true; resets_deadline = true }

abbrev late : ℕ
late = 40_000_000_000

-- The leader cannot be reached.
abbrev silent : Network
silent = record serving { dials = false }

unreachable : (follower_allow late late silent idle).0 ≡ none
unfolding follower_allow drop_idle_client ensure_client exchange close_client
unreachable = refl

follower_allow_closed_example :
    follower_allow late late serving (close_link idle) ≡ (none, close_link idle)
follower_allow_closed_example = follower_allow_closed late late serving idle
