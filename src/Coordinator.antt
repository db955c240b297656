-- ===== src/Coordinator.antt =====
-- internal/waf/coordinator.go: the leader's table of rate limiters, `CheckLimit`, and the
-- follower's connection in `Allow`.
--
-- The limiter itself is golang.org/x/time/rate: a parameter, `Rate`, with the float64 of a limit.
-- Times are nanoseconds. `now` is the coordinator's clock and `wall` the one that the limiter
-- reads. The mutex of the source makes each call one step.
pub mod Table
pub mod Calls
pub mod Follower
mod Tests
use Prim.Native.String.{len}
use synit_waf.Prelude.{
  ℕ, suc, ◌+◌, ◌-◌, ◌*◌, ◌/◌, max, Bool, true, false, ◌&&◌, ◌||◌, not, String, Option, none, some,
  List, [], ◌∷◌, length, ltb, leb, ◌==◌, str_eq, if◌then◌else◌, lookup, insert, delete, ℤ, le_zero,
  int_eq,
}

-- What the code uses of the rate limiter and of the numbers that it is built from.
pub record Rate : Type 1 where
  pub Limit : Type 0
  pub limit_le_zero : Limit → Bool
  pub limit_eq : Limit → Limit → Bool
  pub Limiter : Type 0
  pub new_limiter : Limit → ℤ → Limiter
  pub allow : ℕ → Limiter → Bool × Limiter

pub data CheckError : Type 0 where
  unauthorized invalid_key not_positive : CheckError

pub data Reply : Type 0 where
  allowed : Bool → Reply
  refused : CheckError → Reply

abbrev pub max_key_bytes : ℕ
max_key_bytes = 512

abbrev pub second : ℕ
second = 1_000_000_000

module _ (rate : Rate) where
  open rate use {Limit, limit_le_zero, limit_eq, Limiter, new_limiter, allow}

  pub record CoordinatorLimiter : Type 0 where
    pub limiter : Limiter
    pub limit : Limit
    pub burst : ℤ
    pub last_seen : ℕ

  pub record Coordinator : Type 0 where
    pub limiters : List (String × CoordinatorLimiter)
    pub secret : String
    pub max_entries : ℕ
    pub entry_ttl : ℕ
    pub next_cleanup : Option ℕ

  pub record CheckLimitArgs : Type 0 where
    pub key : String
    pub limit : Limit
    pub burst : ℤ
    pub secret : String

  -- The guards of `CheckLimit`, in their order.
  pub check_args : Coordinator → CheckLimitArgs → Option CheckError
  check_args c args =
      if not (str_eq args.secret c.secret)
      then some unauthorized
      else if str_eq args.key "" || ltb max_key_bytes (len args.key)
      then some invalid_key
      else if limit_le_zero args.limit || le_zero args.burst
      then some not_positive
      else none

  -- The loop of the cleanup: entries idle for longer than the time to live go.
  pub drop_idle : ℕ → ℕ → List (String × CoordinatorLimiter) → List (String × CoordinatorLimiter)
  drop_idle now ttl [] = []
  drop_idle now ttl ((k, e) ∷ m) =
      if ltb ttl (now - e.last_seen) then drop_idle now ttl m else (k, e) ∷ drop_idle now ttl m

  pub is_due : ℕ → Option ℕ → Bool
  is_due now none = true
  is_due now (some t) = leb t now

  pub cleanup : ℕ → Coordinator → Coordinator
  unfolding drop_idle is_due
  cleanup now c =
      if is_due now c.next_cleanup
      then (record c {
        limiters = drop_idle now c.entry_ttl c.limiters;
        next_cleanup = some (now + max (c.entry_ttl / 10) second);
      })
      else c

  -- The loop that finds the entry seen longest ago; the empty key says that none was seen yet.
  pub oldest_from : String → ℕ → List (String × CoordinatorLimiter) → String
  oldest_from key seen [] = key
  oldest_from key seen ((k, e) ∷ m) =
      let better = str_eq key "" || ltb e.last_seen seen in
      oldest_from (if better then k else key) (if better then e.last_seen else seen) m

  pub evict : Coordinator → Coordinator
  unfolding oldest_from
  evict c =
      if leb c.max_entries (length c.limiters)
      then (record c { limiters = delete (oldest_from "" 0 c.limiters) c.limiters })
      else c

  abbrev pub fresh_entry : ℕ → CheckLimitArgs → CoordinatorLimiter
  fresh_entry now args = record {
    limiter = new_limiter args.limit args.burst;
    limit = args.limit;
    burst = args.burst;
    last_seen = now;
  }

  -- The entry holds for another limit or burst than the request's.
  abbrev pub differs : CoordinatorLimiter → CheckLimitArgs → Bool
  differs e args = not (limit_eq e.limit args.limit) || not (int_eq e.burst args.burst)

  -- The entry that the request is counted against, and the table that it comes from.
  pub choose_entry : ℕ → Coordinator → CheckLimitArgs → Coordinator × CoordinatorLimiter
  unfolding evict
  choose_entry now c args = elim (lookup args.key c.limiters) [
    | none ↦ (evict c, fresh_entry now args)
    | some e ↦ (c, if differs e args then fresh_entry now args else (record e { last_seen = now }))
  ]

  -- `entry.limiter.Allow()`: the entry's limiter changes in place, under the request's key.
  pub spend : ℕ → String → Coordinator → CoordinatorLimiter → Reply × Coordinator
  spend wall key c e =
      let (ok, limiter) = allow wall e.limiter in
      (allowed ok, record c { limiters = insert key (record e { limiter = limiter }) c.limiters })

  pub check_limit : ℕ → ℕ → Coordinator → CheckLimitArgs → Reply × Coordinator
  unfolding check_args cleanup choose_entry spend
  check_limit now wall c args = elim (check_args c args) [
    | some e ↦ (refused e, c)
    | none ↦ let (c', entry) = choose_entry now (cleanup now c) args in spend wall args.key c' entry
  ]
