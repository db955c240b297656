-- ===== src/Receiver/Failures.antt =====
-- `authFailureLimiter` of services/ai-logs-receiver/main.go, which throttles addresses that keep
-- failing authentication.
--
-- Times are nanoseconds. Which entry the walk over the map comes to first is a parameter.
use synit_waf.Prelude.{
  ℕ, suc, ◌-◌, ◌≤◌, ◌<◌, Bool, false, String, none, some, List, [], ◌∷◌, length, ltb, leb,
  if◌then◌else◌, lookup, insert, delete, length-insert, length-insert_present,
  length-delete_present, Distinct, Distinct-insert, Distinct-delete, ◌≡◌, refl, ◌≢◌, inl, inr,
  arith, Bool-cases, Option-cases, le_of_not,
}

pub record AuthFailures : Type 0 where
  pub window_start : ℕ
  pub count : ℕ

abbrev pub Clients : Type 0
Clients = List (String × AuthFailures)

-- `time.Minute`.
abbrev pub auth_failure_window : ℕ
auth_failure_window = 60000000000

abbrev pub max_auth_failures : ℕ
max_auth_failures = 10

abbrev pub max_auth_failure_clients : ℕ
max_auth_failure_clients = 4096

unfoldable pub expired : ℕ → AuthFailures → Bool
expired now e = leb auth_failure_window (now - e.window_start)

unfoldable pub blocked : String → ℕ → Clients → Bool × Clients
unfolding expired
blocked ip now m = elim (lookup ip m) [
  | none ↦ (false, m)
  | some e ↦ if expired now e then (false, delete ip m) else (leb max_auth_failures e.count, m)
]

unfoldable pub drop_expired : ℕ → Clients → Clients
unfolding expired
drop_expired now [] = []
drop_expired now ((ip, e) ∷ m) =
    if expired now e then drop_expired now m else (ip, e) ∷ drop_expired now m

module _ (first : Clients → String) where
  unfoldable pub evict : ℕ → Clients → Clients
  unfolding drop_expired
  evict now m =
      let kept = drop_expired now m in
      if ltb (length kept) max_auth_failure_clients then kept else delete (first kept) kept

  unfoldable pub fresh_failure : String → ℕ → Clients → Clients
  fresh_failure ip now m = insert ip (record { window_start = now; count = 1 }) m

  unfoldable pub record_failure : String → ℕ → Clients → Clients
  unfolding evict expired fresh_failure
  record_failure ip now m = elim (lookup ip m) [
    | some e ↦
        if expired now e
        then fresh_failure ip now m
        else insert ip (record e { count = suc e.count }) m
    | none ↦
        fresh_failure ip now (if leb max_auth_failure_clients (length m) then evict now m else m)
  ]

length-drop_expired : (now : ℕ) (m : Clients) → length (drop_expired now m) ≤ length m
unfolding drop_expired
length-drop_expired now [] = omega arith
length-drop_expired now ((ip, e) ∷ m) = ground (arith, length-drop_expired now m)

lookup-drop_expired-none :
    (now : ℕ) (k : String) (m : Clients) → lookup k m ≡ none → lookup k (drop_expired now m) ≡ none
unfolding drop_expired lookup
lookup-drop_expired-none now k [] h = refl
lookup-drop_expired-none now k ((j, e) ∷ m) h = ground (arith, lookup-drop_expired-none now k m)

Distinct-drop_expired : (now : ℕ) (m : Clients) → Distinct m → Distinct (drop_expired now m)
unfolding drop_expired
Distinct-drop_expired now [] d = tt
Distinct-drop_expired now ((j, e) ∷ m) d =
    ground (arith, Distinct-drop_expired now m d.1, lookup-drop_expired-none now j m)

-- Each address stands once, and there are no more than 4096.
pub record IsBounded (m : Clients) : Type 0 where
  pub distinct : Distinct m
  pub bounded : length m ≤ max_auth_failure_clients

-- The walk over a map that is not empty comes to a key of it.
abbrev pub FindsKey : (Clients → String) → Type 0
FindsKey first = (m : Clients) → 0 < length m → lookup (first m) m ≢ none

module _ (first : Clients → String) (finds : FindsKey first) where
  evict_room :
      (now : ℕ) (m : Clients)
      → length m ≤ max_auth_failure_clients
      → length (evict first now m) < max_auth_failure_clients
  unfolding evict
  evict_room now m b =
      let kept = drop_expired now m in
      elim (Bool-cases (ltb (length kept) max_auth_failure_clients)) [
        | inl roomy ↦ ground arith
        | inr full ↦
            let big = le_of_not _ _ full in
            let smaller = length-delete_present (first kept) kept (finds kept (omega arith)) in
            rw (full, evict) (omega (arith, smaller, length-drop_expired now m, b))
      ]

  Distinct-evict : (now : ℕ) (m : Clients) → Distinct m → Distinct (evict first now m)
  unfolding evict
  Distinct-evict now m d =
      let kept = Distinct-drop_expired now m d in
      ground (arith, kept, Distinct-delete (first (drop_expired now m)) (drop_expired now m) kept)

  -- Whatever address fails at whatever time, the limiter keeps at most 4096 addresses, each once.
  pub record_failure-IsBounded :
      (ip : String) (now : ℕ) (m : Clients)
      → IsBounded m
      → IsBounded (record_failure first ip now m)
  unfolding record_failure fresh_failure
  record_failure-IsBounded ip now m b = elim (Option-cases (lookup ip m)) [
    | inr (e, there) ↦
        let present : lookup ip m ≢ none = λ h. cc in
        let same = length-insert_present ip in
        ground (
          arith,
          same (record { window_start = now; count = 1 }) m present,
          same (record e { count = suc e.count }) m present,
          Distinct-insert ip (record { window_start = now; count = 1 }) m b.distinct,
          Distinct-insert ip (record e { count = suc e.count }) m b.distinct,
          b.bounded,
        )
    | inl absent ↦
        let e : AuthFailures = record { window_start = now; count = 1 } in
        ground (
          arith,
          evict_room now m b.bounded,
          length-insert ip e m,
          length-insert ip e (evict first now m),
          Distinct-insert ip e m b.distinct,
          Distinct-insert ip e (evict first now m) (Distinct-evict now m b.distinct),
          b.bounded,
        )
  ]
