-- ===== src/Jwks/Locks.antt =====
-- The refresh locks of internal/waf/middleware.go, `acquireJWKSRefreshLock` and
-- `releaseJWKSRefreshLock`, which let one request at a time fetch the keys of an endpoint.
--
-- A lock is its place in the list of all locks ever made, whose numbers are the counts of references.
use synit_waf.Prelude.{
  ℕ, zero, suc, ◌-◌, String, none, some, List, [], ◌∷◌, ◌++◌, length, set, ◌==◌, if◌then◌else◌,
  lookup, insert, delete,
}

pub record LockTable : Type 0 where
  pub locks : List ℕ
  pub named : List (String × ℕ)

-- A request that stands between the two calls: its endpoint and its lock.
abbrev pub Holder : Type 0
Holder = String × ℕ

abbrev pub refs_of : ℕ → List ℕ → ℕ
refs_of lock [] = 0
refs_of zero (n ∷ locks) = n
refs_of (suc lock) (n ∷ locks) = refs_of lock locks

unfoldable pub acquire : String → LockTable → ℕ × LockTable
acquire endpoint s = elim (lookup endpoint s.named) [
  | none ↦
      let lock = length s.locks in
      (lock, record { locks = s.locks ++ 1 ∷ []; named = insert endpoint lock s.named })
  | some lock ↦ (lock, record s { locks = set s.locks lock (suc (refs_of lock s.locks)) })
]

unfoldable pub release : String → ℕ → LockTable → LockTable
release endpoint lock s =
    let refs = refs_of lock s.locks - 1 in
    record {
      locks = set s.locks lock refs;
      named = if refs == 0 then delete endpoint s.named else s.named;
    }

pub data Picks : Holder → List Holder → List Holder → Type 0 where
  here : {h : Holder} {hs : List Holder} → Picks h (h ∷ hs) hs
  later : {h g : Holder} {hs rest : List Holder} → Picks h hs rest → Picks h (g ∷ hs) (g ∷ rest)

-- The tables that calls of the two operations lead to, with those who hold a lock.
pub data Reaches : List Holder → LockTable → Type 0 where
  starts : Reaches [] (record { locks = []; named = [] })
  acquires :
      {hs : List Holder} {s : LockTable} (endpoint : String)
      → Reaches hs s
      → Reaches ((endpoint, (acquire endpoint s).0) ∷ hs) (acquire endpoint s).1
  releases :
      {hs rest : List Holder} {s : LockTable} {endpoint : String} {lock : ℕ}
      → Picks (endpoint, lock) hs rest
      → Reaches hs s
      → Reaches rest (release endpoint lock s)
