-- ===== src/Coordinator/Table.antt =====
-- The leader's table: its bound, what the cleanup drops, and whom an eviction hits.
use synit_waf.Prelude.{
  ℕ, ◌-◌, ◌≤◌, ◌<◌, true, false, String, Option, none, some, List, [], ◌∷◌, length, All, ltb, leb,
  leb→le, eq_iff, if◌then◌else◌, lookup, insert, delete, length-delete, length-delete_present,
  Distinct, Distinct-delete, ◌≡◌, refl, ap, ◌∙◌, ltb→lt, ◌≢◌, ◌⊎◌, inl, inr, arith, Bool-cases,
}
use synit_waf.Coordinator.{
  Rate, CoordinatorLimiter, Coordinator, drop_idle, cleanup, oldest_from, evict,
}

module _ (rate : Rate) where
  abbrev Entries : Type 0
  Entries = List (String × CoordinatorLimiter rate)

  -- Every key is a text of at least one byte, as the guard on the key demands.
  abbrev pub Named : Entries → Type 0
  Named [] = Unit {0}
  Named ((k, e) ∷ m) = (k ≢ "") × Named m

  Named-drop_idle : (now ttl : ℕ) (m : Entries) → Named m → Named (drop_idle rate now ttl m)
  unfolding drop_idle
  Named-drop_idle now ttl [] h = tt
  Named-drop_idle now ttl ((k, e) ∷ m) h = ground (arith, Named-drop_idle now ttl m h.1)

  Named-delete : (k : String) (m : Entries) → Named m → Named (delete k m)
  unfolding delete
  Named-delete k [] h = tt
  Named-delete k ((j, e) ∷ m) h = ground (arith, Named-delete k m h.1)

  pub Named-insert :
      (k : String) (v : CoordinatorLimiter rate) (m : Entries)
      → k ≢ ""
      → Named m
      → Named (insert k v m)
  unfolding insert
  Named-insert k v [] p h = (p, tt)
  Named-insert k v ((j, e) ∷ m) p h = ground (arith, Named-insert k v m p h.1)

  length-drop_idle : (now ttl : ℕ) (m : Entries) → length (drop_idle rate now ttl m) ≤ length m
  unfolding drop_idle
  length-drop_idle now ttl [] = omega arith
  length-drop_idle now ttl ((k, e) ∷ m) = ground (arith, length-drop_idle now ttl m)

  -- Every entry of the table was seen at `t` or later.
  abbrev pub SeenFrom : ℕ → Entries → Type 0
  SeenFrom t m = All (λ (e : String × CoordinatorLimiter rate). t ≤ e.1.last_seen) m

  -- The key belongs to an entry that no other entry was seen before.
  abbrev pub IsOldest : String → Entries → Type 0
  IsOldest key m = (v : CoordinatorLimiter rate) × (lookup key m ≡ some v) × SeenFrom v.last_seen m

  -- What the walk over a table finds that starts from a key outside it.
  abbrev Walked : String → ℕ → Entries → Type 0
  Walked key seen m =
      let r = oldest_from rate key seen m in
      ((r ≡ key) × SeenFrom seen m)
      ⊎ ((v : CoordinatorLimiter rate) × (lookup r m ≡ some v)
          × (v.last_seen < seen)
          × SeenFrom v.last_seen m)

  lookup_later :
      (k r : String) (e : CoordinatorLimiter rate) (m : Entries) {v : CoordinatorLimiter rate}
      → lookup k m ≡ none
      → lookup r m ≡ some v
      → lookup r ((k, e) ∷ m) ≡ some v
  unfolding lookup
  lookup_later k r e m a b = ground (arith, eq_iff k r)

  walk_older :
      (key k : String) (seen : ℕ) (e : CoordinatorLimiter rate) (m : Entries)
      → key ≢ ""
      → ltb e.last_seen seen ≡ true
      → oldest_from rate key seen ((k, e) ∷ m) ≡ oldest_from rate k e.last_seen m
  unfolding oldest_from
  walk_older key k seen e m p h = ground (arith, eq_iff key "")

  walk_newer :
      (key k : String) (seen : ℕ) (e : CoordinatorLimiter rate) (m : Entries)
      → key ≢ ""
      → ltb e.last_seen seen ≡ false
      → oldest_from rate key seen ((k, e) ∷ m) ≡ oldest_from rate key seen m
  unfolding oldest_from
  walk_newer key k seen e m p h = ground (arith, eq_iff key "")

  lookup_first :
      (k : String) (e : CoordinatorLimiter rate) (m : Entries) → lookup k ((k, e) ∷ m) ≡ some e
  unfolding lookup
  lookup_first k e m = ground (arith, eq_iff k k)

  lookup_behind :
      (k j : String) (e : CoordinatorLimiter rate) (m : Entries)
      → lookup j ((k, e) ∷ m) ≡ none
      → lookup j m ≡ none
  unfolding lookup
  lookup_behind k j e m h = ground (arith, eq_iff k j)

  -- A walk that goes on from an entry of the table.
  Walked-entry :
      (k : String) (e : CoordinatorLimiter rate) (m : Entries)
      → lookup k m ≡ none
      → Walked k e.last_seen m
      → (v : CoordinatorLimiter rate) × (lookup (oldest_from rate k e.last_seen m) ((k, e) ∷ m)
          ≡ some v)
        × (v.last_seen ≤ e.last_seen)
        × SeenFrom v.last_seen m
  Walked-entry k e m a (inl (r, from)) = (e, rw r (lookup_first k e m), omega arith, from)
  Walked-entry k e m a (inr (v, at_r, less, from)) =
      (v, lookup_later k _ e m a at_r, omega arith, from)

  oldest_from-Walked :
      (key : String) (seen : ℕ) (m : Entries)
      → key ≢ ""
      → lookup key m ≡ none
      → Named m
      → Distinct m
      → Walked key seen m
  unfolding oldest_from
  oldest_from-Walked key seen [] p a h d = inl (refl, tt)
  oldest_from-Walked key seen ((k, e) ∷ m) p a h d = elim (Bool-cases (ltb e.last_seen seen)) [
    | inl older ↦
        let (v, at_r, less, from) =
          Walked-entry k e m d.0 (oldest_from-Walked k e.last_seen m h.0 d.0 h.1 d.1) in
        let found = ap (λ t. lookup t ((k, e) ∷ m)) (walk_older key k seen e m p older) ∙ at_r in
        inr (v, found, omega (arith, ltb→lt _ _ older), (less, from))
    | inr newer ↦
        let same = walk_newer key k seen e m p newer in
        elim (oldest_from-Walked key seen m p (lookup_behind k key e m a) h.1 d.1) [
          | inl (r, from) ↦ inl (same ∙ r, (ground arith, from))
          | inr (v, at_r, less, from) ↦ inr (
            v,
            ap (λ t. lookup t ((k, e) ∷ m)) same ∙ lookup_later k _ e m d.0 at_r,
            less,
            (ground arith, from),
          )
        ]
  ]

  -- The walk over a table that is not empty ends at an entry seen longest ago.
  pub oldest_from-IsOldest :
      (m : Entries) → m ≢ [] → Named m → Distinct m → IsOldest (oldest_from rate "" 0 m) m
  unfolding oldest_from lookup
  oldest_from-IsOldest [] p h d = absurd (p refl)
  oldest_from-IsOldest ((k, e) ∷ m) p h d =
      let (v, at_r, less, from) =
        Walked-entry k e m d.0 (oldest_from-Walked k e.last_seen m h.0 d.0 h.1 d.1) in
      (v, at_r, (less, from))

  -- What the cleanup leaves: the entries that were seen within the time to live.
  abbrev pub unless_idle :
      ℕ → ℕ → Option (CoordinatorLimiter rate) → Option (CoordinatorLimiter rate)
  unless_idle now ttl none = none
  unless_idle now ttl (some e) = if ltb ttl (now - e.last_seen) then none else some e

  pub lookup-drop_idle :
      (now ttl : ℕ) (k : String) (m : Entries)
      → Distinct m
      → lookup k (drop_idle rate now ttl m) ≡ unless_idle now ttl (lookup k m)
  unfolding drop_idle lookup
  lookup-drop_idle now ttl k [] d = refl
  lookup-drop_idle now ttl k ((j, e) ∷ m) d =
      ground (arith, eq_iff j k, lookup-drop_idle now ttl k m d.1)

  Distinct-drop_idle :
      (now ttl : ℕ) (m : Entries) → Distinct m → Distinct (drop_idle rate now ttl m)
  unfolding drop_idle lookup
  Distinct-drop_idle now ttl [] d = tt
  Distinct-drop_idle now ttl ((j, e) ∷ m) d =
      ground (arith, lookup-drop_idle now ttl j m d.1, Distinct-drop_idle now ttl m d.1)

  -- What each call of the leader preserves: keys are texts that are not empty, each stands once, and
  -- the table holds no more entries than it may.
  pub record IsBounded (c : Coordinator rate) : Type 0 where
    pub named : Named c.limiters
    pub distinct : Distinct c.limiters
    pub room : 0 < c.max_entries
    pub bounded : length c.limiters ≤ c.max_entries

  pub cleanup-IsBounded :
      (now : ℕ) (c : Coordinator rate) → IsBounded c → IsBounded (cleanup rate now c)
  unfolding cleanup
  cleanup-IsBounded now c b = ground (
    arith,
    Named-drop_idle now c.entry_ttl c.limiters b.named,
    Distinct-drop_idle now c.entry_ttl c.limiters b.distinct,
    length-drop_idle now c.entry_ttl c.limiters,
  )

  pub evict_room :
      (c : Coordinator rate)
      → IsBounded c
      → length (evict rate c).limiters < (evict rate c).max_entries
  unfolding evict
  evict_room c b = elim (Bool-cases (leb c.max_entries (length c.limiters))) [
    | inr roomy ↦ ground arith
    | inl full ↦
        let (v, present, _) =
          oldest_from-IsOldest c.limiters (λ e. omega (arith, ap length e, leb→le _ _ full, b.room))
            b.named b.distinct in
        let least = oldest_from rate "" 0 c.limiters in
        let smaller = length-delete_present least c.limiters (λ e. cc) in
        rw (full, evict) (omega (arith, smaller, b.bounded))
  ]

  pub evict-IsBounded : (c : Coordinator rate) → IsBounded c → IsBounded (evict rate c)
  unfolding evict
  evict-IsBounded c b =
      let least = oldest_from rate "" 0 c.limiters in
      ground (
        arith,
        Named-delete least c.limiters b.named,
        Distinct-delete least c.limiters b.distinct,
        length-delete least c.limiters,
      )
