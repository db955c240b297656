-- ===== src/Jwks/Store.antt =====
-- The bound on the cache of key sets.
use synit_waf.Prelude.{
  ℕ, ◌≤◌, true, false, ◌&&◌, ◌||◌, not, String, none, some, [], ◌∷◌, length, ltb, le_of_not, str_eq,
  eq_iff, lookup, insert, delete, lookup-insert, lookup-delete, length-insert,
  length-delete_present, Distinct, Distinct-insert, Distinct-delete, ◌≡◌, refl, sym, ap, ◌∙◌, ◌≢◌,
  ◌⊎◌, inl, inr, arith, Bool-cases,
}
use synit_waf.Jwks.{JwksEntry, Cache, max_cache_entries, drop_expired, oldest_but, store_entry}

module _ (PublicKey : Type 0) where
  length-drop_expired :
      (now : ℕ) (endpoint : String) (m : Cache PublicKey)
      → length (drop_expired PublicKey now endpoint m) ≤ length m
  unfolding drop_expired
  length-drop_expired now endpoint [] = omega arith
  length-drop_expired now endpoint ((k, e) ∷ m) = ground (arith, length-drop_expired now endpoint m)

  -- The entry that was stored is never dropped as expired.
  lookup-drop_expired :
      (now : ℕ) (endpoint : String) (m : Cache PublicKey)
      → lookup endpoint (drop_expired PublicKey now endpoint m) ≡ lookup endpoint m
  unfolding drop_expired lookup
  lookup-drop_expired now endpoint [] = refl
  lookup-drop_expired now endpoint ((k, e) ∷ m) = ground (arith, lookup-drop_expired now endpoint m)

  abbrev pub Named : Cache PublicKey → Type 0
  Named [] = Unit {0}
  Named ((k, e) ∷ m) = (k ≢ "") × Named m

  Named-insert :
      (k : String) (e : JwksEntry PublicKey) (m : Cache PublicKey)
      → k ≢ ""
      → Named m
      → Named (insert k e m)
  unfolding insert
  Named-insert k e [] p h = (p, tt)
  Named-insert k e ((j, d) ∷ m) p h = ground (arith, Named-insert k e m p h.1)

  Named-delete : (k : String) (m : Cache PublicKey) → Named m → Named (delete k m)
  unfolding delete
  Named-delete k [] h = tt
  Named-delete k ((j, e) ∷ m) h = ground (arith, Named-delete k m h.1)

  Named-drop_expired :
      (now : ℕ) (endpoint : String) (m : Cache PublicKey)
      → Named m
      → Named (drop_expired PublicKey now endpoint m)
  unfolding drop_expired
  Named-drop_expired now endpoint [] h = tt
  Named-drop_expired now endpoint ((k, e) ∷ m) h =
      ground (arith, Named-drop_expired now endpoint m h.1)

  lookup-drop_expired-none :
      (now : ℕ) (endpoint k : String) (m : Cache PublicKey)
      → lookup k m ≡ none
      → lookup k (drop_expired PublicKey now endpoint m) ≡ none
  unfolding drop_expired lookup
  lookup-drop_expired-none now endpoint k [] h = refl
  lookup-drop_expired-none now endpoint k ((j, e) ∷ m) h =
      ground (arith, lookup-drop_expired-none now endpoint k m)

  Distinct-drop_expired :
      (now : ℕ) (endpoint : String) (m : Cache PublicKey)
      → Distinct m
      → Distinct (drop_expired PublicKey now endpoint m)
  unfolding drop_expired
  Distinct-drop_expired now endpoint [] h = tt
  Distinct-drop_expired now endpoint ((k, e) ∷ m) h =
      ground
        (arith, Distinct-drop_expired now endpoint m h.1, lookup-drop_expired-none now endpoint k m)

  -- The key that the walk ends with is the one it started with, or another endpoint's in the cache.
  oldest_but-found :
      (endpoint key : String) (expiry : ℕ) (m : Cache PublicKey)
      → let o = oldest_but PublicKey endpoint key expiry m in
        (o ≡ key) ⊎ ((lookup o m ≢ none) × (str_eq o endpoint ≡ false))
  unfolding oldest_but lookup
  oldest_but-found endpoint key expiry [] = inl refl
  oldest_but-found endpoint key expiry ((k, e) ∷ m) = ground (
    arith,
    oldest_but-found endpoint key expiry m,
    oldest_but-found endpoint k e.expires_at m,
    eq_iff k (oldest_but PublicKey endpoint key expiry m),
    eq_iff k (oldest_but PublicKey endpoint k e.expires_at m),
  )

  -- Every entry is the stored endpoint's.
  abbrev Alone : String → Cache PublicKey → Type 0
  Alone endpoint [] = Unit {0}
  Alone endpoint ((k, e) ∷ m) = (str_eq k endpoint ≡ true) × Alone endpoint m

  -- Where the walk ends with no key, there was no other endpoint.
  oldest_but-nil :
      (endpoint key : String) (expiry : ℕ) (m : Cache PublicKey)
      → Named m
      → oldest_but PublicKey endpoint key expiry m ≡ ""
      → (key ≡ "") × Alone endpoint m
  unfolding oldest_but
  oldest_but-nil endpoint key expiry [] h e = (e, tt)
  oldest_but-nil endpoint key expiry ((k, d) ∷ m) h e =
      elim (Bool-cases (not (str_eq k endpoint) && (str_eq key "" || ltb d.expires_at expiry))) [
        | inl better ↦
            let step : oldest_but PublicKey endpoint key expiry ((k, d) ∷ m)
                ≡ oldest_but PublicKey endpoint k d.expires_at m =
              rw (better, oldest_but) in
            absurd (h.0 (oldest_but-nil endpoint k d.expires_at m h.1 (sym step ∙ e)).0)
        | inr worse ↦
            let step : oldest_but PublicKey endpoint key expiry ((k, d) ∷ m)
                ≡ oldest_but PublicKey endpoint key expiry m =
              rw (worse, oldest_but) in
            let (empty, alone) = oldest_but-nil endpoint key expiry m h.1 (sym step ∙ e) in
            (empty, (ground (arith, eq_iff key ""), alone))
      ]

  length-Alone :
      (endpoint : String) (m : Cache PublicKey) → Distinct m → Alone endpoint m → length m ≤ 1
  unfolding lookup
  length-Alone endpoint [] d h = omega arith
  length-Alone endpoint ((k, e) ∷ []) d h = omega arith
  length-Alone endpoint ((k, e) ∷ (j, f) ∷ m) d h =
      absurd (ground (arith, eq_iff k endpoint, eq_iff j endpoint, eq_iff j k))

  -- The cache has a bound, distinct endpoints, and none without a name.
  pub record IsBounded (m : Cache PublicKey) : Type 0 where
    pub named : Named m
    pub distinct : Distinct m
    pub bounded : length m ≤ max_cache_entries PublicKey

  abbrev walked : ℕ → String → JwksEntry PublicKey → Cache PublicKey → Cache PublicKey
  walked now endpoint entry m = drop_expired PublicKey now endpoint (insert endpoint entry m)

  store_bounded :
      (now : ℕ) (endpoint : String) (entry : JwksEntry PublicKey) (m : Cache PublicKey)
      → endpoint ≢ ""
      → IsBounded m
      → length (store_entry PublicKey now endpoint entry m) ≤ max_cache_entries PublicKey
  unfolding store_entry
  store_bounded now endpoint entry m p b =
      let kept = walked now endpoint entry m in
      let oldest = oldest_but PublicKey endpoint "" 0 kept in
      let few = length-drop_expired now endpoint (insert endpoint entry m) in
      let named =
        Named-drop_expired now endpoint (insert endpoint entry m)
          (Named-insert endpoint entry m p b.named) in
      let distinct =
        Distinct-drop_expired now endpoint (insert endpoint entry m)
          (Distinct-insert endpoint entry m b.distinct) in
      let grows = length-insert endpoint entry m in
      elim (Bool-cases
        (ltb (max_cache_entries PublicKey) (length kept) && not (str_eq oldest ""))) [
          | inl full ↦
              let step : store_entry PublicKey now endpoint entry m ≡ delete oldest kept =
                rw full in
              let present : lookup oldest kept ≢ none =
                (elim (oldest_but-found endpoint "" 0 kept) [
                  | inl empty ↦ absurd (ground (arith, eq_iff oldest ""))
                  | inr (there, other) ↦ there
                ]) in
              omega (
                arith,
                ap length step,
                length-delete_present oldest kept present,
                few,
                grows,
                b.bounded,
              )
          | inr roomy ↦
              let step : store_entry PublicKey now endpoint entry m ≡ kept = rw roomy in
              elim (Bool-cases (ltb (max_cache_entries PublicKey) (length kept))) [
                | inr small ↦ omega (arith, ap length step, le_of_not _ _ small)
                | inl big ↦
                    let empty : oldest ≡ "" = (eq_iff oldest "").0 (ground arith) in
                    let (start, alone) = oldest_but-nil endpoint "" 0 kept named empty in
                    omega (arith, ap length step, length-Alone endpoint kept distinct alone)
              ]
        ]

  -- Whatever is stored, the cache keeps its bound of 256 entries, with distinct endpoints.
  pub store_entry-IsBounded :
      (now : ℕ) (endpoint : String) (entry : JwksEntry PublicKey) (m : Cache PublicKey)
      → endpoint ≢ ""
      → IsBounded m
      → IsBounded (store_entry PublicKey now endpoint entry m)
  unfolding store_entry
  store_entry-IsBounded now endpoint entry m p b =
      let kept = walked now endpoint entry m in
      let oldest = oldest_but PublicKey endpoint "" 0 kept in
      let named =
        Named-drop_expired now endpoint (insert endpoint entry m)
          (Named-insert endpoint entry m p b.named) in
      let distinct =
        Distinct-drop_expired now endpoint (insert endpoint entry m)
          (Distinct-insert endpoint entry m b.distinct) in
      record {
        named = ground (arith, Named-delete oldest kept named, named);
        distinct = ground (arith, Distinct-delete oldest kept distinct, distinct);
        bounded = store_bounded now endpoint entry m p b;
      }

  -- The entry that is stored is in the cache behind the call, also where the cache was full and where
  -- the entry itself has already expired.
  pub store_entry_retains :
      (now : ℕ) (endpoint : String) (entry : JwksEntry PublicKey) (m : Cache PublicKey)
      → lookup endpoint (store_entry PublicKey now endpoint entry m) ≡ some entry
  unfolding store_entry
  store_entry_retains now endpoint entry m =
      let kept = walked now endpoint entry m in
      let oldest = oldest_but PublicKey endpoint "" 0 kept in
      let here : lookup endpoint kept ≡ some entry =
        lookup-drop_expired now endpoint (insert endpoint entry m)
        ∙ lookup-insert endpoint endpoint entry m
        ∙ ground (arith, eq_iff endpoint endpoint) in
      elim (Bool-cases
        (ltb (max_cache_entries PublicKey) (length kept) && not (str_eq oldest ""))) [
          | inr roomy ↦
              let step : store_entry PublicKey now endpoint entry m ≡ kept = rw roomy in
              ap (lookup endpoint) step ∙ here
          | inl full ↦
              let step : store_entry PublicKey now endpoint entry m ≡ delete oldest kept =
                rw full in
              let other : str_eq oldest endpoint ≡ false =
                (elim (oldest_but-found endpoint "" 0 kept) [
                  | inl empty ↦ absurd (ground (arith, eq_iff oldest ""))
                  | inr (there, o) ↦ o
                ]) in
              ap (lookup endpoint) step ∙ lookup-delete oldest endpoint kept ∙ rw other here
        ]
