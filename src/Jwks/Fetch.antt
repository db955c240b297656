-- ===== src/Jwks/Fetch.antt =====
-- What `getJWKSEntry` gives: fresh keys or the cached ones, and an unchanged cache on every error.
use synit_waf.Prelude.{
  ℕ, suc, ◌+◌, ◌≤◌, true, ◌||◌, String, Option, none, some, List, lookup, ◌≡◌, refl, sym, ap, subst,
  ◌∙◌, ◌⊎◌, inl, inr, arith, Bool-cases, Option-cases,
}
use synit_waf.Jwks.{
  JwksEntry, Fetched, unreachable, reply, JwksError, Keys, keys_are, bad_keys, read_keys, expiry_of,
  max_cache_ttl, JwksState, JwksResult, got, failed, serves, too_soon, refresh, get_locked,
  store_entry,
}
use synit_waf.Jwks.Store.{store_entry_retains}

module _ (PublicKey : Type 0) where
  -- However long a reply says that its keys last, they are not served for longer than an hour.
  expiry_of-bound :
      (now : ℕ) (f : Fetched PublicKey) → expiry_of PublicKey now f ≤ now + max_cache_ttl PublicKey
  unfolding expiry_of
  expiry_of-bound now unreachable = omega arith
  expiry_of-bound now (reply status announced size decoded none) = omega arith
  expiry_of-bound now (reply status announced size decoded (some age)) = ground arith

  module _ (now stored : ℕ) (endpoint : String) (previous : Option (JwksEntry PublicKey))
      (fetched : Fetched PublicKey) (s : JwksState PublicKey) where
    -- An error leaves the cache as it was.
    abbrev pub IsRefused : JwksResult PublicKey × JwksState PublicKey → Type 0
    IsRefused x = (e : JwksError PublicKey) × (x ≡ (failed e, s))

    -- The entry was in the cache and may be served, and nothing changed.
    abbrev pub IsCached : JwksResult PublicKey × JwksState PublicKey → Type 0
    IsCached x =
        (e : JwksEntry PublicKey) × (x ≡ (got e, s))
        × (lookup endpoint s.cache ≡ some e)
        × ((serves PublicKey now previous e || too_soon PublicKey now previous e) ≡ true)

    -- The entry holds the fetched keys, for an hour at most, and is in the cache.
    abbrev pub IsFresh : JwksResult PublicKey × JwksState PublicKey → Type 0
    IsFresh x =
        (e : JwksEntry PublicKey) × (x.0 ≡ got e)
        × (lookup endpoint x.1.cache ≡ some e)
        × (read_keys PublicKey fetched ≡ keys_are e.keys)
        × (e.expires_at ≤ now + max_cache_ttl PublicKey)

    Keys-cases :
        (ks : Keys PublicKey)
        → ((e : JwksError PublicKey) × (ks ≡ bad_keys e))
          ⊎ ((keys : List (String × PublicKey)) × (ks ≡ keys_are keys))
    Keys-cases (bad_keys e) = inl (e, refl)
    Keys-cases (keys_are keys) = inr (keys, refl)

    refresh_lem :
        let x = refresh PublicKey now stored endpoint previous fetched s in IsRefused x ⊎ IsFresh x
    unfolding refresh
    refresh_lem = elim (Keys-cases (read_keys PublicKey fetched)) [
      | inl (e, bad) ↦ inl (e, rw (bad, refresh))
      | inr (keys, good) ↦
          let entry : JwksEntry PublicKey = record {
            serial = s.next_serial;
            keys = keys;
            expires_at = expiry_of PublicKey now fetched;
            last_forced_refresh = elim previous [ none ↦ none | some p ↦ some now ];
          } in
          let step : refresh PublicKey now stored endpoint previous fetched s ≡ (
            got entry,
            record {
              cache = store_entry PublicKey stored endpoint entry s.cache;
              next_serial = suc s.next_serial;
            },
          ) =
            rw (good, refresh) in
          inr (
            entry,
            ap (λ x. x.0) step,
            ap (λ x. lookup endpoint x.1.cache) step
                ∙ store_entry_retains PublicKey stored endpoint entry s.cache,
            good,
            expiry_of-bound now fetched,
          )
    ]

    -- Behind the refresh lock, an error leaves the cache as it was. An entry that is given was in the
    -- cache and may be served, and nothing changed; or it holds the keys just fetched: then it is in the
    -- cache, for an hour at most.
    pub get_locked_lem :
        let x = get_locked PublicKey now stored endpoint previous fetched s in
        IsRefused x ⊎ IsCached x ⊎ IsFresh x
    unfolding get_locked
    get_locked_lem =
        let fetch = refresh PublicKey now stored endpoint previous fetched s in
        let refreshed : get_locked PublicKey now stored endpoint previous fetched s ≡ fetch
            → let x = get_locked PublicKey now stored endpoint previous fetched s in
              IsRefused x ⊎ IsCached x ⊎ IsFresh x =
          λ step.
            subst (λ x. IsRefused x ⊎ IsCached x ⊎ IsFresh x) (sym step)
              (elim refresh_lem [ inl bad ↦ inl bad | inr good ↦ inr (inr good) ]) in
        elim (Option-cases (lookup endpoint s.cache)) [
          | inl missing ↦ refreshed (rw (missing, get_locked))
          | inr (e, found) ↦
              elim (Bool-cases
                (serves PublicKey now previous e || too_soon PublicKey now previous e)) [
                  | inl fit ↦ inr (inl (e, rw (found, fit, get_locked), found, fit))
                  | inr stale ↦ refreshed (rw (found, stale, get_locked))
                ]
        ]
