-- ===== src/Jwks.antt =====
-- The cache of key sets in internal/waf/middleware.go: `getJWKSEntry`, `storeJWKSCacheEntry` and what a
-- fetched key set becomes.
--
-- Fetching, and the parsing of one key, are parameters. An entry carries a serial number, since the
-- code compares entries by their address. The order of the cache's list is the one it is walked in.
pub mod Locks
pub mod Held
pub mod Store
pub mod Fetch
pub mod Token
mod Tests
use synit_waf.Prelude.{
  ℕ, zero, suc, ◌+◌, ◌-◌, ◌*◌, ◌%◌, ◌^◌, min, Bool, true, false, ◌&&◌, ◌||◌, not, String, Option,
  none, some, List, [], ◌∷◌, length, ltb, leb, ◌==◌, str_eq, if◌then◌else◌, lookup, insert, delete,
}

module _ (PublicKey : Type 0) where
  pub record JwksEntry : Type 0 where
    pub serial : ℕ
    pub keys : List (String × PublicKey)
    pub expires_at : ℕ
    pub last_forced_refresh : Option ℕ

  abbrev pub Cache : Type 0
  Cache = List (String × JwksEntry)

  abbrev pub max_cache_entries : ℕ
  max_cache_entries = 256

  -- The walk over the cache drops every entry that has expired, but for the one just stored.
  unfoldable pub drop_expired : ℕ → String → Cache → Cache
  drop_expired now endpoint [] = []
  drop_expired now endpoint ((k, e) ∷ m) =
      let rest = drop_expired now endpoint m in
      if not (str_eq k endpoint) && leb e.expires_at now then rest else (k, e) ∷ rest

  -- The endpoint other than the stored one whose entry expires first; "" for none yet.
  unfoldable pub oldest_but : String → String → ℕ → Cache → String
  oldest_but endpoint key expiry [] = key
  oldest_but endpoint key expiry ((k, e) ∷ m) =
      let better = not (str_eq k endpoint) && (str_eq key "" || ltb e.expires_at expiry) in
      oldest_but endpoint (if better then k else key) (if better then e.expires_at else expiry) m

  -- `storeJWKSCacheEntry`. The walk counts the entries that it keeps.
  unfoldable pub store_entry : ℕ → String → JwksEntry → Cache → Cache
  unfolding drop_expired oldest_but
  store_entry now endpoint entry cache =
      let kept = drop_expired now endpoint (insert endpoint entry cache) in
      let oldest = oldest_but endpoint "" 0 kept in
      if ltb max_cache_entries (length kept) && not (str_eq oldest "")
      then delete oldest kept
      else kept

  -- One key of the fetched set: its `kid`, "" for none, and the key, if it could be parsed.
  pub record FetchedKey : Type 0 where
    pub kid : String
    pub parsed : Option PublicKey

  -- The loop over the keys; none for a `kid` that stands twice.
  unfoldable pub parse_keys :
      List FetchedKey → List (String × PublicKey) → Option (List (String × PublicKey))
  parse_keys [] known = some known
  parse_keys (k ∷ ks) known =
      let skip = parse_keys ks known in
      if str_eq k.kid "" then skip else elim (lookup k.kid known) [
        | some twice ↦ none
        | none ↦ elim k.parsed [ none ↦ skip | some key ↦ parse_keys ks (insert k.kid key known) ]
      ]

  -- What comes back from the endpoint: the status, the announced and the real length, and the keys and
  -- the last positive `max-age`, in seconds, of a body that could be decoded.
  pub data Fetched : Type 0 where
    unreachable : Fetched
    reply : ℕ → ℕ → ℕ → Option (List FetchedKey) → Option ℕ → Fetched

  pub data JwksError : Type 0 where
    no_reply bad_status too_large undecodable too_many_keys duplicate_kid no_valid_keys : JwksError

  pub data Keys : Type 0 where
    keys_are : List (String × PublicKey) → Keys
    bad_keys : JwksError → Keys

  abbrev pub second : ℕ
  second = 1_000_000_000

  abbrev pub max_response_bytes : ℕ
  max_response_bytes = 1_048_576

  abbrev pub max_keys : ℕ
  max_keys = 100

  abbrev pub max_cache_ttl : ℕ
  max_cache_ttl = 3600 * second

  abbrev pub some_keys : Option (List (String × PublicKey)) → Keys
  some_keys none = bad_keys duplicate_kid
  some_keys (some []) = bad_keys no_valid_keys
  some_keys (some (k ∷ ks)) = keys_are (k ∷ ks)

  -- From the reply to the keys.
  unfoldable pub read_keys : Fetched → Keys
  unfolding parse_keys
  read_keys unreachable = bad_keys no_reply
  read_keys (reply status announced size decoded max_age) =
      if not (status == 200)
      then bad_keys bad_status
      else if ltb max_response_bytes announced || ltb max_response_bytes size
      then bad_keys too_large
      else elim decoded [
        | none ↦ bad_keys undecodable
        | some ks ↦
            if ltb max_keys (length ks)
            then bad_keys too_many_keys
            else some_keys (parse_keys ks [])
      ]

  -- When an entry that is fetched now expires. The seconds of `max-age` become nanoseconds in an
  -- int64: a product that wraps around to a negative number lies in the past.
  unfoldable pub expiry_of : ℕ → Fetched → ℕ
  expiry_of now unreachable = now + 900 * second
  expiry_of now (reply status announced size decoded none) = now + 900 * second
  expiry_of now (reply status announced size decoded (some age)) =
      let ttl = (age * second) % 2 ^ 64 in
      if leb (2 ^ 63) ttl then now - (2 ^ 64 - ttl) else now + min ttl max_cache_ttl

  -- The cache, and the serial number of the entry that comes next.
  pub record JwksState : Type 0 where
    pub cache : Cache
    pub next_serial : ℕ

  pub data JwksResult : Type 0 where
    got : JwksEntry → JwksResult
    failed : JwksError → JwksResult

  -- The entry may be served: it has not expired, and is not the one that failed the caller.
  unfoldable pub serves : ℕ → Option JwksEntry → JwksEntry → Bool
  serves now none e = ltb now e.expires_at
  serves now (some previous) e = not (e.serial == previous.serial) && ltb now e.expires_at

  abbrev pub min_forced_refresh_delay : ℕ
  min_forced_refresh_delay = 30 * second

  -- A forced refresh that comes too soon behind the last one is not made; a time that was never set lies
  -- far enough back.
  unfoldable pub too_soon : ℕ → Option JwksEntry → JwksEntry → Bool
  too_soon now none e = false
  too_soon now (some previous) e = elim e.last_forced_refresh [
    | none ↦ false
    | some t ↦ ltb (now - t) min_forced_refresh_delay
  ]

  -- The fetch and the storing of what it gives.
  unfoldable pub refresh :
      ℕ → ℕ → String → Option JwksEntry → Fetched → JwksState → JwksResult × JwksState
  unfolding read_keys expiry_of store_entry
  refresh now stored endpoint previous fetched s = elim (read_keys fetched) [
    | bad_keys e ↦ (failed e, s)
    | keys_are ks ↦
        let entry : JwksEntry = record {
          serial = s.next_serial;
          keys = ks;
          expires_at = expiry_of now fetched;
          last_forced_refresh = elim previous [ none ↦ none | some p ↦ some now ];
        } in
        (
          got entry,
          record {
            cache = store_entry stored endpoint entry s.cache;
            next_serial = suc s.next_serial;
          },
        )
  ]

  -- Behind the refresh lock: the cache is asked again, since another caller may have filled it.
  unfoldable pub get_locked :
      ℕ → ℕ → String → Option JwksEntry → Fetched → JwksState → JwksResult × JwksState
  unfolding serves too_soon refresh
  get_locked now stored endpoint previous fetched s = elim (lookup endpoint s.cache) [
    | none ↦ refresh now stored endpoint previous fetched s
    | some e ↦
        if serves now previous e || too_soon now previous e
        then (got e, s)
        else refresh now stored endpoint previous fetched s
  ]

  -- `getJWKSEntry`: `locked` is the state that the caller finds behind the lock, at the time `now`.
  unfoldable pub get_jwks_entry :
      ℕ
      → ℕ
      → ℕ
      → String
      → Option JwksEntry
      → Fetched
      → JwksState
      → JwksState
      → JwksResult × JwksState
  unfolding serves get_locked
  get_jwks_entry first now stored endpoint previous fetched s locked =
      elim (lookup endpoint s.cache) [
        | none ↦ get_locked now stored endpoint previous fetched locked
        | some e ↦
            if serves first previous e
            then (got e, s)
            else get_locked now stored endpoint previous fetched locked
      ]
