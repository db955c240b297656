-- ===== src/Jwks/Tests.antt =====
-- The theorems about the cache of key sets at concrete caches.
use synit_waf.Jwks.Locks.{
  LockTable, acquire, release, here, later, Reaches, starts, acquires, releases,
}
use synit_waf.Jwks.Held.{IsCounted, Reaches-IsCounted}
use synit_waf.Prelude.{
  Option, ◌+◌, ℕ, true, false, String, none, some, List, [], ◌∷◌, eq_iff, lookup, insert, delete,
  ◌≡◌, refl, arith,
}
use synit_waf.Jwks.Token.{
  rsa, rsa_key, Header, TokenLibrary, Published, jwt_key_matches_method, match_key, key_function,
  refreshed_key, judge_token, check_token, validate_jwt, validate_jwt_sound,
}
use synit_waf.Jwks.{JwksResult, got, JwksEntry, Fetched, reply, JwksState, store_entry}
use synit_waf.Jwks.Store.{IsBounded, store_entry-IsBounded}

abbrev old : JwksEntry ℕ
old = record { serial = 0; keys = ("k", 7) ∷ []; expires_at = 5; last_forced_refresh = none }

abbrev next_entry : JwksEntry ℕ
next_entry = record old { serial = 1; expires_at = 50 }

abbrev cache : List (String × JwksEntry ℕ)
cache = ("a", old) ∷ []

cache-IsBounded : IsBounded ℕ cache
unfolding lookup
cache-IsBounded = record {
  named = (λ e. let h : false ≡ true = (eq_iff "a" "").1 e in absurd (cc), tt);
  distinct = (refl, tt);
  bounded = omega arith;
}

store_entry-IsBounded_example : IsBounded ℕ (store_entry ℕ 10 "b" next_entry cache)
store_entry-IsBounded_example =
    store_entry-IsBounded ℕ 10 "b" next_entry cache
      (λ e. let h : false ≡ true = (eq_iff "b" "").1 e in absurd (cc)) cache-IsBounded

abbrev state : JwksState ℕ
state = record { cache = cache; next_serial = 1 }

-- A reply with one key that lasts a minute.
abbrev fetched : Fetched ℕ
fetched = reply 200 0 100 (some (record { kid = "k"; parsed = some 9 } ∷ [])) (some 60)

-- One RSA key, a token that names it, and an old key set without that key, which the next one has.
abbrev library : TokenLibrary ℕ
library = record {
  key_type = λ key. rsa_key;
  read_header = λ token. some (record { kid = some "k2"; method = rsa });
  holds = λ token key. true;
}

abbrev rotated : JwksEntry ℕ
rotated = record old { serial = 1; keys = ("k2", 8) ∷ [] }

abbrev gives_old : Option (JwksEntry ℕ) → ℕ → JwksResult ℕ × ℕ
gives_old none s = (got old, s + 1)
gives_old (some previous) s = (got rotated, s + 1)

abbrev bearer : Option String
bearer = some "t"

validated : (validate_jwt library gives_old bearer 0).0 ≡ none
unfolding validate_jwt check_token key_function refreshed_key match_key jwt_key_matches_method
    judge_token lookup
validated = refl

validate_jwt_sound_example :
    (token : String) × (h : Header) × (kid : String) × (key : ℕ) × (bearer ≡ some token)
    × (library.read_header token ≡ some h)
    × (h.kid ≡ some kid)
    × Published library gives_old 0 kid key
    × (jwt_key_matches_method h.method (library.key_type key) ≡ true)
    × (library.holds token key ≡ true)
validate_jwt_sound_example = validate_jwt_sound library gives_old bearer 0 validated

-- Two requests share the lock of an endpoint; the first gives it back.
abbrev shared : LockTable
shared =
    release "https://a" 0
      (acquire "https://a" (acquire "https://a" (record { locks = []; named = [] })).1).1

shared_is : shared ≡ record { locks = 1 ∷ []; named = ("https://a", 0) ∷ [] }
unfolding acquire release lookup insert delete
shared_is = refl

shared-Reaches : Reaches (("https://a", 0) ∷ []) shared
unfolding acquire lookup insert
shared-Reaches = releases (later here) (acquires "https://a" (acquires "https://a" starts))

Reaches-IsCounted_example : IsCounted (("https://a", 0) ∷ []) shared
Reaches-IsCounted_example = Reaches-IsCounted shared-Reaches
