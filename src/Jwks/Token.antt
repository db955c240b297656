-- ===== src/Jwks/Token.antt =====
-- `validateJWT` and `jwtKeyMatchesMethod` of internal/waf/middleware.go.
--
-- Getting a key set is the parameter `get_entry`, `getJWKSEntry` over a state; of the token library the
-- code uses what the header of a token with an allowed method says, and whether the token holds with a
-- key: its signature, issuer, audience and expiry.
use synit_waf.Prelude.{
  ℕ, Bool, true, false, String, Option, none, some, if◌then◌else◌, lookup, ◌≡◌, refl, sym, ap, ◌∙◌,
  ◌⊎◌, inl, inr, arith, Bool-cases, Option-cases,
}
use synit_waf.Jwks.{JwksEntry, JwksResult, JwksError, got, failed}

-- The families of signing methods and of keys; `other_method` is one that no key matches.
pub data Method : Type 0 where
  rsa ecdsa ed25519 other_method : Method

pub data KeyType : Type 0 where
  rsa_key ecdsa_key ed25519_key : KeyType

unfoldable pub jwt_key_matches_method : Method → KeyType → Bool
jwt_key_matches_method rsa rsa_key = true
jwt_key_matches_method ecdsa ecdsa_key = true
jwt_key_matches_method ed25519 ed25519_key = true
jwt_key_matches_method m k = false

pub record Header : Type 0 where
  pub kid : Option String
  pub method : Method

pub record TokenLibrary (PublicKey : Type 0) : Type 0 where
  pub key_type : PublicKey → KeyType
  -- none: no token, or a method that is not allowed.
  pub read_header : String → Option Header
  pub holds : String → PublicKey → Bool

module _ {PublicKey : Type 0} {State : Type 0} (lib : TokenLibrary PublicKey)
    (get_entry : Option (JwksEntry PublicKey) → State → JwksResult PublicKey × State) where
  -- What the key function gives: a key, or why there is none.
  pub data KeyResult : Type 0 where
    key_is : PublicKey → KeyResult
    no_key refresh_failed : KeyResult

  unfoldable pub match_key : Header → Option PublicKey → KeyResult
  unfolding jwt_key_matches_method
  match_key h none = no_key
  match_key h (some key) =
      if jwt_key_matches_method h.method (lib.key_type key) then key_is key else no_key

  unfoldable pub refreshed_key : Header → String → JwksResult PublicKey × State → KeyResult × State
  unfolding match_key
  refreshed_key h kid (failed e, s) = (refresh_failed, s)
  refreshed_key h kid (got entry, s) = (match_key h (lookup kid entry.keys), s)

  -- The function that is handed to `jwt.Parse`.
  unfoldable pub key_function : JwksEntry PublicKey → Header → State → KeyResult × State
  unfolding match_key refreshed_key
  key_function entry h s = elim h.kid [
    | none ↦ (no_key, s)
    | some kid ↦ elim (lookup kid entry.keys) [
      | some key ↦ (match_key h (some key), s)
      | none ↦ refreshed_key h kid (get_entry (some entry) s)
    ]
  ]

  unfoldable pub judge_token : String → KeyResult × State → Option ℕ × State
  judge_token token (refresh_failed, s) = (some 503, s)
  judge_token token (no_key, s) = (some 401, s)
  judge_token token (key_is key, s) = if lib.holds token key then (none, s) else (some 401, s)

  unfoldable pub check_token : String → JwksResult PublicKey × State → Option ℕ × State
  unfolding key_function judge_token
  check_token token (failed e, s) = (some 503, s)
  check_token token (got entry, s) = elim (lib.read_header token) [
    | none ↦ (some 401, s)
    | some h ↦ judge_token token (key_function entry h s)
  ]

  -- The token behind `Bearer `, if there is one; none: the request goes on.
  unfoldable pub validate_jwt : Option String → State → Option ℕ × State
  unfolding check_token
  validate_jwt none s = (some 401, s)
  validate_jwt (some token) s = check_token token (get_entry none s)

  -- At this state the key set that is got has the key under the name; or it has none of the name, and
  -- the one that is then got in its place has.
  abbrev pub Published : State → String → PublicKey → Type 0
  Published s kid key =
      (entry : JwksEntry PublicKey) × ((get_entry none s).0 ≡ got entry)
      × ((lookup kid entry.keys ≡ some key)
          ⊎ (lookup kid entry.keys ≡ none)
            × ((fresh : JwksEntry PublicKey) × ((get_entry (some entry) (get_entry none s).1).0
                  ≡ got fresh)
                × (lookup kid fresh.keys ≡ some key)))

  match_key-found :
      (h : Header) (found : Option PublicKey) (key : PublicKey)
      → match_key h found ≡ key_is key
      → (found ≡ some key) × (jwt_key_matches_method h.method (lib.key_type key) ≡ true)
  unfolding match_key
  match_key-found h none key e = absurd (cc)
  match_key-found h (some k) key e =
      elim (Bool-cases (jwt_key_matches_method h.method (lib.key_type k))) [
        | inr bad ↦ absurd (ground arith)
        | inl good ↦
            let step : match_key h (some k) ≡ key_is k = rw (good, match_key) in
            let same : k ≡ key = cc in
            (
              ap (λ (x : PublicKey). some x) same,
              ap (λ x. jwt_key_matches_method h.method (lib.key_type x)) (sym same) ∙ good,
            )
      ]

  Result-cases :
      (r : JwksResult PublicKey)
      → ((e : JwksError PublicKey) × (r ≡ failed e))
        ⊎ ((entry : JwksEntry PublicKey) × (r ≡ got entry))
  Result-cases (failed e) = inl (e, refl)
  Result-cases (got entry) = inr (entry, refl)

  of_failed :
      (h : Header) (kid : String) (x : JwksResult PublicKey × State) (bad : JwksError PublicKey)
      → x.0 ≡ failed bad
      → (refreshed_key h kid x).0 ≡ refresh_failed
  unfolding refreshed_key
  of_failed h kid (failed e, s) bad q = refl
  of_failed h kid (got entry, s) bad q = absurd (cc)

  of_got :
      (h : Header) (kid : String) (x : JwksResult PublicKey × State) (entry : JwksEntry PublicKey)
      → x.0 ≡ got entry
      → (refreshed_key h kid x).0 ≡ match_key h (lookup kid entry.keys)
  unfolding refreshed_key
  of_got h kid (failed e, s) entry q = absurd (cc)
  of_got h kid (got other, s) entry q =
      ap
        (λ (r : JwksResult PublicKey). elim r [
          | failed e ↦ no_key
          | got x ↦ match_key h (lookup kid x.keys)
        ])
        q

  refreshed_key-found :
      (h : Header) (kid : String) (previous : Option (JwksEntry PublicKey)) (s : State)
      (key : PublicKey)
      → (refreshed_key h kid (get_entry previous s)).0 ≡ key_is key
      → ((fresh : JwksEntry PublicKey) × ((get_entry previous s).0 ≡ got fresh)
          × (lookup kid fresh.keys ≡ some key))
        × (jwt_key_matches_method h.method (lib.key_type key) ≡ true)
  unfolding refreshed_key
  refreshed_key-found h kid previous s key e = elim (Result-cases (get_entry previous s).0) [
    | inl (bad, failing) ↦
        absurd (cc ((sym (of_failed h kid (get_entry previous s) bad failing)) ∙ e))
    | inr (entry, given) ↦
        let (found, fits) =
          match_key-found h (lookup kid entry.keys) key
            (sym (of_got h kid (get_entry previous s) entry given) ∙ e) in
        ((entry, given, found), fits)
  ]

  key_function-found :
      (entry : JwksEntry PublicKey) (h : Header) (s0 : State) (key : PublicKey)
      → (get_entry none s0).0 ≡ got entry
      → (key_function entry h (get_entry none s0).1).0 ≡ key_is key
      → (kid : String) × (h.kid ≡ some kid)
        × Published s0 kid key
        × (jwt_key_matches_method h.method (lib.key_type key) ≡ true)
  unfolding key_function
  key_function-found entry h s0 key given e =
      let s = (get_entry none s0).1 in
      elim (Option-cases h.kid) [
        | inl unnamed ↦ absurd (ground arith)
        | inr (kid, named) ↦ elim (Option-cases (lookup kid entry.keys)) [
          | inr (k, there) ↦
              let step : (key_function entry h s).0 ≡ match_key h (some k) =
                rw (named, there, key_function) in
              let (found, fits) = match_key-found h (some k) key (sym step ∙ e) in
              (kid, named, (entry, given, inl (there ∙ found)), fits)
          | inl missing ↦
              let step : (key_function entry h s).0
                  ≡ (refreshed_key h kid (get_entry (some entry) s)).0 =
                rw (named, missing, key_function) in
              let (fresh, fits) = refreshed_key-found h kid (some entry) s key (sym step ∙ e) in
              (kid, named, (entry, given, inr (missing, fresh)), fits)
        ]
      ]

  judge_token-none :
      (token : String) (r : KeyResult × State)
      → (judge_token token r).0 ≡ none
      → (key : PublicKey) × (r.0 ≡ key_is key) × (lib.holds token key ≡ true)
  unfolding judge_token
  judge_token-none token (refresh_failed, s) e = absurd (cc)
  judge_token-none token (no_key, s) e = absurd (cc)
  judge_token-none token (key_is key, s) e = elim (Bool-cases (lib.holds token key)) [
    | inl good ↦ (key, refl, good)
    | inr bad ↦ absurd (ground arith)
  ]

  -- A request goes on only with a bearer token whose header names a key: the key set that is got
  -- for this request has a key of that name, or has none and the one that is then got in its place has;
  -- the key is of the type of the token's method, and the token holds with it.
  pub validate_jwt_sound :
      (bearer : Option String) (s : State)
      → (validate_jwt bearer s).0 ≡ none
      → (token : String) × (h : Header) × (kid : String) × (key : PublicKey) × (bearer ≡ some token)
        × (lib.read_header token ≡ some h)
        × (h.kid ≡ some kid)
        × Published s kid key
        × (jwt_key_matches_method h.method (lib.key_type key) ≡ true)
        × (lib.holds token key ≡ true)
  unfolding validate_jwt check_token
  validate_jwt_sound none s e = absurd (cc)
  validate_jwt_sound (some token) s e = elim (Result-cases (get_entry none s).0) [
    | inl (bad, failing) ↦ absurd (ground (arith, failing))
    | inr (entry, given) ↦ elim (Option-cases (lib.read_header token)) [
      | inl unread ↦ absurd (ground (arith, given, unread))
      | inr (h, read) ↦
          let s1 = (get_entry none s).1 in
          let step : (validate_jwt (some token) s).0
              ≡ (judge_token token (key_function entry h s1)).0 =
            rw (given, read, validate_jwt, check_token) in
          let (key, chosen, good) =
            judge_token-none token (key_function entry h s1) (sym step ∙ e) in
          let (kid, named, published, fits) = key_function-found entry h s key given chosen in
          (token, h, kid, key, refl, read, named, published, fits, good)
    ]
  ]
