-- ===== src/Access/BasicAuth.antt =====
-- `checkBasicAuth` of internal/waf/middleware.go.
--
-- The comparison of bcrypt, the keyed hash of the cache's key and the cache are parameters. What the
-- request's header holds is read by net/http: none where there is no such header.
use synit_waf.Prelude.{
  Bool, true, false, not, String, Option, none, some, List, [], ◌∷◌, str_eq, eq_iff, if◌then◌else◌,
  ◌≡◌, refl, sym, ap, ◌∙◌, ◌⊎◌, inl, inr, arith, Bool-cases,
}

pub record BasicAuthCredentials : Type 0 where
  pub user : String
  pub password : String

pub record AuthCache : Type 1 where
  pub State : Type 0
  pub has : String → State → Bool × State
  pub add : String → State → State

module _ (cache : AuthCache) (cache_key : String → String → String → String)
    (compare : String → String → Bool) where
  open cache use {State}

  -- The loop over the credentials, left at the first that fits.
  unfoldable pub try_credentials :
      List BasicAuthCredentials → String → String → State → Bool × State
  try_credentials [] user pass s = (false, s)
  try_credentials (c ∷ cs) user pass s =
      let skip = try_credentials cs user pass s in
      let key = cache_key user pass c.password in
      let (cached, s1) = cache.has key s in
      let more = try_credentials cs user pass s1 in
      if not (str_eq user c.user)
      then skip
      else if cached
      then (true, s1)
      else if compare c.password pass
      then (true, cache.add key s1)
      else more

  -- The answer, and the user that the request is known as from here on.
  unfoldable pub check_basic_auth :
      Option (String × String) → List BasicAuthCredentials → State → (Bool × Option String) × State
  unfolding try_credentials
  check_basic_auth none cs s = ((false, none), s)
  check_basic_auth (some (user, pass)) cs s =
      let (ok, s1) = try_credentials cs user pass s in ((ok, if ok then some user else none), s1)

  -- A credential of the list that is the user's, with a password that fits or that the cache says fits.
  abbrev pub Vouched : List BasicAuthCredentials → String → String → Type 0
  Vouched [] user pass = ⊥
  Vouched (c ∷ cs) user pass =
      ((user ≡ c.user)
        × ((compare c.password pass ≡ true)
            ⊎ ((s : State) × ((cache.has (cache_key user pass c.password) s).0 ≡ true))))
      ⊎ Vouched cs user pass

  try_credentials-Vouched :
      (cs : List BasicAuthCredentials) (user pass : String) (s : State)
      → (try_credentials cs user pass s).0 ≡ true
      → Vouched cs user pass
  unfolding try_credentials
  try_credentials-Vouched [] user pass s e = absurd (cc)
  try_credentials-Vouched (c ∷ cs) user pass s e =
      let key = cache_key user pass c.password in
      let s1 = (cache.has key s).1 in
      elim (Bool-cases (str_eq user c.user)) [
        | inr other ↦
            let step : try_credentials (c ∷ cs) user pass s ≡ try_credentials cs user pass s =
              rw (other, try_credentials) in
            inr (try_credentials-Vouched cs user pass s (sym (ap (λ x. x.0) step) ∙ e))
        | inl same ↦
            let own = (eq_iff user c.user).0 same in
            elim (Bool-cases (cache.has key s).0) [
              | inl hit ↦ inl (own, inr (s, hit))
              | inr miss ↦ elim (Bool-cases (compare c.password pass)) [
                | inl fits ↦ inl (own, inl fits)
                | inr wrong ↦
                    let step : try_credentials (c ∷ cs) user pass s
                        ≡ try_credentials cs user pass s1 =
                      rw (same, miss, wrong, try_credentials) in
                    inr (try_credentials-Vouched cs user pass s1 (sym (ap (λ x. x.0) step) ∙ e))
              ]
            ]
      ]

  -- A request that is authenticated has a header with a user of the tenant's list and a password that
  -- bcrypt accepts for one of that user's entries, or that the cache has under that entry's key. It is
  -- known as that user from there on.
  pub check_basic_auth_sound :
      (header : Option (String × String)) (cs : List BasicAuthCredentials) (s : State)
      → (check_basic_auth header cs s).0.0 ≡ true
      → (user : String) × (pass : String) × (header ≡ some (user, pass))
        × Vouched cs user pass
        × ((check_basic_auth header cs s).0.1 ≡ some user)
  unfolding check_basic_auth
  check_basic_auth_sound none cs s e = absurd (cc)
  check_basic_auth_sound (some (user, pass)) cs s e =
      (user, pass, refl, try_credentials-Vouched cs user pass s e, ground arith)
