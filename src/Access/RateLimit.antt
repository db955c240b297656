-- ===== src/Access/RateLimit.antt =====
-- `allowRateLimitedRequest` of internal/waf/middleware.go and `rateLimitClientKey` of
-- internal/waf/request_info.go.
--
-- The coordinator, the LRU cache and the limiters of golang.org/x/time are an interface over one state.
-- A limiter is a handle, since the cache holds pointers.
use synit_waf.Prelude.{
  ℕ, ◌/◌, ◌^◌, ◌<◌, Bool, true, false, ◌&&◌, String, Option, none, some, ◌==◌, if◌then◌else◌, ◌≡◌,
  refl, sym, ap, subst, ◌∙◌, ◌⊎◌, inl, inr, arith, Bool-cases, Option-cases,
}
use synit_waf.Request.Text.{Bytes}
use synit_waf.Request.Address.{Addr, v4, v6, unmap}

pub record RateLimitPolicy : Type 0 where
  pub requests_per_minute : ℕ
  pub burst : ℕ

pub record Limiters : Type 1 where
  pub State : Type 0
  pub Handle : Type 0
  -- none: no coordinator is configured; its answer is none for an error.
  pub coordinator : Option (String → RateLimitPolicy → State → Option Bool × State)
  pub get : String → State → Option (RateLimitPolicy × Handle) × State
  pub add : String → RateLimitPolicy × Handle → State → State
  pub new_limiter : RateLimitPolicy → State → Handle × State
  pub allow : Handle → State → Bool × State

-- What the text of a key stands for: a text that is no address, an IPv4 address, or the /64 of an IPv6
-- address.
pub data ClientKey : Type 0 where
  unparsed : Bytes → ClientKey
  address4 : ℕ → ClientKey
  network6 : ℕ → ClientKey

abbrev pub key_of : Addr → ClientKey
key_of (v4 a) = address4 a
key_of (v6 a zone) = network6 (a / 2 ^ 64)

unfoldable pub rate_limit_client_key : (Bytes → Option Addr) → Bytes → ClientKey
unfolding unmap
rate_limit_client_key parse_addr client = elim (parse_addr client) [
  | none ↦ unparsed client
  | some found ↦ key_of (unmap found)
]

module _ (l : Limiters) where
  open l use {State, Handle}

  -- The cached limiter, if it was made for this policy.
  unfoldable pub fitting : RateLimitPolicy → Option (RateLimitPolicy × Handle) → Option Handle
  fitting p none = none
  fitting p (some (q, h)) =
      if q.requests_per_minute == p.requests_per_minute && q.burst == p.burst then some h else none

  -- Under the mutex: the cache is asked again before a limiter is made.
  unfoldable pub replace_limiter : String → RateLimitPolicy → State → Bool × State
  unfolding fitting
  replace_limiter key p s =
      let (cached, s1) = l.get key s in
      elim (fitting p cached) [
        | some h ↦ l.allow h s1
        | none ↦ let (h, s2) = l.new_limiter p s1 in l.allow h (l.add key (p, h) s2)
      ]

  unfoldable pub allow_locally : String → RateLimitPolicy → State → Bool × State
  unfolding fitting replace_limiter
  allow_locally key p s =
      let (cached, s1) = l.get key s in
      elim (fitting p cached) [ some h ↦ l.allow h s1 | none ↦ replace_limiter key p s1 ]

  unfoldable pub allow_rate_limited_request : String → RateLimitPolicy → State → Bool × State
  unfolding allow_locally
  allow_rate_limited_request key p s =
      if p.requests_per_minute == 0 then (true, s) else elim l.coordinator [
        | none ↦ allow_locally key p s
        | some ask ↦
            let (answer, s1) = ask key p s in
            elim answer [ some allowed ↦ (allowed, s1) | none ↦ allow_locally key p s1 ]
      ]

  -- A limiter that the cache holds under the key for this policy.
  abbrev pub Held : String → RateLimitPolicy → Handle → State → Type 0
  Held key p h s = (before : State) × (l.get key before ≡ (some (p, h), s))

  -- A limiter that was made for this policy and put under the key.
  abbrev pub Made : String → RateLimitPolicy → Handle → State → Type 0
  Made key p h s =
      (before : State) × (s ≡ l.add key (p, h) (l.new_limiter p before).1)
      × (h ≡ (l.new_limiter p before).0)

  fitting-some :
      (p : RateLimitPolicy) (cached : Option (RateLimitPolicy × Handle)) (h : Handle)
      → fitting p cached ≡ some h
      → cached ≡ some (p, h)
  unfolding fitting
  fitting-some p none h e = absurd (cc)
  fitting-some p (some (q, g)) h e =
      elim (Bool-cases (q.requests_per_minute == p.requests_per_minute && q.burst == p.burst)) [
        | inr other ↦ absurd (ground arith)
        | inl same ↦
            let policy : q ≡ p = ground arith in
            let step : fitting p (some (q, g)) ≡ some g = rw (same, fitting) in
            ap (λ (x : RateLimitPolicy). some (x, g)) policy
            ∙ ap (λ (x : Option Handle). elim x [ none ↦ none | some y ↦ some (p, y) ])
                (sym step ∙ e)
      ]

  pair_eta : {A : Type 0} (x : Option A × State) (y : Option A) → x.0 ≡ y → x ≡ (y, x.1)
  pair_eta (a, s) y e = ap (λ b. (b, s)) e

  -- The limiter that a call is counted against, in the state that it is found in.
  abbrev pub Counted : String → RateLimitPolicy → Bool × State → Type 0
  Counted key p x =
      (h : Handle) × (s : State) × (Held key p h s ⊎ Made key p h s) × (x ≡ l.allow h s)

  replace_limiter-Counted :
      (key : String) (p : RateLimitPolicy) (s : State) → Counted key p (replace_limiter key p s)
  unfolding replace_limiter
  replace_limiter-Counted key p s =
      let s1 = (l.get key s).1 in
      elim (Option-cases (fitting p (l.get key s).0)) [
        | inr (h, e) ↦ (
          h,
          s1,
          inl (s, pair_eta (l.get key s) (some (p, h)) (fitting-some p (l.get key s).0 h e)),
          rw (e, replace_limiter),
        )
        | inl e ↦
            let made = l.new_limiter p s1 in
            (made.0, l.add key (p, made.0) made.1, inr (s1, refl, refl), rw (e, replace_limiter))
      ]

  allow_locally-Counted :
      (key : String) (p : RateLimitPolicy) (s : State) → Counted key p (allow_locally key p s)
  unfolding allow_locally
  allow_locally-Counted key p s =
      let s1 = (l.get key s).1 in
      elim (Option-cases (fitting p (l.get key s).0)) [
        | inr (h, e) ↦ (
          h,
          s1,
          inl (s, pair_eta (l.get key s) (some (p, h)) (fitting-some p (l.get key s).0 h e)),
          rw (e, allow_locally),
        )
        | inl e ↦
            let step : allow_locally key p s ≡ replace_limiter key p s1 = rw (e, allow_locally) in
            subst (Counted key p) (sym step) (replace_limiter-Counted key p s1)
      ]

  -- With a positive rate, the answer is the coordinator's, or it is that of one local limiter, counted
  -- once: one that the cache holds under the key for exactly this policy, or a new one for this policy
  -- that the cache has been given. The local one decides only without a coordinator or on its error.
  pub allow_rate_limited_request_lem :
      (key : String) (p : RateLimitPolicy) (s : State)
      → 0 < p.requests_per_minute
      → let x = allow_rate_limited_request key p s in
        ((ask : String → RateLimitPolicy → State → Option Bool × State) × (l.coordinator ≡ some ask)
          × ((ask key p s).0 ≡ some x.0))
        ⊎ Counted key p x
          × ((l.coordinator ≡ none)
              ⊎ ((ask : String → RateLimitPolicy → State → Option Bool × State) × (l.coordinator
                    ≡ some ask)
                  × ((ask key p s).0 ≡ none)))
  unfolding allow_rate_limited_request
  allow_rate_limited_request_lem key p s h =
      let positive : (p.requests_per_minute == 0) ≡ false = ground arith in
      elim (Option-cases l.coordinator) [
        | inl alone ↦
            let step : allow_rate_limited_request key p s ≡ allow_locally key p s =
              rw (positive, alone, allow_rate_limited_request) in
            inr (subst (Counted key p) (sym step) (allow_locally-Counted key p s), inl alone)
        | inr (ask, there) ↦ elim (Option-cases (ask key p s).0) [
          | inl failed ↦
              let s1 = (ask key p s).1 in
              let step : allow_rate_limited_request key p s ≡ allow_locally key p s1 =
                rw (positive, there, failed, allow_rate_limited_request) in
              inr (
                subst (Counted key p) (sym step) (allow_locally-Counted key p s1),
                inr (ask, there, failed),
              )
          | inr (b, answered) ↦
              let step : allow_rate_limited_request key p s ≡ (b, (ask key p s).1) =
                rw (positive, there, answered, allow_rate_limited_request) in
              inl (ask, there, answered ∙ ap (λ (x : Bool × State). some x.0) (sym step))
        ]
      ]
