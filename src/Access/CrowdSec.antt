-- ===== src/Access/CrowdSec.antt =====
-- `crowdSecBanned` of internal/waf/middleware.go: the verdict on an address, with its cache.
--
-- The cache and the local API of CrowdSec are an interface over one state.
use synit_waf.Prelude.{
  ℕ, ◌+◌, ◌<◌, Bool, true, false, String, Option, none, some, ltb, ltb→lt, if◌then◌else◌, ◌≡◌, refl,
  sym, ap, subst, ◌⊎◌, inl, inr, Bool-cases, Option-cases,
}
use synit_waf.Proxy.Serve.{Verdict, banned, not_banned, lapi_failed}

pub record Decision : Type 0 where
  pub is_banned : Bool
  pub expires : ℕ

pub record Lapi : Type 1 where
  pub State : Type 0
  pub cache_get : String → State → Option Decision × State
  pub cache_add : String → Decision → State → State
  -- Whether there is a decision against the address; none for an error.
  pub ask : String → State → Option Bool × State
  pub set_healthy : Bool → State → State

abbrev pub verdict_of : Bool → Verdict
verdict_of true = banned
verdict_of false = not_banned

module _ (l : Lapi) (ttl now : ℕ) (ip : String) where
  open l use {State}

  unfoldable pub remember : Bool → State → State
  remember b s =
      if ltb 0 ttl then l.cache_add ip (record { is_banned = b; expires = now + ttl }) s else s

  unfoldable pub ask_lapi : State → Verdict × State
  unfolding remember
  ask_lapi s =
      let (answer, s1) = l.ask ip s in
      elim answer [
        | none ↦ (lapi_failed, l.set_healthy false s1)
        | some b ↦ (verdict_of b, remember b (l.set_healthy true s1))
      ]

  unfoldable pub crowd_sec_banned : State → Verdict × State
  unfolding ask_lapi
  crowd_sec_banned s =
      if ltb 0 ttl
      then (let (cached, s1) = l.cache_get ip s in
          elim cached [
            | none ↦ ask_lapi s1
            | some d ↦ if ltb now d.expires then (verdict_of d.is_banned, s1) else ask_lapi s1
          ])
      else ask_lapi s

  -- The answer of a cached decision that has not expired.
  abbrev pub FromCache : Verdict → State → Type 0
  FromCache v s =
      (0 < ttl)
      × ((d : Decision) × ((l.cache_get ip s).0 ≡ some d)
          × (now < d.expires)
          × (v ≡ verdict_of d.is_banned))

  -- The answer of the local API itself.
  abbrev pub FromLapi : Verdict → State → Type 0
  FromLapi v s =
      ((v ≡ lapi_failed) × ((l.ask ip s).0 ≡ none))
      ⊎ ((b : Bool) × ((l.ask ip s).0 ≡ some b) × (v ≡ verdict_of b))

  ask_lapi-FromLapi : (s : State) → FromLapi (ask_lapi s).0 s
  unfolding ask_lapi
  ask_lapi-FromLapi s = elim (Option-cases (l.ask ip s).0) [
    | inl bad ↦ inl (rw (bad, ask_lapi), bad)
    | inr (b, good) ↦ inr (b, good, rw (good, ask_lapi))
  ]

  -- A verdict is that of a cached decision that has not expired, or what the local API has just said.
  -- Without an answer of the local API it is never a ban and never a pass, but the failure.
  pub crowd_sec_banned_lem :
      (s : State)
      → FromCache (crowd_sec_banned s).0 s
        ⊎ ((s' : State) × FromLapi (crowd_sec_banned s).0 s'
            × ((s' ≡ s) ⊎ (s' ≡ (l.cache_get ip s).1)))
  unfolding crowd_sec_banned
  crowd_sec_banned_lem s = elim (Bool-cases (ltb 0 ttl)) [
    | inr off ↦
        let step : crowd_sec_banned s ≡ ask_lapi s = rw (off, crowd_sec_banned) in
        inr (
          s,
          subst (λ (x : Verdict × State). FromLapi x.0 s) (sym step) (ask_lapi-FromLapi s),
          inl refl,
        )
    | inl on ↦
        let s1 = (l.cache_get ip s).1 in
        elim (Option-cases (l.cache_get ip s).0) [
          | inl miss ↦
              let step : crowd_sec_banned s ≡ ask_lapi s1 = rw (on, miss, crowd_sec_banned) in
              inr (
                s1,
                subst (λ (x : Verdict × State). FromLapi x.0 s1) (sym step) (ask_lapi-FromLapi s1),
                inr refl,
              )
          | inr (d, hit) ↦ elim (Bool-cases (ltb now d.expires)) [
            | inl valid ↦
                let step : crowd_sec_banned s ≡ (verdict_of d.is_banned, s1) =
                  rw (on, hit, valid, crowd_sec_banned) in
                inl (ltb→lt _ _ on, (d, hit, ltb→lt _ _ valid, ap (λ x. x.0) step))
            | inr expired ↦
                let step : crowd_sec_banned s ≡ ask_lapi s1 =
                  rw (on, hit, expired, crowd_sec_banned) in
                inr (
                  s1,
                  subst (λ (x : Verdict × State). FromLapi x.0 s1) (sym step)
                      (ask_lapi-FromLapi s1),
                  inr refl,
                )
          ]
        ]
  ]
