-- ===== src/Proxy/Chain.antt =====
-- What the chain of controls guarantees of a request that it forwards, and of one that it does not.
use synit_waf.Prelude.{
  ℕ, Bool, true, false, ◌||◌, ◌&&◌, not, any, String, str_eq, subst, Option, none, some, ◌≡◌, refl,
  sym, ap, ◌∙◌, ◌⊎◌, inl, inr, arith, Bool-cases, Option-cases,
}
use synit_waf.Proxy.Serve.{
  Country, country, lookup_failed, Verdict, banned, not_banned, lapi_failed, Controls, Settings,
  TenantPolicy, Arrival, Outcome, answered, forwarded, is_on, list_contains, Step, stop, next,
  ◌>>=◌, allowlisted, block_stage, country_stage, limit, global_stage, rate_stage, unless_answered,
  jwt_stage, basic_stage, crowdsec_stage, control, inspect_stage, forward, finish, authenticated,
  chosen, verdict, serve_http,
}

module _ (c : Controls) (g : Settings) (r : Arrival) where
  open c use {State}

  -- A request from a blocked address is answered with 403 before any control runs, whatever the
  -- tenant, and also where the address is on the allow list.
  pub serve_http_blocked :
      (t : Option TenantPolicy) (s : State)
      → list_contains g.block_ips r.ip ≡ true
      → serve_http c g r t s ≡ (answered 403, s)
  unfolding serve_http block_stage
  serve_http_blocked none s h = rw h
  serve_http_blocked (some t) s h = rw h

  -- A host that belongs to no tenant is answered with 403, or with 429 by the global limit, and is
  -- never forwarded.
  pub serve_http_unknown_host :
      (s : State)
      → ((serve_http c g r none s).0 ≡ answered 403) ⊎ ((serve_http c g r none s).0 ≡ answered 429)
  unfolding serve_http block_stage global_stage
  serve_http_unknown_host s = ground arith

  finish-skip :
      (x : Step State) (f : State → Step State) (k : State → Outcome × State)
      → ((s : State) → f s ≡ next s)
      → finish (x >>= f) k ≡ finish x k
  finish-skip (stop status s) f k h = refl
  finish-skip (next s) f k h = rw (h s)

  block_stage-passed :
      (s : State) → list_contains g.block_ips r.ip ≡ false → block_stage c g r s ≡ next s
  unfolding block_stage
  block_stage-passed s h = rw h

  skips_country :
      (t : TenantPolicy) → allowlisted c g r ≡ true → (s : State) → country_stage c g r t s ≡ next s
  unfolding country_stage
  skips_country t h s = rw h

  skips_global : allowlisted c g r ≡ true → (s : State) → global_stage c g r s ≡ next s
  unfolding global_stage
  skips_global h s = rw h

  skips_rate : allowlisted c g r ≡ true → (s : State) → rate_stage c g r s ≡ next s
  unfolding rate_stage
  skips_rate h s = rw h

  skips_inspection :
      (t : TenantPolicy) → allowlisted c g r ≡ true → (s : State) → inspect_stage c g r t s ≡ next s
  unfolding inspect_stage
  skips_inspection t h s = rw h

  -- A request from an allow-listed address that is not blocked skips the country policy, both limits
  -- and the content inspection, and nothing else: it meets the authentication and CrowdSec, and is
  -- forwarded.
  pub serve_http_allowlisted :
      (t : TenantPolicy) (s : State)
      → list_contains g.block_ips r.ip ≡ false
      → list_contains g.allow_ips r.ip ≡ true
      → serve_http c g r (some t) s
        ≡ finish
            (jwt_stage c g r t s >>= basic_stage c g r t >>= crowdsec_stage c g r t)
            (forward c g r)
  unfolding serve_http
  serve_http_allowlisted t s free listed =
      finish-skip _ (inspect_stage c g r t) (forward c g r) (skips_inspection t listed)
      ∙ rw (
        block_stage-passed s free,
        skips_country t listed s,
        skips_global listed s,
        skips_rate listed s,
      )

  -- An interposed step that goes on went on at both.
  bind-next :
      (x : Step State) (k : State → Step State) {s' : State}
      → (x >>= k) ≡ next s'
      → (s : State) × (x ≡ next s) × (k s ≡ next s')
  bind-next (stop status s) k h = absurd (cc)
  bind-next (next s) k h = (s, refl, h)

  -- A control that is off, or that let the request go on, and the states around it.
  pub Passes : Bool → (State → Option ℕ × State) → State → State → Type 0
  Passes on apply s s' = ((on ≡ false) × (s ≡ s')) ⊎ (apply s ≡ (none, s'))

  -- The same of a control that says yes or no.
  pub Admits : Bool → (State → Bool × State) → State → State → Type 0
  Admits on ask s s' = ((on ≡ false) × (s ≡ s')) ⊎ (ask s ≡ (true, s'))

  -- The country policy is off, does not apply to an allow-listed address, or has a country for the
  -- address that it does not block. Without a lookup a request only goes on where the dependency mode
  -- is to fail open.
  pub CountryAllowed : TenantPolicy → State → Type 0
  CountryAllowed t s =
      ((not (allowlisted c g r) && is_on t.geoip_enabled) ≡ false)
      ⊎ ((c.lookup_country r.ip s ≡ lookup_failed) × (g.fail_closed ≡ false))
      ⊎ (c.lookup_country r.ip s ≡ country none)
      ⊎ ((code : String) × (c.lookup_country r.ip s ≡ country (some code))
          × (any (λ blocked. str_eq blocked code) t.blocked_countries ≡ false))

  -- The global limiter is off, does not apply to an allow-listed address, or allowed the request.
  pub GlobalAdmits : State → State → Type 0
  GlobalAdmits s s' =
      (((allowlisted c g r ≡ true) ⊎ (c.global_limiter ≡ none)) × (s ≡ s'))
      ⊎ ((allow : State → Bool × State) × (c.global_limiter ≡ some allow) × (allow s ≡ (true, s')))

  -- A CrowdSec check that is off, or that did not ban: without an answer of the service a request only
  -- goes on where the dependency mode is to fail open.
  pub Unbanned : TenantPolicy → State → State → Type 0
  Unbanned t s s' =
      ((is_on t.crowdsec_enabled ≡ false) × (s ≡ s'))
      ⊎ ((c.bouncer ≡ none) × (g.fail_closed ≡ false) × (s ≡ s'))
      ⊎ ((ask : State → Verdict × State) × (c.bouncer ≡ some ask)
          × ((ask s ≡ (not_banned, s')) ⊎ ((ask s ≡ (lapi_failed, s')) × (g.fail_closed ≡ false))))

  -- The content inspection: skipped, or all three controls in their order.
  pub Inspected : TenantPolicy → State → State → Type 0
  Inspected t s s' =
      (((allowlisted c g r || r.bypass_granted) ≡ true) × (s ≡ s'))
      ⊎ ((s1 : State) × (s2 : State) × Passes t.has_waf c.run_waf s s1
          × Passes t.graphql_enabled c.apply_graphql s1 s2
          × Passes t.llm_enabled c.apply_llm s2 s')

  next_inj : {s s' : State} → next s ≡ next s' → s ≡ s'
  next_inj h = cc

  unless_answered-next :
      (x : Option ℕ × State) {s' : State} → unless_answered x ≡ next s' → x ≡ (none, s')
  unless_answered-next (none, s) h = ap (λ t. (none, t)) (next_inj h)
  unless_answered-next (some n, s) h = absurd (cc)

  control-Passes :
      (on : Bool) (apply : State → Option ℕ × State) (s : State) {s' : State}
      → control on apply s ≡ next s'
      → Passes on apply s s'
  unfolding Passes
  control-Passes false apply s h = inl (refl, next_inj h)
  control-Passes true apply s h = inr (unless_answered-next (apply s) h)

  limit-next : (x : Bool × State) {s' : State} → limit x ≡ next s' → x ≡ (true, s')
  limit-next (true, s) h = ap (λ t. (true, t)) (next_inj h)
  limit-next (false, s) h = absurd (cc)

  authenticated-next : (x : Bool × State) {s' : State} → authenticated x ≡ next s' → x ≡ (true, s')
  authenticated-next (true, s) h = ap (λ t. (true, t)) (next_inj h)
  authenticated-next (false, s) h = absurd (cc)

  chosen-forwarded : (x : Option ℕ × State) {i : ℕ} → (chosen x).0 ≡ forwarded i → x.0 ≡ some i
  chosen-forwarded (some j, s) h = cc
  chosen-forwarded (none, s) h = absurd (cc)

  finish-forwarded :
      (x : Step State) (k : State → Outcome × State) {i : ℕ}
      → (finish x k).0 ≡ forwarded i
      → (s : State) × (x ≡ next s) × ((k s).0 ≡ forwarded i)
  finish-forwarded (stop status s) k h = absurd (cc)
  finish-forwarded (next s) k h = (s, refl, h)

  verdict-next :
      (x : Verdict × State) {s' : State}
      → verdict c g r x ≡ next s'
      → (x ≡ (not_banned, s')) ⊎ ((x ≡ (lapi_failed, s')) × (g.fail_closed ≡ false))
  verdict-next (banned, s) h = absurd (cc)
  verdict-next (not_banned, s) h = inl (ap (λ t. (not_banned, t)) (next_inj h))
  verdict-next (lapi_failed, s) h = elim (Bool-cases g.fail_closed) [
    | inl closed ↦ absurd (ground arith)
    | inr failing_open ↦
        let on : verdict c g r (lapi_failed, s) ≡ next s = rw failing_open in
        inr (ap (λ t. (lapi_failed, t)) (next_inj (sym on ∙ h)), failing_open)
  ]

  block_stage-next :
      (s : State) {s' : State}
      → block_stage c g r s ≡ next s'
      → (list_contains g.block_ips r.ip ≡ false) × (s ≡ s')
  unfolding block_stage
  block_stage-next s h = elim (Bool-cases (list_contains g.block_ips r.ip)) [
    | inl listed ↦ absurd (ground arith)
    | inr free ↦ (free, next_inj (sym (block_stage-passed s free) ∙ h))
  ]

  Country-cases :
      (x : Country)
      → (x ≡ lookup_failed) ⊎ ((x ≡ country none) ⊎ ((code : String) × (x ≡ country (some code))))
  Country-cases lookup_failed = inl refl
  Country-cases (country none) = inr (inl refl)
  Country-cases (country (some code)) = inr (inr (code, refl))

  country_stage-next :
      (t : TenantPolicy) (s : State) {s' : State}
      → country_stage c g r t s ≡ next s'
      → CountryAllowed t s × (s ≡ s')
  unfolding country_stage CountryAllowed
  country_stage-next t s h = elim (Bool-cases (not (allowlisted c g r) && is_on t.geoip_enabled)) [
    | inr off ↦
        let passed : country_stage c g r t s ≡ next s = rw off in
        (inl off, next_inj (sym passed ∙ h))
    | inl on ↦ elim (Country-cases (c.lookup_country r.ip s)) [
      | inl fails ↦ elim (Bool-cases g.fail_closed) [
        | inl closed ↦
            let ends : country_stage c g r t s ≡ stop 503 s = rw (on, fails, closed) in
            absurd (cc (sym ends ∙ h))
        | inr failing_open ↦
            let passed : country_stage c g r t s ≡ next s = rw (on, fails, failing_open) in
            (inr (inl (fails, failing_open)), next_inj (sym passed ∙ h))
      ]
      | inr (inl unknown) ↦
          let passed : country_stage c g r t s ≡ next s = rw (on, unknown) in
          (inr (inr (inl unknown)), next_inj (sym passed ∙ h))
      | inr (inr (code, found)) ↦
          elim (Bool-cases (any (λ blocked. str_eq blocked code) t.blocked_countries)) [
            | inl listed ↦
                let ends : country_stage c g r t s ≡ stop 403 s = rw (on, found, listed) in
                absurd (cc (sym ends ∙ h))
            | inr free ↦
                let passed : country_stage c g r t s ≡ next s = rw (on, found, free) in
                (inr (inr (inr (code, found, free))), next_inj (sym passed ∙ h))
          ]
    ]
  ]

  global_stage-next : (s : State) {s' : State} → global_stage c g r s ≡ next s' → GlobalAdmits s s'
  unfolding global_stage GlobalAdmits
  global_stage-next s h = elim (Bool-cases (allowlisted c g r)) [
    | inl listed ↦ inl (inl listed, next_inj (sym (skips_global listed s) ∙ h))
    | inr e ↦ elim (Option-cases c.global_limiter) [
      | inl off ↦
          let passed : global_stage c g r s ≡ next s = rw (e, off) in
          inl (inr off, next_inj (sym passed ∙ h))
      | inr (allow, on) ↦
          let asked : global_stage c g r s ≡ limit (allow s) = rw (e, on) in
          inr (allow, on, limit-next (allow s) (sym asked ∙ h))
    ]
  ]

  rate_stage-next :
      (s : State) {s' : State}
      → rate_stage c g r s ≡ next s'
      → Admits (not (allowlisted c g r)) c.allow_rate_limited s s'
  unfolding rate_stage Admits
  rate_stage-next s h = elim (Bool-cases (allowlisted c g r)) [
    | inl listed ↦ inl (rw listed, next_inj (sym (skips_rate listed s) ∙ h))
    | inr e ↦
        let asked : rate_stage c g r s ≡ limit (c.allow_rate_limited s) = rw e in
        inr (limit-next (c.allow_rate_limited s) (sym asked ∙ h))
  ]

  basic_stage-next :
      (t : TenantPolicy) (s : State) {s' : State}
      → basic_stage c g r t s ≡ next s'
      → Admits t.has_basic_auth c.ask_basic_auth s s'
  unfolding basic_stage Admits
  basic_stage-next t s h = elim (Bool-cases t.has_basic_auth) [
    | inr off ↦
        let passed : basic_stage c g r t s ≡ next s = rw off in inl (off, next_inj (sym passed ∙ h))
    | inl on ↦
        let asked : basic_stage c g r t s ≡ authenticated (c.ask_basic_auth s) = rw on in
        inr (authenticated-next (c.ask_basic_auth s) (sym asked ∙ h))
  ]

  inspect_stage-next :
      (t : TenantPolicy) (s : State) {s' : State}
      → inspect_stage c g r t s ≡ next s'
      → Inspected t s s'
  unfolding inspect_stage Inspected
  inspect_stage-next t s h = elim (Bool-cases (allowlisted c g r || r.bypass_granted)) [
    | inl skipped ↦
        let passed : inspect_stage c g r t s ≡ next s = rw skipped in
        inl (skipped, next_inj (sym passed ∙ h))
    | inr e ↦
        let inspected : inspect_stage c g r t s ≡ (
            control t.has_waf c.run_waf s
            >>= control t.graphql_enabled c.apply_graphql
            >>= control t.llm_enabled c.apply_llm) =
          rw e in
        let (s2, first_two, third) = bind-next _ _ (sym inspected ∙ h) in
        let (s1, first, second) = bind-next _ _ first_two in
        inr (
          s1,
          s2,
          control-Passes t.has_waf c.run_waf s first,
          control-Passes t.graphql_enabled c.apply_graphql s1 second,
          control-Passes t.llm_enabled c.apply_llm s2 third,
        )
  ]

  crowdsec_stage-next :
      (t : TenantPolicy) (s : State) {s' : State}
      → crowdsec_stage c g r t s ≡ next s'
      → Unbanned t s s'
  unfolding crowdsec_stage Unbanned
  crowdsec_stage-next t s h = elim (Bool-cases (is_on t.crowdsec_enabled)) [
    | inr off ↦
        let passed : crowdsec_stage c g r t s ≡ next s = rw off in
        inl (off, next_inj (sym passed ∙ h))
    | inl on ↦ elim (Option-cases c.bouncer) [
      | inl missing ↦ elim (Bool-cases g.fail_closed) [
        | inl closed ↦ absurd (ground arith)
        | inr failing_open ↦
            let passed : crowdsec_stage c g r t s ≡ next s = rw (on, missing, failing_open) in
            inr (inl (missing, failing_open, next_inj (sym passed ∙ h)))
      ]
      | inr (ask, e) ↦
          let asked : crowdsec_stage c g r t s ≡ verdict c g r (ask s) = rw (on, e) in
          inr (inr (ask, e, verdict-next (ask s) (sym asked ∙ h)))
    ]
  ]

  forward-forwarded :
      (s : State) {i : ℕ} → (forward c g r s).0 ≡ forwarded i → (c.choose_upstream s).0 ≡ some i
  unfolding forward
  forward-forwarded s h = elim (Bool-cases (c.has_upstreams s)) [
    | inl some_left ↦
        let e : forward c g r s ≡ chosen (c.choose_upstream s) = rw some_left in
        chosen-forwarded (c.choose_upstream s) (sym (ap (λ x. x.0) e) ∙ h)
    | inr e ↦ absurd (cc)
  ]

  -- A request that is forwarded did not come from a blocked address, and its country, where a policy
  -- applies, was looked up and is not blocked, or the lookup failed in the mode that fails open. Then,
  -- each on the state that the one before it left: the global limiter, where there is one, allowed it,
  -- unless its address is on the allow list; it was on the allow list or in its rate, the authentications that its tenant enables let it pass, CrowdSec did not ban it,
  -- and the content controls that its tenant enables let it pass, unless the allow list or the
  -- development secret skips them. The upstream that takes it is the one that was selected.
  pub serve_http_sound :
      (t : TenantPolicy) (s : State) (i : ℕ)
      → (serve_http c g r (some t) s).0 ≡ forwarded i
      → (list_contains g.block_ips r.ip ≡ false)
        × ((s3 : State) × (s4 : State) × (s5 : State) × (s6 : State) × (s7 : State) × (s8 : State)
            × CountryAllowed t s
            × GlobalAdmits s s3
            × Admits (not (allowlisted c g r)) c.allow_rate_limited s3 s4
            × Passes t.jwt_enabled c.run_jwt s4 s5
            × Admits t.has_basic_auth c.ask_basic_auth s5 s6
            × Unbanned t s6 s7
            × Inspected t s7 s8
            × ((c.choose_upstream s8).0 ≡ some i))
  unfolding serve_http jwt_stage
  serve_http_sound t s i h =
      let (s8, all, out) = finish-forwarded _ _ h in
      let (s7, up_to_7, inspected) = bind-next _ _ all in
      let (s6, up_to_6, unbanned) = bind-next _ _ up_to_7 in
      let (s5, up_to_5, known) = bind-next _ _ up_to_6 in
      let (s4, up_to_4, token) = bind-next _ _ up_to_5 in
      let (s3, up_to_3, in_rate) = bind-next _ _ up_to_4 in
      let (s2, up_to_2, global) = bind-next _ _ up_to_3 in
      let (s1, unblocked, country_passed) = bind-next _ _ up_to_2 in
      let (free, still) = block_stage-next s unblocked in
      let (country_free, same) =
        country_stage-next t s (ap (country_stage c g r t) still ∙ country_passed) in
      (
        free,
        (
          s3,
          s4,
          s5,
          s6,
          s7,
          s8,
          country_free,
          subst (λ x. GlobalAdmits x s3) (sym same) (global_stage-next s2 global),
          rate_stage-next s3 in_rate,
          control-Passes t.jwt_enabled c.run_jwt s4 token,
          basic_stage-next t s5 known,
          crowdsec_stage-next t s6 unbanned,
          inspect_stage-next t s7 inspected,
          forward-forwarded s8 out,
        ),
      )
