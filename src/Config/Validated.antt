-- ===== src/Config/Validated.antt =====
-- What a configuration that `ValidateConfig` of internal/waf/config_validation.go accepts is good for.
use synit_waf.Prelude.{
  true, false, String, Option, none, some, List, [], ◌∷◌, All, if◌then◌else◌, ◌≡◌, refl, sym, ap,
  subst, ◌∙◌, ◌≢◌, inl, inr, arith, Bool-cases,
}
use synit_waf.Request.Text.{Bytes, bytes_eq, bytes_eq_iff}
use synit_waf.Registry.{find_entry, get}
use synit_waf.Registry.Scan.{Distinct, get_indexed}
use synit_waf.Registry.{get_normalized}
use synit_waf.Config.{Go, Tenant, AppConfig}
use synit_waf.Config.Faults.{Fault, check, first_fault-none, check-none}
use synit_waf.Config.Global.{check_global}
use synit_waf.Config.Tenants.{
  host_of, seen_host, is_seen, put_entry, check_host, check_tenant, check_tenants, validate_config,
  publish,
}

find-put :
    (h host : Bytes) (t : Tenant) (mapping : List (Bytes × Tenant))
    → find_entry Tenant h (put_entry host t mapping)
      ≡ (if bytes_eq host h then some t else find_entry Tenant h mapping)
unfolding find_entry put_entry
find-put h host t [] = refl
find-put h host t ((k, old) ∷ mapping) =
    ground
      (arith, bytes_eq_iff host h, bytes_eq_iff k host, bytes_eq_iff k h, find-put h host t mapping)

Distinct-put :
    (host : Bytes) (t : Tenant) (mapping : List (Bytes × Tenant))
    → Distinct Tenant mapping
    → Distinct Tenant (put_entry host t mapping)
unfolding find_entry put_entry
Distinct-put host t [] d = (refl, tt)
Distinct-put host t ((k, old) ∷ mapping) d = elim (Bool-cases (bytes_eq k host)) [
  | inl same ↦
      let here : k ≡ host = (bytes_eq_iff k host).0 same in
      rw same (subst (λ x. find_entry Tenant x mapping ≡ none) here d.0, d.1)
  | inr other ↦ rw other (
    find-put k host t mapping ∙ ground (arith, bytes_eq_iff host k, bytes_eq_iff k host, d.0),
    Distinct-put host t mapping d.1,
  )
]

module _ (go : Go) (to_lower : Bytes → Bytes) (split_host_port : Bytes → Option Bytes)
    (cfg : AppConfig) where
  abbrev host : String → Bytes
  host fqdn = host_of go to_lower split_host_port fqdn

  abbrev Tenants : Type 0
  Tenants = List (String × Tenant)

  abbrev accepts : List (Bytes × String) → Tenants → Option Fault
  accepts seen tenants = check_tenants go to_lower split_host_port cfg seen tenants

  is_seen-none : (o : Option String) → is_seen o ≡ false → o ≡ none
  is_seen-none none e = refl
  is_seen-none (some fqdn) e = absurd (cc)

  check_host-new :
      (seen : List (Bytes × String)) (fqdn : String)
      → check_host go to_lower split_host_port cfg.global_settings.acme seen fqdn ≡ none
      → seen_host (host fqdn) seen ≡ none
  unfolding check_host
  check_host-new seen fqdn e =
      let h =
        first_fault-none
          (check (bytes_eq (host fqdn) []) _
            ∷ check _ _
            ∷ check _ _
            ∷ check (is_seen (seen_host (host fqdn) seen)) _
            ∷ [])
          e in
      is_seen-none (seen_host (host fqdn) seen) (check-none _ _ h.1.1.1.0)

  -- The guards of a round of the loop, none of which fails.
  pub round :
      (seen : List (Bytes × String)) (fqdn : String) (t : Tenant) (tenants : Tenants)
      → accepts seen ((fqdn, t) ∷ tenants) ≡ none
      → (seen_host (host fqdn) seen ≡ none)
        × (check_tenant go to_lower split_host_port cfg fqdn t ≡ none)
        × (accepts ((host fqdn, fqdn) ∷ seen) tenants ≡ none)
  unfolding check_tenants check_host
  round seen fqdn t tenants e =
      let h =
        first_fault-none
          (check_host go to_lower split_host_port cfg.global_settings.acme seen fqdn
            ∷ check_tenant go to_lower split_host_port cfg fqdn t
            ∷ accepts ((host fqdn, fqdn) ∷ seen) tenants
            ∷ [])
          e in
      (check_host-new seen fqdn h.0, h.1.0, h.1.1.0)

  -- No later tenant has a host that was seen.
  accepts-fresh :
      (seen : List (Bytes × String)) (h : Bytes) (tenants : Tenants)
      → accepts seen tenants ≡ none
      → seen_host h seen ≢ none
      → All (λ e. bytes_eq (host e.0) h ≡ false) tenants
  unfolding seen_host
  accepts-fresh seen h [] e was = tt
  accepts-fresh seen h ((fqdn, t) ∷ tenants) e was =
      let (new, _, rest) = round seen fqdn t tenants e in
      let fresh : bytes_eq (host fqdn) h ≡ false = (elim (Bool-cases (bytes_eq (host fqdn) h)) [
        | inr other ↦ other
        | inl same ↦
            absurd
              (was (ap (λ x. seen_host x seen) (sym ((bytes_eq_iff (host fqdn) h).0 same)) ∙ new))
      ]) in
      (
        fresh,
        accepts-fresh ((host fqdn, fqdn) ∷ seen) h tenants rest
            (λ x. was (ap (λ b. if b then some fqdn else seen_host h seen) (sym fresh) ∙ x)),
      )

  abbrev Mapping : Type 0
  Mapping = List (Bytes × Tenant)

  abbrev published : Mapping → Tenants → Mapping
  published mapping tenants = publish go to_lower split_host_port mapping tenants

  -- An entry stays where no later tenant has its host.
  publish-keeps :
      (mapping : Mapping) (tenants : Tenants) (h : Bytes) (t : Tenant)
      → find_entry Tenant h mapping ≡ some t
      → All (λ e. bytes_eq (host e.0) h ≡ false) tenants
      → find_entry Tenant h (published mapping tenants) ≡ some t
  unfolding publish
  publish-keeps mapping [] h t there fresh = there
  publish-keeps mapping ((fqdn, u) ∷ tenants) h t there fresh =
      publish-keeps (put_entry (host fqdn) u mapping) tenants h t
        (find-put h (host fqdn) u mapping
          ∙ ap (λ b. if b then some u else find_entry Tenant h mapping) fresh.0
          ∙ there)
        fresh.1

  publish-Distinct :
      (mapping : Mapping) (tenants : Tenants)
      → Distinct Tenant mapping
      → Distinct Tenant (published mapping tenants)
  unfolding publish
  publish-Distinct mapping [] d = d
  publish-Distinct mapping ((fqdn, u) ∷ tenants) d =
      publish-Distinct (put_entry (host fqdn) u mapping) tenants
        (Distinct-put (host fqdn) u mapping d)

  -- Each tenant's own entry is found at its host.
  publish-found :
      (seen : List (Bytes × String)) (mapping : Mapping) (tenants : Tenants)
      → accepts seen tenants ≡ none
      → All (λ e. find_entry Tenant (host e.0) (published mapping tenants) ≡ some e.1) tenants
  unfolding publish seen_host
  publish-found seen mapping [] e = tt
  publish-found seen mapping ((fqdn, t) ∷ tenants) e =
      let (_, _, rest) = round seen fqdn t tenants e in
      let same : bytes_eq (host fqdn) (host fqdn) ≡ true = (bytes_eq_iff _ _).1 refl in
      let was : seen_host (host fqdn) ((host fqdn, fqdn) ∷ seen) ≢ none =
        λ x. absurd (ground arith) in
      let fresh = accepts-fresh ((host fqdn, fqdn) ∷ seen) (host fqdn) tenants rest was in
      let own : find_entry Tenant (host fqdn) (put_entry (host fqdn) t mapping) ≡ some t =
        find-put (host fqdn) (host fqdn) t mapping
        ∙ ap (λ b. if b then some t else find_entry Tenant (host fqdn) mapping) same in
      (
        publish-keeps (put_entry (host fqdn) t mapping) tenants (host fqdn) t own fresh,
        publish-found ((host fqdn, fqdn) ∷ seen) (put_entry (host fqdn) t mapping) tenants rest,
      )

  tenants-accepted :
      validate_config go to_lower split_host_port cfg ≡ none → accepts [] cfg.tenants ≡ none
  unfolding validate_config
  tenants-accepted e = (first_fault-none (check_global go cfg ∷ accepts [] cfg.tenants ∷ []) e).1.0

  -- What the registry answers once the tenants of this configuration are published.
  abbrev pub looked_up : Tenant → String → Option (Tenant × Bytes)
  looked_up zero_entry fqdn =
      get_indexed Tenant to_lower split_host_port zero_entry (published [] cfg.tenants)
        (go.bytes fqdn)

  looked_up-own :
      (zero_entry : Tenant) (tenants : Tenants)
      → All (λ e. find_entry Tenant (host e.0) (published [] cfg.tenants) ≡ some e.1) tenants
      → All (λ e. looked_up zero_entry e.0 ≡ some (e.1, host e.0)) tenants
  unfolding get get_normalized
  looked_up-own zero_entry [] h = tt
  looked_up-own zero_entry ((fqdn, t) ∷ tenants) h =
      (rw (h.0, get, get_normalized), looked_up-own zero_entry tenants h.1)

  -- Once a configuration that is accepted is published, the registry gives each tenant at the name it
  -- is configured under, whatever other tenants there are: no two share a host, also where their names
  -- differ in case, in a port or in a trailing dot.
  pub validate_config_serves :
      (zero_entry : Tenant)
      → validate_config go to_lower split_host_port cfg ≡ none
      → Distinct Tenant (published [] cfg.tenants)
        × All (λ e. looked_up zero_entry e.0 ≡ some (e.1, host e.0)) cfg.tenants
  validate_config_serves zero_entry e = (
    publish-Distinct [] cfg.tenants tt,
    looked_up-own zero_entry cfg.tenants (publish-found [] [] cfg.tenants (tenants-accepted e)),
  )
