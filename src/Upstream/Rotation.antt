-- ===== src/Upstream/Rotation.antt =====
-- What `selectUpstream` leaves as it was, and the turns it gives to upstreams that are all ready.
use native.Mathlib.Nat.{mod-lt}
use synit_waf.Prelude.{
  ℕ, zero, suc, ◌+◌, ◌-◌, ◌%◌, ◌<◌, Bool, true, some, List, [], ◌∷◌, length, get_elem?, set, map,
  All, ◌≡◌, refl, sym, ap, subst, ◌∙◌, inl, inr, arith, Option-cases, get_elem?-of_lt,
}
use synit_waf.Upstream.{
  UpstreamServer, TenantState, uint64_mod, next_count, slot, unix, revive, probe, select_upstream,
}
use synit_waf.Upstream.Select.{
  available, flags, length-flags, get_elem?-flags, flags-set-revive, pick, select_upstream-pick,
}

-- What of an upstream only failures, responses and health checks change.
pub record Reported : Type 0 where
  pub healthy : Bool
  pub failures : ℕ

abbrev pub reported : UpstreamServer → Reported
reported u = record { healthy = u.healthy; failures = u.failures }

map-reported-set :
    (us : List UpstreamServer) (i : ℕ) (u : UpstreamServer)
    → get_elem? us i ≡ some u
    → map reported (set us i (revive u)) ≡ map reported us
unfolding revive
map-reported-set [] i u e = refl
map-reported-set (v ∷ us) zero u e = ground arith
map-reported-set (v ∷ us) (suc i) u e = ground (arith, map-reported-set us i u)

module _ (now : ℕ) where
  -- Both facts of a state that the loop has made from another.
  abbrev Kept : TenantState → TenantState → Type 0
  Kept ts ts' =
      (map reported ts'.upstreams ≡ map reported ts.upstreams)
      × (flags now ts'.upstreams ≡ flags now ts.upstreams)

  probe-Kept : (k : ℕ) (ts : TenantState) → Kept ts (probe k now ts).1
  unfolding probe
  probe-Kept zero ts = (refl, refl)
  probe-Kept (suc k) ts =
      let moved : TenantState = record ts { counter = next_count ts } in
      elim (Option-cases (get_elem? ts.upstreams (slot ts))) [
        | inl e ↦ ground arith
        | inr (u, e) ↦
            let kept : TenantState = record {
              upstreams = set ts.upstreams (slot ts) (revive u);
              counter = next_count ts;
            } in
            ground (
              arith,
              map-reported-set ts.upstreams (slot ts) u,
              flags-set-revive now ts.upstreams (slot ts) u,
              probe-Kept k moved,
              probe-Kept k kept,
            )
      ]

-- A choice changes no upstream's health, no count of failures and no upstream's readiness at that
-- second.
pub select_upstream_keeps :
    (now : ℕ) (ts : TenantState)
    → (map reported (select_upstream now ts).1.upstreams ≡ map reported ts.upstreams)
      × (flags (unix now) (select_upstream now ts).1.upstreams ≡ flags (unix now) ts.upstreams)
unfolding select_upstream
select_upstream_keeps now ts = probe-Kept (unix now) (length ts.upstreams) ts

-- `n` choices within one second.
pub select_times : ℕ → ℕ → TenantState → TenantState
select_times zero now ts = ts
select_times (suc n) now ts = select_times n now (select_upstream now ts).1

abbrev pub AllUp : List Bool → Type 0
AllUp = All (λ up. up ≡ true)

AllUp-get_elem? :
    (fs : List Bool) (i : ℕ) {up : Bool} → AllUp fs → get_elem? fs i ≡ some up → up ≡ true
AllUp-get_elem? [] i h e = cc
AllUp-get_elem? (f ∷ fs) zero h e = cc (h.0)
AllUp-get_elem? (f ∷ fs) (suc i) h e = AllUp-get_elem? fs i h.1 e

-- With every flag up the first place tried is taken.
pick-AllUp :
    (k c : ℕ) (fs : List Bool)
    → AllUp fs
    → 0 < length fs
    → pick (suc k) c fs ≡ some ((c + 1) % uint64_mod % length fs)
unfolding pick
pick-AllUp k c fs h p =
    let i = (c + 1) % uint64_mod % length fs in
    let (up, at_i) = get_elem?-of_lt fs i (mod-lt ((c + 1) % uint64_mod) p) in
    ground (arith, AllUp-get_elem? fs i {up = up} h)

probe-counter :
    (k now : ℕ) (ts : TenantState)
    → AllUp (flags now ts.upstreams)
    → 0 < length ts.upstreams
    → (probe (suc k) now ts).1.counter ≡ next_count ts
unfolding probe available
probe-counter k now ts h p =
    let (u, at_i) = get_elem?-of_lt ts.upstreams (slot ts) (mod-lt (next_count ts) p) in
    ground (
      arith,
      AllUp-get_elem? (flags now ts.upstreams) (slot ts) {up = available now u} h,
      get_elem?-flags now ts.upstreams (slot ts) {u = u},
    )

select_times-flags :
    (n now : ℕ) (ts : TenantState)
    → flags (unix now) (select_times n now ts).upstreams ≡ flags (unix now) ts.upstreams
unfolding select_times
select_times-flags zero now ts = refl
select_times-flags (suc n) now ts =
    select_times-flags n now (select_upstream now ts).1 ∙ (select_upstream_keeps now ts).1

select_times-length :
    (n now : ℕ) (ts : TenantState) → length (select_times n now ts).upstreams ≡ length ts.upstreams
select_times-length n now ts =
    sym (length-flags (unix now) (select_times n now ts).upstreams)
    ∙ ap length (select_times-flags n now ts)
    ∙ length-flags (unix now) ts.upstreams

select_upstream-counter :
    (now : ℕ) (ts : TenantState)
    → AllUp (flags (unix now) ts.upstreams)
    → 0 < length ts.upstreams
    → (select_upstream now ts).1.counter ≡ next_count ts
unfolding select_upstream
select_upstream-counter now ts h p =
    let e : length ts.upstreams ≡ suc (length ts.upstreams - 1) = omega arith in
    subst (λ k. (probe k (unix now) ts).1.counter ≡ next_count ts) (sym e)
      (probe-counter (length ts.upstreams - 1) (unix now) ts h p)

select_times-counter :
    (n now : ℕ) (ts : TenantState)
    → AllUp (flags (unix now) ts.upstreams)
    → 0 < length ts.upstreams
    → ts.counter + n < uint64_mod
    → (select_times n now ts).counter ≡ ts.counter + n
unfolding select_times
select_times-counter zero now ts h p w = omega arith
select_times-counter (suc n) now ts h p w =
    let ts' = (select_upstream now ts).1 in
    let counted : ts'.counter ≡ ts.counter + 1 = select_upstream-counter now ts h p ∙ omega arith in
    let same = (select_upstream_keeps now ts).1 in
    omega (
      arith,
      counted,
      select_times-counter n now ts' (rw same h) (rw (select_times-length 1 now ts) p)
          (omega (arith, counted)),
    )

-- While every upstream stays ready and the counter does not wrap around, the requests of a tenant
-- go to its upstreams in turn: behind `n` choices the next one takes the place `n` further on.
pub select_upstream_rotates :
    (n now : ℕ) (ts : TenantState)
    → AllUp (flags (unix now) ts.upstreams)
    → 0 < length ts.upstreams
    → ts.counter + n + 1 < uint64_mod
    → (select_upstream now (select_times n now ts)).0
      ≡ some ((ts.counter + n + 1) % length ts.upstreams)
select_upstream_rotates n now ts h p w =
    let later = select_times n now ts in
    let us_length = select_times-length n now ts in
    let counted = select_times-counter n now ts h p (omega arith) in
    let small : (later.counter + 1) % uint64_mod ≡ ts.counter + n + 1 = omega (arith, counted) in
    let e : length later.upstreams ≡ suc (length later.upstreams - 1) = omega (arith, us_length) in
    let up : AllUp (flags (unix now) later.upstreams) = rw (select_times-flags n now ts) h in
    select_upstream-pick now later
    ∙ ap (λ k. pick k later.counter (flags (unix now) later.upstreams)) e
    ∙ pick-AllUp (length later.upstreams - 1) later.counter (flags (unix now) later.upstreams) up
        (rw (length-flags (unix now) later.upstreams) (omega (arith, us_length)))
    ∙ rw (length-flags (unix now) later.upstreams, us_length, small)
