-- ===== src/Upstream/Select.antt =====
-- `selectUpstream` of internal/waf/middleware.go against a search of a ring of flags.
use native.Mathlib.Nat.{mod-lt, mod-eq_of_lt, mod-add-mod, add-mod-mod, add-mod_right}
use synit_waf.Prelude.{
  ℕ, zero, suc, ◌+◌, ◌-◌, ◌%◌, ◌<◌, ◌≤◌, Bool, true, false, not, ◌&&◌, Option, none, some, List, [],
  ◌∷◌, length, get_elem?, set, map, ◌≡◌, refl, sym, ap, ◌∙◌, ◌≢◌, ◌↔◌, ◌⊎◌, inl, inr, arith,
  Option-cases, get_elem?-of_lt, lt_of_get_elem?,
}
use synit_waf.Upstream.{
  UpstreamServer, TenantState, uint64_mod, next_count, slot, unix, in_cooldown, revive, probe,
  select_upstream,
}

-- The upstream may take a request at the Unix second `now`.
unfoldable pub available : ℕ → UpstreamServer → Bool
unfolding in_cooldown
available now u = u.healthy && not (in_cooldown now u)

abbrev pub flags : ℕ → List UpstreamServer → List Bool
flags now us = map (available now) us

-- The specification: the first flag that is up, going round from the place behind the counter.
unfoldable pub pick : ℕ → ℕ → List Bool → Option ℕ
pick zero c fs = none
pick (suc k) c fs =
    let next = (c + 1) % uint64_mod in
    let i = next % length fs in
    elim (get_elem? fs i) [
      | none ↦ none
      | some up ↦ elim up [ true ↦ some i | false ↦ pick k next fs ]
    ]

pub length-flags : (now : ℕ) (us : List UpstreamServer) → length (flags now us) ≡ length us
length-flags now [] = refl
length-flags now (u ∷ us) = ap suc (length-flags now us)

get_elem?-flags-none :
    (now : ℕ) (us : List UpstreamServer) (i : ℕ)
    → get_elem? us i ≡ none
    → get_elem? (flags now us) i ≡ none
get_elem?-flags-none now [] i e = refl
get_elem?-flags-none now (u ∷ us) zero e = cc
get_elem?-flags-none now (u ∷ us) (suc i) e = get_elem?-flags-none now us i e

pub get_elem?-flags :
    (now : ℕ) (us : List UpstreamServer) (i : ℕ) {u : UpstreamServer}
    → get_elem? us i ≡ some u
    → get_elem? (flags now us) i ≡ some (available now u)
get_elem?-flags now [] i e = cc
get_elem?-flags now (v ∷ us) zero e = cc
get_elem?-flags now (v ∷ us) (suc i) e = get_elem?-flags now us i e

pub available-revive :
    (now : ℕ) (u : UpstreamServer)
    → in_cooldown now u ≡ false
    → available now (revive u) ≡ available now u
unfolding available revive in_cooldown
available-revive now u e = ground arith

-- Clearing an expired mark changes no flag.
pub flags-set-revive :
    (now : ℕ) (us : List UpstreamServer) (i : ℕ) (u : UpstreamServer)
    → get_elem? us i ≡ some u
    → in_cooldown now u ≡ false
    → flags now (set us i (revive u)) ≡ flags now us
flags-set-revive now [] i u e c = refl
flags-set-revive now (v ∷ us) zero u e c = cc (available-revive now u c)
flags-set-revive now (v ∷ us) (suc i) u e c =
    ap (λ (fs : List Bool). available now v ∷ fs) (flags-set-revive now us i u e c)

pub available_cooling :
    (now : ℕ) (u : UpstreamServer) → in_cooldown now u ≡ true → available now u ≡ false
unfolding available
available_cooling now u e = ground arith

available_idle :
    (now : ℕ) (u : UpstreamServer) → in_cooldown now u ≡ false → available now u ≡ u.healthy
unfolding available
available_idle now u e = ground arith

-- The loop finds the flag that the specification finds.
probe-pick :
    (k now : ℕ) (ts : TenantState) → (probe k now ts).0 ≡ pick k ts.counter (flags now ts.upstreams)
unfolding probe pick
probe-pick zero now ts = refl
probe-pick (suc k) now ts = elim (Option-cases (get_elem? ts.upstreams (slot ts))) [
  | inl e ↦
      ground (arith, length-flags now ts.upstreams, get_elem?-flags-none now ts.upstreams (slot ts))
  | inr (u, e) ↦ ground (
    arith,
    length-flags now ts.upstreams,
    get_elem?-flags now ts.upstreams (slot ts) {u = u},
    flags-set-revive now ts.upstreams (slot ts) u,
    available_cooling now u,
    available_idle now u,
    probe-pick k now (record ts { counter = next_count ts }),
    probe-pick k now
        (record { upstreams = set ts.upstreams (slot ts) (revive u); counter = next_count ts }),
  )
]

-- The choice among a tenant's upstreams is the search of a ring: the first upstream that is healthy
-- and out of its cooldown, going round once from the place behind the counter. The marks that the
-- loop clears on its way change no outcome.
pub select_upstream-pick :
    (now : ℕ) (ts : TenantState)
    → (select_upstream now ts).0
      ≡ pick (length ts.upstreams) ts.counter (flags (unix now) ts.upstreams)
unfolding select_upstream
select_upstream-pick now ts = probe-pick (length ts.upstreams) (unix now) ts

pick_sound : (k c : ℕ) (fs : List Bool) {i : ℕ} → pick k c fs ≡ some i → get_elem? fs i ≡ some true
unfolding pick
pick_sound zero c fs e = cc
pick_sound (suc k) c fs {i} e = ground (arith, pick_sound k ((c + 1) % uint64_mod) fs {i = i})

-- A search that finds nothing has passed each of its places, while the counter does not wrap.
pick-none :
    (k c m : ℕ) (fs : List Bool)
    → 0 < length fs
    → pick k c fs ≡ none
    → m < k
    → c + k < uint64_mod
    → get_elem? fs ((c + 1 + m) % length fs) ≢ some true
unfolding pick
pick-none zero c m fs p e h w = absurd (omega arith)
pick-none (suc k) c zero fs p e h w =
    let small : (c + 1) % uint64_mod ≡ c + 1 = omega arith in
    let same : c + 1 + 0 ≡ c + 1 = omega arith in
    let (here, at_here) = get_elem?-of_lt fs ((c + 1) % length fs) (mod-lt (c + 1) p) in
    ground arith
pick-none (suc k) c (suc m) fs p e h w =
    let small : (c + 1) % uint64_mod ≡ c + 1 = omega arith in
    let same : c + 1 + suc m ≡ c + 1 + 1 + m = omega arith in
    let (here, at_here) = get_elem?-of_lt fs ((c + 1) % length fs) (mod-lt (c + 1) p) in
    ground (arith, pick-none k (c + 1) m fs)

-- Going round once passes every place.
reaches : (n c j : ℕ) → j < n → (m : ℕ) × (m < n) × ((c + 1 + m) % n ≡ j)
reaches n c j h =
    let r = (c + 1) % n in
    let small : r < n = mod-lt (c + 1) (omega arith) in
    let whole : r + (j + n - r) ≡ j + n = omega arith in
    (
      (j + n - r) % n,
      mod-lt (j + n - r) (omega arith),
      add-mod-mod (c + 1) (j + n - r) n
          ∙ sym (mod-add-mod (c + 1) n (j + n - r))
          ∙ ap (λ (t : ℕ). t % n) whole
          ∙ add-mod_right j n
          ∙ mod-eq_of_lt h,
    )

get_elem?-flags-some :
    (now : ℕ) (us : List UpstreamServer) (i : ℕ)
    → get_elem? (flags now us) i ≡ some true
    → (u : UpstreamServer) × (get_elem? us i ≡ some u) × (available now u ≡ true)
get_elem?-flags-some now [] i e = cc
get_elem?-flags-some now (u ∷ us) zero e = (u, refl, cc)
get_elem?-flags-some now (u ∷ us) (suc i) e = get_elem?-flags-some now us i e

-- The upstream is healthy, and is not marked dead or its mark has run out.
abbrev pub IsReady : ℕ → UpstreamServer → Type 0
IsReady now u = (u.healthy ≡ true) × ((u.dead_until ≡ 0) ⊎ (u.dead_until ≤ unix now))

available-IsReady : (now : ℕ) (u : UpstreamServer) → (available (unix now) u ≡ true) ↔ IsReady now u
unfolding available
available-IsReady now u = (λ e. (ground arith, ground arith), λ e. ground arith)

-- An upstream that is chosen stands in the tenant's list, is healthy and is out of its cooldown.
pub select_upstream_sound :
    (now : ℕ) (ts : TenantState) (i : ℕ)
    → (select_upstream now ts).0 ≡ some i
    → (u : UpstreamServer) × (get_elem? ts.upstreams i ≡ some u) × IsReady now u
select_upstream_sound now ts i e =
    let (u, at_i, up) = get_elem?-flags-some (unix now) ts.upstreams i (
      pick_sound (length ts.upstreams) ts.counter (flags (unix now) ts.upstreams)
        (sym (select_upstream-pick now ts) ∙ e)) in
    (u, at_i, (available-IsReady now u).0 up)

-- While the counter does not wrap around, a tenant that has a ready upstream is served by one.
pub select_upstream_complete :
    (now : ℕ) (ts : TenantState) (j : ℕ) (u : UpstreamServer)
    → get_elem? ts.upstreams j ≡ some u
    → IsReady now u
    → ts.counter + length ts.upstreams < uint64_mod
    → (i : ℕ) × ((select_upstream now ts).0 ≡ some i)
select_upstream_complete now ts j u at_j ready w = elim (Option-cases (select_upstream now ts).0) [
  | inr found ↦ found
  | inl missed ↦
      let n = length ts.upstreams in
      let (m, below, place) = reaches n ts.counter j (lt_of_get_elem? ts.upstreams j at_j) in
      let none_found = sym (select_upstream-pick now ts) ∙ missed in
      let some_place : 0 < length (flags (unix now) ts.upstreams) =
        rw (length-flags (unix now) ts.upstreams)
          (omega (arith, lt_of_get_elem? ts.upstreams j at_j)) in
      absurd (
        pick-none n ts.counter m (flags (unix now) ts.upstreams) some_place none_found below w (
          rw (length-flags (unix now) ts.upstreams, place)
            (get_elem?-flags (unix now) ts.upstreams j at_j
              ∙ ap some ((available-IsReady now u).1 ready))))
]
