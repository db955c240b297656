-- ===== src/Registry.antt =====
-- `SafeWAFRegistry` of internal/waf/config.go: which tenant a host belongs to.
--
-- A host and a domain are lists of bytes, the mapping is a list of domains with their entries in the
-- order in which Go happens to walk it. Lower case and `net.SplitHostPort` are parameters, and so is
-- the zero value of an entry. Sorting is by insertion: the comparison leaves no two domains equal.
pub mod Index
pub mod Scan
mod Tests
use synit_waf.Prelude.{
  ℕ, zero, suc, ◌-◌, Bool, true, false, not, ◌&&◌, ◌||◌, Option, none, some, List, [], ◌∷◌, map,
  length, take, drop, ltb, leb, ◌==◌, if◌then◌else◌,
}
use synit_waf.Request.Text.{Bytes, bytes_eq, has_prefix, trim_space}

unfoldable pub has_suffix : Bytes → Bytes → Bool
has_suffix text suffix =
    leb (length suffix) (length text) && bytes_eq (drop (length text - length suffix) text) suffix

abbrev pub star_dot : Bytes
star_dot = b'*' ∷ b'.' ∷ []

unfoldable pub trim_dot : Bytes → Bytes
unfolding has_suffix
trim_dot host = if has_suffix host (b'.' ∷ []) then take (length host - 1) host else host

unfoldable pub normalize_host : (Bytes → Bytes) → (Bytes → Option Bytes) → Bytes → Bytes
unfolding trim_dot has_suffix
normalize_host to_lower split_host_port host =
    let normalized = trim_space (to_lower host) in
    elim (split_host_port normalized) [
      | some h ↦ trim_dot h
      | none ↦
          if has_prefix normalized (b'[' ∷ []) && has_suffix normalized (b']' ∷ [])
          then trim_dot (take (length normalized - 2) (drop 1 normalized))
          else trim_dot normalized
    ]

pub record WildcardDomain : Type 0 where
  pub domain : Bytes
  pub suffix : Bytes

-- `strings.Compare(a, b) < 0`.
unfoldable pub before : Bytes → Bytes → Bool
before [] [] = false
before [] (y ∷ b) = true
before (x ∷ a) [] = false
before (x ∷ a) (y ∷ b) = ltb x y || (x == y && before a b)

-- The comparison of the index says that the first is to stand before the second.
unfoldable pub precedes : WildcardDomain → WildcardDomain → Bool
unfolding before
precedes a b =
    if not (length a.suffix == length b.suffix)
    then ltb (length b.suffix) (length a.suffix)
    else before a.domain b.domain

unfoldable pub insert_wildcard : WildcardDomain → List WildcardDomain → List WildcardDomain
unfolding precedes
insert_wildcard w [] = w ∷ []
insert_wildcard w (v ∷ ws) = if precedes v w then v ∷ insert_wildcard w ws else w ∷ v ∷ ws

unfoldable pub first_match : Bytes → List WildcardDomain → Option WildcardDomain
unfolding has_suffix
first_match host [] = none
first_match host (w ∷ ws) = if has_suffix host w.suffix then some w else first_match host ws

unfoldable pub insert_domain : Bytes → List Bytes → List Bytes
unfolding before
insert_domain d [] = d ∷ []
insert_domain d (e ∷ ds) = if before e d then e ∷ insert_domain d ds else d ∷ e ∷ ds

module _ (E : Type 0) where
  unfoldable pub find_entry : Bytes → List (Bytes × E) → Option E
  find_entry host [] = none
  find_entry host ((domain, entry) ∷ mapping) =
      if bytes_eq domain host then some entry else find_entry host mapping

  unfoldable pub build_wildcard_index : List (Bytes × E) → List WildcardDomain
  unfolding insert_wildcard
  build_wildcard_index [] = []
  build_wildcard_index ((domain, entry) ∷ mapping) =
      let rest = build_wildcard_index mapping in
      if has_prefix domain star_dot
      then insert_wildcard (record { domain = domain; suffix = drop 1 domain }) rest
      else rest

  unfoldable pub get_domains : List (Bytes × E) → List Bytes
  unfolding insert_domain
  get_domains [] = []
  get_domains ((domain, entry) ∷ mapping) = insert_domain domain (get_domains mapping)

  -- The best wildcard that the scan has found so far.
  pub record Best : Type 0 where
    pub best_entry : E
    pub best_domain : Bytes
    pub best_len : ℕ

  unfoldable pub scan : Bytes → Best → List (Bytes × E) → Best
  unfolding has_suffix
  scan host best [] = best
  scan host best ((domain, entry) ∷ mapping) =
      let suffix = drop 1 domain in
      let better : Best = record {
        best_entry = entry;
        best_domain = domain;
        best_len = length suffix;
      } in
      let hit =
        has_prefix domain star_dot && has_suffix host suffix && ltb best.best_len (length suffix) in
      scan host (if hit then better else best) mapping

  -- `wildcards` is none before the first reload.
  pub record Registry : Type 0 where
    pub mapping : List (Bytes × E)
    pub wildcards : Option (List WildcardDomain)

  unfoldable pub or_zero : E → Option E → E
  or_zero zero_entry none = zero_entry
  or_zero zero_entry (some e) = e

  -- The entry and the domain; none: not found. The host is normalized.
  unfoldable pub get_normalized : E → Registry → Bytes → Option (E × Bytes)
  unfolding find_entry first_match scan or_zero
  get_normalized zero_entry r host = elim (find_entry host r.mapping) [
    | some entry ↦ some (entry, host)
    | none ↦ elim r.wildcards [
      | some ws ↦ elim (first_match host ws) [
        | some w ↦ some (or_zero zero_entry (find_entry w.domain r.mapping), w.domain)
        | none ↦ none
      ]
      | none ↦
          let start : Best = record { best_entry = zero_entry; best_domain = []; best_len = 0 } in
          let best = scan host start r.mapping in
          if bytes_eq best.best_domain [] then none else some (best.best_entry, best.best_domain)
    ]
  ]

  unfoldable pub get :
      (Bytes → Bytes) → (Bytes → Option Bytes) → E → Registry → Bytes → Option (E × Bytes)
  unfolding get_normalized normalize_host
  get to_lower split_host_port zero_entry r host =
      get_normalized zero_entry r (normalize_host to_lower split_host_port host)
