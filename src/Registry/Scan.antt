-- ===== src/Registry/Scan.antt =====
-- `Get` of internal/waf/config.go: with its wildcard index and without it.
use synit_waf.Prelude.{
  ℕ, ◌≤◌, ◌<◌, true, false, ◌&&◌, Option, none, some, [], ◌∷◌, length, drop, ltb, ◌≡◌, refl, sym,
  ap, subst, ◌∙◌, ◌≢◌, ◌⊎◌, inl, inr, arith, Bool-cases, Option-cases,
}
use synit_waf.Request.Text.{Bytes, bytes_eq, bytes_eq_iff, has_prefix}
use synit_waf.Registry.{
  has_suffix, star_dot, find_entry, build_wildcard_index, Best, scan, get_normalized, or_zero,
  normalize_host, get,
}
use synit_waf.Registry.Index.{
  Matches, Mapping, IsAnswer, IsAnswer-unique, Contains, All-at, first_match-longest, IsEntry,
  entry_for, build-entries, build-IsSorted, build-Contains, find_entry-head, star_tail,
}

star_positive : (d : Bytes) → has_prefix d star_dot ≡ true → 0 < length (drop 1 d)
unfolding has_prefix
star_positive [] h = absurd (cc)
star_positive (x ∷ []) h = absurd (ground arith)
star_positive (x ∷ y ∷ d) h = omega arith

star_filled : (d : Bytes) → has_prefix d star_dot ≡ true → bytes_eq d [] ≡ false
unfolding has_prefix bytes_eq
star_filled [] h = absurd (cc)
star_filled (x ∷ d) h = refl

longer_domain :
    (host a b : Bytes)
    → has_prefix a star_dot ≡ true
    → has_prefix b star_dot ≡ true
    → length (drop 1 a) ≤ length (drop 1 b)
    → length a ≤ length b
longer_domain host a b s t h =
    omega (arith, h, ap length (star_tail a s), ap length (star_tail b t))

module _ (E : Type 0) where
  -- Each domain stands once.
  abbrev pub Distinct : Mapping E → Type 0
  Distinct [] = Unit {0}
  Distinct ((d, e) ∷ mapping) = (find_entry E d mapping ≡ none) × Distinct mapping

  abbrev best_of : Bytes → E → Best E
  best_of d e = record { best_entry = e; best_domain = d; best_len = length (drop 1 d) }

  -- No domain of the mapping that the host falls under is longer.
  abbrev NoLonger : Bytes → ℕ → Mapping E → Type 0
  NoLonger host n mapping =
      (d : Bytes) → find_entry E d mapping ≢ none → Matches host d → length (drop 1 d) ≤ n

  -- What a scan ends with: what it started with, or a longer domain of the mapping.
  abbrev Scanned : Bytes → Best E → Mapping E → Best E → Type 0
  Scanned host best mapping r =
      ((r ≡ best) × NoLonger host best.best_len mapping)
      ⊎ ((d : Bytes) × (e : E) × (r ≡ best_of d e)
          × (find_entry E d mapping ≡ some e)
          × Matches host d
          × (best.best_len < length (drop 1 d))
          × NoLonger host (length (drop 1 d)) mapping)

  find_entry-other :
      (k d : Bytes) (e : E) (mapping : Mapping E)
      → find_entry E d ((k, e) ∷ mapping) ≢ none
      → (k ≡ d) ⊎ (find_entry E d mapping ≢ none)
  unfolding find_entry
  find_entry-other k d e mapping h = elim (Bool-cases (bytes_eq k d)) [
    | inl same ↦ inl ((bytes_eq_iff k d).0 same)
    | inr other ↦ inr (λ x. h (rw other x))
  ]

  find_entry-behind :
      (k d : Bytes) (e f : E) (mapping : Mapping E)
      → find_entry E k mapping ≡ none
      → find_entry E d mapping ≡ some f
      → find_entry E d ((k, e) ∷ mapping) ≡ some f
  unfolding find_entry
  find_entry-behind k d e f mapping absent there = elim (Bool-cases (bytes_eq k d)) [
    | inr other ↦ rw other there
    | inl same ↦
        let here : find_entry E d mapping ≡ none =
          ap (λ x. find_entry E x mapping) (sym ((bytes_eq_iff k d).0 same)) ∙ absent in
        absurd (cc)
  ]

  NoLonger-cons :
      (host k : Bytes) (e : E) (n : ℕ) (mapping : Mapping E)
      → (Matches host k → length (drop 1 k) ≤ n)
      → NoLonger host n mapping
      → NoLonger host n ((k, e) ∷ mapping)
  NoLonger-cons host k e n mapping first others d inside m =
      elim (find_entry-other k d e mapping inside) [
        | inl same ↦
            subst (λ x. length (drop 1 x) ≤ n) same (first (subst (Matches host) (sym same) m))
        | inr behind ↦ others d behind m
      ]

  scan-Scanned :
      (host : Bytes) (best : Best E) (mapping : Mapping E)
      → Distinct mapping
      → Scanned host best mapping (scan E host best mapping)
  unfolding scan find_entry
  scan-Scanned host best [] u = inl (refl, λ d h m. absurd (h refl))
  scan-Scanned host best ((k, e) ∷ mapping) u =
      elim (Bool-cases (
        has_prefix k star_dot
        && has_suffix host (drop 1 k)
        && ltb best.best_len (length (drop 1 k)))) [
          | inl hit ↦
              let step : scan E host best ((k, e) ∷ mapping) ≡ scan E host (best_of k e) mapping =
                rw hit refl in
              let m : Matches host k = ground arith in
              let longer : best.best_len < length (drop 1 k) = ground arith in
              elim (scan-Scanned host (best_of k e) mapping u.1) [
                | inl (same, most) ↦ inr (
                  k,
                  e,
                  step ∙ same,
                  find_entry-head E k e mapping,
                  m,
                  longer,
                  NoLonger-cons host k e (length (drop 1 k)) mapping (λ x. omega arith) most,
                )
                | inr (d, f, same, there, n, more, most) ↦ inr (
                  d,
                  f,
                  step ∙ same,
                  find_entry-behind k d e f mapping u.0 there,
                  n,
                  omega (arith, longer, more),
                  NoLonger-cons host k e (length (drop 1 d)) mapping (λ x. omega (arith, more))
                      most,
                )
              ]
          | inr miss ↦
              let step : scan E host best ((k, e) ∷ mapping) ≡ scan E host best mapping =
                rw miss refl in
              let short : Matches host k → length (drop 1 k) ≤ best.best_len =
                λ m. ground (arith, m) in
              elim (scan-Scanned host best mapping u.1) [
                | inl (same, most) ↦
                    inl (step ∙ same, NoLonger-cons host k e best.best_len mapping short most)
                | inr (d, f, same, there, n, more, most) ↦ inr (
                  d,
                  f,
                  step ∙ same,
                  find_entry-behind k d e f mapping u.0 there,
                  n,
                  more,
                  NoLonger-cons host k e (length (drop 1 d)) mapping
                      (λ m. omega (arith, more, short m)) most,
                )
              ]
        ]

  module _ (zero_entry : E) (host : Bytes) (mapping : Mapping E) (u : Distinct mapping)
      (direct : find_entry E host mapping ≡ none) where
    abbrev start : Best E
    start = record { best_entry = zero_entry; best_domain = []; best_len = 0 }

    abbrev indexed : Option (E × Bytes)
    indexed =
        get_normalized E zero_entry
          (record { mapping = mapping; wildcards = some (build_wildcard_index E mapping) }) host

    abbrev scanned : Option (E × Bytes)
    scanned = get_normalized E zero_entry (record { mapping = mapping; wildcards = none }) host

    indexed-IsAnswer : IsAnswer E host mapping indexed
    unfolding get_normalized or_zero
    indexed-IsAnswer =
        let ws = build_wildcard_index E mapping in
        let entries = build-entries E mapping in
        let fits_entry : (d : Bytes)
            → find_entry E d mapping ≢ none
            → Matches host d
            → Contains (entry_for E d) ws =
          λ d h m. build-Contains E mapping d h m.0 in
        elim (first_match-longest host ws (build-IsSorted E mapping)) [
          | inl (nothing, misses) ↦
              let step : indexed ≡ none = rw (direct, nothing, get_normalized) in
              subst (IsAnswer E host mapping) (sym step) (λ d h m.
                let no =
                  All-at (λ v. has_suffix host v.suffix ≡ false) (entry_for E d) ws misses
                    (fits_entry d h m) in
                absurd (ground arith))
          | inr (w, found, there, fits, longest) ↦
              let (inside, star, tail) = All-at (IsEntry E mapping) w ws entries there in
              elim (Option-cases (find_entry E w.domain mapping)) [
                | inl absent ↦ absurd (inside absent)
                | inr (e, at_w) ↦
                    let step : indexed ≡ some (e, w.domain) =
                      rw (direct, found, at_w, get_normalized) in
                    let m : Matches host w.domain =
                      (star, subst (λ x. has_suffix host x ≡ true) tail fits) in
                    subst (IsAnswer E host mapping) (sym step) (
                      at_w,
                      (
                        inside,
                        m,
                        λ d h n.
                            let short =
                              All-at
                                (λ v.
                                  has_suffix host v.suffix ≡ true
                                  → length v.suffix ≤ length w.suffix)
                                (entry_for E d) ws longest (fits_entry d h n) n.1 in
                            longer_domain host d w.domain n.0 star
                              (omega (arith, short, ap length tail)),
                      ),
                    )
              ]
        ]

    scanned-IsAnswer : IsAnswer E host mapping scanned
    unfolding get_normalized bytes_eq
    scanned-IsAnswer = elim (scan-Scanned host start mapping u) [
      | inl (same, most) ↦
          let step : scanned ≡ none = rw (direct, same, get_normalized) in
          subst (IsAnswer E host mapping) (sym step)
            (λ d h m. absurd (omega (arith, most d h m, star_positive d m.0)))
      | inr (d, e, same, there, m, more, most) ↦
          let step : scanned ≡ some (e, d) = rw (direct, same, star_filled d m.0, get_normalized) in
          subst (IsAnswer E host mapping) (sym step) (
            there,
            (λ x. absurd (cc (x, there)), m, λ c h n. longer_domain host c d n.0 m.0 (most c h n)),
          )
    ]

  -- What `Get` answers: the entry of the host itself, or else that of the longest wildcard domain that
  -- the host falls under, or nothing where there is none.
  abbrev pub IsFound : Bytes → Mapping E → Option (E × Bytes) → Type 0
  IsFound host mapping result =
      ((e : E) × (find_entry E host mapping ≡ some e) × (result ≡ some (e, host)))
      ⊎ ((find_entry E host mapping ≡ none) × IsAnswer E host mapping result)

  module _ (to_lower : Bytes → Bytes) (split_host_port : Bytes → Option Bytes)
      (zero_entry : E) where
    abbrev pub get_indexed : Mapping E → Bytes → Option (E × Bytes)
    get_indexed mapping host =
        get E to_lower split_host_port zero_entry
          (record { mapping = mapping; wildcards = some (build_wildcard_index E mapping) }) host

    -- A host that is looked up with the index is given its own entry, or else that of the longest
    -- wildcard domain that it falls under, and nothing only where it falls under none.
    pub get_most_specific :
        (mapping : Mapping E) (host : Bytes)
        → Distinct mapping
        → IsFound (normalize_host to_lower split_host_port host) mapping (get_indexed mapping host)
    unfolding get get_normalized
    get_most_specific mapping host u =
        let h = normalize_host to_lower split_host_port host in
        elim (Option-cases (find_entry E h mapping)) [
          | inr (e, own) ↦ inl (e, own, rw (own, get, get_normalized))
          | inl absent ↦ inr (absent, indexed-IsAnswer zero_entry h mapping u absent)
        ]

    -- The index gives what the scan of the whole mapping gives, whichever way Go walks the mapping.
    pub get_scans :
        (mapping : Mapping E) (host : Bytes)
        → Distinct mapping
        → get_indexed mapping host
          ≡ get E to_lower split_host_port zero_entry
              (record { mapping = mapping; wildcards = none })
              host
    unfolding get get_normalized
    get_scans mapping host u =
        let h = normalize_host to_lower split_host_port host in
        elim (Option-cases (find_entry E h mapping)) [
          | inr (e, own) ↦ rw (own, get, get_normalized)
          | inl absent ↦
              IsAnswer-unique E h mapping _ _ (indexed-IsAnswer zero_entry h mapping u absent)
                (scanned-IsAnswer zero_entry h mapping u absent)
        ]
