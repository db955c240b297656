-- ===== src/Registry/Index.antt =====
-- The wildcard index of internal/waf/config.go against the scan of the whole mapping.
use synit_waf.Prelude.{
  ℕ, ◌-◌, ◌≤◌, true, false, Option, none, some, List, [], ◌∷◌, length, drop, All, ◌≡◌, refl, sym,
  ap, subst, ◌∙◌, ◌≢◌, ◌⊎◌, inl, inr, arith, Bool-cases, length-drop,
}
use synit_waf.Request.Text.{Bytes, bytes_eq, bytes_eq_iff, has_prefix}
use synit_waf.Registry.{
  has_suffix, star_dot, WildcardDomain, precedes, insert_wildcard, first_match, find_entry,
  build_wildcard_index,
}

-- A wildcard domain that the host falls under.
abbrev pub Matches : Bytes → Bytes → Type 0
Matches host d = (has_prefix d star_dot ≡ true) × (has_suffix host (drop 1 d) ≡ true)

has_suffix-drop :
    (host s : Bytes)
    → has_suffix host s ≡ true
    → (drop (length host - length s) host ≡ s) × (length s ≤ length host)
unfolding has_suffix
has_suffix-drop host s h = ground (arith, bytes_eq_iff (drop (length host - length s) host) s)

pub star_tail : (d : Bytes) → has_prefix d star_dot ≡ true → d ≡ b'*' ∷ drop 1 d
unfolding has_prefix
star_tail [] h = absurd (cc)
star_tail (x ∷ d) h = ground arith

-- Of the domains that a host falls under, no two have the same length.
Matches-length : (host a b : Bytes) → Matches host a → Matches host b → length a ≡ length b → a ≡ b
Matches-length host a b m n e =
    let (suffix_a, _) = has_suffix-drop host (drop 1 a) m.1 in
    let (suffix_b, _) = has_suffix-drop host (drop 1 b) n.1 in
    let same : length (drop 1 a) ≡ length (drop 1 b) =
      omega (arith, length-drop 1 a, length-drop 1 b, e) in
    let tails : drop 1 a ≡ drop 1 b =
      sym suffix_a ∙ ap (λ k. drop (length host - k) host) same ∙ suffix_b in
    star_tail a m.0 ∙ ap (λ t. b'*' ∷ t) tails ∙ sym (star_tail b n.0)

abbrev pub Contains : WildcardDomain → List WildcardDomain → Type 0
Contains w [] = ⊥
Contains w (v ∷ ws) = (v ≡ w) ⊎ Contains w ws

pub All-at :
    (P : WildcardDomain → Type 0) (w : WildcardDomain) (ws : List WildcardDomain)
    → All P ws
    → Contains w ws
    → P w
All-at P w [] h c = absurd c
All-at P w (v ∷ ws) h (inl e) = subst P e h.0
All-at P w (v ∷ ws) h (inr c) = All-at P w ws h.1 c

All-insert_wildcard :
    (P : WildcardDomain → Type 0) (w : WildcardDomain) (ws : List WildcardDomain)
    → P w
    → All P ws
    → All P (insert_wildcard w ws)
unfolding insert_wildcard
All-insert_wildcard P w [] p h = (p, tt)
All-insert_wildcard P w (v ∷ ws) p h = elim (Bool-cases (precedes v w)) [
  | inl first ↦ rw first (h.0, All-insert_wildcard P w ws p h.1)
  | inr later ↦ rw later (p, h)
]

Contains-insert_wildcard :
    (u w : WildcardDomain) (ws : List WildcardDomain)
    → (u ≡ w) ⊎ Contains w ws
    → Contains w (insert_wildcard u ws)
unfolding insert_wildcard
Contains-insert_wildcard u w [] h = h
Contains-insert_wildcard u w (v ∷ ws) h = elim (Bool-cases (precedes v u)) [
  | inr later ↦ rw later h
  | inl first ↦ rw first (elim h [
    | inl same ↦ inr (Contains-insert_wildcard u w ws (inl same))
    | inr (inl here) ↦ inl here
    | inr (inr behind) ↦ inr (Contains-insert_wildcard u w ws (inr behind))
  ])
]

-- The suffixes get no longer towards the end.
abbrev pub IsSorted : List WildcardDomain → Type 0
IsSorted [] = Unit {0}
IsSorted (w ∷ ws) = All (λ v. length v.suffix ≤ length w.suffix) ws × IsSorted ws

precedes-length :
    (v w : WildcardDomain)
    → ((precedes v w ≡ true) × (length w.suffix ≤ length v.suffix))
      ⊎ ((precedes v w ≡ false) × (length v.suffix ≤ length w.suffix))
unfolding precedes
precedes-length v w = ground arith

All-shorter :
    (m n : ℕ) (ws : List WildcardDomain)
    → m ≤ n
    → All (λ v. length v.suffix ≤ m) ws
    → All (λ v. length v.suffix ≤ n) ws
All-shorter m n [] h a = tt
All-shorter m n (w ∷ ws) h a = (omega (arith, a.0), All-shorter m n ws h a.1)

insert_wildcard-IsSorted :
    (w : WildcardDomain) (ws : List WildcardDomain) → IsSorted ws → IsSorted (insert_wildcard w ws)
unfolding insert_wildcard
insert_wildcard-IsSorted w [] h = (tt, tt)
insert_wildcard-IsSorted w (v ∷ ws) h = elim (precedes-length v w) [
  | inl (first, shorter) ↦ rw first (
    All-insert_wildcard (λ u. length u.suffix ≤ length v.suffix) w ws shorter h.0,
    insert_wildcard-IsSorted w ws h.1,
  )
  | inr (later, shorter) ↦
      rw later ((shorter, All-shorter (length v.suffix) (length w.suffix) ws shorter h.0), h)
]

All-anyway :
    (host : Bytes) (n : ℕ) (ws : List WildcardDomain)
    → All (λ v. length v.suffix ≤ n) ws
    → All (λ v. has_suffix host v.suffix ≡ true → length v.suffix ≤ n) ws
All-anyway host n [] h = tt
All-anyway host n (w ∷ ws) h = (λ e. h.0, All-anyway host n ws h.1)

-- The first match of a sorted index has the longest suffix that the host ends with.
pub first_match-longest :
    (host : Bytes) (ws : List WildcardDomain)
    → IsSorted ws
    → ((first_match host ws ≡ none) × All (λ v. has_suffix host v.suffix ≡ false) ws)
      ⊎ ((w : WildcardDomain) × (first_match host ws ≡ some w)
          × Contains w ws
          × (has_suffix host w.suffix ≡ true)
          × All (λ v. has_suffix host v.suffix ≡ true → length v.suffix ≤ length w.suffix) ws)
unfolding first_match
first_match-longest host [] h = inl (refl, tt)
first_match-longest host (w ∷ ws) h = elim (Bool-cases (has_suffix host w.suffix)) [
  | inl fits ↦
      let step : first_match host (w ∷ ws) ≡ some w = rw fits refl in
      inr (w, step, inl refl, fits, (λ e. omega arith, All-anyway host (length w.suffix) ws h.0))
  | inr misses ↦
      let step : first_match host (w ∷ ws) ≡ first_match host ws = rw misses refl in
      elim (first_match-longest host ws h.1) [
        | inl (nothing, others) ↦ inl (step ∙ nothing, (misses, others))
        | inr (v, found, there, fits, longest) ↦
            inr (v, step ∙ found, inr there, fits, (λ e. absurd (cc), longest))
      ]
]

module _ (E : Type 0) where
  abbrev pub Mapping : Type 0
  Mapping = List (Bytes × E)

  -- The domain stands in the mapping, the host falls under it, and under no longer one.
  abbrev pub IsBest : Bytes → Mapping → Bytes → Type 0
  IsBest host mapping d =
      (find_entry E d mapping ≢ none)
      × Matches host d
      × ((other : Bytes)
          → find_entry E other mapping ≢ none
          → Matches host other
          → length other ≤ length d)

  -- The host falls under no domain of the mapping.
  abbrev pub NoMatch : Bytes → Mapping → Type 0
  NoMatch host mapping = (other : Bytes) → find_entry E other mapping ≢ none → ¬ Matches host other

  -- What a search for the most specific wildcard is to give.
  abbrev pub IsAnswer : Bytes → Mapping → Option (E × Bytes) → Type 0
  IsAnswer host mapping none = NoMatch host mapping
  IsAnswer host mapping (some (e, d)) = (find_entry E d mapping ≡ some e) × IsBest host mapping d

  IsBest-unique :
      (host : Bytes) (mapping : Mapping) (a b : Bytes)
      → IsBest host mapping a
      → IsBest host mapping b
      → a ≡ b
  IsBest-unique host mapping a b (in_a, m, most_a) (in_b, n, most_b) =
      Matches-length host a b m n (omega (arith, most_a b in_b n, most_b a in_a m))

  pub IsAnswer-unique :
      (host : Bytes) (mapping : Mapping) (x y : Option (E × Bytes))
      → IsAnswer host mapping x
      → IsAnswer host mapping y
      → x ≡ y
  IsAnswer-unique host mapping none none p q = refl
  IsAnswer-unique host mapping none (some (e, d)) p (at_d, (in_d, m, _)) = absurd (p d in_d m)
  IsAnswer-unique host mapping (some (e, d)) none (at_d, (in_d, m, _)) q = absurd (q d in_d m)
  IsAnswer-unique host mapping (some (e, d)) (some (f, c)) (at_d, best_d) (at_c, best_c) =
      let same = IsBest-unique host mapping d c best_d best_c in
      let entries : some e ≡ some f = sym at_d ∙ ap (λ x. find_entry E x mapping) same ∙ at_c in
      ap (λ (x : Option E). elim x [ none ↦ none | some y ↦ some (y, d) ]) entries
      ∙ ap (λ x. some (f, x)) same

  -- The entry of the index for a wildcard domain of the mapping.
  abbrev pub IsEntry : Mapping → WildcardDomain → Type 0
  IsEntry mapping w =
      (find_entry E w.domain mapping ≢ none)
      × (has_prefix w.domain star_dot ≡ true)
      × (w.suffix ≡ drop 1 w.domain)

  abbrev pub entry_for : Bytes → WildcardDomain
  entry_for d = record { domain = d; suffix = drop 1 d }

  pub find_entry-head :
      (d : Bytes) (e : E) (mapping : Mapping) → find_entry E d ((d, e) ∷ mapping) ≡ some e
  unfolding find_entry
  find_entry-head d e mapping = ground (arith, bytes_eq_iff d d)

  IsEntry-later :
      (d : Bytes) (e : E) (mapping : Mapping) (ws : List WildcardDomain)
      → All (IsEntry mapping) ws
      → All (IsEntry ((d, e) ∷ mapping)) ws
  unfolding find_entry
  IsEntry-later d e mapping [] h = tt
  IsEntry-later d e mapping (w ∷ ws) h =
      ((λ x. ground (arith, h.0.0), h.0.1, h.0.2), IsEntry-later d e mapping ws h.1)

  pub build-entries : (mapping : Mapping) → All (IsEntry mapping) (build_wildcard_index E mapping)
  unfolding build_wildcard_index
  build-entries [] = tt
  build-entries ((d, e) ∷ mapping) =
      let rest = build_wildcard_index E mapping in
      let others = IsEntry-later d e mapping rest (build-entries mapping) in
      elim (Bool-cases (has_prefix d star_dot)) [
        | inr plain ↦ subst (All (IsEntry ((d, e) ∷ mapping))) (sym (rw plain refl)) others
        | inl wild ↦ subst (All (IsEntry ((d, e) ∷ mapping))) (sym (rw wild refl)) (
            All-insert_wildcard (IsEntry ((d, e) ∷ mapping)) (entry_for d) rest
              ((λ x. absurd (cc (x, find_entry-head d e mapping))), wild, refl) others)
      ]

  pub build-IsSorted : (mapping : Mapping) → IsSorted (build_wildcard_index E mapping)
  unfolding build_wildcard_index
  build-IsSorted [] = tt
  build-IsSorted ((d, e) ∷ mapping) = elim (Bool-cases (has_prefix d star_dot)) [
    | inr plain ↦ rw plain (build-IsSorted mapping)
    | inl wild ↦ rw wild (
        insert_wildcard-IsSorted (entry_for d) (build_wildcard_index E mapping)
          (build-IsSorted mapping))
  ]

  pub build-Contains :
      (mapping : Mapping) (d : Bytes)
      → find_entry E d mapping ≢ none
      → has_prefix d star_dot ≡ true
      → Contains (entry_for d) (build_wildcard_index E mapping)
  unfolding build_wildcard_index find_entry
  build-Contains [] d h p = absurd (h refl)
  build-Contains ((k, e) ∷ mapping) d h p =
      let rest = build_wildcard_index E mapping in
      elim (Bool-cases (bytes_eq k d)) [
        | inl same ↦
            let here : k ≡ d = (bytes_eq_iff k d).0 same in
            let wild : has_prefix k star_dot ≡ true = ap (λ x. has_prefix x star_dot) here ∙ p in
            rw wild
              (Contains-insert_wildcard (entry_for k) (entry_for d) rest (inl (ap entry_for here)))
        | inr other ↦
            let there = build-Contains mapping d (λ x. h (rw other x)) p in
            elim (Bool-cases (has_prefix k star_dot)) [
              | inr plain ↦ rw plain there
              | inl wild ↦
                  rw wild (Contains-insert_wildcard (entry_for k) (entry_for d) rest (inr there))
            ]
      ]
