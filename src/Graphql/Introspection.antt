-- ===== src/Graphql/Introspection.antt =====
-- `hasIntrospection` finds an introspection field exactly where one stands, fragments expanded.
use synit_waf.Prelude.{
  ℕ, zero, suc, Bool, true, false, String, Option, none, some, List, [], ◌∷◌, length, lookup, ◌≡◌,
  refl, subst, ◌⊎◌, ◌↔◌, arith, Bool-cases, Option-cases, inl, inr,
}
use synit_waf.Graphql.Document.{
  SelectionSet, none_left, field, inline_fragment, fragment_spread, Result, ok, or_else,
  is_introspection, Fragments, is_visiting, walk_introspection, expand, has_introspection,
}

or_else-true :
    (m n : Result Bool) → or_else m n ≡ ok true → (m ≡ ok true) ⊎ (m ≡ ok false) × (n ≡ ok true)
or_else-true m n e = ground arith

or_else-false : (m n : Result Bool) → or_else m n ≡ ok false → (m ≡ ok false) × (n ≡ ok false)
or_else-false m n e = ground arith

module _ (known : Fragments) where
  -- A field `__schema` or `__type` stands below the set.
  pub data Occurs : SelectionSet → Type 0 where
    here :
        {name : Option String} {set rest : SelectionSet}
        → is_introspection name ≡ true
        → Occurs (field name set rest)
    later_field :
        {name : Option String} {set rest : SelectionSet}
        → Occurs rest
        → Occurs (field name set rest)
    later_inline : {set rest : SelectionSet} → Occurs rest → Occurs (inline_fragment set rest)
    later_spread :
        {name : Option String} {rest : SelectionSet}
        → Occurs rest
        → Occurs (fragment_spread name rest)
    into_field :
        {name : Option String} {set rest : SelectionSet} → Occurs set → Occurs (field name set rest)
    into_inline : {set rest : SelectionSet} → Occurs set → Occurs (inline_fragment set rest)
    into_fragment :
        {name : String} {set rest : SelectionSet}
        → lookup name known ≡ some set
        → Occurs set
        → Occurs (fragment_spread (some name) rest)

  abbrev spread_at : ℕ → List String → String → Result Bool
  spread_at = expand walk_introspection known

  expand_ok :
      (fuel : ℕ) (visiting : List String) (name : String) (b : Bool)
      → spread_at fuel visiting name ≡ ok b
      → (inner : ℕ) × (set : SelectionSet) × (lookup name known ≡ some set)
        × (walk_introspection (spread_at inner (name ∷ visiting)) set ≡ ok b)
        × (suc inner ≡ fuel)
  unfolding expand
  expand_ok zero visiting name b e = absurd (cc)
  expand_ok (suc fuel) visiting name b e = elim (Option-cases (lookup name known)) [
    | inl missing ↦ absurd (ground arith)
    | inr (set, found) ↦ elim (Bool-cases (is_visiting name visiting)) [
      | inl cyclic ↦ absurd (ground arith)
      | inr fresh ↦ (fuel, set, found, ground arith, refl)
    ]
  ]

  -- What is said of the spreads of a walk that finds a field.
  abbrev Finds : (String → Result Bool) → Type 0
  Finds spread =
      (name : String)
      → spread name ≡ ok true
      → (set : SelectionSet) × (lookup name known ≡ some set) × Occurs set

  walk-Occurs :
      (spread : String → Result Bool)
      → Finds spread
      → (set : SelectionSet) → walk_introspection spread set ≡ ok true
      → Occurs set
  unfolding walk_introspection
  walk-Occurs spread f none_left e = absurd (cc)
  walk-Occurs spread f (field name set rest) e = elim (Bool-cases (is_introspection name)) [
    | inl hit ↦ here hit
    | inr miss ↦
        elim (or_else-true (walk_introspection spread set) (walk_introspection spread rest)
          (ground arith)) [
            | inl inside ↦ into_field (walk-Occurs spread f set inside)
            | inr (_, behind) ↦ later_field (walk-Occurs spread f rest behind)
          ]
  ]
  walk-Occurs spread f (inline_fragment set rest) e = elim (or_else-true _ _ e) [
    | inl inside ↦ into_inline (walk-Occurs spread f set inside)
    | inr (_, behind) ↦ later_inline (walk-Occurs spread f rest behind)
  ]
  walk-Occurs spread f (fragment_spread none rest) e = absurd (cc)
  walk-Occurs spread f (fragment_spread (some name) rest) e = elim (or_else-true _ _ e) [
    | inl inside ↦ let (set, found, o) = f name inside in into_fragment found o
    | inr (_, behind) ↦ later_spread (walk-Occurs spread f rest behind)
  ]

  spread_at-Finds : (fuel : ℕ) (visiting : List String) → Finds (spread_at fuel visiting)
  unfolding expand
  spread_at-Finds zero visiting name e = absurd (cc)
  spread_at-Finds (suc fuel) visiting name e = elim (Option-cases (lookup name known)) [
    | inl missing ↦ absurd (ground arith)
    | inr (set, found) ↦ elim (Bool-cases (is_visiting name visiting)) [
      | inl cyclic ↦ absurd (ground arith)
      | inr fresh ↦ (
        set,
        found,
        walk-Occurs (spread_at fuel (name ∷ visiting)) (spread_at-Finds fuel (name ∷ visiting)) set
            (ground arith),
      )
    ]
  ]

  -- A walk that finds none has passed every field.
  Occurs-false :
      {set : SelectionSet} (fuel : ℕ) (visiting : List String)
      → Occurs set
      → walk_introspection (spread_at fuel visiting) set ≡ ok false
      → ⊥
  unfolding walk_introspection
  Occurs-false fuel visiting (here hit) e = ground arith
  Occurs-false fuel visiting (later_field o) e =
      Occurs-false fuel visiting o (or_else-false _ _ e).1
  Occurs-false fuel visiting (later_inline o) e =
      Occurs-false fuel visiting o (or_else-false _ _ e).1
  Occurs-false fuel visiting (later_spread {name = none} o) e = cc
  Occurs-false fuel visiting (later_spread {name = some name} o) e =
      Occurs-false fuel visiting o (or_else-false _ _ e).1
  Occurs-false fuel visiting (into_field {name = name} {set = set} o) e =
      Occurs-false fuel visiting o (ground (arith, Bool-cases (is_introspection name)))
  Occurs-false fuel visiting (into_inline o) e =
      Occurs-false fuel visiting o (or_else-false _ _ e).0
  Occurs-false fuel visiting (into_fragment {name = name} {set = set} found o) e =
      let (inner, set', found', at_set, _) =
        expand_ok fuel visiting name false (or_else-false _ _ e).0 in
      let same : set' ≡ set = cc in
      Occurs-false inner (name ∷ visiting) o (
        subst (λ s. walk_introspection (spread_at inner (name ∷ visiting)) s ≡ ok false) same
          at_set)

-- Where the walk gives an answer, it is yes exactly if an introspection field occurs below the set,
-- named and inline fragments expanded.
pub has_introspection_iff :
    (known : Fragments) (set : SelectionSet) (b : Bool)
    → has_introspection known set ≡ ok b
    → (b ≡ true) ↔ Occurs known set
unfolding has_introspection
has_introspection_iff known set true e =
    (λ h. walk-Occurs known _ (spread_at-Finds known (suc (length known)) []) set e, λ o. refl)
has_introspection_iff known set false e =
    (λ h. absurd (cc), λ o. absurd (Occurs-false known (suc (length known)) [] o e))
