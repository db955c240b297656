-- ===== src/Graphql/Fuel.antt =====
-- The walks over a GraphQL document end: a spread holds the name of its fragment, so spreads nest no
-- deeper than there are fragments.
use synit_waf.Prelude.{
  ℕ, zero, suc, ◌≤◌, ◌<◌, false, String, none, some, List, [], ◌∷◌, length, eq_iff, if◌then◌else◌,
  lookup, ◌≡◌, refl, ◌≢◌, arith, Bool-cases, Option-cases, inl, inr,
}
use synit_waf.Graphql.Document.{
  SelectionSet, none_left, field, inline_fragment, fragment_spread, Result, out_of_fuel, Fragments,
  is_visiting, walk_depth, walk_introspection, expand, selection_depth, has_introspection,
}

-- The fragments that are not being walked.
unvisited : Fragments → List String → ℕ
unvisited [] visiting = 0
unvisited ((name, set) ∷ known) visiting =
    if is_visiting name visiting then unvisited known visiting else suc (unvisited known visiting)

unvisited-le-length :
    (known : Fragments) (visiting : List String) → unvisited known visiting ≤ length known
unfolding unvisited
unvisited-le-length [] visiting = omega arith
unvisited-le-length ((name, set) ∷ known) visiting =
    ground (arith, unvisited-le-length known visiting)

unvisited-cons-le :
    (known : Fragments) (name : String) (visiting : List String)
    → unvisited known (name ∷ visiting) ≤ unvisited known visiting
unfolding unvisited is_visiting
unvisited-cons-le [] name visiting = omega arith
unvisited-cons-le ((k, set) ∷ known) name visiting =
    ground (arith, unvisited-cons-le known name visiting)

-- Walking one of them leaves fewer.
unvisited-cons-lt :
    (known : Fragments) (name : String) (visiting : List String)
    → lookup name known ≢ none
    → is_visiting name visiting ≡ false
    → unvisited known (name ∷ visiting) < unvisited known visiting
unfolding unvisited is_visiting lookup
unvisited-cons-lt [] name visiting h v = absurd (h refl)
unvisited-cons-lt ((k, set) ∷ known) name visiting h v = ground (
  arith,
  eq_iff k name,
  eq_iff name k,
  unvisited-cons-le known name visiting,
  unvisited-cons-lt known name visiting,
)

-- A walk that runs out only where a spread does.
abbrev Passes : {A : Type 0} → ((String → Result A) → SelectionSet → Result A) → Type 0
Passes {A} walk =
    (spread : String → Result A)
    → ((name : String) → spread name ≢ out_of_fuel)
    → (set : SelectionSet) → walk spread set ≢ out_of_fuel

module _ {A : Type 0} (walk : (String → Result A) → SelectionSet → Result A)
    (known : Fragments) where
  expand_total :
      Passes walk
      → (fuel : ℕ) (visiting : List String) (name : String) → unvisited known visiting < fuel
      → expand walk known fuel visiting name ≢ out_of_fuel
  unfolding expand
  expand_total passes zero visiting name h = absurd (omega arith)
  expand_total passes (suc fuel) visiting name h = elim (Option-cases (lookup name known)) [
    | inl missing ↦ rw (missing, expand) (λ e. cc)
    | inr (set, found) ↦ elim (Bool-cases (is_visiting name visiting)) [
      | inl cyclic ↦ rw (found, expand, cyclic) (λ e. cc)
      | inr fresh ↦
          let fewer = unvisited-cons-lt known name visiting (λ e. cc) fresh in
          rw (found, expand, fresh)
            (passes (expand walk known fuel (name ∷ visiting))
              (λ inner. expand_total passes fuel (name ∷ visiting) inner (omega (arith, fewer)))
              set)
    ]
  ]

walk_depth-Passes : Passes walk_depth
unfolding walk_depth
walk_depth-Passes spread p none_left = λ e. cc
walk_depth-Passes spread p (field name set rest) =
    ground (arith, walk_depth-Passes spread p set, walk_depth-Passes spread p rest)
walk_depth-Passes spread p (inline_fragment set rest) =
    ground (arith, walk_depth-Passes spread p set, walk_depth-Passes spread p rest)
walk_depth-Passes spread p (fragment_spread none rest) = λ e. cc
walk_depth-Passes spread p (fragment_spread (some name) rest) =
    ground (arith, p name, walk_depth-Passes spread p rest)

walk_introspection-Passes : Passes walk_introspection
unfolding walk_introspection
walk_introspection-Passes spread p none_left = λ e. cc
walk_introspection-Passes spread p (field name set rest) =
    ground (arith, walk_introspection-Passes spread p set, walk_introspection-Passes spread p rest)
walk_introspection-Passes spread p (inline_fragment set rest) =
    ground (arith, walk_introspection-Passes spread p set, walk_introspection-Passes spread p rest)
walk_introspection-Passes spread p (fragment_spread none rest) = λ e. cc
walk_introspection-Passes spread p (fragment_spread (some name) rest) =
    ground (arith, p name, walk_introspection-Passes spread p rest)

-- On every document, cyclic ones too, both walks end with a value or an error of the source.
pub walks_total :
    (known : Fragments) (set : SelectionSet)
    → (selection_depth known set ≢ out_of_fuel) × (has_introspection known set ≢ out_of_fuel)
unfolding selection_depth has_introspection
walks_total known set =
    let enough = unvisited-le-length known [] in
    (
      walk_depth-Passes _
          (λ name.
            expand_total walk_depth known walk_depth-Passes (suc (length known)) [] name
              (omega (arith, enough)))
          set,
      walk_introspection-Passes _
          (λ name.
            expand_total walk_introspection known walk_introspection-Passes (suc (length known)) []
              name (omega (arith, enough)))
          set,
    )
