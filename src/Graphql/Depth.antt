-- ===== src/Graphql/Depth.antt =====
-- The depth of a selection set is the longest chain of nested fields, fragments expanded.
use synit_waf.Prelude.{
  ℕ, zero, suc, ◌≤◌, max, leb, leb→le, String, Option, none, some, List, [], ◌∷◌, length, lookup,
  ◌≡◌, refl, sym, ◌∙◌, subst, ◌⊎◌, arith, Bool-cases, Option-cases, inl, inr,
}
use synit_waf.Graphql.Document.{
  SelectionSet, none_left, field, inline_fragment, fragment_spread, Result, ok, err, out_of_fuel,
  ◌>>=◌, Fragments, is_visiting, walk_depth, expand, selection_depth,
}

-- Inversion of the two calls that a selection joins.
join_ok :
    (f : ℕ → ℕ → ℕ) (m n : Result ℕ) {d : ℕ}
    → (m >>= λ a. n >>= λ b. ok (f a b)) ≡ ok d
    → (a : ℕ) × (b : ℕ) × (m ≡ ok a) × (n ≡ ok b) × (f a b ≡ d)
join_ok f (ok a) (ok b) e = (a, b, refl, refl, cc)
join_ok f (ok a) (err x) e = cc
join_ok f (ok a) out_of_fuel e = cc
join_ok f (err x) n e = cc
join_ok f out_of_fuel n e = cc

module _ (known : Fragments) where
  -- Some chain of fields below the set, each nested in the one before, has this length.
  pub data Chain : SelectionSet → ℕ → Type 0 where
    stop : {set : SelectionSet} → Chain set 0
    later_field :
        {name : Option String} {set rest : SelectionSet} {n : ℕ}
        → Chain rest n
        → Chain (field name set rest) n
    later_inline :
        {set rest : SelectionSet} {n : ℕ} → Chain rest n → Chain (inline_fragment set rest) n
    later_spread :
        {name : Option String} {rest : SelectionSet} {n : ℕ}
        → Chain rest n
        → Chain (fragment_spread name rest) n
    into_field :
        {name : Option String} {set rest : SelectionSet} {n : ℕ}
        → Chain set n
        → Chain (field name set rest) (suc n)
    into_inline :
        {set rest : SelectionSet} {n : ℕ} → Chain set n → Chain (inline_fragment set rest) n
    into_fragment :
        {name : String} {set rest : SelectionSet} {n : ℕ}
        → lookup name known ≡ some set
        → Chain set n
        → Chain (fragment_spread (some name) rest) n

  abbrev spread_at : ℕ → List String → String → Result ℕ
  spread_at = expand walk_depth known

  -- A spread that has a depth: its fragment is known, and that is the depth of the fragment's set.
  expand_ok :
      (fuel : ℕ) (visiting : List String) (name : String) (d : ℕ)
      → spread_at fuel visiting name ≡ ok d
      → (inner : ℕ) × (set : SelectionSet) × (lookup name known ≡ some set)
        × (walk_depth (spread_at inner (name ∷ visiting)) set ≡ ok d)
        × (suc inner ≡ fuel)
  unfolding expand
  expand_ok zero visiting name d e = cc
  expand_ok (suc fuel) visiting name d e = elim (Option-cases (lookup name known)) [
    | inl missing ↦ ground arith
    | inr (set, found) ↦ elim (Bool-cases (is_visiting name visiting)) [
      | inl cyclic ↦ ground arith
      | inr fresh ↦ (fuel, set, found, ground arith, refl)
    ]
  ]

  -- No chain is longer than the depth.
  Chain-le :
      {set : SelectionSet} {n : ℕ} (fuel : ℕ) (visiting : List String) (d : ℕ)
      → Chain set n
      → walk_depth (spread_at fuel visiting) set ≡ ok d
      → n ≤ d
  unfolding walk_depth
  Chain-le fuel visiting d stop e = omega arith
  Chain-le fuel visiting d (later_field {set = set} {rest = rest} c) e =
      let (a, b, _, at_rest, top) =
        join_ok (λ x y. max (suc x) y) (walk_depth (spread_at fuel visiting) set)
          (walk_depth (spread_at fuel visiting) rest) e in
      omega (arith, Chain-le fuel visiting b c at_rest, top)
  Chain-le fuel visiting d (later_inline {set = set} {rest = rest} c) e =
      let (a, b, _, at_rest, top) =
        join_ok max (walk_depth (spread_at fuel visiting) set)
          (walk_depth (spread_at fuel visiting) rest) e in
      omega (arith, Chain-le fuel visiting b c at_rest, top)
  Chain-le fuel visiting d (later_spread {name = none} c) e = cc
  Chain-le fuel visiting d (later_spread {name = some name} {rest = rest} c) e =
      let (a, b, _, at_rest, top) =
        join_ok max (spread_at fuel visiting name) (walk_depth (spread_at fuel visiting) rest) e in
      omega (arith, Chain-le fuel visiting b c at_rest, top)
  Chain-le fuel visiting d (into_field {set = set} {rest = rest} c) e =
      let (a, b, at_set, _, top) =
        join_ok (λ x y. max (suc x) y) (walk_depth (spread_at fuel visiting) set)
          (walk_depth (spread_at fuel visiting) rest) e in
      omega (arith, Chain-le fuel visiting a c at_set, top)
  Chain-le fuel visiting d (into_inline {set = set} {rest = rest} c) e =
      let (a, b, at_set, _, top) =
        join_ok max (walk_depth (spread_at fuel visiting) set)
          (walk_depth (spread_at fuel visiting) rest) e in
      omega (arith, Chain-le fuel visiting a c at_set, top)
  Chain-le fuel visiting d (into_fragment {name = name} {set = set} {rest = rest} found c) e =
      let (a, b, at_name, _, top) =
        join_ok max (spread_at fuel visiting name) (walk_depth (spread_at fuel visiting) rest) e in
      let (inner, set', found', at_set, _) = expand_ok fuel visiting name a at_name in
      let same : set' ≡ set = cc in
      let at_set' =
        subst (λ s. walk_depth (spread_at inner (name ∷ visiting)) s ≡ ok a) same at_set in
      omega (arith, Chain-le inner (name ∷ visiting) a c at_set', top)

  -- Some chain is as long as the depth. `below` says so of the sets of fragments.
  abbrev HasChain : (String → Result ℕ) → Type 0
  HasChain spread =
      (name : String) (d : ℕ)
      → spread name ≡ ok d
      → (set : SelectionSet) × (lookup name known ≡ some set) × Chain set d

  max_cases : (a b : ℕ) → (max a b ≡ a) ⊎ (max a b ≡ b)
  max_cases a b = elim (Bool-cases (leb a b)) [
    | inl le ↦ inr (omega (arith, leb→le _ _ le))
    | inr gt ↦ inl (ground arith)
  ]

  walk_depth-Chain :
      (spread : String → Result ℕ)
      → HasChain spread
      → (set : SelectionSet) (d : ℕ) → walk_depth spread set ≡ ok d
      → Chain set d
  unfolding walk_depth
  walk_depth-Chain spread below none_left d e = subst (Chain none_left) (cc) stop
  walk_depth-Chain spread below (field name set rest) d e =
      let (a, b, at_set, at_rest, top) =
        join_ok (λ x y. max (suc x) y) (walk_depth spread set) (walk_depth spread rest) e in
      elim (max_cases (suc a) b) [
        | inl first ↦
            subst (Chain (field name set rest)) (sym first ∙ top)
              (into_field (walk_depth-Chain spread below set a at_set))
        | inr second ↦
            subst (Chain (field name set rest)) (sym second ∙ top)
              (later_field (walk_depth-Chain spread below rest b at_rest))
      ]
  walk_depth-Chain spread below (inline_fragment set rest) d e =
      let (a, b, at_set, at_rest, top) =
        join_ok max (walk_depth spread set) (walk_depth spread rest) e in
      elim (max_cases a b) [
        | inl first ↦
            subst (Chain (inline_fragment set rest)) (sym first ∙ top)
              (into_inline (walk_depth-Chain spread below set a at_set))
        | inr second ↦
            subst (Chain (inline_fragment set rest)) (sym second ∙ top)
              (later_inline (walk_depth-Chain spread below rest b at_rest))
      ]
  walk_depth-Chain spread below (fragment_spread none rest) d e = absurd (cc)
  walk_depth-Chain spread below (fragment_spread (some name) rest) d e =
      let (a, b, at_name, at_rest, top) = join_ok max (spread name) (walk_depth spread rest) e in
      let (set, found, chain) = below name a at_name in
      elim (max_cases a b) [
        | inl first ↦
            subst (Chain (fragment_spread (some name) rest)) (sym first ∙ top)
              (into_fragment found chain)
        | inr second ↦
            subst (Chain (fragment_spread (some name) rest)) (sym second ∙ top)
              (later_spread (walk_depth-Chain spread below rest b at_rest))
      ]

  spread_at-HasChain : (fuel : ℕ) (visiting : List String) → HasChain (spread_at fuel visiting)
  unfolding expand
  spread_at-HasChain zero visiting name d e = absurd (cc)
  spread_at-HasChain (suc fuel) visiting name d e = elim (Option-cases (lookup name known)) [
    | inl missing ↦ absurd (ground arith)
    | inr (set, found) ↦ elim (Bool-cases (is_visiting name visiting)) [
      | inl cyclic ↦ absurd (ground arith)
      | inr fresh ↦ (
        set,
        found,
        walk_depth-Chain (spread_at fuel (name ∷ visiting))
            (spread_at-HasChain fuel (name ∷ visiting)) set d (ground arith),
      )
    ]
  ]

-- The depth that a selection set is given is the length of some chain of nested fields, named and
-- inline fragments expanded.
pub selection_depth_reached :
    (known : Fragments) (set : SelectionSet) (d : ℕ)
    → selection_depth known set ≡ ok d
    → Chain known set d
unfolding selection_depth
selection_depth_reached known set d e =
    walk_depth-Chain known _ (spread_at-HasChain known (suc (length known)) []) set d e

-- No chain of nested fields, named and inline fragments expanded, is longer than the depth that its
-- selection set is given.
pub selection_depth_bounds :
    (known : Fragments) (set : SelectionSet) (d n : ℕ)
    → selection_depth known set ≡ ok d
    → Chain known set n
    → n ≤ d
unfolding selection_depth
selection_depth_bounds known set d n e c = Chain-le known (suc (length known)) [] d c e
