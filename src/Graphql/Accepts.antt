-- ===== src/Graphql/Accepts.antt =====
-- What a GraphQL request that passes the check is known to be.
use synit_waf.Prelude.{
  ℕ, suc, ◌+◌, ◌≤◌, ◌<◌, Bool, true, false, Option, none, some, List, [], ◌∷◌, length,
  if◌then◌else◌, ◌≡◌, refl, ◌≢◌, ◌⊎◌, inl, inr, arith, Bool-cases, Option-cases,
}
use synit_waf.Request.Text.{Bytes, bytes_eq, trim_space}
use synit_waf.Graphql.Nesting.{graphql_nesting_depth}
use synit_waf.Graphql.Document.{
  SelectionSet, Result, ok, err, out_of_fuel, Fragments, Definition, operation, fragment, other,
  index_fragments, selection_depth, has_introspection,
}
use synit_waf.Graphql.Depth.{Chain, selection_depth_bounds}
use synit_waf.Graphql.Introspection.{Occurs, has_introspection_iff}
use synit_waf.Graphql.Check.{
  GraphqlProtection, CheckError, bytes_or_default, nesting_budget, and_then, check_introspection,
  check_depth, check_operation, check_definitions, check_document, check_graphql_request,
}

module _ (policy : GraphqlProtection) (known : Fragments) where
  -- What the policy demands of an operation.
  pub record IsAllowed (set : SelectionSet) : Type 0 where
    pub no_introspection : (policy.block_introspection ≡ false) ⊎ (¬ Occurs known set)
    pub shallow :
        (policy.max_query_depth ≡ 0) ⊎ ((n : ℕ) → Chain known set n → n ≤ policy.max_query_depth)

  and_then-none : (a b : Option CheckError) → and_then a b ≡ none → (a ≡ none) × (b ≡ none)
  and_then-none none b e = (refl, e)
  and_then-none (some x) b e = absurd (cc)

  check_introspection-none : (r : Result Bool) → check_introspection r ≡ none → r ≡ ok false
  unfolding check_introspection
  check_introspection-none r e = ground arith

  check_depth-none :
      (limit : ℕ) (r : Result ℕ)
      → check_depth limit r ≡ none
      → (d : ℕ) × (r ≡ ok d) × ((limit ≡ 0) ⊎ (d ≤ limit))
  unfolding check_depth
  check_depth-none limit (ok d) e = (d, refl, ground arith)
  check_depth-none limit (err x) e = absurd (cc)
  check_depth-none limit out_of_fuel e = absurd (cc)

  introspection_free :
      (set : SelectionSet) → has_introspection known set ≡ ok false → ¬ Occurs known set
  introspection_free set e o =
      let h : false ≡ true = (has_introspection_iff known set false e).1 o in absurd (cc)

  check_operation-IsAllowed :
      (set : SelectionSet) → check_operation policy known set ≡ none → IsAllowed set
  unfolding check_operation
  check_operation-IsAllowed set e =
      let (asked, deep) =
        and_then-none
          (if policy.block_introspection
            then check_introspection (has_introspection known set)
            else none)
          (check_depth policy.max_query_depth (selection_depth known set)) e in
      let (d, at_d, within) =
        check_depth-none policy.max_query_depth (selection_depth known set) deep in
      record {
        no_introspection = elim (Bool-cases policy.block_introspection) [
          | inr open_policy ↦ inl open_policy
          | inl blocks ↦ inr (λ o. absurd (
              introspection_free set
                (check_introspection-none (has_introspection known set) (ground arith)) o))
        ];
        shallow = elim within [
          | inl off ↦ inl off
          | inr below ↦
              inr (λ n chain. omega (arith, below, selection_depth_bounds known set d n at_d chain))
        ];
      }

  -- Every operation of a list of definitions is allowed.
  abbrev pub AllAllowed : List Definition → Type 0
  AllAllowed [] = Unit {0}
  AllAllowed (operation set ∷ rest) = IsAllowed set × AllAllowed rest
  AllAllowed (fragment name set ∷ rest) = AllAllowed rest
  AllAllowed (other ∷ rest) = AllAllowed rest

  abbrev pub operations_in : List Definition → ℕ
  operations_in [] = 0
  operations_in (operation set ∷ rest) = suc (operations_in rest)
  operations_in (fragment name set ∷ rest) = operations_in rest
  operations_in (other ∷ rest) = operations_in rest

  check_definitions-AllAllowed :
      (operations : ℕ) (doc : List Definition)
      → check_definitions policy known operations doc ≡ none
      → AllAllowed doc × (0 < operations + operations_in doc)
  unfolding check_definitions
  check_definitions-AllAllowed operations [] e = (tt, ground arith)
  check_definitions-AllAllowed operations (operation set ∷ rest) e =
      let (first, later) =
        and_then-none (check_operation policy known set)
          (check_definitions policy known (suc operations) rest) e in
      let (allowed, some_left) = check_definitions-AllAllowed (suc operations) rest later in
      ((check_operation-IsAllowed set first, allowed), omega arith)
  check_definitions-AllAllowed operations (fragment name set ∷ rest) e =
      check_definitions-AllAllowed operations rest e
  check_definitions-AllAllowed operations (other ∷ rest) e =
      check_definitions-AllAllowed operations rest e

-- A query that passes the check is not blank and within the limits on its bytes and on its nesting;
-- it parses, has an operation, and in each operation, fragments expanded, no introspection field
-- occurs where the policy blocks them and no chain of nested fields exceeds the depth limit.
pub check_graphql_request_sound :
    (parse : Bytes → Option (List Definition)) (policy : GraphqlProtection) (query : Bytes)
    → check_graphql_request parse policy query ≡ none
    → (trim_space query ≢ [])
      × (length query ≤ bytes_or_default policy.max_query_bytes)
      × (graphql_nesting_depth query ≤ nesting_budget policy)
      × ((doc : List Definition) × (parse query ≡ some doc)
          × (0 < operations_in policy (index_fragments [] doc) doc)
          × AllAllowed policy (index_fragments [] doc) doc)
unfolding check_graphql_request check_document bytes_eq
check_graphql_request_sound parse policy query e = elim (Option-cases (parse query)) [
  | inl bad ↦ absurd (ground arith)
  | inr (doc, good) ↦
      let checked : check_definitions policy (index_fragments [] doc) 0 doc ≡ none = ground arith in
      let (allowed, some_left) =
        check_definitions-AllAllowed policy (index_fragments [] doc) 0 doc checked in
      (λ blank. ground arith, ground arith, ground arith, (doc, good, omega arith, allowed))
]
