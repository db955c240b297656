-- ===== src/Graphql/Tests.antt =====
-- The theorems about internal/waf/graphql.go at concrete queries.
use synit_waf.Prelude.{
  ◌≤◌, ◌<◌, true, false, Option, none, some, List, [], ◌∷◌, ◌++◌, length, lookup, ◌≡◌, refl, ◌≢◌,
  ◌⊎◌, ◌↔◌, pos,
}
use synit_waf.Request.Text.{
  Bytes, trim_space, bytes_eq, trim_left, space1, space2, space3, has_prefix,
}
use synit_waf.Request.Paths.{path_matches_any, path_has_prefix}
use synit_waf.Request.Body.{BodyState, body_is, inspection_body}
use synit_waf.Graphql.Nesting.{
  plain, nest, move, two_quotes, depth_behind, opens, closes, graphql_nesting_depth,
}
use synit_waf.Graphql.Balance.{visible, escaped_block, graphql_nesting_depth_escaped}
use synit_waf.Graphql.Document.{
  SelectionSet, none_left, field, fragment_spread, Fragments, Definition, operation, ok,
  out_of_fuel, index_fragments, selection_depth, has_introspection, walk_depth, walk_introspection,
  is_introspection, is_visiting, expand,
}
use synit_waf.Graphql.Fuel.{walks_total}
use synit_waf.Graphql.Depth.{selection_depth_reached, selection_depth_bounds}
use synit_waf.Graphql.Introspection.{Occurs, has_introspection_iff}
use synit_waf.Graphql.Check.{
  GraphqlProtection, CheckError, bytes_or_default, nesting_budget, paths_or_default,
  check_graphql_request, check_document, check_definitions, check_operation, check_introspection,
  check_depth,
}
use synit_waf.Graphql.Accepts.{AllAllowed, operations_in, check_graphql_request_sound}
use synit_waf.Graphql.Serve.{GraphqlRequest, apply_graphql_protection, first_error, check}
use synit_waf.Graphql.Passes.{BodyPasses, apply_graphql_protection_sound}

-- {a{b}}
abbrev query : Bytes
query = b'{' ∷ b'a' ∷ b'{' ∷ b'b' ∷ b'}' ∷ b'}' ∷ []

query-visible : visible 0 plain query ≡ query ++ []
unfolding visible move two_quotes
query-visible = refl

graphql_nesting_depth_escaped_example : graphql_nesting_depth (escaped_block ++ query) ≡ 1
graphql_nesting_depth_escaped_example =
    graphql_nesting_depth_escaped query (refl, (refl, (refl, (refl, (refl, (refl, tt))))))

-- The field a with the fragment f below it, whose one field is b.
abbrev known : Fragments
known = ("f", field (some "b") none_left none_left) ∷ []

abbrev set : SelectionSet
set = field (some "a") (fragment_spread (some "f") none_left) none_left

set_depth : selection_depth known set ≡ ok 2
unfolding selection_depth walk_depth expand is_visiting lookup
set_depth = refl

selection_depth_bounds_example : 2 ≤ 2
selection_depth_bounds_example =
    selection_depth_bounds known set 2 2 set_depth (selection_depth_reached known set 2 set_depth)

set_plain : has_introspection known set ≡ ok false
unfolding has_introspection walk_introspection is_introspection expand is_visiting lookup
set_plain = refl

has_introspection_iff_example : (false ≡ true) ↔ Occurs known set
has_introspection_iff_example = has_introspection_iff known set false set_plain

-- A fragment that spreads itself.
abbrev cyclic : Fragments
cyclic = ("f", fragment_spread (some "f") none_left) ∷ []

walks_total_example :
    (selection_depth cyclic set ≢ out_of_fuel) × (has_introspection cyclic set ≢ out_of_fuel)
walks_total_example = walks_total cyclic set

abbrev policy : GraphqlProtection
policy = record {
  enabled = true;
  paths = [];
  block_introspection = true;
  max_query_depth = 2;
  max_batched_queries = 1;
  max_query_bytes = 0;
}

-- A parser that knows one document.
abbrev document : List Definition
document = operation (field (some "a") (field (some "b") none_left none_left) none_left) ∷ []

abbrev parse : Bytes → Option (List Definition)
parse text = some document

query_passes : check_graphql_request parse policy query ≡ none
unfolding check_graphql_request check_document check_definitions check_operation check_introspection
    check_depth index_fragments selection_depth has_introspection walk_depth walk_introspection
    is_introspection graphql_nesting_depth nest move two_quotes depth_behind opens closes bytes_eq
    trim_space trim_left space1 space2 space3
query_passes = refl

check_graphql_request_sound_example :
    (trim_space query ≢ [])
    × (length query ≤ bytes_or_default policy.max_query_bytes)
    × (graphql_nesting_depth query ≤ nesting_budget policy)
    × ((doc : List Definition) × (parse query ≡ some doc)
        × (0 < operations_in policy (index_fragments [] doc) doc)
        × AllAllowed policy (index_fragments [] doc) doc)
check_graphql_request_sound_example = check_graphql_request_sound parse policy query query_passes

-- A GET of /graphql with that query.
abbrev get : GraphqlRequest
get = record {
  path = b'/' ∷ b'g' ∷ b'r' ∷ b'a' ∷ b'p' ∷ b'h' ∷ b'q' ∷ b'l' ∷ [];
  method = "GET";
  url_query = query;
  has_body = false;
  content_encoding = [];
  content_type = [];
}

abbrev no_body : BodyState
no_body = record {
  incoming = none;
  breaks = false;
  content_length = pos 0;
  has_info = true;
  body_read = false;
  body = [];
}

get_matches : path_matches_any (paths_or_default policy.paths) get.path ≡ true
unfolding path_matches_any path_has_prefix has_prefix
get_matches = refl

first_error-one :
    (f : Bytes → Option CheckError) (q : Bytes) → f q ≡ none → first_error f (q ∷ []) ≡ none
unfolding first_error
first_error-one f q h = rw (h, first_error)

get_passes :
    (apply_graphql_protection parse (λ t. none) (λ t. none) policy 100 get no_body).0 ≡ none
unfolding apply_graphql_protection bytes_eq
get_passes =
    rw get_matches (first_error-one (check_graphql_request parse policy) query query_passes)

apply_graphql_protection_sound_example :
    (get.method ≡ "GET") × (check parse (λ t. none) (λ t. none) policy query ≡ none)
    ⊎ (get.method ≡ "POST") × (get.has_body ≡ false)
    ⊎ (get.method ≡ "POST")
      × ((bytes : Bytes) × ((inspection_body 100 no_body).0 ≡ body_is bytes)
          × BodyPasses parse (λ t. none) (λ t. none) policy get.content_type bytes)
apply_graphql_protection_sound_example =
    apply_graphql_protection_sound parse (λ t. none) (λ t. none) policy 100 get no_body refl
      get_matches get_passes
