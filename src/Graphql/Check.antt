-- ===== src/Graphql/Check.antt =====
-- `checkGraphQLRequest` and `SetDefaults` of internal/waf/graphql.go.
--
-- The parser (github.com/graphql-go) is the parameter `parse`, none for a syntax error. A limit that
-- is 0 in the model is 0 or negative in the source, and limits are far below 2 ^ 62.
use synit_waf.Prelude.{
  ℕ, suc, ◌+◌, ◌*◌, max, Bool, true, false, ◌&&◌, Option, none, some, List, [], ◌∷◌, length, ltb,
  ◌==◌, if◌then◌else◌,
}
use synit_waf.Request.Text.{Bytes, bytes_eq, trim_space}
use synit_waf.Graphql.Nesting.{graphql_nesting_depth}
use synit_waf.Graphql.Document.{
  SelectionSet, DocumentError, Result, ok, err, out_of_fuel, Fragments, Definition, operation,
  index_fragments, selection_depth, has_introspection,
}

pub record GraphqlProtection : Type 0 where
  pub enabled : Bool
  pub paths : List Bytes
  pub block_introspection : Bool
  pub max_query_depth : ℕ
  pub max_batched_queries : ℕ
  pub max_query_bytes : ℕ

-- `no_result` is no error of the program: it stands for a walk that ran out of fuel.
pub data CheckError : Type 0 where
  query_required invalid_syntax introspection no_operation no_result : CheckError
  too_large too_nested too_deep : ℕ → CheckError
  invalid_document : DocumentError → CheckError

abbrev pub default_max_query_bytes : ℕ
default_max_query_bytes = 102_400

abbrev pub default_paths : List Bytes
default_paths = (b'/' ∷ b'g' ∷ b'r' ∷ b'a' ∷ b'p' ∷ b'h' ∷ b'q' ∷ b'l' ∷ []) ∷ []

abbrev pub paths_or_default : List Bytes → List Bytes
paths_or_default [] = default_paths
paths_or_default (p ∷ ps) = p ∷ ps

abbrev pub bytes_or_default : ℕ → ℕ
bytes_or_default n = if n == 0 then default_max_query_bytes else n

-- `SetDefaults`.
unfoldable pub set_defaults : GraphqlProtection → GraphqlProtection
set_defaults p = record p {
  paths = paths_or_default p.paths;
  max_query_bytes = bytes_or_default p.max_query_bytes;
}

abbrev pub nesting_budget : GraphqlProtection → ℕ
nesting_budget policy = max 64 (2 * policy.max_query_depth + 16)

unfoldable pub check_introspection : Result Bool → Option CheckError
check_introspection (ok true) = some introspection
check_introspection (ok false) = none
check_introspection (err e) = some (invalid_document e)
check_introspection out_of_fuel = some no_result

unfoldable pub check_depth : ℕ → Result ℕ → Option CheckError
check_depth limit (ok depth) =
    if ltb 0 limit && ltb limit depth then some (too_deep limit) else none
check_depth limit (err e) = some (invalid_document e)
check_depth limit out_of_fuel = some no_result

-- The first error of two checks, one after the other.
abbrev pub and_then : Option CheckError → Option CheckError → Option CheckError
and_then none next = next
and_then (some e) next = some e

-- The body of the loop, for an operation.
unfoldable pub check_operation : GraphqlProtection → Fragments → SelectionSet → Option CheckError
unfolding check_introspection check_depth
check_operation policy known set =
    and_then
      (if policy.block_introspection
        then check_introspection (has_introspection known set)
        else none)
      (check_depth policy.max_query_depth (selection_depth known set))

-- The loop over the definitions, with the operations seen so far.
unfoldable pub check_definitions :
    GraphqlProtection → Fragments → ℕ → List Definition → Option CheckError
unfolding check_operation
check_definitions policy known operations [] = if operations == 0 then some no_operation else none
check_definitions policy known operations (operation set ∷ rest) =
    and_then (check_operation policy known set)
      (check_definitions policy known (suc operations) rest)
check_definitions policy known operations (_ ∷ rest) =
    check_definitions policy known operations rest

unfoldable pub check_document : GraphqlProtection → Option (List Definition) → Option CheckError
unfolding check_definitions
check_document policy none = some invalid_syntax
check_document policy (some doc) = check_definitions policy (index_fragments [] doc) 0 doc

unfoldable pub check_graphql_request :
    (Bytes → Option (List Definition)) → GraphqlProtection → Bytes → Option CheckError
unfolding check_document
check_graphql_request parse policy query =
    let max_bytes = bytes_or_default policy.max_query_bytes in
    if bytes_eq (trim_space query) []
    then some query_required
    else if ltb max_bytes (length query)
    then some (too_large max_bytes)
    else if ltb (nesting_budget policy) (graphql_nesting_depth query)
    then some (too_nested (nesting_budget policy))
    else check_document policy (parse query)
