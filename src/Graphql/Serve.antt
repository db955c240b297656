-- ===== src/Graphql/Serve.antt =====
-- `applyGraphQLProtection` of internal/waf/graphql.go: which requests are inspected, and what each is
-- answered.
--
-- Reading the media type (`mime.ParseMediaType`) and the JSON body (`json.Unmarshal`) are parameters;
-- of a JSON value the code looks at the text under "query", none where there is none.
use synit_waf.Prelude.{
  ℕ, Bool, ◌&&◌, ◌||◌, not, String, Option, none, some, List, [], ◌∷◌, length, str_eq, ltb,
  if◌then◌else◌,
}
use synit_waf.Request.Text.{Bytes, bytes_eq, trim_space}
use synit_waf.Request.Paths.{path_matches_any}
use synit_waf.Request.Encoding.{has_unsupported_content_encoding}
use synit_waf.Request.Body.{BodyState, BodyResult, body_is, too_large, read_error, inspection_body}
use synit_waf.Graphql.Document.{Definition}
use synit_waf.Graphql.Check.{GraphqlProtection, CheckError, paths_or_default, check_graphql_request}

pub data Item : Type 0 where
  object : Option Bytes → Item
  not_object : Item

pub data Payload : Type 0 where
  single : Option Bytes → Payload
  batch : List Item → Payload
  scalar : Payload

pub record GraphqlRequest : Type 0 where
  pub path : Bytes
  pub method : String
  pub url_query : Bytes
  pub has_body : Bool
  pub content_encoding : Bytes
  pub content_type : Bytes

-- Why a request is stopped, with the status of the answer.
pub data Stop : Type 0 where
  http_error : ℕ → String → Stop
  graphql_error : CheckError → Stop
  batch_too_large : Stop
  body_unreadable : Stop

abbrev pub status_of : Stop → ℕ
status_of (http_error status text) = status
status_of _ = 403

unfoldable pub first_error : (Bytes → Option CheckError) → List Bytes → Option Stop
first_error check [] = none
first_error check (query ∷ queries) = elim (check query) [
  | some e ↦ some (graphql_error e)
  | none ↦ first_error check queries
]

-- The queries of a batch, or the answer to an item that holds none.
pub data Queries : Type 0 where
  found : List Bytes → Queries
  stopped : Stop → Queries

abbrev pub cons_query : Bytes → Queries → Queries
cons_query q (found qs) = found (q ∷ qs)
cons_query q (stopped s) = stopped s

unfoldable pub batch_queries : List Item → Queries
unfolding bytes_eq
batch_queries [] = found []
batch_queries (not_object ∷ items) =
    stopped (http_error 400 "Every GraphQL batch item must be an object with a query")
batch_queries (object none ∷ items) =
    stopped (http_error 400 "Every GraphQL batch item must contain a query")
batch_queries (object (some q) ∷ items) =
    if bytes_eq q []
    then stopped (http_error 400 "Every GraphQL batch item must contain a query")
    else cons_query q (batch_queries items)

unfoldable pub payload_queries : GraphqlProtection → Payload → Queries
unfolding batch_queries trim_space
payload_queries policy (single none) = stopped (http_error 400 "GraphQL query is required")
payload_queries policy (single (some q)) =
    if bytes_eq (trim_space q) []
    then stopped (http_error 400 "GraphQL query is required")
    else found (q ∷ [])
payload_queries policy (batch items) =
    if ltb 0 policy.max_batched_queries && ltb policy.max_batched_queries (length items)
    then stopped batch_too_large
    else batch_queries items
payload_queries policy scalar = found []

unfoldable pub check_queries : (Bytes → Option CheckError) → Queries → Option Stop
unfolding first_error
check_queries check (stopped s) = some s
check_queries check (found []) = some (http_error 400 "GraphQL query is required")
check_queries check (found (q ∷ qs)) = first_error check (q ∷ qs)

module _ (parse : Bytes → Option (List Definition)) (media_type : Bytes → Option String)
    (decode : Bytes → Option Payload) where
  abbrev pub check : GraphqlProtection → Bytes → Option CheckError
  check policy = check_graphql_request parse policy

  unfoldable pub check_json : GraphqlProtection → Bytes → Option Stop
  unfolding check_queries payload_queries
  check_json policy bytes = elim (decode bytes) [
    | none ↦ some (http_error 400 "Invalid GraphQL JSON body")
    | some payload ↦ check_queries (check policy) (payload_queries policy payload)
  ]

  unfoldable pub check_body : GraphqlProtection → Bytes → Bytes → Option Stop
  unfolding check_json first_error
  check_body policy content_type bytes = elim (media_type content_type) [
    | none ↦ some (http_error 415 "Invalid Content-Type")
    | some kind ↦
        if str_eq kind "application/graphql"
        then first_error (check policy) (bytes ∷ [])
        else if str_eq kind "application/json"
        then check_json policy bytes
        else some (http_error 415 "GraphQL Content-Type is not supported")
  ]

  unfoldable pub check_result : GraphqlProtection → Bytes → BodyResult → Option Stop
  unfolding check_body
  check_result policy content_type (body_is bytes) = check_body policy content_type bytes
  check_result policy content_type too_large =
      some (http_error 413 "Request body exceeds inspection limit")
  check_result policy content_type read_error = some body_unreadable

  -- none: the request goes on. `limit` is the configured body limit, or its default.
  unfoldable pub apply_graphql_protection :
      GraphqlProtection → ℕ → GraphqlRequest → BodyState → Option Stop × BodyState
  unfolding first_error
  apply_graphql_protection policy limit r body =
      if not policy.enabled || not (path_matches_any (paths_or_default policy.paths) r.path)
      then (none, body)
      else if str_eq r.method "GET"
      then (
        if bytes_eq r.url_query []
            then some (http_error 400 "GraphQL query parameter is required")
            else first_error (check policy) (r.url_query ∷ []),
        body,
      )
      else if not (str_eq r.method "POST")
      then (some (http_error 405 "GraphQL transport method is not supported"), body)
      else if not r.has_body
      then (none, body)
      else if has_unsupported_content_encoding r.content_encoding
      then (some (http_error 415 "Compressed GraphQL request bodies cannot be inspected"), body)
      else let (result, body') = inspection_body limit body in
        (check_result policy r.content_type result, body')
