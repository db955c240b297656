-- ===== src/Graphql/Passes.antt =====
-- What `applyGraphQLProtection` of internal/waf/graphql.go lets through.
use synit_waf.Prelude.{
  ℕ, true, false, String, Option, none, some, List, [], ◌∷◌, length, str_eq, eq_iff, All, ◌≡◌, refl,
  ◌≢◌, ◌≤◌, ◌⊎◌, inl, inr, arith, Bool-cases, Option-cases,
}
use synit_waf.Request.Text.{Bytes, bytes_eq}
use synit_waf.Request.Paths.{path_matches_any}
use synit_waf.Request.Body.{BodyState, BodyResult, body_is, too_large, read_error, inspection_body}
use synit_waf.Graphql.Document.{Definition}
use synit_waf.Graphql.Check.{GraphqlProtection, paths_or_default}
use synit_waf.Graphql.Serve.{
  Item, object, not_object, Payload, single, batch, scalar, GraphqlRequest, first_error, Queries,
  found, stopped, cons_query, batch_queries, payload_queries, check_queries, check, check_json,
  check_body, check_result, apply_graphql_protection,
}

batch_filled :
    (items : List Item) (q : Bytes) (qs : List Bytes)
    → batch_queries items ≡ found (q ∷ qs)
    → items ≢ []
unfolding batch_queries
batch_filled [] q qs e = absurd (cc)
batch_filled (item ∷ items) q qs e = λ empty. cc

module _ (parse : Bytes → Option (List Definition)) (media_type : Bytes → Option String)
    (decode : Bytes → Option Payload) where
  module _ (policy : GraphqlProtection) where
    -- Each item is an object with a query, and the query passes the check.
    abbrev pub ItemPasses : Item → Type 0
    ItemPasses not_object = ⊥
    ItemPasses (object none) = ⊥
    ItemPasses (object (some q)) = check parse media_type decode policy q ≡ none

    abbrev pub PayloadPasses : Payload → Type 0
    PayloadPasses scalar = ⊥
    PayloadPasses (single none) = ⊥
    PayloadPasses (single (some q)) = check parse media_type decode policy q ≡ none
    PayloadPasses (batch items) =
        (items ≢ [])
        × All ItemPasses items
        × ((policy.max_batched_queries ≡ 0) ⊎ (length items ≤ policy.max_batched_queries))

    cons_query_found :
        (q : Bytes) (r : Queries) (qs : List Bytes)
        → cons_query q r ≡ found qs
        → (rest : List Bytes) × (r ≡ found rest) × (qs ≡ q ∷ rest)
    cons_query_found q (found rest) qs e = (rest, refl, cc)
    cons_query_found q (stopped s) qs e = absurd (cc)

    batch_queries-passes :
        (items : List Item) (qs : List Bytes)
        → batch_queries items ≡ found qs
        → first_error (check parse media_type decode policy) qs ≡ none
        → All ItemPasses items
    unfolding batch_queries first_error
    batch_queries-passes [] qs e h = tt
    batch_queries-passes (not_object ∷ items) qs e h = absurd (cc)
    batch_queries-passes (object none ∷ items) qs e h = absurd (cc)
    batch_queries-passes (object (some q) ∷ items) qs e h = elim (Bool-cases (bytes_eq q [])) [
      | inl blank ↦ absurd (ground arith)
      | inr filled ↦
          let (rest, at_rest, split) = cons_query_found q (batch_queries items) qs (ground arith) in
          elim (Option-cases (check parse media_type decode policy q)) [
            | inr (x, bad) ↦ absurd (ground arith)
            | inl good ↦ (good, batch_queries-passes items rest at_rest (ground arith))
          ]
    ]

    check_queries-none :
        (r : Queries)
        → check_queries (check parse media_type decode policy) r ≡ none
        → (q : Bytes) × (qs : List Bytes) × (r ≡ found (q ∷ qs))
          × (first_error (check parse media_type decode policy) (q ∷ qs) ≡ none)
    unfolding check_queries
    check_queries-none (stopped s) e = absurd (cc)
    check_queries-none (found []) e = absurd (cc)
    check_queries-none (found (q ∷ qs)) e = (q, qs, refl, e)

    payload-PayloadPasses :
        (payload : Payload)
        → check_queries (check parse media_type decode policy) (payload_queries policy payload)
          ≡ none
        → PayloadPasses payload
    unfolding payload_queries first_error check_queries
    payload-PayloadPasses scalar e = absurd (cc)
    payload-PayloadPasses (single none) e = absurd (cc)
    payload-PayloadPasses (single (some q)) e = ground arith
    payload-PayloadPasses (batch items) e =
        let (q, qs, got, clean) = check_queries-none (payload_queries policy (batch items)) e in
        let items_found : batch_queries items ≡ found (q ∷ qs) = ground arith in
        (
          batch_filled items q qs items_found,
          batch_queries-passes items (q ∷ qs) items_found clean,
          ground arith,
        )

    -- A body that is let through: one query, or JSON whose every query is read and passes.
    abbrev pub BodyPasses : Bytes → Bytes → Type 0
    BodyPasses content_type bytes =
        (media_type content_type ≡ some "application/graphql")
          × (check parse media_type decode policy bytes ≡ none)
        ⊎ (media_type content_type ≡ some "application/json")
          × ((payload : Payload) × (decode bytes ≡ some payload) × PayloadPasses payload)

    check_body-BodyPasses :
        (content_type bytes : Bytes)
        → check_body parse media_type decode policy content_type bytes ≡ none
        → BodyPasses content_type bytes
    unfolding check_body check_json first_error
    check_body-BodyPasses content_type bytes e = elim (Option-cases (media_type content_type)) [
      | inl bad ↦ absurd (ground arith)
      | inr (kind, good) ↦ elim (Bool-cases (str_eq kind "application/graphql")) [
        | inl single_query ↦ inl (ground (arith, eq_iff kind "application/graphql"), ground arith)
        | inr not_graphql ↦ elim (Bool-cases (str_eq kind "application/json")) [
          | inr other_kind ↦ absurd (ground arith)
          | inl json ↦ elim (Option-cases (decode bytes)) [
            | inl bad ↦ absurd (ground arith)
            | inr (payload, read) ↦
                let checked : check_queries (check parse media_type decode policy)
                      (payload_queries policy payload)
                    ≡ none =
                  ground arith in
                inr (
                  ground (arith, eq_iff kind "application/json"),
                  (payload, read, payload-PayloadPasses payload checked),
                )
          ]
        ]
      ]
    ]

    check_result-BodyPasses :
        (content_type : Bytes) (result : BodyResult)
        → check_result parse media_type decode policy content_type result ≡ none
        → (bytes : Bytes) × (result ≡ body_is bytes) × BodyPasses content_type bytes
    unfolding check_result
    check_result-BodyPasses content_type (body_is bytes) e =
        (bytes, refl, check_body-BodyPasses content_type bytes e)
    check_result-BodyPasses content_type too_large e = absurd (cc)
    check_result-BodyPasses content_type read_error e = absurd (cc)

    -- On a configured path, a request that GraphQL protection lets through is a GET whose query passes
    -- the check, a POST without a body, or a POST whose body was read and holds only queries that
    -- pass: one query, or JSON in which each of the objects has a query that does.
    pub apply_graphql_protection_sound :
        (limit : ℕ) (r : GraphqlRequest) (body : BodyState)
        → policy.enabled ≡ true
        → path_matches_any (paths_or_default policy.paths) r.path ≡ true
        → (apply_graphql_protection parse media_type decode policy limit r body).0 ≡ none
        → (r.method ≡ "GET") × (check parse media_type decode policy r.url_query ≡ none)
          ⊎ (r.method ≡ "POST") × (r.has_body ≡ false)
          ⊎ (r.method ≡ "POST")
            × ((bytes : Bytes) × ((inspection_body limit body).0 ≡ body_is bytes)
                × BodyPasses r.content_type bytes)
    unfolding apply_graphql_protection first_error
    apply_graphql_protection_sound limit r body on matches e =
        elim (Bool-cases (str_eq r.method "GET")) [
          | inl get ↦ inl (ground (arith, eq_iff r.method "GET"), ground arith)
          | inr not_get ↦ elim (Bool-cases (str_eq r.method "POST")) [
            | inr neither ↦ absurd (ground arith)
            | inl post ↦ elim (Bool-cases r.has_body) [
              | inr bare ↦ inr (inl (ground (arith, eq_iff r.method "POST"), bare))
              | inl filled ↦
                  let through : check_result parse media_type decode policy r.content_type
                        (inspection_body limit body).0
                      ≡ none =
                    ground arith in
                  inr (
                    inr (
                      ground (arith, eq_iff r.method "POST"),
                      check_result-BodyPasses r.content_type (inspection_body limit body).0 through,
                    ))
            ]
          ]
        ]
