-- ===== src/Llm/Guard.antt =====
-- `applyLLMProtection` of internal/waf/llm_protection.go.
--
-- Reading a JSON field (gjson), the media type, the hash of a cache key and the services, the cache and
-- the sidecar with their state, are parameters. A limit that is 0 here is 0 or negative there.
use synit_waf.Prelude.{
  ℕ, suc, max, Bool, true, false, ◌&&◌, ◌||◌, not, String, Option, none, some, List, [], ◌∷◌, ◌++◌,
  length, any, str_eq, leb, ◌==◌, if◌then◌else◌,
}
use synit_waf.Request.Text.{Bytes, bytes_eq}
use synit_waf.Request.Paths.{path_matches_any}
use synit_waf.Request.Encoding.{has_unsupported_content_encoding}
use synit_waf.Request.Body.{BodyState, BodyResult, body_is, too_large, read_error, inspection_body}
use synit_waf.Llm.Split.{Chunk, split_text}
use synit_waf.Llm.Sidecar.{Response, Scores, scored, rejected, failed, query_sidecar_batched}

pub record LlmPolicy : Type 0 where
  pub enabled : Bool
  pub inspect_paths : List Bytes
  pub inspect_json_fields : List Bytes
  pub max_body_bytes : ℕ
  pub max_text_bytes : ℕ
  pub sidecar_max_batch : ℕ
  pub sidecar_url : Bytes
  pub mode : String
  pub action : String
  pub fail_mode : String
  pub threshold : ℕ

pub record Services : Type 1 where
  pub State : Type 0
  pub cache_get : String → State → Option ℕ × State
  pub cache_add : String → ℕ → State → State
  pub ask_sidecar : List Bytes → State → Response × State

-- What gjson finds under a path.
pub data Found : Type 0 where
  missing : Found
  array : List Bytes → Found
  text : Bytes → Found

-- `hangs` stands for the cutting of a text that never ends.
pub data Answer : Type 0 where
  pass hangs : Answer
  answer : ℕ → Answer

pub record LlmRequest : Type 0 where
  pub path : Bytes
  pub tenant : Bytes
  pub content_type : Bytes
  pub content_encoding : Bytes
  pub has_body : Bool

-- `strings.ReplaceAll(field, "[]", ".#")`.
unfoldable pub normalize_field : Bytes → Bytes
normalize_field [] = []
normalize_field (c ∷ []) = c ∷ []
normalize_field (c ∷ d ∷ rest) =
    let replaced = b'.' ∷ b'#' ∷ normalize_field rest in
    let kept = c ∷ normalize_field (d ∷ rest) in if c == b'[' && d == b']' then replaced else kept

unfoldable pub nonempty_texts : List Bytes → List Bytes
nonempty_texts [] = []
nonempty_texts (t ∷ texts) =
    let rest = nonempty_texts texts in if bytes_eq t [] then rest else t ∷ rest

unfoldable pub found_texts : Found → List Bytes
unfolding nonempty_texts
found_texts missing = []
found_texts (array texts) = nonempty_texts texts
found_texts (text t) = nonempty_texts (t ∷ [])

unfoldable pub json_texts : (Bytes → Found) → List Bytes → List Bytes
unfolding found_texts normalize_field
json_texts get [] = []
json_texts get (f ∷ fields) = found_texts (get (normalize_field f)) ++ json_texts get fields

abbrev pub prepend : List Chunk → Option (List Bytes) → Option (List Bytes)
prepend [] later = later
prepend (c ∷ cs) later = elim (prepend cs later) [ none ↦ none | some all ↦ some (c.bytes ∷ all) ]

-- The chunks of all texts, none where the cutting of one does not end.
unfoldable pub all_chunks : ℕ → List Bytes → Option (List Bytes)
all_chunks max_text_bytes [] = some []
all_chunks max_text_bytes (t ∷ texts) = elim (split_text (suc (length t)) t max_text_bytes) [
  | none ↦ none
  | some chunks ↦ prepend chunks (all_chunks max_text_bytes texts)
]

module _ (services : Services) (hash : Bytes → String) where
  open services use {State, cache_get, cache_add, ask_sidecar}

  -- What the loop over the chunks finds: the highest score that is known, and the texts to ask for.
  pub record Scan : Type 0 where
    pub highest : ℕ
    pub texts_to_query : List Bytes
    pub left : State

  module _ (policy : LlmPolicy) (r : LlmRequest) where
    -- `llmCacheKey`.
    abbrev pub cache_key : Bytes → String
    cache_key prompt = hash (policy.sidecar_url ++ 0 ∷ r.tenant ++ 0 ∷ r.path ++ 0 ∷ prompt)

    abbrev pub enqueue : Bytes → Scan → Scan
    enqueue t found = record found { texts_to_query = t ∷ found.texts_to_query }

    -- `score > highestScore` keeps the higher one: the maximum.
    unfoldable pub scan : List Bytes → ℕ → List String → State → Scan
    scan [] highest queued s = record { highest = highest; texts_to_query = []; left = s }
    scan (t ∷ chunks) highest queued s =
        let (hit, s1) = cache_get (cache_key t) s in
        let known = any (str_eq (cache_key t)) queued in
        elim hit [
          | some score ↦ scan chunks (max highest score) queued s1
          | none ↦ elim known [
            | true ↦ scan chunks highest queued s1
            | false ↦ enqueue t (scan chunks highest (cache_key t ∷ queued) s1)
          ]
        ]

    -- The loop that stores what the sidecar answered.
    unfoldable pub store : List Bytes → List ℕ → ℕ → State → ℕ × State
    store [] scores highest s = (highest, s)
    store (t ∷ texts) [] highest s = (highest, s)
    store (t ∷ texts) (x ∷ scores) highest s =
        store texts scores (max highest x) (cache_add (cache_key t) x s)

    abbrev pub audits : Bool
    audits = str_eq policy.action "audit"

    abbrev pub fails_closed : Bool
    fails_closed = str_eq policy.fail_mode "closed"

    unfoldable pub evaluate : ℕ × State → Answer × State
    evaluate (highest, s) =
        if leb policy.threshold highest
        then (if audits then (pass, s) else (answer 403, s))
        else (pass, s)

    unfoldable pub settle : Scan → Scores × State → Answer × State
    unfolding evaluate store
    settle found (rejected, s) = if audits then (pass, s) else (answer 422, s)
    settle found (failed, s) = if fails_closed then (answer 403, s) else (pass, s)
    settle found (scored xs, s) = evaluate (store found.texts_to_query xs found.highest s)

    -- The sidecar is asked only where the cache left texts.
    unfoldable pub query_and_settle : Scan → List Bytes → Answer × State
    unfolding settle evaluate
    query_and_settle found [] = evaluate (found.highest, found.left)
    query_and_settle found (t ∷ texts) =
        settle found
          (query_sidecar_batched ask_sidecar policy.sidecar_max_batch (t ∷ texts) found.left)

    -- From the chunks to the answer.
    unfoldable pub judge : List Bytes → State → Answer × State
    unfolding scan query_and_settle
    judge chunks s = let found = scan chunks 0 [] s in query_and_settle found found.texts_to_query

    unfoldable pub judge_texts : List Bytes → State → Answer × State
    unfolding judge all_chunks
    judge_texts [] s = (pass, s)
    judge_texts (t ∷ texts) s =
        if str_eq policy.mode "rules"
        then (pass, s)
        else elim (all_chunks policy.max_text_bytes (t ∷ texts)) [
          | none ↦ (hangs, s)
          | some chunks ↦ judge chunks s
        ]

    module _ (media_type : Bytes → Option String) (is_json : Bytes → Bool)
        (get_field : Bytes → Bytes → Found) where
      unfoldable pub judge_body : Bool → BodyResult → State → Answer × State
      unfolding judge_texts json_texts
      judge_body json too_large s = (answer 413, s)
      judge_body json read_error s = if fails_closed then (answer 403, s) else (pass, s)
      judge_body json (body_is bytes) s =
          if not json
          then judge_texts (bytes ∷ []) s
          else if not (is_json bytes)
          then (answer 400, s)
          else judge_texts (json_texts (get_field bytes) policy.inspect_json_fields) s

      -- `default_limit` is the configured body limit, or its default.
      unfoldable pub apply_llm_protection : ℕ → BodyState → State → Answer × BodyState × State
      unfolding judge_body
      apply_llm_protection default_limit body s =
          if not policy.enabled || not (path_matches_any policy.inspect_paths r.path)
          then (pass, body, s)
          else elim (media_type r.content_type) [
            | none ↦ (answer 415, body, s)
            | some kind ↦
                if not (str_eq kind "application/json") && not (str_eq kind "text/plain")
                then (pass, body, s)
                else if not r.has_body
                then (pass, body, s)
                else if has_unsupported_content_encoding r.content_encoding
                then (answer 415, body, s)
                else let limit =
                    if policy.max_body_bytes == 0 then default_limit else policy.max_body_bytes in
                  let (result, body') = inspection_body limit body in
                  let (a, s') = judge_body (str_eq kind "application/json") result s in
                  (a, body', s')
          ]
