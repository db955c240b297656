-- ===== src/Llm/Verdict.antt =====
-- What the scores say of a request that `applyLLMProtection` lets through.
use synit_waf.Prelude.{
  ℕ, ◌≤◌, ◌<◌, true, String, some, List, [], ◌∷◌, any, map, All, str_eq, ◌≡◌, ◌⊎◌,
}
use synit_waf.Request.Text.{Bytes}
use synit_waf.Llm.Sidecar.{scored, query_sidecar_batched}
use synit_waf.Llm.Guard.{LlmPolicy, Services, LlmRequest, Scan, cache_key}

module _ (services : Services) (hash : Bytes → String) (policy : LlmPolicy) (r : LlmRequest) where
  open services use {State, cache_get, cache_add, ask_sidecar}

  abbrev key : Bytes → String
  key = cache_key services hash policy r

  -- The cache gives a score for the text at this state, and it is not above the highest one.
  abbrev pub Cached : ℕ → State → Bytes → Type 0
  Cached highest s t = (v : ℕ) × ((cache_get (key t) s).0 ≡ some v) × (v ≤ highest)

  -- Each text has the property at the state that looking up the ones before it left.
  abbrev pub InTurn : (State → Bytes → Type 0) → State → List Bytes → Type 0
  InTurn P s [] = Unit {0}
  InTurn P s (t ∷ texts) = P s t × InTurn P (cache_get (key t) s).1 texts

  -- A text with the same key is in the list.
  abbrev pub Listed : List Bytes → Bytes → Type 0
  Listed texts t = any (str_eq (key t)) (map key texts) ≡ true

  -- What is known of a chunk behind the loop.
  abbrev Treated : List String → Scan services hash → State → Bytes → Type 0
  Treated queued found s t =
      Cached found.highest s t
      ⊎ (any (str_eq (key t)) queued ≡ true)
      ⊎ Listed found.texts_to_query t

  -- The highest score only rises, and each chunk is treated.
  abbrev Done : ℕ → List String → List Bytes → State → Scan services hash → Type 0
  Done highest queued chunks s found =
      (highest ≤ found.highest) × InTurn (Treated queued found) s chunks

  -- The scores that the sidecar gave for the texts that the cache did not know.
  abbrev pub Asked : Scan services hash → List ℕ → Type 0
  Asked found xs =
      ((found.texts_to_query ≡ []) × (xs ≡ []))
      ⊎ ((query_sidecar_batched ask_sidecar policy.sidecar_max_batch found.texts_to_query
            found.left).0
          ≡ scored xs)

  -- What a request that passes the judge has: a highest known score and answers below the threshold.
  abbrev pub IsClean : Scan services hash → Type 0
  IsClean found =
      (found.highest < policy.threshold)
      × ((xs : List ℕ) × Asked found xs × All (λ x. x < policy.threshold) xs)
