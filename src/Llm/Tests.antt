-- ===== src/Llm/Tests.antt =====
-- The theorems about `splitLLMText` at concrete texts.
use synit_waf.Prelude.{
  true, ◌+◌, String, Option, ℕ, zero, suc, ◌≤◌, ◌<◌, false, none, some, List, [], ◌∷◌, All, ◌≡◌,
  ◌==◌, refl, inl, arith, str_eq, if◌then◌else◌,
}
use synit_waf.Llm.Split.{starts_at, Chunk, split_text}
use synit_waf.Llm.Chunks.{IsCut}
use synit_waf.Request.Text.{Bytes}
use synit_waf.Llm.Sidecar.{
  response, scored, valid_scores, query_sidecar, query_batches, query_sidecar_batched,
}
use synit_waf.Llm.Guard.{LlmPolicy, Services, LlmRequest}
use synit_waf.Llm.Ends.{IsDense, split_text_total, split_text_diverges}

-- "abcéf": its é is the two bytes 195, 169.
abbrev word : List ℕ
word = 97 ∷ 98 ∷ 99 ∷ 195 ∷ 169 ∷ 102 ∷ []

word-IsDense : IsDense word
unfolding starts_at
word-IsDense zero h = inl refl
word-IsDense (suc zero) h = inl refl
word-IsDense (suc (suc zero)) h = inl refl
word-IsDense (suc (suc (suc i))) h = absurd (omega arith)

split_text_total_example :
    (chunks : List Chunk) × (split_text 10 word 4 ≡ some chunks) × All (IsCut word 4) chunks
split_text_total_example = split_text_total 10 4 word (omega arith) word-IsDense (omega arith)

-- Continuation bytes without a start.
abbrev torn : List ℕ
torn = 128 ∷ 128 ∷ 128 ∷ []

torn_inside : (i : ℕ) → 0 < i → i ≤ 2 → starts_at torn i ≡ false
unfolding starts_at
torn_inside zero h k = absurd (omega arith)
torn_inside (suc zero) h k = refl
torn_inside (suc (suc zero)) h k = refl
torn_inside (suc (suc (suc i))) h k = absurd (omega arith)

split_text_diverges_example : split_text 100 torn 2 ≡ none
split_text_diverges_example = split_text_diverges 2 torn (omega arith) (omega arith) torn_inside 100

-- A sidecar that scores every text 1, and a cache that knows one key.
abbrev ones : List Bytes → List (Option ℕ)
ones [] = []
ones (t ∷ texts) = some 1 ∷ ones texts

abbrev services : Services
services = record {
  State = ℕ;
  cache_get = λ k s. (if str_eq k "known" then some 1 else none, s + 1);
  cache_add = λ k x s. s;
  ask_sidecar = λ texts s. (response 200 (some (ones texts)), s + 1);
}

abbrev two : List Bytes
two = torn ∷ (1 ∷ []) ∷ []

-- The cache knows the first text.
abbrev three : List Bytes
three = word ∷ two

abbrev one_each : List ℕ
one_each = 1 ∷ 1 ∷ []

two_scored : (query_sidecar_batched services.ask_sidecar 1 two 3).0 ≡ scored one_each
unfolding query_sidecar_batched query_batches query_sidecar valid_scores
two_scored = refl

abbrev policy : LlmPolicy
policy = record {
  enabled = true;
  inspect_paths = [];
  inspect_json_fields = [];
  max_body_bytes = 0;
  max_text_bytes = 0;
  sidecar_max_batch = 1;
  sidecar_url = [];
  mode = "hybrid";
  action = "block";
  fail_mode = "closed";
  threshold = 2;
}

abbrev request : LlmRequest
request = record {
  path = [];
  tenant = [];
  content_type = [];
  content_encoding = [];
  has_body = true;
}

-- The key of a text shows its last byte.
abbrev hash : Bytes → String
hash [] = "none"
hash (c ∷ []) = if c == 102 then "known" else if c == 128 then "torn" else "one"
hash (c ∷ d ∷ rest) = hash (d ∷ rest)
