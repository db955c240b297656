-- ===== src/Detector/Serve.antt =====
-- `handleDetect` of services/synit-llm-guard/main.go.
--
-- The classifier is a function of the texts of one batch over a state. What decoding the body gives,
-- the parameters of the media type aside, is read off the request; how many detections are under way
-- is a number. A text is the list of its bytes. Splitting takes fuel, enough for each text.
use synit_waf.Prelude.{
  ℕ, zero, suc, ◌*◌, ◌/◌, max, Bool, true, false, not, ◌||◌, ◌&&◌, String, Option, none, some, List,
  [], ◌∷◌, ◌++◌, map, length, get_elem?, set, take, drop, ltb, leb, ◌==◌, str_eq, ℤ, pos, negsuc,
  if◌then◌else◌,
}
use synit_waf.Request.Text.{Bytes, bytes_eq, has_prefix}
use synit_waf.Request.Body.{exceeds}
use synit_waf.Llm.Split.{Chunk}
use synit_waf.Llm.Sidecar.{score_one}
use synit_waf.Receiver.Serve.{bearer}
use synit_waf.Detector.Chunks.{split_chunks}
use synit_waf.Detector.Infer.{Score}

pub record DetectRequest : Type 0 where
  pub tenant : String
  pub path : String
  pub texts : List Bytes
  pub max_latency_ms : ℤ

-- What both calls of the decoder give, behind `http.MaxBytesReader`.
pub data Decoded : Type 0 where
  oversized malformed : Decoded
  decoded : DetectRequest → Decoded

pub record DetectCall : Type 0 where
  pub method : String
  pub authorization : Bytes
  pub media_type : Option String
  pub content_length : ℤ
  pub body : Decoded

pub record GuardServer : Type 0 where
  pub auth_token : Bytes
  pub threshold : ℕ
  pub max_request_bytes : ℕ
  pub max_texts : ℕ
  pub max_text_bytes : ℕ
  pub chunk_bytes : ℕ
  pub chunk_overlap : ℕ
  -- In nanoseconds.
  pub max_inference_time : ℕ
  pub max_concurrent_requests : ℕ

pub data Classified : Type 0 where
  deadline_exceeded inference_failed : Classified
  scores : List Score → Classified

-- `injection` is the verdict.
pub data Answer : Type 0 where
  answer : ℕ → Answer
  detected : (injection : Bool) → (score : ℕ) → (scores : List ℕ) → Answer
  out_of_fuel : Answer

-- How the loop over the batches ends.
pub data Run : Type 0 where
  ended : Answer → Run
  finished : List ℕ → Run

-- A refused text, by the order of the two tests on each.
unfoldable pub refused_text : ℕ → List Bytes → Option ℕ
refused_text max_text_bytes [] = none
refused_text max_text_bytes (t ∷ texts) =
    let rest = refused_text max_text_bytes texts in
    if length t == 0 then some 400 else if ltb max_text_bytes (length t) then some 413 else rest

-- A chunk of the text with this index.
abbrev pub Owned : Type 0
Owned = ℕ × Bytes

abbrev pub own : ℕ → List Chunk → List Owned
own i [] = []
own i (c ∷ cs) = (i, c.bytes) ∷ own i cs

unfoldable pub timeout_of : ℕ → ℤ → ℕ
timeout_of max_time (pos ms) =
    if ltb 0 ms && ltb ms (max_time / 1000000) then ms * 1000000 else max_time
timeout_of max_time (negsuc n) = max_time

-- The highest score so far of the text that the chunk is of.
unfoldable pub keep_score : ℕ → ℕ → List ℕ → List ℕ
keep_score owner score kept = elim (get_elem? kept owner) [
  | none ↦ kept
  | some x ↦ if ltb x score then set kept owner score else kept
]

-- One batch's scores; none where one is no number from 0 to 1.
unfoldable pub keep_batch : List Owned → List Score → List ℕ → Option (List ℕ)
unfolding keep_score
keep_batch [] xs kept = some kept
keep_batch (o ∷ batch) [] kept = some kept
keep_batch (o ∷ batch) (none ∷ xs) kept = none
keep_batch (o ∷ batch) (some x ∷ xs) kept =
    let rest = keep_batch batch xs (keep_score o.0 x kept) in if ltb score_one x then none else rest

abbrev pub maximum : List ℕ → ℕ
maximum [] = 0
maximum (x ∷ xs) = max x (maximum xs)

-- The verdict on the scores, one for each text.
unfoldable pub verdict : ℕ → List ℕ → Answer
verdict threshold kept = let score = maximum kept in detected (leb threshold score) score kept

abbrev pub is_negative : ℤ → Bool
is_negative (pos n) = false
is_negative (negsuc n) = true

abbrev pub is_json : Option String → Bool
is_json none = false
is_json (some m) = str_eq m "application/json"

module _ (rune_size : Bytes → ℕ) where
  unfoldable pub chunk_texts : ℕ → ℕ → ℕ → List Bytes → Option (List Owned)
  unfolding split_chunks
  chunk_texts chunk_bytes overlap i [] = some []
  chunk_texts chunk_bytes overlap i (t ∷ texts) =
      let rest = chunk_texts chunk_bytes overlap (suc i) texts in
      elim (split_chunks rune_size (suc (length t)) t chunk_bytes overlap) [
        | none ↦ none
        | some cs ↦ elim rest [ none ↦ none | some more ↦ some (own i cs ++ more) ]
      ]

  module _ {S : Type 0} (classify : ℕ → List Bytes → S → Classified × S) where
    -- The loop over the batches. Each has one chunk at least, so that as many rounds as there are
    -- chunks are enough.
    unfoldable pub run_batches : ℕ → ℕ → ℕ → List Owned → List ℕ → S → Run × S
    unfolding keep_batch
    run_batches fuel timeout size [] kept s = (finished kept, s)
    run_batches zero timeout size (o ∷ chunks) kept s = (ended out_of_fuel, s)
    run_batches (suc fuel) timeout size (o ∷ chunks) kept s =
        let batch = take size (o ∷ chunks) in
        let (result, s1) = classify timeout (map (λ c. c.1) batch) s in
        elim result [
          | deadline_exceeded ↦ (ended (answer 504), s1)
          | inference_failed ↦ (ended (answer 503), s1)
          | scores xs ↦
              if length xs == length batch
              then (elim (keep_batch batch xs kept) [
                | none ↦ (ended (answer 503), s1)
                | some more ↦ run_batches fuel timeout size (drop size (o ∷ chunks)) more s1
              ])
              else (ended (answer 503), s1)
        ]

    unfoldable pub detect : GuardServer → DetectRequest → S → Answer × S
    unfolding chunk_texts run_batches verdict timeout_of
    detect g r s = elim (chunk_texts g.chunk_bytes g.chunk_overlap 0 r.texts) [
      | none ↦ (out_of_fuel, s)
      | some chunks ↦
          let timeout = timeout_of g.max_inference_time r.max_latency_ms in
          let zeros = map (λ t. 0) r.texts in
          let (run, s1) = run_batches (length chunks) timeout g.max_texts chunks zeros s in
          elim run [ ended a ↦ (a, s1) | finished kept ↦ (verdict g.threshold kept, s1) ]
    ]

    unfoldable pub check_request : GuardServer → ℕ → DetectRequest → S → Answer × S
    unfolding detect refused_text
    check_request g in_use r s =
        if str_eq r.tenant ""
          || str_eq r.path ""
          || is_negative r.max_latency_ms
          || length r.texts == 0
          || ltb g.max_texts (length r.texts)
        then (answer 400, s)
        else elim (refused_text g.max_text_bytes r.texts) [
          | some code ↦ (answer code, s)
          | none ↦ if leb g.max_concurrent_requests in_use then (answer 503, s) else detect g r s
        ]

    unfoldable pub handle_detect : GuardServer → ℕ → DetectCall → S → Answer × S
    unfolding check_request
    handle_detect g in_use call s =
        if not (str_eq call.method "POST")
        then (answer 405, s)
        else if not (
            has_prefix call.authorization bearer
            && bytes_eq (drop 7 call.authorization) g.auth_token)
        then (answer 401, s)
        else if not (is_json call.media_type)
        then (answer 415, s)
        else if exceeds call.content_length g.max_request_bytes
        then (answer 413, s)
        else elim call.body [
          | oversized ↦ (answer 413, s)
          | malformed ↦ (answer 400, s)
          | decoded r ↦ check_request g in_use r s
        ]
