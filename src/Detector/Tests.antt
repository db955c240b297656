-- ===== src/Detector/Tests.antt =====
-- The theorems about the classification service at a small server, with a classifier that scores by
-- length.
use synit_waf.Prelude.{
  ℕ, suc, ◌+◌, ◌≤◌, true, String, some, List, [], ◌∷◌, map, length, All, min, pos, ◌≡◌, refl, arith,
}
use synit_waf.Request.Text.{Bytes}
use synit_waf.Llm.Split.{Chunk}
use synit_waf.Llm.Chunks.{IsCut}
use synit_waf.Llm.Sidecar.{score_one}
use synit_waf.Detector.Chunks.{split_chunks}
use synit_waf.Detector.Windows.{Holds, IsShared, split_chunks_windows}
use synit_waf.Detector.Infer.{
  Outputs, Score, validate_model_labels, count_labels, has_label, infer, AllScored, infer_validated,
}
use synit_waf.Detector.Serve.{
  DetectRequest, decoded, DetectCall, GuardServer, Classified, scores, detect, verdict,
  handle_detect,
}
use synit_waf.Detector.Answers.{HasRunes, Result, handle_detect_answers}
use synit_waf.Detector.Reference.{text_score, detect_reference}

abbrev one_byte : Bytes → ℕ
one_byte text = 1

abbrev text : Bytes
text = 65 ∷ 66 ∷ 67 ∷ 68 ∷ 69 ∷ 70 ∷ 71 ∷ 72 ∷ 73 ∷ 74 ∷ 75 ∷ 76 ∷ []

split_chunks_windows_example :
    (chunks : List Chunk) × (split_chunks one_byte (suc (length text)) text 9 2 ≡ some chunks)
    × All (IsCut text 9) chunks
    × ((p width : ℕ)
        → p + width ≤ length text
        → IsShared one_byte text 9 2 width
        → Holds p width chunks)
split_chunks_windows_example =
    split_chunks_windows one_byte text 9 2 (λ start h. omega arith) (omega arith)

abbrev labels : List String
labels = "BAD" ∷ "GOOD" ∷ []

abbrev outputs : List Outputs
outputs = (("GOOD", some 5) ∷ []) ∷ (("BAD", some 7) ∷ []) ∷ []

abbrev same : String → String
same label = label

abbrev rest_to_one : Score → Score
rest_to_one x = some 3

labels_valid : validate_model_labels same ("BAD" ∷ []) ("GOOD" ∷ []) rest_to_one labels ≡ true
unfolding validate_model_labels count_labels has_label
labels_valid = refl

infer_validated_example :
    (xs : List Score) × (infer same
        ("BAD" ∷ [])
        ("GOOD" ∷ [])
        rest_to_one
        (some outputs)
        (length outputs)
      ≡ some xs)
    × AllScored same ("BAD" ∷ []) ("GOOD" ∷ []) rest_to_one outputs xs
infer_validated_example =
    infer_validated same ("BAD" ∷ []) ("GOOD" ∷ []) rest_to_one labels outputs labels_valid
      (("GOOD", some 5, refl, refl), (("BAD", some 7, refl, refl), tt))

abbrev server : GuardServer
server = record {
  auth_token = 1 ∷ [];
  threshold = 5;
  max_request_bytes = 100;
  max_texts = 4;
  max_text_bytes = 20;
  chunk_bytes = 9;
  chunk_overlap = 2;
  max_inference_time = 1000;
  max_concurrent_requests = 1;
}

abbrev request : DetectRequest
request = record { tenant = "acme"; path = "/chat"; texts = text ∷ []; max_latency_ms = pos 0 }

abbrev call : DetectCall
call = record {
  method = "POST";
  authorization = b'B' ∷ b'e' ∷ b'a' ∷ b'r' ∷ b'e' ∷ b'r' ∷ b' ' ∷ 1 ∷ [];
  media_type = some "application/json";
  content_length = pos 10;
  body = decoded request;
}

abbrev by_length : Bytes → ℕ
by_length t = min (length t) score_one

abbrev classify : ℕ → List Bytes → ℕ → Classified × ℕ
classify timeout batch s = (scores (map (λ t. some (by_length t)) batch), s + 1)

runs : HasRunes one_byte classify
runs t start h = omega arith

handle_detect_answers_example :
    Result one_byte classify server call (handle_detect one_byte classify server 0 call 0).0
handle_detect_answers_example =
    handle_detect_answers one_byte classify server 0 call 0 runs (omega arith) (omega arith)

detect_reference_example :
    (detect one_byte classify server request 0).0
    ≡ verdict 5 (map (text_score one_byte 9 2 by_length) (text ∷ []))
detect_reference_example =
    detect_reference one_byte by_length classify ((λ t. omega arith), λ timeout batch s. refl)
      server request 0 runs (omega arith) (omega arith)
