-- ===== src/Detector/Reference.antt =====
-- The scores of `handleDetect` in services/synit-llm-guard/main.go against a definition of what a text
-- scores, with no batches: the highest score of its chunks.
use synit_waf.Prelude.{
  ℕ, zero, suc, ◌≤◌, ◌<◌, max, true, none, some, List, [], ◌∷◌, ◌++◌, map, length, get_elem?, take,
  drop, length-drop, ◌==◌, ◌≡◌, refl, sym, ap, subst, ◌∙◌, inl, inr, arith, Option-cases, ==_iff,
  length-append,
}
use mathlib.Core.List.{append_assoc}
use synit_waf.Request.Text.{Bytes}
use synit_waf.Llm.Split.{Chunk}
use synit_waf.Llm.Sidecar.{score_one}
use synit_waf.Detector.Chunks.{split_chunks}
use synit_waf.Detector.Scores.{length-map}
use synit_waf.Detector.Answers.{HasRunes, chunk_texts-some}
use synit_waf.Detector.Serve.{
  DetectRequest, GuardServer, Classified, scores, Answer, Run, finished, Owned, own, keep_score,
  keep_batch, chunk_texts, run_batches, verdict, detect, timeout_of,
}

-- The highest score among chunks, and `best` where that is higher.
abbrev pub highest : (Bytes → ℕ) → ℕ → List Chunk → ℕ
highest f best [] = best
highest f best (c ∷ cs) = highest f (max best (f c.bytes)) cs

-- All chunks counted one after the other.
abbrev keep_all : (Bytes → ℕ) → List Owned → List ℕ → List ℕ
keep_all f [] kept = kept
keep_all f (c ∷ chunks) kept = keep_all f chunks (keep_score c.0 (f c.1) kept)

keep_all-append :
    (f : Bytes → ℕ) (xs ys : List Owned) (kept : List ℕ)
    → keep_all f (xs ++ ys) kept ≡ keep_all f ys (keep_all f xs kept)
keep_all-append f [] ys kept = refl
keep_all-append f (x ∷ xs) ys kept = keep_all-append f xs ys (keep_score x.0 (f x.1) kept)

keep_score-cons :
    (d i score : ℕ) (xs : List ℕ) → keep_score (suc i) score (d ∷ xs) ≡ d ∷ keep_score i score xs
unfolding keep_score
keep_score-cons d i score xs = elim (Option-cases (get_elem? xs i)) [
  | inl absent ↦ ground arith
  | inr (x, there) ↦ ground arith
]

-- A score is kept at its place.
keep_score-at :
    (done rest : List ℕ) (x score : ℕ)
    → keep_score (length done) score (done ++ x ∷ rest) ≡ done ++ max x score ∷ rest
unfolding keep_score
keep_score-at [] rest x score = ground arith
keep_score-at (d ∷ done) rest x score =
    keep_score-cons d (length done) score (done ++ x ∷ rest)
    ∙ ap (λ xs. d ∷ xs) (keep_score-at done rest x score)

keep_all-own :
    (f : Bytes → ℕ) (done rest : List ℕ) (x : ℕ) (cs : List Chunk)
    → keep_all f (own (length done) cs) (done ++ x ∷ rest) ≡ done ++ highest f x cs ∷ rest
keep_all-own f done rest x [] = refl
keep_all-own f done rest x (c ∷ cs) =
    ap (keep_all f (own (length done) cs)) (keep_score-at done rest x (f c.bytes))
    ∙ keep_all-own f done rest (max x (f c.bytes)) cs

module _ (rune_size : Bytes → ℕ) (chunk_bytes overlap : ℕ) (f : Bytes → ℕ) where
  -- What a text scores: the highest score of its chunks.
  abbrev pub text_score : Bytes → ℕ
  text_score t = elim (split_chunks rune_size (suc (length t)) t chunk_bytes overlap) [
    | none ↦ 0
    | some cs ↦ highest f 0 cs
  ]

  keep_all-texts :
      (texts : List Bytes) (done : List ℕ) (chunks : List Owned)
      → chunk_texts rune_size chunk_bytes overlap (length done) texts ≡ some chunks
      → keep_all f chunks (done ++ map (λ t. 0) texts) ≡ done ++ map text_score texts
  unfolding chunk_texts
  keep_all-texts [] done chunks e =
      let empty : chunks ≡ [] = ground arith in
      ap (λ (cs : List Owned). keep_all f cs (done ++ [])) empty
  keep_all-texts (t ∷ texts) done chunks e =
      elim (Option-cases (split_chunks rune_size (suc (length t)) t chunk_bytes overlap)) [
        | inl stuck ↦ absurd (ground arith)
        | inr (cs, splits) ↦
            elim (Option-cases
              (chunk_texts rune_size chunk_bytes overlap (suc (length done)) texts)) [
                | inl stuck ↦ absurd (ground arith)
                | inr (more, rest) ↦
                    let both : own (length done) cs ++ more ≡ chunks = ground arith in
                    let score : text_score t ≡ highest f 0 cs = rw (splits, text_score) in
                    let longer = done ++ highest f 0 cs ∷ [] in
                    let zeros = map (λ t. 0) texts in
                    let n : suc (length done) ≡ length longer =
                      omega (arith, length-append done (highest f 0 cs ∷ [])) in
                    let first = keep_all-own f done zeros 0 cs in
                    let others = keep_all-texts texts longer more (
                      subst (λ i. chunk_texts rune_size chunk_bytes overlap i texts ≡ some more) n
                        rest) in
                    ap (λ cs. keep_all f cs (done ++ 0 ∷ zeros)) (sym both)
                    ∙ keep_all-append f (own (length done) cs) more (done ++ 0 ∷ zeros)
                    ∙ ap (keep_all f more)
                        (first ∙ sym (append_assoc done (highest f 0 cs ∷ []) zeros))
                    ∙ others
                    ∙ append_assoc done (highest f 0 cs ∷ []) (map text_score texts)
                    ∙ ap (λ x. done ++ x ∷ map text_score texts) (sym score)
              ]
      ]

-- A classifier that scores each text by itself, from 0 to 1.
abbrev pub ScoresBy : {S : Type 0} → (Bytes → ℕ) → (ℕ → List Bytes → S → Classified × S) → Type 0
ScoresBy {S} f classify =
    ((t : Bytes) → f t ≤ score_one)
    × ((timeout : ℕ) (batch : List Bytes) (s : S)
        → (classify timeout batch s).0 ≡ scores (map (λ t. some (f t)) batch))

keep_batch-all :
    (f : Bytes → ℕ) (batch : List Owned) (kept : List ℕ)
    → ((t : Bytes) → f t ≤ score_one)
    → keep_batch batch (map (λ t. some (f t)) (map (λ c. c.1) batch)) kept
      ≡ some (keep_all f batch kept)
unfolding keep_batch
keep_batch-all f [] kept h = refl
keep_batch-all f (c ∷ batch) kept h =
    let rest = keep_batch-all f batch (keep_score c.0 (f c.1) kept) h in ground (arith, h c.1, rest)

take-drop : (n : ℕ) (xs : List Owned) → take n xs ++ drop n xs ≡ xs
take-drop zero xs = refl
take-drop (suc n) [] = refl
take-drop (suc n) (x ∷ xs) = ap (λ ys. x ∷ ys) (take-drop n xs)

module _ {S : Type 0} (rune_size : Bytes → ℕ) (f : Bytes → ℕ)
    (classify : ℕ → List Bytes → S → Classified × S) (by : ScoresBy f classify) where
  run_batches-all :
      (fuel timeout size : ℕ) (chunks : List Owned) (kept : List ℕ) (s : S)
      → 0 < size
      → length chunks ≤ fuel
      → (run_batches rune_size classify fuel timeout size chunks kept s).0
        ≡ finished (keep_all f chunks kept)
  unfolding run_batches
  run_batches-all fuel timeout size [] kept s p h = refl
  run_batches-all zero timeout size (o ∷ chunks) kept s p h = absurd (omega (arith, h))
  run_batches-all (suc fuel) timeout size (o ∷ chunks) kept s p h =
      let batch = take size (o ∷ chunks) in
      let rest = drop size (o ∷ chunks) in
      let call = classify timeout (map (λ c. c.1) batch) s in
      let run = run_batches rune_size classify (suc fuel) timeout size (o ∷ chunks) kept s in
      let xs = map (λ t. some (f t)) (map (λ c. c.1) batch) in
      let gives : call.0 ≡ scores xs = by.1 timeout (map (λ c. c.1) batch) s in
      let same : (length xs == length batch) ≡ true =
        (==_iff (length xs) (length batch)).1
          (length-map (λ t. some (f t)) (map (λ c. c.1) batch) ∙ length-map (λ c. c.1) batch) in
      let kept1 = keep_batch-all f batch kept by.0 in
      let step : run
          ≡ run_batches rune_size classify fuel timeout size rest (keep_all f batch kept) call.1 =
        rw (gives, same, kept1, run_batches) in
      ap (λ (x : Run × S). x.0) step
      ∙ run_batches-all fuel timeout size rest (keep_all f batch kept) call.1 p
          (omega (arith, length-drop size (o ∷ chunks), h, p))
      ∙ ap finished (
          sym (keep_all-append f batch rest kept)
          ∙ ap (λ cs. keep_all f cs kept) (take-drop size (o ∷ chunks)))

  -- Where the classifier scores each text by itself, how the chunks fall into batches does not matter:
  -- the service answers with the highest score of its chunks for each text, in the texts' order.
  pub detect_reference :
      (g : GuardServer) (r : DetectRequest) (s : S)
      → HasRunes rune_size classify
      → 0 < g.chunk_bytes
      → 0 < g.max_texts
      → (detect rune_size classify g r s).0
        ≡ verdict g.threshold (map (text_score rune_size g.chunk_bytes g.chunk_overlap f) r.texts)
  unfolding detect
  detect_reference g r s runes room some_texts =
      let (chunks, e) =
        chunk_texts-some rune_size classify g.chunk_bytes g.chunk_overlap 0 r.texts runes room in
      let timeout = timeout_of g.max_inference_time r.max_latency_ms in
      let zeros = map (λ t. 0) r.texts in
      let loop =
        run_batches rune_size classify (length chunks) timeout g.max_texts chunks zeros s in
      let done : loop.0 ≡ finished (keep_all f chunks zeros) =
        run_batches-all (length chunks) timeout g.max_texts chunks zeros s some_texts
          (omega arith) in
      let step : detect rune_size classify g r s
          ≡ (verdict g.threshold (keep_all f chunks zeros), loop.1) =
        rw (e, done, detect) in
      ap (λ (x : Answer × S). x.0) step
      ∙ ap (verdict g.threshold)
          (keep_all-texts rune_size g.chunk_bytes g.chunk_overlap f r.texts [] chunks e)
