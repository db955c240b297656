-- ===== src/Detector/Answers.antt =====
-- What every answer of `handleDetect` in services/synit-llm-guard/main.go is, whatever the classifier
-- gives.
use synit_waf.Prelude.{
  ℕ, suc, ◌<◌, true, ◌||◌, ◌&&◌, some, List, [], ◌∷◌, ◌++◌, map, length, drop, ltb, leb, ◌==◌,
  str_eq, eq_iff, ◌≡◌, refl, sym, ap, subst, ◌∙◌, ◌≢◌, ◌⊎◌, inl, inr, arith, Bool-cases,
  Option-cases,
}
use synit_waf.Request.Text.{Bytes, bytes_eq, has_prefix}
use synit_waf.Request.Body.{exceeds}
use synit_waf.Receiver.Serve.{bearer}
use synit_waf.Detector.Windows.{split_chunks_windows}
use synit_waf.Detector.Serve.{
  DetectRequest, Decoded, oversized, malformed, decoded, DetectCall, GuardServer, Classified,
  Answer, answer, detected, out_of_fuel, refused_text, Owned, own, maximum, chunk_texts,
  run_batches, verdict, detect, check_request, is_json, is_negative, handle_detect, timeout_of,
}
use synit_waf.Detector.Scores.{AreScores, Ends, Run-cases, run_batches-Ends}

module _ {S : Type 0} (rune_size : Bytes → ℕ) (classify : ℕ → List Bytes → S → Classified × S) where
  -- Every suffix of a text that is not empty starts with a rune of at least one byte.
  abbrev pub HasRunes : Type 0
  HasRunes = (text : Bytes) (start : ℕ) → start < length text → 0 < rune_size (drop start text)

  pub chunk_texts-some :
      (chunk_bytes overlap i : ℕ) (texts : List Bytes)
      → HasRunes
      → 0 < chunk_bytes
      → (chunks : List Owned) × (chunk_texts rune_size chunk_bytes overlap i texts ≡ some chunks)
  unfolding chunk_texts
  chunk_texts-some chunk_bytes overlap i [] runes room = ([], refl)
  chunk_texts-some chunk_bytes overlap i (t ∷ texts) runes room =
      let (cs, e, _, _) = split_chunks_windows rune_size t chunk_bytes overlap (runes t) room in
      let (more, f) = chunk_texts-some chunk_bytes overlap (suc i) texts runes room in
      (own i cs ++ more, rw (e, f, chunk_texts))

  -- What an answer to a request for these texts may be: an error status, or as many scores
  -- as there are texts, each from 0 to 1, with the highest of them.
  abbrev pub IsAnswer : ℕ → Answer → Type 0
  IsAnswer n (answer code) = code ≢ 200
  IsAnswer n out_of_fuel = ⊥
  IsAnswer n (detected injection score xs) = AreScores n xs × (score ≡ maximum xs)

  zeros-AreScores : (texts : List Bytes) → AreScores (length texts) (map (λ t. 0) texts)
  zeros-AreScores [] = (refl, tt)
  zeros-AreScores (t ∷ texts) =
      let (n, all) = zeros-AreScores texts in (ap suc n, (omega arith, all))

  detect-IsAnswer :
      (g : GuardServer) (r : DetectRequest) (s : S)
      → HasRunes
      → 0 < g.chunk_bytes
      → 0 < g.max_texts
      → IsAnswer (length r.texts) (detect rune_size classify g r s).0
  unfolding detect verdict
  detect-IsAnswer g r s runes room some_texts =
      let n = length r.texts in
      let (chunks, e) = chunk_texts-some g.chunk_bytes g.chunk_overlap 0 r.texts runes room in
      let timeout = timeout_of g.max_inference_time r.max_latency_ms in
      let zeros = map (λ t. 0) r.texts in
      let loop =
        run_batches rune_size classify (length chunks) timeout g.max_texts chunks zeros s in
      let ends =
        run_batches-Ends rune_size classify n (length chunks) timeout g.max_texts chunks zeros s
          some_texts (omega arith) (zeros-AreScores r.texts) in
      let goal : Answer × S → Type 0 = λ x. IsAnswer n x.0 in
      elim (Run-cases loop.0) [
        | inl (a, over) ↦
            let step : detect rune_size classify g r s ≡ (a, loop.1) = rw (e, over, detect) in
            subst goal (sym step) (elim (subst (Ends n) over ends) [
              | inl failed ↦ subst (IsAnswer n) (sym failed) (λ h. absurd (omega (arith, h)))
              | inr late ↦ subst (IsAnswer n) (sym late) (λ h. absurd (omega (arith, h)))
            ])
        | inr (kept, done) ↦
            let step : detect rune_size classify g r s ≡ (verdict g.threshold kept, loop.1) =
              rw (e, done, detect) in
            let all : AreScores n kept = subst (Ends n) done ends in
            subst goal (sym step) (all, refl)
      ]

  -- An error status, or what a POST with the service's token gets for the texts of its request.
  abbrev pub Result : GuardServer → DetectCall → Answer → Type 0
  Result g call a =
      ((code : ℕ) × (a ≡ answer code) × (code ≢ 200))
      ⊎ ((r : DetectRequest) × (call.body ≡ decoded r)
          × IsAnswer (length r.texts) a
          × (call.method ≡ "POST")
          × (has_prefix call.authorization bearer ≡ true)
          × (bytes_eq (drop 7 call.authorization) g.auth_token ≡ true))

  refused_text-code :
      (limit : ℕ) (texts : List Bytes) (code : ℕ)
      → refused_text limit texts ≡ some code
      → code ≢ 200
  unfolding refused_text
  refused_text-code limit [] code e = absurd (cc)
  refused_text-code limit (t ∷ texts) code e = ground (arith, refused_text-code limit texts code)

  Decoded-cases :
      (d : Decoded) → ((d ≡ oversized) ⊎ (d ≡ malformed)) ⊎ ((r : DetectRequest) × (d ≡ decoded r))
  Decoded-cases oversized = inl (inl refl)
  Decoded-cases malformed = inl (inr refl)
  Decoded-cases (decoded r) = inr (r, refl)

  check_request-cases :
      (g : GuardServer) (in_use : ℕ) (r : DetectRequest) (s : S)
      → let run = check_request rune_size classify g in_use r s in
        ((code : ℕ) × (code ≢ 200) × (run ≡ (answer code, s)))
        ⊎ (run ≡ detect rune_size classify g r s)
  unfolding check_request
  check_request-cases g in_use r s =
      elim (Bool-cases (
        str_eq r.tenant ""
        || str_eq r.path ""
        || is_negative r.max_latency_ms
        || length r.texts == 0
        || ltb g.max_texts (length r.texts))) [
          | inl bad ↦ inl (400, λ h. omega (arith, h), rw (bad, check_request))
          | inr good ↦ elim (Option-cases (refused_text g.max_text_bytes r.texts)) [
            | inr (code, refuses) ↦ inl (
              code,
              refused_text-code g.max_text_bytes r.texts code refuses,
              rw (good, refuses, check_request),
            )
            | inl fine ↦ elim (Bool-cases (leb g.max_concurrent_requests in_use)) [
              | inl busy ↦ inl (503, λ h. omega (arith, h), rw (good, fine, busy, check_request))
              | inr free ↦ inr (rw (good, fine, free, check_request))
            ]
          ]
        ]

  -- Where the sizes of chunks and batches are not 0 and every rune has a byte: whatever the classifier
  -- gives, the service answers every call, and never with a status of 200 but
  -- with as many scores as the request has texts, each from 0 to 1, and the highest of them. Only a POST
  -- that carries the service's token behind `Bearer ` gets scores.
  pub handle_detect_answers :
      (g : GuardServer) (in_use : ℕ) (call : DetectCall) (s : S)
      → HasRunes
      → 0 < g.chunk_bytes
      → 0 < g.max_texts
      → Result g call (handle_detect rune_size classify g in_use call s).0
  unfolding handle_detect check_request
  handle_detect_answers g in_use call s runes room some_texts =
      let run = handle_detect rune_size classify g in_use call s in
      let goal : Answer × S → Type 0 = λ x. Result g call x.0 in
      let refuses : (code : ℕ) → code ≢ 200 → run ≡ (answer code, s) → goal run =
        λ code bad step. subst goal (sym step) (inl (code, refl, bad)) in
      elim (Bool-cases (str_eq call.method "POST")) [
        | inr other ↦ refuses 405 (λ h. omega (arith, h)) (rw (other, handle_detect))
        | inl post ↦
            elim (Bool-cases (
              has_prefix call.authorization bearer
              && bytes_eq (drop 7 call.authorization) g.auth_token)) [
                | inr unknown ↦
                    refuses 401 (λ h. omega (arith, h)) (rw (post, unknown, handle_detect))
                | inl known ↦ elim (Bool-cases (is_json call.media_type)) [
                  | inr media ↦
                      refuses 415 (λ h. omega (arith, h)) (rw (post, known, media, handle_detect))
                  | inl json ↦ elim (Bool-cases (exceeds call.content_length g.max_request_bytes)) [
                    | inl long ↦
                        refuses 413 (λ h. omega (arith, h))
                          (rw (post, known, json, long, handle_detect))
                    | inr short ↦ elim (Decoded-cases call.body) [
                      | inl (inl over) ↦
                          refuses 413 (λ h. omega (arith, h))
                            (rw (post, known, json, short, over, handle_detect))
                      | inl (inr bad) ↦
                          refuses 400 (λ h. omega (arith, h))
                            (rw (post, known, json, short, bad, handle_detect))
                      | inr (r, body) ↦
                          let step : run ≡ check_request rune_size classify g in_use r s =
                            rw (post, known, json, short, body, handle_detect) in
                          elim (check_request-cases g in_use r s) [
                            | inl (code, bad, e) ↦ refuses code bad (step ∙ e)
                            | inr e ↦ subst goal (sym (step ∙ e)) (
                                inr (
                                  r,
                                  body,
                                  detect-IsAnswer g r s runes room some_texts,
                                  (eq_iff call.method "POST").0 post,
                                  ground arith,
                                  ground arith,
                                ))
                          ]
                    ]
                  ]
                ]
              ]
      ]
