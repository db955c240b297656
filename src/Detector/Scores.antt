-- ===== src/Detector/Scores.antt =====
-- The scores that the batches of `handleDetect` in services/synit-llm-guard/main.go leave behind.
use synit_waf.Prelude.{
  ℕ, zero, suc, ◌≤◌, ◌<◌, none, some, List, [], ◌∷◌, map, length, get_elem?, take, drop, length-set,
  All-set, length-drop, All, ltb, le_of_not, ◌==◌, ◌≡◌, refl, sym, ap, subst, ◌⊎◌, inl, inr, arith,
  Bool-cases, Option-cases,
}
use synit_waf.Request.Text.{Bytes}
use synit_waf.Llm.Sidecar.{score_one}
use synit_waf.Detector.Infer.{Score}
use synit_waf.Detector.Serve.{
  Classified, deadline_exceeded, inference_failed, scores, Answer, answer, Run, ended, finished,
  Owned, keep_score, keep_batch, run_batches,
}

abbrev pub IsScore : ℕ → Type 0
IsScore x = x ≤ score_one

-- As many scores as texts, each from 0 to 1.
abbrev pub AreScores : ℕ → List ℕ → Type 0
AreScores n xs = (length xs ≡ n) × All IsScore xs

keep_score-AreScores :
    (n owner x : ℕ) (kept : List ℕ)
    → x ≤ score_one
    → AreScores n kept
    → AreScores n (keep_score owner x kept)
unfolding keep_score
keep_score-AreScores n owner x kept h a = elim (Option-cases (get_elem? kept owner)) [
  | inl absent ↦
      let step : keep_score owner x kept ≡ kept = rw (absent, keep_score) in
      subst (AreScores n) (sym step) a
  | inr (y, there) ↦ ground (arith, length-set kept owner x, All-set IsScore kept owner x a.1 h, a)
]

keep_batch-AreScores :
    (n : ℕ) (batch : List Owned) (xs : List Score) (kept more : List ℕ)
    → keep_batch batch xs kept ≡ some more
    → AreScores n kept
    → AreScores n more
unfolding keep_batch
keep_batch-AreScores n [] xs kept more e a = subst (AreScores n) (ground arith) a
keep_batch-AreScores n (o ∷ batch) [] kept more e a = subst (AreScores n) (ground arith) a
keep_batch-AreScores n (o ∷ batch) (none ∷ xs) kept more e a = absurd (cc)
keep_batch-AreScores n (o ∷ batch) (some x ∷ xs) kept more e a =
    elim (Bool-cases (ltb score_one x)) [
      | inl high ↦ absurd (ground arith)
      | inr fits ↦
          keep_batch-AreScores n batch xs (keep_score o.0 x kept) more (ground arith)
            (keep_score-AreScores n o.0 x kept (le_of_not _ _ fits) a)
    ]

Classified-cases :
    (c : Classified)
    → ((c ≡ deadline_exceeded) ⊎ (c ≡ inference_failed)) ⊎ ((xs : List Score) × (c ≡ scores xs))
Classified-cases deadline_exceeded = inl (inl refl)
Classified-cases inference_failed = inl (inr refl)
Classified-cases (scores xs) = inr (xs, refl)

pub Run-cases : (r : Run) → ((a : Answer) × (r ≡ ended a)) ⊎ ((kept : List ℕ) × (r ≡ finished kept))
Run-cases (ended a) = inl (a, refl)
Run-cases (finished kept) = inr (kept, refl)

pub length-map : {A B : Type 0} (f : A → B) (xs : List A) → length (map f xs) ≡ length xs
length-map f [] = refl
length-map f (x ∷ xs) = ap suc (length-map f xs)

-- What the loop may end with: an error of the service, or scores.
abbrev pub Ends : ℕ → Run → Type 0
Ends n (ended a) = (a ≡ answer 503) ⊎ (a ≡ answer 504)
Ends n (finished kept) = AreScores n kept

module _ {S : Type 0} (rune_size : Bytes → ℕ) (classify : ℕ → List Bytes → S → Classified × S) where
  pub run_batches-Ends :
      (n fuel timeout size : ℕ) (chunks : List Owned) (kept : List ℕ) (s : S)
      → 0 < size
      → length chunks ≤ fuel
      → AreScores n kept
      → Ends n (run_batches rune_size classify fuel timeout size chunks kept s).0
  unfolding run_batches
  run_batches-Ends n fuel timeout size [] kept s p h a = a
  run_batches-Ends n zero timeout size (o ∷ chunks) kept s p h a = absurd (omega (arith, h))
  run_batches-Ends n (suc fuel) timeout size (o ∷ chunks) kept s p h a =
      let batch = take size (o ∷ chunks) in
      let call = classify timeout (map (λ c. c.1) batch) s in
      let run = run_batches rune_size classify (suc fuel) timeout size (o ∷ chunks) kept s in
      let goal : Run × S → Type 0 = λ x. Ends n x.0 in
      elim (Classified-cases call.0) [
        | inl (inl late) ↦
            let step : run ≡ (ended (answer 504), call.1) = rw (late, run_batches) in
            subst goal (sym step) (inr refl)
        | inl (inr fails) ↦
            let step : run ≡ (ended (answer 503), call.1) = rw (fails, run_batches) in
            subst goal (sym step) (inl refl)
        | inr (xs, gives) ↦ elim (Bool-cases (length xs == length batch)) [
          | inr short ↦
              let step : run ≡ (ended (answer 503), call.1) = rw (gives, short, run_batches) in
              subst goal (sym step) (inl refl)
          | inl same ↦ elim (Option-cases (keep_batch batch xs kept)) [
            | inl invalid ↦
                let step : run ≡ (ended (answer 503), call.1) =
                  rw (gives, same, invalid, run_batches) in
                subst goal (sym step) (inl refl)
            | inr (more, valid) ↦
                let rest = drop size (o ∷ chunks) in
                let step : run ≡ run_batches rune_size classify fuel timeout size rest more call.1 =
                  rw (gives, same, valid, run_batches) in
                subst goal (sym step) (
                  run_batches-Ends n fuel timeout size rest more call.1 p
                    (omega (arith, length-drop size (o ∷ chunks), h, p))
                    (keep_batch-AreScores n batch xs kept more valid a))
          ]
        ]
      ]
