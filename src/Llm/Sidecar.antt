-- ===== src/Llm/Sidecar.antt =====
-- `querySidecar` and `querySidecarBatched` of internal/waf/llm_protection.go: the scores that the
-- sidecar gives for texts.
--
-- A score is a float64 that is not negative, written as its bit pattern: those patterns are ordered as
-- the numbers are. What the sidecar sends is none where it is negative or no number.
use synit_waf.Prelude.{
  ℕ, zero, suc, ◌≤◌, ◌<◌, ◌||◌, Option, none, some, List, [], ◌∷◌, ◌++◌, length, take, drop,
  length-take, length-append, All-append, All, leb, leb→le, ◌==◌, if◌then◌else◌, ◌≡◌, refl, sym,
  ◌∙◌, ◌⊎◌, inl, inr, arith, Bool-cases, ◌&&◌, length-drop,
}
use synit_waf.Request.Text.{Bytes}

-- The bit pattern of 1.0.
abbrev pub score_one : ℕ
score_one = 0x3ff0000000000000

-- What comes back over HTTP: nothing, or a status with the scores of a body that could be decoded.
pub data Response : Type 0 where
  no_response : Response
  response : ℕ → Option (List (Option ℕ)) → Response

-- `rejected` is `errSidecarRejectedInput`, `failed` any other error.
pub data Scores : Type 0 where
  scored : List ℕ → Scores
  rejected failed : Scores

abbrev pub append_scores : List ℕ → Scores → Scores
append_scores xs (scored ys) = scored (xs ++ ys)
append_scores xs rejected = rejected
append_scores xs failed = failed

unfoldable pub valid_scores : List (Option ℕ) → Scores
valid_scores [] = scored []
valid_scores (none ∷ raw) = failed
valid_scores (some x ∷ raw) =
    if leb x score_one then append_scores (x ∷ []) (valid_scores raw) else failed

-- The decoded answer is a parameter, none where the first 64 KiB of it, which the source reads, are no
-- such JSON.
unfoldable pub query_sidecar : Response → ℕ → Scores
unfolding valid_scores
query_sidecar no_response texts = failed
query_sidecar (response status decoded) texts =
    if status == 200
    then (elim decoded [
      | none ↦ failed
      | some raw ↦ if length raw == texts then valid_scores raw else failed
    ])
    else if status == 400 || status == 413 || status == 422
    then rejected
    else failed

-- `defaultLLMSidecarMaxBatch`.
abbrev pub default_max_batch : ℕ
default_max_batch = 32

module _ {S : Type 0} (ask : List Bytes → S → Response × S) where
  -- The loop over the batches. Each takes one text at least, so as many rounds as texts are enough.
  unfoldable pub query_batches : ℕ → ℕ → List Bytes → S → Scores × S
  unfolding query_sidecar
  query_batches zero size texts s = (scored [], s)
  query_batches (suc fuel) size [] s = (scored [], s)
  query_batches (suc fuel) size (t ∷ texts) s =
      let (reply, s1) = ask (take size (t ∷ texts)) s in
      let rest = query_batches fuel size (drop size (t ∷ texts)) s1 in
      elim (query_sidecar reply (length (take size (t ∷ texts)))) [
        | scored xs ↦ (append_scores xs rest.0, rest.1)
        | rejected ↦ (rejected, s1)
        | failed ↦ (failed, s1)
      ]

  unfoldable pub query_sidecar_batched : ℕ → List Bytes → S → Scores × S
  unfolding query_batches
  query_sidecar_batched size texts s =
      query_batches (length texts) (if size == 0 then default_max_batch else size) texts s

IsScore : ℕ → Type 0
IsScore x = x ≤ score_one

append_scores-scored :
    (xs : List ℕ) (r : Scores) (zs : List ℕ)
    → append_scores xs r ≡ scored zs
    → (ys : List ℕ) × (r ≡ scored ys) × (zs ≡ xs ++ ys)
append_scores-scored xs (scored ys) zs e = (ys, refl, cc)
append_scores-scored xs rejected zs e = absurd (cc)
append_scores-scored xs failed zs e = absurd (cc)

Scores-cases : (r : Scores) → ((xs : List ℕ) × (r ≡ scored xs)) ⊎ ((r ≡ rejected) ⊎ (r ≡ failed))
Scores-cases (scored xs) = inl (xs, refl)
Scores-cases rejected = inr (inl refl)
Scores-cases failed = inr (inr refl)

valid_scores-scored :
    (raw : List (Option ℕ)) (xs : List ℕ)
    → valid_scores raw ≡ scored xs
    → (length xs ≡ length raw) × All IsScore xs
unfolding valid_scores IsScore
valid_scores-scored [] [] e = (refl, tt)
valid_scores-scored [] (x ∷ xs) e = absurd (cc)
valid_scores-scored (none ∷ raw) xs e = absurd (cc)
valid_scores-scored (some x ∷ raw) xs e = elim (Bool-cases (leb x score_one)) [
  | inr bad ↦ absurd (ground arith)
  | inl good ↦
      let step : valid_scores (some x ∷ raw) ≡ append_scores (x ∷ []) (valid_scores raw) =
        rw good in
      let (ys, rest, whole) = append_scores-scored (x ∷ []) (valid_scores raw) xs (sym step ∙ e) in
      let (n, h) = valid_scores-scored raw ys rest in
      rw whole (omega (arith, n), (leb→le _ _ good, h))
]

query_sidecar-scored :
    (r : Response) (texts : ℕ) (xs : List ℕ)
    → query_sidecar r texts ≡ scored xs
    → (length xs ≡ texts) × All IsScore xs
unfolding query_sidecar
query_sidecar-scored no_response texts xs e = absurd (cc)
query_sidecar-scored (response status none) texts xs e = absurd (ground arith)
query_sidecar-scored (response status (some raw)) texts xs e =
    elim (Bool-cases (status == 200 && length raw == texts)) [
      | inr bad ↦ absurd (ground arith)
      | inl good ↦
          let step : query_sidecar (response status (some raw)) texts ≡ valid_scores raw =
            ground arith in
          let (n, h) = valid_scores-scored raw xs (sym step ∙ e) in (ground arith, h)
    ]

module _ {S : Type 0} (ask : List Bytes → S → Response × S) where
  query_batches-scored :
      (fuel size : ℕ) (texts : List Bytes) (s : S) (xs : List ℕ)
      → 0 < size
      → length texts ≤ fuel
      → (query_batches ask fuel size texts s).0 ≡ scored xs
      → (length xs ≡ length texts) × All IsScore xs
  unfolding query_batches
  query_batches-scored zero size [] s [] p h e = (refl, tt)
  query_batches-scored zero size [] s (x ∷ xs) p h e = absurd (cc)
  query_batches-scored zero size (t ∷ texts) s xs p h e = absurd (omega arith)
  query_batches-scored (suc fuel) size [] s [] p h e = (refl, tt)
  query_batches-scored (suc fuel) size [] s (x ∷ xs) p h e = absurd (cc)
  query_batches-scored (suc fuel) size (t ∷ texts) s xs p h e =
      let batch = take size (t ∷ texts) in
      let (reply, s1) = ask batch s in
      elim (Scores-cases (query_sidecar reply (length batch))) [
        | inr bad ↦ absurd (ground (arith, bad))
        | inl (ys, good) ↦
            let later = drop size (t ∷ texts) in
            let step : (query_batches ask (suc fuel) size (t ∷ texts) s).0
                ≡ append_scores ys (query_batches ask fuel size later s1).0 =
              rw (good, query_batches) in
            let (zs, rest, whole) =
              append_scores-scored ys (query_batches ask fuel size later s1).0 xs (sym step ∙ e) in
            let taken = length-take size (t ∷ texts) in
            let left = length-drop size (t ∷ texts) in
            let (n, a) = query_sidecar-scored reply (length batch) ys good in
            let (m, b) = query_batches-scored fuel size later s1 zs p (omega (arith, left)) rest in
            rw whole
              (omega (arith, n, m, length-append ys zs, taken, left), All-append IsScore ys zs a b)
      ]

  -- Scores that come back are as many as the texts that were asked for, whatever the size of a batch,
  -- and none exceeds 1: the handler finds a score for each text.
  pub query_sidecar_batched_lem :
      (size : ℕ) (texts : List Bytes) (s : S) (xs : List ℕ)
      → (query_sidecar_batched ask size texts s).0 ≡ scored xs
      → (length xs ≡ length texts) × All (λ x. x ≤ score_one) xs
  unfolding query_sidecar_batched IsScore
  query_sidecar_batched_lem size texts s xs e =
      query_batches-scored (length texts) (if size == 0 then default_max_batch else size) texts s xs
        (ground arith) (omega arith) e
