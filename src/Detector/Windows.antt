-- ===== src/Detector/Windows.antt =====
-- What `splitChunks` of services/synit-llm-guard/main.go makes of any text: the loop ends, the chunks
-- are cuts of the text within the limit, and a short window of the text stands in one of them.
use synit_waf.Prelude.{
  ℕ, zero, suc, ◌+◌, ◌-◌, ◌≤◌, ◌<◌, Option, none, some, List, [], ◌∷◌, length, drop, length-drop,
  ltb, leb, leb→le, ltb→lt, le_of_not, All, ◌≡◌, refl, sym, ◌∙◌, ◌⊎◌, inl, inr, arith, Bool-cases,
}
use synit_waf.Request.Text.{Bytes}
use synit_waf.Request.Body.{take_all}
use synit_waf.Llm.Split.{slice, Chunk}
use synit_waf.Llm.Chunks.{IsCut, slice-IsCut, length-slice}
use synit_waf.Detector.Chunks.{
  boundary_from, rune_boundary, chunk_end, next_start, chunks_from, split_chunks,
}

boundary_from_bounds :
    (tries : ℕ) (text : Bytes) (index i : ℕ)
    → i ≤ index
    → index + tries ≤ i + 4
    → (boundary_from tries text index i ≤ index) × (index < boundary_from tries text index i + 4)
unfolding boundary_from
boundary_from_bounds zero text index i h k = omega arith
boundary_from_bounds (suc tries) text index i h k =
    ground (arith, boundary_from_bounds tries text index (i - 1))

rune_boundary_bounds :
    (text : Bytes) (index : ℕ)
    → (rune_boundary text index ≤ index) × (index < rune_boundary text index + 4)
unfolding rune_boundary
rune_boundary_bounds text index =
    boundary_from_bounds 4 text index index (omega arith) (omega arith)

-- One of the chunks holds all of the `width` bytes at `p`.
abbrev pub Holds : ℕ → ℕ → List Chunk → Type 0
Holds p width [] = ⊥
Holds p width (c ∷ cs) = ((c.at ≤ p) × (p + width ≤ c.at + length c.bytes)) ⊎ Holds p width cs

module _ (rune_size : Bytes → ℕ) (text : Bytes) (chunk_bytes overlap : ℕ) where
  abbrev following : ℕ → ℕ → ℕ
  following start end = next_start rune_size text overlap start end

  next_start_bounds :
      (start end : ℕ)
      → 0 < rune_size (drop start text)
      → start < end
      → (start < following start end) × (following start end ≤ end)
  unfolding next_start
  next_start_bounds start end r h = ground (arith, rune_boundary_bounds text (end - overlap))

  -- A chunk that is seven bytes longer than the overlap shares the overlap with the next one.
  next_start_shares :
      (start end : ℕ)
      → start + chunk_bytes < end + 4
      → overlap + 7 ≤ chunk_bytes
      → following start end + overlap ≤ end
  unfolding next_start
  next_start_shares start end h k = ground (arith, rune_boundary_bounds text (end - overlap))

  chunk_end_bounds :
      (start : ℕ)
      → 0 < chunk_bytes
      → (start < chunk_end rune_size text chunk_bytes start)
        × (chunk_end rune_size text chunk_bytes start ≤ start + chunk_bytes)
        × (start + chunk_bytes < chunk_end rune_size text chunk_bytes start + 4)
  unfolding chunk_end
  chunk_end_bounds start h = ground (arith, rune_boundary_bounds text (start + chunk_bytes))

  -- A width that no cut separates: one byte, or as many as two chunks share.
  abbrev pub IsShared : ℕ → Type 0
  IsShared width = (width ≤ 1) ⊎ ((width ≤ overlap) × (overlap + 7 ≤ chunk_bytes))

  module _ (rune : (start : ℕ) → start < length text → 0 < rune_size (drop start text))
      (room : 0 < chunk_bytes) where
    -- What the loop gives from `start` on.
    abbrev Splits : ℕ → Option (List Chunk) → Type 0
    Splits start o =
        (chunks : List Chunk) × (o ≡ some chunks)
        × All (IsCut text chunk_bytes) chunks
        × ((p width : ℕ)
            → start ≤ p
            → p + width ≤ length text
            → IsShared width
            → Holds p width chunks)

    -- The last chunk is the rest of the text.
    Splits-rest :
        (start : ℕ)
        → start ≤ length text
        → length text - start ≤ chunk_bytes
        → Splits start (some (record { at = start; bytes = drop start text } ∷ []))
    Splits-rest start h short =
        let n = length-drop start text in
        (
          _,
          refl,
          ((omega (arith, n), sym (take_all _ (drop start text) (omega arith))), tt),
          λ p w a b c. inl (a, omega (arith, n)),
        )

    Splits-step :
        (start : ℕ) (rest : Option (List Chunk))
        → start + chunk_bytes < length text
        → let end = chunk_end rune_size text chunk_bytes start in
          Splits (following start end) rest
          → Splits start (elim rest [
            | none ↦ none
            | some chunks ↦ some (record { at = start; bytes = slice text start end } ∷ chunks)
          ])
    Splits-step start rest h (chunks, e, cuts, holds) =
        let end = chunk_end rune_size text chunk_bytes start in
        let (above, short, back) = chunk_end_bounds start room in
        let (_, next_le) = next_start_bounds start end (rune start (omega (arith, h))) above in
        let ends : end ≤ length text = omega (arith, short, h) in
        let n = length-slice text chunk_bytes start end ends in
        (
          record { at = start; bytes = slice text start end } ∷ chunks,
          rw e refl,
          (slice-IsCut text chunk_bytes start end ends short, cuts),
          λ p width a b shared. elim (Bool-cases (leb (p + width) end)) [
            | inl inside ↦ inl (a, omega (arith, n, leb→le _ _ inside, above))
            | inr outside ↦
                let behind : following start end ≤ p = (elim shared [
                  | inl one ↦ ground (arith, next_le)
                  | inr (small, long) ↦ ground (arith, next_start_shares start end back long)
                ]) in
                inr (holds p width behind b shared)
          ],
        )

    chunks_from-Splits :
        (fuel start : ℕ)
        → start ≤ length text
        → length text < fuel + start
        → Splits start (chunks_from rune_size fuel text chunk_bytes overlap start)
    unfolding chunks_from
    chunks_from-Splits zero start h k = absurd (omega (arith, h, k))
    chunks_from-Splits (suc fuel) start h k =
        let end = chunk_end rune_size text chunk_bytes start in
        let (above, short, back) = chunk_end_bounds start room in
        elim (Bool-cases (ltb chunk_bytes (length text - start))) [
          | inr last ↦ rw last (Splits-rest start h (le_of_not _ _ last))
          | inl more ↦
              let inside : start + chunk_bytes < length text = omega (arith, ltb→lt _ _ more) in
              let (after, _) =
                next_start_bounds start end (rune start (omega (arith, inside))) above in
              let (_, before) =
                next_start_bounds start end (rune start (omega (arith, inside))) above in
              rw more (
                Splits-step start
                  (chunks_from rune_size fuel text chunk_bytes overlap (following start end)) inside
                  (chunks_from-Splits fuel (following start end)
                    (omega (arith, before, short, inside)) (omega (arith, after, k))))
        ]

  -- Any text at all is split, with as much fuel as it has bytes and one more: the loop ends also where
  -- the text is no UTF-8. Each chunk is a cut of the text within the limit, every byte stands in one,
  -- and where the overlap is at least seven bytes shorter than a chunk, any part of the text that is
  -- no longer than the overlap stands whole in one.
  pub split_chunks_windows :
      ((start : ℕ) → start < length text → 0 < rune_size (drop start text))
      → 0 < chunk_bytes
      → (chunks : List Chunk) × (split_chunks rune_size (suc (length text)) text chunk_bytes overlap
          ≡ some chunks)
        × All (IsCut text chunk_bytes) chunks
        × ((p width : ℕ) → p + width ≤ length text → IsShared width → Holds p width chunks)
  unfolding split_chunks
  split_chunks_windows rune room = elim (Bool-cases (leb (length text) chunk_bytes)) [
    | inl short ↦
        let step : split_chunks rune_size (suc (length text)) text chunk_bytes overlap
            ≡ some (record { at = 0; bytes = text } ∷ []) =
          ground arith in
        (
          _,
          step,
          ((leb→le _ _ short, sym (take_all _ text (omega arith))), tt),
          λ p w h shared. inl (omega arith, omega (arith, h)),
        )
    | inr long ↦
        let (chunks, e, cuts, holds) =
          chunks_from-Splits rune room (suc (length text)) 0 (omega arith) (omega arith) in
        let step : split_chunks rune_size (suc (length text)) text chunk_bytes overlap
            ≡ chunks_from rune_size (suc (length text)) text chunk_bytes overlap 0 =
          ground arith in
        (chunks, step ∙ e, cuts, λ p w h shared. holds p w (omega arith) h shared)
  ]
