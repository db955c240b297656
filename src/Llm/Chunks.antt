-- ===== src/Llm/Chunks.antt =====
-- What `splitLLMText` promises: chunks within the limit, no byte left out, and an end of its loop;
-- and the texts on which the loop has no end.
use synit_waf.Prelude.{
  ℕ, zero, suc, ◌+◌, ◌-◌, ◌≤◌, ◌<◌, min, some, List, [], ◌∷◌, length, take, drop, length-take,
  length-drop, ltb, leb, ltb→lt, leb→le, ◌==◌, ◌≡◌, sym, ap, ◌⊎◌, inl, inr, arith, Bool-cases,
  Option-cases, All,
}
use synit_waf.Llm.Split.{back_end, back_next, chunk_end, next_start, slice, Chunk, cuts}

-- The place stands in one of the chunks.
abbrev pub Covered : List Chunk → ℕ → Type 0
Covered [] p = ⊥
Covered (c ∷ cs) p = ((c.at ≤ p) × (p < c.at + length c.bytes)) ⊎ Covered cs p

module _ (text : List ℕ) where
  back_end_bounds :
      (start gap : ℕ) → (start ≤ back_end text start gap) × (back_end text start gap ≤ start + gap)
  unfolding back_end
  back_end_bounds start zero = omega arith
  back_end_bounds start (suc gap) = ground (arith, back_end_bounds start gap)

  back_next_bounds :
      (start gap : ℕ)
      → (start ≤ back_next text start gap) × (back_next text start gap ≤ start + gap)
  unfolding back_next
  back_next_bounds start zero = omega arith
  back_next_bounds start (suc gap) = ground (arith, back_next_bounds start gap)

  module _ (max_bytes : ℕ) where
    -- A chunk starts and ends in the text and is within the limit.
    pub chunk_end_bounds :
        (start : ℕ)
        → start < length text
        → (start ≤ chunk_end text max_bytes start)
          × (chunk_end text max_bytes start ≤ start + max_bytes)
          × (chunk_end text max_bytes start ≤ length text)
    unfolding chunk_end
    chunk_end_bounds start h =
        omega (arith, back_end_bounds start (min (start + max_bytes) (length text) - start))

    pub next_start_bounds :
        (overlap start end : ℕ)
        → start < end
        → (start < next_start text overlap start end) × (next_start text overlap start end ≤ end)
    unfolding next_start
    next_start_bounds overlap start end h =
        ground (arith, back_next_bounds start (end - overlap - start))

    next_start-le : (overlap start end : ℕ) → start ≤ end → next_start text overlap start end ≤ end
    unfolding next_start
    next_start-le overlap start end h =
        ground (arith, back_next_bounds start (end - overlap - start))

    pub length-slice :
        (start end : ℕ) → end ≤ length text → length (slice text start end) ≡ end - start
    length-slice start end h =
        omega (arith, length-take (end - start) (drop start text), length-drop start text)

    -- The chunk is the part of the text at its place, no longer than the limit.
    abbrev pub IsCut : Chunk → Type 0
    IsCut c = (length c.bytes ≤ max_bytes) × (c.bytes ≡ take (length c.bytes) (drop c.at text))

    pub slice-IsCut :
        (start end : ℕ)
        → end ≤ length text
        → end ≤ start + max_bytes
        → IsCut (record { at = start; bytes = slice text start end })
    slice-IsCut start end h k =
        let n = length-slice start end h in
        (omega (arith, n), ap (λ m. take m (drop start text)) (sym n))

    -- What a round that succeeds has done.
    module _ (overlap : ℕ) where
      abbrev chunk_at : ℕ → Chunk
      chunk_at start = record {
        at = start;
        bytes = slice text start (chunk_end text max_bytes start);
      }

      abbrev following : ℕ → ℕ
      following start = next_start text overlap start (chunk_end text max_bytes start)

      cuts_step :
          (fuel start : ℕ) (chunks : List Chunk)
          → cuts (suc fuel) text max_bytes overlap start ≡ some chunks
          → (length text ≤ start) × (chunks ≡ [])
            ⊎ (start < length text)
              × ((tail : List Chunk) × (chunks ≡ chunk_at start ∷ tail)
                  × ((chunk_end text max_bytes start ≡ length text) × (tail ≡ [])
                      ⊎ (cuts fuel text max_bytes overlap (following start) ≡ some tail)))
      unfolding cuts
      cuts_step fuel start chunks e =
          elim (Option-cases (cuts fuel text max_bytes overlap (following start))) [
            | inl out ↦ elim (Bool-cases (leb (length text) start)) [
              | inl past ↦ inl (leb→le _ _ past, ground arith)
              | inr inside ↦ inr (ground arith, ([], ground arith, inl (ground arith)))
            ]
            | inr (tail, more) ↦ elim (Bool-cases (leb (length text) start)) [
              | inl past ↦ inl (leb→le _ _ past, ground arith)
              | inr inside ↦ elim (Bool-cases (chunk_end text max_bytes start == length text)) [
                | inl last ↦ inr (ground arith, ([], ground arith, inl (ground arith)))
                | inr between ↦ inr (ground arith, (tail, ground arith, inr more))
              ]
            ]
          ]

      pub cuts-IsCut :
          (fuel start : ℕ) (chunks : List Chunk)
          → cuts fuel text max_bytes overlap start ≡ some chunks
          → All IsCut chunks
      unfolding cuts
      cuts-IsCut zero start chunks e = cc
      cuts-IsCut (suc fuel) start chunks e = elim (cuts_step fuel start chunks e) [
        | inl (past, done) ↦ rw done tt
        | inr (inside, (tail, split, rest)) ↦
            let (_, short, ends) = chunk_end_bounds start inside in
            let here = slice-IsCut start (chunk_end text max_bytes start) ends short in
            elim rest [
              | inl (last, done) ↦ rw (split, done) (here, tt)
              | inr more ↦ rw split (here, cuts-IsCut fuel (following start) tail more)
            ]
      ]

      pub cuts-Covered :
          (fuel start p : ℕ) (chunks : List Chunk)
          → cuts fuel text max_bytes overlap start ≡ some chunks
          → start ≤ p
          → p < length text
          → Covered chunks p
      unfolding cuts
      cuts-Covered zero start p chunks e h k = cc
      cuts-Covered (suc fuel) start p chunks e h k = elim (cuts_step fuel start chunks e) [
        | inl (past, done) ↦ absurd (omega arith)
        | inr (inside, (tail, split, rest)) ↦
            let end = chunk_end text max_bytes start in
            let (above, short, ends) = chunk_end_bounds start inside in
            let long = length-slice start end ends in
            rw split (elim rest [
              | inl (last, done) ↦ inl (h, omega (arith, long, last))
              | inr more ↦ elim (Bool-cases (ltb p end)) [
                | inl within ↦ inl (h, omega (arith, long, ltb→lt _ _ within))
                | inr behind ↦
                    let earlier : end ≤ p = ground arith in
                    inr (
                      cuts-Covered fuel (following start) p tail more
                        (omega (arith, next_start-le overlap start end above)) k)
              ]
            ])
      ]
