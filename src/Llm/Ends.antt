-- ===== src/Llm/Ends.antt =====
-- The loop of `splitLLMText`: where it ends and where it does not, and what the whole function gives.
use synit_waf.Prelude.{
  ℕ, zero, suc, ◌+◌, ◌-◌, ◌/◌, ◌≤◌, ◌<◌, min, true, false, none, some, List, [], ◌∷◌, length, take,
  ltb, leb, leb→le, ltb→lt, le_of_not, ◌==◌, ◌≡◌, refl, sym, ap, ◌⊎◌, inl, inr, arith, Bool-cases,
  All,
}
use synit_waf.Llm.Split.{
  overlap_bytes, starts_at, back_end, chunk_end, next_start, slice, Chunk, cuts, split_text,
}
use synit_waf.Llm.Chunks.{IsCut, next_start_bounds, cuts-IsCut}

-- Among any four bytes in a row one starts a rune, as in every text of valid UTF-8.
abbrev pub IsDense : List ℕ → Type 0
IsDense text =
    (i : ℕ)
    → i + 3 < length text
    → (starts_at text i ≡ true)
      ⊎ (starts_at text (i + 1) ≡ true)
      ⊎ (starts_at text (i + 2) ≡ true)
      ⊎ (starts_at text (i + 3) ≡ true)

module _ (text : List ℕ) where
  back_end_inside :
      (start gap : ℕ)
      → IsDense text
      → start + gap + 4 < length text
      → start < back_end text start (suc (suc (suc (suc gap))))
  unfolding back_end
  back_end_inside start gap d h =
      let a : start + suc gap ≡ start + gap + 1 = omega arith in
      let b : start + suc (suc gap) ≡ start + gap + 1 + 1 = omega arith in
      let c : start + suc (suc (suc gap)) ≡ start + gap + 1 + 2 = omega arith in
      let e : start + suc (suc (suc (suc gap))) ≡ start + gap + 1 + 3 = omega arith in
      ground (arith, d (start + gap + 1))

  back_end_whole :
      (start gap : ℕ) → 0 < gap → start + gap ≡ length text → start < back_end text start gap
  unfolding back_end
  back_end_whole start zero h e = absurd (omega arith)
  back_end_whole start (suc gap) h e = ground arith

  chunk_end_progress :
      (max_bytes start : ℕ)
      → 4 ≤ max_bytes
      → IsDense text
      → start < length text
      → start < chunk_end text max_bytes start
  unfolding chunk_end
  chunk_end_progress max_bytes start m d h =
      let gap = min (start + max_bytes) (length text) - start in
      elim (Bool-cases (ltb (start + max_bytes) (length text))) [
        | inr whole ↦
            back_end_whole start gap (omega (arith, le_of_not _ _ whole))
              (omega (arith, le_of_not _ _ whole))
        | inl cut ↦
            let lt = ltb→lt _ _ cut in
            let e : gap ≡ suc (suc (suc (suc (max_bytes - 4)))) = omega (arith, lt) in
            rw e (back_end_inside start (max_bytes - 4) d (omega (arith, lt)))
      ]

  cuts_total :
      (max_bytes overlap : ℕ)
      → 4 ≤ max_bytes
      → IsDense text
      → (fuel start : ℕ) → length text < fuel + start
      → 0 < fuel
      → (chunks : List Chunk) × (cuts fuel text max_bytes overlap start ≡ some chunks)
  unfolding cuts
  cuts_total max_bytes overlap m d zero start h p = absurd (omega arith)
  cuts_total max_bytes overlap m d (suc fuel) start h p =
      let end = chunk_end text max_bytes start in
      elim (Bool-cases (leb (length text) start)) [
        | inl past ↦ ([], rw past)
        | inr inside ↦
            let lt : start < length text = ground arith in
            let ahead = chunk_end_progress max_bytes start m d lt in
            let (more, _) = next_start_bounds text max_bytes overlap start end ahead in
            let (tail, rest) =
              cuts_total max_bytes overlap m d fuel (next_start text overlap start end)
                (omega (arith, more)) (omega arith) in
            let here : Chunk = record { at = start; bytes = slice text start end } in
            elim (Bool-cases (end == length text)) [
              | inl last ↦ (here ∷ [], rw (inside, last))
              | inr between ↦ (here ∷ tail, rw (inside, between, rest))
            ]
      ]

  -- Where only continuation bytes follow, the end of a chunk goes back to its start.
  back_end_stuck :
      (start gap : ℕ)
      → ((i : ℕ) → start < i → i ≤ start + gap → starts_at text i ≡ false)
      → start + gap < length text
      → back_end text start gap ≡ start
  unfolding back_end
  back_end_stuck start zero c h = refl
  back_end_stuck start (suc gap) c h =
      let before = back_end_stuck start gap (λ i a b. c i a (omega arith)) (omega arith) in
      ground (arith, c (start + suc gap))

  cuts_stuck :
      (max_bytes overlap start : ℕ)
      → chunk_end text max_bytes start ≡ start
      → start < length text
      → (fuel : ℕ) → cuts fuel text max_bytes overlap start ≡ none
  unfolding cuts next_start
  cuts_stuck max_bytes overlap start e h zero = refl
  cuts_stuck max_bytes overlap start e h (suc fuel) =
      ground (arith, cuts_stuck max_bytes overlap start e h fuel)

take-length : (text : List ℕ) → take (length text) text ≡ text
take-length [] = refl
take-length (b ∷ text) = ap (λ (t : List ℕ). b ∷ t) (take-length text)

-- A text in which any four bytes in a row have a start of a rune, cut at four bytes or more: the
-- loop ends within as many rounds as the text has bytes, and each chunk is a part of the text at its
-- place and within the limit.
pub split_text_total :
    (fuel max_bytes : ℕ) (text : List ℕ)
    → 4 ≤ max_bytes
    → IsDense text
    → length text < fuel
    → (chunks : List Chunk) × (split_text fuel text max_bytes ≡ some chunks)
      × All (IsCut text max_bytes) chunks
unfolding split_text
split_text_total fuel max_bytes text m d h =
    let positive : (max_bytes == 0) ≡ false = ground arith in
    let overlap = min overlap_bytes (max_bytes / 4) in
    elim (Bool-cases (leb (length text) max_bytes)) [
      | inl short ↦ (
        record { at = 0; bytes = text } ∷ [],
        rw (positive, short),
        ((leb→le _ _ short, sym (take-length text)), tt),
      )
      | inr long ↦
          let (chunks, e) =
            cuts_total text max_bytes overlap m d fuel 0 (omega arith) (omega arith) in
          (chunks, rw (positive, long) e, cuts-IsCut text max_bytes overlap fuel 0 chunks e)
    ]

-- A text longer than the limit whose bytes behind the first, up to the limit, are all continuation
-- bytes: the loop never ends.
pub split_text_diverges :
    (max_bytes : ℕ) (text : List ℕ)
    → 0 < max_bytes
    → max_bytes < length text
    → ((i : ℕ) → 0 < i → i ≤ max_bytes → starts_at text i ≡ false)
    → (fuel : ℕ) → split_text fuel text max_bytes ≡ none
unfolding split_text chunk_end
split_text_diverges max_bytes text p long c fuel =
    let overlap = min overlap_bytes (max_bytes / 4) in
    let gap : min (0 + max_bytes) (length text) - 0 ≡ max_bytes = omega arith in
    let stuck : chunk_end text max_bytes 0 ≡ 0 =
      rw gap (back_end_stuck text 0 max_bytes (λ i a b. c i a (omega arith)) (omega arith)) in
    ground (arith, cuts_stuck text max_bytes overlap 0 stuck (omega arith) fuel)
