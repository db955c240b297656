-- ===== src/Detector/Chunks.antt =====
-- `splitChunks` and `runeBoundary` of services/synit-llm-guard/main.go.
--
-- The loop takes fuel: none means that it ran out. The size of the rune that
-- `utf8.DecodeRuneInString` reads is a parameter. An index below 0 is 0 here: from both, the next
-- chunk would not start behind this one. The overlap is positive, as `loadConfig` demands.
use synit_waf.Prelude.{
  ℕ, zero, suc, ◌+◌, ◌-◌, min, ◌||◌, Option, none, some, List, [], ◌∷◌, length, drop, ltb, leb,
  ◌==◌, if◌then◌else◌,
}
use synit_waf.Request.Text.{Bytes}
use synit_waf.Llm.Split.{starts_at, slice, Chunk}

-- The loop over at most `utf8.UTFMax` indices, down from `i`.
unfoldable pub boundary_from : ℕ → Bytes → ℕ → ℕ → ℕ
boundary_from zero text index i = index
boundary_from (suc tries) text index i =
    let lower = boundary_from tries text index (i - 1) in
    if i == 0 then index else if starts_at text i then i else lower

unfoldable pub rune_boundary : Bytes → ℕ → ℕ
unfolding boundary_from
rune_boundary text index = boundary_from 4 text index index

module _ (rune_size : Bytes → ℕ) where
  unfoldable pub chunk_end : Bytes → ℕ → ℕ → ℕ
  unfolding rune_boundary
  chunk_end text chunk_bytes start =
      let end = rune_boundary text (start + chunk_bytes) in
      if leb end start then start + chunk_bytes else end

  unfoldable pub next_start : Bytes → ℕ → ℕ → ℕ → ℕ
  unfolding rune_boundary
  next_start text overlap start end =
      let next = rune_boundary text (end - overlap) in
      if leb next start then min (start + rune_size (drop start text)) end else next

  unfoldable pub chunks_from : ℕ → Bytes → ℕ → ℕ → ℕ → Option (List Chunk)
  unfolding chunk_end next_start
  chunks_from zero text chunk_bytes overlap start = none
  chunks_from (suc fuel) text chunk_bytes overlap start =
      let end = chunk_end text chunk_bytes start in
      let here : Chunk = record { at = start; bytes = slice text start end } in
      let rest = chunks_from fuel text chunk_bytes overlap (next_start text overlap start end) in
      if ltb chunk_bytes (length text - start)
      then (elim rest [ none ↦ none | some chunks ↦ some (here ∷ chunks) ])
      else some (record { at = start; bytes = drop start text } ∷ [])

  unfoldable pub split_chunks : ℕ → Bytes → ℕ → ℕ → Option (List Chunk)
  unfolding chunks_from
  split_chunks fuel text chunk_bytes overlap =
      if chunk_bytes == 0 || leb (length text) chunk_bytes
      then some (record { at = 0; bytes = text } ∷ [])
      else chunks_from fuel text chunk_bytes overlap 0
