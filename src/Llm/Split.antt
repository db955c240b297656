-- ===== src/Llm/Split.antt =====
-- `splitLLMText` of internal/waf/llm_protection.go: a text cut into overlapping chunks for the
-- sidecar, which scores each.
--
-- A text is the list of its bytes. The loop takes fuel: `none` means that it ran out.
use synit_waf.Prelude.{
  ℕ, zero, suc, ◌+◌, ◌-◌, ◌/◌, min, Bool, false, ◌&&◌, ◌||◌, not, Option, none, some, List, [], ◌∷◌,
  length, get_elem?, take, drop, ltb, leb, ◌==◌, if◌then◌else◌,
}

-- `llmTextChunkOverlapBytes`.
abbrev pub overlap_bytes : ℕ
overlap_bytes = 256

-- `utf8.RuneStart(text[i])`: the byte is not a continuation byte, 10xxxxxx.
unfoldable pub rune_start : ℕ → Bool
rune_start b = not (b / 64 == 2)

unfoldable pub starts_at : List ℕ → ℕ → Bool
unfolding rune_start
starts_at text i = elim (get_elem? text i) [ none ↦ false | some b ↦ rune_start b ]

-- `for end < len(text) && end > start && !RuneStart(text[end]) { end-- }`, with `gap` = `end - start`.
unfoldable pub back_end : List ℕ → ℕ → ℕ → ℕ
back_end text start zero = start
back_end text start (suc gap) =
    let rest = back_end text start gap in
    let end = start + suc gap in
    if ltb end (length text) && not (starts_at text end) then rest else end

-- The loop that takes the start of the following chunk back to a rune, with `gap` bytes to go.
unfoldable pub back_next : List ℕ → ℕ → ℕ → ℕ
back_next text start zero = start
back_next text start (suc gap) =
    let rest = back_next text start gap in
    if not (starts_at text (start + suc gap)) then rest else start + suc gap

-- One round of the loop: where the chunk at `start` ends, and where the next one starts.
unfoldable pub chunk_end : List ℕ → ℕ → ℕ → ℕ
unfolding back_end
chunk_end text max_bytes start = back_end text start (min (start + max_bytes) (length text) - start)

unfoldable pub next_start : List ℕ → ℕ → ℕ → ℕ → ℕ
unfolding back_next
next_start text overlap start end =
    let next =
      if ltb start (end - overlap) then back_next text start (end - overlap - start) else start in
    if leb next start then end else next

abbrev pub slice : List ℕ → ℕ → ℕ → List ℕ
slice text start end = take (end - start) (drop start text)

-- A chunk with the place that it starts at.
pub record Chunk : Type 0 where
  pub at : ℕ
  pub bytes : List ℕ

unfoldable pub cuts : ℕ → List ℕ → ℕ → ℕ → ℕ → Option (List Chunk)
cuts zero text max_bytes overlap start = none
cuts (suc fuel) text max_bytes overlap start =
    let end = chunk_end text max_bytes start in
    let here : Chunk = record { at = start; bytes = slice text start end } in
    let rest = cuts fuel text max_bytes overlap (next_start text overlap start end) in
    if leb (length text) start
    then some []
    else if end == length text
    then some (here ∷ [])
    else elim rest [ none ↦ none | some chunks ↦ some (here ∷ chunks) ]

-- `splitLLMText`, for a maximum that is 0 where the source's is negative.
unfoldable pub split_text : ℕ → List ℕ → ℕ → Option (List Chunk)
unfolding cuts
split_text fuel text max_bytes =
    if max_bytes == 0 || leb (length text) max_bytes
    then some (record { at = 0; bytes = text } ∷ [])
    else cuts fuel text max_bytes (min overlap_bytes (max_bytes / 4)) 0
