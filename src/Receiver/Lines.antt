-- ===== src/Receiver/Lines.antt =====
-- `logLines` of services/ai-logs-receiver/main.go, which takes a body apart into the lines to store.
--
-- A rune below 0x20 is one byte, so the test on runes is one on bytes. `json.Valid` is a parameter.
use mathlib.Core.List.{append-nil, append_assoc}
use synit_waf.Prelude.{
  ℕ, suc, ◌+◌, ◌<◌, Bool, true, false, not, ◌&&◌, List, [], ◌∷◌, ◌++◌, length, any, All, ltb, ◌==◌,
  if◌then◌else◌, ◌≡◌, refl, sym, ap, ◌∙◌, ◌⊎◌, ◌↔◌, inl, inr, arith,
}
use synit_waf.Request.Text.{Bytes, split_from, split}

abbrev pub newline : ℕ
newline = 10

-- The number is the line's among those that are not empty, from 1.
pub data LinesError : Type 0 where
  control_character not_json : ℕ → LinesError
  no_json not_single : LinesError

pub data Payload : Type 0 where
  refused : LinesError → Payload
  payload : Bytes → Payload

pub data Walk : Type 0 where
  stopped : LinesError → Walk
  walked : ℕ → Bytes → Walk

unfoldable pub has_control : Bytes → Bool
has_control line = any (λ r. ltb r 0x20) line

abbrev pub is_empty : Bytes → Bool
is_empty [] = true
is_empty (c ∷ line) = false

module _ (json_valid : Bytes → Bool) where
  -- The loop over the parts, with the lines counted and the payload made so far.
  unfoldable pub walk_lines : ℕ → Bytes → List Bytes → Walk
  unfolding has_control
  walk_lines lines out [] = walked lines out
  walk_lines lines out (line ∷ rest) =
      let skipped = walk_lines lines out rest in
      let taken = walk_lines (suc lines) ((out ++ line) ++ newline ∷ []) rest in
      if is_empty line
      then skipped
      else if has_control line
      then stopped (control_character (suc lines))
      else if json_valid line
      then taken
      else stopped (not_json (suc lines))

  unfoldable pub log_lines : Bytes → Bool → Payload
  unfolding walk_lines
  log_lines body single = elim (walk_lines 0 [] (split newline body)) [
    | stopped e ↦ refused e
    | walked lines out ↦
        if lines == 0
        then refused no_json
        else if single && not (lines == 1)
        then refused not_single
        else payload out
  ]

-- The parts of a body that are not empty.
unfoldable pub filled : List Bytes → List Bytes
filled [] = []
filled (line ∷ rest) = let more = filled rest in if is_empty line then more else line ∷ more

unfoldable pub lines_of : Bytes → List Bytes
unfolding filled
lines_of body = filled (split newline body)

-- Each line with a newline behind it.
unfoldable pub unlines : List Bytes → Bytes
unlines [] = []
unlines (line ∷ rest) = line ++ newline ∷ unlines rest

abbrev pub IsPlain : Bytes → Type 0
IsPlain line = any (λ b. b == newline) line ≡ false

module _ (json_valid : Bytes → Bool) where
  -- A line that may be stored: valid JSON on its own, with no control character.
  abbrev pub IsLine : Bytes → Type 0
  IsLine line = (has_control line ≡ false) × (json_valid line ≡ true)

  whole_line :
      (out line rest : Bytes)
      → ((out ++ line) ++ newline ∷ []) ++ rest ≡ out ++ (line ++ newline ∷ rest)
  whole_line out line rest =
      append_assoc (out ++ line) (newline ∷ []) rest ∙ append_assoc out line (newline ∷ rest)

  walk_lines-walked :
      (n total : ℕ) (out whole : Bytes) (parts : List Bytes)
      → walk_lines json_valid n out parts ≡ walked total whole
      → All IsLine (filled parts)
        × (total ≡ n + length (filled parts))
        × (whole ≡ out ++ unlines (filled parts))
  unfolding walk_lines filled unlines
  walk_lines-walked n total out whole [] e = (tt, ground arith, ground (arith, append-nil out))
  walk_lines-walked n total out whole (line ∷ rest) e =
      let more = (out ++ line) ++ newline ∷ [] in
      ground (
        arith,
        walk_lines-walked n total out whole rest,
        walk_lines-walked (suc n) total more whole rest,
        whole_line out line (unlines (filled rest)),
      )

  walk_lines-All :
      (n : ℕ) (out : Bytes) (parts : List Bytes)
      → All IsLine (filled parts)
      → walk_lines json_valid n out parts
        ≡ walked (n + length (filled parts)) (out ++ unlines (filled parts))
  unfolding walk_lines filled unlines
  walk_lines-All n out [] h = ground (arith, append-nil out)
  walk_lines-All n out (line ∷ rest) h =
      let more = (out ++ line) ++ newline ∷ [] in
      ground (
        arith,
        walk_lines-All n out rest,
        walk_lines-All (suc n) more rest,
        whole_line out line (unlines (filled rest)),
      )

  Walk-cases :
      (w : Walk)
      → ((e : LinesError) × (w ≡ stopped e)) ⊎ ((n : ℕ) × (out : Bytes) × (w ≡ walked n out))
  Walk-cases (stopped e) = inl (e, refl)
  Walk-cases (walked n out) = inr (n, out, refl)

  -- As many lines as a body of this kind may have.
  abbrev pub Counts : Bool → ℕ → Type 0
  Counts true n = n ≡ 1
  Counts false n = 0 < n

  -- A body is accepted exactly where each of its parts that is not empty is valid JSON without a
  -- control character, and there is one, and no more than one where a single line is asked for. The
  -- payload is then these parts, in order, each with a newline behind it.
  pub log_lines_iff :
      (body out : Bytes) (single : Bool)
      → (log_lines json_valid body single ≡ payload out) ↔ (
          All IsLine (lines_of body)
          × Counts single (length (lines_of body))
          × (out ≡ unlines (lines_of body)))
  unfolding log_lines lines_of
  log_lines_iff body out single =
      let parts = split newline body in
      (
        λ e. elim (Walk-cases (walk_lines json_valid 0 [] parts)) [
          | inl (x, stops) ↦ absurd (ground arith)
          | inr (n, whole, walks) ↦
              let (lines, counted, made) = walk_lines-walked 0 n [] whole parts walks in
              (lines, elim single [ true ↦ ground arith | false ↦ ground arith ], ground arith)
        ],
        λ h.
            let walks = walk_lines-All 0 [] parts h.0 in
            elim single [ true ↦ ground (arith, walks) | false ↦ ground (arith, walks) ],
      )

split_from-line :
    (part line rest : Bytes)
    → IsPlain line
    → split_from newline part (line ++ newline ∷ rest) ≡ (part ++ line) ∷ split_from newline [] rest
unfolding split_from
split_from-line part [] rest h = ground (arith, append-nil part)
split_from-line part (c ∷ line) rest h =
    ground (arith, split_from-line (part ++ c ∷ []) line rest, append_assoc part (c ∷ []) line)

-- What follows lines with a newline each is split on its own.
split-unlines :
    (lines : List Bytes) (rest : Bytes)
    → All IsPlain lines
    → split newline (unlines lines ++ rest) ≡ lines ++ split newline rest
unfolding split unlines
split-unlines [] rest h = refl
split-unlines (line ∷ lines) rest h =
    ap (split_from newline []) (append_assoc line (newline ∷ unlines lines) rest)
    ∙ split_from-line [] line (unlines lines ++ rest) h.0
    ∙ ap (λ x. line ∷ x) (split-unlines lines rest h.1)

IsPlain-of_control : (line : Bytes) → has_control line ≡ false → IsPlain line
unfolding has_control
IsPlain-of_control [] h = refl
IsPlain-of_control (c ∷ line) h = ground (arith, IsPlain-of_control line)

module _ (json_valid : Bytes → Bool) where
  All-IsPlain : (lines : List Bytes) → All (IsLine json_valid) lines → All IsPlain lines
  All-IsPlain [] h = tt
  All-IsPlain (line ∷ lines) h = (IsPlain-of_control line h.0.0, All-IsPlain lines h.1)

  -- A payload that is appended to a file of whole lines leaves a file that splits into the lines it
  -- had and, behind them, the lines of the body, as they were sent: no body forges a line, joins two
  -- or changes one that stands in the file.
  pub log_lines_roundtrip :
      (before : List Bytes) (body out : Bytes) (single : Bool)
      → All IsPlain before
      → log_lines json_valid body single ≡ payload out
      → split newline (unlines before ++ out) ≡ before ++ (lines_of body ++ [] ∷ [])
  unfolding split
  log_lines_roundtrip before body out single plain e =
      let (lines, _, made) = (log_lines_iff json_valid body out single).0 e in
      let own = split-unlines (lines_of body) [] (All-IsPlain (lines_of body) lines) in
      split-unlines before out plain
      ∙ ap (λ x. before ++ split newline x) (made ∙ sym (append-nil (unlines (lines_of body))))
      ∙ ap (λ x. before ++ x) own
