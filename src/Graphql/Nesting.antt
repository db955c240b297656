-- ===== src/Graphql/Nesting.antt =====
-- `graphQLNestingDepth` of internal/waf/graphql.go: the deepest nesting of braces and brackets in a
-- query, strings and comments left out, found in one walk over its bytes.
use synit_waf.Prelude.{
  ℕ, zero, suc, ◌-◌, max, Bool, false, ◌&&◌, ◌||◌, List, [], ◌∷◌, ◌==◌, if◌then◌else◌,
}

-- Where the walk stands: in plain text, behind `#`, in a string, or in a block string.
pub data Mode : Type 0 where
  plain comment quoted block : Mode

abbrev pub newline : ℕ
newline = 10

abbrev pub backslash : ℕ
backslash = 92

abbrev pub quote : ℕ
quote = 34

unfoldable pub opens : ℕ → Bool
opens c = c == b'{' || c == b'['

unfoldable pub closes : ℕ → Bool
closes c = c == b'}' || c == b']'

-- The next two bytes are quotes: with the one before them, `"""`.
unfoldable pub two_quotes : List ℕ → Bool
two_quotes [] = false
two_quotes (a ∷ []) = false
two_quotes (a ∷ b ∷ rest) = a == quote && b == quote

-- The mode behind a byte, and how many bytes after it are passed over unread.
pub record Move : Type 0 where
  pub mode : Mode
  pub skip : ℕ

unfoldable pub move : Mode → ℕ → List ℕ → Move
unfolding two_quotes
move plain c rest =
    if c == b'#'
    then (record { mode = comment; skip = 0 })
    else if c == quote && two_quotes rest
    then (record { mode = block; skip = 2 })
    else if c == quote
    then (record { mode = quoted; skip = 0 })
    else (record { mode = plain; skip = 0 })
move comment c rest = record { mode = if c == newline then plain else comment; skip = 0 }
move quoted c rest =
    if c == quote || c == newline
    then (record { mode = plain; skip = 0 })
    else (record { mode = quoted; skip = if c == backslash then 1 else 0 })
move block c rest =
    if c == quote && two_quotes rest
    then (record { mode = plain; skip = 2 })
    else (record { mode = block; skip = 0 })

-- The loop's `depth` behind a byte of plain text.
unfoldable pub depth_behind : Mode → ℕ → ℕ → ℕ
unfolding opens closes
depth_behind plain c depth = if opens c then suc depth else if closes c then depth - 1 else depth
depth_behind _ c depth = depth

unfoldable pub nest : ℕ → Mode → ℕ → ℕ → List ℕ → ℕ
unfolding move depth_behind
nest skip mode depth deepest [] = deepest
nest (suc skip) mode depth deepest (c ∷ rest) = nest skip mode depth deepest rest
nest zero mode depth deepest (c ∷ rest) =
    let depth' = depth_behind mode c depth in
    let next = move mode c rest in nest next.skip next.mode depth' (max deepest depth') rest

unfoldable pub graphql_nesting_depth : List ℕ → ℕ
unfolding nest
graphql_nesting_depth query = nest 0 plain 0 0 query
