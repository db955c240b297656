-- ===== src/Graphql/Balance.antt =====
-- What the nesting depth says: no parser that keeps one level for each open brace or bracket is ever
-- deeper in the query.
use synit_waf.Prelude.{
  ℕ, zero, suc, ◌≤◌, max, false, List, [], ◌∷◌, ◌++◌, ◌==◌, ◌&&◌, leb, leb→le, Bool-cases, ap, sym,
  ◌∙◌, ◌≡◌, refl, ◌⊎◌, inl, inr, arith,
}
use synit_waf.Graphql.Nesting.{
  quote, backslash, two_quotes, Mode, plain, comment, quoted, block, move, depth_behind, nest,
  graphql_nesting_depth,
}

-- The bytes of a query that stand in plain text, outside strings and comments.
unfoldable pub visible : ℕ → Mode → List ℕ → List ℕ
visible skip mode [] = []
visible (suc skip) mode (c ∷ rest) = visible skip mode rest
visible zero plain (c ∷ rest) = c ∷ visible (move plain c rest).skip (move plain c rest).mode rest
visible zero mode (c ∷ rest) = visible (move mode c rest).skip (move mode c rest).mode rest

-- The level that a stack of open braces and brackets has behind a text.
unfoldable pub level : ℕ → List ℕ → ℕ
level depth [] = depth
level depth (c ∷ rest) = level (depth_behind plain c depth) rest

-- The highest level that the stack reaches.
pub peak : ℕ → ℕ → List ℕ → ℕ
peak depth deepest [] = deepest
peak depth deepest (c ∷ rest) =
    peak (depth_behind plain c depth) (max deepest (depth_behind plain c depth)) rest

nest-peak :
    (skip : ℕ) (mode : Mode) (depth deepest : ℕ) (query : List ℕ)
    → depth ≤ deepest
    → nest skip mode depth deepest query ≡ peak depth deepest (visible skip mode query)
unfolding nest visible peak
nest-peak skip mode depth deepest [] h = refl
nest-peak (suc skip) mode depth deepest (c ∷ rest) h = nest-peak skip mode depth deepest rest h
nest-peak zero plain depth deepest (c ∷ rest) h =
    nest-peak _ _ (depth_behind plain c depth) (max deepest (depth_behind plain c depth)) rest
      (omega arith)
nest-peak zero comment depth deepest (c ∷ rest) h =
    let same : max deepest depth ≡ deepest = omega arith in
    rw same (nest-peak _ _ depth deepest rest h)
nest-peak zero quoted depth deepest (c ∷ rest) h =
    let same : max deepest depth ≡ deepest = omega arith in
    rw same (nest-peak _ _ depth deepest rest h)
nest-peak zero block depth deepest (c ∷ rest) h =
    let same : max deepest depth ≡ deepest = omega arith in
    rw same (nest-peak _ _ depth deepest rest h)

le-peak : (depth deepest : ℕ) (text : List ℕ) → deepest ≤ peak depth deepest text
unfolding peak
le-peak depth deepest [] = omega arith
le-peak depth deepest (c ∷ rest) =
    omega
      (arith, le-peak (depth_behind plain c depth) (max deepest (depth_behind plain c depth)) rest)

level-le-peak :
    (depth deepest : ℕ) (before after : List ℕ)
    → depth ≤ deepest
    → level depth before ≤ peak depth deepest (before ++ after)
unfolding peak level
level-le-peak depth deepest [] after h = omega (arith, le-peak depth deepest after)
level-le-peak depth deepest (c ∷ before) after h =
    level-le-peak (depth_behind plain c depth) (max deepest (depth_behind plain c depth)) before
      after (omega arith)

-- A part of a text up to which the stack rises to a height.
abbrev pub Reaches : ℕ → List ℕ → ℕ → Type 0
Reaches depth text height =
    (before : List ℕ) × (after : List ℕ) × (text ≡ before ++ after) × (level depth before ≡ height)

Reaches-cons :
    (c depth height : ℕ) (text : List ℕ)
    → Reaches (depth_behind plain c depth) text height
    → Reaches depth (c ∷ text) height
unfolding level
Reaches-cons c depth height text (before, after, split, high) =
    (c ∷ before, after, ap (λ (t : List ℕ). c ∷ t) split, high)

-- The highest level is the mark that the walk starts with, or that of some part of the text.
peak-Reaches :
    (depth deepest : ℕ) (text : List ℕ)
    → (peak depth deepest text ≡ deepest) ⊎ Reaches depth text (peak depth deepest text)
unfolding peak level
peak-Reaches depth deepest [] = inl refl
peak-Reaches depth deepest (c ∷ rest) =
    let depth' = depth_behind plain c depth in
    elim (peak-Reaches depth' (max deepest depth') rest) [
      | inr part ↦ inr (Reaches-cons c depth _ rest part)
      | inl still ↦ elim (Bool-cases (leb depth' deepest)) [
        | inl low ↦ inl (still ∙ omega (arith, leb→le _ _ low))
        | inr high ↦
            let top : max deepest depth' ≡ depth' = ground arith in
            inr (c ∷ [], rest, refl, sym (still ∙ top))
      ]
    ]

-- A stack of the open braces and brackets of a query never rises above the query's nesting depth: it
-- does not behind any part, from the start, of the visible text.
pub graphql_nesting_depth_bounds :
    (query before after : List ℕ)
    → visible 0 plain query ≡ before ++ after
    → level 0 before ≤ graphql_nesting_depth query
unfolding graphql_nesting_depth
graphql_nesting_depth_bounds query before after split =
    rw (nest-peak 0 plain 0 0 query (omega arith), split)
      (level-le-peak 0 0 before after (omega arith))

-- A stack of the open braces and brackets of a query reaches the query's nesting depth behind some
-- part, from the start, of the visible text.
pub graphql_nesting_depth_reached :
    (query : List ℕ) → Reaches 0 (visible 0 plain query) (graphql_nesting_depth query)
unfolding graphql_nesting_depth level
graphql_nesting_depth_reached query =
    let same = nest-peak 0 plain 0 0 query (omega arith) in
    elim (peak-Reaches 0 0 (visible 0 plain query)) [
      | inr part ↦ rw same part
      | inl still ↦ ([], visible 0 plain query, refl, sym (same ∙ still))
    ]

-- A text in which no three quotes stand in a row.
abbrev pub NoTriple : List ℕ → Type 0
NoTriple [] = Unit {0}
NoTriple (c ∷ rest) = ((c == quote && two_quotes rest) ≡ false) × NoTriple rest

nest-NoTriple :
    (depth deepest : ℕ) (tail : List ℕ)
    → depth ≤ deepest
    → NoTriple tail
    → nest 0 block depth deepest tail ≡ deepest
unfolding nest
nest-NoTriple depth deepest [] h n = refl
nest-NoTriple depth deepest (c ∷ rest) h n = ground (arith, nest-NoTriple depth deepest rest h n.1)

-- A block string that holds an escaped `"""`, and then one that holds nothing: {a(x:"""\""""""
abbrev pub escaped_block : List ℕ
escaped_block =
    b'{' ∷ b'a' ∷ b'(' ∷ b'x' ∷ b':' ∷ quote ∷ quote ∷ quote ∷ backslash ∷ quote ∷ quote ∷ quote
    ∷ quote ∷ quote ∷ quote ∷ []

-- The walk takes an escaped `"""` in a block string for its end, and the true end for the start of
-- the next one. What follows is then counted as string: whatever braces a rest without `"""` opens,
-- the depth stays 1.
pub graphql_nesting_depth_escaped :
    (tail : List ℕ) → NoTriple tail → graphql_nesting_depth (escaped_block ++ tail) ≡ 1
unfolding graphql_nesting_depth
graphql_nesting_depth_escaped tail n = nest-NoTriple 1 1 tail (omega arith) n
