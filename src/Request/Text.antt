-- ===== src/Request/Text.antt =====
-- The parts of Go's `strings` and `path` packages that the request code relies on, over the bytes of
-- a text: `HasPrefix`, `HasSuffix`, `Split`, `TrimSpace` and `path.Clean` of a rooted path.
use mathlib.Core.List.{reverse}
use synit_waf.Prelude.{
  ℕ, Bool, true, false, ◌&&◌, ◌||◌, List, [], ◌∷◌, ◌++◌, ◌==◌, leb, if◌then◌else◌, ◌≡◌, ◌↔◌, arith,
}

abbrev pub Bytes : Type 0
Bytes = List ℕ

abbrev pub slash : ℕ
slash = b'/'

unfoldable pub bytes_eq : Bytes → Bytes → Bool
bytes_eq [] [] = true
bytes_eq [] (b ∷ t) = false
bytes_eq (a ∷ s) [] = false
bytes_eq (a ∷ s) (b ∷ t) = a == b && bytes_eq s t

unfoldable pub has_prefix : Bytes → Bytes → Bool
has_prefix text [] = true
has_prefix [] (p ∷ prefix) = false
has_prefix (c ∷ text) (p ∷ prefix) = c == p && has_prefix text prefix

-- `strings.HasSuffix(text, "/")`.
unfoldable pub ends_with_slash : Bytes → Bool
ends_with_slash [] = false
ends_with_slash (c ∷ []) = c == slash
ends_with_slash (c ∷ d ∷ text) = ends_with_slash (d ∷ text)

-- `strings.Split` at one byte, with the part read so far.
unfoldable pub split_from : ℕ → Bytes → Bytes → List Bytes
split_from sep part [] = part ∷ []
split_from sep part (c ∷ text) =
    let closed = split_from sep [] text in
    let longer = split_from sep (part ++ c ∷ []) text in if c == sep then part ∷ closed else longer

unfoldable pub split : ℕ → Bytes → List Bytes
unfolding split_from
split sep text = split_from sep [] text

-- The white space of Unicode: of one byte, and in UTF-8 of two and of three.
unfoldable pub space1 : ℕ → Bool
space1 a = a == 32 || (leb 9 a && leb a 13)

unfoldable pub space2 : ℕ → ℕ → Bool
space2 a b = a == 0xc2 && (b == 0x85 || b == 0xa0)

unfoldable pub space3 : ℕ → ℕ → ℕ → Bool
space3 a b c =
    (a == 0xe1 && b == 0x9a && c == 0x80)
    || (a == 0xe2
        && b == 0x80
        && ((leb 0x80 c && leb c 0x8a) || c == 0xa8 || c == 0xa9 || c == 0xaf))
    || (a == 0xe2 && b == 0x81 && c == 0x9f)
    || (a == 0xe3 && b == 0x80 && c == 0x80)

-- `strings.TrimLeft` of white space; `flip` reads a text from its end.
unfoldable pub trim_left : Bool → Bytes → Bytes
unfolding space1 space2 space3
trim_left flip [] = []
trim_left flip (a ∷ []) = if space1 a then [] else a ∷ []
trim_left flip (a ∷ b ∷ []) =
    if space1 a
    then (if space1 b then [] else b ∷ [])
    else if (if flip then space2 b a else space2 a b)
    then []
    else a ∷ b ∷ []
trim_left flip (a ∷ b ∷ c ∷ rest) =
    let one = trim_left flip (b ∷ c ∷ rest) in
    let two = trim_left flip (c ∷ rest) in
    let three = trim_left flip rest in
    if space1 a
    then one
    else if (if flip then space2 b a else space2 a b)
    then two
    else if (if flip then space3 c b a else space3 a b c)
    then three
    else a ∷ b ∷ c ∷ rest

unfoldable pub trim_space : Bytes → Bytes
unfolding trim_left
trim_space text = reverse (trim_left true (reverse (trim_left false text)))

-- One part of a path under `path.Clean`; the stack has the last part at its head.
unfoldable pub resolve : List Bytes → Bytes → List Bytes
unfolding bytes_eq
resolve stack part =
    if bytes_eq part [] || bytes_eq part (b'.' ∷ [])
    then stack
    else if bytes_eq part (b'.' ∷ b'.' ∷ [])
    then (elim stack [ [] ↦ [] | last ∷ rest ↦ rest ])
    else part ∷ stack

unfoldable pub resolve_all : List Bytes → List Bytes → List Bytes
resolve_all stack [] = reverse stack
resolve_all stack (part ∷ parts) = resolve_all (resolve stack part) parts

-- A rooted path of these parts, "/" for none.
unfoldable pub render : List Bytes → Bytes
render [] = []
render (part ∷ parts) = slash ∷ (part ++ render parts)

-- The parts of `path.Clean("/" + text)`, and the path that it gives.
unfoldable pub clean_parts : Bytes → List Bytes
unfolding split resolve_all resolve
clean_parts text = resolve_all [] (split slash text)

unfoldable pub clean : Bytes → Bytes
unfolding clean_parts render
clean text = elim (clean_parts text) [ [] ↦ slash ∷ [] | part ∷ parts ↦ render (part ∷ parts) ]

pub bytes_eq_iff : (a b : Bytes) → (bytes_eq a b ≡ true) ↔ (a ≡ b)
unfolding bytes_eq
bytes_eq_iff [] [] = ground arith
bytes_eq_iff [] (y ∷ b) = ground arith
bytes_eq_iff (x ∷ a) [] = ground arith
bytes_eq_iff (x ∷ a) (y ∷ b) = ground (arith, bytes_eq_iff a b)
