-- ===== src/Graphql/Document.antt =====
-- The parsed document of internal/waf/graphql.go, and the two walks over its selections.
--
-- The syntax tree is the parser's (github.com/graphql-go): here its selection sets are lists with a
-- constructor for each kind of selection. A set that is missing is `none_left`: for it both walks
-- give what they give for a set with no selections. `visiting` holds a name exactly while its
-- fragment is walked, so it is handed down as a list. Fuel counts nested spreads.
use synit_waf.Prelude.{
  ℕ, zero, suc, max, Bool, true, false, ◌||◌, String, Option, none, some, List, [], ◌∷◌, length,
  str_eq, if◌then◌else◌, lookup, insert,
}

pub data SelectionSet : Type 0 where
  none_left : SelectionSet
  field : Option String → SelectionSet → SelectionSet → SelectionSet
  inline_fragment : SelectionSet → SelectionSet → SelectionSet
  fragment_spread : Option String → SelectionSet → SelectionSet

pub data DocumentError : Type 0 where
  invalid_spread : DocumentError
  unknown_fragment fragment_cycle : String → DocumentError

-- `out_of_fuel` is no result of the program.
pub data Result {ℓ} (A : Type ℓ) : Type ℓ where
  ok : A → Result A
  err : DocumentError → Result A
  out_of_fuel : Result A

infixl 5 ◌>>=◌
abbrev pub ◌>>=◌ {ℓ κ} : {A : Type ℓ} {B : Type κ} → Result A → (A → Result B) → Result B
ok a >>= f = f a
err e >>= f = err e
out_of_fuel >>= f = out_of_fuel

abbrev pub Fragments : Type 0
Fragments = List (String × SelectionSet)

pub data Definition : Type 0 where
  operation : SelectionSet → Definition
  fragment : Option String → SelectionSet → Definition
  other : Definition

-- `newGraphQLDocument`: a later fragment takes the place of an earlier one of its name.
unfoldable pub index_fragments : Fragments → List Definition → Fragments
index_fragments known [] = known
index_fragments known (fragment (some name) set ∷ rest) =
    index_fragments (insert name set known) rest
index_fragments known (_ ∷ rest) = index_fragments known rest

unfoldable pub is_visiting : String → List String → Bool
is_visiting name [] = false
is_visiting name (v ∷ vs) = str_eq v name || is_visiting name vs

-- `selectionDepth`, at what a spread of a fragment gives.
unfoldable pub walk_depth : (String → Result ℕ) → SelectionSet → Result ℕ
walk_depth spread none_left = ok 0
walk_depth spread (field name set rest) = do
  child ← walk_depth spread set
  deepest ← walk_depth spread rest
  ok (max (suc child) deepest)
walk_depth spread (inline_fragment set rest) = do
  depth ← walk_depth spread set
  deepest ← walk_depth spread rest
  ok (max depth deepest)
walk_depth spread (fragment_spread none rest) = err invalid_spread
walk_depth spread (fragment_spread (some name) rest) = do
  depth ← spread name
  deepest ← walk_depth spread rest
  ok (max depth deepest)

-- `hasIntrospection`, likewise: the walk stops at the first field that it looks for.
abbrev pub or_else : Result Bool → Result Bool → Result Bool
or_else (ok true) rest = ok true
or_else (ok false) rest = rest
or_else (err e) rest = err e
or_else out_of_fuel rest = out_of_fuel

unfoldable pub is_introspection : Option String → Bool
is_introspection none = false
is_introspection (some name) = str_eq name "__schema" || str_eq name "__type"

unfoldable pub walk_introspection : (String → Result Bool) → SelectionSet → Result Bool
unfolding is_introspection
walk_introspection spread none_left = ok false
walk_introspection spread (field name set rest) =
    or_else (if is_introspection name then ok true else walk_introspection spread set)
      (walk_introspection spread rest)
walk_introspection spread (inline_fragment set rest) =
    or_else (walk_introspection spread set) (walk_introspection spread rest)
walk_introspection spread (fragment_spread none rest) = err invalid_spread
walk_introspection spread (fragment_spread (some name) rest) =
    or_else (spread name) (walk_introspection spread rest)

module _ {A : Type 0} (walk : (String → Result A) → SelectionSet → Result A)
    (known : Fragments) where
  -- A spread: the fragment is looked up, a fragment that is being walked is a cycle, and else its
  -- set is walked with its name held.
  unfoldable pub expand : ℕ → List String → String → Result A
  expand zero visiting name = out_of_fuel
  expand (suc fuel) visiting name = elim (lookup name known) [
    | none ↦ err (unknown_fragment name)
    | some set ↦
        if is_visiting name visiting
        then err (fragment_cycle name)
        else walk (expand fuel (name ∷ visiting)) set
  ]

-- Fuel for one more spread than there are fragments is enough.
unfoldable pub selection_depth : Fragments → SelectionSet → Result ℕ
selection_depth known set = walk_depth (expand walk_depth known (suc (length known)) []) set

unfoldable pub has_introspection : Fragments → SelectionSet → Result Bool
has_introspection known set =
    walk_introspection (expand walk_introspection known (suc (length known)) []) set
