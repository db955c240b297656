-- ===== src/Prelude/Maps.antt =====
-- Dictionaries with text keys as association lists, under the library's names. The order of a list
-- is the order in which the program's map happens to be walked.
use Prim.Native.Nat.{suc, ◌≤◌, ◌<◌}
use Prim.Native.String.{String}
use mathlib.Core.Path.{◌≡◌, refl}
use mathlib.Core.Logic.{◌≢◌}
use mathlib.Core.Option.{Option, none, some}
use mathlib.Core.List.{List, [], ◌∷◌}
use native.Mathlib.Omega.{arith}
use text.Mathlib.Text.{◌==◌}
use text.Mathlib.TextEquality.{eq_iff}
use synit_waf.Prelude.Tests.{if◌then◌else◌}
use synit_waf.Prelude.Lists.{length}

module _ {ℓ} {V : Type ℓ} where
  unfoldable pub lookup : String → List (String × V) → Option V
  lookup key [] = none
  lookup key ((name, x) ∷ dict) = if name == key then some x else lookup key dict

  unfoldable pub insert : String → V → List (String × V) → List (String × V)
  insert key x [] = (key, x) ∷ []
  insert key x ((name, old) ∷ dict) =
      if name == key then (key, x) ∷ dict else (name, old) ∷ insert key x dict

  unfoldable pub delete : String → List (String × V) → List (String × V)
  delete key [] = []
  delete key ((name, old) ∷ dict) =
      if name == key then delete key dict else (name, old) ∷ delete key dict

  pub lookup-insert :
      (key name : String) (x : V) (dict : List (String × V))
      → lookup name (insert key x dict) ≡ (if key == name then some x else lookup name dict)
  unfolding lookup insert
  lookup-insert key name x [] = refl
  lookup-insert key name x ((head, old) ∷ dict) =
      ground
        (arith, eq_iff key name, eq_iff head key, eq_iff head name, lookup-insert key name x dict)

  pub lookup-delete :
      (key name : String) (dict : List (String × V))
      → lookup name (delete key dict) ≡ (if key == name then none else lookup name dict)
  unfolding lookup delete
  lookup-delete key name [] = ground arith
  lookup-delete key name ((head, old) ∷ dict) =
      ground
        (arith, eq_iff key name, eq_iff head key, eq_iff head name, lookup-delete key name dict)

  pub length-insert :
      (key : String) (x : V) (dict : List (String × V))
      → length (insert key x dict) ≤ suc (length dict)
  unfolding insert
  length-insert key x [] = omega arith
  length-insert key x ((name, old) ∷ dict) = ground (arith, length-insert key x dict)

  pub length-insert_present :
      (key : String) (x : V) (dict : List (String × V))
      → lookup key dict ≢ none
      → length (insert key x dict) ≡ length dict
  unfolding lookup insert
  length-insert_present key x [] h = absurd (h refl)
  length-insert_present key x ((name, old) ∷ dict) h =
      ground (arith, length-insert_present key x dict)

  pub length-delete :
      (key : String) (dict : List (String × V)) → length (delete key dict) ≤ length dict
  unfolding delete
  length-delete key [] = omega arith
  length-delete key ((name, old) ∷ dict) = ground (arith, length-delete key dict)

  pub length-delete_present :
      (key : String) (dict : List (String × V))
      → lookup key dict ≢ none
      → length (delete key dict) < length dict
  unfolding lookup delete
  length-delete_present key [] h = absurd (h refl)
  length-delete_present key ((name, old) ∷ dict) h =
      ground (arith, length-delete key dict, length-delete_present key dict)

  -- Each key stands once, so that the length of the list is the size of the map.
  abbrev pub Distinct : List (String × V) → Type ℓ
  Distinct [] = Unit
  Distinct ((key, x) ∷ dict) = (lookup key dict ≡ none) × Distinct dict

  pub Distinct-insert :
      (key : String) (x : V) (dict : List (String × V))
      → Distinct dict
      → Distinct (insert key x dict)
  unfolding lookup insert
  Distinct-insert key x [] d = (refl, tt)
  Distinct-insert key x ((name, old) ∷ dict) d = ground (
    arith,
    eq_iff name key,
    eq_iff key name,
    lookup-insert key name x dict,
    Distinct-insert key x dict d.1,
  )

  pub Distinct-delete :
      (key : String) (dict : List (String × V)) → Distinct dict → Distinct (delete key dict)
  unfolding lookup delete
  Distinct-delete key [] d = tt
  Distinct-delete key ((name, old) ∷ dict) d = ground (
    arith,
    eq_iff name key,
    eq_iff key name,
    lookup-delete key name dict,
    Distinct-delete key dict d.1,
  )
