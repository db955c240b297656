-- ===== src/Config/Faults.antt =====
-- The guards of internal/waf/config_validation.go in a row: the first that fails is the error. A fault
-- names the setting that the message is about.
use synit_waf.Prelude.{
  ℕ, Bool, true, false, not, ◌||◌, ◌&&◌, String, Option, none, some, List, [], ◌∷◌, All, ℤ, pos,
  negsuc, any, str_eq, ltb, leb, if◌then◌else◌, ◌≡◌, refl, ◌==◌,
}
use synit_waf.Request.Text.{has_prefix}
use synit_waf.Config.{Go}

pub data Fault : Type 0 where
  global : String → Fault
  of_tenant : String → String → Fault

-- `if bad { return fault }`.
abbrev pub check : Bool → Fault → Option Fault
check true fault = some fault
check false fault = none

abbrev pub first_fault : List (Option Fault) → Option Fault
first_fault [] = none
first_fault (some fault ∷ faults) = some fault
first_fault (none ∷ faults) = first_fault faults

-- Guards under a condition.
abbrev pub when : Bool → List (Option Fault) → Option Fault
when true faults = first_fault faults
when false faults = none

-- A loop over guards.
abbrev pub each {ℓ} : {A : Type ℓ} → (A → Option Fault) → List A → Option Fault
each f [] = none
each f (x ∷ xs) = first_fault (f x ∷ each f xs ∷ [])

abbrev pub is_on : Option Bool → Bool
is_on none = false
is_on (some b) = b

abbrev pub negative : ℤ → Bool
negative (pos n) = false
negative (negsuc n) = true

abbrev pub is_zero : ℤ → Bool
is_zero (pos n) = n == 0
is_zero (negsuc n) = false

abbrev pub positive : ℤ → Bool
positive (pos n) = ltb 0 n
positive (negsuc n) = false

-- `low <= n && n <= high`.
abbrev pub within : ℕ → ℕ → ℤ → Bool
within low high (pos n) = leb low n && leb n high
within low high (negsuc n) = false

abbrev pub contains : List String → String → Bool
contains xs s = any (λ x. str_eq x s) xs

module _ (go : Go) where
  abbrev pub blank : String → Bool
  blank s = str_eq (go.trim s) ""

  abbrev pub normal : String → String
  normal s = go.lower (go.trim s)

  unfoldable pub normalize_oversize_action : String → String
  normalize_oversize_action action =
      let normalized = normal action in if str_eq normalized "" then "reject" else normalized

  unfoldable pub normalize_dependency_fail_mode : String → String
  normalize_dependency_fail_mode mode =
      let normalized = normal mode in if str_eq normalized "" then "fail_open" else normalized

  -- True where the URL is refused.
  unfoldable pub refuses_service_url : String → Bool → Bool
  refuses_service_url raw allow_insecure = elim (go.parse_url (go.trim raw)) [
    | none ↦ true
    | some u ↦
        if u.has_user || str_eq u.hostname ""
        then true
        else if str_eq u.scheme "https"
        then false
        else if not (str_eq u.scheme "http")
        then true
        else not
            (allow_insecure || go.equal_fold u.hostname "localhost" || go.is_loopback u.hostname)
  ]

  unfoldable pub refuses_rune : ℕ → Bool
  refuses_rune r = r == 0x22 || r == 0x27 || r == 0x5c || go.is_space r || go.is_control r

  -- True where a path is refused.
  unfoldable pub refuses_path : String → Bool
  unfolding refuses_rune
  refuses_path path =
      not (has_prefix (go.bytes path) (b'/' ∷ [])) || any refuses_rune (go.runes path)

  unfoldable pub validate_inspection_paths : Fault → List String → Option Fault
  unfolding refuses_path
  validate_inspection_paths fault paths = each (λ path. check (refuses_path path) fault) paths

  unfoldable pub is_representation_header : String → Bool
  is_representation_header key =
      contains
        ("Content-Type" ∷ "Content-Encoding" ∷ "Content-Length" ∷ "Content-Range" ∷ "Accept-Ranges"
          ∷ "Etag" ∷ "Last-Modified" ∷ [])
        (go.canonical_header (go.trim key))

-- Where no guard fails, none of them does.
pub first_fault-none :
    (faults : List (Option Fault)) → first_fault faults ≡ none → All (λ x. x ≡ none) faults
first_fault-none [] e = tt
first_fault-none (some fault ∷ faults) e = absurd (cc)
first_fault-none (none ∷ faults) e = (refl, first_fault-none faults e)

pub check-none : (bad : Bool) (fault : Fault) → check bad fault ≡ none → bad ≡ false
check-none true fault e = absurd (cc)
check-none false fault e = refl

pub when-none :
    (on : Bool) (faults : List (Option Fault))
    → when on faults ≡ none
    → on ≡ true
    → All (λ x. x ≡ none) faults
when-none true faults e h = first_fault-none faults e
when-none false faults e h = absurd (cc)

pub each-none {ℓ} :
    {A : Type ℓ} (f : A → Option Fault) (xs : List A) → each f xs ≡ none → All (λ x. f x ≡ none) xs
each-none f [] e = tt
each-none f (x ∷ xs) e =
    let h = first_fault-none (f x ∷ each f xs ∷ []) e in (h.0, each-none f xs h.1.0)
