-- ===== src/Request/Clean.antt =====
-- A control bound to a path prefix sees every spelling of the paths below it.
use mathlib.Core.List.{reverse_aux, append_assoc}
use synit_waf.Prelude.{
  ℕ, true, List, [], ◌∷◌, ◌++◌, length, length-append, All, ◌==◌, ◌≡◌, refl, sym, ap, ◌∙◌, ◌≢◌, ◌↔◌,
  ◌⊎◌, inl, inr, arith, Bool-cases,
}
use synit_waf.Request.Text.{
  Bytes, slash, bytes_eq, has_prefix, ends_with_slash, split_from, split, resolve, resolve_all,
  render, clean_parts, clean,
}
use synit_waf.Request.Paths.{slash_at, path_has_prefix, path_matches_any}

has_prefix_split :
    (url prefix : Bytes) → has_prefix url prefix ≡ true → (rest : Bytes) × (url ≡ prefix ++ rest)
unfolding has_prefix
has_prefix_split url [] h = (url, refl)
has_prefix_split [] (p ∷ prefix) h = absurd (cc)
has_prefix_split (c ∷ url) (p ∷ prefix) h = elim (Bool-cases (has_prefix url prefix)) [
  | inl more ↦ let (rest, e) = has_prefix_split url prefix more in (rest, ground arith)
  | inr less ↦ absurd (ground arith)
]

has_prefix-append : (prefix rest : Bytes) → has_prefix (prefix ++ rest) prefix ≡ true
unfolding has_prefix
has_prefix-append [] [] = refl
has_prefix-append [] (c ∷ rest) = refl
has_prefix-append (p ∷ prefix) rest = ground (arith, has_prefix-append prefix rest)

slash_at-append : (prefix rest : Bytes) → slash_at (prefix ++ rest) prefix ≡ slash_at rest []
unfolding slash_at
slash_at-append [] rest = refl
slash_at-append (p ∷ prefix) rest = slash_at-append prefix rest

-- The rest of a path is empty or begins with a slash.
abbrev pub IsBoundary : Bytes → Type 0
IsBoundary rest = (rest ≡ []) ⊎ ((tail : Bytes) × (rest ≡ slash ∷ tail))

slash_at-nil : (rest : Bytes) → slash_at rest [] ≡ true → (tail : Bytes) × (rest ≡ slash ∷ tail)
unfolding slash_at
slash_at-nil [] h = absurd (cc)
slash_at-nil (c ∷ rest) h = (rest, ground arith)

nil_of_length : (prefix rest : Bytes) → length (prefix ++ rest) ≡ length prefix → rest ≡ []
nil_of_length prefix [] h = refl
nil_of_length prefix (c ∷ rest) h = absurd (omega (arith, length-append prefix (c ∷ rest)))

path_has_prefix-append :
    (prefix rest : Bytes)
    → IsBoundary rest ⊎ (ends_with_slash prefix ≡ true)
    → path_has_prefix (prefix ++ rest) prefix ≡ true
unfolding path_has_prefix
path_has_prefix-append prefix [] b =
    let same : length (prefix ++ []) ≡ length prefix = omega (arith, length-append prefix []) in
    ground (arith, has_prefix-append prefix [])
path_has_prefix-append prefix (c ∷ rest) (inl (inl empty)) = absurd (cc)
path_has_prefix-append prefix (c ∷ rest) (inl (inr (tail, e))) =
    let at_slash : slash_at (c ∷ rest) [] ≡ true = ground arith in
    ground (arith, has_prefix-append prefix (c ∷ rest), slash_at-append prefix (c ∷ rest))
path_has_prefix-append prefix (c ∷ rest) (inr ends) =
    ground (arith, has_prefix-append prefix (c ∷ rest))

path_has_prefix_rest :
    (url prefix : Bytes)
    → path_has_prefix url prefix ≡ true
    → (rest : Bytes) × (url ≡ prefix ++ rest) × (IsBoundary rest ⊎ (ends_with_slash prefix ≡ true))
unfolding path_has_prefix
path_has_prefix_rest url prefix h =
    let starts : has_prefix url prefix ≡ true = ground arith in
    let (rest, e) = has_prefix_split url prefix starts in
    (
      rest,
      e,
      elim (Bool-cases (ends_with_slash prefix)) [
        | inl ends ↦ inr ends
        | inr open_end ↦ inl (elim (Bool-cases (length url == length prefix)) [
          | inl same ↦ inl (nil_of_length prefix rest (ground arith))
          | inr longer ↦ inr (slash_at-nil rest (ground (arith, slash_at-append prefix rest)))
        ])
      ],
    )

-- A path falls under a prefix exactly when it continues it at the end of a path segment.
pub path_has_prefix_iff :
    (url prefix : Bytes)
    → (path_has_prefix url prefix ≡ true) ↔ (
        (rest : Bytes) × (url ≡ prefix ++ rest)
        × (IsBoundary rest ⊎ (ends_with_slash prefix ≡ true)))
path_has_prefix_iff url prefix =
    (path_has_prefix_rest url prefix, λ (rest, e, b). rw e (path_has_prefix-append prefix rest b))

render-append : (ps qs : List Bytes) → render (ps ++ qs) ≡ render ps ++ render qs
unfolding render
render-append [] qs = refl
render-append (p ∷ ps) qs =
    ap (λ (t : Bytes). slash ∷ t)
      (ap (λ (t : Bytes). p ++ t) (render-append ps qs)
        ∙ sym (append_assoc p (render ps) (render qs)))

render-IsBoundary : (ps : List Bytes) → IsBoundary (render ps)
unfolding render
render-IsBoundary [] = inl refl
render-IsBoundary (p ∷ ps) = inr (p ++ render ps, refl)

path_matches_any-append :
    (before after : List Bytes) (prefix url : Bytes)
    → path_has_prefix (clean url) prefix ≡ true
    → path_matches_any (before ++ prefix ∷ after) url ≡ true
unfolding path_matches_any
path_matches_any-append [] after prefix url h = ground arith
path_matches_any-append (p ∷ before) after prefix url h =
    ground (arith, path_matches_any-append before after prefix url h)

-- However a path is spelled, with empty parts, `.` and `..`: if its parts, resolved, begin with the
-- parts of a configured prefix, the control bound to that prefix applies.
pub path_matches_any_resolved :
    (part : Bytes) (parts more before after : List Bytes) (url : Bytes)
    → clean_parts url ≡ (part ∷ parts) ++ more
    → path_matches_any (before ++ render (part ∷ parts) ∷ after) url ≡ true
unfolding clean
path_matches_any_resolved part parts more before after url e =
    path_matches_any-append before after (render (part ∷ parts)) url (
      rw (e, clean, render-append (part ∷ parts) more)
        (path_has_prefix-append (render (part ∷ parts)) (render more)
          (inl (render-IsBoundary more))))

-- A part that stands for itself in a path: not empty, not `.` or `..`, and without a slash.
abbrev pub NoSlash : Bytes → Type 0
NoSlash = All (λ c. c ≢ slash)

pub record IsPlain (part : Bytes) : Type 0 where
  pub filled : part ≢ []
  pub not_dot : part ≢ b'.' ∷ []
  pub not_dots : part ≢ b'.' ∷ b'.' ∷ []
  pub whole : NoSlash part

bytes_eq_iff : (s t : Bytes) → (bytes_eq s t ≡ true) ↔ (s ≡ t)
unfolding bytes_eq
bytes_eq_iff [] [] = (λ _. refl, λ _. refl)
bytes_eq_iff [] (b ∷ t) = (λ e. absurd (cc), λ e. absurd (cc))
bytes_eq_iff (a ∷ s) [] = (λ e. absurd (cc), λ e. absurd (cc))
bytes_eq_iff (a ∷ s) (b ∷ t) = let ih = bytes_eq_iff s t in (λ e. ground arith, λ e. ground arith)

All-concat : (part : Bytes) (c : ℕ) → NoSlash part → c ≢ slash → NoSlash (part ++ c ∷ [])
All-concat [] c h p = (p, tt)
All-concat (d ∷ part) c h p = (h.0, All-concat part c h.1 p)

split_from-NoSlash : (part text : Bytes) → NoSlash part → All NoSlash (split_from slash part text)
unfolding split_from
split_from-NoSlash part [] h = (h, tt)
split_from-NoSlash part (c ∷ text) h = ground (
  arith,
  split_from-NoSlash [] text tt,
  split_from-NoSlash (part ++ c ∷ []) text,
  All-concat part c h,
)

resolve-IsPlain :
    (stack : List Bytes) (part : Bytes)
    → All IsPlain stack
    → NoSlash part
    → All IsPlain (resolve stack part)
unfolding resolve
resolve-IsPlain [] part h w = ground (
  arith,
  bytes_eq_iff part [],
  bytes_eq_iff part (b'.' ∷ []),
  bytes_eq_iff part (b'.' ∷ b'.' ∷ []),
)
resolve-IsPlain (top ∷ stack) part h w = ground (
  arith,
  bytes_eq_iff part [],
  bytes_eq_iff part (b'.' ∷ []),
  bytes_eq_iff part (b'.' ∷ b'.' ∷ []),
)

All-reverse :
    (xs ys : List Bytes) → All IsPlain xs → All IsPlain ys → All IsPlain (reverse_aux xs ys)
All-reverse [] ys h k = k
All-reverse (x ∷ xs) ys h k = All-reverse xs (x ∷ ys) h.1 (h.0, k)

resolve_all-IsPlain :
    (stack parts : List Bytes)
    → All IsPlain stack
    → All NoSlash parts
    → All IsPlain (resolve_all stack parts)
unfolding resolve_all
resolve_all-IsPlain stack [] h w = All-reverse stack [] h tt
resolve_all-IsPlain stack (part ∷ parts) h w =
    resolve_all-IsPlain (resolve stack part) parts (resolve-IsPlain stack part h w.0) w.1

-- The cleaned form of a request path has no part that is empty, `.` or `..`, or that holds a slash.
pub clean_parts-IsPlain : (url : Bytes) → All IsPlain (clean_parts url)
unfolding clean_parts
clean_parts-IsPlain url = resolve_all-IsPlain [] (split slash url) tt (split_from-NoSlash [] url tt)
