-- ===== src/Request/Body.antt =====
-- `inspectionBody` of internal/waf/request_info.go: the body is read at most once for a request, and
-- stays there for the upstream.
use synit_waf.Prelude.{
  ℕ, zero, suc, [], ◌∷◌, ◌+◌, ◌≤◌, ◌<◌, Bool, true, false, ◌&&◌, Option, none, some, length, take,
  drop, length-take, ltb, if◌then◌else◌, ℤ, pos, negsuc, ◌≡◌, refl, ap, ◌∙◌, ◌≢◌, ◌⊎◌, inl, inr,
  sym, arith, Bool-cases,
}
use synit_waf.Request.Text.{Bytes}

-- What of a request the function reads and writes. `incoming` is `r.Body` with all that it will
-- give, none for a body that is nil or `http.NoBody`; `breaks` says that reading it fails.
-- `has_info` says that ServeHTTP has put its `requestInfo` into the request's context.
pub record BodyState : Type 0 where
  pub incoming : Option Bytes
  pub breaks : Bool
  pub content_length : ℤ
  pub has_info : Bool
  pub body_read : Bool
  pub body : Bytes

pub data BodyResult : Type 0 where
  body_is : Bytes → BodyResult
  too_large read_error : BodyResult

abbrev pub exceeds : ℤ → ℕ → Bool
exceeds (pos n) limit = ltb limit n
exceeds (negsuc n) limit = false

-- The largest int64, as which a limit is kept.
abbrev pub max_int64 : ℕ
max_int64 = 9_223_372_036_854_775_807

-- How many bytes `io.LimitReader(r.Body, limit+1)` gives at most: the sum wraps around to a negative
-- number at the largest limit, and a reader with a negative limit is at its end without a read.
unfoldable pub read_limit : ℕ → ℕ
read_limit limit = if ltb limit max_int64 then limit + 1 else 0

-- `io.ReadAll(io.LimitReader(r.Body, limit+1))` and what follows it.
unfoldable pub read_body : ℕ → Bytes → BodyState → BodyResult × BodyState
unfolding read_limit
read_body limit bytes s =
    let read = take (read_limit limit) bytes in
    let rest : BodyState = record s { incoming = some (drop (read_limit limit) bytes) } in
    let kept : BodyState = record s { incoming = some read } in
    if s.breaks && ltb limit max_int64
    then (read_error, rest)
    else if ltb limit (length read)
    then (too_large, rest)
    else if s.has_info
    then (body_is read, record kept { body = read; body_read = true })
    else (body_is read, kept)

unfoldable pub inspection_body : ℕ → BodyState → BodyResult × BodyState
unfolding read_body
inspection_body limit s =
    if s.has_info && s.body_read
    then (if ltb limit (length s.body) then (too_large, s) else (body_is s.body, s))
    else elim s.incoming [
      | none ↦ (body_is [], s)
      | some bytes ↦
          if exceeds s.content_length limit then (too_large, s) else read_body limit bytes s
    ]

-- A body as ServeHTTP hands it on: all of it still to come, and kept only as it is.
abbrev pub IsIntact : Bytes → BodyState → Type 0
IsIntact bytes s = (s.incoming ≡ some bytes) × ((s.body_read ≡ false) ⊎ (s.body ≡ bytes))

pub take_all : (n : ℕ) (bytes : Bytes) → length bytes ≤ n → take n bytes ≡ bytes
take_all zero [] h = refl
take_all zero (b ∷ bytes) h = absurd (omega arith)
take_all (suc n) [] h = refl
take_all (suc n) (b ∷ bytes) h = ap (λ (t : Bytes). b ∷ t) (take_all n bytes (omega arith))

read_body_whole :
    (limit : ℕ) (bytes seen : Bytes) (s s' : BodyState)
    → limit < max_int64
    → read_body limit bytes s ≡ (body_is seen, s')
    → (seen ≡ bytes)
      × (length bytes ≤ limit)
      × (s'.incoming ≡ some bytes)
      × ((s.has_info ≡ true) × (s'.body_read ≡ true) × (s'.body ≡ bytes)
          ⊎ (s.has_info ≡ false) × (s'.body_read ≡ s.body_read) × (s'.body ≡ s.body))
unfolding read_body read_limit
read_body_whole limit bytes seen s s' small e =
    ground (arith, length-take (limit + 1) bytes, take_all (limit + 1) bytes)

-- A body that is handed out is the whole body and within the limit, and behind it the body is still
-- there for the next stage and for the upstream. For a request of ServeHTTP it is then kept. The limit
-- is below the largest int64.
pub inspection_body_whole :
    (limit : ℕ) (bytes seen : Bytes) (s s' : BodyState)
    → limit < max_int64
    → IsIntact bytes s
    → inspection_body limit s ≡ (body_is seen, s')
    → (seen ≡ bytes)
      × (length bytes ≤ limit)
      × IsIntact bytes s'
      × ((s.has_info ≡ false) ⊎ (s'.body_read ≡ true))
unfolding inspection_body
inspection_body_whole limit bytes seen s s' small i e =
    ground (arith, read_body_whole limit bytes seen s s' small)

-- A body that is still there as ServeHTTP hands it on, or none, which stands for no bytes.
abbrev pub Carries : Bytes → BodyState → Type 0
Carries whole s = IsIntact whole s ⊎ ((s.incoming ≡ none) × (whole ≡ []) × (s.body ≡ []))

abbrev incoming_of : BodyState → Option Bytes
incoming_of s = s.incoming

abbrev body_of : BodyState → Bytes
body_of s = s.body

-- A request without a body has nothing to hand out, and stays as it is.
inspection_body_empty :
    (limit : ℕ) (seen : Bytes) (s s' : BodyState)
    → s.incoming ≡ none
    → s.body ≡ []
    → inspection_body limit s ≡ (body_is seen, s')
    → (seen ≡ []) × (s ≡ s')
unfolding inspection_body
inspection_body_empty limit seen s s' absent nothing e =
    elim (Bool-cases (s.has_info && s.body_read)) [
      | inl kept ↦ elim (Bool-cases (ltb limit (length s.body))) [
        | inl long ↦ absurd (ground arith)
        | inr short ↦
            let step : inspection_body limit s ≡ (body_is s.body, s) =
              simp (kept, short, inspection_body) in
            let both : (body_is s.body, s) ≡ (body_is seen, s') = sym step ∙ e in
            let same : s.body ≡ seen = cc in (sym same ∙ nothing, ap (λ x. x.1) both)
      ]
      | inr other ↦
          let step : inspection_body limit s ≡ (body_is [], s) =
            simp (other, absent, inspection_body) in
          let both : (body_is [], s) ≡ (body_is seen, s') = sym step ∙ e in
          let same : [] ≡ seen = cc in (sym same, ap (λ x. x.1) both)
    ]

pub inspection_body-Carries :
    (limit : ℕ) (whole seen : Bytes) (s s' : BodyState)
    → limit < max_int64
    → Carries whole s
    → inspection_body limit s ≡ (body_is seen, s')
    → (seen ≡ whole) × (length whole ≤ limit) × Carries whole s'
unfolding inspection_body
inspection_body-Carries limit whole seen s s' small (inl i) e =
    let (same, short, kept, _) = inspection_body_whole limit whole seen s s' small i e in
    (same, short, inl kept)
inspection_body-Carries limit whole seen s s' small (inr (absent, empty, nothing)) e =
    let (given, same) = inspection_body_empty limit seen s s' absent nothing e in
    (
      given ∙ sym empty,
      rw empty (omega arith),
      inr (sym (ap incoming_of same) ∙ absent, empty, sym (ap body_of same) ∙ nothing),
    )

-- A body longer than the limit is handed out to no stage.
pub inspection_body_limit :
    (limit : ℕ) (bytes seen : Bytes) (s : BodyState)
    → limit < max_int64
    → IsIntact bytes s
    → limit < length bytes
    → (inspection_body limit s).0 ≢ body_is seen
inspection_body_limit limit bytes seen s small i long e =
    let (_, short, _, _) =
      inspection_body_whole limit bytes seen s (inspection_body limit s).1 small i (ground arith) in
    omega arith

-- A body within the limit that can be read is handed out, where the announced length is not above
-- the limit.
pub inspection_body_serves :
    (limit : ℕ) (bytes : Bytes) (s : BodyState)
    → limit < max_int64
    → IsIntact bytes s
    → s.breaks ≡ false
    → length bytes ≤ limit
    → exceeds s.content_length limit ≡ false
    → (inspection_body limit s).0 ≡ body_is bytes
unfolding inspection_body read_body read_limit
inspection_body_serves limit bytes s small i b h x =
    ground (arith, length-take (limit + 1) bytes, take_all (limit + 1) bytes)
