-- ===== src/Receiver/Tokens.antt =====
-- `loadTenantTokens` and `tenantIDForToken` of services/ai-logs-receiver/main.go.
--
-- The JSON decoder, the regular expression of tenant identifiers and `filepath.Base` are parameters.
-- The list of tokens stands in the order in which the map happens to be walked. The comparison in
-- constant time is an equality of bytes.
use synit_waf.Prelude.{
  ℕ, Bool, not, ◌||◌, String, Option, none, some, List, [], ◌∷◌, length, ltb, if◌then◌else◌, lookup,
  Distinct, str_eq, eq_iff, ◌==◌, ◌≡◌, ◌≢◌, ◌↔◌, inl, inr, arith, Option-cases,
}
use synit_waf.Request.Text.{Bytes, bytes_eq, trim_space, bytes_eq_iff}

abbrev pub Tokens : Type 0
Tokens = List (String × Bytes)

abbrev pub min_token_length : ℕ
min_token_length = 32

pub data TokensError : Type 0 where
  required unparsable no_token : TokensError
  invalid_tenant short_token : String → TokensError
  reused_token : String → String → TokensError

pub data Loaded : Type 0 where
  not_loaded : TokensError → Loaded
  loaded : Tokens → Loaded

unfoldable pub seen_tenant : Bytes → List (Bytes × String) → Option String
seen_tenant token [] = none
seen_tenant token ((t, tenant) ∷ seen) =
    if bytes_eq t token then some tenant else seen_tenant token seen

unfoldable pub tenant_id_for_token : Tokens → Bytes → String
tenant_id_for_token [] candidate = ""
tenant_id_for_token ((tenant, token) ∷ tokens) candidate =
    if bytes_eq token candidate then tenant else tenant_id_for_token tokens candidate

module _ (pattern_matches : String → Bool) (base : String → String)
    (unmarshal : Bytes → Option Tokens) where
  -- The loop over the map, with the tokens seen so far: what is wrong first.
  unfoldable pub check_tokens : List (Bytes × String) → Tokens → Option TokensError
  unfolding seen_tenant
  check_tokens seen [] = none
  check_tokens seen ((tenant, token) ∷ tokens) =
      let rest = check_tokens ((token, tenant) ∷ seen) tokens in
      if not (pattern_matches tenant) || not (str_eq (base tenant) tenant)
      then some (invalid_tenant tenant)
      else if ltb (length (trim_space token)) min_token_length
      then some (short_token tenant)
      else elim (seen_tenant token seen) [
        | some other ↦ some (reused_token other tenant)
        | none ↦ rest
      ]

  unfoldable pub load_tenant_tokens : Bytes → Loaded
  unfolding check_tokens
  load_tenant_tokens raw =
      if bytes_eq (trim_space raw) [] then not_loaded required else elim (unmarshal raw) [
        | none ↦ not_loaded unparsable
        | some tokens ↦
            if length tokens == 0
            then not_loaded no_token
            else elim (check_tokens [] tokens) [ some e ↦ not_loaded e | none ↦ loaded tokens ]
      ]

  check_tokens-later :
      (seen : List (Bytes × String)) (tenant : String) (token : Bytes) (tokens : Tokens)
      → check_tokens seen ((tenant, token) ∷ tokens) ≡ none
      → check_tokens ((token, tenant) ∷ seen) tokens ≡ none
  unfolding check_tokens
  check_tokens-later seen tenant token tokens e =
      ground (arith, Option-cases (seen_tenant token seen))

  -- A token that was seen is no later tenant's.
  check_tokens-seen :
      (seen : List (Bytes × String)) (tokens : Tokens) (id : String) (t : Bytes)
      → check_tokens seen tokens ≡ none
      → seen_tenant t seen ≢ none
      → lookup id tokens ≢ some t
  unfolding check_tokens seen_tenant lookup
  check_tokens-seen seen [] id t e was = λ h. absurd (cc)
  check_tokens-seen seen ((tenant, token) ∷ tokens) id t e was =
      let later = check_tokens-later seen tenant token tokens e in
      ground (
        arith,
        bytes_eq_iff token t,
        check_tokens-seen ((token, tenant) ∷ seen) tokens id t later,
        Option-cases (seen_tenant token seen),
      )

  tenant_id-checked :
      (seen : List (Bytes × String)) (tokens : Tokens) (id : String) (t : Bytes)
      → check_tokens seen tokens ≡ none
      → Distinct tokens
      → id ≢ ""
      → (tenant_id_for_token tokens t ≡ id) ↔ (lookup id tokens ≡ some t)
  unfolding tenant_id_for_token lookup seen_tenant
  tenant_id-checked seen [] id t e d p = ground arith
  tenant_id-checked seen ((tenant, token) ∷ tokens) id t e d p =
      let later = check_tokens-later seen tenant token tokens e in
      ground (
        arith,
        bytes_eq_iff token t,
        eq_iff tenant id,
        check_tokens-seen ((token, tenant) ∷ seen) tokens id t later,
        tenant_id-checked ((token, tenant) ∷ seen) tokens id t later d.1 p,
      )

  load-checked :
      (raw : Bytes) (tokens : Tokens)
      → load_tenant_tokens raw ≡ loaded tokens
      → check_tokens [] tokens ≡ none
  unfolding load_tenant_tokens
  load-checked raw tokens e = elim (Option-cases (unmarshal raw)) [
    | inl undecoded ↦ absurd (ground arith)
    | inr (decoded, from) ↦ elim (Option-cases (check_tokens [] decoded)) [
      | inr (x, wrong) ↦ absurd (ground arith)
      | inl right ↦ ground arith
    ]
  ]

  -- Once the tokens are loaded, a token names a tenant exactly where it is that tenant's own, in
  -- whatever order the map is walked.
  pub tenant_id_for_token_iff :
      (raw : Bytes) (tokens : Tokens) (id : String) (t : Bytes)
      → load_tenant_tokens raw ≡ loaded tokens
      → Distinct tokens
      → id ≢ ""
      → (tenant_id_for_token tokens t ≡ id) ↔ (lookup id tokens ≡ some t)
  unfolding load_tenant_tokens
  tenant_id_for_token_iff raw tokens id t e d p =
      tenant_id-checked [] tokens id t (load-checked raw tokens e) d p
