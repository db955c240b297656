-- ===== src/Waf/Phases.antt =====
-- What a request that the rule engine lets through has behind it.
use synit_waf.Prelude.{
  ℕ, suc, ◌<◌, ◌≤◌, length, subst, Bool, true, false, ◌&&◌, not, List, [], ◌∷◌, any, pos, int_eq,
  if◌then◌else◌, ◌≡◌, refl, sym, ap, ◌∙◌, ◌⊎◌, inl, inr, arith, Bool-cases,
}
use synit_waf.Request.Text.{Bytes}
use synit_waf.Request.Encoding.{has_unsupported_content_encoding}
use synit_waf.Request.Body.{
  BodyState, BodyResult, body_is, too_large, read_error, inspection_body, max_int64, Carries,
  inspection_body-Carries,
}
use synit_waf.Waf.{
  Engine, WafRequest, passed, block_request, behind, body_phase, write_phase, inspect_body,
  run_headers, run_uri, run_phases, record_audit_detection, finish_transaction, apply_waf,
}

module _ (engine : Engine) (r : WafRequest) where
  open engine use {State}

  -- The states of the engine behind the connection, the URI and the headers.
  abbrev pub connected : State → State
  connected s = engine.process_connection s

  abbrev pub with_uri : State → State
  with_uri s = engine.process_uri (connected s)

  abbrev pub with_headers : State → State
  with_headers s = engine.process_headers (engine.add_headers (with_uri s))

  -- The engine evaluated the body phase on a state, and found nothing.
  abbrev pub Evaluated : State → Type 0
  Evaluated s =
      ((engine.process_body s).0 ≡ true) × (engine.is_interrupted (engine.process_body s).1 ≡ false)

  -- The body phase was evaluated on the whole body, which is within the limit, or on a request that has
  -- none.
  abbrev pub BodySeen : ℕ → Bytes → BodyState → State → Type 0
  BodySeen limit whole b s =
      ((r.has_body && not (int_eq b.content_length (pos 0))) ≡ false) × Evaluated s
      ⊎ (length whole ≤ limit)
        × ((engine.write_body whole s).0 ≡ true)
        × Evaluated (engine.write_body whole s).1

  body_phase-passed : (s : State) → (body_phase engine r s).0 ≡ passed → Evaluated s
  unfolding body_phase behind block_request
  body_phase-passed s e = ground arith

  write_phase-passed :
      (result : BodyResult) (s : State)
      → (write_phase engine r result s).0 ≡ passed
      → (bytes : Bytes) × (result ≡ body_is bytes)
        × ((engine.write_body bytes s).0 ≡ true)
        × Evaluated (engine.write_body bytes s).1
  unfolding write_phase
  write_phase-passed too_large s e = absurd (cc)
  write_phase-passed read_error s e = absurd (cc)
  write_phase-passed (body_is bytes) s e = elim (Bool-cases (engine.write_body bytes s).0) [
    | inr bad ↦ absurd (ground arith)
    | inl ok ↦
        let step : write_phase engine r (body_is bytes) s
            ≡ body_phase engine r (engine.write_body bytes s).1 =
          rw (ok, write_phase) in
        (
          bytes,
          refl,
          ok,
          body_phase-passed (engine.write_body bytes s).1 (sym (ap (λ x. x.0) step) ∙ e),
        )
  ]

  inspect_body-passed :
      (limit : ℕ) (whole : Bytes) (b : BodyState) (s : State)
      → limit < max_int64
      → Carries whole b
      → (inspect_body engine r limit b s).0.0 ≡ passed
      → BodySeen limit whole b s × Carries whole (inspect_body engine r limit b s).1
  unfolding inspect_body
  inspect_body-passed limit whole b s small held e =
      elim (Bool-cases (r.has_body && not (int_eq b.content_length (pos 0)))) [
        | inr bodiless ↦
            let step : (inspect_body engine r limit b s).0.0 ≡ (body_phase engine r s).0 =
              rw (bodiless, inspect_body) in
            let after : (inspect_body engine r limit b s).1 ≡ b = rw (bodiless, inspect_body) in
            (
              inl (bodiless, body_phase-passed s (sym step ∙ e)),
              subst (Carries whole) (sym after) held,
            )
        | inl there ↦ elim (Bool-cases (has_unsupported_content_encoding r.content_encoding)) [
          | inl packed ↦ absurd (ground arith)
          | inr plain ↦
              let step : (inspect_body engine r limit b s).0.0
                  ≡ (write_phase engine r (inspection_body limit b).0 s).0 =
                rw (there, plain, inspect_body) in
              let after : (inspect_body engine r limit b s).1 ≡ (inspection_body limit b).1 =
                rw (there, plain, inspect_body) in
              let (bytes, given, written, evaluated) =
                write_phase-passed (inspection_body limit b).0 s (sym step ∙ e) in
              let (same, short, kept) =
                inspection_body-Carries limit whole bytes b (inspection_body limit b).1 small held
                  (ground arith) in
              let seen : ((engine.write_body whole s).0 ≡ true)
                  × Evaluated (engine.write_body whole s).1 =
                subst
                  (λ (x : Bytes).
                    ((engine.write_body x s).0 ≡ true) × Evaluated (engine.write_body x s).1)
                  same (written, evaluated) in
              (inr (short, seen.0, seen.1), subst (Carries whole) (sym after) kept)
        ]
      ]

  -- A request that passes was interrupted behind no phase, and the engine evaluated the rules of the
  -- body phase, on the whole body or, where the request has none or announces an empty one, without
  -- one; and the whole body is still there for the upstream. The limit is below the largest int64.
  pub apply_waf_sound :
      (limit : ℕ) (whole : Bytes) (b : BodyState) (events : ℕ) (s : State)
      → limit < max_int64
      → Carries whole b
      → (apply_waf engine r limit b events s).0 ≡ passed
      → (engine.is_interrupted (connected s) ≡ false)
        × (engine.is_interrupted (with_uri s) ≡ false)
        × (engine.is_interrupted (with_headers s) ≡ false)
        × BodySeen limit whole b (with_headers s)
        × Carries whole (apply_waf engine r limit b events s).1.request_body
  unfolding apply_waf run_phases run_uri run_headers finish_transaction
  apply_waf_sound limit whole b events s small held e =
      let one : engine.is_interrupted (connected s) ≡ false = ground arith in
      let two : engine.is_interrupted (with_uri s) ≡ false = ground arith in
      let three : engine.is_interrupted (with_headers s) ≡ false = ground arith in
      let step : (apply_waf engine r limit b events s).0
          ≡ (inspect_body engine r limit b (with_headers s)).0.0 =
        ground arith in
      let body_left : (apply_waf engine r limit b events s).1.request_body
          ≡ (inspect_body engine r limit b (with_headers s)).1 =
        ground arith in
      let (seen, kept) =
        inspect_body-passed limit whole b (with_headers s) small held (sym step ∙ e) in
      (one, two, three, seen, subst (Carries whole) (sym body_left) kept)

  audit_events-any :
      (rules : List Bool) (events : ℕ)
      → (if r.audit_mode then record_audit_detection engine r rules events else events)
        ≡ (if r.audit_mode && any (λ blocks. blocks) rules then suc events else events)
  unfolding record_audit_detection
  audit_events-any [] events = ground arith
  audit_events-any (true ∷ rules) events = ground arith
  audit_events-any (false ∷ rules) events = ground (arith, audit_events-any rules events)

  -- Whatever the decision, the transaction is logged and closed, once, behind all else; and a request
  -- counts one audit event exactly where the tenant only audits and some matched rule would block.
  pub apply_waf_closes :
      (limit : ℕ) (b : BodyState) (events : ℕ) (s : State)
      → (last : State) × ((apply_waf engine r limit b events s).1.tx
          ≡ engine.close (engine.process_logging last))
        × ((apply_waf engine r limit b events s).1.audit_events ≡ (
            if r.audit_mode && any (λ blocks. blocks) (engine.matched_rules last)
            then suc events
            else events))
  unfolding apply_waf finish_transaction
  apply_waf_closes limit b events s =
      let last = (run_phases engine r limit b s).0.1 in
      (last, refl, audit_events-any (engine.matched_rules last) events)
