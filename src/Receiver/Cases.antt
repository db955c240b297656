-- ===== src/Receiver/Cases.antt =====
-- The ways in which `handleLogs` of services/ai-logs-receiver/main.go ends.
use synit_waf.Prelude.{
  ℕ, ◌≤◌, Bool, true, false, String, [], ◌∷◌, length, drop, ltb, le_of_not, str_eq, eq_iff, ◌≡◌,
  refl, ◌≢◌, ◌⊎◌, inl, inr, arith, Bool-cases,
}
use synit_waf.Request.Text.{Bytes, has_prefix}
use synit_waf.Request.Body.{exceeds}
use synit_waf.Receiver.Failures.{Clients, blocked, record_failure}
use synit_waf.Receiver.Window.{TenantReceiverState, allow_request}
use synit_waf.Receiver.Lines.{Payload, LinesError, refused, payload, log_lines}
use synit_waf.Receiver.Tokens.{tenant_id_for_token}
use synit_waf.Receiver.Store.{Files, Stored, store_payload}
use synit_waf.Receiver.Serve.{
  Outside, Settings, Limits, limits, LogsRequest, LogReceiver, require_method, remote_ip, bearer,
  media_allowed, is_json, tenant_state, with_tenant, read_and_store, accept, fail, handle_logs,
}

pub Payload-cases :
    (p : Payload) → ((out : Bytes) × (p ≡ payload out)) ⊎ ((e : LinesError) × (p ≡ refused e))
Payload-cases (payload out) = inl (out, refl)
Payload-cases (refused e) = inr (e, refl)

module _ (files : Files) where
  module _ (outside : Outside) where
    abbrev pub run_store :
        Limits → LogsRequest → String → ℕ → TenantReceiverState → files.State → Stored files
    run_store l r tenant now ts disk = read_and_store files outside l r tenant now ts disk

    -- A refusal leaves the state as it is.
    abbrev pub Refuses : TenantReceiverState → files.State → Stored files → Type 0
    Refuses ts disk out = (code : ℕ) × (code ≢ 200) × (out ≡ (code, ts, disk))

    -- The payload of a request that came to the disk, and the call that stores it.
    abbrev pub Reads :
        Limits
        → LogsRequest
        → String
        → ℕ
        → TenantReceiverState
        → files.State
        → Stored files
        → Type 0
    Reads l r tenant now ts disk out =
        (lines : Bytes) × (length r.incoming ≤ l.max_request_bytes)
        × (r.breaks ≡ false)
        × (log_lines outside.json_valid r.incoming (is_json r.media_type) ≡ payload lines)
        × (out
            ≡ store_payload files l.max_tenant_bytes tenant (outside.file_name now) lines ts disk)

    pub read_and_store-cases :
        (l : Limits) (r : LogsRequest) (tenant : String) (now : ℕ) (ts : TenantReceiverState)
        (disk : files.State)
        → Refuses ts disk (run_store l r tenant now ts disk)
          ⊎ Reads l r tenant now ts disk (run_store l r tenant now ts disk)
    unfolding read_and_store
    read_and_store-cases l r tenant now ts disk =
        let lines = log_lines outside.json_valid r.incoming (is_json r.media_type) in
        elim (Bool-cases (ltb l.max_request_bytes (length r.incoming))) [
          | inl long ↦ inl (413, λ e. omega (arith, e), rw (long, read_and_store))
          | inr short ↦ elim (Bool-cases r.breaks) [
            | inl broken ↦ inl (400, λ e. omega (arith, e), rw (short, broken, read_and_store))
            | inr whole ↦ elim (Payload-cases lines) [
              | inl (out, e) ↦
                  inr (out, le_of_not _ _ short, whole, e, rw (short, whole, e, read_and_store))
              | inr (x, bad) ↦
                  inl (400, λ e. omega (arith, e), rw (short, whole, bad, read_and_store))
            ]
          ]
        ]

    abbrev pub run_accept :
        Limits → LogsRequest → String → ℕ → LogReceiver files → ℕ × LogReceiver files
    run_accept l r tenant now s = accept files outside l r tenant now s

    -- The tenant's state once the request was counted in it.
    abbrev pub counted : Limits → String → ℕ → LogReceiver files → Bool × TenantReceiverState
    counted l tenant now s = allow_request now l.requests_per_minute (tenant_state tenant s.tenants)

    -- What a request of a known tenant has passed that comes to the disk.
    abbrev pub Passes :
        Limits → LogsRequest → String → ℕ → LogReceiver files → Stored files → Type 0
    Passes l r tenant now s out =
        (media_allowed r.media_type ≡ true)
        × (exceeds r.content_length l.max_request_bytes ≡ false)
        × ((counted l tenant now s).0 ≡ true)
        × Reads l r tenant now (counted l tenant now s).1 s.disk out

    -- The three ways that a call for a known tenant ends: refused before it is counted, refused behind
    -- that, or on the disk.
    abbrev pub Ends :
        Limits → LogsRequest → String → ℕ → LogReceiver files → ℕ × LogReceiver files → Type 0
    Ends l r tenant now s run =
        ((code : ℕ) × (code ≢ 200) × (run ≡ (code, s)))
        ⊎ ((out : Stored files) × (run ≡ with_tenant files tenant out s)
            × (Refuses (counted l tenant now s).1 s.disk out ⊎ Passes l r tenant now s out))

    pub accept-Ends :
        (l : Limits) (r : LogsRequest) (tenant : String) (now : ℕ) (s : LogReceiver files)
        → Ends l r tenant now s (run_accept l r tenant now s)
    unfolding accept
    accept-Ends l r tenant now s =
        let (allowed, ts) = counted l tenant now s in
        elim (Bool-cases (media_allowed r.media_type)) [
          | inr other ↦ inl (415, λ e. omega (arith, e), rw (other, accept))
          | inl media ↦ elim (Bool-cases (exceeds r.content_length l.max_request_bytes)) [
            | inl long ↦ inl (413, λ e. omega (arith, e), rw (media, long, accept))
            | inr short ↦ elim (Bool-cases (counted l tenant now s).0) [
              | inr many ↦ inr (
                (429, ts, s.disk),
                rw (media, short, many, accept),
                inl (429, λ e. omega (arith, e), refl),
              )
              | inl few ↦
                  let out = run_store l r tenant now ts s.disk in
                  inr (
                    out,
                    rw (media, short, few, accept),
                    elim (read_and_store-cases l r tenant now ts s.disk) [
                      | inl refuses ↦ inl refuses
                      | inr reads ↦ inr (media, short, few, reads)
                    ],
                  )
            ]
          ]
        ]

    abbrev pub run_logs : Settings → LogsRequest → ℕ → LogReceiver files → ℕ × LogReceiver files
    run_logs c r now s = handle_logs files outside c r now s

    abbrev pub tenant_of : Settings → LogsRequest → String
    tenant_of c r = tenant_id_for_token c.tokens (drop 7 r.authorization)

    abbrev pub after_blocked : LogsRequest → ℕ → LogReceiver files → Bool × LogReceiver files
    after_blocked r now s =
        let (stopped, clients) =
          blocked (remote_ip outside.split_host_port r.remote_addr) now s.clients in
        (stopped, record s { clients = clients })

    -- What a request has passed that is a known tenant's.
    abbrev pub Admitted : Settings → LogsRequest → ℕ → LogReceiver files → Type 0
    Admitted c r now s =
        (require_method ("POST" ∷ []) r.method ≡ true)
        × ((after_blocked r now s).0 ≡ false)
        × (has_prefix r.authorization bearer ≡ true)
        × (tenant_of c r ≢ "")

    pub handle_logs-cases :
        (c : Settings) (r : LogsRequest) (now : ℕ) (s : LogReceiver files)
        → ((code : ℕ) × (clients : Clients) × (code ≢ 200)
            × (run_logs c r now s ≡ (code, record s { clients = clients })))
          ⊎ (Admitted c r now s
              × (run_logs c r now s
                  ≡ run_accept (limits c) r (tenant_of c r) now (after_blocked r now s).1))
    unfolding handle_logs fail
    handle_logs-cases c r now s =
        let ip = remote_ip outside.split_host_port r.remote_addr in
        let (stopped, clients) = blocked ip now s.clients in
        elim (Bool-cases (require_method ("POST" ∷ []) r.method)) [
          | inr other ↦ inl (405, s.clients, λ e. omega (arith, e), rw (other, handle_logs))
          | inl post ↦ elim (Bool-cases (blocked ip now s.clients).0) [
            | inl stops ↦ inl (429, clients, λ e. omega (arith, e), rw (post, stops, handle_logs))
            | inr open_ip ↦
                let failed = record_failure outside.first ip now clients in
                elim (Bool-cases (has_prefix r.authorization bearer)) [
                  | inr no_token ↦ inl (
                    401,
                    failed,
                    λ e. omega (arith, e),
                    rw (post, open_ip, no_token, handle_logs),
                  )
                  | inl token ↦ elim (Bool-cases (str_eq (tenant_of c r) "")) [
                    | inl unknown ↦ inl (
                      403,
                      failed,
                      λ e. omega (arith, e),
                      rw (post, open_ip, token, unknown, handle_logs),
                    )
                    | inr named ↦ inr (
                      (post, open_ip, token, λ e. ground (arith, eq_iff (tenant_of c r) "")),
                      rw (post, open_ip, token, named, handle_logs),
                    )
                  ]
                ]
          ]
        ]
