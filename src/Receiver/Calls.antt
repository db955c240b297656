-- ===== src/Receiver/Calls.antt =====
-- What `handleLogs` of services/ai-logs-receiver/main.go keeps, and what an answer of 200 stands for.
use synit_waf.Prelude.{
  ℕ, ◌+◌, ◌≤◌, max, true, String, some, length, lookup, lookup-insert, str_eq, eq_iff, ◌≡◌, sym, ap,
  subst, ◌∙◌, ◌++◌, ◌⊎◌, inl, inr, arith, Bool-cases, Option-cases,
}
use synit_waf.Request.Text.{Bytes}
use synit_waf.Receiver.Window.{TenantReceiverState, allow_request, roll}
use synit_waf.Receiver.Lines.{payload, log_lines}
use synit_waf.Receiver.Store.{Files, Stored, directory_bytes}
use synit_waf.Receiver.Quota.{
  IsNewWithin, Laws, Accounts, KeepsOthers, StoresWell, store_payload-StoresWell,
}
use synit_waf.Receiver.Texts.{TextLaws, store_payload-text}
use synit_waf.Receiver.Serve.{
  Outside, Settings, Limits, limits, LogsRequest, LogReceiver, media_allowed, is_json, tenant_state,
  with_tenant,
}
use synit_waf.Receiver.Cases.{
  Refuses, Passes, Ends, accept-Ends, handle_logs-cases, counted, run_logs, tenant_of,
  after_blocked, Admitted,
}

allow_request-usage :
    (now limit : ℕ) (ts : TenantReceiverState)
    → ((allow_request now limit ts).1.used_bytes ≡ ts.used_bytes)
      × ((allow_request now limit ts).1.used_known ≡ ts.used_known)
unfolding allow_request roll
allow_request-usage now limit ts = ground arith

module _ (files : Files) where
  -- The usage that any tenant's state claims to know is what its directory holds.
  abbrev pub IsAccounted : LogReceiver files → Type 0
  IsAccounted s =
      (id : String) (ts : TenantReceiverState)
      → lookup id s.tenants ≡ some ts
      → Accounts files id ts s.disk

  -- No directory holds more behind the call than before it and than the limit.
  abbrev pub WithinQuota : ℕ → files.State → files.State → Type 0
  WithinQuota limit s s' =
      (id : String) (u : ℕ)
      → directory_bytes files id s ≡ some u
      → (u' : ℕ) × (directory_bytes files id s' ≡ some u') × (u' ≤ max u limit)

  -- What a step for one tenant keeps.
  abbrev Kept : ℕ → String → files.State → Stored files → Type 0
  Kept limit tenant s (code, ts, s') =
      Accounts files tenant ts s'
      × ((u : ℕ)
          → directory_bytes files tenant s ≡ some u
          → (u' : ℕ) × (directory_bytes files tenant s' ≡ some u') × (u' ≤ max u limit))
      × KeepsOthers files tenant s s'
      × IsNewWithin files limit tenant s s'

  abbrev Safe : ℕ → String → LogReceiver files → LogReceiver files → Type 0
  Safe limit tenant s s' =
      IsAccounted s'
      × WithinQuota limit s.disk s'.disk
      × IsNewWithin files limit tenant s.disk s'.disk

  Kept-idle :
      (limit code : ℕ) (tenant : String) (ts : TenantReceiverState) (s : files.State)
      → Accounts files tenant ts s
      → Kept limit tenant s (code, ts, s)
  Kept-idle limit code tenant ts s a =
      (a, λ u e. (u, e, omega arith), λ k n ne old. old, λ u gone e. absurd (cc))

  module _ (outside : Outside) (laws : Laws files) where
    tenant_state-Accounts :
        (tenant : String) (s : LogReceiver files)
        → IsAccounted s
        → Accounts files tenant (tenant_state tenant s.tenants) s.disk
    unfolding tenant_state
    tenant_state-Accounts tenant s a = elim (Option-cases (lookup tenant s.tenants)) [
      | inl new ↦ λ e. absurd (ground arith)
      | inr (ts, there) ↦
          let same : tenant_state tenant s.tenants ≡ ts = rw (there, tenant_state) in
          subst (λ x. Accounts files tenant x s.disk) (sym same) (a tenant ts there)
    ]

    with_tenant-Safe :
        (limit : ℕ) (tenant : String) (out : Stored files) (s : LogReceiver files)
        → IsAccounted s
        → Kept limit tenant s.disk out
        → Safe limit tenant s (with_tenant files tenant out s).1
    with_tenant-Safe limit tenant (code, ts, disk) s a (mine, quota, others, new) = (
      λ id t there known. elim (Bool-cases (str_eq tenant id)) [
        | inl same ↦
            let here : tenant ≡ id = (eq_iff tenant id).0 same in
            let read : some t ≡ some ts =
              sym there ∙ ground (arith, lookup-insert tenant id ts s.tenants) in
            let same_state : t ≡ ts = cc in
            subst (λ k. Accounts files k t disk) here
              (subst (λ x. Accounts files tenant x disk) (sym same_state) mine) known
        | inr other ↦
            let read : lookup id s.tenants ≡ some t =
              ground (arith, lookup-insert tenant id ts s.tenants) in
            others id t.used_bytes (λ e. ground (arith, eq_iff tenant id)) (a id t read known)
      ],
      λ id u e. elim (Bool-cases (str_eq tenant id)) [
        | inl same ↦
            let here : tenant ≡ id = (eq_iff tenant id).0 same in
            let (u', holds, small) =
              quota u (subst (λ k. directory_bytes files k s.disk ≡ some u) (sym here) e) in
            (u', subst (λ k. directory_bytes files k disk ≡ some u') here holds, small)
        | inr other ↦ (u, others id u (λ e. ground (arith, eq_iff tenant id)) e, omega arith)
      ],
      new,
    )

    counted-Accounts :
        (l : Limits) (tenant : String) (now : ℕ) (s : LogReceiver files)
        → IsAccounted s
        → Accounts files tenant (counted files outside l tenant now s).1 s.disk
    counted-Accounts l tenant now s a =
        let ts = tenant_state tenant s.tenants in
        let (bytes, known) = allow_request-usage now l.requests_per_minute ts in
        λ e. tenant_state-Accounts tenant s a (sym known ∙ e) ∙ ap some (sym bytes)

    Passes-Kept :
        (l : Limits) (r : LogsRequest) (tenant : String) (now : ℕ) (s : LogReceiver files)
        (out : Stored files)
        → IsAccounted s
        → Refuses files outside (counted files outside l tenant now s).1 s.disk out
          ⊎ Passes files outside l r tenant now s out
        → Kept l.max_tenant_bytes tenant s.disk out
    Passes-Kept l r tenant now s out a (inl (code, bad, e)) =
        let ts = (counted files outside l tenant now s).1 in
        subst (Kept l.max_tenant_bytes tenant s.disk) (sym e)
          (Kept-idle l.max_tenant_bytes code tenant ts s.disk (counted-Accounts l tenant now s a))
    Passes-Kept l r tenant now s out a (inr (media, short, few, (lines, _, _, _, e))) =
        let ts = (counted files outside l tenant now s).1 in
        let (mine, quota, others, new, _) =
          store_payload-StoresWell files laws l.max_tenant_bytes tenant (outside.file_name now)
            lines ts s.disk (counted-Accounts l tenant now s a) in
        subst (Kept l.max_tenant_bytes tenant s.disk) (sym e) (mine, quota, others, new)

    Safe-same :
        (limit : ℕ) (tenant : String) (s : LogReceiver files)
        → IsAccounted s
        → Safe limit tenant s s
    Safe-same limit tenant s a = (a, λ id u e. (u, e, omega arith), λ u gone e. absurd (cc))

    Ends-Safe :
        (l : Limits) (r : LogsRequest) (tenant : String) (now : ℕ) (s : LogReceiver files)
        (run : ℕ × LogReceiver files)
        → IsAccounted s
        → Ends files outside l r tenant now s run
        → Safe l.max_tenant_bytes tenant s run.1
    Ends-Safe l r tenant now s run a (inl (code, bad, e)) =
        subst (λ (x : ℕ × LogReceiver files). Safe l.max_tenant_bytes tenant s x.1) (sym e)
          (Safe-same l.max_tenant_bytes tenant s a)
    Ends-Safe l r tenant now s run a (inr (out, e, how)) =
        subst (λ (x : ℕ × LogReceiver files). Safe l.max_tenant_bytes tenant s x.1) (sym e)
          (with_tenant-Safe l.max_tenant_bytes tenant out s a
            (Passes-Kept l r tenant now s out a how))

    -- On a file system that obeys `Laws`, and where the usage is true before: whatever request comes at
    -- whatever time, the usage that the receiver claims to know stays what
    -- the directories hold, and no directory grows beyond the tenant's limit, or at all where it is
    -- above it already. The directory of the request's tenant is within the limit too where it could not
    -- be read before, as one that is made by the call.
    pub handle_logs_quota :
        (c : Settings) (r : LogsRequest) (now : ℕ) (s : LogReceiver files)
        → IsAccounted s
        → IsAccounted (run_logs files outside c r now s).1
          × WithinQuota (limits c).max_tenant_bytes s.disk (run_logs files outside c r now s).1.disk
          × IsNewWithin files
              (limits c).max_tenant_bytes
              (tenant_of files outside c r)
              s.disk
              (run_logs files outside c r now s).1.disk
    handle_logs_quota c r now s a = elim (handle_logs-cases files outside c r now s) [
      | inl (code, clients, bad, e) ↦
          subst
            (λ (x : ℕ × LogReceiver files).
              Safe (limits c).max_tenant_bytes (tenant_of files outside c r) s x.1)
            (sym e) (Safe-same (limits c).max_tenant_bytes (tenant_of files outside c r) s a)
      | inr (admitted, e) ↦
          let s1 = (after_blocked files outside r now s).1 in
          subst
            (λ (x : ℕ × LogReceiver files).
              Safe (limits c).max_tenant_bytes (tenant_of files outside c r) s x.1)
            (sym e)
            (Ends-Safe (limits c) r (tenant_of files outside c r) now s1 _ a
              (accept-Ends files outside (limits c) r (tenant_of files outside c r) now s1))
    ]

    -- On a file system that obeys `Laws` and `TextLaws`, and where the usage that the receiver claims to
    -- know is true: a request that is answered with 200 is a POST from an address that is not blocked, carries the
    -- token of a tenant, is within the tenant's window and the limit on bodies, and is made of lines
    -- that may be stored. All of its lines then stand at the end of the file of the time in the
    -- tenant's directory, which has grown by exactly their bytes and stays within the limit.
    pub handle_logs_sound :
        (texts : TextLaws files) (c : Settings) (r : LogsRequest) (now : ℕ) (s : LogReceiver files)
        → IsAccounted s
        → (run_logs files outside c r now s).0 ≡ 200
        → let tenant = tenant_of files outside c r in
          let l = limits c in
          Admitted files outside c r now s
          × (media_allowed r.media_type ≡ true)
          × ((counted files outside l tenant now s).0 ≡ true)
          × (length r.incoming ≤ l.max_request_bytes)
          × ((lines : Bytes) × (u : ℕ) × (log_lines outside.json_valid r.incoming
                  (is_json r.media_type)
                ≡ payload lines)
              × (directory_bytes files tenant (files.mkdir_all tenant s.disk).1 ≡ some u)
              × (directory_bytes files tenant (run_logs files outside c r now s).1.disk
                  ≡ some (u + length lines))
              × (u + length lines ≤ l.max_tenant_bytes)
              × (texts.text_of tenant
                    (outside.file_name now)
                    (run_logs files outside c r now s).1.disk
                  ≡ texts.text_of tenant (outside.file_name now) s.disk ++ lines))
    handle_logs_sound texts c r now s a ok = elim (handle_logs-cases files outside c r now s) [
      | inl (code, clients, bad, e) ↦ absurd (bad (sym (ap (λ x. x.0) e) ∙ ok))
      | inr (admitted, e) ↦
          let s1 = (after_blocked files outside r now s).1 in
          elim (accept-Ends files outside (limits c) r (tenant_of files outside c r) now s1) [
            | inl (code, bad, f) ↦ absurd (bad (sym (ap (λ x. x.0) (e ∙ f)) ∙ ok))
            | inr (out, f, inl (code, bad, g)) ↦ absurd (
                bad (
                  sym (ap (λ (x : Stored files). x.0) g)
                  ∙ sym (ap (λ (x : ℕ × LogReceiver files). x.0) (e ∙ f))
                  ∙ ok))
            | inr (out, f, inr (media, short, few, (lines, fits, whole, logs, g))) ↦
                let stored =
                  (store_payload-StoresWell files laws (limits c).max_tenant_bytes
                    (tenant_of files outside c r) (outside.file_name now) lines
                    (counted files outside (limits c) (tenant_of files outside c r) now s1).1
                    s1.disk (counted-Accounts (limits c) (tenant_of files outside c r) now s1 a)) in
                let l = limits c in
                let tenant = tenant_of files outside c r in
                let (_, _, _, _, whole_growth) =
                  subst (StoresWell files laws l.max_tenant_bytes tenant (length lines) s.disk)
                    (sym g) stored in
                let code : out.0 ≡ 200 =
                  sym (ap (λ (x : ℕ × LogReceiver files). x.0) (e ∙ f)) ∙ ok in
                let disk : out.2 ≡ (run_logs files outside c r now s).1.disk =
                  sym (ap (λ (x : ℕ × LogReceiver files). x.1.disk) (e ∙ f)) in
                let (u, before, grown, small) = whole_growth code in
                let here : directory_bytes files tenant (run_logs files outside c r now s).1.disk
                    ≡ some (u + length lines) =
                  subst (λ x. directory_bytes files tenant x ≡ some (u + length lines)) disk
                    grown in
                let name = outside.file_name now in
                let ts = (counted files outside l tenant now s1).1 in
                let stored_text =
                  store_payload-text files texts l.max_tenant_bytes tenant name lines ts s1.disk
                    (sym (ap (λ (x : Stored files). x.0) g) ∙ code) in
                let last : texts.text_of tenant name (run_logs files outside c r now s).1.disk
                    ≡ texts.text_of tenant name s.disk ++ lines =
                  ap (texts.text_of tenant name) (sym disk ∙ ap (λ (x : Stored files). x.2) g)
                  ∙ stored_text in
                (admitted, media, few, fits, (lines, u, logs, before, here, small, last))
          ]
    ]
