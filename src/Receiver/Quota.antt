-- ===== src/Receiver/Quota.antt =====
-- The quota of `handleLogs` in services/ai-logs-receiver/main.go: what a call does to the usage of the
-- tenants, under what a file system does to the sizes of its files.
use synit_waf.Prelude.{
  ℕ, ◌+◌, ◌≤◌, max, true, String, none, some, length, ltb, le_of_not, ◌≡◌, refl, sym, ap, subst,
  ◌∙◌, ◌≢◌, inl, inr, arith, Bool-cases, Option-cases,
}
use synit_waf.Request.Text.{Bytes}
use synit_waf.Receiver.Window.{TenantReceiverState}
use synit_waf.Receiver.Store.{
  Files, Stored, directory_bytes, known_usage, append_payload, store_payload,
}

module _ (files : Files) where
  open files use {State, Handle}

  -- The usage of every directory is kept.
  abbrev pub Keeps : State → State → Type 0
  Keeps s s' =
      (dir : String) (n : ℕ)
      → directory_bytes files dir s ≡ some n
      → directory_bytes files dir s' ≡ some n

  -- What a file system does to the sizes of files: opening, syncing and making a directory change
  -- none, a directory that could not be read is empty where making it lets it be read, and a write adds as many bytes as it says to the directory of the file that was opened. A
  -- write that reports fewer bytes than it was given reports an error too, as `io.Writer` demands.
  pub record Laws : Type 0 where
    pub mkdir_keeps : (d : String) (s : State) → Keeps s (files.mkdir_all d s).1
    pub mkdir_new :
        (d : String) (s : State) (n : ℕ)
        → directory_bytes files d s ≡ none
        → directory_bytes files d (files.mkdir_all d s).1 ≡ some n
        → n ≡ 0
    pub open_keeps : (d name : String) (s : State) → Keeps s (files.open_file d name s).1
    pub sync_keeps : (h : Handle) (s : State) → Keeps s (files.sync h s).1
    pub write_adds :
        (d name : String) (s : State) (h : Handle) (p : Bytes) (n : ℕ)
        → (files.open_file d name s).0 ≡ some h
        → let s1 = (files.open_file d name s).1 in
          directory_bytes files d s1 ≡ some n
          → directory_bytes files d (files.write h p s1).1 ≡ some (n + (files.write h p s1).0.0)
    pub write_others :
        (d name k : String) (s : State) (h : Handle) (p : Bytes) (n : ℕ)
        → (files.open_file d name s).0 ≡ some h
        → k ≢ d
        → let s1 = (files.open_file d name s).1 in
          directory_bytes files k s1 ≡ some n
          → directory_bytes files k (files.write h p s1).1 ≡ some n
    pub write_within : (h : Handle) (p : Bytes) (s : State) → (files.write h p s).0.0 ≤ length p
    pub write_whole :
        (h : Handle) (p : Bytes) (s : State)
        → (files.write h p s).0.1 ≡ true
        → (files.write h p s).0.0 ≡ length p

  -- The usage that a tenant's state claims to know is what its directory holds.
  abbrev pub Accounts : String → TenantReceiverState → State → Type 0
  Accounts tenant ts s = ts.used_known ≡ true → directory_bytes files tenant s ≡ some ts.used_bytes

  known_usage-Accounts :
      (tenant : String) (ts known : TenantReceiverState) (s : State)
      → Accounts tenant ts s
      → known_usage files tenant ts s ≡ some known
      → (directory_bytes files tenant s ≡ some known.used_bytes) × (known.used_known ≡ true)
  unfolding known_usage
  known_usage-Accounts tenant ts known s a e = elim (Bool-cases ts.used_known) [
    | inl is_known ↦
        let same : ts ≡ known = ground arith in
        subst
          (λ (x : TenantReceiverState).
            (directory_bytes files tenant s ≡ some x.used_bytes) × (x.used_known ≡ true))
          same (a is_known, is_known)
    | inr unknown ↦ elim (Option-cases (directory_bytes files tenant s)) [
      | inl fails ↦ absurd (ground arith)
      | inr (used, read) ↦
          let same : record ts { used_bytes = used; used_known = true } ≡ known = ground arith in
          subst
            (λ (x : TenantReceiverState).
              (directory_bytes files tenant s ≡ some x.used_bytes) × (x.used_known ≡ true))
            same (read, refl)
    ]
  ]

  -- Other directories are kept.
  abbrev pub KeepsOthers : String → State → State → Type 0
  KeepsOthers tenant s s' =
      (k : String) (n : ℕ)
      → k ≢ tenant
      → directory_bytes files k s ≡ some n
      → directory_bytes files k s' ≡ some n

  -- A directory that could not be read before is within the limit where it now can.
  abbrev pub IsNewWithin : ℕ → String → State → State → Type 0
  IsNewWithin limit tenant s s' =
      (u : ℕ)
      → directory_bytes files tenant s ≡ none
      → directory_bytes files tenant s' ≡ some u
      → u ≤ limit

  -- The usage behind a call that may have added `size` bytes to `used`, and has added them all where
  -- it answers 200.
  abbrev pub Settled : String → ℕ → ℕ → State → Stored files → Type 0
  Settled tenant used size s (code, ts, s') =
      (directory_bytes files tenant s' ≡ some ts.used_bytes)
      × (ts.used_known ≡ true)
      × (ts.used_bytes ≤ used + size)
      × (code ≡ 200 → ts.used_bytes ≡ used + size)
      × KeepsOthers tenant s s'

  module _ (laws : Laws) where
    append_payload-Settled :
        (tenant name : String) (payload : Bytes) (ts : TenantReceiverState) (s : State)
        → directory_bytes files tenant s ≡ some ts.used_bytes
        → ts.used_known ≡ true
        → Settled tenant ts.used_bytes
            (length payload)
            s
            (append_payload files tenant name payload ts s)
    unfolding append_payload
    append_payload-Settled tenant name payload ts s u k =
        let s1 = (files.open_file tenant name s).1 in
        let before = laws.open_keeps tenant name s tenant ts.used_bytes u in
        let goal = Settled tenant ts.used_bytes (length payload) s in
        elim (Option-cases (files.open_file tenant name s).0) [
          | inl fails ↦
              let step : append_payload files tenant name payload ts s ≡ (500, ts, s1) =
                rw (fails, append_payload) in
              subst goal (sym step) (
                before,
                k,
                omega arith,
                λ e. absurd (omega (arith, e)),
                λ j n ne old. laws.open_keeps tenant name s j n old,
              )
          | inr (h, opens) ↦
              let wrote = files.write h payload s1 in
              let counted : TenantReceiverState = record ts {
                used_bytes = ts.used_bytes + wrote.0.0;
              } in
              let here = laws.write_adds tenant name s h payload ts.used_bytes opens before in
              let fits : counted.used_bytes ≤ ts.used_bytes + length payload =
                omega (arith, laws.write_within h payload s1) in
              let others : KeepsOthers tenant s wrote.1 = (λ j n ne old.
                laws.write_others tenant name j s h payload n opens ne
                  (laws.open_keeps tenant name s j n old)) in
              elim (Bool-cases wrote.0.1) [
                | inr broken ↦
                    let step : append_payload files tenant name payload ts s
                        ≡ (500, counted, wrote.1) =
                      rw (opens, broken, append_payload) in
                    subst goal (sym step) (here, k, fits, λ e. absurd (omega (arith, e)), others)
                | inl whole ↦
                    let s3 = (files.sync h wrote.1).1 in
                    let kept = laws.sync_keeps h wrote.1 tenant counted.used_bytes here in
                    let others3 : KeepsOthers tenant s s3 =
                      (λ j n ne old. laws.sync_keeps h wrote.1 j n (others j n ne old)) in
                    let all : counted.used_bytes ≡ ts.used_bytes + length payload =
                      omega (arith, laws.write_whole h payload s1 whole) in
                    elim (Bool-cases (files.sync h wrote.1).0) [
                      | inl synced ↦
                          let step : append_payload files tenant name payload ts s
                              ≡ (200, counted, s3) =
                            rw (opens, whole, synced, append_payload) in
                          subst goal (sym step) (kept, k, fits, λ e. all, others3)
                      | inr lost ↦
                          let step : append_payload files tenant name payload ts s
                              ≡ (500, counted, s3) =
                            rw (opens, whole, lost, append_payload) in
                          subst goal (sym step) (kept, k, fits, λ e. all, others3)
                    ]
              ]
        ]

    -- What holds behind a call that stores a payload for a tenant, and where it answers 200.
    abbrev pub StoresWell : ℕ → String → ℕ → State → Stored files → Type 0
    StoresWell max_tenant_bytes tenant size s (code, ts, s') =
        Accounts tenant ts s'
        × ((u : ℕ)
            → directory_bytes files tenant s ≡ some u
            → (u' : ℕ) × (directory_bytes files tenant s' ≡ some u')
              × (u' ≤ max u max_tenant_bytes))
        × KeepsOthers tenant s s'
        × IsNewWithin max_tenant_bytes tenant s s'
        × (code ≡ 200
            → (u : ℕ) × (directory_bytes files tenant (files.mkdir_all tenant s).1 ≡ some u)
              × (directory_bytes files tenant s' ≡ some (u + size))
              × (u + size ≤ max_tenant_bytes))

    pub store_payload-StoresWell :
        (max_tenant_bytes : ℕ) (tenant name : String) (payload : Bytes) (ts : TenantReceiverState)
        (s : State)
        → Accounts tenant ts s
        → StoresWell max_tenant_bytes tenant
            (length payload)
            s
            (store_payload files max_tenant_bytes tenant name payload ts s)
    unfolding store_payload
    store_payload-StoresWell limit tenant name payload ts s a =
        let s1 = (files.mkdir_all tenant s).1 in
        let goal = StoresWell limit tenant (length payload) s in
        let run = store_payload files limit tenant name payload ts s in
        let made = laws.mkdir_keeps tenant s in
        let a1 : Accounts tenant ts s1 = λ e. made tenant ts.used_bytes (a e) in
        let idle : (code : ℕ) (t : TenantReceiverState)
            → Accounts tenant t s1
            → code ≢ 200
            → goal (code, t, s1) =
          λ code t acc bad. (
            acc,
            λ u e. (u, made tenant u e, omega arith),
            λ j n ne old. made j n old,
            λ u gone e. omega (arith, laws.mkdir_new tenant s u gone e),
            λ e. absurd (bad e),
          ) in
        elim (Bool-cases (files.mkdir_all tenant s).0) [
          | inr fails ↦
              let step : run ≡ (500, ts, s1) = rw (fails, store_payload) in
              subst goal (sym step) (idle 500 ts a1 (λ e. omega (arith, e)))
          | inl ok ↦ elim (Option-cases (known_usage files tenant ts s1)) [
            | inl unread ↦
                let step : run ≡ (500, ts, s1) = rw (ok, unread, store_payload) in
                subst goal (sym step) (idle 500 ts a1 (λ e. omega (arith, e)))
            | inr (known, reads) ↦
                let (used, is_known) = known_usage-Accounts tenant ts known s1 a1 reads in
                elim (Bool-cases (ltb limit (known.used_bytes + length payload))) [
                  | inl over ↦
                      let step : run ≡ (507, known, s1) = rw (ok, reads, over, store_payload) in
                      subst goal (sym step) (idle 507 known (λ e. used) (λ e. omega (arith, e)))
                  | inr fits ↦
                      let out = append_payload files tenant name payload known s1 in
                      let step : run ≡ out = rw (ok, reads, fits, store_payload) in
                      let small = le_of_not _ _ fits in
                      let (grown, still, within, all, others) =
                        append_payload-Settled tenant name payload known s1 used is_known in
                      subst goal (sym step) (
                        λ e. grown,
                        λ u e.
                            let same : some u ≡ some known.used_bytes =
                              sym (made tenant u e) ∙ used in
                            (out.1.used_bytes, grown, ground arith),
                        λ j n ne old. others j n ne (made j n old),
                        λ u gone e.
                            let same : some u ≡ some out.1.used_bytes = sym e ∙ grown in
                            let size : u ≡ out.1.used_bytes = cc in
                            omega (arith, size, within, small),
                        λ e. (known.used_bytes, used, grown ∙ ap some (all e), small),
                      )
                ]
          ]
        ]
