-- ===== src/Receiver/Retention.antt =====
-- `removeExpiredLogs` and `cleanupExpiredLogs` of services/ai-logs-receiver/main.go.
--
-- `filepath.Ext` and the listing of the logs directory are parameters. The clock stands still during
-- one sweep. Times are nanoseconds from 1970 on, and no file is older.
use synit_waf.Prelude.{
  ℕ, ◌-◌, ◌<◌, Bool, true, false, not, ◌&&◌, String, Option, none, some, List, [], ◌∷◌, ltb,
  if◌then◌else◌, lookup, insert, lookup-insert, str_eq, eq_iff, ◌≡◌, refl, sym, subst, ◌∙◌, ◌⊎◌,
  inl, inr, arith, Bool-cases, Option-cases,
}
use synit_waf.Receiver.Window.{TenantReceiverState}
use synit_waf.Receiver.Store.{Files, DirEntry, Info, directory_bytes}
use synit_waf.Receiver.Quota.{Accounts, KeepsOthers}
use synit_waf.Receiver.Serve.{LogReceiver, tenant_state}
use synit_waf.Receiver.Calls.{IsAccounted}

-- What reading the logs directory gives.
pub data LogsDir : Type 0 where
  missing unreadable : LogsDir
  listed : List DirEntry → LogsDir

LogsDir-cases :
    (d : LogsDir)
    → ((d ≡ missing) ⊎ (d ≡ unreadable)) ⊎ ((entries : List DirEntry) × (d ≡ listed entries))
LogsDir-cases missing = inl (inl refl)
LogsDir-cases unreadable = inl (inr refl)
LogsDir-cases (listed entries) = inr (entries, refl)

module _ (files : Files) (ext : String → String) where
  open files use {State}

  unfoldable pub is_log : DirEntry → Bool
  is_log entry = not entry.is_dir && str_eq (ext entry.name) ".log"

  -- The loop over the entries; false: it was left with an error.
  unfoldable pub remove_entries : ℕ → String → List DirEntry → State → Bool × State
  unfolding is_log
  remove_entries cutoff dir [] s = (true, s)
  remove_entries cutoff dir (entry ∷ entries) s =
      let skip = remove_entries cutoff dir entries s in
      let (removed, s1) = files.remove dir entry.name s in
      let more = remove_entries cutoff dir entries s1 in
      if not (is_log entry) then skip else elim entry.info [
        | none ↦ (false, s)
        | some i ↦
            if i.regular && ltb i.mod_time cutoff
            then (if removed then more else (false, s1))
            else skip
      ]

  unfoldable pub remove_expired_logs : ℕ → String → State → Bool × State
  unfolding remove_entries
  remove_expired_logs cutoff dir s = elim (files.read_dir dir s) [
    | none ↦ (false, s)
    | some entries ↦ remove_entries cutoff dir entries s
  ]

  unfoldable pub reconcile : TenantReceiverState → Option ℕ → TenantReceiverState
  reconcile ts none = record ts { used_bytes = 0; used_known = false }
  reconcile ts (some used) = record ts { used_bytes = used; used_known = true }

  abbrev pub is_ok : Option ℕ → Bool
  is_ok none = false
  is_ok (some n) = true

  -- One tenant's part of the sweep.
  unfoldable pub sweep_tenant : ℕ → String → LogReceiver files → Bool × LogReceiver files
  unfolding remove_expired_logs reconcile tenant_state
  sweep_tenant cutoff tenant r =
      let (ok, disk) = remove_expired_logs cutoff tenant r.disk in
      let used = directory_bytes files tenant disk in
      let ts = reconcile (tenant_state tenant r.tenants) used in
      (ok && is_ok used, record r { tenants = insert tenant ts r.tenants; disk = disk })

  -- An error of one tenant does not keep the sweep from the others.
  unfoldable pub sweep : ℕ → List DirEntry → LogReceiver files → Bool × LogReceiver files
  unfolding sweep_tenant
  sweep cutoff [] r = (true, r)
  sweep cutoff (entry ∷ entries) r =
      let skip = sweep cutoff entries r in
      let (ok, r1) = sweep_tenant cutoff entry.name r in
      let (others, r2) = sweep cutoff entries r1 in
      if entry.is_dir then (ok && others, r2) else skip

  unfoldable pub cleanup_expired_logs :
      (State → LogsDir) → ℕ → ℕ → LogReceiver files → Bool × LogReceiver files
  unfolding sweep
  cleanup_expired_logs list_logs retention now r = elim (list_logs r.disk) [
    | missing ↦ (true, r)
    | unreadable ↦ (false, r)
    | listed entries ↦ sweep (now - retention) entries r
  ]

  -- An entry that the sweep may remove.
  abbrev pub IsExpired : ℕ → DirEntry → Type 0
  IsExpired cutoff e =
      (e.is_dir ≡ false)
      × (str_eq (ext e.name) ".log" ≡ true)
      × ((i : Info) × (e.info ≡ some i) × (i.regular ≡ true) × (i.mod_time < cutoff))

  -- What the removal of any expired log keeps, a sweep of the directory keeps.
  abbrev RemovalKeeps : ℕ → String → (State → Type 0) → Type 0
  RemovalKeeps cutoff dir P =
      (e : DirEntry) (s : State) → IsExpired cutoff e → P s → P (files.remove dir e.name s).1

  remove_entries-keeps :
      (cutoff : ℕ) (dir : String) (P : State → Type 0) (entries : List DirEntry) (s : State)
      → RemovalKeeps cutoff dir P
      → P s
      → P (remove_entries cutoff dir entries s).1
  unfolding remove_entries is_log
  remove_entries-keeps cutoff dir P [] s keeps p = p
  remove_entries-keeps cutoff dir P (e ∷ entries) s keeps p =
      let run = remove_entries cutoff dir (e ∷ entries) s in
      let goal : Bool × State → Type 0 = λ x. P x.1 in
      let s1 = (files.remove dir e.name s).1 in
      let skip = remove_entries-keeps cutoff dir P entries s keeps p in
      let skipped : run ≡ remove_entries cutoff dir entries s → goal run =
        λ step. subst goal (sym step) skip in
      elim (Bool-cases (is_log e)) [
        | inr other ↦ skipped (rw (other, remove_entries))
        | inl log ↦ elim (Option-cases e.info) [
          | inl unknown ↦
              let step : run ≡ (false, s) = rw (log, unknown, remove_entries) in
              subst goal (sym step) p
          | inr (i, known) ↦ elim (Bool-cases (i.regular && ltb i.mod_time cutoff)) [
            | inr young ↦ skipped (rw (log, known, young, remove_entries))
            | inl old ↦
                let p1 : P s1 =
                  keeps e s (ground arith, ground arith, (i, known, ground arith, ground arith))
                    p in
                elim (Bool-cases (files.remove dir e.name s).0) [
                  | inl removed ↦
                      let step : run ≡ remove_entries cutoff dir entries s1 =
                        rw (log, known, old, removed, remove_entries) in
                      subst goal (sym step) (remove_entries-keeps cutoff dir P entries s1 keeps p1)
                  | inr stays ↦
                      let step : run ≡ (false, s1) = rw (log, known, old, stays, remove_entries) in
                      subst goal (sym step) p1
                ]
          ]
        ]
      ]

  -- Whatever the removal of a regular log file keeps that is older than the cutoff, removing the
  -- expired logs keeps: nothing else is removed.
  pub remove_expired_logs_keeps :
      (cutoff : ℕ) (dir : String) (P : State → Type 0) (s : State)
      → RemovalKeeps cutoff dir P
      → P s
      → P (remove_expired_logs cutoff dir s).1
  unfolding remove_expired_logs
  remove_expired_logs_keeps cutoff dir P s keeps p =
      let goal : Bool × State → Type 0 = λ x. P x.1 in
      elim (Option-cases (files.read_dir dir s)) [
        | inl unread ↦
            let step : remove_expired_logs cutoff dir s ≡ (false, s) =
              rw (unread, remove_expired_logs) in
            subst goal (sym step) p
        | inr (entries, read) ↦
            let step : remove_expired_logs cutoff dir s ≡ remove_entries cutoff dir entries s =
              rw (read, remove_expired_logs) in
            subst goal (sym step) (remove_entries-keeps cutoff dir P entries s keeps p)
      ]

  -- Removing a file changes no other directory.
  abbrev pub RemovesLocally : Type 0
  RemovesLocally = (d name : String) (s : State) → KeepsOthers files d s (files.remove d name s).1

  module _ (local : RemovesLocally) where
    remove_expired_logs-others :
        (cutoff : ℕ) (dir : String) (s : State)
        → KeepsOthers files dir s (remove_expired_logs cutoff dir s).1
    remove_expired_logs-others cutoff dir s =
        remove_expired_logs_keeps cutoff dir (KeepsOthers files dir s) s
          (λ e s1 x h k n ne old. local dir e.name s1 k n ne (h k n ne old)) (λ k n ne old. old)

    reconcile-Accounts :
        (tenant : String) (ts : TenantReceiverState) (s : State)
        → Accounts files tenant (reconcile ts (directory_bytes files tenant s)) s
    unfolding reconcile
    reconcile-Accounts tenant ts s = elim (Option-cases (directory_bytes files tenant s)) [
      | inl unread ↦ λ e. absurd (ground arith)
      | inr (n, read) ↦ λ e. ground arith
    ]

    sweep_tenant-IsAccounted :
        (cutoff : ℕ) (tenant : String) (r : LogReceiver files)
        → IsAccounted files r
        → IsAccounted files (sweep_tenant cutoff tenant r).1
    unfolding sweep_tenant
    sweep_tenant-IsAccounted cutoff tenant r a = λ id t there known.
        let disk = (remove_expired_logs cutoff tenant r.disk).1 in
        let ts = reconcile (tenant_state tenant r.tenants) (directory_bytes files tenant disk) in
        let found = lookup-insert tenant id ts r.tenants in
        elim (Bool-cases (str_eq tenant id)) [
          | inl same ↦
              let here : tenant ≡ id = (eq_iff tenant id).0 same in
              let read : some t ≡ some ts = sym there ∙ ground (arith, found) in
              let state : t ≡ ts = cc in
              subst (λ k. Accounts files k t disk) here
                (subst (λ x. Accounts files tenant x disk) (sym state)
                  (reconcile-Accounts tenant (tenant_state tenant r.tenants) disk))
                known
          | inr other ↦
              let read : lookup id r.tenants ≡ some t = ground (arith, found) in
              remove_expired_logs-others cutoff tenant r.disk id t.used_bytes
                (λ e. ground (arith, eq_iff tenant id)) (a id t read known)
        ]

    sweep-IsAccounted :
        (cutoff : ℕ) (entries : List DirEntry) (r : LogReceiver files)
        → IsAccounted files r
        → IsAccounted files (sweep cutoff entries r).1
    unfolding sweep
    sweep-IsAccounted cutoff [] r a = a
    sweep-IsAccounted cutoff (entry ∷ entries) r a = elim (Bool-cases entry.is_dir) [
      | inl dir ↦
          let r1 = (sweep_tenant cutoff entry.name r).1 in
          let step : (sweep cutoff (entry ∷ entries) r).1 ≡ (sweep cutoff entries r1).1 =
            rw (dir, sweep) in
          subst (IsAccounted files) (sym step)
            (sweep-IsAccounted cutoff entries r1 (sweep_tenant-IsAccounted cutoff entry.name r a))
      | inr other ↦
          let step : (sweep cutoff (entry ∷ entries) r).1 ≡ (sweep cutoff entries r).1 =
            rw (other, sweep) in
          subst (IsAccounted files) (sym step) (sweep-IsAccounted cutoff entries r a)
    ]

    -- Where removing a file changes no other directory, a sweep leaves the usage that the receiver
    -- claims to know what the directories hold, whatever fails during it.
    pub cleanup_expired_logs-IsAccounted :
        (list_logs : State → LogsDir) (retention now : ℕ) (r : LogReceiver files)
        → IsAccounted files r
        → IsAccounted files (cleanup_expired_logs list_logs retention now r).1
    unfolding cleanup_expired_logs
    cleanup_expired_logs-IsAccounted list_logs retention now r a =
        elim (LogsDir-cases (list_logs r.disk)) [
          | inl (inl e) ↦
              let step : (cleanup_expired_logs list_logs retention now r).1 ≡ r =
                rw (e, cleanup_expired_logs) in
              subst (IsAccounted files) (sym step) a
          | inl (inr e) ↦
              let step : (cleanup_expired_logs list_logs retention now r).1 ≡ r =
                rw (e, cleanup_expired_logs) in
              subst (IsAccounted files) (sym step) a
          | inr (entries, e) ↦
              let step : (cleanup_expired_logs list_logs retention now r).1
                  ≡ (sweep (now - retention) entries r).1 =
                rw (e, cleanup_expired_logs) in
              subst (IsAccounted files) (sym step) (sweep-IsAccounted (now - retention) entries r a)
        ]
