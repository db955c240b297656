-- ===== src/Receiver/Store.antt =====
-- The part of `handleLogs` in services/ai-logs-receiver/main.go that runs under a tenant's lock and
-- puts a payload into the tenant's directory, with `directoryBytes`.
--
-- The file system is an interface over one state. Byte counts are sizes of files on one disk, whose
-- sums stay far below 2^63.
use synit_waf.Prelude.{
  ℕ, ◌+◌, Bool, true, String, Option, none, some, List, [], ◌∷◌, length, ltb, if◌then◌else◌,
}
use synit_waf.Request.Text.{Bytes}
use synit_waf.Receiver.Window.{TenantReceiverState}

pub record Info : Type 0 where
  pub regular : Bool
  pub size : ℕ
  pub mod_time : ℕ

-- `info` is none where `Info` fails.
pub record DirEntry : Type 0 where
  pub name : String
  pub is_dir : Bool
  pub info : Option Info

-- A directory is named by its tenant: all stand in the logs directory.
pub record Files : Type 1 where
  pub State : Type 0
  pub Handle : Type 0
  pub mkdir_all : String → State → Bool × State
  -- none: the directory cannot be read.
  pub read_dir : String → State → Option (List DirEntry)
  -- Opens the file of this name for appending, and creates it where it is missing.
  pub open_file : String → String → State → Option Handle × State
  -- How many bytes were written, and whether that went without an error.
  pub write : Handle → Bytes → State → (ℕ × Bool) × State
  pub sync : Handle → State → Bool × State
  pub remove : String → String → State → Bool × State

unfoldable pub total_bytes : List DirEntry → Option ℕ
total_bytes [] = some 0
total_bytes (entry ∷ entries) =
    let rest = total_bytes entries in
    if entry.is_dir then rest else elim entry.info [
      | none ↦ none
      | some i ↦
          if i.regular then (elim rest [ none ↦ none | some n ↦ some (i.size + n) ]) else rest
    ]

module _ (files : Files) where
  open files use {State, Handle}

  unfoldable pub directory_bytes : String → State → Option ℕ
  unfolding total_bytes
  directory_bytes dir s = elim (files.read_dir dir s) [
    | none ↦ none
    | some entries ↦ total_bytes entries
  ]

  -- A status, the tenant's state and the files behind the call.
  abbrev pub Stored : Type 0
  Stored = ℕ × TenantReceiverState × State

  -- The usage is read from the directory where it is not known; none: that failed.
  unfoldable pub known_usage : String → TenantReceiverState → State → Option TenantReceiverState
  unfolding directory_bytes
  known_usage tenant ts s = if ts.used_known then some ts else elim (directory_bytes tenant s) [
    | none ↦ none
    | some used ↦ some (record ts { used_bytes = used; used_known = true })
  ]

  unfoldable pub append_payload : String → String → Bytes → TenantReceiverState → State → Stored
  append_payload tenant name payload ts s =
      let (opened, s1) = files.open_file tenant name s in
      elim opened [
        | none ↦ (500, ts, s1)
        | some h ↦
            let (outcome, s2) = files.write h payload s1 in
            let counted = record ts { used_bytes = ts.used_bytes + outcome.0 } in
            let (synced, s3) = files.sync h s2 in
            if outcome.1
            then (if synced then (200, counted, s3) else (500, counted, s3))
            else (500, counted, s2)
      ]

  unfoldable pub store_payload : ℕ → String → String → Bytes → TenantReceiverState → State → Stored
  unfolding known_usage append_payload
  store_payload max_tenant_bytes tenant name payload ts s =
      let (made, s1) = files.mkdir_all tenant s in
      if made
      then (elim (known_usage tenant ts s1) [
        | none ↦ (500, ts, s1)
        | some known ↦
            if ltb max_tenant_bytes (known.used_bytes + length payload)
            then (507, known, s1)
            else append_payload tenant name payload known s1
      ])
      else (500, ts, s1)
