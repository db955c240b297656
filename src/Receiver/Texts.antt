-- ===== src/Receiver/Texts.antt =====
-- What `handleLogs` of services/ai-logs-receiver/main.go writes into a tenant's file, under what a file
-- system does to the texts of its files.
use synit_waf.Prelude.{
  ℕ, ◌+◌, true, String, some, length, ltb, ◌++◌, ◌≡◌, sym, ap, ◌∙◌, inl, inr, arith, Bool-cases,
  Option-cases,
}
use synit_waf.Request.Text.{Bytes}
use synit_waf.Receiver.Window.{TenantReceiverState}
use synit_waf.Receiver.Store.{Files, Stored, known_usage, append_payload, store_payload}

module _ (files : Files) where
  open files use {State, Handle}

  -- The text of the file of a name in a directory, empty where there is none. Making a directory,
  -- opening and syncing change none, and a write without an error appends to the file that was opened.
  pub record TextLaws : Type 0 where
    pub text_of : String → String → State → Bytes
    pub mkdir_text :
        (d k name : String) (s : State) → text_of k name (files.mkdir_all d s).1 ≡ text_of k name s
    pub open_text :
        (d file k name : String) (s : State)
        → text_of k name (files.open_file d file s).1 ≡ text_of k name s
    pub sync_text :
        (h : Handle) (k name : String) (s : State)
        → text_of k name (files.sync h s).1 ≡ text_of k name s
    pub write_text :
        (d name : String) (s : State) (h : Handle) (p : Bytes)
        → (files.open_file d name s).0 ≡ some h
        → let s1 = (files.open_file d name s).1 in
          (files.write h p s1).0.1 ≡ true
          → text_of d name (files.write h p s1).1 ≡ text_of d name s1 ++ p

  module _ (texts : TextLaws) where
    append_payload-text :
        (tenant name : String) (payload : Bytes) (ts : TenantReceiverState) (s : State)
        → (append_payload files tenant name payload ts s).0 ≡ 200
        → texts.text_of tenant name (append_payload files tenant name payload ts s).2
          ≡ texts.text_of tenant name s ++ payload
    unfolding append_payload
    append_payload-text tenant name payload ts s ok =
        let s1 = (files.open_file tenant name s).1 in
        let text = texts.text_of tenant name in
        let run = append_payload files tenant name payload ts s in
        elim (Option-cases (files.open_file tenant name s).0) [
          | inl fails ↦ absurd (ground arith)
          | inr (h, opens) ↦ elim (Bool-cases (files.write h payload s1).0.1) [
            | inr broken ↦ absurd (ground arith)
            | inl whole ↦ elim (Bool-cases (files.sync h (files.write h payload s1).1).0) [
              | inr lost ↦ absurd (ground arith)
              | inl synced ↦
                  let s2 = (files.write h payload s1).1 in
                  let step : run.2 ≡ (files.sync h s2).1 =
                    rw (opens, whole, synced, append_payload) in
                  ap text step
                  ∙ texts.sync_text h tenant name s2
                  ∙ texts.write_text tenant name s h payload opens whole
                  ∙ ap (λ (x : Bytes). x ++ payload) (texts.open_text tenant name tenant name s)
            ]
          ]
        ]

    -- A payload that is answered with 200 stands at the end of its file, behind what was there.
    pub store_payload-text :
        (limit : ℕ) (tenant name : String) (payload : Bytes) (ts : TenantReceiverState) (s : State)
        → (store_payload files limit tenant name payload ts s).0 ≡ 200
        → texts.text_of tenant name (store_payload files limit tenant name payload ts s).2
          ≡ texts.text_of tenant name s ++ payload
    unfolding store_payload
    store_payload-text limit tenant name payload ts s ok =
        let s1 = (files.mkdir_all tenant s).1 in
        let text = texts.text_of tenant name in
        let run = store_payload files limit tenant name payload ts s in
        elim (Bool-cases (files.mkdir_all tenant s).0) [
          | inr fails ↦ absurd (ground arith)
          | inl made ↦ elim (Option-cases (known_usage files tenant ts s1)) [
            | inl unread ↦ absurd (ground arith)
            | inr (known, reads) ↦
                elim (Bool-cases (ltb limit (known.used_bytes + length payload))) [
                  | inl over ↦ absurd (ground arith)
                  | inr fits ↦
                      let out = append_payload files tenant name payload known s1 in
                      let step : run ≡ out = rw (made, reads, fits, store_payload) in
                      ap (λ (x : Stored files). text x.2) step
                      ∙ append_payload-text tenant name payload known s1
                          (sym (ap (λ (x : Stored files). x.0) step) ∙ ok)
                      ∙ ap (λ (x : Bytes). x ++ payload) (texts.mkdir_text tenant tenant name s)
                ]
          ]
        ]
