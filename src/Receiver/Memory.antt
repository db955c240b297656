-- ===== src/Receiver/Memory.antt =====
-- A file system in memory, with one file in each directory whatever name it is opened by, which obeys
-- what the proofs about the log receiver ask of a file system.
use synit_waf.Prelude.{
  ℕ, ◌+◌, true, false, String, Option, none, some, List, [], ◌∷◌, ◌++◌, length, length-append,
  lookup, insert, lookup-insert, eq_iff, ◌≡◌, refl, sym, ap, subst, str_eq, ◌∙◌, ◌≢◌, inl, inr,
  arith, Bool-cases, Option-cases,
}
use synit_waf.Request.Text.{Bytes}
use synit_waf.Receiver.Store.{Files, DirEntry, directory_bytes, total_bytes}
use synit_waf.Receiver.Quota.{Laws, Keeps}
use synit_waf.Receiver.Texts.{TextLaws}
use synit_waf.Receiver.Retention.{RemovesLocally}

-- The text of each directory's file.
abbrev pub Disk : Type 0
Disk = List (String × Bytes)

abbrev text_or_empty : Option Bytes → Bytes
text_or_empty none = []
text_or_empty (some text) = text

abbrev size_of : Option Bytes → Option ℕ
size_of none = none
size_of (some text) = some (length text)

abbrev entries_of : Option Bytes → Option (List DirEntry)
entries_of none = none
entries_of (some text) = some (
    record {
      name = "day.log";
      is_dir = false;
      info = some (record { regular = true; size = length text; mod_time = 0 });
    }
    ∷ [])

abbrev made : String → Option Bytes → Disk → Disk
made d none s = insert d [] s
made d (some text) s = s

abbrev appended : String → Bytes → Disk → Disk
appended d p s = insert d (text_or_empty (lookup d s) ++ p) s

abbrev pub memory : Files
memory = record {
  State = Disk;
  Handle = String;
  mkdir_all = λ d s. (true, made d (lookup d s) s);
  read_dir = λ d s. entries_of (lookup d s);
  open_file = λ d name s. (some d, s);
  write = λ h p s. ((length p, true), appended h p s);
  sync = λ h s. (true, s);
  remove = λ d name s. (true, insert d [] s);
}

directory_bytes-memory : (d : String) (s : Disk) → directory_bytes memory d s ≡ size_of (lookup d s)
unfolding directory_bytes total_bytes
directory_bytes-memory d s = elim (Option-cases (lookup d s)) [
  | inl absent ↦ ground arith
  | inr (n, there) ↦ ground arith
]

insert_others :
    (d k : String) (v : Bytes) (n : ℕ) (s : Disk)
    → k ≢ d
    → directory_bytes memory k s ≡ some n
    → directory_bytes memory k (insert d v s) ≡ some n
insert_others d k v n s ne old =
    let found : lookup k (insert d v s) ≡ lookup k s =
      ground (arith, lookup-insert d k v s, eq_iff d k) in
    directory_bytes-memory k (insert d v s)
    ∙ ap size_of found
    ∙ sym (directory_bytes-memory k s)
    ∙ old

mkdir-Keeps : (d : String) (s : Disk) → Keeps memory s (made d (lookup d s) s)
mkdir-Keeps d s k n old = elim (Option-cases (lookup d s)) [
  | inr (m, there) ↦ rw there old
  | inl absent ↦
      let gone : directory_bytes memory d s ≡ none =
        directory_bytes-memory d s ∙ ap size_of absent in
      rw absent (
        insert_others d k [] n s
          (λ e. absurd (cc (sym gone ∙ ap (λ x. directory_bytes memory x s) (sym e) ∙ old))) old)
]

mkdir-new :
    (d : String) (s : Disk) (n : ℕ)
    → directory_bytes memory d s ≡ none
    → directory_bytes memory d (made d (lookup d s) s) ≡ some n
    → n ≡ 0
mkdir-new d s n gone now = elim (Option-cases (lookup d s)) [
  | inr (text, there) ↦ absurd (cc (sym gone ∙ directory_bytes-memory d s ∙ ap size_of there))
  | inl absent ↦
      let here : lookup d (insert d [] s) ≡ some [] =
        ground (arith, lookup-insert d d [] s, eq_iff d d) in
      let size : directory_bytes memory d (made d (lookup d s) s) ≡ some 0 =
        rw absent (directory_bytes-memory d (insert d [] s) ∙ ap size_of here) in
      let same : some n ≡ some 0 = sym now ∙ size in cc
]

lookup-appended :
    (d : String) (p : Bytes) (s : Disk)
    → lookup d (appended d p s) ≡ some (text_or_empty (lookup d s) ++ p)
lookup-appended d p s =
    ground (arith, lookup-insert d d (text_or_empty (lookup d s) ++ p) s, eq_iff d d)

write_adds :
    (d : String) (p : Bytes) (n : ℕ) (s : Disk)
    → directory_bytes memory d s ≡ some n
    → directory_bytes memory d (appended d p s) ≡ some (n + length p)
write_adds d p n s old = elim (Option-cases (lookup d s)) [
  | inl absent ↦ absurd (cc (sym old ∙ directory_bytes-memory d s ∙ ap size_of absent))
  | inr (text, there) ↦
      let sizes : some (length text) ≡ some n =
        sym (directory_bytes-memory d s ∙ ap size_of there) ∙ old in
      let size : length text ≡ n = cc in
      let longer : text_or_empty (lookup d s) ++ p ≡ text ++ p =
        ap (λ x. text_or_empty x ++ p) there in
      directory_bytes-memory d (appended d p s)
      ∙ ap size_of (lookup-appended d p s ∙ ap some longer)
      ∙ ap some (omega (arith, length-append text p, size))
]

pub memory_laws : Laws memory
memory_laws = record {
  mkdir_keeps = mkdir-Keeps;
  mkdir_new = mkdir-new;
  open_keeps = λ d name s k n old. old;
  sync_keeps = λ h s k n old. old;
  write_adds = λ d name s h p n opens old.
      let same : d ≡ h = cc in
      subst (λ x. directory_bytes memory d (appended x p s) ≡ some (n + length p)) same
        (write_adds d p n s old);
  write_others = λ d name k s h p n opens ne old.
      insert_others h k (text_or_empty (lookup h s) ++ p) n s (λ e. ne (cc)) old;
  write_within = λ h p s. omega arith;
  write_whole = λ h p s e. refl;
}

made-text :
    (d k : String) (s : Disk)
    → text_or_empty (lookup k (made d (lookup d s) s)) ≡ text_or_empty (lookup k s)
made-text d k s = elim (Option-cases (lookup d s)) [
  | inr (text, there) ↦ rw there refl
  | inl absent ↦ elim (Bool-cases (str_eq d k)) [
    | inl same ↦
        let here : d ≡ k = (eq_iff d k).0 same in
        let found : lookup k (insert d [] s) ≡ some [] = ground (arith, lookup-insert d k [] s) in
        let gone : lookup k s ≡ none = ap (λ x. lookup x s) (sym here) ∙ absent in
        rw absent (ap text_or_empty found ∙ sym (ap text_or_empty gone))
    | inr other ↦
        let found : lookup k (insert d [] s) ≡ lookup k s =
          ground (arith, lookup-insert d k [] s) in
        rw absent (ap text_or_empty found)
  ]
]

pub memory_texts : TextLaws memory
memory_texts = record {
  text_of = λ d name s. text_or_empty (lookup d s);
  mkdir_text = λ d k name s. made-text d k s;
  open_text = λ d file k name s. refl;
  sync_text = λ h k name s. refl;
  write_text = λ d name s h p opens whole.
      let same : d ≡ h = cc in
      subst (λ x. text_or_empty (lookup d (appended x p s)) ≡ text_or_empty (lookup d s) ++ p) same
        (ap text_or_empty (lookup-appended d p s));
}

pub memory_local : RemovesLocally memory (λ name. ".log")
memory_local d name s k n ne old = insert_others d k [] n s ne old
