-- ===== src/Registry/Tests.antt =====
-- The theorems about the registry at a mapping with two wildcard domains, one below the other.
use synit_waf.Prelude.{ℕ, Option, none, [], ◌∷◌, ◌≡◌, refl}
use synit_waf.Request.Text.{Bytes, bytes_eq}
use synit_waf.Registry.{find_entry, normalize_host, get}
use synit_waf.Registry.Index.{Mapping}
use synit_waf.Registry.Scan.{Distinct, IsFound, get_indexed, get_most_specific, get_scans}

-- The domains are *.x and *.y.x.
abbrev mapping : Mapping ℕ
mapping = (b'*' ∷ b'.' ∷ b'x' ∷ [], 1) ∷ (b'*' ∷ b'.' ∷ b'y' ∷ b'.' ∷ b'x' ∷ [], 2) ∷ []

-- a.y.x
abbrev host : Bytes
host = b'a' ∷ b'.' ∷ b'y' ∷ b'.' ∷ b'x' ∷ []

abbrev lower : Bytes → Bytes
lower h = h

abbrev no_port : Bytes → Option Bytes
no_port h = none

mapping-Distinct : Distinct ℕ mapping
unfolding find_entry bytes_eq
mapping-Distinct = (refl, (refl, tt))

get_most_specific_example :
    IsFound ℕ
      (normalize_host lower no_port host)
      mapping
      (get_indexed ℕ lower no_port 0 mapping host)
get_most_specific_example = get_most_specific ℕ lower no_port 0 mapping host mapping-Distinct

get_scans_example :
    get_indexed ℕ lower no_port 0 mapping host
    ≡ get ℕ lower no_port 0 (record { mapping = mapping; wildcards = none }) host
get_scans_example = get_scans ℕ lower no_port 0 mapping host mapping-Distinct
