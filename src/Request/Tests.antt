-- ===== src/Request/Tests.antt =====
-- The theorems about requests at concrete paths, bodies and addresses.
use synit_waf.Prelude.{
  ℕ, ◌≤◌, true, false, Option, none, some, List, [], ◌∷◌, ◌++◌, pos, ◌≡◌, refl, ◌⊎◌, inl, arith,
}
use synit_waf.Request.Text.{
  Bytes, slash, bytes_eq, split_from, split, space1, trim_left, trim_space, resolve, resolve_all,
  clean_parts,
}
use synit_waf.Request.Body.{
  BodyState, body_is, IsIntact, read_limit, read_body, inspection_body, inspection_body_whole,
}
use synit_waf.Request.Address.{
  Addr, v4, unmap, Prefix, same_network, contains_at, prefix_contains, prefixes_contain,
}
use synit_waf.Request.ClientIp.{address, client_ip, client_ip_spoofed}

abbrev a_part : Bytes
a_part = b'a' ∷ []

abbrev b_part : Bytes
b_part = b'b' ∷ []

-- "/x/..//a/b"
abbrev winding : Bytes
winding = slash ∷ b'x' ∷ slash ∷ b'.' ∷ b'.' ∷ slash ∷ slash ∷ b'a' ∷ slash ∷ b'b' ∷ []

winding_resolved : clean_parts winding ≡ (a_part ∷ []) ++ (b_part ∷ [])
unfolding clean_parts split split_from resolve resolve_all bytes_eq
winding_resolved = refl

abbrev fresh : BodyState
fresh = record {
  incoming = some (1 ∷ 2 ∷ 3 ∷ []);
  breaks = false;
  content_length = pos 3;
  has_info = true;
  body_read = false;
  body = [];
}

abbrev three : Bytes
three = 1 ∷ 2 ∷ 3 ∷ []

fresh-IsIntact : IsIntact three fresh
fresh-IsIntact = (refl, inl refl)

fresh_read :
    inspection_body 5 fresh ≡ (body_is three, record fresh { body = three; body_read = true })
unfolding inspection_body read_body read_limit
fresh_read = refl

inspection_body_whole_example :
    (three ≡ three)
    × (3 ≤ 5)
    × IsIntact three (record fresh { body = three; body_read = true })
    × ((fresh.has_info ≡ false) ⊎ (true ≡ true))
inspection_body_whole_example =
    inspection_body_whole 5 three three fresh (record fresh { body = three; body_read = true })
      (omega arith) fresh-IsIntact fresh_read

-- An address is written as one byte here; 60 is a trusted proxy.
abbrev parse : Bytes → Option Addr
parse (a ∷ []) = some (v4 a)
parse _ = none

abbrev trusted : List Prefix
trusted = record { addr = v4 60; bits = 32 } ∷ []

-- The client has written 49, its own address is 50.
abbrev forwarded : Bytes
forwarded = 49 ∷ b',' ∷ 50 ∷ b',' ∷ 60 ∷ []

split-forwarded : split b',' forwarded ≡ (49 ∷ []) ∷ [] ++ ((50 ∷ []) ∷ (60 ∷ []) ∷ [])
unfolding split split_from
split-forwarded = refl

trusts_60 : prefixes_contain trusted (unmap (v4 60)) ≡ true
unfolding prefixes_contain prefix_contains contains_at same_network unmap
trusts_60 = refl

mistrusts_50 : prefixes_contain trusted (unmap (v4 50)) ≡ false
unfolding prefixes_contain prefix_contains contains_at same_network unmap
mistrusts_50 = refl

reads : (a : ℕ) → space1 a ≡ false → parse (trim_space (a ∷ [])) ≡ some (v4 a)
unfolding trim_space trim_left
reads a h = ground arith

spaceless : (space1 50 ≡ false) × (space1 60 ≡ false)
unfolding space1
spaceless = (refl, refl)

client_ip_spoofed_example :
    client_ip parse true trusted (60 ∷ []) forwarded ≡ address (unmap (v4 50))
client_ip_spoofed_example =
    client_ip_spoofed parse trusted (60 ∷ []) forwarded (50 ∷ []) ((49 ∷ []) ∷ []) ((60 ∷ []) ∷ [])
      (v4 60) (v4 50) refl trusts_60 split-forwarded (reads 50 spaceless.0) mistrusts_50
      ((v4 60, reads 60 spaceless.1, trusts_60), tt)

-- No part of the header is an address: the proxy itself is the client.
from_proxy : client_ip parse false trusted (60 ∷ []) [] ≡ address (v4 60)
unfolding client_ip unmap
from_proxy = refl

trusts_60_v4 : prefixes_contain trusted (v4 60) ≡ true
unfolding prefixes_contain prefix_contains contains_at same_network
trusts_60_v4 = refl
