-- ===== src/Request/Address.antt =====
-- IP addresses and prefixes as Go's `net/netip` has them: `Unmap`, `Prefix.Contains` and
-- `prefixesContain` of internal/waf/middleware_serve.go.
use synit_waf.Prelude.{
  ℕ, ◌-◌, ◌/◌, ◌%◌, ◌^◌, Bool, true, false, ◌&&◌, String, List, [], ◌∷◌, leb, ◌==◌, str_eq,
  if◌then◌else◌,
}

-- The bits of an address as a number, and the zone of a version 6 address.
pub data Addr : Type 0 where
  v4 : ℕ → Addr
  v6 : ℕ → String → Addr

-- An IPv4 address mapped into IPv6 lies in ::ffff:0:0/96.
unfoldable pub unmap : Addr → Addr
unmap (v4 a) = v4 a
unmap (v6 a zone) = if a / 2 ^ 32 == 0xffff then v4 (a % 2 ^ 32) else v6 a zone

pub record Prefix : Type 0 where
  pub addr : Addr
  pub bits : ℕ

-- The two numbers agree in their first `bits` of `width` bits.
unfoldable pub same_network : ℕ → ℕ → ℕ → ℕ → Bool
same_network width bits a b = a / 2 ^ (width - bits) == b / 2 ^ (width - bits)

unfoldable pub contains_at : Addr → ℕ → Addr → Bool
unfolding same_network
contains_at (v4 p) bits (v4 a) = leb bits 32 && same_network 32 bits p a
contains_at (v4 p) bits (v6 a zone) = false
contains_at (v6 p none_zone) bits (v4 a) = false
contains_at (v6 p none_zone) bits (v6 a zone) =
    str_eq zone "" && leb bits 128 && same_network 128 bits p a

unfoldable pub prefix_contains : Prefix → Addr → Bool
unfolding contains_at
prefix_contains p a = contains_at p.addr p.bits a

unfoldable pub prefixes_contain : List Prefix → Addr → Bool
unfolding prefix_contains
prefixes_contain [] a = false
prefixes_contain (p ∷ ps) a = if prefix_contains p a then true else prefixes_contain ps a
