-- ===== src/Request/ClientIp.antt =====
-- `clientIPFromRequest` of internal/waf/middleware_serve.go: whose address a request is taken for.
--
-- Reading an address, `netip.ParseAddr`, is a parameter. The peer is the host of `RemoteAddr`.
use mathlib.Core.List.{reverse, reverse-cons, reverse-append, append_assoc}
use synit_waf.Prelude.{
  Bool, true, false, ◌||◌, not, Option, none, some, List, [], ◌∷◌, ◌++◌, All, ◌≡◌, refl, sym, ap,
  subst, ◌∙◌, ◌⊎◌, inl, inr, arith, Bool-cases, Option-cases, if◌then◌else◌,
}
use synit_waf.Request.Text.{Bytes, split, trim_space}
use synit_waf.Request.Address.{Addr, unmap, Prefix, prefixes_contain}

-- The text of an address, or the peer as it came where it is no address.
pub data Client : Type 0 where
  address : Addr → Client
  unparsed : Bytes → Client

module _ (parse_addr : Bytes → Option Addr) where
  -- The loop over the parts of X-Forwarded-For, the last one first.
  unfoldable pub walk_back : List Prefix → Addr → List Bytes → Client
  walk_back trusted peer [] = address peer
  walk_back trusted peer (part ∷ parts) = elim (parse_addr (trim_space part)) [
    | none ↦ address peer
    | some candidate ↦
        if prefixes_contain trusted (unmap candidate)
        then walk_back trusted peer parts
        else address (unmap candidate)
  ]

  -- The texts are the peer's and that of the header, its first line: the source reads no other.
  unfoldable pub client_ip : Bool → List Prefix → Bytes → Bytes → Client
  unfolding walk_back
  client_ip trust trusted peer_text forwarded = elim (parse_addr peer_text) [
    | none ↦ unparsed peer_text
    | some found ↦
        if not trust || not (prefixes_contain trusted (unmap found))
        then address (unmap found)
        else walk_back trusted (unmap found) (reverse (split b',' forwarded))
  ]

  -- A part that names one of the trusted proxies.
  abbrev pub IsProxy : List Prefix → Bytes → Type 0
  IsProxy trusted part =
      (a : Addr) × (parse_addr (trim_space part) ≡ some a)
      × (prefixes_contain trusted (unmap a) ≡ true)

  walk_back-proxies :
      (trusted : List Prefix) (peer : Addr) (proxies rest : List Bytes)
      → All (IsProxy trusted) proxies
      → walk_back trusted peer (proxies ++ rest) ≡ walk_back trusted peer rest
  unfolding walk_back
  walk_back-proxies trusted peer [] rest h = refl
  walk_back-proxies trusted peer (p ∷ proxies) rest ((a, parsed, known), h) =
      ground (arith, walk_back-proxies trusted peer proxies rest h)

  walk_back_client :
      (trusted : List Prefix) (peer : Addr) (part : Bytes) (rest : List Bytes) (client : Addr)
      → parse_addr (trim_space part) ≡ some client
      → prefixes_contain trusted (unmap client) ≡ false
      → walk_back trusted peer (part ∷ rest) ≡ address (unmap client)
  unfolding walk_back
  walk_back_client trusted peer part rest client r u = ground arith

  -- Whatever a client writes into X-Forwarded-For, the address that a trusted proxy has appended
  -- for it decides: behind it stand only trusted proxies, and what stands before it is not read.
  pub client_ip_spoofed :
      (trusted : List Prefix) (peer_text forwarded real : Bytes) (spoofed proxies : List Bytes)
      (peer client : Addr)
      → parse_addr peer_text ≡ some peer
      → prefixes_contain trusted (unmap peer) ≡ true
      → split b',' forwarded ≡ spoofed ++ (real ∷ proxies)
      → parse_addr (trim_space real) ≡ some client
      → prefixes_contain trusted (unmap client) ≡ false
      → All (IsProxy trusted) (reverse proxies)
      → client_ip true trusted peer_text forwarded ≡ address (unmap client)
  unfolding client_ip
  client_ip_spoofed trusted peer_text forwarded real spoofed proxies peer client p t s r u h =
      let backwards : reverse (split b',' forwarded) ≡ reverse proxies ++ (real ∷ reverse spoofed) =
        ap reverse s
        ∙ reverse-append spoofed (real ∷ proxies)
        ∙ ap (λ (t : List Bytes). t ++ reverse spoofed) (reverse-cons real proxies)
        ∙ append_assoc (reverse proxies) (real ∷ []) (reverse spoofed) in
      let passed =
        walk_back-proxies trusted (unmap peer) (reverse proxies) (real ∷ reverse spoofed) h in
      let read : client_ip true trusted peer_text forwarded
          ≡ walk_back trusted (unmap peer) (reverse (split b',' forwarded)) =
        ground arith in
      read
      ∙ ap (walk_back trusted (unmap peer)) backwards
      ∙ passed
      ∙ walk_back_client trusted (unmap peer) real (reverse spoofed) client r u

  -- A request that does not come from a trusted proxy is taken for its peer, whatever its headers say.
  pub client_ip_untrusted :
      (trust : Bool) (trusted : List Prefix) (peer_text forwarded : Bytes) (peer : Addr)
      → parse_addr peer_text ≡ some peer
      → (trust ≡ false) ⊎ (prefixes_contain trusted (unmap peer) ≡ false)
      → client_ip trust trusted peer_text forwarded ≡ address (unmap peer)
  unfolding client_ip
  client_ip_untrusted trust trusted peer_text forwarded peer p u = ground arith

  -- The result is the peer's address, or one that belongs to no trusted proxy.
  abbrev IsOutside : List Prefix → Addr → Client → Type 0
  IsOutside trusted peer r =
      (r ≡ address peer) ⊎ ((a : Addr) × (r ≡ address a) × (prefixes_contain trusted a ≡ false))

  walk_back_result :
      (trusted : List Prefix) (peer : Addr) (parts : List Bytes)
      → IsOutside trusted peer (walk_back trusted peer parts)
  unfolding walk_back
  walk_back_result trusted peer [] = inl refl
  walk_back_result trusted peer (part ∷ parts) =
      elim (Option-cases (parse_addr (trim_space part))) [
        | inl bad ↦ inl (ground arith)
        | inr (c, read) ↦ elim (Bool-cases (prefixes_contain trusted (unmap c))) [
          | inl known ↦
              let step : walk_back trusted peer (part ∷ parts) ≡ walk_back trusted peer parts =
                ground arith in
              subst (IsOutside trusted peer) (sym step) (walk_back_result trusted peer parts)
          | inr new ↦ inr (unmap c, ground arith, new)
        ]
      ]

  -- An address that is taken from the header belongs to no trusted proxy: if the result does, it is
  -- the peer's own.
  pub client_ip_proxy :
      (trust : Bool) (trusted : List Prefix) (peer_text forwarded : Bytes) (a : Addr)
      → client_ip trust trusted peer_text forwarded ≡ address a
      → prefixes_contain trusted a ≡ true
      → (peer : Addr) × (parse_addr peer_text ≡ some peer) × (a ≡ unmap peer)
  unfolding client_ip
  client_ip_proxy trust trusted peer_text forwarded a e known =
      elim (Option-cases (parse_addr peer_text)) [
        | inl bad ↦ absurd (ground arith)
        | inr (peer, read) ↦ (
          peer,
          read,
          ground (arith, walk_back_result trusted (unmap peer) (reverse (split b',' forwarded))),
        )
      ]
