-- ===== src/Request/Encoding.antt =====
-- `hasUnsupportedContentEncoding` of internal/waf/middleware.go. For the letters of "identity",
-- `strings.EqualFold` is the comparison of ASCII letters without case.
use synit_waf.Prelude.{ℕ, ◌+◌, Bool, ◌&&◌, not, [], ◌∷◌, map, leb, if◌then◌else◌}
use synit_waf.Request.Text.{Bytes, bytes_eq, trim_space}

unfoldable pub to_lower : ℕ → ℕ
to_lower c = if leb b'A' c && leb c b'Z' then c + 32 else c

abbrev pub identity : Bytes
identity = b'i' ∷ b'd' ∷ b'e' ∷ b'n' ∷ b't' ∷ b'i' ∷ b't' ∷ b'y' ∷ []

unfoldable pub has_unsupported_content_encoding : Bytes → Bool
unfolding to_lower trim_space bytes_eq
has_unsupported_content_encoding header =
    let encoding = trim_space header in
    not (bytes_eq encoding []) && not (bytes_eq (map to_lower encoding) identity)
