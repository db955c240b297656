-- ===== src/Request/Paths.antt =====
-- `pathMatchesAny` and `pathHasPrefix` of internal/waf/request_info.go.
use synit_waf.Prelude.{Bool, true, false, ◌||◌, List, [], ◌∷◌, length, ◌==◌, if◌then◌else◌}
use synit_waf.Request.Text.{Bytes, slash, has_prefix, ends_with_slash, clean}

-- The byte `urlPath[len(prefix)]` is a slash; a longer prefix is excluded by the tests before it.
unfoldable pub slash_at : Bytes → Bytes → Bool
slash_at [] prefix = false
slash_at (c ∷ url) [] = c == slash
slash_at (c ∷ url) (p ∷ prefix) = slash_at url prefix

unfoldable pub path_has_prefix : Bytes → Bytes → Bool
unfolding has_prefix ends_with_slash slash_at
path_has_prefix url prefix =
    if has_prefix url prefix
    then (if length url == length prefix || ends_with_slash prefix
        then true
        else slash_at url prefix)
    else false

unfoldable pub path_matches_any : List Bytes → Bytes → Bool
unfolding path_has_prefix clean
path_matches_any [] url = false
path_matches_any (prefix ∷ prefixes) url =
    (path_has_prefix url prefix || path_has_prefix (clean url) prefix)
    || path_matches_any prefixes url
