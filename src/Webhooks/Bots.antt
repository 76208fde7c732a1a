-- ===== src/Webhooks/Bots.antt =====
-- backend/app/services/github/fix_delivery.py: `is_bot_login`. GitHub's logins are ASCII.
use greensecops.Common.{
  Bool, true, [], ◌∷◌, Option, none, some, ◌==◌, ◌||◌, if◌then◌else◌, Text, codes, text_eq,
  is_empty_text, lower,
}

-- `s.lstrip("@")`.
unfoldable pub strip_at : Text → Text
strip_at [] = []
strip_at (c ∷ s) = let rest = strip_at s in if c == b'@' then rest else c ∷ s

-- `s.removesuffix(suffix)`.
unfoldable pub remove_suffix : Text → Text → Text
remove_suffix suffix [] = []
remove_suffix suffix (c ∷ s) =
    let rest = remove_suffix suffix s in if text_eq (c ∷ s) suffix then [] else c ∷ rest

unfoldable pub normalize_bot_handle : Text → Text
unfolding strip_at remove_suffix
normalize_bot_handle handle = remove_suffix (codes "[bot]") (lower (strip_at handle))

-- `bot_handle` is the setting `GITHUB_BOT_HANDLE`.
unfoldable pub is_bot_login : Text → Option Text → Text → Bool
unfolding normalize_bot_handle
is_bot_login bot_handle none bot_login = true
is_bot_login bot_handle (some login) bot_login =
    is_empty_text login
    || text_eq (normalize_bot_handle login) (normalize_bot_handle bot_login)
    || text_eq (normalize_bot_handle login) (normalize_bot_handle bot_handle)
