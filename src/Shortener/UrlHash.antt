-- ===== src/Shortener/UrlHash.antt =====
-- internal/shortener/urlhash.go. The parts of net/url, of crypto/sha256 and of the Unicode tables
-- that it uses are the fields of `UrlLib`.
use web_demo_go.Prelude.{
  ◌||◌, ℕ, ◌+◌, Bool, true, ◌&&◌, [], ◌∷◌, map, Text, text, text_eq, Result, ok, err, if◌then◌else◌,
  leb, ltb, length,
}

-- `url.URL`: the fields that `NormalizeURL` touches, and the others in one.
pub record Url (O : Type 0) : Type 0 where
  pub scheme : Text
  pub host : Text
  pub path : Text
  pub fragment : Text
  pub other : O

pub record UrlLib (O : Type 0) : Type 0 where
  -- `url.Parse`
  pub parse : Text → Result (Url O)
  -- `(*url.URL).String`
  pub to_string : Url O → Text
  -- `strings.ToLower` on a text with a byte above 127
  pub to_lower_wide : Text → Text
  -- `sha256.Sum256` followed by `hex.EncodeToString`
  pub sha256_hex : Text → Text

unfoldable pub is_ascii : Text → Bool
is_ascii [] = true
is_ascii (b ∷ s) = ltb b 128 && is_ascii s

unfoldable pub lower_byte : ℕ → ℕ
lower_byte b = if leb b'A' b && leb b b'Z' then b + 32 else b

-- `strings.HasSuffix(s, t)`: `s` ends in `t`.
unfoldable pub has_suffix : Text → Text → Bool
has_suffix [] t = text_eq [] t
has_suffix (b ∷ s) t = text_eq (b ∷ s) t || has_suffix s t

-- `strings.TrimSuffix(s, t)`
unfoldable pub trim_suffix : Text → Text → Text
trim_suffix [] t = []
trim_suffix (b ∷ s) t = if text_eq (b ∷ s) t then [] else b ∷ trim_suffix s t

-- The default ports: `:80` for http and `:443` for https.
unfoldable pub strip_port : Text → Text → Text
unfolding has_suffix trim_suffix text_eq
strip_port scheme host =
    if has_suffix host (text ":80") && text_eq scheme (text "http")
    then trim_suffix host (text ":80")
    else (if has_suffix host (text ":443") && text_eq scheme (text "https")
        then trim_suffix host (text ":443")
        else host)

unfoldable pub strip_slash : Text → Text
unfolding has_suffix trim_suffix text_eq
strip_slash path =
    if ltb 1 (length path) && has_suffix path (text "/") then trim_suffix path (text "/") else path

module _ {O : Type 0} (lib : UrlLib O) where
  unfoldable pub to_lower : Text → Text
  unfolding is_ascii lower_byte
  to_lower s = if is_ascii s then map lower_byte s else lib.to_lower_wide s

  -- The assignments to the fields of the parsed URL.
  unfoldable pub normalize_parts : Url O → Url O
  normalize_parts u =
      let scheme = to_lower u.scheme in
      record u {
        scheme = scheme;
        host = strip_port scheme (to_lower u.host);
        path = strip_slash u.path;
        fragment = [];
      }

  -- `NormalizeURL`
  unfoldable pub normalize_url : Text → Result Text
  normalize_url raw_url = elim (lib.parse raw_url) [
    | err e ↦ err e
    | ok u ↦ ok (lib.to_string (normalize_parts u))
  ]

  -- `HashURL`
  unfoldable pub hash_url : Text → Text
  hash_url normalized = lib.sha256_hex normalized
