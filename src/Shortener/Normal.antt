-- ===== src/Shortener/Normal.antt =====
-- NormalizeURL of internal/shortener/urlhash.go on variants of one URL.
use web_demo_go.Prelude.{
  ok, sym, text, ◌∙◌, ◌≡◌, ◌≢◌, refl, ap, true, false, [], ◌∷◌, ◌++◌, map, ℕ, Text, text_eq, arith,
  length-append,
}
use web_demo_go.Shortener.Suffixes.{
  has_suffix-append, trim_suffix-append, lower_again, is_ascii-lower, is_ascii-append, map-append,
}
use web_demo_go.Shortener.UrlHash.{
  normalize_url, strip_slash, strip_port, normalize_parts, to_lower, Url, UrlLib, is_ascii,
  lower_byte, has_suffix,
}

append_slashes : (s : Text) → s ++ text "//" ≡ (s ++ text "/") ++ text "/"
append_slashes [] = refl
append_slashes (b ∷ s) = ap (◌∷◌ b) (append_slashes s)

append_ne : (s : Text) (b : ℕ) (t : Text) → s ++ b ∷ t ≢ []
append_ne [] b t = λ e. cc
append_ne (c ∷ s) b t = λ e. cc

strip_slash-long : (s : Text) → s ≢ [] → strip_slash (s ++ text "/") ≡ s
unfolding strip_slash
strip_slash-long [] n = absurd (n refl)
strip_slash-long (b ∷ s) n = ground (
  arith,
  has_suffix-append (b ∷ s) (text "/"),
  trim_suffix-append (b ∷ s) (text "/"),
  length-append s (text "/"),
)

-- Of two slashes at the end of a path, after something else, one is left, and only another
-- normalization takes it.
pub strip_slash-once :
    (path : Text)
    → path ≢ []
    → (strip_slash (path ++ text "//") ≡ path ++ text "/")
      × (strip_slash (strip_slash (path ++ text "//")) ≡ path)
strip_slash-once path n =
    let once =
      ap strip_slash (append_slashes path)
      ∙ strip_slash-long (path ++ text "/") (append_ne path b'/' []) in
    (once, ap strip_slash once ∙ strip_slash-long path n)

module _ {O : Type 0} (lib : UrlLib O) where
  to_lower-ascii : (s : Text) → is_ascii s ≡ true → to_lower lib s ≡ map lower_byte s
  unfolding to_lower
  to_lower-ascii s h = ground arith

  -- One way in which two parsed URLs name one page: the case of the scheme or of the host, the
  -- default port of the scheme, a slash at the end of the path, or the fragment.
  pub data Variant (u : Url O) : Url O → Type 0 where
    lower_scheme :
        is_ascii u.scheme ≡ true → Variant u (record u { scheme = map lower_byte u.scheme })
    lower_host : is_ascii u.host ≡ true → Variant u (record u { host = map lower_byte u.host })
    http_port :
        to_lower lib u.scheme ≡ text "http"
        → is_ascii u.host ≡ true
        → has_suffix (map lower_byte u.host) (text ":80") ≡ false
        → Variant u (record u { host = u.host ++ text ":80" })
    https_port :
        to_lower lib u.scheme ≡ text "https"
        → is_ascii u.host ≡ true
        → has_suffix (map lower_byte u.host) (text ":443") ≡ false
        → Variant u (record u { host = u.host ++ text ":443" })
    end_slash :
        u.path ≢ []
        → has_suffix u.path (text "/") ≡ false
        → Variant u (record u { path = u.path ++ text "/" })
    new_fragment : (f : Text) → Variant u (record u { fragment = f })

  to_lower-lower : (s : Text) → is_ascii s ≡ true → to_lower lib (map lower_byte s) ≡ to_lower lib s
  to_lower-lower s h =
      to_lower-ascii (map lower_byte s) (is_ascii-lower s h)
      ∙ lower_again s
      ∙ sym (to_lower-ascii s h)

  strip_port-http :
      (s : Text)
      → has_suffix s (text ":80") ≡ false
      → strip_port (text "http") (s ++ text ":80") ≡ strip_port (text "http") s
  unfolding strip_port text_eq
  strip_port-http s h =
      ground (arith, has_suffix-append s (text ":80"), trim_suffix-append s (text ":80"))

  strip_port-https :
      (s : Text)
      → has_suffix s (text ":443") ≡ false
      → strip_port (text "https") (s ++ text ":443") ≡ strip_port (text "https") s
  unfolding strip_port text_eq
  strip_port-https s h =
      ground (arith, has_suffix-append s (text ":443"), trim_suffix-append s (text ":443"))

  strip_slash-append :
      (s : Text)
      → s ≢ []
      → has_suffix s (text "/") ≡ false
      → strip_slash (s ++ text "/") ≡ strip_slash s
  unfolding strip_slash
  strip_slash-append s n h = ground (
    arith,
    has_suffix-append s (text "/"),
    trim_suffix-append s (text "/"),
    length-append s (text "/"),
  )

  to_lower-append :
      (s t : Text)
      → is_ascii s ≡ true
      → is_ascii t ≡ true
      → map lower_byte t ≡ t
      → to_lower lib (s ++ t) ≡ map lower_byte s ++ t
  to_lower-append s t h k e =
      to_lower-ascii (s ++ t) (is_ascii-append s t h k)
      ∙ map-append s t
      ∙ ap (λ x. map lower_byte s ++ x) e

  -- A port at the end of the host that is stripped for the scheme.
  host_port :
      (scheme host port : Text)
      → is_ascii host ≡ true
      → is_ascii port ≡ true
      → map lower_byte port ≡ port
      → strip_port scheme (map lower_byte host ++ port) ≡ strip_port scheme (map lower_byte host)
      → strip_port scheme (to_lower lib (host ++ port)) ≡ strip_port scheme (to_lower lib host)
  host_port scheme host port h k e same =
      ap (strip_port scheme) (to_lower-append host port h k e)
      ∙ same
      ∙ ap (strip_port scheme) (sym (to_lower-ascii host h))

  normalize_parts-Variant :
      (u v : Url O) → Variant u v → normalize_parts lib v ≡ normalize_parts lib u
  unfolding normalize_parts is_ascii lower_byte
  normalize_parts-Variant u v (lower_scheme h) = rw (to_lower-lower u.scheme h)
  normalize_parts-Variant u v (lower_host h) = rw (to_lower-lower u.host h)
  normalize_parts-Variant u v (http_port s h n) =
      ap (λ x. record (normalize_parts lib u) { host = x })
        (host_port (to_lower lib u.scheme) u.host (text ":80") h refl refl
          (rw s (strip_port-http (map lower_byte u.host) n)))
  normalize_parts-Variant u v (https_port s h n) =
      ap (λ x. record (normalize_parts lib u) { host = x })
        (host_port (to_lower lib u.scheme) u.host (text ":443") h refl refl
          (rw s (strip_port-https (map lower_byte u.host) n)))
  normalize_parts-Variant u v (end_slash n h) =
      ap (λ p. record (normalize_parts lib u) { path = p }) (strip_slash-append u.path n h)
  normalize_parts-Variant u v (new_fragment f) = refl

  -- Any number of such differences, in both directions.
  pub data SamePage : Url O → Url O → Type 0 where
    same : (u : Url O) → SamePage u u
    vary : {u v w : Url O} → SamePage u v → Variant v w → SamePage u w
    unvary : {u v w : Url O} → SamePage u v → Variant w v → SamePage u w

  normalize_parts-SamePage :
      (u v : Url O) → SamePage u v → normalize_parts lib u ≡ normalize_parts lib v
  normalize_parts-SamePage u v (same w) = refl
  normalize_parts-SamePage u w (vary {v = v} path step) =
      normalize_parts-SamePage u v path ∙ sym (normalize_parts-Variant v w step)
  normalize_parts-SamePage u w (unvary {v = v} path step) =
      normalize_parts-SamePage u v path ∙ normalize_parts-Variant w v step

  -- Two texts whose URLs differ only in the case of an ASCII scheme or host, in the default port of
  -- the scheme on an ASCII host that did not end in it, in one slash at the end of a path that is
  -- not empty and had none, or in the fragment are normalized alike.
  pub normalize_url-SamePage :
      (raw raw' : Text) (u v : Url O)
      → lib.parse raw ≡ ok u
      → lib.parse raw' ≡ ok v
      → SamePage u v
      → normalize_url lib raw ≡ normalize_url lib raw'
  unfolding normalize_url
  normalize_url-SamePage raw raw' u v parsed parsed' page =
      let alike = normalize_parts-SamePage u v page in ground (arith, alike)
