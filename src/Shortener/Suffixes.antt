-- ===== src/Shortener/Suffixes.antt =====
-- The string operations of internal/shortener/urlhash.go: suffixes and lower case.
use web_demo_go.Prelude.{
  inl, inr, Bool-cases, ◌≡◌, ◌≢◌, refl, ap, true, false, [], ◌∷◌, ◌++◌, map, ℕ, Text, text_eq,
  text_eq_iff, arith, length, length-append,
}
use web_demo_go.Shortener.UrlHash.{is_ascii, lower_byte, has_suffix, trim_suffix}

text_eq_longer : (c : ℕ) (s t : Text) → text_eq (c ∷ s ++ t) t ≡ false
text_eq_longer c s t =
    let size = length-append s t in
    elim (Bool-cases (text_eq (c ∷ s ++ t) t)) [
      | inr other ↦ other
      | inl same ↦
          let lengths = ap (length {A = ℕ}) ((text_eq_iff (c ∷ s ++ t) t).0 same) in
          absurd (omega arith)
    ]

pub has_suffix-append : (s t : Text) → has_suffix (s ++ t) t ≡ true
unfolding has_suffix
has_suffix-append [] [] = ground (arith, text_eq_iff [] [])
has_suffix-append [] (b ∷ t) = ground (arith, text_eq_iff (b ∷ t) (b ∷ t))
has_suffix-append (c ∷ s) t = ground (arith, has_suffix-append s t)

pub trim_suffix-append : (s t : Text) → t ≢ [] → trim_suffix (s ++ t) t ≡ s
unfolding trim_suffix
trim_suffix-append [] [] n = refl
trim_suffix-append [] (b ∷ t) n = ground (arith, text_eq_iff (b ∷ t) (b ∷ t))
trim_suffix-append (c ∷ s) t n = ground (arith, text_eq_longer c s t, trim_suffix-append s t)

lower_byte_again : (b : ℕ) → lower_byte (lower_byte b) ≡ lower_byte b
unfolding lower_byte
lower_byte_again b = ground arith

pub lower_again : (s : Text) → map lower_byte (map lower_byte s) ≡ map lower_byte s
lower_again [] = refl
lower_again (b ∷ s) = ground (arith, lower_byte_again b, lower_again s)

pub is_ascii-lower : (s : Text) → is_ascii s ≡ true → is_ascii (map lower_byte s) ≡ true
unfolding is_ascii lower_byte
is_ascii-lower [] h = refl
is_ascii-lower (b ∷ s) h = ground (arith, is_ascii-lower s)

pub is_ascii-append :
    (s t : Text) → is_ascii s ≡ true → is_ascii t ≡ true → is_ascii (s ++ t) ≡ true
unfolding is_ascii
is_ascii-append [] t h k = k
is_ascii-append (b ∷ s) t h k = ground (arith, is_ascii-append s t)

pub map-append : (s t : Text) → map lower_byte (s ++ t) ≡ map lower_byte s ++ map lower_byte t
map-append [] t = refl
map-append (b ∷ s) t = ap (◌∷◌ (lower_byte b)) (map-append s t)
