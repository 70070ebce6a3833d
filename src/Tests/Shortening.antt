-- ===== src/Tests/Shortening.antt =====
-- The strategies of internal/shortener/strategy.go over the in-memory store, bare and behind the
-- cache, and the handlers over both.
use web_demo_go.Prelude.{
  ◌≡◌, ◌≢◌, refl, none, [], ◌∷◌, pos, lookup, arith, Text, text, ok, insert, text_eq,
}
use web_demo_go.Shortener.{ShortUrl, Sources, World, token_shorten, hash_shorten}
use web_demo_go.Shortener.UrlHash.{strip_slash, normalize_parts, UrlLib, normalize_url, hash_url}
use web_demo_go.Shortener.Dedup.{UniqueHash}
use web_demo_go.Store.Contract.{IsStore, whole}
use web_demo_go.Store.Memory.{get_by_hash, save, MemoryStore, new_memory_store, memory_repository}
use web_demo_go.Store.Memory.Laws.{urls_of, memory-IsStore}
use web_demo_go.Store.Cached.{cached_repository}
use web_demo_go.Store.Cached.Laws.{CachedValid, cached-IsStore}

abbrev sources : Sources
sources = record { generate = λ n. text "c"; now = λ n. pos n }

-- The path is the whole text, and a hash is the text with a mark.
abbrev lib : UrlLib (Unit {0})
lib = record {
  parse = λ t. ok (record { scheme = []; host = []; path = t; fragment = []; other = tt });
  to_string = λ u. u.path;
  to_lower_wide = λ t. t;
  sha256_hex = λ t. b'#' ∷ t;
}

abbrev empty : World MemoryStore
empty = record { store = new_memory_store; generated = 0; ticks = 0 }

unused : urls_of empty.store (text "c") ≡ none
unfolding lookup new_memory_store
unused = refl

abbrev plain_row : ShortUrl
plain_row = record { code = text "c"; original_url = text "ab/"; url_hash = []; created_at = pos 0 }

abbrev hashed : ShortUrl
hashed = record {
  code = text "c";
  original_url = text "ab/";
  url_hash = text "#ab";
  created_at = pos 0;
}

cached-IsStore_example :
    IsStore whole
      (cached_repository memory_repository)
      (CachedValid memory-IsStore)
      (λ c. urls_of c.store)
cached-IsStore_example = cached-IsStore memory-IsStore

token_made : (token_shorten sources memory_repository (text "ab/") empty).0 ≡ ok plain_row
unfolding token_shorten save
token_made = refl

no_rows : UniqueHash (urls_of new_memory_store)
unfolding lookup new_memory_store
no_rows c d u v hu hv same tagged = absurd (ground arith)

some_hash : (t : Text) → hash_url lib t ≢ []
unfolding hash_url
some_hash t = λ e. cc

normal : normalize_url lib (text "ab/") ≡ ok (text "ab")
unfolding normalize_url normalize_parts strip_slash
normal = refl

normal_same : normalize_url lib (text "ab") ≡ ok (text "ab")
unfolding normalize_url normalize_parts strip_slash
normal_same = refl

hash_made : (hash_shorten lib sources memory_repository (text "ab/") empty).0 ≡ ok hashed
unfolding hash_shorten normalize_url get_by_hash lookup new_memory_store save hash_url
    normalize_parts strip_slash
hash_made = refl

abbrev after_hash : World MemoryStore
after_hash = (hash_shorten lib sources memory_repository (text "ab/") empty).1

hash_again : (hash_shorten lib sources memory_repository (text "ab") after_hash).0 ≡ ok hashed
unfolding hash_shorten normalize_url get_by_hash lookup new_memory_store save text_eq hash_url
    insert normalize_parts strip_slash
hash_again = refl
