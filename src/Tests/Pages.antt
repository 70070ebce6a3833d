-- ===== src/Tests/Pages.antt =====
-- Two requests for one page, of internal/handlers/url.go over the in-memory store.
use web_demo_go.Prelude.{
  text_eq, some, ◌≡◌, ◌≢◌, refl, none, [], ◌∷◌, ℕ, ◌+◌, pos, Text, Text_eq, text, lookup, insert,
  ok, arith,
}
use web_demo_go.Shortener.{Sources, hash_shorten}
use web_demo_go.Shortener.UrlHash.{UrlLib, normalize_url, normalize_parts, strip_slash, hash_url}
use web_demo_go.Shortener.Dedup.{UniqueHash}
use web_demo_go.Store.Memory.{MemoryStore, new_memory_store, memory_repository, save, get_by_hash}
use web_demo_go.Store.Memory.Laws.{urls_of, new-IsIndexed, memory-IsStore}
use web_demo_go.Handlers.{
  CreateShortUrlRequest, CreateShortUrlResponse, reply, UrlHandler, Service, strategy_hash,
  strategy_name, create_short_url,
}
use web_demo_go.Handlers.Dedup.{create-dedup}

abbrev one_code : Sources
one_code = record { generate = λ n. text "c"; now = λ n. pos n }

-- The path is the whole text, and a hash is the text with a mark.
abbrev marks : UrlLib (Unit {0})
marks = record {
  parse = λ t. ok (record { scheme = []; host = []; path = t; fragment = []; other = tt });
  to_string = λ u. u.path;
  to_lower_wide = λ t. t;
  sha256_hex = λ t. b'#' ∷ t;
}

abbrev handler : UrlHandler MemoryStore ℕ
handler = record {
  strategies = (strategy_hash, hash_shorten marks one_code memory_repository) ∷ [];
  store = memory_repository;
  base_url = text "http://h";
  default_strategy = strategy_hash;
  publish_created = λ e n. (none, n + 1);
  publish_accessed = λ e n. (none, n + 1);
}

abbrev service : Service MemoryStore ℕ
service = record {
  world = record { store = new_memory_store; generated = 0; ticks = 0 };
  publisher = 0;
}

abbrev bare : CreateShortUrlRequest
bare = record { url = text "ab"; strategy = strategy_hash }

abbrev slashed : CreateShortUrlRequest
slashed = record { url = text "ab/"; strategy = [] }

abbrev response : CreateShortUrlResponse
response = record {
  location = text "http://h/c";
  code = text "c";
  short_url = text "http://h/c";
  original_url = text "ab/";
}

some_hash : (t : Text) → hash_url marks t ≢ []
unfolding hash_url
some_hash t = λ e. cc

no_rows : UniqueHash (urls_of new_memory_store)
unfolding lookup new_memory_store
no_rows c d u v hu hv same tagged = absurd (ground arith)

abbrev after : Service MemoryStore ℕ
after = (create_short_url handler none slashed service).1

first : (create_short_url handler none slashed service).0 ≡ reply response
unfolding create_short_url lookup hash_shorten normalize_url get_by_hash new_memory_store save
first = refl

second : (create_short_url handler none bare after).0 ≡ reply response
unfolding create_short_url lookup hash_shorten normalize_url get_by_hash new_memory_store save
    hash_url insert normalize_parts strip_slash
second = refl

hashing :
    lookup (strategy_name handler slashed) handler.strategies
    ≡ some (hash_shorten marks one_code memory_repository)
unfolding lookup text_eq strategy_name
hashing = refl

hashing_bare :
    lookup (strategy_name handler bare) handler.strategies
    ≡ some (hash_shorten marks one_code memory_repository)
unfolding lookup text_eq strategy_name
hashing_bare = refl

normal : normalize_url marks (text "ab/") ≡ ok (text "ab")
unfolding normalize_url normalize_parts strip_slash
normal = refl

normal_bare : normalize_url marks (text "ab") ≡ ok (text "ab")
unfolding normalize_url normalize_parts strip_slash
normal_bare = refl

unused : urls_of new_memory_store (text "c") ≡ none
unfolding lookup new_memory_store
unused = refl

create-dedup_example :
    (text "c" ≡ text "c")
    × (text "http://h/c" ≡ text "http://h/c")
    × ((c : Text)
        → urls_of (create_short_url handler none bare after).1.world.store c
          ≡ urls_of after.world.store c)
create-dedup_example =
    create-dedup handler memory-IsStore one_code marks some_hash none none slashed bare (text "ab")
      service response response hashing hashing_bare normal normal_bare new-IsIndexed no_rows unused
      first second
