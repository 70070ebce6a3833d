-- ===== src/Store/Memory.antt =====
-- internal/store/memory.go. Each method runs under the mutex.
pub mod Laws
use web_demo_go.Prelude.{
  Option, none, some, [], not, Text, text_eq, Text_eq, Map, lookup, insert, Error, not_found,
  Result, ok, err, if◌then◌else◌,
}
use web_demo_go.Shortener.{ShortUrl, Repository}

pub record MemoryStore : Type 0 where
  -- code -> entity
  pub urls : Map Text ShortUrl
  -- hash -> code
  pub hashes : Map Text Text

unfoldable pub new_memory_store : MemoryStore
new_memory_store = record { urls = []; hashes = [] }

unfoldable pub save : ShortUrl → MemoryStore → Option Error × MemoryStore
save u m = (
  none,
  record {
    urls = insert u.code u m.urls;
    hashes = if not (text_eq u.url_hash []) then insert u.url_hash u.code m.hashes else m.hashes;
  },
)

-- `m.urls[code]`, or `ErrNotFound`.
unfoldable pub entity : Text → MemoryStore → Result ShortUrl
entity code m = elim (lookup code m.urls) [ none ↦ err not_found | some u ↦ ok u ]

unfoldable pub get_by_code : Text → MemoryStore → Result ShortUrl × MemoryStore
unfolding entity
get_by_code code m = (entity code m, m)

unfoldable pub get_by_hash : Text → MemoryStore → Result ShortUrl × MemoryStore
unfolding entity
get_by_hash hash m = elim (lookup hash m.hashes) [
  | none ↦ (err not_found, m)
  | some code ↦ (entity code m, m)
]

abbrev pub memory_repository : Repository MemoryStore
memory_repository = record { save = save; get_by_code = get_by_code; get_by_hash = get_by_hash }
