-- ===== src/Store/Cached.antt =====
-- internal/store/cached.go: a repository behind the LRU cache.
pub mod Coherence
pub mod Laws
pub mod Overlap
use web_demo_go.Prelude.{Option, none, some, Text, Text_eq, Error, panic, Result, ok, err}
use web_demo_go.Lru
use web_demo_go.Lru.{Lru}
use web_demo_go.Shortener.{ShortUrl, Repository}

-- `CachedRepository`: the state of the wrapped store, and the cache.
pub record Cached (S : Type 0) : Type 0 where
  pub store : S
  pub cache : Lru Text ShortUrl

-- The entity that the store returned goes into the cache.
unfoldable pub populate :
    {S : Type 0} → Text → Result ShortUrl × S → Lru Text ShortUrl → Result ShortUrl × Cached S
populate code (err e, s) cache = (err e, record { store = s; cache = cache })
populate code (ok u, s) cache = elim (Lru.set code u cache) [
  | none ↦ (err panic, record { store = s; cache = cache })
  | some cache' ↦ (ok u, record { store = s; cache = cache' })
]

module _ {S : Type 0} (repo : Repository S) where
  unfoldable pub save : ShortUrl → Cached S → Option Error × Cached S
  save u c =
      let (failed, s) = repo.save u c.store in
      elim failed [
        | some e ↦ (some e, record c { store = s })
        | none ↦ elim (Lru.set u.code u c.cache) [
          | none ↦ (some panic, record c { store = s })
          | some cache ↦ (none, record { store = s; cache = cache })
        ]
      ]

  unfoldable pub get_by_code : Text → Cached S → Result ShortUrl × Cached S
  unfolding populate
  get_by_code code c = elim (Lru.get code c.cache) [
    | none ↦ (err panic, c)
    | some (some u, cache) ↦ (ok u, record c { cache = cache })
    | some (none, cache) ↦ populate code (repo.get_by_code code c.store) cache
  ]

  -- Not cached.
  unfoldable pub get_by_hash : Text → Cached S → Result ShortUrl × Cached S
  get_by_hash hash c = let (r, s) = repo.get_by_hash hash c.store in (r, record c { store = s })

  abbrev pub cached_repository : Repository (Cached S)
  cached_repository = record { save = save; get_by_code = get_by_code; get_by_hash = get_by_hash }
