-- ===== src/Store/Redis/Cache.antt =====
-- internal/store/redis_cache.go: a repository behind a cache in Redis. The prefix, the key of the
-- index and the fields of an entity are those of redis.go.
use web_demo_go.Prelude.{
  Option, none, some, List, [], ◌∷◌, ◌++◌, Text, ℤ, pos, ltb_ℤ, Error, Result, ok, err,
  if◌then◌else◌,
}
use web_demo_go.Shortener.{ShortUrl, Repository}
use web_demo_go.Store.Redis.{
  Command, hset, expire, Client, url_prefix, hash_key, entity_fields, index_command, finish_entity,
}

-- `RedisCacheRepository`: the states of the wrapped store and of the server.
pub record RedisCached (S R : Type 0) : Type 0 where
  pub store : S
  pub redis : R

unfoldable pub cache_commands : ℤ → ShortUrl → List Command
unfolding entity_fields index_command
cache_commands ttl u =
    hset (url_prefix ++ u.code) (entity_fields u)
    ∷ ((if ltb_ℤ (pos 0) ttl then expire (url_prefix ++ u.code) ttl ∷ [] else [])
        ++ index_command u)

module _ {S R : Type 0} (repo : Repository S) (client : Client R) (ttl : ℤ) where
  -- The error of the pipeline is dropped.
  unfoldable pub cache_url : ShortUrl → R → R
  unfolding cache_commands
  cache_url u r = (client.exec (cache_commands ttl u) r).1

  unfoldable pub get_from_cache : Text → R → Result ShortUrl × R
  unfolding finish_entity
  get_from_cache code r =
      let (out, r') = client.hget_all (url_prefix ++ code) r in (finish_entity out, r')

  unfoldable pub save_through : ShortUrl → RedisCached S R → Option Error × RedisCached S R
  unfolding cache_url
  save_through u c =
      let (failed, s) = repo.save u c.store in
      elim failed [
        | some e ↦ (some e, record c { store = s })
        | none ↦ (none, record { store = s; redis = cache_url u c.redis })
      ]

  -- A miss: the store is asked, and what it finds goes into the cache.
  unfoldable pub fill : Result ShortUrl × S → R → Result ShortUrl × RedisCached S R
  unfolding cache_url
  fill (err e, s) r = (err e, record { store = s; redis = r })
  fill (ok u, s) r = (ok u, record { store = s; redis = cache_url u r })

  unfoldable pub get_code : Text → RedisCached S R → Result ShortUrl × RedisCached S R
  unfolding fill get_from_cache
  get_code code c =
      let (out, r) = get_from_cache code c.redis in
      elim out [
        | ok u ↦ (ok u, record c { redis = r })
        | err e ↦ fill (repo.get_by_code code c.store) r
      ]

  unfoldable pub get_hash : Text → RedisCached S R → Result ShortUrl × RedisCached S R
  unfolding fill get_from_cache
  get_hash hash c =
      let (indexed, r) = client.hget hash_key hash c.redis in
      let missed = λ (r : R). fill (repo.get_by_hash hash c.store) r in
      elim indexed [
        | err e ↦ missed r
        | ok none ↦ missed r
        | ok (some code) ↦
            let (out, r') = get_from_cache code r in
            elim out [ ok u ↦ (ok u, record c { redis = r' }) | err e ↦ missed r' ]
      ]

  abbrev pub redis_cache_repository : Repository (RedisCached S R)
  redis_cache_repository = record {
    save = save_through;
    get_by_code = get_code;
    get_by_hash = get_hash;
  }
