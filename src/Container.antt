-- ===== src/Container.antt =====
-- internal/container/container.go: what the options and the drivers are put together to.
pub mod Policies
pub mod Faults
pub mod Production
pub mod Http
pub mod Worker
use web_demo_go.Prelude.{
  text_eq, ℤ, pos, ltb_ℤ, Text, text, Option, List, [], ◌∷◌, ◌++◌, ◌⊎◌, inl, inr, Map, Error,
  Result, print_int, if◌then◌else◌,
}
use web_demo_go.Lru
use web_demo_go.Shortener.{ShortUrl, Repository, Sources, World, token_shorten, hash_shorten}
use web_demo_go.Shortener.UrlHash.{UrlLib}
use web_demo_go.Store.Cached.{Cached, cached_repository}
use web_demo_go.Store.Either.{either_repository, first_of, second_of}
use web_demo_go.RateLimit.{RateStore}
use web_demo_go.RateLimit.Memory.{Memory, new_memory}
use web_demo_go.RateLimit.Redis.{RedisLimits}
use web_demo_go.Store.Postgres.{Pool, postgres_repository}
use web_demo_go.Store.Redis.{Client}
use web_demo_go.Store.Redis.Cache.{RedisCached, redis_cache_repository}
use web_demo_go.Messaging.{new_publish_func}
use web_demo_go.Handlers.{
  UrlCreatedEvent, UrlAccessedEvent, UrlHandler, new_url_handler, strategy_token, strategy_hash,
}
use web_demo_go.RateLimit.{Policy, new_policy_builder, add_limit}
use web_demo_go.RateLimit.Scope.{scope_global, scope_read, scope_write}
use web_demo_go.Handlers.Routes.{minute, hour, day}

pub record Options : Type 0 where
  pub port : ℤ
  pub code_length : ℤ
  pub redis_addr : Text
  pub database_url : Text
  pub rate_limit_store : Text
  pub cache_size : ℤ
  pub cache_ttl : ℤ
  pub log_format : Text
  pub topic_url_created : Text
  pub topic_url_accessed : Text
  pub consumer_group : Text
  pub rate_limit_global_per_day : ℤ
  pub rate_limit_read_per_minute : ℤ
  pub rate_limit_write_per_minute : ℤ
  pub rate_limit_write_per_hour : ℤ
  pub rate_limit_write_per_day : ℤ

-- The chain of `AddLimit` in `HTTPPackage`, which reads from the inside out here.
unfoldable pub build_policy : Options → Policy
unfolding new_policy_builder add_limit
build_policy opts = add_limit scope_write opts.rate_limit_write_per_day day (
    add_limit scope_write opts.rate_limit_write_per_hour hour (
      add_limit scope_write opts.rate_limit_write_per_minute minute (
        add_limit scope_read opts.rate_limit_read_per_minute minute
          (add_limit scope_global opts.rate_limit_global_per_day day new_policy_builder))))

-- The zero value of an entity, which the sentinels of the LRU list carry.
abbrev pub blank : ShortUrl
blank = record { code = []; original_url = []; url_hash = []; created_at = pos 0 }

-- The state of the repository: the database and the Redis server, and the LRU cache where there is
-- one.
abbrev pub RepositoryState : Type 0 → Type 0 → Type 0
RepositoryState D R = RedisCached D R ⊎ Cached (RedisCached D R)

module _ {D R : Type 0} (opts : Options) (pool : Pool D) (client : Client R) where
  -- PostgreSQL with the Redis cache in front.
  abbrev pub redis_over_postgres : Repository (RedisCached D R)
  redis_over_postgres = redis_cache_repository (postgres_repository pool) client opts.cache_ttl

  -- The variable `repo` of `RepositoryPackage`.
  abbrev pub repository : Repository (RepositoryState D R)
  repository = either_repository redis_over_postgres (cached_repository redis_over_postgres)

  -- What `RepositoryPackage` puts into it.
  unfoldable pub repository_package : D → R → RepositoryState D R
  repository_package database redis =
      let store : RedisCached D R = record { store = database; redis = redis } in
      if ltb_ℤ (pos 0) opts.cache_size
      then inr (record { store = store; cache = Lru.new [] blank opts.cache_size })
      else inl store

  module _ {O P : Type 0} (lib : UrlLib O) (sources : Sources)
      (marshal_created : UrlCreatedEvent → Result Text)
      (marshal_accessed : UrlAccessedEvent → Result Text)
      (send : Text → Text → P → Option Error × P) where
    abbrev pub strategies :
        Map Text
          (Text → World (RepositoryState D R) → Result ShortUrl × World (RepositoryState D R))
    strategies =
        (strategy_token, token_shorten sources repository)
        ∷ (strategy_hash, hash_shorten lib sources repository)
        ∷ []

    -- The handler that `HTTPPackage` makes.
    unfoldable pub url_handler : UrlHandler (RepositoryState D R) P
    unfolding new_url_handler print_int
    url_handler =
        new_url_handler repository (text "http://localhost:" ++ print_int opts.port) strategies
          (new_publish_func marshal_created send opts.topic_url_created)
          (new_publish_func marshal_accessed send opts.topic_url_accessed)

module _ {A B : Type 0} (store_a : RateStore A) (store_b : RateStore B) where
  -- A call of `Record` goes to the store that a variable of the interface `ratelimit.Store` holds.
  unfoldable pub record_either : Text → ℤ → A ⊎ B → Result ℤ × (A ⊎ B)
  record_either key window (inl a) = first_of (store_a.record_request key window a)
  record_either key window (inr b) = second_of (store_b.record_request key window b)

  abbrev pub either_rate_store : RateStore (A ⊎ B)
  either_rate_store = record { record_request = record_either }

-- What `RateLimitPackage` provides: the Redis store by its name, and the one in memory by any other.
unfoldable pub rate_limit_package : {R : Type 0} → Options → R → RedisLimits R ⊎ Memory
unfolding new_memory
rate_limit_package opts redis =
    if text_eq opts.rate_limit_store (text "redis")
    then inl (record { redis = redis; ticks = 0 })
    else inr new_memory
