-- ===== src/Container/Production.antt =====
-- The repository of internal/container/container.go against the contract of Store/Contract, and the
-- handlers over it.
use web_demo_go.Prelude.{
  failure, Bool, true, false, if◌then◌else◌, [], ◌≡◌, ◌⊎◌, inl, inr, refl, ℤ, pos, ltb_ℤ, Text,
  Text_eq, text, text_eq, Option, none, some, ◌++◌, lookup, print_int, Result, Error, arith,
}
use web_demo_go.Lru
use web_demo_go.Lru.Refines.{new-Represents}
use web_demo_go.Shortener.{ShortUrl, Sources, token_shorten}
use web_demo_go.Shortener.UrlHash.{UrlLib}
use web_demo_go.Store.Contract.{Rows, IsStore, keeping}
use web_demo_go.Store.Cached.Laws.{CachedValid, cached-IsStore}
use web_demo_go.Store.Either.{EitherValid, either_rows, either-IsStore}
use web_demo_go.Store.Postgres.{Row, Pool, query_failed}
use web_demo_go.Store.Postgres.Table.{IsTable, table_rows, postgres-IsStore}
use web_demo_go.Store.Redis.{Client, entity_fields, read_entity}
use web_demo_go.Store.Redis.Server.{Hashes, IsServer}
use web_demo_go.Store.Redis.Holds.{Holds}
use web_demo_go.Store.Redis.Ends.{CacheValid}
use web_demo_go.Store.Redis.Refines.{redis_cache-IsStore}
use web_demo_go.Handlers.{
  Reply, RedirectResponse, UrlCreatedEvent, UrlAccessedEvent, CreateShortUrlRequest,
  CreateShortUrlResponse, RequestMeta, reply, http_error, Service, create_short_url,
  redirect_to_url, strategy_name, strategy_token, new_url_handler,
}
use web_demo_go.Handlers.Laws.{create-redirect}
use web_demo_go.Container.Faults.{database_of, repository-fails}
use web_demo_go.Container.{
  blank, RedisCached, Options, RepositoryState, repository, redis_over_postgres, repository_package,
  url_handler,
}

module _ {D R : Type 0} {pool : Pool D} {store_time : ℤ → ℤ} {Sound : D → Type 0}
    {find : D → Text → Option Row} (table : IsTable pool store_time Sound find) {client : Client R}
    {hashes : R → Hashes} (server : IsServer client hashes) (keep_time : ℤ → ℤ)
    (rounds : (t : ℤ) → keep_time (store_time t) ≡ keep_time t)
    (back : (u : ShortUrl)
      → keeping keep_time (read_entity (entity_fields u)) ≡ keeping keep_time u)
    (opts : Options) where
  abbrev BehindValid : RedisCached D R → Type 0
  BehindValid = CacheValid (postgres-IsStore table keep_time rounds) server opts.cache_ttl back

  abbrev behind_rows : RedisCached D R → Rows
  behind_rows c = table_rows table keep_time rounds c.store

  pub behind-IsStore :
      IsStore (keeping keep_time) (redis_over_postgres opts pool client) BehindValid behind_rows
  behind-IsStore =
      redis_cache-IsStore (postgres-IsStore table keep_time rounds) server opts.cache_ttl back

  -- The states of the repository in which the database is sound and the caches hold only rows.
  abbrev pub RepositoryValid : RepositoryState D R → Type 0
  RepositoryValid = EitherValid BehindValid (CachedValid behind-IsStore)

  abbrev pub repository_rows : RepositoryState D R → Rows
  repository_rows = either_rows behind_rows (λ c. behind_rows c.store)

  -- The repository that the options give, PostgreSQL behind the Redis cache and behind the LRU
  -- cache or not, meets the contract of a store with the rows of the database, whatever Redis
  -- loses. What the contract keeps of a time must survive the column of the database and the field
  -- in Redis.
  pub repository-IsStore :
      IsStore (keeping keep_time) (repository opts pool client) RepositoryValid repository_rows
  repository-IsStore = either-IsStore behind-IsStore (cached-IsStore behind-IsStore)

  abbrev pub Provided : D → RepositoryState D R → Type 0
  Provided d state =
      RepositoryValid state
      × ((c : Text) → repository_rows state c ≡ table_rows table keep_time rounds d c)

  empty_cache :
      (d : D) (r : R)
      → BehindValid (record { store = d; redis = r })
      → CachedValid behind-IsStore (record {
        store = record { store = d; redis = r };
        cache = Lru.new [] blank opts.cache_size;
      })
  unfolding lookup
  empty_cache d r valid = (
    valid,
    record {
      list = [];
      shown = new-Represents [] blank opts.cache_size;
      agree = λ k u h. absurd (ground arith);
    },
  )

  either_way :
      (test : Bool) (d : D) (r : R)
      → BehindValid (record { store = d; redis = r })
      → Provided d (
          if test
          then inr (record {
            store = record { store = d; redis = r };
            cache = Lru.new [] blank opts.cache_size;
          })
          else inl (record { store = d; redis = r }))
  either_way true d r valid = (empty_cache d r valid, λ c. refl)
  either_way false d r valid = (valid, λ c. refl)

  -- A repository over a sound database and a Redis server that holds nothing but rows, if anything,
  -- starts in a valid state with the rows of the database.
  pub repository_package-Provided :
      (d : D) (r : R)
      → Sound d
      → Holds (keeping keep_time) (table_rows table keep_time rounds d) (hashes r)
      → Provided d (repository_package opts pool client d r)
  unfolding repository_package
  repository_package-Provided d r sound held =
      either_way (ltb_ℤ (pos 0) opts.cache_size) d r (sound, held)

  module _ {O P : Type 0} (lib : UrlLib O) (sources : Sources)
      (marshal_created : UrlCreatedEvent → Result Text)
      (marshal_accessed : UrlAccessedEvent → Result Text)
      (send : Text → Text → P → Option Error × P) where
    abbrev pub Running : Type 0
    Running = Service (RepositoryState D R) P

    abbrev pub create :
        Option RequestMeta
        → CreateShortUrlRequest
        → Running
        → Reply CreateShortUrlResponse × Running
    create =
        create_short_url
          (url_handler opts pool client lib sources marshal_created marshal_accessed send)

    abbrev pub redirect : Option RequestMeta → Text → Running → Reply RedirectResponse × Running
    redirect =
        redirect_to_url
          (url_handler opts pool client lib sources marshal_created marshal_accessed send) sources

    token_chosen :
        (req : CreateShortUrlRequest)
        → (req.strategy ≡ strategy_token) ⊎ (req.strategy ≡ [])
        → let h = url_handler opts pool client lib sources marshal_created marshal_accessed send in
          lookup (strategy_name h req) h.strategies ≡ some (token_shorten sources h.store)
    unfolding url_handler new_url_handler strategy_name lookup text_eq
    token_chosen req (inl e) = rw e refl
    token_chosen req (inr e) = rw e refl

    -- On the repository that the options give, in a valid state, whatever Redis loses and whatever
    -- becomes of the publications: if a request for a short URL that names the token strategy or
    -- none is answered and the code generated for it had no row in the database, the short URL is
    -- that of the local host, the port and the code, and a redirect of this code answers 301 with
    -- the URL, or 500 where the query of the database for the code has failed.
    pub create-redirect_production :
        (ctx ctx' : Option RequestMeta) (req : CreateShortUrlRequest) (s : Running)
        (resp : CreateShortUrlResponse)
        → (req.strategy ≡ strategy_token) ⊎ (req.strategy ≡ [])
        → RepositoryValid s.world.store
        → repository_rows s.world.store (sources.generate s.world.generated) ≡ none
        → (create ctx req s).0 ≡ reply resp
        → let s' = (create ctx req s).1 in
          let r = (redirect ctx' resp.code s').0 in
          (resp.short_url
            ≡ (text "http://localhost:" ++ print_int opts.port) ++ (text "/" ++ resp.code))
          × ((r ≡ reply (record { status = 301; location = req.url }))
              ⊎ ((m : Text) × ((pool.select_code resp.code (database_of s'.world.store)).0
                    ≡ query_failed (failure m))
                  × (r ≡ http_error 500 (text "failed to get url"))))
    unfolding url_handler new_url_handler
    create-redirect_production ctx ctx' req s resp named valid unused done =
        let made =
          create-redirect
            (url_handler opts pool client lib sources marshal_created marshal_accessed send)
            repository-IsStore sources ctx ctx' req s resp (token_chosen req named) valid unused
            done in
        let state = (create ctx req s).1.world.store in
        (
          made.0,
          elim made.1 [
            | inl found ↦ inl found
            | inr (m, failed, answer) ↦
                inr (m, repository-fails opts pool client resp.code state m failed, answer)
          ],
        )
