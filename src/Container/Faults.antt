-- ===== src/Container/Faults.antt =====
-- When the repository of internal/container/container.go fails to find a code.
use web_demo_go.Prelude.{
  ℤ, ◌≡◌, inl, inr, Text, Text_eq, failure, Result, ok, err, arith, Option-cases, Result-cases,
}
use web_demo_go.Lru
use web_demo_go.Lru.{Lru}
use web_demo_go.Shortener.{ShortUrl, Repository}
use web_demo_go.Store.Cached.{Cached, populate, get_by_code}
use web_demo_go.Store.Either.{code_either}
use web_demo_go.Store.Postgres.{Pool, query_failed, postgres_repository}
use web_demo_go.Store.Postgres.Table.{find_code-fails}
use web_demo_go.Store.Redis.{Client}
use web_demo_go.Store.Redis.Cache.{RedisCached, fill, get_from_cache, get_code}
use web_demo_go.Container.{Options, RepositoryState, repository, redis_over_postgres}

populate-fails :
    {S : Type 0} (code : Text) (r : Result ShortUrl) (s : S) (cache : Lru Text ShortUrl) (m : Text)
    → (populate code (r, s) cache).0 ≡ err (failure m)
    → r ≡ err (failure m)
unfolding populate
populate-fails code (err e) s cache m h = h
populate-fails code (ok u) s cache m h = elim (Option-cases (Lru.set code u cache)) [
  | inl stuck ↦ absurd (ground arith)
  | inr (cache', runs) ↦ absurd (ground arith)
]

-- Behind the LRU cache a lookup fails only where the store fails.
cached-fails :
    {S : Type 0} (repo : Repository S) (code : Text) (c : Cached S) (m : Text)
    → (get_by_code repo code c).0 ≡ err (failure m)
    → (repo.get_by_code code c.store).0 ≡ err (failure m)
unfolding get_by_code
cached-fails repo code c m h = elim (Option-cases (Lru.get code c.cache)) [
  | inl stuck ↦ absurd (ground arith)
  | inr ((hit, cache), runs) ↦ elim (Option-cases hit) [
    | inr (u, found) ↦ absurd (ground arith)
    | inl missing ↦
        populate-fails code (repo.get_by_code code c.store).0 (repo.get_by_code code c.store).1
          cache m (ground arith)
  ]
]

fill-fails :
    {S R : Type 0} (repo : Repository S) (client : Client R) (ttl : ℤ) (r : Result ShortUrl) (s : S)
    (redis : R) (m : Text)
    → (fill repo client ttl (r, s) redis).0 ≡ err (failure m)
    → r ≡ err (failure m)
unfolding fill
fill-fails repo client ttl (err e) s redis m h = h
fill-fails repo client ttl (ok u) s redis m h = absurd (ground arith)

-- And so it is behind the cache in Redis, whatever becomes of the calls of the server.
redis-fails :
    {S R : Type 0} (repo : Repository S) (client : Client R) (ttl : ℤ) (code : Text)
    (c : RedisCached S R) (m : Text)
    → (get_code repo client ttl code c).0 ≡ err (failure m)
    → (repo.get_by_code code c.store).0 ≡ err (failure m)
unfolding get_code
redis-fails repo client ttl code c m h =
    let out = get_from_cache repo client ttl code c.redis in
    elim (Result-cases out.0) [
      | inl (u, found) ↦ absurd (ground arith)
      | inr (e, missed) ↦
          fill-fails repo client ttl (repo.get_by_code code c.store).0
            (repo.get_by_code code c.store).1 out.1 m (ground arith)
    ]

abbrev pub database_of : {D R : Type 0} → RepositoryState D R → D
database_of (inl c) = c.store
database_of (inr c) = c.store.store

module _ {D R : Type 0} (opts : Options) (pool : Pool D) (client : Client R) where
  behind-fails :
      (code : Text) (c : RedisCached D R) (m : Text)
      → ((redis_over_postgres opts pool client).get_by_code code c).0 ≡ err (failure m)
      → (pool.select_code code c.store).0 ≡ query_failed (failure m)
  behind-fails code c m h =
      find_code-fails pool code c.store m
        (redis-fails (postgres_repository pool) client opts.cache_ttl code c m h)

  -- A lookup by code in the repository that the options give fails only where its query of the
  -- database has failed.
  pub repository-fails :
      (code : Text) (s : RepositoryState D R) (m : Text)
      → ((repository opts pool client).get_by_code code s).0 ≡ err (failure m)
      → (pool.select_code code (database_of s)).0 ≡ query_failed (failure m)
  unfolding code_either
  repository-fails code (inl c) m h = behind-fails code c m h
  repository-fails code (inr c) m h =
      behind-fails code c.store m (cached-fails (redis_over_postgres opts pool client) code c m h)
