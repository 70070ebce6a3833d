-- ===== src/Store/Redis/Laws.antt =====
-- internal/store/redis.go and redis_cache.go: entities in Redis hashes, and a cache that fails.
use web_demo_go.Prelude.{
  ◌++◌, ◌≡◌, refl, ap, ◌∙◌, Text, Text_eq, text_eq, lookup, ℤ, IsInt64, parse_int-print_int, Error,
  Result, ok, err, arith, Option-cases, inl, inr,
}
use web_demo_go.Shortener.{ShortUrl, Repository}
use web_demo_go.Store.Redis.{
  hash_key, url_prefix, Client, entity_fields, field, created_time, read_entity, finish_entity,
}
use web_demo_go.Store.Redis.Cache.{
  RedisCached, get_from_cache, save_through, get_code, get_hash, fill,
}

-- An entity comes back from its fields as it was, where its time is a 64-bit number of nanoseconds.
pub read_entity-entity_fields :
    (u : ShortUrl) → IsInt64 u.created_at → read_entity (entity_fields u) ≡ u
unfolding read_entity entity_fields field created_time lookup text_eq
read_entity-entity_fields u h = let time = parse_int-print_int u.created_at h in ground arith

module _ {S R : Type 0} (repo : Repository S) (client : Client R) (ttl : ℤ) where
  pub fill-answer :
      (out : Result ShortUrl × S) (r : R)
      → ((fill repo client ttl out r).0 ≡ out.0) × ((fill repo client ttl out r).1.store ≡ out.1)
  unfolding fill
  fill-answer (err e, s) r = (refl, refl)
  fill-answer (ok u, s) r = (refl, refl)

  module _ (down : Error) (no_hash : (k : Text) (r : R) → (client.hget_all k r).0 ≡ err down)
      (no_field : (k field : Text) (r : R) → (client.hget k field r).0 ≡ err down) where
    get_from_cache-down :
        (code : Text) (r : R) → (get_from_cache repo client ttl code r).0 ≡ err down
    unfolding get_from_cache finish_entity
    get_from_cache-down code r = ap finish_entity (no_hash (url_prefix ++ code) r)

    get_code-down :
        (code : Text) (c : RedisCached S R)
        → get_code repo client ttl code c
          ≡ fill repo client ttl
              (repo.get_by_code code c.store)
              (get_from_cache repo client ttl code c.redis).1
    unfolding get_code
    get_code-down code c = ground (arith, get_from_cache-down code c.redis)

    get_hash-down :
        (hash : Text) (c : RedisCached S R)
        → get_hash repo client ttl hash c
          ≡ fill repo client ttl
              (repo.get_by_hash hash c.store)
              (client.hget hash_key hash c.redis).1
    unfolding get_hash
    get_hash-down hash c = ground (arith, no_field hash_key hash c.redis)

    save-down :
        (u : ShortUrl) (c : RedisCached S R)
        → ((save_through repo client ttl u c).0 ≡ (repo.save u c.store).0)
          × ((save_through repo client ttl u c).1.store ≡ (repo.save u c.store).1)
    unfolding save_through
    save-down u c = elim (Option-cases (repo.save u c.store).0) [
      | inl done ↦ (ground arith, ground arith)
      | inr (e, failed) ↦ (ground arith, ground arith)
    ]

    -- While every read of Redis fails, whatever its writes do, the cached repository answers each
    -- call as the store behind it and leaves that store in the same state.
    pub outage-answers :
        (u : ShortUrl) (t : Text) (c : RedisCached S R)
        → ((save_through repo client ttl u c).0 ≡ (repo.save u c.store).0)
          × ((save_through repo client ttl u c).1.store ≡ (repo.save u c.store).1)
          × ((get_code repo client ttl t c).0 ≡ (repo.get_by_code t c.store).0)
          × ((get_code repo client ttl t c).1.store ≡ (repo.get_by_code t c.store).1)
          × ((get_hash repo client ttl t c).0 ≡ (repo.get_by_hash t c.store).0)
          × ((get_hash repo client ttl t c).1.store ≡ (repo.get_by_hash t c.store).1)
    outage-answers u t c =
        let (saved, stored) = save-down u c in
        let (by_code, same_code) =
          fill-answer (repo.get_by_code t c.store) (get_from_cache repo client ttl t c.redis).1 in
        let (by_hash, same_hash) =
          fill-answer (repo.get_by_hash t c.store) (client.hget hash_key t c.redis).1 in
        (
          saved,
          stored,
          ap (λ out. out.0) (get_code-down t c) ∙ by_code,
          ap (λ out. out.1.store) (get_code-down t c) ∙ same_code,
          ap (λ out. out.0) (get_hash-down t c) ∙ by_hash,
          ap (λ out. out.1.store) (get_hash-down t c) ∙ same_hash,
        )
