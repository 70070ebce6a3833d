-- ===== src/Store/Redis/Ends.antt =====
-- How the reads of internal/store/redis_cache.go end.
use mathlib.Core.Path.{subst}
use web_demo_go.Prelude.{
  ◌≡◌, ◌⊎◌, inl, inr, sym, ap, ◌∙◌, refl, Option, none, some, Text, ℤ, Error, Result, ok, err,
  arith, Result-cases,
}
use web_demo_go.Shortener.{ShortUrl, Repository}
use web_demo_go.Store.Contract.{Rows, IsStore}
use web_demo_go.Store.Redis.{Client, hash_key, entity_fields, read_entity}
use web_demo_go.Store.Redis.Cache.{RedisCached, get_from_cache, fill, get_code, get_hash}
use web_demo_go.Store.Redis.Server.{Hashes, IsServer}
use web_demo_go.Store.Redis.Holds.{Holds, Holds-Fades}
use web_demo_go.Store.Redis.Reads.{cache_url-Holds, get_from_cache-Holds}

index_cases :
    (r : Result (Option Text))
    → ((code : Text) × (r ≡ ok (some code))) ⊎ ((r ≡ ok none) ⊎ ((x : Error) × (r ≡ err x)))
index_cases (ok (some code)) = inl (code, refl)
index_cases (ok none) = inr (inl refl)
index_cases (err x) = inr (inr (x, refl))

module _ {keep : ShortUrl → ShortUrl} {S R : Type 0} {repo : Repository S} {Valid : S → Type 0}
    {rows : S → Rows} (i : IsStore keep repo Valid rows) {client : Client R} {hashes : R → Hashes}
    (server : IsServer client hashes) (ttl : ℤ)
    (back : (u : ShortUrl) → keep (read_entity (entity_fields u)) ≡ keep u) where
  abbrev pub CacheValid : RedisCached S R → Type 0
  CacheValid c = Valid c.store × Holds keep (rows c.store) (hashes c.redis)

  pub fill_good :
      (out : Result ShortUrl × S) (r : R)
      → Valid out.1
      → Holds keep (rows out.1) (hashes r)
      → ((u : ShortUrl) → out.0 ≡ ok u → rows out.1 u.code ≡ some (keep u))
      → CacheValid (fill repo client ttl out r).1
  unfolding fill
  fill_good (err e, s) r valid k row = (valid, k)
  fill_good (ok u, s) r valid k row = (
    valid,
    cache_url-Holds keep (rows s) back i.kept.kept_hash repo server ttl u r (row u refl) k,
  )

  -- How a read by code or by hash ends: with a row from the cache, or with the store's answer.
  pub data Ends (P : ShortUrl → Type 0) (asked : Result ShortUrl × S) (c : RedisCached S R)
      : Result ShortUrl × RedisCached S R → Type 0 where
    from_cache :
        (u : ShortUrl) (r : R)
        → Holds keep (rows c.store) (hashes r)
        → P u
        → Ends P asked c (ok u, record c { redis = r })
    from_store :
        (r : R)
        → Holds keep (rows c.store) (hashes r)
        → Ends P asked c (fill repo client ttl asked r)

  get_code_hit :
      (code : Text) (c : RedisCached S R) (u : ShortUrl)
      → (get_from_cache repo client ttl code c.redis).0 ≡ ok u
      → (ok u, record c { redis = (get_from_cache repo client ttl code c.redis).1 })
        ≡ get_code repo client ttl code c
  unfolding get_code
  get_code_hit code c u h = ground arith

  get_code_missed :
      (code : Text) (c : RedisCached S R) (e : Error)
      → (get_from_cache repo client ttl code c.redis).0 ≡ err e
      → fill repo client ttl
          (repo.get_by_code code c.store)
          (get_from_cache repo client ttl code c.redis).1
        ≡ get_code repo client ttl code c
  unfolding get_code
  get_code_missed code c e h = ground arith

  pub code-Ends :
      (code : Text) (c : RedisCached S R)
      → CacheValid c
      → Ends
          (λ u. rows c.store code ≡ some (keep u))
          (repo.get_by_code code c.store)
          c
          (get_code repo client ttl code c)
  code-Ends code c (valid, k) =
      let (k', row) =
        get_from_cache-Holds keep (rows c.store) back i.kept.kept_hash repo server ttl code c.redis
          k in
      elim (Result-cases (get_from_cache repo client ttl code c.redis).0) [
        | inl (u, e) ↦ subst (Ends _ _ c) (get_code_hit code c u e) (from_cache u _ k' (row u e))
        | inr (e, missed) ↦ subst (Ends _ _ c) (get_code_missed code c e missed) (from_store _ k')
      ]

  -- The code of a row, and its hash.
  pub row_found :
      (s : S) (code h : Text) (u v : ShortUrl)
      → Valid s
      → rows s code ≡ some (keep u)
      → rows s code ≡ some v
      → v.url_hash ≡ h
      → (rows s u.code ≡ some (keep u)) × (u.url_hash ≡ h)
  row_found s code h u v valid row indexed tagged =
      let same : keep u ≡ v = ground arith in
      (
        ap (rows s) (sym (i.kept.kept_code u) ∙ i.row_code s valid code (keep u) row) ∙ row,
        sym (i.kept.kept_hash u) ∙ ap (λ x. x.url_hash) same ∙ tagged,
      )

  get_hash_unindexed :
      (h : Text) (c : RedisCached S R)
      → ((client.hget hash_key h c.redis).0 ≡ ok none)
        ⊎ ((x : Error) × ((client.hget hash_key h c.redis).0 ≡ err x))
      → fill repo client ttl (repo.get_by_hash h c.store) (client.hget hash_key h c.redis).1
        ≡ get_hash repo client ttl h c
  unfolding get_hash
  get_hash_unindexed h c (inl absent) = ground arith
  get_hash_unindexed h c (inr (x, failed)) = ground arith

  get_hash_hit :
      (h code : Text) (c : RedisCached S R) (u : ShortUrl)
      → (client.hget hash_key h c.redis).0 ≡ ok (some code)
      → (get_from_cache repo client ttl code (client.hget hash_key h c.redis).1).0 ≡ ok u
      → (
        ok u,
        record c {
          redis = (get_from_cache repo client ttl code (client.hget hash_key h c.redis).1).1;
        },
      )
        ≡ get_hash repo client ttl h c
  unfolding get_hash
  get_hash_hit h code c u indexed e = ground arith

  get_hash_missed :
      (h code : Text) (c : RedisCached S R) (e : Error)
      → (client.hget hash_key h c.redis).0 ≡ ok (some code)
      → (get_from_cache repo client ttl code (client.hget hash_key h c.redis).1).0 ≡ err e
      → fill repo client ttl
          (repo.get_by_hash h c.store)
          (get_from_cache repo client ttl code (client.hget hash_key h c.redis).1).1
        ≡ get_hash repo client ttl h c
  unfolding get_hash
  get_hash_missed h code c e indexed missed = ground arith

  pub hash-Ends :
      (h : Text) (c : RedisCached S R)
      → CacheValid c
      → Ends
          (λ u. (rows c.store u.code ≡ some (keep u)) × (u.url_hash ≡ h))
          (repo.get_by_hash h c.store)
          c
          (get_hash repo client ttl h c)
  hash-Ends h c (valid, k) =
      let r = (client.hget hash_key h c.redis).1 in
      let k1 =
        Holds-Fades keep (rows c.store) (hashes c.redis) _ (server.field_fades hash_key h c.redis)
          k in
      elim (index_cases (client.hget hash_key h c.redis).0) [
        | inr nothing ↦ subst (Ends _ _ c) (get_hash_unindexed h c nothing) (from_store r k1)
        | inl (code, indexed) ↦
            let (k2, row) =
              get_from_cache-Holds keep (rows c.store) back i.kept.kept_hash repo server ttl code r
                k1 in
            let (v, there, tagged) =
              k1.index h code (sym (server.field_reads hash_key h c.redis (some code) indexed)) in
            elim (Result-cases (get_from_cache repo client ttl code r).0) [
              | inl (u, e) ↦
                  subst (Ends _ _ c) (get_hash_hit h code c u indexed e)
                    (from_cache u _ k2 (row_found c.store code h u v valid (row u e) there tagged))
              | inr (e, missed) ↦
                  subst (Ends _ _ c) (get_hash_missed h code c e indexed missed) (from_store _ k2)
            ]
      ]
