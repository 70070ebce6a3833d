-- ===== src/Store/Redis/Refines.antt =====
-- internal/store/redis_cache.go against the contract of Store/Contract.
use mathlib.Core.Path.{subst}
use web_demo_go.Prelude.{
  ◌≡◌, inl, inr, sym, ap, ◌∙◌, refl, Option, none, some, Text, ℤ, not_found, Error, Result, ok, err,
  arith, Option-cases,
}
use web_demo_go.Shortener.{ShortUrl, Repository}
use web_demo_go.Store.Contract.{
  Rows, IsStore, Answers, answer_row, answered_row, with_row_self, Grows, same-Grows,
  with_row-Grows,
}
use web_demo_go.Store.Redis.{Client, entity_fields, read_entity}
use web_demo_go.Store.Redis.Cache.{
  RedisCached, cache_url, save_through, get_code, get_hash, redis_cache_repository,
}
use web_demo_go.Store.Redis.Server.{Hashes, IsServer}
use web_demo_go.Store.Redis.Holds.{Holds-Grows}
use web_demo_go.Store.Redis.Reads.{cache_url-Holds}
use web_demo_go.Store.Redis.Ends.{
  CacheValid, Ends, from_cache, from_store, fill_good, row_found, code-Ends, hash-Ends,
}
use web_demo_go.Store.Redis.Laws.{fill-answer}

module _ {keep : ShortUrl → ShortUrl} {S R : Type 0} {repo : Repository S} {Valid : S → Type 0}
    {rows : S → Rows} (i : IsStore keep repo Valid rows) {client : Client R} {hashes : R → Hashes}
    (server : IsServer client hashes) (ttl : ℤ)
    (back : (u : ShortUrl) → keep (read_entity (entity_fields u)) ≡ keep u) where
  record Reads (asked : Result ShortUrl × S) (c : RedisCached S R)
      (out : Result ShortUrl × RedisCached S R) : Type 0 where
    valid : CacheValid i server ttl back out.1
    keeps : (d : Text) → rows out.1.store d ≡ rows c.store d

  -- However a read ends, the states stay valid and the rows stay.
  Ends-good :
      (P : ShortUrl → Type 0) (asked : Result ShortUrl × S) (c : RedisCached S R)
      (out : Result ShortUrl × RedisCached S R)
      → CacheValid i server ttl back c
      → Valid asked.1
      → ((d : Text) → rows asked.1 d ≡ rows c.store d)
      → ((u : ShortUrl) → asked.0 ≡ ok u → rows c.store u.code ≡ some (keep u))
      → Ends i server ttl back P asked c out
      → Reads asked c out
  Ends-good P asked c _ valid valid' same row (from_cache u r k p) = record {
    valid = (valid.0, k);
    keeps = λ d. refl;
  }
  Ends-good P asked c _ valid valid' same row (from_store r k) =
      let (answer, state) = fill-answer repo client ttl asked r in
      record {
        valid =
            fill_good i server ttl back asked r valid'
              (Holds-Grows keep (rows c.store) (rows asked.1) (hashes r)
                (same-Grows (rows c.store) (rows asked.1) same) k)
              (λ u e. same u.code ∙ row u e);
        keeps = λ d. ap (λ s. rows s d) state ∙ same d;
      }

  code_good :
      (code : Text) (c : RedisCached S R)
      → CacheValid i server ttl back c
      → Reads (repo.get_by_code code c.store) c (get_code repo client ttl code c)
  code_good code c (valid, k) =
      Ends-good _ (repo.get_by_code code c.store) c _ (valid, k) (i.get_valid code c.store valid)
        (i.get_keeps code c.store valid)
        (λ u e.
          let row = answered_row u _ (rows c.store code) (i.get_answers code c.store valid) e in
          (row_found i server ttl back c.store code u.url_hash u (keep u) valid row row
            (i.kept.kept_hash u)).0)
        (code-Ends i server ttl back code c (valid, k))

  code-Answers :
      (code : Text) (c : RedisCached S R)
      → CacheValid i server ttl back c
      → (out : Result ShortUrl × RedisCached S R)
      → Ends i server ttl back
          (λ u. rows c.store code ≡ some (keep u))
          (repo.get_by_code code c.store)
          c
          out
      → Answers keep out.0 (rows c.store code)
  code-Answers code c (valid, k) _ (from_cache u r k' row) =
      subst (Answers keep (ok u)) (sym row) (answer_row u)
  code-Answers code c (valid, k) _ (from_store r k') =
      subst (λ a. Answers keep a (rows c.store code))
        (sym (fill-answer repo client ttl (repo.get_by_code code c.store) r).0)
        (i.get_answers code c.store valid)

  hash_good :
      (h : Text) (c : RedisCached S R)
      → CacheValid i server ttl back c
      → Reads (repo.get_by_hash h c.store) c (get_hash repo client ttl h c)
  hash_good h c (valid, k) =
      Ends-good _ (repo.get_by_hash h c.store) c _ (valid, k) (i.hash_valid h c.store valid)
        (i.hash_keeps h c.store valid) (λ u e. (i.hash_answers h c.store valid u e).0)
        (hash-Ends i server ttl back h c (valid, k))

  hash_found_row :
      (h : Text) (c : RedisCached S R)
      → CacheValid i server ttl back c
      → (out : Result ShortUrl × RedisCached S R)
      → Ends i server ttl back
          (λ u. (rows c.store u.code ≡ some (keep u)) × (u.url_hash ≡ h))
          (repo.get_by_hash h c.store)
          c
          out
      → (u : ShortUrl) → out.0 ≡ ok u
      → (rows c.store u.code ≡ some (keep u)) × (u.url_hash ≡ h)
  hash_found_row h c (valid, k) _ (from_cache v r k' found) u e =
      let same : v ≡ u = ground arith in
      subst (λ x. (rows c.store x.code ≡ some (keep x)) × (x.url_hash ≡ h)) same found
  hash_found_row h c (valid, k) _ (from_store r k') u e =
      i.hash_answers h c.store valid u
        (sym (fill-answer repo client ttl (repo.get_by_hash h c.store) r).0 ∙ e)

  hash_missed :
      (h : Text) (c : RedisCached S R) (P : ShortUrl → Type 0)
      (out : Result ShortUrl × RedisCached S R)
      → Ends i server ttl back P (repo.get_by_hash h c.store) c out
      → out.0 ≡ err not_found
      → (repo.get_by_hash h c.store).0 ≡ err not_found
  hash_missed h c P _ (from_cache v r k' p) e = absurd (ground arith)
  hash_missed h c P _ (from_store r k') e =
      sym (fill-answer repo client ttl (repo.get_by_hash h c.store) r).0 ∙ e

  save_runs_failed :
      (u : ShortUrl) (c : RedisCached S R) (e : Error)
      → (repo.save u c.store).0 ≡ some e
      → (some e, record c { store = (repo.save u c.store).1 }) ≡ save_through repo client ttl u c
  unfolding save_through
  save_runs_failed u c e h = ground arith

  save_runs_done :
      (u : ShortUrl) (c : RedisCached S R)
      → (repo.save u c.store).0 ≡ none
      → (
        none,
        record { store = (repo.save u c.store).1; redis = cache_url repo client ttl u c.redis },
      )
        ≡ save_through repo client ttl u c
  unfolding save_through
  save_runs_done u c h = ground arith

  record Saves (u : ShortUrl) (c : RedisCached S R) (out : Option Error × RedisCached S R)
      : Type 0 where
    valid : CacheValid i server ttl back out.1
    answer : out.0 ≡ (repo.save u c.store).0
    state : out.1.store ≡ (repo.save u c.store).1

  save_good :
      (u : ShortUrl) (c : RedisCached S R)
      → CacheValid i server ttl back c
      → rows c.store u.code ≡ none
      → Saves u c (save_through repo client ttl u c)
  save_good u c (valid, k) unused =
      let s = (repo.save u c.store).1 in
      let kept = i.save_valid u c.store valid unused in
      let old = rows c.store in
      elim (Option-cases (repo.save u c.store).0) [
        | inr (e, h) ↦
            let grow : Grows old (rows s) = elim (i.save_failed u c.store valid unused e h) [
              | inl same ↦ same-Grows old (rows s) same
              | inr added ↦ with_row-Grows u.code (keep u) old (rows s) unused added
            ] in
            subst (Saves u c) (save_runs_failed u c e h) (record {
              valid = (kept, Holds-Grows keep old (rows s) (hashes c.redis) grow k);
              answer = sym h;
              state = refl;
            })
        | inl h ↦
            let added = i.save_ok u c.store valid unused h in
            let grow = with_row-Grows u.code (keep u) old (rows s) unused added in
            let row = added u.code ∙ with_row_self u.code (keep u) old in
            subst (Saves u c) (save_runs_done u c h) (record {
              valid = (
                kept,
                cache_url-Holds keep (rows s) back i.kept.kept_hash repo server ttl u c.redis row
                    (Holds-Grows keep old (rows s) (hashes c.redis) grow k),
              );
              answer = sym h;
              state = refl;
            })
      ]

  -- A store that meets the contract meets it behind the Redis cache too, with the rows of the store
  -- behind, as long as the cache holds only rows: whichever keys expire or are evicted, whichever
  -- calls of Redis fail and whichever commands of its pipelines are lost, `Save` under a code that
  -- has no row, `GetByCode` and `GetByHash` act on the rows as the contract says and leave only rows
  -- in the cache. What the store keeps of a time must not tell it from what Redis gives back of it.
  pub redis_cache-IsStore :
      IsStore keep
        (redis_cache_repository repo client ttl)
        (CacheValid i server ttl back)
        (λ c. rows c.store)
  redis_cache-IsStore = record {
    kept = i.kept;
    row_code = λ c v. i.row_code c.store v.0;
    save_valid = λ u c v unused. (save_good u c v unused).valid;
    save_ok = λ u c v unused done d.
        let g = save_good u c v unused in
        ap (λ s. rows s d) g.state ∙ i.save_ok u c.store v.0 unused (sym g.answer ∙ done) d;
    save_failed = λ u c v unused e failed.
        let g = save_good u c v unused in
        elim (i.save_failed u c.store v.0 unused e (sym g.answer ∙ failed)) [
          | inl same ↦ inl (λ d. ap (λ s. rows s d) g.state ∙ same d)
          | inr added ↦ inr (λ d. ap (λ s. rows s d) g.state ∙ added d)
        ];
    save_returns = λ u c v unused e.
        i.save_returns u c.store v.0 unused (sym (save_good u c v unused).answer ∙ e);
    get_valid = λ code c v. (code_good code c v).valid;
    get_answers = λ code c v. code-Answers code c v _ (code-Ends i server ttl back code c v);
    get_keeps = λ code c v. (code_good code c v).keeps;
    hash_valid = λ h c v. (hash_good h c v).valid;
    hash_keeps = λ h c v. (hash_good h c v).keeps;
    hash_missing = λ h c v some_hash e.
        i.hash_missing h c.store v.0 some_hash
          (hash_missed h c _ _ (hash-Ends i server ttl back h c v) e);
    hash_answers = λ h c v. hash_found_row h c v _ (hash-Ends i server ttl back h c v);
  }
