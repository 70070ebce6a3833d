-- ===== src/Store/Cached/Laws.antt =====
-- internal/store/cached.go against the contract of Store/Contract.
use mathlib.Core.Path.{subst}
use web_demo_go.Prelude.{
  ◌⊎◌, panic, ◌≢◌, Error, ◌≡◌, refl, sym, ap, ◌∙◌, inl, inr, Option, none, some, Text, Text_eq,
  Result, ok, err, arith, Option-cases,
}
use web_demo_go.Lru
use web_demo_go.Lru.{Lru}
use web_demo_go.Shortener.{ShortUrl, Repository}
use web_demo_go.Store.Contract.{
  answered_row, Rows, IsStore, Answers, answer_row, Grows, same-Grows, with_row, with_row_self,
  with_row-Grows,
}
use web_demo_go.Store.Cached.Coherence.{Coherent, get_cache, set_cache, Coherent-Grows}
use web_demo_go.Store.Cached.{cached_repository, get_by_hash, save, Cached, populate, get_by_code}

populate_runs :
    {S : Type 0} (code : Text) (u : ShortUrl) (s : S) (cache cache' : Lru Text ShortUrl)
    → Lru.set code u cache ≡ some cache'
    → populate code (ok u, s) cache ≡ (ok u, record { store = s; cache = cache' })
unfolding populate
populate_runs code u s cache cache' h = ground arith

module _ {keep : ShortUrl → ShortUrl} {S : Type 0} {repo : Repository S} {Valid : S → Type 0}
    {rows : S → Rows} (i : IsStore keep repo Valid rows) where
  abbrev pub CachedValid : Cached S → Type 0
  CachedValid c = Valid c.store × Coherent keep (rows c.store) c.cache

  record GetGood (code : Text) (c : Cached S) (out : Result ShortUrl × Cached S) : Type 0 where
    valid : CachedValid out.1
    answers : Answers keep out.0 (rows c.store code)
    keeps : (d : Text) → rows out.1.store d ≡ rows c.store d

  get_hit :
      (code : Text) (c : Cached S) (u : ShortUrl) (cache' : Lru Text ShortUrl)
      → Lru.get code c.cache ≡ some (some u, cache')
      → get_by_code repo code c ≡ (ok u, record c { cache = cache' })
  unfolding get_by_code
  get_hit code c u cache' h = ground arith

  get_miss :
      (code : Text) (c : Cached S) (cache' : Lru Text ShortUrl)
      → Lru.get code c.cache ≡ some (none, cache')
      → get_by_code repo code c ≡ populate code (repo.get_by_code code c.store) cache'
  unfolding get_by_code
  get_miss code c cache' h = ground arith

  -- A miss: the store's answer is passed on, and an entity goes into the cache.
  populate_good :
      (code : Text) (c : Cached S) (cache : Lru Text ShortUrl) (s : S) (r : Result ShortUrl)
      → Coherent keep (rows c.store) cache
      → Valid s
      → ((d : Text) → rows s d ≡ rows c.store d)
      → Answers keep r (rows c.store code)
      → GetGood code c (populate code (r, s) cache)
  unfolding populate
  populate_good code c cache s (err e) k valid same answers = record {
    valid = (
      valid,
      Coherent-Grows keep (rows c.store) (rows s) cache (same-Grows (rows c.store) (rows s) same) k,
    );
    answers = answers;
    keeps = same;
  }
  populate_good code c cache s (ok u) k valid same answers =
      let row = same code ∙ answered_row u (ok u) (rows c.store code) answers refl in
      let grow = same-Grows (rows c.store) (rows s) same in
      let (cache', runs, k') = set_cache keep (rows c.store) (rows s) code u cache k row grow in
      subst (GetGood code c) (sym (populate_runs code u s cache cache' runs))
        (record { valid = (valid, k'); answers = answers; keeps = same })

  get_good : (code : Text) (c : Cached S) → CachedValid c → GetGood code c (get_by_code repo code c)
  get_good code c (valid, coherent) =
      let (hit, cache', runs, k, row) = get_cache keep (rows c.store) code c.cache coherent in
      elim (Option-cases hit) [
        | inr (u, e) ↦
            let found : Lru.get code c.cache ≡ some (some u, cache') =
              runs ∙ ap (λ o. some (o, cache')) e in
            subst (GetGood code c) (sym (get_hit code c u cache' found)) (record {
              valid = (valid, k);
              answers = subst (Answers keep (ok u)) (sym (row u e)) (answer_row u);
              keeps = λ d. refl;
            })
        | inl e ↦
            let missed : Lru.get code c.cache ≡ some (none, cache') =
              runs ∙ ap (λ o. some (o, cache')) e in
            subst (GetGood code c) (sym (get_miss code c cache' missed)) (
              populate_good code c cache' (repo.get_by_code code c.store).1
                (repo.get_by_code code c.store).0 k (i.get_valid code c.store valid)
                (i.get_keeps code c.store valid) (i.get_answers code c.store valid))
      ]

  ap_ne : {o : Option Error} {e : Error} → o ≡ some e → o ≢ some panic → some e ≢ some panic
  ap_ne h k g = k (h ∙ g)

  record SaveGood (u : ShortUrl) (c : Cached S) (out : Option Error × Cached S) : Type 0 where
    valid : CachedValid out.1
    done :
        out.0 ≡ none → (d : Text) → rows out.1.store d ≡ with_row u.code (keep u) (rows c.store) d
    returns : out.0 ≢ some panic
    failed :
        (e : Error)
        → out.0 ≡ some e
        → ((d : Text) → rows out.1.store d ≡ rows c.store d)
          ⊎ ((d : Text) → rows out.1.store d ≡ with_row u.code (keep u) (rows c.store) d)

  save_runs_failed :
      (u : ShortUrl) (c : Cached S) (e : Error)
      → (repo.save u c.store).0 ≡ some e
      → save repo u c ≡ (some e, record c { store = (repo.save u c.store).1 })
  unfolding save
  save_runs_failed u c e h = ground arith

  save_runs_done :
      (u : ShortUrl) (c : Cached S) (cache' : Lru Text ShortUrl)
      → (repo.save u c.store).0 ≡ none
      → Lru.set u.code u c.cache ≡ some cache'
      → save repo u c ≡ (none, record { store = (repo.save u c.store).1; cache = cache' })
  unfolding save
  save_runs_done u c cache' h g = ground arith

  save_good :
      (u : ShortUrl) (c : Cached S)
      → CachedValid c
      → rows c.store u.code ≡ none
      → SaveGood u c (save repo u c)
  save_good u c (valid, coherent) unused =
      let s = (repo.save u c.store).1 in
      let kept = i.save_valid u c.store valid unused in
      elim (Option-cases (repo.save u c.store).0) [
        | inr (e, h) ↦
            let maybe = i.save_failed u c.store valid unused e h in
            let grow : Grows (rows c.store) (rows s) = elim maybe [
              | inl same ↦ same-Grows (rows c.store) (rows s) same
              | inr added ↦ with_row-Grows u.code (keep u) (rows c.store) (rows s) unused added
            ] in
            subst (SaveGood u c) (sym (save_runs_failed u c e h)) (record {
              valid = (kept, Coherent-Grows keep (rows c.store) (rows s) c.cache grow coherent);
              done = λ g. cc;
              returns = ap_ne h (i.save_returns u c.store valid unused);
              failed = λ e' g. maybe;
            })
        | inl h ↦
            let changed = i.save_ok u c.store valid unused h in
            let here = changed u.code ∙ with_row_self u.code (keep u) (rows c.store) in
            let grow = with_row-Grows u.code (keep u) (rows c.store) (rows s) unused changed in
            let (cache', runs, k) =
              set_cache keep (rows c.store) (rows s) u.code u c.cache coherent here grow in
            subst (SaveGood u c) (sym (save_runs_done u c cache' h runs)) (record {
              valid = (kept, k);
              done = λ g. changed;
              returns = cc;
              failed = λ e g. absurd (cc);
            })
      ]

  -- A store that meets the contract meets it behind the LRU cache too, under the cache's invariant
  -- and with the rows of the store behind: `Save` of a code that has no row, `GetByCode` and
  -- `GetByHash` keep the invariant and act on the rows as the contract says, and neither `Save`
  -- nor `GetByCode` panics.
  pub cached-IsStore : IsStore keep (cached_repository repo) CachedValid (λ c. rows c.store)
  unfolding get_by_hash
  cached-IsStore = record {
    kept = i.kept;
    row_code = λ c v. i.row_code c.store v.0;
    save_valid = λ u c v unused. (save_good u c v unused).valid;
    save_ok = λ u c v unused. (save_good u c v unused).done;
    save_failed = λ u c v unused. (save_good u c v unused).failed;
    save_returns = λ u c v unused. (save_good u c v unused).returns;
    get_valid = λ code c v. (get_good code c v).valid;
    get_answers = λ code c v. (get_good code c v).answers;
    get_keeps = λ code c v. (get_good code c v).keeps;
    hash_valid = λ h c v. (
      i.hash_valid h c.store v.0,
      Coherent-Grows keep (rows c.store) (rows (repo.get_by_hash h c.store).1) c.cache
          (same-Grows _ _ (i.hash_keeps h c.store v.0)) v.1,
    );
    hash_keeps = λ h c v. i.hash_keeps h c.store v.0;
    hash_missing = λ h c v some_hash missing. i.hash_missing h c.store v.0 some_hash missing;
    hash_answers = λ h c v u e. i.hash_answers h c.store v.0 u e;
  }
