-- ===== src/Store/Cached/Overlap/Moves.antt =====
-- Each step of a call of internal/store/cached.go.
use mathlib.Core.Path.{subst}
use web_demo_go.Prelude.{
  ◌≡◌, ◌≢◌, inl, inr, refl, ap, ◌∙◌, Option, none, some, Text, Text_eq, text_eq_iff, Error, panic,
  Result, ok, err, arith, Option-cases, Result-cases,
}
use web_demo_go.Lru
use web_demo_go.Lru.{Lru}
use web_demo_go.Shortener.{ShortUrl, Repository}
use web_demo_go.Store.Contract.{
  Rows, IsStore, Answers, answer_row, answer_missing, answer_failed, answered_row, Grows,
  same-Grows, with_row, with_row_self, with_row-Grows,
}
use web_demo_go.Store.Cached.{Cached}
use web_demo_go.Store.Cached.Coherence.{Coherent, get_cache, set_cache, Coherent-Grows}
use web_demo_go.Store.Cached.Overlap.{
  Call, caching, saved, asking, keeping, got, step_save, step_cache, step_get, step_ask, step_keep,
}
use web_demo_go.Store.Cached.Overlap.Sound.{CallSound, Past, Moved}

module _ {keep : ShortUrl → ShortUrl} {S : Type 0} {repo : Repository S} {Valid : S → Type 0}
    {rows : S → Rows} (i : IsStore keep repo Valid rows) where
  same_store :
      (call : Call) (c : Cached S) (cache : Lru Text ShortUrl)
      → Valid c.store
      → Coherent keep (rows c.store) cache
      → CallSound i (rows c.store) call
      → Past i call
      → Moved i none c (call, record c { cache = cache })
  same_store call c cache valid coherent sound past = record {
    valid = valid;
    coherent = coherent;
    grows = λ k v h. h;
    others = λ k free. refl;
    call = sound;
    past = past;
  }

  step_get_hit :
      (code : Text) (c : Cached S) (u : ShortUrl) (cache : Lru Text ShortUrl)
      → Lru.get code c.cache ≡ some (some u, cache)
      → (got code (ok u), record c { cache = cache }) ≡ step_get repo code c
  unfolding step_get
  step_get_hit code c u cache h = ground arith

  step_get_miss :
      (code : Text) (c : Cached S) (cache : Lru Text ShortUrl)
      → Lru.get code c.cache ≡ some (none, cache)
      → (asking code, record c { cache = cache }) ≡ step_get repo code c
  unfolding step_get
  step_get_miss code c cache h = ground arith

  pub step_get-Moved :
      (code : Text) (c : Cached S)
      → Valid c.store
      → Coherent keep (rows c.store) c.cache
      → Moved i none c (step_get repo code c)
  step_get-Moved code c valid coherent =
      let (hit, cache, runs, k, row) = get_cache keep (rows c.store) code c.cache coherent in
      elim (Option-cases hit) [
        | inl e ↦
            subst (Moved i none c) (step_get_miss code c cache (runs ∙ ap (λ o. some (o, cache)) e))
              (same_store (asking code) c cache valid k tt (λ u h. cc))
        | inr (u, e) ↦
            subst (Moved i none c)
              (step_get_hit code c u cache (runs ∙ ap (λ o. some (o, cache)) e))
              (same_store (got code (ok u)) c cache valid k (row u e) (λ v h. cc))
      ]

  step_keep_runs :
      (code : Text) (u : ShortUrl) (c : Cached S) (cache : Lru Text ShortUrl)
      → Lru.set code u c.cache ≡ some cache
      → (got code (ok u), record c { cache = cache }) ≡ step_keep repo code u c
  unfolding step_keep
  step_keep_runs code u c cache h = ground arith

  pub step_keep-Moved :
      (code : Text) (u : ShortUrl) (c : Cached S)
      → Valid c.store
      → Coherent keep (rows c.store) c.cache
      → rows c.store code ≡ some (keep u)
      → Moved i none c (step_keep repo code u c)
  step_keep-Moved code u c valid coherent row =
      let (cache, runs, k) =
        set_cache keep (rows c.store) (rows c.store) code u c.cache coherent row (λ k v h. h) in
      subst (Moved i none c) (step_keep_runs code u c cache runs)
        (same_store (got code (ok u)) c cache valid k row (λ v h. cc))

  step_cache_runs :
      (u : ShortUrl) (c : Cached S) (cache : Lru Text ShortUrl)
      → Lru.set u.code u c.cache ≡ some cache
      → (saved none, record c { cache = cache }) ≡ step_cache repo u c
  unfolding step_cache
  step_cache_runs u c cache h = ground arith

  pub step_cache-Moved :
      (u : ShortUrl) (c : Cached S)
      → Valid c.store
      → Coherent keep (rows c.store) c.cache
      → rows c.store u.code ≡ some (keep u)
      → Moved i none c (step_cache repo u c)
  step_cache-Moved u c valid coherent row =
      let (cache, runs, k) =
        set_cache keep (rows c.store) (rows c.store) u.code u c.cache coherent row (λ k v h. h) in
      subst (Moved i none c) (step_cache_runs u c cache runs)
        (same_store (saved none) c cache valid k (λ h. cc) (λ v h. cc))

  answered_err :
      (r : Result ShortUrl) (row : Option ShortUrl) (e : Error)
      → Answers keep r row
      → r ≡ err e
      → e ≢ panic
  answered_err _ _ e (answer_row u) h = absurd (ground arith)
  answered_err _ _ e answer_missing h = λ p. ground arith
  answered_err _ _ e (answer_failed m row) h = λ p. ground arith

  step_ask_failed :
      (code : Text) (c : Cached S) (e : Error)
      → (repo.get_by_code code c.store).0 ≡ err e
      → (got code (err e), record c { store = (repo.get_by_code code c.store).1 })
        ≡ step_ask repo code c
  unfolding step_ask
  step_ask_failed code c e h = ground arith

  step_ask_found :
      (code : Text) (c : Cached S) (u : ShortUrl)
      → (repo.get_by_code code c.store).0 ≡ ok u
      → (keeping code u, record c { store = (repo.get_by_code code c.store).1 })
        ≡ step_ask repo code c
  unfolding step_ask
  step_ask_found code c u h = ground arith

  same_cache :
      (changed : Option Text) (call : Call) (c : Cached S) (s : S)
      → Valid s
      → Coherent keep (rows c.store) c.cache
      → Grows (rows c.store) (rows s)
      → ((k : Text) → changed ≢ some k → rows s k ≡ rows c.store k)
      → CallSound i (rows s) call
      → Past i call
      → Moved i changed c (call, record c { store = s })
  same_cache changed call c s valid coherent grow others sound past = record {
    valid = valid;
    coherent = Coherent-Grows keep (rows c.store) (rows s) c.cache grow coherent;
    grows = grow;
    others = others;
    call = sound;
    past = past;
  }

  pub step_ask-Moved :
      (code : Text) (c : Cached S)
      → Valid c.store
      → Coherent keep (rows c.store) c.cache
      → Moved i none c (step_ask repo code c)
  step_ask-Moved code c valid coherent =
      let s = (repo.get_by_code code c.store).1 in
      let same = i.get_keeps code c.store valid in
      let grow = same-Grows (rows c.store) (rows s) same in
      let answer = i.get_answers code c.store valid in
      let valid' = i.get_valid code c.store valid in
      elim (Result-cases (repo.get_by_code code c.store).0) [
        | inl (u, e) ↦ subst (Moved i none c) (step_ask_found code c u e) (
            same_cache none (keeping code u) c s valid' coherent grow (λ k free. same k)
              (same code ∙ answered_row u _ (rows c.store code) answer e) (λ v h. cc))
        | inr (x, e) ↦ subst (Moved i none c) (step_ask_failed code c x e) (
            same_cache none (got code (err x)) c s valid' coherent grow (λ k free. same k)
              (answered_err _ (rows c.store code) x answer e) (λ v h. cc))
      ]

  step_save_failed :
      (u : ShortUrl) (c : Cached S) (e : Error)
      → (repo.save u c.store).0 ≡ some e
      → (saved (some e), record c { store = (repo.save u c.store).1 }) ≡ step_save repo u c
  unfolding step_save
  step_save_failed u c e h = ground arith

  step_save_done :
      (u : ShortUrl) (c : Cached S)
      → (repo.save u c.store).0 ≡ none
      → (caching u, record c { store = (repo.save u c.store).1 }) ≡ step_save repo u c
  unfolding step_save
  step_save_done u c h = ground arith

  only_own :
      (u : ShortUrl) (old new : Rows) (k : Text)
      → ((c : Text) → new c ≡ with_row u.code (keep u) old c)
      → some u.code ≢ some k
      → new k ≡ old k
  only_own u old new k added apart = added k ∙ ground (arith, text_eq_iff u.code k)

  pub step_save-Moved :
      (u : ShortUrl) (c : Cached S)
      → Valid c.store
      → Coherent keep (rows c.store) c.cache
      → rows c.store u.code ≡ none
      → Moved i (some u.code) c (step_save repo u c)
  step_save-Moved u c valid coherent unused =
      let s = (repo.save u c.store).1 in
      let old = rows c.store in
      let valid' = i.save_valid u c.store valid unused in
      elim (Option-cases (repo.save u c.store).0) [
        | inl done ↦
            let added = i.save_ok u c.store valid unused done in
            subst (Moved i (some u.code) c) (step_save_done u c done) (
              same_cache (some u.code) (caching u) c s valid' coherent
                (with_row-Grows u.code (keep u) old (rows s) unused added)
                (λ k free. only_own u old (rows s) k added free)
                (added u.code ∙ with_row_self u.code (keep u) old) (λ v h. cc))
        | inr (e, failed) ↦
            let quiet : some e ≢ some panic =
              λ h. i.save_returns u c.store valid unused (failed ∙ h) in
            subst (Moved i (some u.code) c) (step_save_failed u c e failed)
              (elim (i.save_failed u c.store valid unused e failed) [
                | inl same ↦
                    same_cache (some u.code) (saved (some e)) c s valid' coherent
                      (same-Grows old (rows s) same) (λ k free. same k) quiet (λ v h. cc)
                | inr added ↦
                    same_cache (some u.code) (saved (some e)) c s valid' coherent
                      (with_row-Grows u.code (keep u) old (rows s) unused added)
                      (λ k free. only_own u old (rows s) k added free) quiet (λ v h. cc)
              ])
      ]
