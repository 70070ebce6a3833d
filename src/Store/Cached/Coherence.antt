-- ===== src/Store/Cached/Coherence.antt =====
-- The LRU cache of internal/store/cached.go against the rows of the store behind it.

use web_demo_go.Prelude.{◌≡◌, sym, ap, ◌∙◌, inl, inr, Option, some, Text, Text_eq, Map, lookup}
use web_demo_go.Lru
use web_demo_go.Lru.{Lru}
use web_demo_go.Lru.Spec.{spec_get, spec_set}
use web_demo_go.Lru.Inserts.{set-Represents}
use web_demo_go.Lru.Refines.{Represents, get-Represents}
use web_demo_go.Lru.Recency.{lookup-spec_get, lookup-spec_set-some}
use web_demo_go.Shortener.{ShortUrl}
use web_demo_go.Store.Contract.{Rows, Grows}

module _ (keep : ShortUrl → ShortUrl) where
  -- The cache is a well-formed LRU list, and each of its entries is that of a row.
  pub record Coherent (rows : Rows) (cache : Lru Text ShortUrl) : Type 0 where
    pub list : Map Text ShortUrl
    pub shown : Represents cache list
    pub agree : (k : Text) (u : ShortUrl) → lookup k list ≡ some u → rows k ≡ some (keep u)

  -- A `Get` keeps the agreement and answers with the row on a hit.
  pub get_cache :
      (rows : Rows) (code : Text) (cache : Lru Text ShortUrl)
      → Coherent rows cache
      → (hit : Option ShortUrl) × (cache' : Lru Text ShortUrl) × (Lru.get code cache
          ≡ some (hit, cache'))
        × Coherent rows cache'
        × ((u : ShortUrl) → hit ≡ some u → rows code ≡ some (keep u))
  get_cache rows code cache k =
      let (cache', runs, shown, _) = get-Represents code cache k.list k.shown in
      (
        lookup code k.list,
        cache',
        runs,
        record {
          list = spec_get code k.list;
          shown = shown;
          agree = λ j u h. k.agree j u (sym (lookup-spec_get code j k.list) ∙ h);
        },
        k.agree code,
      )

  -- A `Set` of a row keeps the agreement, also with rows that have changed only there.
  pub set_cache :
      (rows rows' : Rows) (code : Text) (u : ShortUrl) (cache : Lru Text ShortUrl)
      → Coherent rows cache
      → rows' code ≡ some (keep u)
      → Grows rows rows'
      → (cache' : Lru Text ShortUrl) × (Lru.set code u cache ≡ some cache') × Coherent rows' cache'
  set_cache rows rows' code u cache k here grow =
      let (cache', runs, shown, _) = set-Represents code u cache k.list k.shown in
      (
        cache',
        runs,
        record {
          list = spec_set cache.capacity code u k.list;
          shown = shown;
          agree = λ j v h. elim (lookup-spec_set-some cache.capacity code j u v k.list h) [
            | inl (same, value) ↦ ap rows' (sym same) ∙ here ∙ ap (λ w. some (keep w)) value
            | inr old ↦ grow j (keep v) (k.agree j v old)
          ];
        },
      )

  pub Coherent-Grows :
      (rows rows' : Rows) (cache : Lru Text ShortUrl)
      → Grows rows rows'
      → Coherent rows cache
      → Coherent rows' cache
  Coherent-Grows rows rows' cache grow k = record {
    list = k.list;
    shown = k.shown;
    agree = λ j u h. grow j (keep u) (k.agree j u h);
  }
