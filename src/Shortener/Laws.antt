-- ===== src/Shortener/Laws.antt =====
-- The strategies of internal/shortener/strategy.go over any store of entities.
use mathlib.Core.Path.{subst}
use web_demo_go.Prelude.{◌≡◌, sym, ap, inl, inr, none, [], Text, ok, arith, Option-cases}
use web_demo_go.Shortener.{ShortUrl, Repository, Sources, World, fresh_url, save_new, token_shorten}
use web_demo_go.Store.Contract.{Rows, IsStore, with_row}

module _ {keep : ShortUrl → ShortUrl} {S : Type 0} {repo : Repository S} {Valid : S → Type 0}
    {rows : S → Rows} (i : IsStore keep repo Valid rows) where
  -- What a successful `Save` of a new entity leaves.
  pub record Saved (u : ShortUrl) (s s' : S) : Type 0 where
    pub valid : Valid s'
    pub added : (c : Text) → rows s' c ≡ with_row u.code (keep u) (rows s) c

  saved_state :
      (u : ShortUrl) (w : World S)
      → (repo.save u w.store).0 ≡ none
      → (repo.save u w.store).1 ≡ (save_new repo (u, w)).1.store
  unfolding save_new
  saved_state u w done = ground arith

  pub save_new-Saved :
      (u v : ShortUrl) (w : World S)
      → Valid w.store
      → rows w.store u.code ≡ none
      → (save_new repo (u, w)).0 ≡ ok v
      → (v ≡ u) × Saved u w.store (save_new repo (u, w)).1.store
  unfolding save_new
  save_new-Saved u v w valid unused h = elim (Option-cases (repo.save u w.store).0) [
    | inr (e, failed) ↦ absurd (ground arith)
    | inl done ↦ (
      ground arith,
      subst (Saved u w.store) (saved_state u w done) (record {
        valid = i.save_valid u w.store valid unused;
        added = i.save_ok u w.store valid unused done;
      }),
    )
  ]

  module _ (sources : Sources) where
    -- Over a store that meets the contract, is in a valid state and has no row under the next code,
    -- a token strategy that succeeds returns an entity of the given URL under the generated code,
    -- with no hash, leaves the store valid and adds exactly this row to it, as the store keeps it.
    pub token_shorten-Saved :
        (url : Text) (w : World S) (u : ShortUrl)
        → Valid w.store
        → rows w.store (sources.generate w.generated) ≡ none
        → (token_shorten sources repo url w).0 ≡ ok u
        → (u.code ≡ sources.generate w.generated)
          × (u.original_url ≡ url)
          × (u.url_hash ≡ [])
          × Saved u w.store (token_shorten sources repo url w).1.store
    unfolding token_shorten fresh_url
    token_shorten-Saved url w u valid unused h =
        let made = fresh_url sources url [] w in
        let (same, saved) = save_new-Saved made.0 u made.1 valid unused h in
        (
          ap (λ v. v.code) same,
          ap (λ v. v.original_url) same,
          ap (λ v. v.url_hash) same,
          subst (λ v. Saved v w.store (save_new repo made).1.store) (sym same) saved,
        )
