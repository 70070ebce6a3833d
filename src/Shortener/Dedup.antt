-- ===== src/Shortener/Dedup.antt =====
-- `HashStrategy.Shorten` of internal/shortener/strategy.go over a store of entities.
use mathlib.Core.Path.{subst}
use web_demo_go.Prelude.{
  ◌≡◌, ◌≢◌, refl, sym, ap, ◌∙◌, true, none, some, [], Text, Error, not_found, panic, failure,
  Result, ok, err, arith, is_not_found,
}
use web_demo_go.Shortener.{
  ShortUrl, Repository, Sources, World, fresh_url, save_new, hash_found, hash_shorten,
}
use web_demo_go.Shortener.UrlHash.{UrlLib, normalize_url, hash_url}
use web_demo_go.Shortener.Laws.{save_new-Saved}
use web_demo_go.Store.Contract.{Rows, IsStore, with_row, with_row_self}

-- No two rows have the same hash, but for the empty one.
abbrev pub UniqueHash : Rows → Type 0
UniqueHash rows =
    (c d : Text) (u v : ShortUrl)
    → rows c ≡ some u
    → rows d ≡ some v
    → u.url_hash ≡ v.url_hash
    → u.url_hash ≢ []
    → u ≡ v

unique_with_row :
    (code : Text) (u : ShortUrl) (rows rows' : Rows)
    → UniqueHash rows
    → ((c : Text) → rows' c ≡ with_row code u rows c)
    → ((c : Text) (v : ShortUrl) → rows c ≡ some v → v.url_hash ≢ u.url_hash)
    → UniqueHash rows'
unique_with_row code u rows rows' unique added new c d x y hx hy same tagged =
    ground (arith, added c, added d, new c x, new d y, unique c d x y)

unique_same :
    (rows rows' : Rows) → ((c : Text) → rows' c ≡ rows c) → UniqueHash rows → UniqueHash rows'
unique_same rows rows' same unique c d u v hu hv =
    unique c d u v (sym (same c) ∙ hu) (sym (same d) ∙ hv)

is_not_found_eq : (e : Error) → is_not_found e ≡ true → e ≡ not_found
is_not_found_eq e h = ground arith

module _ {keep : ShortUrl → ShortUrl} {S : Type 0} {repo : Repository S} {Valid : S → Type 0}
    {rows : S → Rows} (i : IsStore keep repo Valid rows) (sources : Sources) where
  -- The entity is the row of its code and has the hash, and hashes stay unique.
  pub record Stored (hash : Text) (u : ShortUrl) (s : S) : Type 0 where
    pub valid : Valid s
    pub unique : UniqueHash (rows s)
    pub row : rows s u.code ≡ some (keep u)
    pub tagged : u.url_hash ≡ hash

  module _ (raw hash : Text) (w : World S) (valid : Valid w.store)
      (unique : UniqueHash (rows w.store)) (some_hash : hash ≢ []) where
    abbrev looked_up : World S
    looked_up = record w { store = (repo.get_by_hash hash w.store).1 }

    looked_up_same : (c : Text) → rows looked_up.store c ≡ rows w.store c
    looked_up_same = i.hash_keeps hash w.store valid

    -- Saving a new entity where no row has its hash.
    saved_Stored :
        (u : ShortUrl)
        → (repo.get_by_hash hash w.store).0 ≡ err not_found
        → rows w.store (sources.generate w.generated) ≡ none
        → (save_new repo (fresh_url sources raw hash looked_up)).0 ≡ ok u
        → Stored hash u (save_new repo (fresh_url sources raw hash looked_up)).1.store
    unfolding fresh_url
    saved_Stored u missing unused h =
        let made = fresh_url sources raw hash looked_up in
        let (same, saved) =
          save_new-Saved i made.0 u made.1 (i.hash_valid hash w.store valid)
            (looked_up_same (sources.generate w.generated) ∙ unused) h in
        let new : (c : Text) (v : ShortUrl)
            → rows looked_up.store c ≡ some v
            → v.url_hash ≢ (keep made.0).url_hash =
          λ c v r k.
            i.hash_missing hash w.store valid some_hash missing c v (sym (looked_up_same c) ∙ r)
              (k ∙ i.kept.kept_hash made.0) in
        subst (λ v. Stored hash v (save_new repo made).1.store) (sym same)
          (record {
            valid = saved.valid;
            unique =
                unique_with_row made.0.code (keep made.0) (rows looked_up.store) _
                  (unique_same (rows w.store) (rows looked_up.store) looked_up_same unique)
                  saved.added new;
            row =
                saved.added made.0.code
                ∙ with_row_self made.0.code (keep made.0) (rows looked_up.store);
            tagged = refl;
          })

    hash_found-Stored :
        (u : ShortUrl) (found : Result ShortUrl)
        → (repo.get_by_hash hash w.store).0 ≡ found
        → rows w.store (sources.generate w.generated) ≡ none
        → (hash_found sources repo raw hash found looked_up).0 ≡ ok u
        → Stored hash u (hash_found sources repo raw hash found looked_up).1.store
    unfolding hash_found
    hash_found-Stored u (ok v) e unused h =
        let same : v ≡ u = ground arith in
        let (row, tagged) = i.hash_answers hash w.store valid v e in
        subst (λ x. Stored hash x looked_up.store) same
          (record {
            valid = i.hash_valid hash w.store valid;
            unique = unique_same (rows w.store) (rows looked_up.store) looked_up_same unique;
            row = looked_up_same v.code ∙ row;
            tagged = tagged;
          })
    hash_found-Stored u (err not_found) e unused h = saved_Stored u e unused h
    hash_found-Stored u (err panic) e unused h = absurd (ground arith)
    hash_found-Stored u (err (failure m)) e unused h = absurd (ground arith)

    -- With a row of the hash in the store, a lookup that succeeds finds that row.
    hash_found_again :
        (u v : ShortUrl) (found : Result ShortUrl)
        → (repo.get_by_hash hash w.store).0 ≡ found
        → rows w.store u.code ≡ some (keep u)
        → u.url_hash ≡ hash
        → (hash_found sources repo raw hash found looked_up).0 ≡ ok v
        → (keep v ≡ keep u) × (hash_found sources repo raw hash found looked_up ≡ (ok v, looked_up))
    unfolding hash_found
    hash_found_again u v (ok x) e row tagged h =
        let same : x ≡ v = ground arith in
        let (row', tagged') = i.hash_answers hash w.store valid x e in
        let one =
          unique x.code u.code (keep x) (keep u) row' row
            (i.kept.kept_hash x ∙ tagged' ∙ sym tagged ∙ sym (i.kept.kept_hash u))
            (λ k. some_hash (sym tagged' ∙ sym (i.kept.kept_hash x) ∙ k)) in
        (ap keep (sym same) ∙ one, ap (λ y. (ok y, looked_up)) same)
    hash_found_again u v (err not_found) e row tagged h = absurd (
        i.hash_missing hash w.store valid some_hash e u.code (keep u) row
          (i.kept.kept_hash u ∙ tagged))
    hash_found_again u v (err panic) e row tagged h = absurd (ground arith)
    hash_found_again u v (err (failure m)) e row tagged h = absurd (ground arith)

  module _ {O : Type 0} (lib : UrlLib O) (some_hash : (t : Text) → hash_url lib t ≢ []) where
    hash_shorten-found :
        (raw t : Text) (w : World S)
        → normalize_url lib raw ≡ ok t
        → hash_shorten lib sources repo raw w
          ≡ hash_found sources repo raw
              (hash_url lib t)
              (repo.get_by_hash (hash_url lib t) w.store).0
              (record w { store = (repo.get_by_hash (hash_url lib t) w.store).1 })
    unfolding hash_shorten
    hash_shorten-found raw t w h = ground arith

    -- In a valid state of a store that meets the contract, with unique hashes, no row under the
    -- next code and a hash that is never empty, a hash strategy that succeeds leaves the store
    -- valid and the entity in it under its hash, and no two rows with one hash.
    pub hash_shorten-Stored :
        (raw t : Text) (w : World S) (u : ShortUrl)
        → normalize_url lib raw ≡ ok t
        → Valid w.store
        → UniqueHash (rows w.store)
        → rows w.store (sources.generate w.generated) ≡ none
        → (hash_shorten lib sources repo raw w).0 ≡ ok u
        → Stored (hash_url lib t) u (hash_shorten lib sources repo raw w).1.store
    hash_shorten-Stored raw t w u norm valid unique unused h =
        let step = hash_shorten-found raw t w norm in
        subst (λ out. Stored (hash_url lib t) u out.1.store) (sym step)
          (hash_found-Stored raw (hash_url lib t) w valid unique (some_hash t) u _ refl unused
            (ap (λ out. out.0) (sym step) ∙ h))

    -- In a valid state of a store that meets the contract, with unique hashes, no row under the
    -- next code and a hash that is never empty, two requests, one after the other, for URLs that
    -- normalize to the same text: if both succeed they return one entity, as far as
    -- the store keeps it, and the second neither
    -- takes a code nor changes a row.
    pub hash_shorten-dedup :
        (raw raw' t : Text) (w : World S) (u v : ShortUrl)
        → normalize_url lib raw ≡ ok t
        → normalize_url lib raw' ≡ ok t
        → Valid w.store
        → UniqueHash (rows w.store)
        → rows w.store (sources.generate w.generated) ≡ none
        → (hash_shorten lib sources repo raw w).0 ≡ ok u
        → (hash_shorten lib sources repo raw' (hash_shorten lib sources repo raw w).1).0 ≡ ok v
        → let w1 = (hash_shorten lib sources repo raw w).1 in
          let w2 = (hash_shorten lib sources repo raw' w1).1 in
          (keep v ≡ keep u)
          × (w2.generated ≡ w1.generated)
          × ((c : Text) → rows w2.store c ≡ rows w1.store c)
    hash_shorten-dedup raw raw' t w u v norm norm' valid unique unused first second =
        let hash = hash_url lib t in
        let w1 = (hash_shorten lib sources repo raw w).1 in
        let kept = hash_shorten-Stored raw t w u norm valid unique unused first in
        let step = hash_shorten-found raw' t w1 norm' in
        let (same, runs) =
          hash_found_again raw' hash w1 kept.valid kept.unique (some_hash t) u v _ refl kept.row
            kept.tagged (ap (λ out. out.0) (sym step) ∙ second) in
        let end = step ∙ runs in
        (
          same,
          ap (λ out. out.1.generated) end,
          λ c. ap (λ out. rows out.1.store c) end ∙ i.hash_keeps hash w1.store kept.valid c,
        )
