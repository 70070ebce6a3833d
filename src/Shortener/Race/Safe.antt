-- ===== src/Shortener/Race/Safe.antt =====
-- What every interleaving of requests of internal/shortener/strategy.go keeps.
use mathlib.Core.Path.{subst}
use web_demo_go.Prelude.{
  ◌≡◌, inl, inr, refl, sym, ap, ◌∙◌, ℕ, ◌+◌, none, Text, Error, not_found, panic, failure, Result,
  ok, err, arith, Option-cases, Result-cases,
}
use web_demo_go.Shortener.{ShortUrl, Repository, Sources, World, fresh_url, save_new, hash_found}
use web_demo_go.Shortener.UrlHash.{UrlLib, normalize_url, hash_url}
use web_demo_go.Shortener.Laws.{save_new-Saved}
use web_demo_go.Shortener.Race.{
  looked_up, finished, System, look_up, conclude, Step, looks, concludes, Reach, here, next,
}
use web_demo_go.Store.Contract.{Rows, IsStore, same-Grows, with_row_self}
use web_demo_go.Shortener.Race.Sound.{
  SavedOrNot, not_saved, was_saved, SavedOrNot-Grows, SavedOrNot-other, RequestSound, WorldSound,
  Moved, SystemSound, advance-Sound,
}

module _ {keep : ShortUrl → ShortUrl} {S O : Type 0} {repo : Repository S} {Valid : S → Type 0}
    {rows : S → Rows} (i : IsStore keep repo Valid rows) (lib : UrlLib O) (sources : Sources)
    (injective : (m n : ℕ) → sources.generate m ≡ sources.generate n → m ≡ n) where
  found_sound :
      (raw hash t : Text) (s : S) (found : Result ShortUrl)
      → Valid s
      → normalize_url lib raw ≡ ok t
      → hash ≡ hash_url lib t
      → (repo.get_by_hash hash s).0 ≡ found
      → RequestSound i lib sources injective
          (rows (repo.get_by_hash hash s).1)
          (looked_up raw hash found)
  found_sound raw hash t s (ok u) valid norm hashed e =
      let (row, tagged) = i.hash_answers hash s valid u e in
      record {
        page = t;
        normal = norm;
        hashed = hashed;
        row = i.hash_keeps hash s valid u.code ∙ row;
        tagged = tagged;
      }
  found_sound raw hash t s (err x) valid norm hashed e = (t, norm, hashed)

  pub look_up_found :
      (raw t : Text) (w : World S)
      → normalize_url lib raw ≡ ok t
      → (
        looked_up raw (hash_url lib t) (repo.get_by_hash (hash_url lib t) w.store).0,
        record w { store = (repo.get_by_hash (hash_url lib t) w.store).1 },
      )
        ≡ look_up lib sources repo raw w
  unfolding look_up
  look_up_found raw t w norm = ground arith

  look_up_refused :
      (raw : Text) (e : Error) (w : World S)
      → normalize_url lib raw ≡ err e
      → (finished raw (err e), w) ≡ look_up lib sources repo raw w
  unfolding look_up
  look_up_refused raw e w bad = ground arith

  look_up-Moved :
      (raw : Text) (w : World S)
      → WorldSound i lib sources injective w
      → Moved i lib sources injective w (look_up lib sources repo raw w)
  look_up-Moved raw w sound = elim (Result-cases (normalize_url lib raw)) [
    | inr (e, bad) ↦
        subst (Moved i lib sources injective w) (look_up_refused raw e w bad)
          (record { world = sound; grows = λ c v h. h; request = tt })
    | inl (t, norm) ↦
        let same = i.hash_keeps (hash_url lib t) w.store sound.valid in
        subst (Moved i lib sources injective w) (look_up_found raw t w norm) (record {
          world = record {
            valid = i.hash_valid (hash_url lib t) w.store sound.valid;
            fresh = λ n later. same (sources.generate n) ∙ sound.fresh n later;
          };
          grows = same-Grows (rows w.store) _ same;
          request = found_sound raw (hash_url lib t) t w.store _ sound.valid norm refl refl;
        })
  ]

  saved_or_not :
      (u : ShortUrl) (w : World S)
      → Valid w.store
      → rows w.store u.code ≡ none
      → SavedOrNot u.code (keep u) (rows w.store) (rows (repo.save u w.store).1)
  saved_or_not u w valid unused = elim (Option-cases (repo.save u w.store).0) [
    | inl done ↦ was_saved (i.save_ok u w.store valid unused done)
    | inr (e, failed) ↦ elim (i.save_failed u w.store valid unused e failed) [
      | inl same ↦ not_saved same
      | inr added ↦ was_saved added
    ]
  ]

  pub save_new-state :
      (u : ShortUrl) (w : World S)
      → (save_new repo (u, w)).1 ≡ record w { store = (repo.save u w.store).1 }
  unfolding save_new
  save_new-state u w = elim (Option-cases (repo.save u w.store).0) [
    | inl done ↦ ground arith
    | inr (e, failed) ↦ ground arith
  ]

  saved_request :
      (raw hash t : Text) (u : ShortUrl) (w : World S) (r : Result ShortUrl)
      → Valid w.store
      → rows w.store u.code ≡ none
      → normalize_url lib raw ≡ ok t
      → hash ≡ hash_url lib t
      → u.url_hash ≡ hash
      → (save_new repo (u, w)).0 ≡ r
      → RequestSound i lib sources injective (rows (save_new repo (u, w)).1.store) (finished raw r)
  saved_request raw hash t u w (err e) valid unused norm hashed tagged result = tt
  saved_request raw hash t u w (ok v) valid unused norm hashed tagged result =
      let (same, saved) = save_new-Saved i u v w valid unused result in
      subst
        (λ x.
          RequestSound i lib sources injective (rows (save_new repo (u, w)).1.store)
            (finished raw (ok x)))
        (sym same)
        (
          hash,
          record {
            page = t;
            normal = norm;
            hashed = hashed;
            row = saved.added u.code ∙ with_row_self u.code (keep u) (rows w.store);
            tagged = tagged;
          },
        )

  save_new-Moved :
      (raw hash t : Text) (w : World S)
      → WorldSound i lib sources injective w
      → normalize_url lib raw ≡ ok t
      → hash ≡ hash_url lib t
      → let out = save_new repo (fresh_url sources raw hash w) in
        Moved i lib sources injective w (finished raw out.0, out.1)
  unfolding fresh_url
  save_new-Moved raw hash t w sound norm hashed =
      let made = fresh_url sources raw hash w in
      let u = made.0 in
      let w' = (save_new repo made).1 in
      let state = save_new-state u made.1 in
      let unused : rows w.store u.code ≡ none = sound.fresh w.generated (omega arith) in
      let change : SavedOrNot u.code (keep u) (rows w.store) (rows w'.store) =
        subst (λ x. SavedOrNot u.code (keep u) (rows w.store) (rows x.store)) (sym state)
          (saved_or_not u made.1 sound.valid unused) in
      record {
        world = record {
          valid =
              subst (λ x. Valid x.store) (sym state) (i.save_valid u w.store sound.valid unused);
          fresh = λ n later.
              let count : w'.generated ≡ w.generated + 1 = ap (λ x. x.generated) state in
              SavedOrNot-other u.code (keep u) (rows w.store) (rows w'.store) (sources.generate n)
                change (λ e. ground (arith, injective w.generated n e))
              ∙ sound.fresh n (omega arith);
        };
        grows = SavedOrNot-Grows u.code (keep u) (rows w.store) (rows w'.store) unused change;
        request = saved_request raw hash t u made.1 _ sound.valid unused norm hashed refl refl;
      }

  conclude-Moved :
      (raw hash : Text) (found : Result ShortUrl) (w : World S)
      → WorldSound i lib sources injective w
      → RequestSound i lib sources injective (rows w.store) (looked_up raw hash found)
      → Moved i lib sources injective w (conclude lib sources repo raw hash found w)
  unfolding conclude hash_found
  conclude-Moved raw hash (ok u) w sound r = record {
    world = sound;
    grows = λ c v h. h;
    request = (hash, r);
  }
  conclude-Moved raw hash (err not_found) w sound (t, norm, hashed) =
      save_new-Moved raw hash t w sound norm hashed
  conclude-Moved raw hash (err panic) w sound r = record {
    world = sound;
    grows = λ c v h. h;
    request = tt;
  }
  conclude-Moved raw hash (err (failure m)) w sound r = record {
    world = sound;
    grows = λ c v h. h;
    request = tt;
  }

  pub Step-Sound :
      (s t : System S)
      → SystemSound i lib sources injective s
      → Step lib sources repo s t
      → SystemSound i lib sources injective t
  Step-Sound s _ sound (looks k raw at) =
      advance-Sound i lib sources injective k s _ sound (look_up-Moved raw s.world sound.world)
  Step-Sound s _ sound (concludes k raw hash found at) =
      advance-Sound i lib sources injective k s _ sound (
        conclude-Moved raw hash found s.world sound.world
          (subst (RequestSound i lib sources injective (rows s.world.store)) at (sound.requests k)))

  -- However any number of hash strategy requests overtake each other, over a store that meets the
  -- contract, whose rows have none of the codes to come, and with a generator that repeats no code:
  -- the store stays valid, what a request has found or returned is a row of the store with the hash
  -- of the request's URL, and the codes to come have no rows.
  pub Reach-Sound :
      (s t : System S)
      → SystemSound i lib sources injective s
      → Reach lib sources repo s t
      → SystemSound i lib sources injective t
  Reach-Sound s _ sound here = sound
  Reach-Sound s t sound (next {t = u} path step) = Step-Sound u t (Reach-Sound s u sound path) step
