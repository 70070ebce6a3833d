-- ===== src/Shortener/Race/Twice.antt =====
-- Two requests of internal/shortener/strategy.go that overtake each other.
use mathlib.Core.Path.{subst}
use web_demo_go.Prelude.{
  ◌≡◌, ◌≢◌, sym, ap, ◌∙◌, ℕ, ◌+◌, some, not_found, ok, err, Option-cases, inl, inr, Text, arith,
}
use web_demo_go.Shortener.{ShortUrl, Repository, Sources, World, fresh_url, save_new, hash_found}
use web_demo_go.Shortener.UrlHash.{UrlLib, normalize_url, hash_url}
use web_demo_go.Shortener.Race.{
  waiting, looked_up, finished, System, look_up, conclude, advance, looks, concludes, Reach, here,
  next,
}
use web_demo_go.Shortener.Race.Sound.{RequestSound, SystemSound}
use web_demo_go.Shortener.Race.Safe.{look_up_found, save_new-state, Reach-Sound}
use web_demo_go.Store.Contract.{Rows, IsStore}

ok_eq : (a b : Text) → ok a ≡ ok b → a ≡ b
ok_eq a b e = ground arith

module _ {keep : ShortUrl → ShortUrl} {S O : Type 0} {repo : Repository S} {Valid : S → Type 0}
    {rows : S → Rows} (i : IsStore keep repo Valid rows) (lib : UrlLib O) (sources : Sources)
    (injective : (m n : ℕ) → sources.generate m ≡ sources.generate n → m ≡ n) (raw raw' t : Text)
    (s : System S) where
  -- Both look up, and then both go on without a row of the hash.
  abbrev hash : Text
  hash = hash_url lib t

  abbrev one_looked : System S
  one_looked = advance lib sources repo 0 (look_up lib sources repo raw s.world) s

  abbrev pub both_looked : System S
  both_looked =
      advance lib sources repo 1 (look_up lib sources repo raw' one_looked.world) one_looked

  abbrev one_done : System S
  one_done =
      advance lib sources repo 0
        (conclude lib sources repo raw hash (err not_found) both_looked.world) both_looked

  abbrev pub both_done : System S
  both_done =
      advance lib sources repo 1
        (conclude lib sources repo raw' hash (err not_found) one_done.world) one_done

  concluded_code :
      (r : Text) (w : World S) (u : ShortUrl)
      → (conclude lib sources repo r hash (err not_found) w).0 ≡ finished r (ok u)
      → u.code ≡ sources.generate w.generated
  unfolding conclude hash_found save_new fresh_url
  concluded_code r w u h =
      elim (Option-cases (repo.save (fresh_url sources r hash w).0 w.store).0) [
        | inl done ↦ ground arith
        | inr (e, failed) ↦ absurd (ground arith)
      ]

  concluded_count :
      (r : Text) (w : World S)
      → (conclude lib sources repo r hash (err not_found) w).1.generated ≡ w.generated + 1
  unfolding conclude hash_found
  concluded_count r w =
      ap (λ x. x.generated)
        (save_new-state i lib sources injective (fresh_url sources r hash w).0
          (fresh_url sources r hash w).1)

  module _ (norm : normalize_url lib raw ≡ ok t) (norm' : normalize_url lib raw' ≡ ok t)
      (missed : (repo.get_by_hash hash s.world.store).0 ≡ err not_found)
      (missed' : (repo.get_by_hash hash one_looked.world.store).0 ≡ err not_found)
      (at0 : s.requests 0 ≡ waiting raw) (at1 : s.requests 1 ≡ waiting raw') where
    looked :
        (r : Text) (w : World S)
        → normalize_url lib r ≡ ok t
        → (repo.get_by_hash hash w.store).0 ≡ err not_found
        → (look_up lib sources repo r w).0 ≡ looked_up r hash (err not_found)
    looked r w norm missed =
        ap (λ x. x.0) (sym (look_up_found i lib sources injective r t w norm))
        ∙ ap (looked_up r hash) missed

    overtaking-Reach : Reach lib sources repo s both_done
    overtaking-Reach =
        next
          (next (next (next here (looks 0 raw at0)) (looks 1 raw' at1))
            (concludes 0 raw hash (err not_found) (looked raw s.world norm missed)))
          (concludes 1 raw' hash (err not_found) (looked raw' one_looked.world norm' missed'))

    page_hash :
        (r : Text) (u : ShortUrl)
        → normalize_url lib r ≡ ok t
        → RequestSound i lib sources injective (rows both_done.world.store) (finished r (ok u))
        → (rows both_done.world.store u.code ≡ some (keep u)) × (u.url_hash ≡ hash)
    page_hash r u norm (tag, found) =
        let same : found.page ≡ t = ok_eq found.page t (sym found.normal ∙ norm) in
        (found.row, found.tagged ∙ found.hashed ∙ ap (hash_url lib) same)

    -- Two hash strategy requests for one page, of which each looks the hash up before the other
    -- saves: the steps are possible, and where both lookups find nothing and both requests succeed,
    -- the store has two rows for the page, under different codes and with the same hash.
    pub overtaking-twice :
        (u v : ShortUrl)
        → SystemSound i lib sources injective s
        → both_done.requests 0 ≡ finished raw (ok u)
        → both_done.requests 1 ≡ finished raw' (ok v)
        → Reach lib sources repo s both_done
          × (u.code ≢ v.code)
          × (rows both_done.world.store u.code ≡ some (keep u))
          × (rows both_done.world.store v.code ≡ some (keep v))
          × (u.url_hash ≡ v.url_hash)
    overtaking-twice u v sound done0 done1 =
        let end = Reach-Sound i lib sources injective s both_done sound overtaking-Reach in
        let (row0, tag0) = page_hash raw u norm (
          subst (RequestSound i lib sources injective (rows both_done.world.store)) done0
            (end.requests 0)) in
        let (row1, tag1) = page_hash raw' v norm' (
          subst (RequestSound i lib sources injective (rows both_done.world.store)) done1
            (end.requests 1)) in
        let code0 = concluded_code raw both_looked.world u done0 in
        let code1 = concluded_code raw' one_done.world v done1 in
        let count = concluded_count raw both_looked.world in
        (
          overtaking-Reach,
          (λ e. let same = injective _ _ (sym code0 ∙ e ∙ code1) ∙ count in omega (arith, same)),
          row0,
          row1,
          tag0 ∙ sym tag1,
        )
