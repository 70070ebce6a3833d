-- ===== src/Shortener.antt =====
-- internal/shortener/shorturl.go, repository.go and strategy.go. A context only carries deadlines
-- to the store, so it has no part in the model.
pub mod UrlHash
pub mod Suffixes
pub mod Normal
pub mod Laws
pub mod Dedup
pub mod Race
use web_demo_go.Shortener.UrlHash.{UrlLib, normalize_url, hash_url}
use web_demo_go.Prelude.{
  ℕ, ◌+◌, Option, none, some, Bool, [], Text, ℤ, Error, Result, ok, err, is_not_found,
  if◌then◌else◌,
}

-- `ShortURL`; `created_at` is in nanoseconds since the epoch.
pub record ShortUrl : Type 0 where
  pub code : Text
  pub original_url : Text
  -- empty for the token strategy
  pub url_hash : Text
  pub created_at : ℤ

-- The interface `Repository`, over its state `S`. A nil error is `none`.
pub record Repository (S : Type 0) : Type 0 where
  pub save : ShortUrl → S → Option Error × S
  pub get_by_code : Text → S → Result ShortUrl × S
  pub get_by_hash : Text → S → Result ShortUrl × S

-- What the strategies read besides the store: the results of the code generator and of the clock,
-- by the number of the call.
pub record Sources : Type 0 where
  pub generate : ℕ → Text
  pub now : ℕ → ℤ

pub record World (S : Type 0) : Type 0 where
  pub store : S
  pub generated : ℕ
  pub ticks : ℕ

module _ {S : Type 0} where
  -- `Code(s.generateCode())` and `time.Now()` in one entity.
  unfoldable pub fresh_url : Sources → Text → Text → World S → ShortUrl × World S
  fresh_url sources url hash w = (
    record {
      code = sources.generate w.generated;
      original_url = url;
      url_hash = hash;
      created_at = sources.now w.ticks;
    },
    record w { generated = w.generated + 1; ticks = w.ticks + 1 },
  )

  -- `if err := s.store.Save(ctx, shortURL); err != nil`
  unfoldable pub save_new : Repository S → ShortUrl × World S → Result ShortUrl × World S
  save_new repo (u, w) =
      let (failed, s) = repo.save u w.store in
      elim failed [
        | none ↦ (ok u, record w { store = s })
        | some e ↦ (err e, record w { store = s })
      ]

  -- `TokenStrategy.Shorten`
  unfoldable pub token_shorten : Sources → Repository S → Text → World S → Result ShortUrl × World S
  unfolding fresh_url save_new
  token_shorten sources repo url w = save_new repo (fresh_url sources url [] w)

  -- The part of `HashStrategy.Shorten` after the lookup by hash.
  unfoldable pub hash_found :
      Sources → Repository S → Text → Text → Result ShortUrl → World S → Result ShortUrl × World S
  unfolding fresh_url save_new
  hash_found sources repo raw_url hash (ok existing) w = (ok existing, w)
  hash_found sources repo raw_url hash (err e) w =
      if is_not_found e then save_new repo (fresh_url sources raw_url hash w) else (err e, w)

  module _ {O : Type 0} (lib : UrlLib O) where
    -- `HashStrategy.Shorten`
    unfoldable pub hash_shorten :
        Sources → Repository S → Text → World S → Result ShortUrl × World S
    unfolding hash_found
    hash_shorten sources repo raw_url w = elim (normalize_url lib raw_url) [
      | err e ↦ (err e, w)
      | ok normalized ↦
          let hash = hash_url lib normalized in
          let (found, s) = repo.get_by_hash hash w.store in
          hash_found sources repo raw_url hash found (record w { store = s })
    ]
