-- ===== src/Shortener/Race.antt =====
-- Requests that run `HashStrategy.Shorten` of internal/shortener/strategy.go at the same time. Each
-- call of the store is one step; between its lookup and its save a request can be overtaken.
pub mod Sound
pub mod Safe
pub mod Twice
use web_demo_go.Prelude.{◌≡◌, ℕ, Text, nat_eq, Result, ok, err, if◌then◌else◌}
use web_demo_go.Shortener.{ShortUrl, Repository, Sources, World, hash_found}
use web_demo_go.Shortener.UrlHash.{UrlLib, normalize_url, hash_url}

-- How far a request has come.
pub data Request : Type 0 where
  waiting : Text → Request
  -- after `GetByHash`, with the hash and the answer
  looked_up : Text → Text → Result ShortUrl → Request
  finished : Text → Result ShortUrl → Request

pub record System (S : Type 0) : Type 0 where
  pub world : World S
  pub requests : ℕ → Request

abbrev pub with_request : ℕ → Request → (ℕ → Request) → ℕ → Request
with_request i r requests j = if nat_eq i j then r else requests j

module _ {S O : Type 0} (lib : UrlLib O) (sources : Sources) (repo : Repository S) where
  -- `Shorten` up to the lookup.
  unfoldable pub look_up : Text → World S → Request × World S
  look_up raw w = elim (normalize_url lib raw) [
    | err e ↦ (finished raw (err e), w)
    | ok normalized ↦
        let hash = hash_url lib normalized in
        let (found, s) = repo.get_by_hash hash w.store in
        (looked_up raw hash found, record w { store = s })
  ]

  -- `Shorten` from there on, where it was overtaken at most by whole calls of the store.
  unfoldable pub conclude : Text → Text → Result ShortUrl → World S → Request × World S
  unfolding hash_found
  conclude raw hash found w =
      let (r, w') = hash_found sources repo raw hash found w in (finished raw r, w')

  abbrev pub advance : ℕ → Request × World S → System S → System S
  advance i (r, w) s = record { world = w; requests = with_request i r s.requests }

  pub data Step (s : System S) : System S → Type 0 where
    looks :
        (i : ℕ) (raw : Text)
        → s.requests i ≡ waiting raw
        → Step s (advance i (look_up raw s.world) s)
    concludes :
        (i : ℕ) (raw hash : Text) (found : Result ShortUrl)
        → s.requests i ≡ looked_up raw hash found
        → Step s (advance i (conclude raw hash found s.world) s)

  pub data Reach (s : System S) : System S → Type 0 where
    here : Reach s s
    next : {t t' : System S} → Reach s t → Step t t' → Reach s t'
