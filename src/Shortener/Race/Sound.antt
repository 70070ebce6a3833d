-- ===== src/Shortener/Race/Sound.antt =====
-- What each request of internal/shortener/strategy.go has found, and what a step may leave.

use web_demo_go.Prelude.{
  ◌≡◌, ◌≢◌, inl, inr, ◌∙◌, ℕ, ◌≤◌, none, some, Text, text_eq_iff, nat_eq, Bool-cases, ok, err,
  arith,
}
use web_demo_go.Shortener.{ShortUrl, Repository, Sources, World}
use web_demo_go.Shortener.UrlHash.{UrlLib, normalize_url, hash_url}
use web_demo_go.Shortener.Race.{
  Request, waiting, looked_up, finished, System, with_request, advance,
}
use web_demo_go.Store.Contract.{Rows, IsStore, Grows, same-Grows, with_row, with_row-Grows}

-- Rows after a `Save`: the same, or with one more.
pub data SavedOrNot (code : Text) (u : ShortUrl) (rows rows' : Rows) : Type 0 where
  not_saved : ((c : Text) → rows' c ≡ rows c) → SavedOrNot code u rows rows'
  was_saved : ((c : Text) → rows' c ≡ with_row code u rows c) → SavedOrNot code u rows rows'

pub SavedOrNot-Grows :
    (code : Text) (u : ShortUrl) (rows rows' : Rows)
    → rows code ≡ none
    → SavedOrNot code u rows rows'
    → Grows rows rows'
SavedOrNot-Grows code u rows rows' unused (not_saved same) = same-Grows rows rows' same
SavedOrNot-Grows code u rows rows' unused (was_saved added) =
    with_row-Grows code u rows rows' unused added

pub SavedOrNot-other :
    (code : Text) (u : ShortUrl) (rows rows' : Rows) (c : Text)
    → SavedOrNot code u rows rows'
    → code ≢ c
    → rows' c ≡ rows c
SavedOrNot-other code u rows rows' c (not_saved same) apart = same c
SavedOrNot-other code u rows rows' c (was_saved added) apart =
    added c ∙ ground (arith, text_eq_iff code c)

module _ {keep : ShortUrl → ShortUrl} {S O : Type 0} {repo : Repository S} {Valid : S → Type 0}
    {rows : S → Rows} (i : IsStore keep repo Valid rows) (lib : UrlLib O) (sources : Sources)
    (injective : (m n : ℕ) → sources.generate m ≡ sources.generate n → m ≡ n) where
  -- The entity that a request for this URL may return.
  pub record IsRow (raw hash : Text) (u : ShortUrl) (now : Rows) : Type 0 where
    pub page : Text
    pub normal : normalize_url lib raw ≡ ok page
    pub hashed : hash ≡ hash_url lib page
    pub row : now u.code ≡ some (keep u)
    pub tagged : u.url_hash ≡ hash

  -- What a request has found or returned is a row; a hash is that of its URL.
  abbrev pub RequestSound : Rows → Request → Type 0
  RequestSound now (waiting raw) = Unit
  RequestSound now (looked_up raw hash (ok u)) = IsRow raw hash u now
  RequestSound now (looked_up raw hash (err e)) =
      (t : Text) × (normalize_url lib raw ≡ ok t) × (hash ≡ hash_url lib t)
  RequestSound now (finished raw (ok u)) = (hash : Text) × IsRow raw hash u now
  RequestSound now (finished raw (err e)) = Unit

  pub IsRow-Grows :
      (raw hash : Text) (u : ShortUrl) (old new : Rows)
      → Grows old new
      → IsRow raw hash u old
      → IsRow raw hash u new
  IsRow-Grows raw hash u old new grow r = record {
    page = r.page;
    normal = r.normal;
    hashed = r.hashed;
    row = grow u.code (keep u) r.row;
    tagged = r.tagged;
  }

  pub RequestSound-Grows :
      (old new : Rows) (r : Request) → Grows old new → RequestSound old r → RequestSound new r
  RequestSound-Grows old new (waiting raw) grow ok_now = tt
  RequestSound-Grows old new (looked_up raw hash (ok u)) grow r =
      IsRow-Grows raw hash u old new grow r
  RequestSound-Grows old new (looked_up raw hash (err e)) grow r = r
  RequestSound-Grows old new (finished raw (ok u)) grow (hash, r) =
      (hash, IsRow-Grows raw hash u old new grow r)
  RequestSound-Grows old new (finished raw (err e)) grow r = tt

  -- The codes to come have no rows.
  pub record WorldSound (w : World S) : Type 0 where
    pub valid : Valid w.store
    pub fresh : (n : ℕ) → w.generated ≤ n → rows w.store (sources.generate n) ≡ none

  pub record SystemSound (s : System S) : Type 0 where
    pub world : WorldSound s.world
    pub requests : (k : ℕ) → RequestSound (rows s.world.store) (s.requests k)

  -- What one call leaves.
  pub record Moved (w : World S) (out : Request × World S) : Type 0 where
    pub world : WorldSound out.1
    pub grows : Grows (rows w.store) (rows out.1.store)
    pub request : RequestSound (rows out.1.store) out.0

  with_request-Sound :
      (k : ℕ) (r : Request) (requests : ℕ → Request) (now : Rows)
      → RequestSound now r
      → ((j : ℕ) → RequestSound now (requests j))
      → (j : ℕ) → RequestSound now (with_request k r requests j)
  with_request-Sound k r requests now new old j = elim (Bool-cases (nat_eq k j)) [
    | inl same ↦ rw same new
    | inr other ↦ rw other (old j)
  ]

  pub advance-Sound :
      (k : ℕ) (s : System S) (out : Request × World S)
      → SystemSound s
      → Moved s.world out
      → SystemSound (advance lib sources repo k out s)
  advance-Sound k s (r, w) sound moved = record {
    world = moved.world;
    requests = with_request-Sound k r s.requests (rows w.store) moved.request (λ j.
        RequestSound-Grows (rows s.world.store) (rows w.store) (s.requests j) moved.grows
          (sound.requests j));
  }
