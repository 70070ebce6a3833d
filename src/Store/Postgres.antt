-- ===== src/Store/Postgres.antt =====
-- internal/store/postgres.go. The pool of pgx and the database behind it are a parameter.
pub mod Laws
pub mod Table
use web_demo_go.Prelude.{
  Option, none, some, [], Text, text_eq, ℤ, Error, not_found, Result, ok, err, if◌then◌else◌,
}
use web_demo_go.Shortener.{ShortUrl, Repository}

-- A row of the table `short_urls`; a null is `none`.
pub record Row : Type 0 where
  pub code : Text
  pub original_url : Text
  pub url_hash : Option Text
  pub created_at : ℤ

-- The result of `QueryRow(...).Scan(...)`, with `pgx.ErrNoRows` apart from the other errors.
pub data Queried : Type 0 where
  one_row : Row → Queried
  no_rows : Queried
  query_failed : Error → Queried

-- The three statements of the store, over the state `D` of the database.
pub record Pool (D : Type 0) : Type 0 where
  -- INSERT ... ON CONFLICT (code) DO NOTHING
  pub insert_row : Row → D → Option Error × D
  -- SELECT ... WHERE code = $1
  pub select_code : Text → D → Queried × D
  -- SELECT ... WHERE url_hash = $1
  pub select_hash : Text → D → Queried × D

unfoldable pub nullable_string : Text → Option Text
nullable_string s = if text_eq s [] then none else some s

-- The arguments of the insert.
unfoldable pub row_of : ShortUrl → Row
unfolding nullable_string
row_of u = record {
  code = u.code;
  original_url = u.original_url;
  url_hash = nullable_string u.url_hash;
  created_at = u.created_at;
}

-- The scanned entity: a null hash is left empty.
unfoldable pub scan : Row → ShortUrl
scan r = record {
  code = r.code;
  original_url = r.original_url;
  url_hash = elim r.url_hash [ none ↦ [] | some hash ↦ hash ];
  created_at = r.created_at;
}

-- What follows a query.
unfoldable pub finish_query : Queried → Result ShortUrl
unfolding scan
finish_query (one_row r) = ok (scan r)
finish_query no_rows = err not_found
finish_query (query_failed e) = err e

module _ {D : Type 0} (pool : Pool D) where
  unfoldable pub save_row : ShortUrl → D → Option Error × D
  unfolding row_of
  save_row u d = pool.insert_row (row_of u) d

  unfoldable pub find_code : Text → D → Result ShortUrl × D
  unfolding finish_query
  find_code code d = let (r, d') = pool.select_code code d in (finish_query r, d')

  unfoldable pub find_hash : Text → D → Result ShortUrl × D
  unfolding finish_query
  find_hash hash d = let (r, d') = pool.select_hash hash d in (finish_query r, d')

  abbrev pub postgres_repository : Repository D
  postgres_repository = record { save = save_row; get_by_code = find_code; get_by_hash = find_hash }
