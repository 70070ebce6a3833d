-- ===== src/Store/Postgres/Laws.antt =====
-- internal/store/postgres.go by itself, and behind internal/store/cached.go.
use web_demo_go.Prelude.{◌≡◌, none, [], Text, Text_eq, text_eq_iff, Map, ok, arith}
use web_demo_go.Lru.{Lru}
use web_demo_go.Lru.Refines.{Represents}
use web_demo_go.Lru.Runs.{get-set_self}
use web_demo_go.Shortener.{ShortUrl}
use web_demo_go.Store.Cached.{save, get_by_code}
use web_demo_go.Store.Postgres.{
  Row, Pool, one_row, row_of, scan, nullable_string, save_row, find_code, finish_query,
  postgres_repository,
}

-- An entity comes back from its row as it was: the empty hash, which is stored as a null, too.
pub scan-row_of : (u : ShortUrl) → scan (row_of u) ≡ u
unfolding scan row_of nullable_string
scan-row_of u = ground (arith, text_eq_iff u.url_hash [])

module _ {D : Type 0} (pool : Pool D) where
  module _ (u : ShortUrl) (old : Row) (d : D) (cache : Lru Text ShortUrl) (l : Map Text ShortUrl)
      (shown : Represents cache l) where
    -- A code that the table already has: where the insert skips the conflict and reports no error,
    -- `Save` behind the cache reports success, the table keeps its old row and its answer, and the
    -- cache then answers the code with the entity that was not stored.
    pub save-taken :
        pool.insert_row (row_of u) d ≡ (none, d)
        → pool.select_code u.code d ≡ (one_row old, d)
        → let c = (save (postgres_repository pool) u (record { store = d; cache = cache })).1 in
          ((save (postgres_repository pool) u (record { store = d; cache = cache })).0 ≡ none)
          × (c.store ≡ d)
          × ((find_code pool u.code c.store).0 ≡ ok (scan old))
          × ((get_by_code (postgres_repository pool) u.code c).0 ≡ ok u)
    unfolding save get_by_code save_row find_code finish_query
    save-taken skipped selected =
        let (c1, c2, stored, read) = get-set_self u.code u cache l shown in
        (ground arith, ground arith, ground arith, ground arith)
